-- ===== src/Rencode/RoundTrip/Containers.antt =====
-- The two forms of a list and of a dictionary: the count in the tag, or a terminator.
use native.Mathlib.Decide.{dec_lt}
use go_xpra.Prelude.{
  ℕ, zero, suc, ◌+◌, ◌-◌, ◌≤◌, ◌<◌, ◌≡◌, refl, ◌∙◌, true, false, List, [], ◌∷◌, ◌++◌, map, arith,
  length, length-append, length-map, append_assoc, ap, lt→ltb, le→ltb,
}
use go_xpra.Prelude.Bytes.{Bytes}
use go_xpra.Prelude.Result.{ok, ◌>>=◌}
use go_xpra.Rencode.Value.{Value, no_entries}
use go_xpra.Rencode.Tag
use go_xpra.Rencode.Tag.{list_fixed_start, dict_fixed_start}
use go_xpra.Rencode.Encode.{Writer, write_all, encode_counted, encode_list, encode_dict}
use go_xpra.Rencode.Decode.{value, list, dict, as_list, as_map}
use go_xpra.Rencode.Received.{to_values, set_all}
use go_xpra.Rencode.RoundTrip.Codec.{Codec, Writes, Reads}
use go_xpra.Rencode.RoundTrip.Lists.{
  Item, Pair, pair_write, images, pair_images, assignments, list_reads, dict_reads, write_all-items,
  write_all-pairs,
}

-- Writers that together append `bs`, behind their count or before a terminator.
module _ (start count tag : ℕ) (ws : List Writer) (bs : Bytes)
    (all : (buf : Bytes) → write_all ws buf ≡ ok (buf ++ bs)) where
  encode_counted-few :
      length ws < count → Writes (encode_counted start count tag ws) ((start + length ws) ∷ bs)
  unfolding encode_counted
  encode_counted-few h buf =
      rw (lt→ltb _ _ h, all (buf ++ (start + length ws) ∷ [])) (ap ok (append_assoc buf _ bs))

  encode_counted-many :
      count ≤ length ws → Writes (encode_counted start count tag ws) (tag ∷ (bs ++ Tag.term ∷ []))
  unfolding encode_counted
  encode_counted-many h buf =
      rw (le→ltb _ _ h, all (buf ++ tag ∷ []))
        (ap ok (append_assoc (buf ++ tag ∷ []) bs _ ∙ append_assoc buf _ _))

value-list :
    (f depth n : ℕ) (ts : Bytes)
    → depth ≤ 64
    → value (suc f) depth ((192 + n) ∷ ts) ≡ (list f n false depth ts >>= as_list)
unfolding value
value-list f depth n ts h = let e : 192 + n - 192 ≡ n = omega arith in ground arith

value-list_open :
    (f depth : ℕ) (ts : Bytes)
    → depth ≤ 64
    → value (suc f) depth (Tag.list ∷ ts) ≡ (list f 0 true depth ts >>= as_list)
unfolding value
value-list_open f depth ts h = ground arith

value-dict :
    (f depth n : ℕ) (ts : Bytes)
    → depth ≤ 64
    → n < 25
    → value (suc f) depth ((102 + n) ∷ ts) ≡ (dict f n false depth no_entries ts >>= as_map)
unfolding value
value-dict f depth n ts h hn = let e : 102 + n - 102 ≡ n = omega arith in ground arith

value-dict_open :
    (f depth : ℕ) (ts : Bytes)
    → depth ≤ 64
    → value (suc f) depth (Tag.dict ∷ ts) ≡ (dict f 0 true depth no_entries ts >>= as_map)
unfolding value
value-dict_open f depth ts h = ground arith

module _ (h : ℕ) (is : List (Item h)) where
  abbrev list_value : Value
  list_value = Value.list (to_values (map (λ i. i.val) is))

  list_few-Reads : Reads h ((192 + length is) ∷ images h is) list_value
  list_few-Reads rest zero depth hf hd = absurd (omega arith)
  list_few-Reads rest (suc f) depth hf hd =
      value-list f depth (length is) (images h is ++ rest) (omega arith)
      ∙ rw (list_reads h is false rest f depth (omega arith) hd) (unfold as_list in refl)

  list_many-Reads : Reads h (Tag.list ∷ (images h is ++ Tag.term ∷ [])) list_value
  list_many-Reads rest zero depth hf hd = absurd (omega arith)
  list_many-Reads rest (suc f) depth hf hd =
      value-list_open f depth ((images h is ++ Tag.term ∷ []) ++ rest) (omega arith)
      ∙ rw
          (
            append_assoc (images h is) (Tag.term ∷ []) rest,
            list_reads h is true rest f depth
                (omega (arith, length-append (images h is) (Tag.term ∷ []))) hd,
          )
          (unfold as_list in refl)

  -- A list survives if its items do, in both forms.
  pub list-Codec : Codec h (encode_list (map (λ i. i.write) is)) list_value
  unfolding encode_list
  list-Codec =
      let ws = map (λ (i : Item h). i.write) is in
      let few =
        encode_counted-few list_fixed_start 64 Tag.list ws (images h is) (write_all-items h is) in
      let many =
        encode_counted-many list_fixed_start 64 Tag.list ws (images h is) (write_all-items h is) in
      let n : length ws ≡ length is = length-map (λ (i : Item h). i.write) is in
      elim (dec_lt (length is) 64) [
        | yes a ↦ record {
          image = (192 + length is) ∷ images h is;
          writes = rw n at (few (omega arith));
          starts = omega arith;
          reads = list_few-Reads;
        }
        | no a ↦ record {
          image = Tag.list ∷ (images h is ++ Tag.term ∷ []);
          writes = many (omega arith);
          starts = omega arith;
          reads = list_many-Reads;
        }
      ]

module _ (h : ℕ) (ps : List (Pair h)) where
  abbrev map_value : Value
  map_value = Value.map_text (set_all no_entries (assignments h ps))

  dict_few-Reads : length ps < 25 → Reads h ((102 + length ps) ∷ pair_images h ps) map_value
  dict_few-Reads few rest zero depth hf hd = absurd (omega arith)
  dict_few-Reads few rest (suc f) depth hf hd =
      value-dict f depth (length ps) (pair_images h ps ++ rest) (omega arith) few
      ∙ rw (dict_reads h ps no_entries false rest f depth (omega arith) hd) (unfold as_map in refl)

  dict_many-Reads : Reads h (Tag.dict ∷ (pair_images h ps ++ Tag.term ∷ [])) map_value
  dict_many-Reads rest zero depth hf hd = absurd (omega arith)
  dict_many-Reads rest (suc f) depth hf hd =
      value-dict_open f depth ((pair_images h ps ++ Tag.term ∷ []) ++ rest) (omega arith)
      ∙ rw
          (
            append_assoc (pair_images h ps) (Tag.term ∷ []) rest,
            dict_reads h ps no_entries true rest f depth
                (omega (arith, length-append (pair_images h ps) (Tag.term ∷ []))) hd,
          )
          (unfold as_map in refl)

  pub dict-Codec : Codec h (encode_dict (map (pair_write h) ps)) map_value
  unfolding encode_dict
  dict-Codec =
      let ws = map (pair_write h) ps in
      let few =
        encode_counted-few dict_fixed_start 25 Tag.dict ws (pair_images h ps)
          (write_all-pairs h ps) in
      let many =
        encode_counted-many dict_fixed_start 25 Tag.dict ws (pair_images h ps)
          (write_all-pairs h ps) in
      let n : length ws ≡ length ps = length-map (pair_write h) ps in
      elim (dec_lt (length ps) 25) [
        | yes a ↦ record {
          image = (102 + length ps) ∷ pair_images h ps;
          writes = rw n at (few (omega arith));
          starts = omega arith;
          reads = dict_few-Reads a;
        }
        | no a ↦ record {
          image = Tag.dict ∷ (pair_images h ps ++ Tag.term ∷ []);
          writes = many (omega arith);
          starts = omega arith;
          reads = dict_many-Reads;
        }
      ]
