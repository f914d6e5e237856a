-- ===== src/Rencode/RoundTrip/Values.antt =====
-- rencodeplus/: encoder and decoder on values of every kind, by induction.
use go_xpra.Prelude.{ℕ, ◌^◌, ◌≤◌, refl, List, [], ◌∷◌, map, arith, All, none, some, ◌-◌, le→ltb}
use go_xpra.Prelude.Int.{ℤ, pos, IsSigned, ltb_ℤ}
use go_xpra.Prelude.Bytes.{Bytes, bytes_lt}
use go_xpra.Prelude.Result.{ok}
use go_xpra.Rencode.Value.{
  Value, Values, Entries, IntEntries, no_values, item, no_entries, entry, no_int_entries, int_entry,
}
use go_xpra.Rencode.Encode.{
  encode, encode_string, encode_int, item_writers, entry_writers, int_entry_writers,
}
use go_xpra.Rencode.Received.{
  IsText, IsEncodable, AreEncodable, EntriesEncodable, IntEntriesEncodable, height, height_values,
  height_entries, height_int_entries, received, received_values, received_entries,
  received_int_entries, to_values,
}
use go_xpra.Rencode.RoundTrip.Codec.{Codec}
use go_xpra.Rencode.RoundTrip.Ints.{int-Codec}
use go_xpra.Rencode.RoundTrip.Texts.{text-Codec, binary-Codec, nil-Codec, bool-Codec, float-Codec}
use go_xpra.Rencode.RoundTrip.Floats.{widen-lt}
use go_xpra.Rencode.RoundTrip.Bigs.{big-Codec}
use go_xpra.Rencode.RoundTrip.Entries.{
  ItemsOf, EntriesOf, list_value-Codec, dict_value-Codec, int_dict_value-Codec, sort_keys-EntriesOf,
}

-- A typed slice is a list whose items nest no further.
texts-ItemsOf :
    (ss : List Bytes)
    → All IsText ss
    → ItemsOf 1 (map (λ s b. ok (encode_string b s)) ss) (to_values (map Value.text ss))
unfolding to_values
texts-ItemsOf [] a = ([], refl, refl)
texts-ItemsOf (s ∷ ss) a =
    let (is, ew, ev) = texts-ItemsOf ss a.1 in
    (
      record {
        write = λ b. ok (encode_string b s);
        val = Value.text s;
        level = 0;
        below = omega arith;
        codec = text-Codec s a.0;
      }
          ∷ is,
      rw ew,
      rw ev,
    )

ints-ItemsOf :
    (ns : List ℤ)
    → All (IsSigned (2 ^ 63)) ns
    → ItemsOf 1 (map (λ n b. encode_int b n) ns) (to_values (map Value.int ns))
unfolding to_values
ints-ItemsOf [] a = ([], refl, refl)
ints-ItemsOf (n ∷ ns) a =
    let (is, ew, ev) = ints-ItemsOf ns a.1 in
    (
      record {
        write = λ b. encode_int b n;
        val = Value.int n;
        level = 0;
        below = omega arith;
        codec = int-Codec n a.0;
      }
          ∷ is,
      rw ew,
      rw ev,
    )

mutual
  unfolding encode received IsEncodable height to_values

  pub encode-Codec : (v : Value) → IsEncodable v → Codec (height v) (encode v) (received v)
  encode-Codec Value.nil e = nil-Codec
  encode-Codec (Value.bool b) e = bool-Codec b
  encode-Codec (Value.text s) e = text-Codec s e
  encode-Codec (Value.binary s) e = binary-Codec s e
  encode-Codec (Value.int n) e = int-Codec n e
  encode-Codec (Value.uint n) e =
      let c = int-Codec (pos n) e in
      record {
        image = c.image;
        writes = λ buf. rw (le→ltb (2 ^ 63 - 1) n (omega arith)) (c.writes buf);
        starts = c.starts;
        reads = c.reads;
      }
  encode-Codec (Value.big_int n) e = big-Codec n
  encode-Codec (Value.big_ptr none) e = absurd e
  encode-Codec (Value.big_ptr (some n)) e = big-Codec n
  encode-Codec (Value.float32 b) e = float-Codec _ (widen-lt b e)
  encode-Codec (Value.float64 b) e = float-Codec b e
  encode-Codec (Value.list vs) e =
      list_value-Codec (height_values vs) _ _ (values-ItemsOf vs e (height_values vs) (omega arith))
  encode-Codec (Value.texts []) e = list_value-Codec 0 _ _ ([], refl, refl)
  encode-Codec (Value.texts (s ∷ ss)) e = list_value-Codec 1 _ _ (texts-ItemsOf (s ∷ ss) e)
  encode-Codec (Value.ints []) e = list_value-Codec 0 _ _ ([], refl, refl)
  encode-Codec (Value.ints (n ∷ ns)) e = list_value-Codec 1 _ _ (ints-ItemsOf (n ∷ ns) e)
  encode-Codec (Value.dict es) e =
      dict_value-Codec (height_entries es) _ _
        (entries-EntriesOf es e (height_entries es) (omega arith))
  encode-Codec (Value.map_text es) e = dict_value-Codec (height_entries es) _ _ (
      sort_keys-EntriesOf Bytes IsText bytes_lt (height_entries es) _ _
        (entries-EntriesOf es e (height_entries es) (omega arith)))
  encode-Codec (Value.map_int es) e = int_dict_value-Codec (height_int_entries es) _ _ (
      sort_keys-EntriesOf ℤ (IsSigned (2 ^ 63)) ltb_ℤ (height_int_entries es) _ _
        (int_entries-EntriesOf es e (height_int_entries es) (omega arith)))
  encode-Codec Value.other e = absurd e

  values-ItemsOf :
      (vs : Values)
      → AreEncodable vs
      → (h : ℕ) → height_values vs ≤ h
      → ItemsOf h (item_writers vs) (received_values vs)
  values-ItemsOf no_values e h le = ([], refl, refl)
  values-ItemsOf (item v vs) e h le =
      let c = encode-Codec v e.0 in
      let (is, ew, ev) = values-ItemsOf vs e.1 h (omega arith) in
      (
        record {
          write = encode v;
          val = received v;
          level = height v;
          below = omega arith;
          codec = c;
        }
            ∷ is,
        rw ew,
        rw ev,
      )

  entries-EntriesOf :
      (es : Entries)
      → EntriesEncodable es
      → (h : ℕ) → height_entries es ≤ h
      → EntriesOf Bytes IsText h (entry_writers es) (received_entries es)
  entries-EntriesOf no_entries e h le = ([], refl, refl, tt)
  entries-EntriesOf (entry k v es) e h le =
      let c = encode-Codec v e.1 in
      let (l, ew, ev, a) = entries-EntriesOf es e.2 h (omega arith) in
      (
        (
          k,
          record {
            write = encode v;
            val = received v;
            level = height v;
            below = omega arith;
            codec = c;
          },
        )
            ∷ l,
        rw ew,
        rw ev,
        (e.0, a),
      )

  int_entries-EntriesOf :
      (es : IntEntries)
      → IntEntriesEncodable es
      → (h : ℕ) → height_int_entries es ≤ h
      → EntriesOf ℤ (IsSigned (2 ^ 63)) h (int_entry_writers es) (received_int_entries es)
  int_entries-EntriesOf no_int_entries e h le = ([], refl, refl, tt)
  int_entries-EntriesOf (int_entry k v es) e h le =
      let c = encode-Codec v e.1 in
      let (l, ew, ev, a) = int_entries-EntriesOf es e.2 h (omega arith) in
      (
        (
          k,
          record {
            write = encode v;
            val = received v;
            level = height v;
            below = omega arith;
            codec = c;
          },
        )
            ∷ l,
        rw ew,
        rw ev,
        (e.0, a),
      )
