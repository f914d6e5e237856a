-- ===== src/Rencode/RoundTrip/Lists.antt =====
-- rencodeplus/: the items of lists and the pairs of dictionaries, written in turn and read in turn.
use go_xpra.Prelude.{
  ℕ, zero, suc, ◌+◌, ◌-◌, ◌*◌, ◌≤◌, ◌<◌, ◌≡◌, refl, ◌∙◌, sym, Bool, true, false, List, [], ◌∷◌,
  ◌++◌, map, arith, some, length, length-append, append_assoc, append-nil, ap, if◌then◌else◌,
}
use go_xpra.Prelude.Bytes.{Bytes}
use go_xpra.Prelude.Result.{ok, ◌>>=◌}
use go_xpra.Rencode.Value.{Value, Values, Entries, no_values, item, set}
use go_xpra.Rencode.Tag
use go_xpra.Rencode.Encode.{Writer, write_all}
use go_xpra.Rencode.Decode.{value, list, dict, ahead, more, done, store, key_name, with_item}
use go_xpra.Rencode.Received.{to_values, set_all}
use go_xpra.Rencode.RoundTrip.Codec.{Codec, Starts, Starts-pos, ahead-Starts}

-- An item of a container of height `h`: its writer, and the value that is read back.
pub record Item (h : ℕ) : Type 0 where
  pub write : Writer
  pub val : Value
  pub level : ℕ
  pub below : level < h
  pub codec : Codec level write val

-- A pair of a dictionary: a key that decodes to a name, and an item.
pub record Pair (h : ℕ) : Type 0 where
  pub key_write : Writer
  pub key_val : Value
  pub name : Bytes
  pub named : key_name key_val ≡ some name
  pub key_codec : Codec 0 key_write key_val
  pub it : Item h

unfoldable pub pair_write : (h : ℕ) → Pair h → Writer
pair_write h p buf = p.key_write buf >>= p.it.write

pub images : (h : ℕ) → List (Item h) → Bytes
images h [] = []
images h (i ∷ is) = i.codec.image ++ images h is

pub pair_images : (h : ℕ) → List (Pair h) → Bytes
pair_images h [] = []
pair_images h (p ∷ ps) = p.key_codec.image ++ (p.it.codec.image ++ pair_images h ps)

pub write_all-items :
    (h : ℕ) (is : List (Item h)) (buf : Bytes)
    → write_all (map (λ i. i.write) is) buf ≡ ok (buf ++ images h is)
unfolding write_all images
write_all-items h [] buf = ap ok (sym (append-nil buf))
write_all-items h (i ∷ is) buf = rw (i.codec.writes buf) (
    write_all-items h is (buf ++ i.codec.image)
    ∙ ap ok (append_assoc buf i.codec.image (images h is)))

pub write_all-pairs :
    (h : ℕ) (ps : List (Pair h)) (buf : Bytes)
    → write_all (map (pair_write h) ps) buf ≡ ok (buf ++ pair_images h ps)
unfolding write_all pair_write pair_images
write_all-pairs h [] buf = ap ok (sym (append-nil buf))
write_all-pairs h (p ∷ ps) buf = rw (p.key_codec.writes buf) (
    rw (p.it.codec.writes (buf ++ p.key_codec.image)) (
      write_all-pairs h ps ((buf ++ p.key_codec.image) ++ p.it.codec.image)
      ∙ ap ok (
          append_assoc (buf ++ p.key_codec.image) p.it.codec.image (pair_images h ps)
          ∙ append_assoc buf p.key_codec.image (p.it.codec.image ++ pair_images h ps))))

-- What ends a loop: nothing, or the terminator.
abbrev pub tail_of : Bool → Bytes
tail_of open_ended = if open_ended then Tag.term ∷ [] else []

-- The count that a loop is called with: an open-ended one ignores it.
abbrev pub count_of : Bool → ℕ → ℕ
count_of open_ended n = if open_ended then 0 else n

-- The loop goes on before an item, and ends where the items end.
ahead-item :
    (n : ℕ) (open_ended : Bool) (bs rest : Bytes)
    → Starts bs
    → ahead (count_of open_ended (suc n)) open_ended (bs ++ rest) ≡ more
ahead-item n true bs rest s = ahead-Starts 0 bs rest s
ahead-item n false bs rest s = unfold ahead in ground arith

ahead-end :
    (open_ended : Bool) (rest : Bytes)
    → ahead (count_of open_ended 0) open_ended (tail_of open_ended ++ rest) ≡ done rest
unfolding ahead
ahead-end true rest = refl
ahead-end false rest = refl

count_next : (open_ended : Bool) (n : ℕ) → count_of open_ended (suc n) - 1 ≡ count_of open_ended n
count_next true n = refl
count_next false n = omega arith

list_step :
    (f n depth : ℕ) (open_ended : Bool) (ts ts' rest : Bytes) (v : Value) (vs : Values)
    → ahead n open_ended ts ≡ more
    → value f (depth + 1) ts ≡ ok (v, ts')
    → list f (n - 1) open_ended depth ts' ≡ ok (vs, rest)
    → list (suc f) n open_ended depth ts ≡ ok (item v vs, rest)
unfolding list with_item
list_step f n depth open_ended ts ts' rest v vs a e e' = ground arith

list_end :
    (f n depth : ℕ) (open_ended : Bool) (ts rest : Bytes)
    → ahead n open_ended ts ≡ done rest
    → list (suc f) n open_ended depth ts ≡ ok (no_values, rest)
unfolding list
list_end f n depth open_ended ts rest a = rw (a, list)

dict_step :
    (f n depth : ℕ) (open_ended : Bool) (ts ts' ts'' rest : Bytes) (k v : Value) (name : Bytes)
    (out es : Entries)
    → ahead n open_ended ts ≡ more
    → value f (depth + 1) ts ≡ ok (k, ts')
    → value f (depth + 1) ts' ≡ ok (v, ts'')
    → key_name k ≡ some name
    → dict f (n - 1) open_ended depth (set name v out) ts'' ≡ ok (es, rest)
    → dict (suc f) n open_ended depth out ts ≡ ok (es, rest)
unfolding dict store
dict_step f n depth open_ended ts ts' ts'' rest k v name out es a e e' c e'' = ground arith

dict_end :
    (f n depth : ℕ) (open_ended : Bool) (ts rest : Bytes) (out : Entries)
    → ahead n open_ended ts ≡ done rest
    → dict (suc f) n open_ended depth out ts ≡ ok (out, rest)
unfolding dict
dict_end f n depth open_ended ts rest out a = rw (a, dict)

pub list_reads :
    (h : ℕ) (is : List (Item h)) (open_ended : Bool) (rest : Bytes) (f depth : ℕ)
    → 2 * length (images h is) + 1 ≤ f
    → depth + h ≤ 64
    → list f
        (count_of open_ended (length is))
        open_ended
        depth
        (images h is ++ (tail_of open_ended ++ rest))
      ≡ ok (to_values (map (λ i. i.val) is), rest)
unfolding images to_values
list_reads h is open_ended rest zero depth hf hd = absurd (omega arith)
list_reads h [] open_ended rest (suc f) depth hf hd =
    list_end f _ depth open_ended _ rest (ahead-end open_ended rest)
list_reads h (i ∷ is) open_ended rest (suc f) depth hf hd =
    let c = i.codec in
    let after : Bytes = images h is ++ (tail_of open_ended ++ rest) in
    let sizes = length-append c.image (images h is) in
    let some_bytes = Starts-pos c.image c.starts in
    rw (append_assoc c.image (images h is) (tail_of open_ended ++ rest)) (
      list_step f (count_of open_ended (suc (length is))) depth open_ended (c.image ++ after) after
        rest _ _ (ahead-item (length is) open_ended c.image after c.starts)
        (c.reads after f (depth + 1) (omega arith) (omega (arith, i.below)))
        (rw (count_next open_ended (length is))
          (list_reads h is open_ended rest f depth (omega arith) hd)))

abbrev pub assignments : (h : ℕ) → List (Pair h) → List (Bytes × Value)
assignments h = map (λ p. (p.name, p.it.val))

pub dict_reads :
    (h : ℕ) (ps : List (Pair h)) (out : Entries) (open_ended : Bool) (rest : Bytes) (f depth : ℕ)
    → 2 * length (pair_images h ps) + 1 ≤ f
    → depth + h ≤ 64
    → dict f
        (count_of open_ended (length ps))
        open_ended
        depth
        out
        (pair_images h ps ++ (tail_of open_ended ++ rest))
      ≡ ok (set_all out (assignments h ps), rest)
unfolding pair_images set_all
dict_reads h ps out open_ended rest zero depth hf hd = absurd (omega arith)
dict_reads h [] out open_ended rest (suc f) depth hf hd =
    dict_end f _ depth open_ended _ rest out (ahead-end open_ended rest)
dict_reads h (p ∷ ps) out open_ended rest (suc f) depth hf hd =
    let k = p.key_codec in
    let c = p.it.codec in
    let after : Bytes = pair_images h ps ++ (tail_of open_ended ++ rest) in
    let sizes = length-append k.image (c.image ++ pair_images h ps) in
    let sizes' = length-append c.image (pair_images h ps) in
    let some_bytes = Starts-pos k.image k.starts in
    rw
      (
        append_assoc k.image (c.image ++ pair_images h ps) (tail_of open_ended ++ rest),
        append_assoc c.image (pair_images h ps) (tail_of open_ended ++ rest),
      )
      (dict_step f (count_of open_ended (suc (length ps))) depth open_ended
        (k.image ++ (c.image ++ after)) (c.image ++ after) after rest p.key_val p.it.val p.name out
        _ (ahead-item (length ps) open_ended k.image (c.image ++ after) k.starts)
        (k.reads (c.image ++ after) f (depth + 1) (omega arith) (omega (arith, p.it.below)))
        (c.reads after f (depth + 1) (omega arith) (omega (arith, p.it.below))) p.named
        (rw (count_next open_ended (length ps))
          (dict_reads h ps (set p.name p.it.val out) open_ended rest f depth (omega arith) hd)))
