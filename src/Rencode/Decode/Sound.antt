-- ===== src/Rencode/Decode/Sound.antt =====
-- rencodeplus/decode.go: the decoder on arbitrary input.
use go_xpra.Prelude.{
  ℕ, zero, suc, ◌+◌, ◌-◌, ◌*◌, ◌≤◌, ◌<◌, ◌≡◌, ◌≢◌, refl, Bool, true, false, [], ◌∷◌, arith, length,
  ltb, leb, ltb→le, ◌==◌, ◌&&◌, tests, Bool-cases, inl, inr, ◌⊎◌,
}
use go_xpra.Prelude.Int.{pos, negsuc}
use go_xpra.Prelude.Bytes.{Bytes}
use go_xpra.Prelude.Result.{Result, ok, err, ◌>>=◌}
use go_xpra.Rencode.Value.{Value, Values, Entries, no_values, no_entries}
use go_xpra.Rencode.Received.{height, height_values, height_entries}
use go_xpra.Rencode.Decoded.{IsDecoded, AreDecoded, EntriesDecoded}
use go_xpra.Rencode.Decode.{
  DecodeError, Ahead, more, done, cut, ahead, value, list, dict, no_rest, decode, as_list, as_map,
  with_item, out_of_fuel,
}
use go_xpra.Rencode.Decode.Ensures.{
  Ensures, holds, fails, Ensures-bind, Ensures-if, Ensures-if_true, Ensures-mono, Ensures-ok,
  Ensures-fuel,
}
use go_xpra.Rencode.Decode.Leaves.{IsLeaf, fixed_text-Ensures, sized-Ensures, tagged-Ensures}
use go_xpra.Rencode.Decode.Store.{store-Ensures}

-- What holds of a value read at some depth, of the items of a list, and of the entries of a map.
abbrev IsRead : ℕ → Bytes → Value × Bytes → Type 0
IsRead depth ts r = (length r.1 < length ts) × IsDecoded r.0 × (depth + height r.0 ≤ 64)

abbrev AreRead : ℕ → Bytes → Values × Bytes → Type 0
AreRead depth ts r = (length r.1 ≤ length ts) × AreDecoded r.0 × (depth + height_values r.0 ≤ 64)

abbrev EntriesRead : ℕ → Bytes → Entries × Bytes → Type 0
EntriesRead depth ts r =
    (length r.1 ≤ length ts) × EntriesDecoded r.0 × (depth + height_entries r.0 ≤ 64)

-- A loop that ends leaves no more than it was given.
ahead-done :
    (n : ℕ) (open_ended : Bool) (ts rest : Bytes)
    → ahead n open_ended ts ≡ done rest
    → length rest ≤ length ts
unfolding ahead
ahead-done n false ts rest h = ground arith
ahead-done n true [] rest h = cc
ahead-done n true (b ∷ ts) rest h = ground arith

Ahead-cases : (a : Ahead) → (a ≡ cut) ⊎ ((rest : Bytes) × (a ≡ done rest)) ⊎ (a ≡ more)
Ahead-cases cut = inl refl
Ahead-cases (done rest) = inr (inl (rest, refl))
Ahead-cases more = inr (inr refl)

leaf-IsRead :
    (depth t : ℕ) (ts : Bytes) {m : Result DecodeError (Value × Bytes)}
    → depth ≤ 64
    → Ensures (IsLeaf (length ts)) m
    → Ensures (IsRead depth (t ∷ ts)) m
leaf-IsRead depth t ts d e = Ensures-mono e (λ r h. (omega arith, h.1, omega (arith, h.2)))

pos_leaf :
    (depth t : ℕ) (ts : Bytes)
    → depth ≤ 64
    → t < 44
    → Ensures (IsRead depth (t ∷ ts)) (ok (Value.int (pos t), ts))
unfolding IsDecoded height
pos_leaf depth t ts d h = holds (omega arith, omega arith, omega arith)

neg_leaf :
    (depth t : ℕ) (ts : Bytes)
    → depth ≤ 64
    → t < 102
    → Ensures (IsRead depth (t ∷ ts)) (ok (Value.int (negsuc (t - 70)), ts))
unfolding IsDecoded height
neg_leaf depth t ts d h = holds (omega arith, omega arith, omega arith)

list_value-Ensures :
    (depth t : ℕ) (ts : Bytes) {m : Result DecodeError (Values × Bytes)}
    → Ensures (AreRead depth ts) m
    → Ensures (IsRead depth (t ∷ ts)) (m >>= as_list)
unfolding as_list IsDecoded height
list_value-Ensures depth t ts e =
    Ensures-bind e λ (vs, rest) h. holds (omega (arith, h.0), h.1, h.2)

map_value-Ensures :
    (depth t : ℕ) (ts : Bytes) {m : Result DecodeError (Entries × Bytes)}
    → Ensures (EntriesRead depth ts) m
    → Ensures (IsRead depth (t ∷ ts)) (m >>= as_map)
unfolding as_map IsDecoded height
map_value-Ensures depth t ts e = Ensures-bind e λ (es, rest) h. holds (omega (arith, h.0), h.1, h.2)

with_item-Ensures :
    (depth : ℕ) (v : Value) (ts ts' : Bytes) {m : Result DecodeError (Values × Bytes)}
    → length ts' ≤ length ts
    → IsDecoded v
    → depth + 1 + height v ≤ 64
    → Ensures (AreRead depth ts') m
    → Ensures (AreRead depth ts) (m >>= with_item v)
unfolding with_item IsDecoded height
with_item-Ensures depth v ts ts' le d hv e =
    Ensures-bind e λ (vs, rest) h. holds (omega (arith, h.0), (d, h.1), omega (arith, h.2))

no_values-AreRead :
    (depth : ℕ) (ts rest : Bytes)
    → depth ≤ 64
    → length rest ≤ length ts
    → AreRead depth ts (no_values, rest)
unfolding IsDecoded height
no_values-AreRead depth ts rest d le = (le, tt, omega arith)

no_entries-Decoded : EntriesDecoded no_entries
unfolding IsDecoded
no_entries-Decoded = tt

no_entries-height : (depth : ℕ) → depth ≤ 64 → depth + height_entries no_entries ≤ 64
unfolding height
no_entries-height depth d = omega arith

no_rest-Ensures :
    (v : Value) (rest : Bytes)
    → IsDecoded v
    → height v ≤ 64
    → Ensures (λ v. IsDecoded v × (height v ≤ 64)) (no_rest (v, rest))
unfolding no_rest
no_rest-Ensures v [] d h = holds (d, h)
no_rest-Ensures v (_ ∷ _) d h = fails (λ e. cc)

mutual
  unfolding value

  value-Ensures :
      (f depth : ℕ) (ts : Bytes)
      → 2 * length ts + 1 ≤ f
      → Ensures (IsRead depth ts) (value f depth ts)
  value-Ensures zero depth ts h = absurd (omega arith)
  value-Ensures (suc f) depth [] h = Ensures-if (ltb 64 depth) (fails (λ e. cc)) (fails (λ e. cc))
  value-Ensures (suc f) depth (t ∷ ts) h = elim (Bool-cases (ltb 64 depth)) [
    | inl e ↦ rw e (fails (λ p. cc))
    | inr e ↦
        let d : depth ≤ 64 = ltb→le 64 depth e in
        rw e (
          Ensures-if_true (ltb t 44) (λ p. pos_leaf depth t ts d (omega tests))
            (Ensures-if_true (leb 70 t && ltb t 102) (λ p. neg_leaf depth t ts d (ground arith))
              (Ensures-if (leb 128 t && ltb t 192)
                (leaf-IsRead depth t ts d (fixed_text-Ensures (t - 128) ts))
                (Ensures-if (leb 192 t)
                  (list_value-Ensures depth t ts
                    (list-Ensures f (t - 192) false depth ts (omega arith) d))
                  (Ensures-if (leb 102 t && ltb t 127)
                    (map_value-Ensures depth t ts (
                      dict-Ensures f (t - 102) false depth no_entries ts (omega arith) d
                        (no_entries-Decoded) (no_entries-height depth d)))
                    (Ensures-if (leb 48 t && leb t 57)
                      (leaf-IsRead depth t ts d (sized-Ensures t ts))
                      (Ensures-if (t == 59)
                        (list_value-Ensures depth t ts
                          (list-Ensures f 0 true depth ts (omega arith) d))
                        (Ensures-if (t == 60)
                          (map_value-Ensures depth t ts (
                            dict-Ensures f 0 true depth no_entries ts (omega arith) d
                              (no_entries-Decoded) (no_entries-height depth d)))
                          (leaf-IsRead depth t ts d (tagged-Ensures t ts))))))))))
  ]

  list-Ensures :
      (f n : ℕ) (open_ended : Bool) (depth : ℕ) (ts : Bytes)
      → 2 * length ts + 2 ≤ f
      → depth ≤ 64
      → Ensures (AreRead depth ts) (list f n open_ended depth ts)
  list-Ensures zero n open_ended depth ts h d = absurd (omega arith)
  list-Ensures (suc f) n open_ended depth ts h d = elim (Ahead-cases (ahead n open_ended ts)) [
    | inl e ↦ rw (e, list) (fails (λ p. cc))
    | inr (inl (rest, e)) ↦
        rw (e, list) (holds (no_values-AreRead depth ts rest d (ahead-done n open_ended ts rest e)))
    | inr (inr e) ↦
        rw (e, list)
          (Ensures-bind (value-Ensures f (depth + 1) ts (omega arith)) λ (v, ts') r.
            with_item-Ensures depth v ts ts' (omega (arith, r.0)) r.1 r.2
              (list-Ensures f (n - 1) open_ended depth ts' (omega (arith, r.0)) d))
  ]

  dict-Ensures :
      (f n : ℕ) (open_ended : Bool) (depth : ℕ) (out : Entries) (ts : Bytes)
      → 2 * length ts + 2 ≤ f
      → depth ≤ 64
      → EntriesDecoded out
      → depth + height_entries out ≤ 64
      → Ensures (EntriesRead depth ts) (dict f n open_ended depth out ts)
  dict-Ensures zero n open_ended depth out ts h d ds hs = absurd (omega arith)
  dict-Ensures (suc f) n open_ended depth out ts h d ds hs =
      elim (Ahead-cases (ahead n open_ended ts)) [
        | inl e ↦ rw (e, dict) (fails (λ p. cc))
        | inr (inl (rest, e)) ↦ rw (e, dict) (holds (ahead-done n open_ended ts rest e, ds, hs))
        | inr (inr e) ↦
            rw (e, dict)
              (Ensures-bind (value-Ensures f (depth + 1) ts (omega arith)) λ (k, ts') r.
                Ensures-bind (value-Ensures f (depth + 1) ts' (omega (arith, r.0))) λ (v, ts'') r'.
                  Ensures-bind
                    (store-Ensures k v out (64 - depth) r'.1 ds (omega (arith, r'.2)) (omega arith))
                    λ out' s.
                      Ensures-mono
                        (dict-Ensures f (n - 1) open_ended depth out' ts''
                          (omega (arith, r.0, r'.0)) d s.0 (omega (arith, s.1)))
                        (λ q h. (omega (arith, h.0, r.0, r'.0), h.1, h.2)))
      ]

-- The decoder never gives up for want of fuel, and what it returns is of the documented types and
-- nests no deeper than the limit.
decode-Ensures : (ts : Bytes) → Ensures (λ v. IsDecoded v × (height v ≤ 64)) (decode ts)
unfolding decode
decode-Ensures ts =
    Ensures-bind (value-Ensures (2 * length ts + 2) 0 ts (omega arith))
      λ (v, rest) h. no_rest-Ensures v rest h.1 (omega (arith, h.2))

-- `Decode` ends on every input: the model's fuel is always enough.
pub decode-ne-out_of_fuel : (ts : Bytes) → decode ts ≢ err out_of_fuel
decode-ne-out_of_fuel ts = Ensures-fuel (decode-Ensures ts)

-- Whatever bytes arrive, a value that `Decode` returns has one of the documented types throughout,
-- its integers are int64s or *big.Ints outside int64, no map has a key twice, and at most 64
-- containers stand around any part of it.
pub decode-IsDecoded : (ts : Bytes) (v : Value) → decode ts ≡ ok v → IsDecoded v × (height v ≤ 64)
decode-IsDecoded ts v e = Ensures-ok (decode-Ensures ts) e
