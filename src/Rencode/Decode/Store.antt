-- ===== src/Rencode/Decode/Store.antt =====
-- rencodeplus/decode.go: assignment to a key of the map under construction.
use go_xpra.Prelude.{
  ℕ, suc, ◌≤◌, ◌≡◌, ◌≢◌, true, false, arith, max, Bool-cases, Option-cases, inl, inr,
}
use go_xpra.Prelude.Bytes.{Bytes, bytes_eq, bytes_eq_refl}
use go_xpra.Rencode.Value.{Value, Entries, no_entries, entry, set}
use go_xpra.Rencode.Received.{height, height_entries}
use go_xpra.Rencode.Decoded.{Absent, IsDecoded, EntriesDecoded}
use go_xpra.Rencode.Decode.{key_name, store}
use go_xpra.Rencode.Decode.Ensures.{Ensures, holds, fails}

pub Absent-set :
    (j k : Bytes) (v : Value) (es : Entries) → k ≢ j → Absent j es → Absent j (set k v es)
unfolding Absent set
Absent-set j k v no_entries n a = (n, tt)
Absent-set j k v (entry i w es) n a = elim (Bool-cases (bytes_eq i k)) [
  | inl e ↦ rw e (a.0, a.1)
  | inr e ↦ rw e (a.0, Absent-set j k v es n a.1)
]

bytes_eq→ne : (a b : Bytes) → bytes_eq a b ≡ false → b ≢ a
bytes_eq→ne a b h e = let t : bytes_eq a b ≡ true = rw e (bytes_eq_refl a) in cc

pub set-EntriesDecoded :
    (k : Bytes) (v : Value) (es : Entries)
    → IsDecoded v
    → EntriesDecoded es
    → EntriesDecoded (set k v es)
unfolding IsDecoded set
set-EntriesDecoded k v no_entries h hs = (h, unfold Absent in tt, tt)
set-EntriesDecoded k v (entry j w es) h hs = elim (Bool-cases (bytes_eq j k)) [
  | inl e ↦ rw e (h, hs.1, hs.2)
  | inr e ↦
      rw e (hs.0, Absent-set j k v es (bytes_eq→ne j k e) hs.1, set-EntriesDecoded k v es h hs.2)
]

pub height_entries-set :
    (k : Bytes) (v : Value) (es : Entries)
    → height_entries (set k v es) ≤ max (suc (height v)) (height_entries es)
unfolding height set
height_entries-set k v no_entries = omega arith
height_entries-set k v (entry j w es) = elim (Bool-cases (bytes_eq j k)) [
  | inl e ↦ rw e (omega arith)
  | inr e ↦ rw e (omega (arith, height_entries-set k v es))
]

pub store-Ensures :
    (k v : Value) (out : Entries) (b : ℕ)
    → IsDecoded v
    → EntriesDecoded out
    → suc (height v) ≤ b
    → height_entries out ≤ b
    → Ensures (λ es. EntriesDecoded es × (height_entries es ≤ b)) (store k v out)
unfolding store
store-Ensures k v out b d ds hv ho = elim (Option-cases (key_name k)) [
  | inl e ↦ rw (e, store) (fails (λ p. cc))
  | inr (name, e) ↦
      rw (e, store)
        (holds (set-EntriesDecoded name v out d ds, omega (arith, height_entries-set name v out)))
]
