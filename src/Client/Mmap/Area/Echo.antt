-- ===== src/Client/Mmap/Area/Echo.antt =====
-- client/mmap.go: a server that answers with the token of the area.
use go_xpra.Prelude.{
  ℕ, ◌^◌, ◌≤◌, ◌≡◌, refl, ap, subst, ◌∙◌, true, false, some, length, ◌==◌, arith, Bool-cases, inl,
  inr, or-false,
}
use go_xpra.Prelude.Int.{ℤ, pos, negsuc, pos_part, ltb_ℤ, leb_ℤ, eqb_ℤ, ◌+ℤ◌, ◌-ℤ◌, fits_signed}
use go_xpra.Prelude.Bytes.{Bytes, codes, be_value, bytes_eq}
use go_xpra.Prelude.Result.{Result, ok, err, if-ok}
use go_xpra.Rencode.Value.{Value, Entries, no_entries, entry}
use go_xpra.Rencode.Received.{received_int}
use go_xpra.Protocol.Packet.{or_nil, find, dict_int, dict_has, dict_dict, as_int, as_dict}
use go_xpra.Client.Mmap.Chunks.{mmap_header_size}
use go_xpra.Client.Mmap.Token.{
  TokenError, invalid_bounds, outside, put_token, reversed_bytes, write_mmap_token, read_mmap_token,
}
use go_xpra.Client.Mmap.Token.RoundTrip.{read-write_mmap_token, outside-length}
use go_xpra.Client.Mmap.Area.{
  MmapArea, too_small, bad_token, token_of, available, with_token, generate_token, mmap_integer,
  area_caps, count_of_caps, verify, find_token, enable_token, enable_area, enable_from_caps,
}

-- The capabilities of the area as they arrive, and an answer that repeats them.
abbrev pub echoed : MmapArea → Entries
echoed a = entry (codes "token") (received_int a.token) (
    entry (codes "token_index") (Value.int a.token_index)
      (entry (codes "token_bytes") (Value.int a.token_bytes) no_entries))

abbrev pub answer : MmapArea → Entries
answer a = entry (codes "write") (Value.map_text (echoed a)) no_entries

mmap_integer-received_int : (n : ℤ) → mmap_integer (received_int n) ≡ some n
unfolding mmap_integer received_int
mmap_integer-received_int n = elim (Bool-cases (fits_signed (2 ^ 63) n)) [
  | inl e ↦ rw e refl
  | inr e ↦ rw e refl
]

token_of-pos : (random : Bytes) → (n : ℕ) × (token_of random ≡ pos n) × (1 ≤ n)
unfolding token_of
token_of-pos random = elim (Bool-cases (be_value random == 0)) [
  | inl e ↦ rw e (1, refl, omega arith)
  | inr e ↦ rw e (be_value random, refl, ground arith)
]

-- The area holds its token, of `n`, within bounds.
abbrev Holds : MmapArea → ℕ → Type 0
Holds a n =
    (a.token ≡ pos n)
    × (1 ≤ n)
    × (outside a.contents a.token_index a.token_bytes ≡ false)
    × (read_mmap_token a.contents a.token_index a.token_bytes ≡ ok n)

not_zero : (k : ℕ) → leb_ℤ (pos k) (pos 0) ≡ false → eqb_ℤ (pos k) (pos 0) ≡ false
not_zero k h = ground arith

positive : (n : ℕ) → 1 ≤ n → leb_ℤ (pos n) (pos 0) ≡ false
positive n h = ground arith

eqb_self : (n : ℕ) → eqb_ℤ (pos n) (pos n) ≡ true
eqb_self n = ground arith

some_count :
    (area : Bytes) (index count : ℤ)
    → outside area index count ≡ false
    → eqb_ℤ count (pos 0) ≡ false
unfolding outside
some_count area index (pos k) h =
    let (a, b, c, d) =
      or-false (ltb_ℤ index (pos 0)) (leb_ℤ (pos k) (pos 0)) (ltb_ℤ (pos (length area)) index)
        (ltb_ℤ (pos (length area) -ℤ index) (pos k)) h in
    not_zero k b
some_count area index (negsuc k) h = ground arith

find_token-Holds :
    (a : MmapArea) (n : ℕ)
    → Holds a n
    → find_token a (pos n) a.token_index a.token_bytes ≡ ok (true, record a { enabled = true })
unfolding find_token verify
find_token-Holds a n (t, one, o, r) = rw (o, r) (rw (eqb_self n) refl)

answer-Holds :
    (a : MmapArea) (n : ℕ)
    → Holds a n
    → enable_from_caps a (some (answer a)) ≡ ok (true, record a { enabled = true })
unfolding enable_from_caps enable_area enable_token area_caps count_of_caps find dict_dict dict_has
    dict_int as_dict as_int or_nil bytes_eq
answer-Holds a n (t, one, o, r) =
    ap (enable_token a (echoed a)) (mmap_integer-received_int a.token ∙ ap some t)
    ∙ rw (positive n one, some_count a.contents a.token_index a.token_bytes o)
        (find_token-Holds a n (t, one, o, r))

write-outside :
    (area : Bytes) (n : ℕ) (index count : ℤ) (area' : Bytes)
    → write_mmap_token area (some (pos n)) index count ≡ ok area'
    → outside area index count ≡ false
unfolding write_mmap_token
write-outside area n index count area' e =
    (if-ok (outside area index count) invalid_bounds
      (put_token area (reversed_bytes n) (pos_part index) (pos_part count)) e).0

with_token-Holds :
    (a : MmapArea) (n : ℕ) (index : ℤ) (a' : MmapArea)
    → 1 ≤ n
    → with_token a (pos n) index ≡ ok a'
    → Holds a' n
unfolding with_token
with_token-Holds a n index a' one e =
    written (write_mmap_token a.contents (some (pos n)) index a.token_bytes) refl e
  where
    written :
        (m : Result TokenError Bytes)
        → write_mmap_token a.contents (some (pos n)) index a.token_bytes ≡ m
        → (elim m [
          | err e ↦ err (bad_token e)
          | ok contents ↦ ok (record a { contents = contents; token = pos n; token_index = index })
        ])
          ≡ ok a'
        → Holds a' n
    written (err x) q e = cc
    written (ok contents) q e =
        let (r, same, before, behind) =
          read-write_mmap_token a.contents contents n index a.token_bytes q in
        let stored : MmapArea = record a {
          contents = contents;
          token = pos n;
          token_index = index;
        } in
        let p : stored ≡ a' = cc in
        subst (λ a. Holds a n) p
          (
            refl,
            one,
            outside-length a.contents contents index a.token_bytes same
                ∙ write-outside a.contents n index a.token_bytes contents q,
            r,
          )

-- A server that answers with the token it was offered has the area enabled, whatever the random
-- numbers were that `generateToken` drew.
pub enable_from_caps-generate_token :
    (a : MmapArea) (random : Bytes) (choose : ℕ → ℕ) (a' : MmapArea)
    → generate_token a random choose ≡ ok a'
    → enable_from_caps a' (some (answer a')) ≡ ok (true, record a' { enabled = true })
unfolding generate_token
enable_from_caps-generate_token a random choose a' e =
    let index = pos mmap_header_size +ℤ pos (choose (pos_part (available a))) in
    let (n, t, one) = token_of-pos random in
    let (room, e') =
      if-ok (leb_ℤ (available a) (pos 0)) too_small (with_token a (token_of random) index) e in
    answer-Holds a' n (with_token-Holds a n index a' one (rw t at e'))
