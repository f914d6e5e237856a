-- ===== src/Client/Mmap/Area/Negotiation.antt =====
-- client/mmap.go: `enableFromCaps`.
use go_xpra.Prelude.{
  ℕ, ◌≤◌, ◌≡◌, ◌⊎◌, inl, inr, refl, ap, Bool, true, false, not, ◌&&◌, Option, none, some,
  if◌then◌else◌, arith,
}
use go_xpra.Prelude.Int.{ℤ, pos, negsuc, leb_ℤ, eqb_ℤ}
use go_xpra.Prelude.Bytes.{codes}
use go_xpra.Prelude.Result.{Result, ok, err, if-ok}
use go_xpra.Rencode.Value.{Entries}
use go_xpra.Protocol.Packet.{or_nil, find, dict_int, dict_bool, dict_has}
use go_xpra.Client.Mmap.Token.{TokenError, outside, read_mmap_token}
use go_xpra.Client.Mmap.Area.{
  MmapArea, invalid_token, bounds_outside_area, verification_failed, bad_token, mmap_integer,
  area_caps, count_of_caps, verify, find_token, enable_token, enable_area, enable_from_caps,
}

-- The capabilities name a token, and it stands in the area where they say.
abbrev pub Claims : MmapArea → Entries → Type 0
Claims a ac =
    (n : ℕ) × (mmap_integer (or_nil (find ac (codes "token"))) ≡ some (pos n))
    × (1 ≤ n)
    × (read_mmap_token a.contents (dict_int ac (codes "token_index")) (count_of_caps ac) ≡ ok n)

-- The area is declined and left as it is, or enabled.
abbrev pub Outcome : MmapArea → Type 0 → Bool × MmapArea → Type 0
Outcome a verified r = (r ≡ (false, a)) ⊎ ((r ≡ (true, record a { enabled = true })) × verified)

same_token : (token : ℤ) (n : ℕ) → not (eqb_ℤ (pos n) token) ≡ false → token ≡ pos n
same_token (pos k) n h = ap pos (let e : k ≡ n = ground arith in e)
same_token (negsuc k) n h = absurd (ground arith)

verify_lem :
    (a : MmapArea) (token : ℤ) (n : ℕ) (r : Bool × MmapArea)
    → verify a token n ≡ ok r
    → (token ≡ pos n) × (r ≡ (true, record a { enabled = true }))
unfolding verify
verify_lem a token n r e =
    let (same, q) =
      if-ok (not (eqb_ℤ (pos n) token)) verification_failed (ok (true, record a { enabled = true }))
        e in
    (same_token token n same, cc)

find_token_lem :
    (a : MmapArea) (token index count : ℤ) (r : Bool × MmapArea)
    → find_token a token index count ≡ ok r
    → (n : ℕ) × (token ≡ pos n)
      × (read_mmap_token a.contents index count ≡ ok n)
      × (r ≡ (true, record a { enabled = true }))
unfolding find_token
find_token_lem a token index count r e =
    let (inside, e') = if-ok (outside a.contents index count) bounds_outside_area _ e in
    found (read_mmap_token a.contents index count) refl e'
  where
    found :
        (m : Result TokenError ℕ)
        → read_mmap_token a.contents index count ≡ m
        → (elim m [ err e ↦ err (bad_token e) | ok found ↦ verify a token found ]) ≡ ok r
        → (n : ℕ) × (token ≡ pos n)
          × (read_mmap_token a.contents index count ≡ ok n)
          × (r ≡ (true, record a { enabled = true }))
    found (err x) q e = cc
    found (ok n) q e = let (t, w) = verify_lem a token n r e in (n, t, q, w)

enable_token_lem :
    (a : MmapArea) (caps : Entries) (token : Option ℤ) (r : Bool × MmapArea)
    → enable_token a caps token ≡ ok r
    → (n : ℕ) × (token ≡ some (pos n))
      × (1 ≤ n)
      × (read_mmap_token a.contents (dict_int caps (codes "token_index")) (count_of_caps caps)
          ≡ ok n)
      × (r ≡ (true, record a { enabled = true }))
unfolding enable_token
enable_token_lem a caps none r e = cc
enable_token_lem a caps (some token) r e =
    let (positive, e') =
      if-ok (leb_ℤ token (pos 0)) invalid_token
        (find_token a token (dict_int caps (codes "token_index")) (count_of_caps caps)) e in
    let (n, t, q, w) =
      find_token_lem a token (dict_int caps (codes "token_index")) (count_of_caps caps) r e' in
    (n, ap some t, from_one n (rw t at positive), q, w)
  where
    from_one : (n : ℕ) → leb_ℤ (pos n) (pos 0) ≡ false → 1 ≤ n
    from_one n h = ground arith

enable_area_lem :
    (a : MmapArea) (caps : Option Entries) (r : Bool × MmapArea)
    → enable_area a caps ≡ ok r
    → Outcome a ((ac : Entries) × (caps ≡ some ac) × Claims a ac) r
unfolding enable_area
enable_area_lem a none r e = inl cc
enable_area_lem a (some caps) r e =
    by_flag (dict_has caps (codes "enabled") && not (dict_bool caps (codes "enabled"))) e
  where
    by_flag :
        (b : Bool)
        → ((if b
              then ok (false, a)
              else enable_token a caps (mmap_integer (or_nil (find caps (codes "token")))))
            ≡ ok r)
        → Outcome a ((ac : Entries) × (some caps ≡ some ac) × Claims a ac) r
    by_flag true e = inl cc
    by_flag false e =
        let (n, t, p, q, w) =
          enable_token_lem a caps (mmap_integer (or_nil (find caps (codes "token")))) r e in
        inr (w, (caps, refl, (n, t, p, q)))

-- Negotiation either leaves the area as it is, or enables it, and then only if the server named a
-- positive token that stands in the area at the place and with the size that it named.
pub enable_from_caps_lem :
    (a : MmapArea) (caps : Option Entries) (r : Bool × MmapArea)
    → enable_from_caps a caps ≡ ok r
    → Outcome a ((c ac : Entries) × (caps ≡ some c) × (area_caps c ≡ some ac) × Claims a ac) r
unfolding enable_from_caps
enable_from_caps_lem a none r e = inl cc
enable_from_caps_lem a (some caps) r e = elim (enable_area_lem a (area_caps caps) r e) [
  | inl q ↦ inl q
  | inr (q, (ac, found, claims)) ↦ inr (q, (caps, ac, refl, found, claims))
]
