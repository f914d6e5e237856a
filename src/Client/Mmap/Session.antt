-- ===== src/Client/Mmap/Session.antt =====
-- client/mmap.go: the area in the client's hello, and `negotiateMmap`. Closing a declined area and
-- removing the file of an accepted one only log their errors.
use go_xpra.Prelude.{
  ◌≡◌, ◌⊎◌, inl, inr, refl, Bool, true, false, Option, none, some, length, if◌then◌else◌,
}
use go_xpra.Prelude.Int.{pos}
use go_xpra.Prelude.Bytes.{Bytes, codes}
use go_xpra.Prelude.Result.{Result, ok, err}
use go_xpra.Rencode.Value.{Value, Entries, no_entries, entry, set}
use go_xpra.Protocol.Packet.{dict_dict}
use go_xpra.Client.Mmap.Area.{MmapArea, AreaError, enable_from_caps, area_caps}
use go_xpra.Client.Mmap.Area.Negotiation.{Claims, Outcome, enable_from_caps_lem}

abbrev pub area_entries : Bytes → MmapArea → Entries
area_entries filename a = entry (codes "file") (Value.text filename) (
    entry (codes "size") (Value.int (pos (length a.contents))) (
      entry (codes "token") (Value.big_ptr (some a.token)) (
        entry (codes "token_index") (Value.int a.token_index)
          (entry (codes "token_bytes") (Value.int a.token_bytes) no_entries))))

-- The loop that sets each entry.
unfoldable pub set_entries : Entries → Entries → Entries
set_entries no_entries caps = caps
set_entries (entry k v es) caps = set_entries es (set k v caps)

-- The first argument is the value of `BackwardsCompatible`.
unfoldable pub hello_caps : Bool → Bytes → MmapArea → Entries
hello_caps compatible filename a =
    let caps = entry (codes "read") (Value.dict (area_entries filename a)) no_entries in
    if compatible then set_entries (area_entries filename a) caps else caps

unfoldable pub keep_accepted : Bool × MmapArea → Result AreaError (Option MmapArea)
keep_accepted (accepted, a) = ok (if accepted then some a else none)

-- A client without an area has `none`.
unfoldable pub negotiate_mmap : Option MmapArea → Entries → Result AreaError (Option MmapArea)
negotiate_mmap none caps = ok none
negotiate_mmap (some a) caps = elim (enable_from_caps a (dict_dict caps (codes "mmap"))) [
  | err e ↦ err e
  | ok r ↦ keep_accepted r
]

kept :
    (a : MmapArea) (verified : Type 0) (r : Bool × MmapArea) (after : Option MmapArea)
    → Outcome a verified r
    → keep_accepted r ≡ ok after
    → (after ≡ none) ⊎ ((after ≡ some (record a { enabled = true })) × verified)
unfolding keep_accepted
kept a verified r after (inl q) e =
    inl (let k : keep_accepted (false, a) ≡ ok after = rw q at e in cc)
kept a verified r after (inr (q, v)) e =
    inr (let k : keep_accepted (true, record a { enabled = true }) ≡ ok after = rw q at e in cc, v)

-- After negotiation the client has no area, or the one that it offered, enabled, and then the
-- server named a positive token that stands in the area at the place that it named.
pub negotiate_mmap_lem :
    (before : Option MmapArea) (caps : Entries) (after : Option MmapArea)
    → negotiate_mmap before caps ≡ ok after
    → (after ≡ none)
      ⊎ ((a : MmapArea) × (before ≡ some a)
          × (after ≡ some (record a { enabled = true }))
          × ((c ac : Entries) × (dict_dict caps (codes "mmap") ≡ some c)
              × (area_caps c ≡ some ac)
              × Claims a ac))
unfolding negotiate_mmap
negotiate_mmap_lem none caps after e = inl cc
negotiate_mmap_lem (some a) caps after e =
    by_outcome (enable_from_caps a (dict_dict caps (codes "mmap"))) refl e
  where
    by_outcome :
        (m : Result AreaError (Bool × MmapArea))
        → enable_from_caps a (dict_dict caps (codes "mmap")) ≡ m
        → (elim m [ err e ↦ err e | ok r ↦ keep_accepted r ]) ≡ ok after
        → (after ≡ none)
          ⊎ ((b : MmapArea) × (some a ≡ some b)
              × (after ≡ some (record b { enabled = true }))
              × ((c ac : Entries) × (dict_dict caps (codes "mmap") ≡ some c)
                  × (area_caps c ≡ some ac)
                  × Claims b ac))
    by_outcome (err x) q e = cc
    by_outcome (ok r) q e =
        elim (kept a _ r after (enable_from_caps_lem a (dict_dict caps (codes "mmap")) r q) e) [
          | inl n ↦ inl n
          | inr (s, v) ↦ inr (a, refl, s, v)
        ]
