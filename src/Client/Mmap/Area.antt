-- ===== src/Client/Mmap/Area.antt =====
-- client/mmap.go: `mmapArea`, its token, its negotiation, and the reading of screen updates.
pub mod Negotiation
pub mod Updates
pub mod Echo
use go_xpra.Prelude.{
  ℕ, zero, suc, ◌+◌, ◌-◌, ◌%◌, ◌^◌, Bool, true, false, not, ◌||◌, ◌&&◌, List, [], ◌∷◌, ◌++◌, Option,
  none, some, length, take, drop, ◌==◌, if◌then◌else◌,
}
use go_xpra.Prelude.Int.{ℤ, pos, pos_part, leb_ℤ, eqb_ℤ, ◌+ℤ◌, ◌-ℤ◌}
use go_xpra.Prelude.Bytes.{Bytes, codes, be_bytes, be_value}
use go_xpra.Prelude.Result.{Result, ok, err, ◌>>=◌}
use go_xpra.Rencode.Value.{Value, Entries}
use go_xpra.Protocol.Packet.{or_nil, find, dict_int, dict_bool, dict_has, dict_dict}
use go_xpra.Client.Mmap.Chunks.{
  mmap_header_size, MmapChunk, ChunksError, not_negotiated, parse_mmap_chunks,
}
use go_xpra.Client.Mmap.Token.{TokenError, outside, write_mmap_token, read_mmap_token}

abbrev pub mmap_token_bytes : ℤ
mmap_token_bytes = pos 128

pub record MmapArea : Type 0 where
  pub contents : Bytes
  pub token : ℤ
  pub token_index : ℤ
  pub token_bytes : ℤ
  pub mapped : Bool
  pub enabled : Bool

pub data AreaError : Type 0 where
  too_small invalid_token bounds_outside_area verification_failed : AreaError
  bad_token : TokenError → AreaError

-- The source of random numbers gives 16 bytes, and a number below the one that it is asked for.
unfoldable pub token_of : Bytes → ℤ
token_of random = let n = be_value random in if n == 0 then pos 1 else pos n

unfoldable pub available : MmapArea → ℤ
available a = pos (length a.contents) -ℤ pos mmap_header_size -ℤ a.token_bytes +ℤ pos 1

unfoldable pub with_token : MmapArea → ℤ → ℤ → Result AreaError MmapArea
with_token a token index = elim (write_mmap_token a.contents (some token) index a.token_bytes) [
  | err e ↦ err (bad_token e)
  | ok contents ↦ ok (record a { contents = contents; token = token; token_index = index })
]

unfoldable pub generate_token : MmapArea → Bytes → (ℕ → ℕ) → Result AreaError MmapArea
generate_token a random choose =
    if leb_ℤ (available a) (pos 0)
    then err too_small
    else with_token a (token_of random)
        (pos mmap_header_size +ℤ pos (choose (pos_part (available a))))

unfoldable pub mmap_integer : Value → Option ℤ
mmap_integer (Value.int n) = some n
mmap_integer (Value.big_ptr n) = n
mmap_integer (Value.big_int n) = some n
mmap_integer _ = none

-- The capabilities of the area that the server writes to.
unfoldable pub area_caps : Entries → Option Entries
area_caps caps = elim (dict_dict caps (codes "write")) [
  | some write ↦ some write
  | none ↦ if dict_has caps (codes "token") then some caps else none
]

unfoldable pub count_of_caps : Entries → ℤ
count_of_caps caps =
    let count = dict_int caps (codes "token_bytes") in
    if eqb_ℤ count (pos 0) then mmap_token_bytes else count

unfoldable pub verify : MmapArea → ℤ → ℕ → Result AreaError (Bool × MmapArea)
verify a token found =
    if not (eqb_ℤ (pos found) token)
    then err verification_failed
    else ok (true, record a { enabled = true })

unfoldable pub find_token : MmapArea → ℤ → ℤ → ℤ → Result AreaError (Bool × MmapArea)
find_token a token index count =
    if outside a.contents index count
    then err bounds_outside_area
    else elim (read_mmap_token a.contents index count) [
      | err e ↦ err (bad_token e)
      | ok found ↦ verify a token found
    ]

unfoldable pub enable_token : MmapArea → Entries → Option ℤ → Result AreaError (Bool × MmapArea)
enable_token a caps none = err invalid_token
enable_token a caps (some token) =
    if leb_ℤ token (pos 0)
    then err invalid_token
    else find_token a token (dict_int caps (codes "token_index")) (count_of_caps caps)

unfoldable pub enable_area : MmapArea → Option Entries → Result AreaError (Bool × MmapArea)
enable_area a none = ok (false, a)
enable_area a (some caps) =
    if dict_has caps (codes "enabled") && not (dict_bool caps (codes "enabled"))
    then ok (false, a)
    else enable_token a caps (mmap_integer (or_nil (find caps (codes "token"))))

unfoldable pub enable_from_caps : MmapArea → Option Entries → Result AreaError (Bool × MmapArea)
enable_from_caps a none = ok (false, a)
enable_from_caps a (some caps) = enable_area a (area_caps caps)

-- The bytes of a chunk, and of several one behind the other.
unfoldable pub chunk_bytes : Bytes → MmapChunk → Bytes
chunk_bytes contents c = take c.length (drop c.offset contents)

unfoldable pub joined : Bytes → List MmapChunk → Bytes
joined contents [] = []
joined contents (c ∷ cs) = chunk_bytes contents c ++ joined contents cs

unfoldable pub pixels_of : Bytes → List MmapChunk → Bytes
pixels_of contents (c ∷ []) = chunk_bytes contents c
pixels_of contents cs = joined contents cs

unfoldable pub end_of : List MmapChunk → ℕ
end_of [] = 0
end_of (c ∷ []) = c.offset + c.length
end_of (c ∷ d ∷ cs) = end_of (d ∷ cs)

-- The closure that `readChunks` returns.
pub record Release : Type 0 where
  pub end : ℕ
  pub released : Bool

unfoldable pub read_chunks : MmapArea → Value → Result ChunksError (Bytes × Release)
read_chunks a raw =
    if not a.enabled
    then err not_negotiated
    else parse_mmap_chunks raw (length a.contents) >>= λ cs.
        ok (pixels_of a.contents cs, record { end = end_of cs; released = false })

-- The header's first word tells the server how far the client has read, in the byte order of the
-- machine: `put` gives its four bytes.
module _ (put : ℕ → Bytes) where
  unfoldable pub release : Release → Bytes → Release × Bytes
  release r contents =
      if r.released
      then (r, contents)
      else (record r { released = true }, put (r.end % 2 ^ 32) ++ drop 4 contents)

-- Unmapping: `close` forgets the contents.
unfoldable pub close_area : MmapArea → MmapArea
close_area a = record a { contents = []; mapped = false; enabled = false }
