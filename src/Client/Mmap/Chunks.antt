-- ===== src/Client/Mmap/Chunks.antt =====
-- client/mmap.go: `parseMmapChunks`.
pub mod Bounds
use go_xpra.Prelude.{
  ℕ, zero, suc, ◌+◌, ◌-◌, ◌*◌, ◌%◌, ◌^◌, ◌≤◌, ◌<◌, ◌≡◌, refl, ap, subst, or-false, ◌∙◌, Bool, true,
  false, ◌||◌, List, [], ◌∷◌, ◌++◌, Option, none, some, length, take, drop, All, ltb, leb, ◌==◌,
  if◌then◌else◌, arith, Bool-cases, Option-cases, inl, inr, length-take, length-drop, length-append,
}
use go_xpra.Prelude.Int.{ℤ, pos, negsuc, pos_part, ltb_ℤ, ◌-ℤ◌, ◌≤ℤ◌, -ℤ_parts, ltb_ℤ→le}
use go_xpra.Prelude.Bytes.{Bytes, be_bytes}
use go_xpra.Prelude.Result.{Result, ok, err, ◌>>=◌, >>=-eq-ok, if-ok}
use go_xpra.Rencode.Value.{Value, Values, no_values, item}

abbrev pub mmap_header_size : ℕ
mmap_header_size = 8

pub record MmapChunk : Type 0 where
  pub offset : ℕ
  pub length : ℕ

pub data ChunksError : Type 0 where
  bad_list bad_descriptor outside_area sizes_overflow no_pixels not_negotiated : ChunksError

unfoldable pub pair_of : Value → Option (Value × Value)
pair_of (Value.list (item a (item b no_values))) = some (a, b)
pair_of _ = none

unfoldable pub int64_of : Value → Option ℤ
int64_of (Value.int n) = some n
int64_of _ = none

-- The bounds of one descriptor, `total` bytes having been described before it.
unfoldable pub bounded_chunk : ℕ → ℕ → ℤ → ℤ → Result ChunksError MmapChunk
bounded_chunk size total offset length =
    if ltb_ℤ offset (pos mmap_header_size)
      || ltb_ℤ length (pos 0)
      || ltb_ℤ (pos size) offset
      || ltb_ℤ (pos size -ℤ offset) length
    then err outside_area
    else if ltb_ℤ (pos size -ℤ pos total) length
    then err sizes_overflow
    else ok (record { offset = pos_part offset; length = pos_part length })

unfoldable pub typed_chunk : ℕ → ℕ → Option ℤ → Option ℤ → Result ChunksError MmapChunk
typed_chunk size total (some offset) (some length) = bounded_chunk size total offset length
typed_chunk size total _ _ = err outside_area

unfoldable pub parse_chunk : ℕ → ℕ → Value → Result ChunksError MmapChunk
parse_chunk size total v = elim (pair_of v) [
  | none ↦ err bad_descriptor
  | some (a, b) ↦ typed_chunk size total (int64_of a) (int64_of b)
]

unfoldable pub with_chunks :
    MmapChunk → List MmapChunk × ℕ → Result ChunksError (List MmapChunk × ℕ)
with_chunks c (cs, total) = ok (c ∷ cs, total)

-- The loop over the descriptors: the chunks, and their total length.
unfoldable pub parse_items : ℕ → ℕ → Values → Result ChunksError (List MmapChunk × ℕ)
parse_items size total no_values = ok ([], total)
parse_items size total (item v vs) =
    parse_chunk size total v >>= λ c. parse_items size (total + c.length) vs >>= with_chunks c

unfoldable pub nonempty_chunks : List MmapChunk × ℕ → Result ChunksError (List MmapChunk)
nonempty_chunks (cs, total) = if total == 0 then err no_pixels else ok cs

unfoldable pub count_values : Values → ℕ
count_values no_values = 0
count_values (item v vs) = suc (count_values vs)

unfoldable pub parse_mmap_chunks : Value → ℕ → Result ChunksError (List MmapChunk)
parse_mmap_chunks (Value.list items) size =
    if count_values items == 0 || ltb 2 (count_values items)
    then err bad_list
    else parse_items size 0 items >>= nonempty_chunks
parse_mmap_chunks _ size = err bad_list
