-- ===== src/Client/Mmap/Tests.antt =====
-- client/mmap.go: runs on a small area, and the theorems at concrete inputs.
use go_xpra.Prelude.Int.{◌+ℤ◌}
use go_xpra.Prelude.{ℕ, ◌≤◌, ◌≡◌, refl, true, false, List, [], ◌∷◌, length, some, All}
use go_xpra.Prelude.Int.{pos, ◌-ℤ◌}
use go_xpra.Prelude.Bytes.{overwrite, Bytes, codes, be_value, bytes_eq}
use go_xpra.Prelude.Result.{ok}
use go_xpra.Rencode.Value.{Value, Entries, no_values, item, no_entries, entry}
use go_xpra.Protocol.Packet.{
  or_nil, find, dict_int, dict_bool, dict_has, dict_dict, as_int, as_bool, as_dict,
}
use go_xpra.Client.Mmap.Chunks.{
  MmapChunk, pair_of, int64_of, bounded_chunk, typed_chunk, parse_chunk, with_chunks, parse_items,
  nonempty_chunks, count_values, parse_mmap_chunks,
}
use go_xpra.Client.Mmap.Chunks.Bounds.{InArea, total_length}
use go_xpra.Client.Mmap.Token.{
  write_mmap_token, read_mmap_token, put_token, reversed_bytes, digits_from, outside,
  value_of_reversed,
}
use go_xpra.Client.Mmap.Area.{
  MmapArea, mmap_integer, area_caps, count_of_caps, verify, find_token, enable_token, enable_area,
  enable_from_caps, chunk_bytes, joined, pixels_of, end_of, Release, read_chunks,
}
use go_xpra.Client.Mmap.Area.{generate_token, token_of, available, with_token}
use go_xpra.Client.Mmap.Area.Echo.{answer, enable_from_caps-generate_token}
use go_xpra.Client.Mmap.Session.{keep_accepted, negotiate_mmap}
use go_xpra.Client.Mmap.Area.Negotiation.{Claims, Outcome, enable_from_caps_lem}
use go_xpra.Client.Mmap.Area.Updates.{read_chunks_lem}

-- Two descriptors, the second one where the ring of the server wraps.
abbrev descriptors : Value
descriptors = Value.list (
    item (Value.list (item (Value.int (pos 12)) (item (Value.int (pos 2)) no_values)))
      (item (Value.list (item (Value.int (pos 8)) (item (Value.int (pos 1)) no_values))) no_values))

abbrev two_chunks : List MmapChunk
two_chunks = record { offset = 12; length = 2 } ∷ record { offset = 8; length = 1 } ∷ []

parse_two : parse_mmap_chunks descriptors 14 ≡ ok two_chunks
unfolding parse_mmap_chunks parse_items parse_chunk typed_chunk bounded_chunk with_chunks
    nonempty_chunks count_values pair_of int64_of ◌-ℤ◌
parse_two = refl

abbrev blank : Bytes
blank = 1 ∷ 2 ∷ 3 ∷ 4 ∷ 5 ∷ 6 ∷ []

abbrev signed : Bytes
signed = 1 ∷ 44 ∷ 1 ∷ 0 ∷ 5 ∷ 6 ∷ []

write_300 : write_mmap_token blank (some (pos 300)) (pos 1) (pos 3) ≡ ok signed
unfolding write_mmap_token put_token overwrite reversed_bytes digits_from outside ◌-ℤ◌
write_300 = refl

abbrev area : MmapArea
area = record {
  contents = 0 ∷ 0 ∷ 0 ∷ 0 ∷ 0 ∷ 0 ∷ 0 ∷ 0 ∷ 44 ∷ 1 ∷ 0 ∷ 0 ∷ 7 ∷ 9 ∷ [];
  token = pos 300;
  token_index = pos 8;
  token_bytes = pos 4;
  mapped = true;
  enabled = false;
}

abbrev enabled_area : MmapArea
enabled_area = record area { enabled = true }

abbrev reply : Entries
reply = entry (codes "token") (Value.int (pos 300)) (
    entry (codes "token_index") (Value.int (pos 8))
      (entry (codes "token_bytes") (Value.int (pos 4)) no_entries))

enable_reply : enable_from_caps area (some reply) ≡ ok (true, enabled_area)
unfolding enable_from_caps enable_area enable_token find_token verify area_caps count_of_caps
    mmap_integer or_nil find dict_int dict_bool dict_has dict_dict as_int as_bool as_dict bytes_eq
    outside read_mmap_token value_of_reversed ◌-ℤ◌
enable_reply = refl

enable_from_caps_lem_example :
    Outcome area
      ((c ac : Entries) × (some reply ≡ some c) × (area_caps c ≡ some ac) × Claims area ac)
      (true, enabled_area)
enable_from_caps_lem_example =
    enable_from_caps_lem area (some reply) (true, enabled_area) enable_reply

abbrev first_release : Release
first_release = record { end = 9; released = false }

read_two : read_chunks enabled_area descriptors ≡ ok (7 ∷ 9 ∷ 44 ∷ [], first_release)
unfolding read_chunks pixels_of chunk_bytes joined end_of parse_mmap_chunks parse_items parse_chunk
    typed_chunk bounded_chunk with_chunks nonempty_chunks count_values pair_of int64_of ◌-ℤ◌
read_two = refl

read_chunks_lem_example :
    (true ≡ true)
    × ((cs : List MmapChunk) × (parse_mmap_chunks descriptors 14 ≡ ok cs)
        × (1 ≤ length cs)
        × (length cs ≤ 2)
        × All (InArea 14) cs
        × (7 ∷ 9 ∷ 44 ∷ [] ≡ joined enabled_area.contents cs)
        × (3 ≡ total_length cs)
        × (first_release ≡ (record { end = end_of cs; released = false })))
read_chunks_lem_example =
    read_chunks_lem enabled_area descriptors (7 ∷ 9 ∷ 44 ∷ []) first_release read_two

-- A new area of 14 bytes, with room for a token of 4.
abbrev new_area : MmapArea
new_area = record {
  contents = 0 ∷ 0 ∷ 0 ∷ 0 ∷ 0 ∷ 0 ∷ 0 ∷ 0 ∷ 0 ∷ 0 ∷ 0 ∷ 0 ∷ 7 ∷ 9 ∷ [];
  token = pos 0;
  token_index = pos 0;
  token_bytes = pos 4;
  mapped = true;
  enabled = false;
}

abbrev first_place : ℕ → ℕ
first_place n = 0

generate_300 : generate_token new_area (1 ∷ 44 ∷ []) first_place ≡ ok area
unfolding generate_token token_of available with_token be_value write_mmap_token put_token overwrite
    reversed_bytes digits_from outside ◌-ℤ◌ ◌+ℤ◌
generate_300 = refl

enable_from_caps-generate_token_example :
    enable_from_caps area (some (answer area)) ≡ ok (true, enabled_area)
enable_from_caps-generate_token_example =
    enable_from_caps-generate_token new_area (1 ∷ 44 ∷ []) first_place area generate_300

abbrev server_caps : Entries
server_caps = entry (codes "mmap") (Value.map_text reply) no_entries

negotiate_reply : negotiate_mmap (some area) server_caps ≡ ok (some enabled_area)
unfolding negotiate_mmap keep_accepted enable_from_caps enable_area enable_token find_token verify
    area_caps count_of_caps mmap_integer or_nil find dict_int dict_bool dict_has dict_dict as_int
    as_bool as_dict bytes_eq outside read_mmap_token value_of_reversed ◌-ℤ◌
negotiate_reply = refl
