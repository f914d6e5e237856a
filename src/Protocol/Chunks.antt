-- ===== src/Protocol/Chunks.antt =====
-- protocol/conn.go, `rawChunkState`: binary packet elements that arrive ahead of their packet.
pub mod Laws
pub mod Apply
use go_xpra.Prelude.{
  ℕ, zero, suc, ◌+◌, ◌-◌, Bool, List, [], ◌∷◌, ◌++◌, Option, none, some, length, get_elem?, set,
  leb, ltb, ◌==◌, if◌then◌else◌,
}
use go_xpra.Prelude.Bytes.{Bytes}
use go_xpra.Prelude.Result.{Result, ok, err, ◌>>=◌}
use go_xpra.Rencode.Value.{Value}
use go_xpra.Protocol.Header.{max_payload_size, max_packet_index}

abbrev pub max_raw_chunks : ℕ
max_raw_chunks = 3

-- `packets` is the map from indexes to payloads, newest last; a nil map is an empty one.
pub record RawChunkState : Type 0 where
  pub packets : List (ℕ × Bytes)
  pub size : ℕ

abbrev pub no_chunks : RawChunkState
no_chunks = record { packets = []; size = 0 }

-- The errors, without the numbers that their messages print.
pub data ChunkError : Type 0 where
  empty_chunk duplicate_chunk too_many_chunks chunks_too_big : ChunkError
  packet_too_big outside_packet bytes_placeholder text_placeholder typed_placeholder : ChunkError

unfoldable pub payload_at : ℕ → List (ℕ × Bytes) → Option Bytes
payload_at i [] = none
payload_at i ((j, p) ∷ l) = if j == i then some p else payload_at i l

unfoldable pub is_some : Option Bytes → Bool
is_some none = Bool.false
is_some (some p) = Bool.true

unfoldable pub add : RawChunkState → ℕ → Bytes → Result ChunkError RawChunkState
add s index payload =
    if length payload == 0
    then err empty_chunk
    else if is_some (payload_at index s.packets)
    then err duplicate_chunk
    else if leb max_raw_chunks (length s.packets)
    then err too_many_chunks
    else if ltb (max_payload_size - s.size) (length payload)
    then err chunks_too_big
    else ok
        (record { packets = s.packets ++ ((index, payload) ∷ []); size = s.size + length payload })

-- The switch on the placeholder that a chunk takes the place of.
unfoldable pub check_placeholder : Value → Result ChunkError (Unit {0})
check_placeholder (Value.binary b) = if length b == 0 then ok tt else err bytes_placeholder
check_placeholder (Value.text s) = if length s == 0 then ok tt else err text_placeholder
check_placeholder _ = err typed_placeholder

unfoldable pub place : ℕ → Bytes → List Value → Result ChunkError (List Value)
place index payload packet = elim (get_elem? packet index) [
  | none ↦ err outside_packet
  | some v ↦ check_placeholder v >>= λ _. ok (set packet index (Value.binary payload))
]

-- The loop over the indexes, `n` of them from `index` on.
unfoldable pub place_all : ℕ → ℕ → List (ℕ × Bytes) → List Value → Result ChunkError (List Value)
place_all zero index chunks packet = ok packet
place_all (suc n) index chunks packet = elim (payload_at index chunks) [
  | none ↦ place_all n (index + 1) chunks packet
  | some p ↦ place index p packet >>= place_all n (index + 1) chunks
]

unfoldable pub apply :
    RawChunkState → List Value → ℕ → Result ChunkError (List Value × RawChunkState)
apply s packet main_size =
    if length s.packets == 0
    then ok (packet, s)
    else if ltb (max_payload_size - s.size) main_size
    then err packet_too_big
    else place_all max_packet_index 1 s.packets packet >>= λ packet'. ok (packet', no_chunks)
