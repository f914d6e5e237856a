-- ===== src/Protocol/Conn/Reader.antt =====
-- protocol/conn.go, `readLoop`: from the bytes of the stream to packets.
use Prim.Native.Nat.{bit_and}
use go_xpra.Prelude.{
  ℕ, zero, suc, ◌+◌, Bool, List, [], ◌∷◌, Option, none, some, length, take, drop, ltb, not, ◌==◌,
  if◌then◌else◌,
}
use go_xpra.Prelude.Bytes.{Bytes}
use go_xpra.Prelude.Result.{ok, err}
use go_xpra.Rencode.Value.{Value}
use go_xpra.Rencode.Decode.{DecodeError, decode}
use go_xpra.Protocol.Header.{Header, HeaderError, header_size, flag_rencodeplus, parse_header}
use go_xpra.Protocol.Chunks.{RawChunkState, ChunkError, no_chunks, add, apply}
use go_xpra.Protocol.Packet.{Packet, to_packet}
use go_xpra.Protocol.Compression.{CompressionError, decompress}

-- What `fail` records.
pub data ReadError : Type 0 where
  pending_chunks bad_stream payload_missing not_rencodeplus not_a_list : ReadError
  bad_header : HeaderError → ReadError
  bad_compression : CompressionError → ReadError
  bad_chunk : ChunkError → ReadError
  bad_packet : DecodeError → ReadError

-- One round of the loop: it returns, having failed or not; it goes on; or it delivers a packet and
-- goes on.
pub data Round : Type 0 where
  returned : Option ReadError → Round
  again : RawChunkState → Bytes → Round
  deliver : Packet → RawChunkState → Bytes → Round

unfoldable pub reassemble : RawChunkState → Bytes → Bytes → Value → Round
reassemble chunks payload rest (Value.list vs) =
    elim (apply chunks (to_packet vs) (length payload)) [
      | err e ↦ returned (some (bad_chunk e))
      | ok (packet, chunks') ↦ deliver packet chunks' rest
    ]
reassemble chunks payload rest _ = returned (some not_a_list)

unfoldable pub decode_main : RawChunkState → Bytes → Bytes → Round
decode_main chunks payload rest = elim (decode payload) [
  | err e ↦ returned (some (bad_packet e))
  | ok v ↦ reassemble chunks payload rest v
]

unfoldable pub keep_chunk : RawChunkState → ℕ → Bytes → Bytes → Round
keep_chunk chunks index payload rest = elim (add chunks index payload) [
  | err e ↦ returned (some (bad_chunk e))
  | ok chunks' ↦ again chunks' rest
]

unfoldable pub handle_payload : Header → RawChunkState → Bytes → Bytes → Round
handle_payload h chunks rest payload =
    if not (h.index == 0)
    then keep_chunk chunks h.index payload rest
    else if bit_and h.flags flag_rencodeplus == 0
    then returned (some not_rencodeplus)
    else decode_main chunks payload rest

unfoldable pub with_packet :
    Packet → Option (List Packet × Option ReadError) → Option (List Packet × Option ReadError)
with_packet packet none = none
with_packet packet (some (packets, e)) = some (packet ∷ packets, e)

-- The stream's end is io.EOF, or another error.
module _ (uncompress_block : Bytes → ℕ → Option Bytes) (eof : Bool) where
  unfoldable pub read_payload : Header → RawChunkState → Bytes → Round
  read_payload h chunks stream =
      if ltb (length stream) h.length
      then returned (some payload_missing)
      else if h.compression == 0
      then handle_payload h chunks (drop h.length stream) (take h.length stream)
      else elim (decompress uncompress_block h.compression (take h.length stream)) [
        | err e ↦ returned (some (bad_compression e))
        | ok payload ↦ handle_payload h chunks (drop h.length stream) payload
      ]

  unfoldable pub read_round : RawChunkState → Bytes → Round
  read_round chunks [] =
      if eof
      then returned (if length chunks.packets == 0 then none else some pending_chunks)
      else returned (some bad_stream)
  read_round chunks (b ∷ bs) =
      if ltb (length (b ∷ bs)) header_size
      then returned (some bad_stream)
      else elim (parse_header (take header_size (b ∷ bs))) [
        | err e ↦ returned (some (bad_header e))
        | ok h ↦ read_payload h chunks (drop header_size (b ∷ bs))
      ]

  -- The packets that the loop delivers, in order, and how it ended. `none` is a want of fuel, which
  -- is no outcome of the code: every round but the last takes a header from the stream.
  unfoldable pub read_loop : ℕ → RawChunkState → Bytes → Option (List Packet × Option ReadError)
  read_loop zero chunks stream = none
  read_loop (suc f) chunks stream = elim (read_round chunks stream) [
    | returned e ↦ some ([], e)
    | again chunks' rest ↦ read_loop f chunks' rest
    | deliver packet chunks' rest ↦ with_packet packet (read_loop f chunks' rest)
  ]

  unfoldable pub read_all : Bytes → Option (List Packet × Option ReadError)
  read_all stream = read_loop (length stream + 1) no_chunks stream
