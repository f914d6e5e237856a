-- ===== src/Protocol/Tests.antt =====
-- Runs of the protocol's parts on small inputs, and the theorems at concrete inputs.
use go_xpra.Prelude.{
  ℕ, ◌≤◌, ◌<◌, ◌≡◌, ◌≢◌, refl, ap, sym, ◌∙◌, true, false, [], ◌∷◌, ◌++◌, Option, none, some, length,
  get_elem?, arith,
}
use go_xpra.Prelude.Int.{pos, to_word}
use go_xpra.Prelude.Bytes.{Bytes, codes, be_bytes, be_value}
use go_xpra.Prelude.Result.{Result, ok, err}
use go_xpra.Rencode.Value.{Value, Values, no_values, item}
use go_xpra.Rencode.Encode.{
  EncodeError, encode_value, encode, encode_string, encode_int, encode_list, encode_counted,
  write_all,
}
use go_xpra.Rencode.Received.{IsEncodable, height}
use go_xpra.Protocol.Header.{
  Header, encode_header, parse_header, check_header, parse_header-encode_header, max_payload_size,
}
use go_xpra.Protocol.Chunks.{
  RawChunkState, no_chunks, add, apply, place_all, place, check_placeholder, payload_at, is_some,
}
use go_xpra.Protocol.Chunks.Laws.{IsValid}
use go_xpra.Protocol.Chunks.Apply.{apply_lem, with_chunk}
use go_xpra.Protocol.Packet.{Packet}
use go_xpra.Protocol.Compression.{decompress, inflate, le_value, decompress_bounds}
use go_xpra.Protocol.Conn.Reader.{ReadError, read_round, read_all}
use go_xpra.Protocol.Conn.Rounds.{Keeps, read_round-Keeps, read_all-ne-none, no_chunks-IsValid}
use go_xpra.Protocol.Conn.Writer.{
  Conn, data_frame, marker, frame, send, write_queue, sent, queue_full,
}
use go_xpra.Protocol.Conn.Queue.{stream_of, drain, send_lem, drain_lem}
use go_xpra.Protocol.Conn.Frames.{IsSendable}
use go_xpra.Protocol.Conn.Delivery.{frames, delivered, read_all-frames}

-- A block that is stored, not compressed.
abbrev stored : Bytes → ℕ → Option Bytes
stored block size = some block

abbrev ping : Values
ping = item (Value.text (codes "ping")) (item (Value.int (pos 7)) no_values)

abbrev ping_payload : Bytes
ping_payload = 194 ∷ 132 ∷ codes "ping" ++ (7 ∷ [])

encode_ping : encode_value (Value.list ping) ≡ ok ping_payload
unfolding encode_value encode encode_string encode_int encode_list encode_counted write_all to_word
encode_ping = refl

abbrev ping_frame : Bytes
ping_frame = 80 ∷ 24 ∷ 0 ∷ 0 ∷ 0 ∷ 0 ∷ 0 ∷ 7 ∷ ping_payload

frame-ping : frame ping ≡ ok ping_frame
unfolding frame encode_header be_bytes encode_value encode encode_string encode_int encode_list
    encode_counted write_all to_word
frame-ping = refl

abbrev size_of : Result EncodeError Bytes → ℕ
size_of (ok bs) = length bs
size_of (err e) = 0

ping-IsSendable : IsSendable ping
unfolding IsEncodable height
ping-IsSendable = record {
  encodable = (omega arith, (omega arith, tt));
  shallow = omega arith;
  fits = λ bs e. omega (arith, ap size_of (sym e ∙ encode_ping));
}

read_all-frames_example :
    (stream : Bytes) × (frames (ping ∷ ping ∷ []) ≡ ok stream)
    × (read_all stored true stream ≡ some (delivered (ping ∷ ping ∷ []), none))
read_all-frames_example =
    read_all-frames stored (ping ∷ ping ∷ []) (ping-IsSendable, (ping-IsSendable, tt))

abbrev chunk_header : Header
chunk_header = record { flags = 0; compression = 0; index = 2; length = 3 }

parse_chunk_header : parse_header (80 ∷ 0 ∷ 0 ∷ 2 ∷ 0 ∷ 0 ∷ 0 ∷ 3 ∷ []) ≡ ok chunk_header
unfolding parse_header check_header be_value
parse_chunk_header = refl

parse_header-encode_header_example :
    parse_header (encode_header 24 7 ++ ping_payload)
    ≡ ok (record { flags = 24; compression = 0; index = 0; length = 7 })
parse_header-encode_header_example =
    parse_header-encode_header 24 7 ping_payload (omega arith) (omega arith)

abbrev one_chunk : RawChunkState
one_chunk = record { packets = (1, 10 ∷ 11 ∷ []) ∷ []; size = 2 }

add_chunk : add no_chunks 1 (10 ∷ 11 ∷ []) ≡ ok one_chunk
unfolding add payload_at is_some
add_chunk = refl

abbrev draw : Packet
draw = Value.text (codes "draw") ∷ Value.text [] ∷ Value.int (pos 5) ∷ []

abbrev draw_whole : Packet
draw_whole = Value.text (codes "draw") ∷ Value.binary (10 ∷ 11 ∷ []) ∷ Value.int (pos 5) ∷ []

apply_chunk : apply one_chunk draw 20 ≡ ok (draw_whole, no_chunks)
unfolding apply place_all place check_placeholder payload_at
apply_chunk = refl

one_chunk-IsValid : IsValid one_chunk
unfolding payload_at
one_chunk-IsValid = record {
  few = omega arith;
  filled = (omega arith, tt);
  indexed = ((omega arith, omega arith), tt);
  distinct = (refl, tt);
  counted = refl;
  bounded = omega arith;
}

chunk_found : payload_at 1 one_chunk.packets ≡ some (10 ∷ 11 ∷ [])
unfolding payload_at
chunk_found = refl

apply_lem_example :
    (length draw_whole ≡ length draw)
    × ((k : ℕ) → get_elem? draw_whole k ≡ with_chunk one_chunk.packets draw k)
    × (no_chunks ≡ no_chunks)
apply_lem_example = apply_lem one_chunk draw 20 draw_whole no_chunks one_chunk-IsValid apply_chunk

inflate_stored : decompress stored 16 (2 ∷ 0 ∷ 0 ∷ 0 ∷ 10 ∷ 11 ∷ []) ≡ ok (10 ∷ 11 ∷ [])
unfolding decompress inflate le_value
inflate_stored = refl

decompress_bounds_example :
    (2 ≡ le_value (2 ∷ 0 ∷ 0 ∷ 0 ∷ 10 ∷ 11 ∷ [])) × (2 ≤ max_payload_size) × (4 ≤ 6)
decompress_bounds_example =
    decompress_bounds stored 16 (2 ∷ 0 ∷ 0 ∷ 0 ∷ 10 ∷ 11 ∷ []) (10 ∷ 11 ∷ []) inflate_stored

read_round-Keeps_example : Keeps (length ping_frame) (read_round stored true no_chunks ping_frame)
read_round-Keeps_example = read_round-Keeps stored true no_chunks ping_frame no_chunks-IsValid

read_all-ne-none_example : read_all stored true ping_frame ≢ none
read_all-ne-none_example = read_all-ne-none stored true ping_frame

-- A frame waits ahead of a flush marker, another one behind it.
abbrev busy : Conn ReadError
busy = record {
  writes = data_frame (1 ∷ []) ∷ marker 9 ∷ data_frame (2 ∷ []) ∷ [];
  closed = false;
  err = none;
  wire = [];
  flushed = [];
  writing = true;
}

send_lem_example :
    (busy.closed ≡ true → send busy ping ≡ (busy, sent))
    × (busy.closed ≡ false → write_queue ≤ length busy.writes → send busy ping ≡ (busy, queue_full))
    × (busy.closed ≡ false
        → length busy.writes < write_queue
        → ((send busy ping).1 ≡ sent)
          × (stream_of (send busy ping).0 ≡ stream_of busy ++ ping_frame))
send_lem_example = send_lem busy ping ping_frame frame-ping

drain_lem_example :
    ((drain 2 busy).wire ≡ 1 ∷ [])
    × ((drain 2 busy).flushed ≡ 9 ∷ [])
    × ((drain 2 busy).writes ≡ data_frame (2 ∷ []) ∷ [])
drain_lem_example = drain_lem (data_frame (1 ∷ []) ∷ []) (data_frame (2 ∷ []) ∷ []) 9 busy refl refl
