-- ===== src/Protocol/Conn/Frames.antt =====
-- protocol/conn.go: the frame of one packet, and the round of the read loop that takes it.
use go_xpra.Prelude.{
  ℕ, ◌+◌, ◌≤◌, ◌<◌, ◌≡◌, refl, ap, ◌∙◌, Bool, [], ◌∷◌, ◌++◌, append_assoc, append-nil, Option,
  length, length-append, take, drop, take-append, drop-append, le→ltb, arith,
}
use go_xpra.Prelude.Bytes.{Bytes, length-be_bytes}
use go_xpra.Prelude.Result.{ok}
use go_xpra.Rencode.Value.{Value, Values}
use go_xpra.Rencode.Encode.{encode_value}
use go_xpra.Rencode.Decode.{decode, value}
use go_xpra.Rencode.Received.{IsEncodable, height, received, received_values}
use go_xpra.Rencode.RoundTrip.{decode-encode_value}
use go_xpra.Protocol.Header.{
  Header, header_size, flag_rencodeplus, flag_flush, max_payload_size, encode_header, parse_header,
  parse_header-encode_header,
}
use go_xpra.Protocol.Chunks.{no_chunks, apply}
use go_xpra.Protocol.Packet.{to_packet}
use go_xpra.Protocol.Conn.Writer.{frame}
use go_xpra.Protocol.Conn.Reader.{
  deliver, reassemble, decode_main, handle_payload, read_payload, read_round,
}

-- A packet that can be sent and read back: it is encodable, nests within the decoder's limit, and
-- its payload fits in a packet.
pub record IsSendable (packet : Values) : Type 0 where
  pub encodable : IsEncodable (Value.list packet)
  pub shallow : height (Value.list packet) ≤ 64
  pub fits : (bs : Bytes) → encode_value (Value.list packet) ≡ ok bs → length bs ≤ max_payload_size

length-encode_header : (flags n : ℕ) → length (encode_header flags n) ≡ 8
unfolding encode_header
length-encode_header flags n = omega (arith, length-be_bytes 4)

-- A decoded value needs a byte at least.
decode-nonempty : (bs : Bytes) (v : Value) → decode bs ≡ ok v → 0 < length bs
decode-nonempty [] v e = absurd (unfold decode value in cc)
decode-nonempty (b ∷ bs) v e = omega arith

main_round :
    (packet : Values) (payload rest : Bytes)
    → decode payload ≡ ok (Value.list packet)
    → decode_main no_chunks payload rest ≡ deliver (to_packet packet) no_chunks rest
unfolding decode_main reassemble apply
main_round packet payload rest e = rw (e, decode_main) refl

abbrev send_flags : ℕ
send_flags = flag_rencodeplus + flag_flush

pub frame_lem :
    (packet : Values) (payload : Bytes)
    → encode_value (Value.list packet) ≡ ok payload
    → frame packet ≡ ok (encode_header send_flags (length payload) ++ payload)
unfolding frame
frame_lem packet payload e = rw e

pub frame-pos :
    (packet : Values) (f : Bytes) → IsSendable packet → frame packet ≡ ok f → 0 < length f
frame-pos packet f s e =
    let (payload, written, decoded) =
      decode-encode_value (Value.list packet) s.encodable s.shallow in
    let hdr = encode_header send_flags (length payload) in
    let same : f ≡ hdr ++ payload = cc (frame_lem packet payload written) in
    omega (
      arith,
      ap length same,
      length-append hdr payload,
      length-encode_header send_flags (length payload),
    )

module _ (uncompress_block : Bytes → ℕ → Option Bytes) (eof : Bool) where
  -- A whole header and payload in front of the stream, uncompressed and inline.
  payload_round :
      (flags : ℕ) (payload rest : Bytes)
      → read_payload uncompress_block eof
          (record { flags = flags; compression = 0; index = 0; length = length payload })
          no_chunks
          (payload ++ rest)
        ≡ handle_payload
            (record { flags = flags; compression = 0; index = 0; length = length payload })
            no_chunks
            rest
            payload
  unfolding read_payload
  payload_round flags payload rest = rw (
    le→ltb (length (payload ++ rest)) (length payload) (omega (arith, length-append payload rest)),
    take-append payload rest,
    drop-append payload rest,
  )

  header_round :
      (stream : Bytes) (hdr rest : Bytes) (h : Header)
      → stream ≡ hdr ++ rest
      → length hdr ≡ 8
      → parse_header hdr ≡ ok h
      → read_round uncompress_block eof no_chunks stream
        ≡ read_payload uncompress_block eof h no_chunks rest
  unfolding read_round
  header_round [] hdr rest h e l p = absurd (omega (arith, ap length e, length-append hdr rest))
  header_round (b ∷ bs) hdr rest h e l p =
      let cut : take header_size (hdr ++ rest) ≡ hdr = rw (← l) (take-append hdr rest) in
      let cut' : drop header_size (hdr ++ rest) ≡ rest = rw (← l) (drop-append hdr rest) in
      let enough : 8 ≤ length (b ∷ bs) = omega (arith, ap length e, length-append hdr rest) in
      let parsed : parse_header (take header_size (b ∷ bs)) ≡ ok h =
        ap (λ t. parse_header (take header_size t)) e ∙ ap parse_header cut ∙ p in
      let dropped : drop header_size (b ∷ bs) ≡ rest = ap (drop header_size) e ∙ cut' in
      rw (le→ltb (length (b ∷ bs)) header_size enough) (rw (parsed, read_round) (rw dropped))

  pub frame_round :
      (packet : Values) (f rest : Bytes)
      → IsSendable packet
      → frame packet ≡ ok f
      → read_round uncompress_block eof no_chunks (f ++ rest)
        ≡ deliver (to_packet (received_values packet)) no_chunks rest
  frame_round packet f rest s e =
      let (payload, written, decoded) =
        decode-encode_value (Value.list packet) s.encodable s.shallow in
      let hdr = encode_header send_flags (length payload) in
      let same : f ≡ hdr ++ payload = cc (frame_lem packet payload written) in
      let parsed : parse_header hdr
          ≡ ok
              (record { flags = send_flags; compression = 0; index = 0; length = length payload }) =
        rw append-nil at (
          parse_header-encode_header send_flags (length payload) []
            (decode-nonempty payload _ decoded) (s.fits payload written)) in
      header_round (f ++ rest) hdr (payload ++ rest) _ (rw same (append_assoc hdr payload rest))
        (length-encode_header send_flags (length payload)) parsed
      ∙ payload_round send_flags payload rest
      ∙ unfold handle_payload in
        main_round (received_values packet) payload rest (unfold received in decoded)
