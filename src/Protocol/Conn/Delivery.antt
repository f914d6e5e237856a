-- ===== src/Protocol/Conn/Delivery.antt =====
-- protocol/conn.go: the stream of several sends, and the read loop over it.
use go_xpra.Prelude.{
  ℕ, zero, suc, ◌+◌, ◌<◌, ◌≡◌, refl, ap, true, List, [], ◌∷◌, ◌++◌, map, Option, none, some, length,
  length-append, arith, All,
}
use go_xpra.Prelude.Bytes.{Bytes}
use go_xpra.Prelude.Result.{Result, ok, ◌>>=◌}
use go_xpra.Rencode.Value.{Value, Values}
use go_xpra.Rencode.Encode.{EncodeError}
use go_xpra.Rencode.RoundTrip.{decode-encode_value}
use go_xpra.Rencode.Received.{received_values}
use go_xpra.Protocol.Chunks.{no_chunks}
use go_xpra.Protocol.Packet.{Packet, to_packet}
use go_xpra.Protocol.Conn.Writer.{frame}
use go_xpra.Protocol.Conn.Frames.{IsSendable, frame_lem, frame_round, frame-pos}
use go_xpra.Protocol.Conn.Reader.{Round, read_round, read_loop, read_all, with_packet}

-- The bytes that sending the packets in turn puts on the wire.
unfoldable pub frames : List Values → Result EncodeError Bytes
frames [] = ok []
frames (packet ∷ packets) = frame packet >>= λ f. frames packets >>= λ more. ok (f ++ more)

frame_total : (packet : Values) → IsSendable packet → (f : Bytes) × (frame packet ≡ ok f)
frame_total packet s =
    let (payload, written, decoded) =
      decode-encode_value (Value.list packet) s.encodable s.shallow in
    (_, frame_lem packet payload written)

frames_total :
    (packets : List Values)
    → All IsSendable packets
    → (stream : Bytes) × (frames packets ≡ ok stream)
unfolding frames
frames_total [] s = ([], refl)
frames_total (packet ∷ packets) s =
    let (f, e) = frame_total packet s.0 in
    let (more, e') = frames_total packets s.1 in (f ++ more, rw (e, e'))

frames-cons :
    (packet : Values) (packets : List Values) (f more stream : Bytes)
    → frame packet ≡ ok f
    → frames packets ≡ ok more
    → frames (packet ∷ packets) ≡ ok stream
    → stream ≡ f ++ more
unfolding frames
frames-cons packet packets f more stream e e' h = ground arith

abbrev pub delivered : List Values → List Packet
delivered packets = map (λ p. to_packet (received_values p)) packets

module _ (uncompress_block : Bytes → ℕ → Option Bytes) where
  loop_step :
      (packet : Packet) (stream rest : Bytes) (fuel : ℕ) (packets : List Packet)
      → read_round uncompress_block true no_chunks stream ≡ Round.deliver packet no_chunks rest
      → read_loop uncompress_block true fuel no_chunks rest ≡ some (packets, none)
      → read_loop uncompress_block true (suc fuel) no_chunks stream ≡ some (packet ∷ packets, none)
  unfolding read_loop with_packet
  loop_step packet stream rest fuel packets e e' = rw (e, read_loop) (rw e')

  read_loop-frames :
      (packets : List Values) (stream : Bytes) (fuel : ℕ)
      → All IsSendable packets
      → frames packets ≡ ok stream
      → length stream < fuel
      → read_loop uncompress_block true fuel no_chunks stream ≡ some (delivered packets, none)
  read_loop-frames packets stream zero s e h = absurd (omega arith)
  read_loop-frames [] stream (suc fuel) s e h =
      let empty : stream ≡ [] = unfold frames in cc in
      rw empty (unfold read_loop read_round in refl)
  read_loop-frames (packet ∷ packets) stream (suc fuel) s e h =
      let (f, written) = frame_total packet s.0 in
      let (more, later) = frames_total packets s.1 in
      let whole : stream ≡ f ++ more = frames-cons packet packets f more stream written later e in
      let sizes = length-append f more in
      rw whole (
        loop_step (to_packet (received_values packet)) (f ++ more) more fuel (delivered packets)
          (frame_round uncompress_block true packet f more s.0 written)
          (read_loop-frames packets more fuel s.1 later
            (omega (arith, frame-pos packet f s.0 written, ap length whole))))

  -- Any packets that can be sent: sending them in turn succeeds, and the peer's read loop delivers
  -- exactly these packets in this order, as they are received, and ends cleanly at the end of the
  -- stream.
  pub read_all-frames :
      (packets : List Values)
      → All IsSendable packets
      → (stream : Bytes) × (frames packets ≡ ok stream)
        × (read_all uncompress_block true stream ≡ some (delivered packets, none))
  unfolding read_all
  read_all-frames packets s =
      let (stream, e) = frames_total packets s in
      (stream, e, read_loop-frames packets stream (length stream + 1) s e (omega arith))
