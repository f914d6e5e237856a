-- ===== src/Protocol/Conn/Rounds.antt =====
-- protocol/conn.go: one round of `readLoop`, and the loop.
use Prim.Native.Nat.{bit_and}
use go_xpra.Prelude.{
  ℕ, zero, suc, ◌+◌, ◌≤◌, ◌<◌, ◌≡◌, ◌≢◌, refl, Bool, true, false, List, [], ◌∷◌, Option, none, some,
  length, length-drop, take, drop, ltb, ltb→le, ◌==◌, if◌then◌else◌, arith, Bool-cases, inl, inr,
  ◌⊎◌,
}
use go_xpra.Prelude.Bytes.{Bytes}
use go_xpra.Prelude.Result.{Result, ok, err}
use go_xpra.Rencode.Value.{Value}
use go_xpra.Rencode.Decode.{decode}
use go_xpra.Protocol.Header.{
  Header, IsAccepted, header_size, flag_rencodeplus, max_packet_index, parse_header,
  parse_header-IsAccepted,
}
use go_xpra.Protocol.Chunks.{RawChunkState, no_chunks, add, apply}
use go_xpra.Protocol.Chunks.Laws.{IsValid, add-IsValid}
use go_xpra.Protocol.Chunks.Apply.{apply_lem}
use go_xpra.Protocol.Packet.{Packet, to_packet}
use go_xpra.Protocol.Compression.{decompress}
use go_xpra.Protocol.Conn.Reader.{
  ReadError, Round, returned, again, deliver, reassemble, decode_main, keep_chunk, handle_payload,
  read_payload, read_round, read_loop, read_all, with_packet,
}

-- What a round that goes on leaves: valid chunks, none after a packet, and less than `n` bytes.
abbrev pub Keeps : ℕ → Round → Type 0
Keeps n (returned e) = Unit {0}
Keeps n (again chunks rest) = IsValid chunks × (length rest < n)
Keeps n (deliver packet chunks rest) = (chunks ≡ no_chunks) × (length rest < n)

pub no_chunks-IsValid : IsValid no_chunks
no_chunks-IsValid = record {
  few = omega arith;
  filled = tt;
  indexed = tt;
  distinct = tt;
  counted = refl;
  bounded = omega arith;
}

Result-cases : {E A : Type 0} (r : Result E A) → ((e : E) × (r ≡ err e)) ⊎ ((a : A) × (r ≡ ok a))
Result-cases (ok a) = inr (a, refl)
Result-cases (err e) = inl (e, refl)

module _ (chunks : RawChunkState) (v : IsValid chunks) (n : ℕ) (rest : Bytes)
    (shorter : length rest < n) where
  reassemble-Keeps : (payload : Bytes) (d : Value) → Keeps n (reassemble chunks payload rest d)
  unfolding reassemble
  reassemble-Keeps payload (Value.list vs) =
      elim (Result-cases (apply chunks (to_packet vs) (length payload))) [
        | inl (e, q) ↦ rw (q, reassemble) tt
        | inr ((packet, chunks'), q) ↦
            rw (q, reassemble)
              ((apply_lem chunks (to_packet vs) (length payload) packet chunks' v q).2, shorter)
      ]
  reassemble-Keeps payload _ = tt

  decode_main-Keeps : (payload : Bytes) → Keeps n (decode_main chunks payload rest)
  unfolding decode_main
  decode_main-Keeps payload = elim (Result-cases (decode payload)) [
    | inl (e, q) ↦ rw (q, decode_main) tt
    | inr (d, q) ↦ rw (q, decode_main) (reassemble-Keeps payload d)
  ]

  keep_chunk-Keeps :
      (index : ℕ) (payload : Bytes)
      → 1 ≤ index
      → index ≤ max_packet_index
      → Keeps n (keep_chunk chunks index payload rest)
  unfolding keep_chunk
  keep_chunk-Keeps index payload lo hi = elim (Result-cases (add chunks index payload)) [
    | inl (e, q) ↦ rw (q, keep_chunk) tt
    | inr (chunks', q) ↦
        rw (q, keep_chunk) (add-IsValid chunks index payload chunks' v lo hi q, shorter)
  ]

  handle_payload-Keeps :
      (h : Header) (payload : Bytes) → IsAccepted h → Keeps n (handle_payload h chunks rest payload)
  unfolding handle_payload
  handle_payload-Keeps h payload a = elim (Bool-cases (h.index == 0)) [
    | inl main ↦ rw main (main_round (bit_and h.flags flag_rencodeplus == 0))
    | inr raw ↦ rw raw (keep_chunk-Keeps h.index payload (ground arith) a.indexed)
  ]
    where
      main_round :
          (b : Bool)
          → Keeps n (
              if b
              then returned (some ReadError.not_rencodeplus)
              else decode_main chunks payload rest)
      main_round true = tt
      main_round false = decode_main-Keeps payload

Round-cases :
    (r : Round)
    → ((e : Option ReadError) × (r ≡ returned e))
      ⊎ ((chunks : RawChunkState) × (rest : Bytes) × (r ≡ again chunks rest))
      ⊎ ((packet : Packet) × (chunks : RawChunkState) × (rest : Bytes) × (r
            ≡ deliver packet chunks rest))
Round-cases (returned e) = inl (e, refl)
Round-cases (again chunks rest) = inr (inl (chunks, rest, refl))
Round-cases (deliver packet chunks rest) = inr (inr (packet, chunks, rest, refl))

with_packet-ne-none :
    (packet : Packet) (o : Option (List Packet × Option ReadError))
    → o ≢ none
    → with_packet packet o ≢ none
unfolding with_packet
with_packet-ne-none packet none h = h
with_packet-ne-none packet (some r) h = λ e. cc

Keeps-mono : (n m : ℕ) (r : Round) → n ≤ m → Keeps n r → Keeps m r
Keeps-mono n m (returned e) le k = tt
Keeps-mono n m (again chunks rest) le k = (k.0, omega (arith, k.1))
Keeps-mono n m (deliver packet chunks rest) le k = (k.0, omega (arith, k.1))

module _ (uncompress_block : Bytes → ℕ → Option Bytes) (eof : Bool) where
  read_payload-Keeps :
      (h : Header) (chunks : RawChunkState) (stream : Bytes)
      → IsAccepted h
      → IsValid chunks
      → Keeps (length stream) (read_payload uncompress_block eof h chunks stream)
  unfolding read_payload
  read_payload-Keeps h chunks stream a v = elim (Bool-cases (ltb (length stream) h.length)) [
    | inl cut ↦ rw cut tt
    | inr whole ↦
        let n = length stream in
        let rest = drop h.length stream in
        let short : length rest < n =
          omega (
            arith,
            length-drop h.length stream,
            a.nonempty,
            ltb→le (length stream) h.length whole,
          ) in
        rw whole (elim (Bool-cases (h.compression == 0)) [
          | inl plain ↦
              rw plain (handle_payload-Keeps chunks v n rest short h (take h.length stream) a)
          | inr packed ↦
              rw packed
                (elim (Result-cases
                  (decompress uncompress_block h.compression (take h.length stream))) [
                    | inl (e, q) ↦ rw (q, read_payload) tt
                    | inr (payload, q) ↦
                        rw (q, read_payload)
                          (handle_payload-Keeps chunks v n rest short h payload a)
                  ])
        ])
  ]

  -- Each round of the read loop keeps the pending chunks valid, leaves none behind a packet, and
  -- consumes part of the stream.
  pub read_round-Keeps :
      (chunks : RawChunkState) (stream : Bytes)
      → IsValid chunks
      → Keeps (length stream) (read_round uncompress_block eof chunks stream)
  unfolding read_round
  read_round-Keeps chunks [] v = at_end eof
    where
      at_end :
          (b : Bool)
          → Keeps 0 (
              if b
              then returned
                  (if length chunks.packets == 0 then none else some ReadError.pending_chunks)
              else returned (some ReadError.bad_stream))
      at_end true = tt
      at_end false = tt
  read_round-Keeps chunks (b ∷ bs) v = elim (Bool-cases (ltb (length (b ∷ bs)) header_size)) [
    | inl cut ↦ rw cut tt
    | inr whole ↦ rw whole (elim (Result-cases (parse_header (take header_size (b ∷ bs)))) [
      | inl (e, q) ↦ rw (q, read_round) tt
      | inr (h, q) ↦
          rw (q, read_round)
            (Keeps-mono (length (drop header_size (b ∷ bs))) (length (b ∷ bs)) _
              (omega (arith, length-drop header_size (b ∷ bs)))
              (read_payload-Keeps h chunks (drop header_size (b ∷ bs))
                (parse_header-IsAccepted _ h q) v))
    ])
  ]

  read_loop_total :
      (f : ℕ) (chunks : RawChunkState) (stream : Bytes)
      → IsValid chunks
      → length stream < f
      → read_loop uncompress_block eof f chunks stream ≢ none
  unfolding read_loop
  read_loop_total zero chunks stream v h = absurd (omega arith)
  read_loop_total (suc f) chunks stream v h =
      elim (Round-cases (read_round uncompress_block eof chunks stream)) [
        | inl (e, q) ↦ rw (q, read_loop) (λ p. cc)
        | inr (inl (chunks', rest, q)) ↦
            let k : Keeps (length stream) (again chunks' rest) =
              rw q at (read_round-Keeps chunks stream v) in
            rw (q, read_loop) (read_loop_total f chunks' rest k.0 (omega (arith, k.1)))
        | inr (inr (packet, chunks', rest, q)) ↦
            let k : Keeps (length stream) (deliver packet chunks' rest) =
              rw q at (read_round-Keeps chunks stream v) in
            rw (q, read_loop)
              (with_packet-ne-none packet _
                (read_loop_total f chunks' rest (rw (k.0) no_chunks-IsValid) (omega (arith, k.1))))
      ]

  -- On every stream the read loop ends: it delivers its packets and returns.
  pub read_all-ne-none : (stream : Bytes) → read_all uncompress_block eof stream ≢ none
  unfolding read_all
  read_all-ne-none stream =
      read_loop_total (length stream + 1) no_chunks stream no_chunks-IsValid (omega arith)
