-- ===== src/Protocol/Conn/Queue.antt =====
-- protocol/conn.go: the write queue under `Send`, `Flush`, `Close`, `fail` and the write loop.
use go_xpra.Prelude.{
  ℕ, zero, suc, ◌≤◌, ◌<◌, ◌≡◌, refl, sym, ap, ◌∙◌, true, false, List, [], ◌∷◌, ◌++◌, append_assoc,
  append-nil, Option, none, some, length, length-append, arith,
}
use go_xpra.Prelude.Bytes.{Bytes}
use go_xpra.Prelude.Result.{Result, ok, err}
use go_xpra.Rencode.Value.{Values}
use go_xpra.Rencode.Encode.{EncodeError}
use go_xpra.Protocol.Conn.Writer.{
  Outbound, data_frame, marker, Conn, SendResult, sent, queue_full, not_encoded, write_queue, frame,
  enqueue, send, flush, close, fail, take_item, write_with, write_round, write_stop,
}

-- The bytes and the markers that wait in a queue.
abbrev pub pending : List Outbound → Bytes
pending [] = []
pending (data_frame f ∷ q) = f ++ pending q
pending (marker n ∷ q) = pending q

abbrev pub markers : List Outbound → List ℕ
markers [] = []
markers (data_frame f ∷ q) = markers q
markers (marker n ∷ q) = n ∷ markers q

pending-append : (p q : List Outbound) → pending (p ++ q) ≡ pending p ++ pending q
pending-append [] q = refl
pending-append (data_frame f ∷ p) q = rw (pending-append p q) (rw append_assoc)
pending-append (marker n ∷ p) q = pending-append p q

module _ {E : Type 0} where
  -- What has been written and what waits to be.
  abbrev pub stream_of : Conn E → Bytes
  stream_of c = c.wire ++ pending c.writes

  -- The connection after `k` rounds of the write loop on a socket that takes every frame.
  unfoldable pub drain : ℕ → Conn E → Conn E
  drain zero c = c
  drain (suc k) c = drain k (write_round c none)

  enqueue_stream :
      (c : Conn E) (f : Bytes)
      → c.closed ≡ false
      → length c.writes < write_queue
      → stream_of (enqueue c f).0 ≡ stream_of c ++ f
  unfolding enqueue
  enqueue_stream c f open_ room = ground (
    arith,
    pending-append c.writes (data_frame f ∷ []),
    append-nil f,
    append_assoc c.wire (pending c.writes) f,
  )

  -- `Send` of a packet that can be encoded: on an open connection with room in its queue it puts
  -- exactly the packet's frame behind all that was sent before; on a closed one, and with a full
  -- queue, it changes nothing, and reports the full queue only.
  pub send_lem :
      (c : Conn E) (packet : Values) (f : Bytes)
      → frame packet ≡ ok f
      → (c.closed ≡ true → send c packet ≡ (c, sent))
        × (c.closed ≡ false → write_queue ≤ length c.writes → send c packet ≡ (c, queue_full))
        × (c.closed ≡ false
            → length c.writes < write_queue
            → ((send c packet).1 ≡ sent) × (stream_of (send c packet).0 ≡ stream_of c ++ f))
  unfolding send
  send_lem c packet f e = (
    λ h. rw (e, send) (unfold enqueue in ground arith),
    λ h full. rw (e, send) (unfold enqueue in ground arith),
    λ h room. rw (e, send) (unfold enqueue in ground arith, enqueue_stream c f h room),
  )

  enqueue-bounded :
      (c : Conn E) (f : Bytes)
      → length c.writes ≤ write_queue
      → length (enqueue c f).0.writes ≤ write_queue
  unfolding enqueue
  enqueue-bounded c f h = ground (arith, length-append c.writes (data_frame f ∷ []))

  send-bounded :
      (c : Conn E) (packet : Values)
      → length c.writes ≤ write_queue
      → length (send c packet).0.writes ≤ write_queue
  unfolding send
  send-bounded c packet h = by_frame (frame packet)
    where
      by_frame :
          (r : Result EncodeError Bytes)
          → length (
              let p : Conn E × SendResult = elim r [
                | err e ↦ (c, not_encoded e)
                | ok f ↦ enqueue c f
              ] in
              p.0.writes)
            ≤ write_queue
      by_frame (ok f) = enqueue-bounded c f h
      by_frame (err e) = h

  flush-bounded :
      (c : Conn E) (n : ℕ) → length c.writes ≤ write_queue → length (flush c n).writes ≤ write_queue
  unfolding flush
  flush-bounded c n h = ground (arith, length-append c.writes (marker n ∷ []))

  fail_writes : (c : Conn E) (e : E) → (fail c e).writes ≡ c.writes
  unfolding fail close
  fail_writes c e = ground arith

  take_item_writes :
      (c : Conn E) (refusal : Option E) (item : Outbound) (rest : List Outbound)
      → (take_item c refusal item rest).writes ≡ rest
  unfolding take_item
  take_item_writes c refusal (marker n) rest = refl
  take_item_writes c none (data_frame f) rest = refl
  take_item_writes c (some e) (data_frame f) rest =
      fail_writes (record c { writes = rest; writing = false }) e

  write_with-bounded :
      (c : Conn E) (refusal : Option E) (q : List Outbound)
      → c.writes ≡ q
      → length (write_with c refusal q).writes ≤ length c.writes
  unfolding write_with
  write_with-bounded c refusal [] e = omega arith
  write_with-bounded c refusal (item ∷ rest) e =
      rw (take_item_writes c refusal item rest) (omega (arith, ap length e))

  write_round-bounded :
      (c : Conn E) (refusal : Option E) → length (write_round c refusal).writes ≤ length c.writes
  unfolding write_round
  write_round-bounded c refusal = ground (arith, write_with-bounded c refusal c.writes)

  -- The queue never holds more than its channel does, whatever is called.
  pub write_queue_bounded :
      (c : Conn E) (packet : Values) (n : ℕ) (e : E) (refusal : Option E)
      → length c.writes ≤ write_queue
      → (length (send c packet).0.writes ≤ write_queue)
        × (length (flush c n).writes ≤ write_queue)
        × (length (close c).writes ≤ write_queue)
        × (length (fail c e).writes ≤ write_queue)
        × (length (write_round c refusal).writes ≤ write_queue)
        × (length (write_stop c).writes ≤ write_queue)
  unfolding close write_stop
  write_queue_bounded c packet n e refusal h = (
    send-bounded c packet h,
    flush-bounded c n h,
    h,
    rw fail_writes h,
    omega (arith, write_round-bounded c refusal),
    ground arith,
  )

  drain-suc : (k : ℕ) (c : Conn E) → drain (suc k) c ≡ drain k (write_round c none)
  unfolding drain
  drain-suc k c = refl

  drain_one : (c : Conn E) → drain 1 c ≡ write_round c none
  unfolding drain
  drain_one c = refl

  round_frame :
      (f : Bytes) (q : List Outbound) (c : Conn E)
      → c.writing ≡ true
      → c.writes ≡ data_frame f ∷ q
      → write_round c none ≡ record c { writes = q; wire = c.wire ++ f }
  unfolding write_round write_with take_item
  round_frame f q c w e = ground arith

  round_marker :
      (n : ℕ) (q : List Outbound) (c : Conn E)
      → c.writing ≡ true
      → c.writes ≡ marker n ∷ q
      → write_round c none ≡ record c { writes = q; flushed = c.flushed ++ (n ∷ []) }
  unfolding write_round write_with take_item
  round_marker n q c w e = ground arith

  -- A flush is answered only when every frame that was queued ahead of its marker is on the wire, and
  -- as soon as these are: the rounds that empty the queue up to the marker write the frames before
  -- it in order, answer the markers before it and then this one, and leave what is behind it.
  pub drain_lem :
      (front back : List Outbound) (n : ℕ) (c : Conn E)
      → c.writing ≡ true
      → c.writes ≡ front ++ (marker n ∷ back)
      → ((drain (suc (length front)) c).wire ≡ c.wire ++ pending front)
        × ((drain (suc (length front)) c).flushed ≡ c.flushed ++ (markers front ++ (n ∷ [])))
        × ((drain (suc (length front)) c).writes ≡ back)
  drain_lem [] back n c w e =
      let step = round_marker n back c w e in
      rw (drain_one c, step) (sym (append-nil c.wire), refl, refl)
  drain_lem (data_frame f ∷ front) back n c w e =
      let q = front ++ (marker n ∷ back) in
      let c' : Conn E = record c { writes = q; wire = c.wire ++ f } in
      let (a, b, d) = drain_lem front back n c' w refl in
      rw (drain-suc (suc (length front)) c, round_frame f q c w e)
        (a ∙ append_assoc c.wire f (pending front), b, d)
  drain_lem (marker m ∷ front) back n c w e =
      let q = front ++ (marker n ∷ back) in
      let c' : Conn E = record c { writes = q; flushed = c.flushed ++ (m ∷ []) } in
      let (a, b, d) = drain_lem front back n c' w refl in
      rw (drain-suc (suc (length front)) c, round_marker m q c w e)
        (a, b ∙ append_assoc c.flushed (m ∷ []) _, d)
