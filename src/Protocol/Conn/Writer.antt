-- ===== src/Protocol/Conn/Writer.antt =====
-- protocol/conn.go: `Send`, `Flush`, `Close`, `fail` and `writeLoop`. The write queue's channel is
-- a list, its oldest item first.
use go_xpra.Prelude.{
  ℕ, ◌+◌, Bool, true, false, not, ◌&&◌, List, [], ◌∷◌, ◌++◌, Option, none, some, length, ltb,
  if◌then◌else◌,
}
use go_xpra.Prelude.Bytes.{Bytes}
use go_xpra.Prelude.Result.{Result, ok, err, ◌>>=◌}
use go_xpra.Rencode.Value.{Value, Values}
use go_xpra.Rencode.Encode.{EncodeError, encode_value}
use go_xpra.Protocol.Header.{encode_header, flag_rencodeplus, flag_flush}

abbrev pub write_queue : ℕ
write_queue = 256

-- `Send`'s frame: header and payload in one buffer.
unfoldable pub frame : Values → Result EncodeError Bytes
frame packet = encode_value (Value.list packet) >>= λ payload.
    ok (encode_header (flag_rencodeplus + flag_flush) (length payload) ++ payload)

-- A frame to write, or a flush marker with the number of the `Flush` that waits on it.
pub data Outbound : Type 0 where
  data_frame : Bytes → Outbound
  marker : ℕ → Outbound

-- The connection as its writers see it: `wire` is what reached the socket, `flushed` the markers
-- whose channel was closed.
pub record Conn (E : Type 0) : Type 0 where
  pub writes : List Outbound
  pub closed : Bool
  pub err : Option E
  pub wire : Bytes
  pub flushed : List ℕ
  -- whether `writeLoop` still runs
  pub writing : Bool

pub data SendResult : Type 0 where
  sent : SendResult
  not_encoded : EncodeError → SendResult
  queue_full : SendResult

module _ {E : Type 0} where
  unfoldable pub enqueue : Conn E → Bytes → Conn E × SendResult
  enqueue c f =
      if c.closed
      then (c, sent)
      else if ltb (length c.writes) write_queue
      then (record c { writes = c.writes ++ (data_frame f ∷ []) }, sent)
      else (c, queue_full)

  unfoldable pub send : Conn E → Values → Conn E × SendResult
  send c packet = elim (frame packet) [ err e ↦ (c, not_encoded e) | ok f ↦ enqueue c f ]

  -- `Flush` number `n` queues its marker, if there is room before its timeout.
  unfoldable pub flush : Conn E → ℕ → Conn E
  flush c n =
      if not c.closed && ltb (length c.writes) write_queue
      then record c { writes = c.writes ++ (marker n ∷ []) }
      else c

  unfoldable pub close : Conn E → Conn E
  close c = record c { closed = true }

  -- The first error is recorded, unless the connection was closed before.
  unfoldable pub fail : Conn E → E → Conn E
  fail c e = elim c.err [
    | none ↦ close (if c.closed then c else record c { err = some e })
    | some _ ↦ close c
  ]

  -- One round of `writeLoop` that takes an item: a marker is answered, a frame is written, or the
  -- socket refuses it.
  unfoldable pub take_item : Conn E → Option E → Outbound → List Outbound → Conn E
  take_item c refusal (marker n) rest = record c { writes = rest; flushed = c.flushed ++ (n ∷ []) }
  take_item c none (data_frame f) rest = record c { writes = rest; wire = c.wire ++ f }
  take_item c (some e) (data_frame f) rest = fail (record c { writes = rest; writing = false }) e

  unfoldable pub write_with : Conn E → Option E → List Outbound → Conn E
  write_with c refusal [] = c
  write_with c refusal (item ∷ rest) = take_item c refusal item rest

  unfoldable pub write_round : Conn E → Option E → Conn E
  write_round c refusal = if c.writing then write_with c refusal c.writes else c

  -- The round that sees `closing` instead.
  unfoldable pub write_stop : Conn E → Conn E
  write_stop c = if c.closed then record c { writing = false } else c
