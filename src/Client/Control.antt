-- ===== src/Client/Control.antt =====
-- client/client.go: the start and the end of a session, authentication, pings, and the cursor.
pub mod Authentication
use go_xpra.Prelude.{
  ℕ, Bool, true, false, not, List, [], ◌∷◌, Option, none, some, length, leb, ltb, ◌==◌,
  if◌then◌else◌,
}
use go_xpra.Prelude.Int.{ℤ, pos, negsuc}
use go_xpra.Prelude.Bytes.{Bytes, codes, bytes_eq}
use go_xpra.Prelude.Result.{Result, ok, err, ◌>>=◌}
use go_xpra.Rencode.Value.{Value, Entries, no_entries}
use go_xpra.Protocol.Packet.{Packet, int, str, bytes, dict_str, dict_bool, dict_dict}
use go_xpra.Client.Mmap.Area.{MmapArea, AreaError}
use go_xpra.Client.Mmap.Session.{negotiate_mmap}
use go_xpra.Client.Image.{decode_cursor_png, with_hotspot}
use go_xpra.Client.State.{
  Action, cursor_set, SessionError, mmap_negotiation, password_rejected, no_password,
  no_prompt_password, prompt_failed, hello_failed, Platform, Session, act, send, stop,
}
use go_xpra.Client.Windows.{metadata_at}
use go_xpra.Client.Clipboard.{configure_clipboard}
use go_xpra.Client.Hello.{Host, challenge_reply}
use go_xpra.Client.Hello.Display.{send_hello}

-- `Disconnect` leaves a reason, unless one waits.
unfoldable pub disconnect : Bytes → Session → Session
disconnect reason s = elim s.disconnect [
  | some first ↦ s
  | none ↦ record s { disconnect = some reason }
]

unfoldable pub disconnect_packet : Bool → Bytes → List Value
disconnect_packet compatible reason =
    Value.text (if compatible then codes "disconnect" else codes "connection-close")
    ∷ Value.text reason
    ∷ []

unfoldable pub configure_pings : Entries → Session → Session
configure_pings caps s = record s { pinging = dict_bool caps (codes "ping") }

module _ (p : Platform) where
  unfoldable pub connected : Entries → Session → Session
  connected caps s = configure_pings caps (
      configure_clipboard p (dict_dict caps (codes "clipboard"))
        (record s { server_version = dict_str caps (codes "version") }))

  unfoldable pub handle_hello : Packet → Session → Session
  handle_hello packet s =
      let caps = metadata_at packet (pos 1) in
      elim (negotiate_mmap s.mmap caps) [
        | err e ↦ stop (some (mmap_negotiation e)) s
        | ok area ↦ connected caps (record s { mmap = area })
      ]

module _ (h : Host) where
  unfoldable pub prompted : Option (Bytes → Option Bytes) → Bytes → Result SessionError Bytes
  prompted none description = err no_password
  prompted (some prompt) description = elim (prompt description) [
    | none ↦ err prompt_failed
    | some [] ↦ err no_prompt_password
    | some (c ∷ password) ↦ ok (c ∷ password)
  ]

  unfoldable pub or_prompt : Bytes → Bytes → Result SessionError Bytes
  or_prompt [] description = prompted h.prompt description
  or_prompt (c ∷ password) description = ok (c ∷ password)

  unfoldable pub challenge_password : Bytes → Bytes → Result SessionError Bytes
  challenge_password [] description = or_prompt (h.getenv (codes "XPRA_PASSWORD")) description
  challenge_password (c ∷ password) description = ok (c ∷ password)

  unfoldable pub challenge_answer : Packet → Session → Result SessionError (Bytes × Bytes)
  challenge_answer packet s = challenge_password s.password (str packet (pos 5)) >>= λ password.
      challenge_reply h packet s.log password

module _ (p : Platform) (h : Host) where
  -- The hello with the answer; the session ends if it is not taken.
  unfoldable pub reply_hello : Bytes × Bytes → Session → Session
  reply_hello (response, salt) s =
      let t = send_hello p h response salt s in
      if p.fails t.log then stop (some hello_failed) t else t

  unfoldable pub answer_challenge : Result SessionError (Bytes × Bytes) → Session → Session
  answer_challenge (err e) s = stop (some e) s
  answer_challenge (ok reply) s = reply_hello reply s

  unfoldable pub handle_challenge : Packet → Session → Session
  handle_challenge packet s =
      let t = record s { challenge_seen = true } in
      if s.challenge_seen
      then stop (some password_rejected) s
      else answer_challenge (challenge_answer h packet t) t

unfoldable pub echo_packet : Bool → Packet → List Value
echo_packet compatible packet =
    Value.text (if compatible then codes "ping_echo" else codes "ping-echo")
    ∷ Value.int (int packet (pos 1))
    ∷ Value.int (pos 0)
    ∷ Value.int (pos 0)
    ∷ Value.int (pos 0)
    ∷ Value.int (negsuc 0)
    ∷ Value.text (if leb 4 (length packet) then str packet (pos 3) else [])
    ∷ []

unfoldable pub handle_ping : Bool → Packet → Session → Session
handle_ping compatible packet s = send (echo_packet compatible packet) s

-- The errors of SetCursor are only reported.
unfoldable pub handle_cursor_default : Session → Session
handle_cursor_default s = act (cursor_set none) s

module _ (p : Platform) where
  unfoldable pub apply_cursor_png : Bytes → Bytes → ℤ → ℤ → Session → Session
  apply_cursor_png encoding area x y s =
      if not (bytes_eq encoding (codes "png"))
      then s
      else elim (decode_cursor_png p.decode_config p.decode area) [
        | err e ↦ s
        | ok cursor ↦ act (cursor_set (some (with_hotspot x y cursor))) s
      ]

  unfoldable pub apply_cursor_bytes : Bytes → Option Bytes → ℤ → ℤ → Session → Session
  apply_cursor_bytes encoding none x y s = s
  apply_cursor_bytes encoding (some area) x y s = apply_cursor_png encoding area x y s

  unfoldable pub handle_cursor_data : Packet → Session → Session
  handle_cursor_data packet s =
      if ltb (length packet) 9
      then s
      else apply_cursor_bytes (str packet (pos 1)) (bytes packet (pos 7)) (int packet (pos 4))
          (int packet (pos 5)) s

-- What stands behind the last `:`, or all of it.
unfoldable pub after_colon : Bytes → Bytes → Bytes
after_colon last [] = last
after_colon last (c ∷ cs) = after_colon (if c == 58 then cs else last) cs

module _ (p : Platform) where
  unfoldable pub handle_cursor : Packet → Session → Session
  handle_cursor packet s =
      let encoding = str packet (pos 1) in
      if leb (length packet) 2
      then handle_cursor_default s
      else if ltb (length packet) 10
      then s
      else apply_cursor_bytes p (after_colon encoding encoding) (bytes packet (pos 9))
          (int packet (pos 6)) (int packet (pos 7)) s
