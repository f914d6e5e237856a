-- ===== src/Client/Run/Seen/Start.antt =====
-- client/client.go: the handlers of a session's start, end and cursor, and whether the server has
-- challenged the client.
use go_xpra.Prelude.{◌≡◌, refl, Bool, true, arith, Bool-cases, inl, inr}
use go_xpra.Prelude.Int.{pos}
use go_xpra.Prelude.Bytes.{Bytes, codes}
use go_xpra.Prelude.Result.{Result, ok, err, Result-cases}
use go_xpra.Protocol.Packet.{Packet, dict_dict, dict_str}
use go_xpra.Client.Mmap.Session.{negotiate_mmap}
use go_xpra.Client.State.{Platform, Session, SessionError}
use go_xpra.Client.Windows.{metadata_at}
use go_xpra.Client.Hello.{Host}
use go_xpra.Client.Hello.Display.{send_hello, greeted}
use go_xpra.Client.Control.{
  configure_pings, connected, handle_hello, reply_hello, answer_challenge, handle_challenge,
  handle_ping, handle_cursor_default, apply_cursor_png, apply_cursor_bytes, handle_cursor_data,
  handle_cursor, disconnect,
}
use go_xpra.Client.Run.Seen.Clipboard.{configure_clipboard-seen}

pub handle_hello-seen :
    (p : Platform) (packet : Packet) (s : Session)
    → (handle_hello p packet s).challenge_seen ≡ s.challenge_seen
unfolding handle_hello connected configure_pings
handle_hello-seen p packet s =
    elim (Result-cases (negotiate_mmap s.mmap (metadata_at packet (pos 1)))) [
      | inl (e, q) ↦ rw (q, handle_hello) refl
      | inr (area, q) ↦
          rw (q, handle_hello)
            (configure_clipboard-seen p (dict_dict (metadata_at packet (pos 1)) (codes "clipboard"))
              (record s {
                mmap = area;
                server_version = dict_str (metadata_at packet (pos 1)) (codes "version");
              }))
    ]

answer_challenge-seen :
    (p : Platform) (h : Host) (r : Result SessionError (Bytes × Bytes)) (s : Session)
    → (answer_challenge p h r s).challenge_seen ≡ s.challenge_seen
unfolding answer_challenge reply_hello send_hello greeted
answer_challenge-seen p h (err e) s = refl
answer_challenge-seen p h (ok (response, salt)) s = ground arith

-- A challenge leaves its mark, whatever comes of it.
pub handle_challenge-seen :
    (p : Platform) (h : Host) (packet : Packet) (s : Session)
    → (handle_challenge p h packet s).challenge_seen ≡ true
unfolding handle_challenge
handle_challenge-seen p h packet s = elim (Bool-cases s.challenge_seen) [
  | inl e ↦ rw (e, handle_challenge) refl
  | inr e ↦
      rw (e, handle_challenge) (answer_challenge-seen p h _ (record s { challenge_seen = true }))
]

pub handle_ping-seen :
    (compatible : Bool) (packet : Packet) (s : Session)
    → (handle_ping compatible packet s).challenge_seen ≡ s.challenge_seen
unfolding handle_ping
handle_ping-seen compatible packet s = refl

pub handle_cursor-seen :
    (p : Platform) (packet : Packet) (s : Session)
    → (handle_cursor p packet s).challenge_seen ≡ s.challenge_seen
unfolding handle_cursor handle_cursor_default apply_cursor_bytes apply_cursor_png
handle_cursor-seen p packet s = ground arith

pub handle_cursor_data-seen :
    (p : Platform) (packet : Packet) (s : Session)
    → (handle_cursor_data p packet s).challenge_seen ≡ s.challenge_seen
unfolding handle_cursor_data apply_cursor_bytes apply_cursor_png
handle_cursor_data-seen p packet s = ground arith

pub disconnect-seen :
    (reason : Bytes) (s : Session) → (disconnect reason s).challenge_seen ≡ s.challenge_seen
unfolding disconnect
disconnect-seen reason s = ground arith
