-- ===== src/Client/Run/Control.antt =====
-- client/client.go: the handlers of a session's start, end and cursor, and the fields that the window
-- tables and the clipboard have.
use go_xpra.Prelude.{
  ℕ, ◌≡◌, refl, ap, ◌∙◌, ◌⊎◌, Bool, List, [], ◌∷◌, ◌++◌, arith, true, inl, inr, Bool-cases,
}
use go_xpra.Prelude.Int.{ℤ, pos}
use go_xpra.Prelude.Bytes.{Bytes, codes}
use go_xpra.Prelude.Result.{Result, ok, err, Result-cases}
use go_xpra.Protocol.Packet.{Packet, dict_dict, dict_str}
use go_xpra.Client.Mmap.Session.{negotiate_mmap}
use go_xpra.Client.State.{Action, released, SessionError, Platform, Session}
use go_xpra.Client.Windows.{metadata_at}
use go_xpra.Client.Windows.Linked.{live}
use go_xpra.Client.Clipboard.Kept.{Kept}
use go_xpra.Client.Clipboard.Switches.{configure_clipboard-Kept}
use go_xpra.Client.Hello.{Host}
use go_xpra.Client.Hello.Display.{send_hello, greeted}
use go_xpra.Client.Control.{
  configure_pings, connected, handle_hello, reply_hello, answer_challenge, handle_challenge,
  handle_ping, handle_cursor_default, apply_cursor_png, apply_cursor_bytes, handle_cursor_data,
  handle_cursor,
}
use go_xpra.Client.Draw.{handle_draw, draw_of, Draw}
use go_xpra.Client.Draw.Answers.{Verdict, handle_draw-IsAnswered}
use go_xpra.Client.Run.Quiet.{Quiet, configure_clipboard-Quiet}

pub handle_hello-Quiet :
    (p : Platform) (packet : Packet) (s : Session) → Quiet s (handle_hello p packet s)
unfolding handle_hello connected configure_pings
handle_hello-Quiet p packet s =
    elim (Result-cases (negotiate_mmap s.mmap (metadata_at packet (pos 1)))) [
      | inl (e, q) ↦ rw (q, handle_hello) (refl, λ u. refl)
      | inr (area, q) ↦
          rw (q, handle_hello)
            (configure_clipboard-Quiet p
              (dict_dict (metadata_at packet (pos 1)) (codes "clipboard"))
              (record s {
                mmap = area;
                server_version = dict_str (metadata_at packet (pos 1)) (codes "version");
              }))
    ]

pub handle_hello-Kept :
    (p : Platform) (packet : Packet) (s : Session) → Kept s → Kept (handle_hello p packet s)
unfolding handle_hello connected configure_pings Kept
handle_hello-Kept p packet s k =
    elim (Result-cases (negotiate_mmap s.mmap (metadata_at packet (pos 1)))) [
      | inl (e, q) ↦ rw (q, handle_hello) k
      | inr (area, q) ↦
          rw (q, handle_hello)
            (configure_clipboard-Kept p (dict_dict (metadata_at packet (pos 1)) (codes "clipboard"))
              (record s {
                mmap = area;
                server_version = dict_str (metadata_at packet (pos 1)) (codes "version");
              })
              k)
    ]

answer_challenge-Quiet :
    (p : Platform) (h : Host) (r : Result SessionError (Bytes × Bytes)) (s : Session)
    → Quiet s (answer_challenge p h r s) × ((answer_challenge p h r s).clip ≡ s.clip)
unfolding answer_challenge reply_hello send_hello greeted live
answer_challenge-Quiet p h (err e) s = ((refl, λ u. refl), refl)
answer_challenge-Quiet p h (ok (response, salt)) s =
    ((ground arith, λ u. ground arith), ground arith)

pub handle_challenge-Quiet :
    (p : Platform) (h : Host) (packet : Packet) (s : Session)
    → Quiet s (handle_challenge p h packet s) × ((handle_challenge p h packet s).clip ≡ s.clip)
unfolding handle_challenge
handle_challenge-Quiet p h packet s = elim (Bool-cases s.challenge_seen) [
  | inl e ↦ rw (e, handle_challenge) ((refl, λ u. refl), refl)
  | inr e ↦
      rw (e, handle_challenge) (answer_challenge-Quiet p h _ (record s { challenge_seen = true }))
]

pub handle_ping-Quiet :
    (compatible : Bool) (packet : Packet) (s : Session)
    → Quiet s (handle_ping compatible packet s) × ((handle_ping compatible packet s).clip ≡ s.clip)
unfolding handle_ping live
handle_ping-Quiet compatible packet s = ((refl, λ u. refl), refl)

pub handle_cursor-Quiet :
    (p : Platform) (packet : Packet) (s : Session)
    → Quiet s (handle_cursor p packet s) × ((handle_cursor p packet s).clip ≡ s.clip)
unfolding handle_cursor handle_cursor_default apply_cursor_bytes apply_cursor_png live
handle_cursor-Quiet p packet s = ((ground arith, λ u. ground arith), ground arith)

pub handle_cursor_data-Quiet :
    (p : Platform) (packet : Packet) (s : Session)
    → Quiet s (handle_cursor_data p packet s) × ((handle_cursor_data p packet s).clip ≡ s.clip)
unfolding handle_cursor_data apply_cursor_bytes apply_cursor_png live
handle_cursor_data-Quiet p packet s = ((ground arith, λ u. ground arith), ground arith)

-- Neither a paint nor a release creates or destroys a window.
live-calls :
    (p : Platform) (d : Draw) (s : Session) (code : ℤ) (calls log : List Action) (u : ℕ)
    → Verdict p d s code calls
    → live (calls ++ log) u ≡ live log u
unfolding live
live-calls p d s code calls log u (inl (_, _, none_made)) = ap (λ l. live (l ++ log) u) none_made
live-calls p d s code calls log u (inr (inl (_, inl none_made))) =
    ap (λ l. live (l ++ log) u) none_made
live-calls p d s code calls log u (inr (inl (_, inr (_, _, (_, _, _, one_paint, _))))) =
    ap (λ l. live (l ++ log) u) one_paint
live-calls p d s code calls log u (inr (inr (_, (_, _, (_, _, _, one_paint, _))))) =
    ap (λ l. live (l ++ log) u) one_paint

live-releases :
    (releases log : List Action) (u : ℕ)
    → ((n : ℕ) × (releases ≡ released n ∷ [])) ⊎ (releases ≡ [])
    → live (releases ++ log) u ≡ live log u
unfolding live
live-releases releases log u (inl (n, e)) = ap (λ l. live (l ++ log) u) e
live-releases releases log u (inr e) = ap (λ l. live (l ++ log) u) e

pub handle_draw-Quiet :
    (p : Platform) (packet : Packet) (s : Session) → Quiet s (handle_draw p packet s)
unfolding live
handle_draw-Quiet p packet s =
    let a = handle_draw-IsAnswered p packet s in
    (
      a.table_is,
      λ u.
          ap (λ l. live l u) a.log_is
          ∙ live-releases a.releases (a.calls ++ s.log) u
              (elim a.releases_is [ inl (_, r) ↦ inl r | inr (r, _) ↦ inr r ])
          ∙ live-calls p (draw_of packet) s a.code a.calls s.log u a.verdict,
    )
