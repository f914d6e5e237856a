-- ===== src/Client/Focus/Reports.antt =====
-- client/input.go: what the server hears of the focus.
use go_xpra.Prelude.{ℕ, ◌≡◌, ◌≢◌, refl, sym, ap, ◌∙◌, true, ◌∷◌, some, arith}
use go_xpra.Prelude.Int.{ℤ, pos, eqb_ℤ}
use go_xpra.Prelude.Table.{int_key, same_ne}
use go_xpra.Client.State.{sent, Windows, Session, send}
use go_xpra.Client.Local.{resolve_in, resolve}
use go_xpra.Client.Focus.{
  focus_packet, with_focus, focus_on, handle_focus, start_focus_timer, lose_focus,
  handle_focus_lost, send_focus_lost,
}

-- The window that has the focus loses it: nothing is sent, and a report is on its way.
pub lost :
    (id : ℕ) (wid : ℤ) (w : ℕ) (s : Session)
    → resolve s id ≡ some (wid, w)
    → s.table.focused ≡ wid
    → ((handle_focus_lost id s).table ≡ (record s.table { focused = pos 0 }))
      × ((handle_focus_lost id s).log ≡ s.log)
unfolding handle_focus_lost lose_focus start_focus_timer with_focus
lost id wid w s e f =
    let same : eqb_ℤ s.table.focused wid ≡ true = (int_key.same_iff s.table.focused wid).1 f in
    rw (e, same, handle_focus_lost) (ground arith, ground arith)

gained :
    (id : ℕ) (wid : ℤ) (w : ℕ) (s : Session)
    → resolve_in s.table id ≡ some (wid, w)
    → s.table.focused ≢ wid
    → handle_focus id s ≡ send (focus_packet wid) (with_focus wid s)
unfolding handle_focus focus_on resolve
gained id wid w s e n = rw (e, same_ne s.table.focused wid n, handle_focus) refl

reported :
    (s : Session)
    → (s.table.focused ≢ pos 0 → (send_focus_lost s).log ≡ s.log)
      × (s.table.focused ≡ pos 0 → (send_focus_lost s).log ≡ sent (focus_packet (pos 0)) ∷ s.log)
unfolding send_focus_lost
reported s = (
  λ n. rw (same_ne s.table.focused (pos 0) n, send_focus_lost) refl,
  λ e. rw ((int_key.same_iff s.table.focused (pos 0)).1 e, send_focus_lost) refl,
)

-- What is sent when the focused window loses the focus, and another one takes it or does not.
pub send_focus_lost-handle_focus_lost :
    (id other : ℕ) (wid to : ℤ) (w v : ℕ) (s : Session)
    → resolve s id ≡ some (wid, w)
    → resolve s other ≡ some (to, v)
    → s.table.focused ≡ wid
    → to ≢ pos 0
    → ((send_focus_lost (handle_focus_lost id s)).log ≡ sent (focus_packet (pos 0)) ∷ s.log)
      × ((send_focus_lost (handle_focus other (handle_focus_lost id s))).log
          ≡ sent (focus_packet to) ∷ s.log)
unfolding resolve resolve_in with_focus
send_focus_lost-handle_focus_lost id other wid to w v s e e' f n =
    let t = handle_focus_lost id s in
    let (table, log) = lost id wid w s e f in
    let none_focused : t.table.focused ≡ pos 0 = ap (λ (x : Windows). x.focused) table in
    let found : resolve_in t.table other ≡ some (to, v) = ap (λ x. resolve_in x other) table ∙ e' in
    let away : t.table.focused ≢ to = λ q. n (sym q ∙ none_focused) in
    let moved = gained other to v t found away in
    (
      (reported t).1 none_focused ∙ ap (λ l. sent (focus_packet (pos 0)) ∷ l) log,
      ap (λ (x : Session). (send_focus_lost x).log) moved
          ∙ (reported (send (focus_packet to) (with_focus to t))).0 n
          ∙ ap (λ l. sent (focus_packet to) ∷ l) log,
    )
