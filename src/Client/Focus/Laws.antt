-- ===== src/Client/Focus/Laws.antt =====
-- client/input.go: the focus, and the tables of the session.
use go_xpra.Prelude.{ℕ, ◌≡◌, refl, ◌⊎◌, inl, inr, not, some, Bool-cases, Option-cases}
use go_xpra.Prelude.Int.{ℤ, pos, eqb_ℤ}
use go_xpra.Prelude.Table.{lookup, int_key}
use go_xpra.Client.State.{Session}
use go_xpra.Client.Windows.Linked.{live, same_windows}
use go_xpra.Client.Windows.Keeps.{Linked}
use go_xpra.Client.Local.{resolve}
use go_xpra.Client.Local.Keeps.{resolve-known, send-Linked}
use go_xpra.Client.Focus.{
  focus_packet, with_focus, focus_on, handle_focus, start_focus_timer, lose_focus,
  handle_focus_lost, send_focus_lost,
}

with_focus-Linked :
    (wid : ℤ) (s : Session)
    → (wid ≡ pos 0) ⊎ ((w : ℕ) × (lookup s.table.windows wid ≡ some w))
    → Linked s
    → Linked (with_focus wid s)
unfolding Linked with_focus
with_focus-Linked wid s known k = record {
  to_local = k.to_local;
  to_wid = k.to_wid;
  iconified_known = k.iconified_known;
  server_iconic_known = k.server_iconic_known;
  focused_known = known;
  alive = k.alive;
  no_leak = k.no_leak;
}

pub handle_focus-Linked : (id : ℕ) (s : Session) → Linked s → Linked (handle_focus id s)
unfolding handle_focus focus_on
handle_focus-Linked id s k = elim (Option-cases (resolve s id)) [
  | inl e ↦ rw (e, handle_focus) k
  | inr ((wid, w), e) ↦ elim (Bool-cases (eqb_ℤ s.table.focused wid)) [
    | inl f ↦ rw (e, f, handle_focus) k
    | inr f ↦
        rw (e, f, handle_focus)
          (send-Linked (focus_packet wid) (with_focus wid s)
            (with_focus-Linked wid s (inr (w, (resolve-known s id wid w e).1)) k))
  ]
]

start_focus_timer-Linked : (s : Session) → Linked s → Linked (start_focus_timer s)
unfolding Linked start_focus_timer
start_focus_timer-Linked s k = elim (Bool-cases s.focus_losing) [
  | inl e ↦ rw (e, start_focus_timer) k
  | inr e ↦ rw (e, start_focus_timer) k
]

pub handle_focus_lost-Linked : (id : ℕ) (s : Session) → Linked s → Linked (handle_focus_lost id s)
unfolding handle_focus_lost lose_focus
handle_focus_lost-Linked id s k = elim (Option-cases (resolve s id)) [
  | inl e ↦ rw (e, handle_focus_lost) k
  | inr ((wid, w), e) ↦ elim (Bool-cases (not (eqb_ℤ s.table.focused wid))) [
    | inl f ↦ rw (e, f, handle_focus_lost) k
    | inr f ↦
        rw (e, f, handle_focus_lost)
          (start_focus_timer-Linked (with_focus (pos 0) s)
            (with_focus-Linked (pos 0) s (inl refl) k))
  ]
]

pub send_focus_lost-Linked : (s : Session) → Linked s → Linked (send_focus_lost s)
unfolding send_focus_lost Linked live
send_focus_lost-Linked s k = elim (Bool-cases (not (eqb_ℤ s.table.focused (pos 0)))) [
  | inl e ↦ rw (e, send_focus_lost) k
  | inr e ↦ rw (e, send_focus_lost) (same_windows s.table s.log _ (λ u. refl) k)
]
