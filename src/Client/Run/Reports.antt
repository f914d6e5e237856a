-- ===== src/Client/Run/Reports.antt =====
-- client/client.go, client/input.go: the reports that wait for a timer, and the steps that send them.
use go_xpra.Prelude.{
  ℕ, ◌-◌, ◌≡◌, ◌≢◌, ◌⊎◌, sym, ap, subst, ◌∙◌, inl, true, false, [], ◌∷◌, some, arith,
}
use go_xpra.Prelude.Int.{ℤ, pos, eqb_ℤ}
use go_xpra.Prelude.Table.{lookup, int_key}
use go_xpra.Client.State.{sent, Platform, Session}
use go_xpra.Client.Local.{
  resolve_in, resolve, set_iconified, is_iconified, report_minimized, minimized_known,
  handle_minimized, send_iconified, unmap_packet,
}
use go_xpra.Client.Local.Iconify.{
  minimized_unasked, minimized_asked, now_iconified, restored, unreported, not_asked, reported,
}
use go_xpra.Client.Focus.{
  focus_packet, with_focus, focus_on, handle_focus, start_focus_timer, lose_focus,
  handle_focus_lost, send_focus_lost,
}
use go_xpra.Client.Focus.Reports.{lost, send_focus_lost-handle_focus_lost}
use go_xpra.Client.Hello.{Host}
use go_xpra.Client.Run.{Step, focus_lost_due, iconify_due}

-- One report of a lost focus is on its way, or none.
abbrev pub IsTimed : Session → Type 0
IsTimed s =
    ((s.focus_losing ≡ true) × (s.focus_timers ≡ 1))
    ⊎ ((s.focus_losing ≡ false) × (s.focus_timers ≡ 0))

lost-timers :
    (id : ℕ) (wid : ℤ) (w : ℕ) (s : Session)
    → IsTimed s
    → resolve s id ≡ some (wid, w)
    → s.table.focused ≡ wid
    → (handle_focus_lost id s).focus_timers ≡ 1
unfolding handle_focus_lost lose_focus start_focus_timer with_focus
lost-timers id wid w s timed e f =
    let same : eqb_ℤ s.table.focused wid ≡ true = (int_key.same_iff s.table.focused wid).1 f in
    rw (e, same, handle_focus_lost) (ground arith)

handle_focus-timers : (id : ℕ) (s : Session) → (handle_focus id s).focus_timers ≡ s.focus_timers
unfolding handle_focus focus_on with_focus
handle_focus-timers id s = ground arith

send_focus_lost-timers : (s : Session) → (send_focus_lost s).focus_timers ≡ s.focus_timers - 1
unfolding send_focus_lost
send_focus_lost-timers s = ground arith

handle_minimized-timers :
    (p : Platform) (id : ℕ) (s : Session)
    → (handle_minimized p id false s).iconify_timers ≡ s.iconify_timers
unfolding handle_minimized minimized_known report_minimized set_iconified
handle_minimized-timers p id s = ground arith

-- The report on a window that is due first, when the others still wait.
abbrev pub iconify_reported : ℤ → Session → Session → Session
iconify_reported wid s t = send_iconified wid (record t { iconify_timers = s.iconify_timers })

module _ (p : Platform) (h : Host) where
  due :
      (s : Session)
      → s.focus_timers ≡ 1
      → Step p h s (send_focus_lost s) × ((send_focus_lost s).focus_timers ≡ 0)
  due s e = (focus_lost_due 0 e, send_focus_lost-timers s ∙ ap (λ n. n - 1) e)

  -- The focused window loses the focus, while at most one report of that kind is on its way: then one
  -- is. If another window of the client, with a number other than 0, takes the focus before it is
  -- due, the step that it causes adds nothing to the packet on that window; otherwise it tells the
  -- server that none has the focus. No report is on its way afterwards.
  pub handle_focus_lost-Step :
      (id other : ℕ) (wid to : ℤ) (w v : ℕ) (s : Session)
      → IsTimed s
      → resolve s id ≡ some (wid, w)
      → resolve s other ≡ some (to, v)
      → s.table.focused ≡ wid
      → to ≢ pos 0
      → ((handle_focus_lost id s).log ≡ s.log)
        × (Step p h (handle_focus_lost id s) (send_focus_lost (handle_focus_lost id s))
            × ((send_focus_lost (handle_focus_lost id s)).focus_timers ≡ 0))
        × ((send_focus_lost (handle_focus_lost id s)).log ≡ sent (focus_packet (pos 0)) ∷ s.log)
        × (Step p h
              (handle_focus other (handle_focus_lost id s))
              (send_focus_lost (handle_focus other (handle_focus_lost id s)))
            × ((send_focus_lost (handle_focus other (handle_focus_lost id s))).focus_timers ≡ 0))
        × ((send_focus_lost (handle_focus other (handle_focus_lost id s))).log
            ≡ sent (focus_packet to) ∷ s.log)
  handle_focus_lost-Step id other wid to w v s timed e e' f n =
      let m = handle_focus_lost id s in
      let waiting = lost-timers id wid w s timed e f in
      let (alone, taken) = send_focus_lost-handle_focus_lost id other wid to w v s e e' f n in
      (
        (lost id wid w s e f).1,
        due m waiting,
        alone,
        due (handle_focus other m) (handle_focus-timers other m ∙ waiting),
        taken,
      )

  -- A window of the client is minimized on the desktop. If the server had not asked for that, a report
  -- waits behind those that waited before, and the step that it causes tells the server, or sends
  -- nothing if the window was restored before. If the server had, nothing is sent and no report waits.
  pub handle_minimized-Step :
      (id : ℕ) (wid : ℤ) (w : ℕ) (s : Session)
      → resolve s id ≡ some (wid, w)
      → is_iconified wid s ≡ false
      → (lookup s.table.server_iconic wid ≢ some true
          → ((handle_minimized p id true s).log ≡ s.log)
            × Step p h
                (handle_minimized p id true s)
                (iconify_reported wid s (handle_minimized p id true s))
            × ((iconify_reported wid s (handle_minimized p id true s)).log
                ≡ sent (unmap_packet wid) ∷ s.log)
            × Step p h (handle_minimized p id false (handle_minimized p id true s)) (
                iconify_reported wid s (handle_minimized p id false (handle_minimized p id true s)))
            × ((iconify_reported wid s
                  (handle_minimized p id false (handle_minimized p id true s))).log
                ≡ (handle_minimized p id false (handle_minimized p id true s)).log))
        × (lookup s.table.server_iconic wid ≡ some true
            → ((handle_minimized p id true s).log ≡ s.log)
              × ((handle_minimized p id true s).iconify_timers ≡ s.iconify_timers))
  unfolding set_iconified is_iconified resolve resolve_in
  handle_minimized-Step id wid w s e f = (
    (λ n.
        let (g, off) = not_asked wid s n in
        let t : Session = record (set_iconified wid true s) {
          iconify_timers = wid ∷ s.iconify_timers;
        } in
        let made = minimized_unasked p id wid w s e f g in
        let back = handle_minimized p id false (handle_minimized p id true s) in
        let waiting : (handle_minimized p id true s).iconify_timers ≡ wid ∷ s.iconify_timers =
          ap (λ (x : Session). x.iconify_timers) made in
        let on : is_iconified wid t ≡ true = now_iconified wid true s in
        let gone : is_iconified wid back ≡ false =
          subst (λ x. is_iconified wid (handle_minimized p id false x) ≡ false) (sym made)
            (restored p id wid w t e on) in
        (
          ap (λ (x : Session). x.log) made,
          iconify_due [] s.iconify_timers wid waiting,
          ap (λ x. (iconify_reported wid s x).log) made
              ∙ ap (λ (x : Session). x.log)
                  (reported wid (record t { iconify_timers = s.iconify_timers }) on off),
          iconify_due [] s.iconify_timers wid
              (handle_minimized-timers p id (handle_minimized p id true s) ∙ waiting),
          ap (λ (x : Session). x.log)
              (unreported wid (record back { iconify_timers = s.iconify_timers }) (inl gone)),
        )),
    λ q.
        let made = minimized_asked p id wid w s e f q in
        (ap (λ (x : Session). x.log) made, ap (λ (x : Session). x.iconify_timers) made),
  )
