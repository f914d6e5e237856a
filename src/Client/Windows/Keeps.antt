-- ===== src/Client/Windows/Keeps.antt =====
-- client/client.go: the packets on windows, and the tables of the session.
use go_xpra.Prelude.{
  ℕ, ◌≡◌, refl, sym, subst, ◌∙◌, ◌⊎◌, inl, inr, Bool, true, false, ◌||◌, List, ◌∷◌, none, some,
  Bool-cases, Option-cases,
}
use go_xpra.Prelude.Int.{ℤ, pos}
use go_xpra.Prelude.Bytes.{codes}
use go_xpra.Prelude.Table.{lookup, lookup-delete_self, lookup-insert_inv, int_key}
use go_xpra.Rencode.Value.{Entries}
use go_xpra.Protocol.Packet.{Packet, int, dict_has, dict_bool, dict_str}
use go_xpra.Ui.Monitor.{Rectangle}
use go_xpra.Client.State.{
  Action, created, mapped, titled, Platform, Windows, Session, act, with_table,
}
use go_xpra.Client.Windows.{
  forget, forget_window, apply_iconic, apply_states, known_window, forget_stale, show_window,
  new_window, handle_new_window, metadata_at, packet_area, report_shown,
}
use go_xpra.Client.Windows.Linked.{
  live, IsLinked, same_windows, forget-IsLinked, create-IsLinked, live-set_states,
}

unfoldable pub Linked : Session → Type 0
Linked s = IsLinked s.table s.log

-- The backend never gives the identifier of a window that still exists.
unfoldable pub Fresh : Platform → Type 0
Fresh p =
    (log : List Action) (r : Rectangle) (o : Bool) (w : ℕ)
    → p.new_window log r o ≡ some w
    → live log w ≡ false

-- What a number still names after the session was made to forget it.
pub forget_stale_lem :
    (wid : ℤ) (s : Session)
    → Linked s
    → Linked (forget_stale wid s) × (lookup (forget_stale wid s).table.windows wid ≡ none)
unfolding Linked forget_window forget forget_stale
forget_stale_lem wid s k = elim (Option-cases (lookup s.table.windows wid)) [
  | inl e ↦ rw (e, forget_stale) (k, e)
  | inr (w, e) ↦
      rw (e, forget_stale) (forget-IsLinked wid w s.table s.log e k, forgotten wid w s.table)
]
  where
    forgotten : (wid : ℤ) (w : ℕ) (t : Windows) → lookup (forget wid w t).windows wid ≡ none
    forgotten wid w t = lookup-delete_self wid t.windows

-- What `applyStates` may change of the tables: whether the server wants the window minimized.
unfoldable pub Asks : ℤ → Session → Session → Type 0
Asks wid s t =
    (t.table ≡ (record s.table { server_iconic = t.table.server_iconic }))
    × ((v : ℤ) (b : Bool)
        → lookup t.table.server_iconic v ≡ some b
        → (wid ≡ v) ⊎ ((c : Bool) × (lookup s.table.server_iconic v ≡ some c)))
    × ((u : ℕ) → live t.log u ≡ live s.log u)

apply_iconic-Asks :
    (wid : ℤ) (w : ℕ) (metadata : Entries) (s : Session)
    → Asks wid s (apply_iconic wid w metadata s)
unfolding Asks live apply_iconic
apply_iconic-Asks wid w metadata s = elim (Bool-cases (dict_has metadata (codes "iconic"))) [
  | inl e ↦
      rw (e, apply_iconic)
        (
          refl,
          (λ v b q.
              elim (lookup-insert_inv wid (dict_bool metadata (codes "iconic"))
                s.table.server_iconic v b q) [ inl (p, _) ↦ inl p | inr (_, p) ↦ inr (b, p) ]),
          λ u. refl,
        )
  | inr e ↦ rw (e, apply_iconic) (refl, (λ v b q. inr (b, q)), λ u. refl)
]

apply_states-Asks :
    (p : Platform) (wid : ℤ) (w : ℕ) (metadata : Entries) (s : Session)
    → Asks wid s (apply_states p wid w metadata s)
unfolding Asks apply_states
apply_states-Asks p wid w metadata s =
    let t = apply_iconic wid w metadata s in
    let a = apply_iconic-Asks wid w metadata s in
    elim (Bool-cases (p.stateful w)) [
      | inl e ↦
          rw (e, apply_states) (a.0, a.1, λ u. live-set_states w metadata t.states t.log u ∙ a.2 u)
      | inr e ↦ rw (e, apply_states) a
    ]

pub apply_states-Linked :
    (p : Platform) (wid : ℤ) (w : ℕ) (metadata : Entries) (s : Session)
    → lookup s.table.windows wid ≡ some w
    → Linked s
    → Linked (apply_states p wid w metadata s)
unfolding Linked Asks
apply_states-Linked p wid w metadata s found k =
    let t = apply_states p wid w metadata s in
    let (same, asked, lives) = apply_states-Asks p wid w metadata s in
    subst (λ table. IsLinked table t.log) (sym same)
      (record {
        to_local = k.to_local;
        to_wid = k.to_wid;
        iconified_known = k.iconified_known;
        server_iconic_known = λ v b e. elim (asked v b e) [
          | inl q ↦ (w, subst (λ j. lookup s.table.windows j ≡ some w) q found)
          | inr (c, q) ↦ k.server_iconic_known v c q
        ];
        focused_known = k.focused_known;
        alive = λ v u e. lives u ∙ k.alive v u e;
        no_leak = λ u e. k.no_leak u (sym (lives u) ∙ e);
      })

report_shown-Linked :
    (o : Bool) (wid : ℤ) (r : Rectangle) (s : Session) → Linked s → Linked (report_shown o wid r s)
unfolding Linked live report_shown
report_shown-Linked true wid r s k = k
report_shown-Linked false wid r s k = same_windows s.table s.log _ (λ u. refl) k

show_window-Linked :
    (p : Platform) (wid : ℤ) (w : ℕ) (r : Rectangle) (o : Bool) (metadata : Entries) (s : Session)
    → lookup s.table.windows wid ≡ none
    → live s.log w ≡ false
    → Linked s
    → Linked (show_window p wid w r o metadata s)
unfolding Linked Asks live show_window
show_window-Linked p wid w r o metadata s free fresh k =
    let titled_s : Session =
      act (titled w (dict_str metadata (codes "title"))) (act (created w r o) s) in
    let t = apply_states p wid w metadata titled_s in
    let (same, asked, lives) = apply_states-Asks p wid w metadata titled_s in
    let later : List Action = mapped w ∷ t.log in
    let shown : IsLinked (known_window wid w t.table) later =
      subst (λ table. IsLinked (known_window wid w table) later) (sym same)
        (create-IsLinked wid w r o s.table t.table.server_iconic s.log later free fresh lives asked
          k) in
    report_shown-Linked o wid r (with_table (known_window wid w t.table) (act (mapped w) t)) shown

new_window-Linked :
    (p : Platform) (wid : ℤ) (r : Rectangle) (o : Bool) (metadata : Entries) (s : Session)
    → Fresh p
    → Linked s
    → lookup s.table.windows wid ≡ none
    → Linked (new_window p wid r o metadata s)
unfolding Fresh Linked live new_window
new_window-Linked p wid r o metadata s fresh k free = elim (Option-cases (p.new_window s.log r o)) [
  | inl e ↦ rw (e, new_window) (same_windows s.table s.log _ (λ u. refl) k)
  | inr (w, e) ↦
      rw (e, new_window) (show_window-Linked p wid w r o metadata s free (fresh s.log r o w e) k)
]

pub handle_new_window-Linked :
    (p : Platform) (packet : Packet) (o : Bool) (s : Session)
    → Fresh p
    → Linked s
    → Linked (handle_new_window p packet o s)
unfolding handle_new_window
handle_new_window-Linked p packet o s fresh k =
    let wid = int packet (pos 1) in
    let metadata = metadata_at packet (pos 6) in
    let (k1, free) = forget_stale_lem wid s k in
    new_window-Linked p wid (packet_area packet)
      (o || dict_bool metadata (codes "override-redirect")) metadata (forget_stale wid s) fresh k1
      free
