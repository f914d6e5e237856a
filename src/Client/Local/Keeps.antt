-- ===== src/Client/Local/Keeps.antt =====
-- client/client.go, client/input.go: the events of the desktop, and the tables of the session.
use go_xpra.Prelude.{
  ℕ, ◌≡◌, refl, ap, sym, subst, ◌∙◌, inl, inr, Bool, true, false, ◌||◌, not, List, [], ◌∷◌, Option,
  none, some, if◌then◌else◌, Bool-cases, Option-cases,
}
use go_xpra.Prelude.Int.{ℤ}
use go_xpra.Prelude.Bytes.{Bytes}
use go_xpra.Prelude.Table.{lookup, lookup-insert_inv, int_key, nat_key}
use go_xpra.Rencode.Value.{Value}
use go_xpra.Ui.Monitor.{Rectangle}
use go_xpra.Client.State.{resized, Platform, Session, send, or_default}
use go_xpra.Client.Windows.Linked.{live, same_windows}
use go_xpra.Client.Windows.Keeps.{Linked}
use go_xpra.Client.Local.{
  resolve_in, resolve, same_area, configured, handle_configure, set_iconified, as_asked,
  is_iconified, report_minimized, minimized_known, handle_minimized, unmap_packet, send_iconified,
  send_known, is_wheel, wheel_packet, button_packet, handle_button,
}
use go_xpra.Client.Focus.{handle_key, key_packet}

pub send-Linked : (packet : List Value) (s : Session) → Linked s → Linked (send packet s)
unfolding Linked live
send-Linked packet s k = same_windows s.table s.log _ (λ u. refl) k

pub resolve-known :
    (s : Session) (id : ℕ) (wid : ℤ) (w : ℕ)
    → resolve s id ≡ some (wid, w)
    → (lookup s.table.by_local id ≡ some wid) × (lookup s.table.windows wid ≡ some w)
unfolding resolve resolve_in
resolve-known s id wid w e = elim (Option-cases (lookup s.table.by_local id)) [
  | inl q ↦
      (let found : Option (ℤ × ℕ) = some (wid, w) in
        let a : none ≡ found = rw (q, resolve_in) at e in absurd cc)
  | inr (v, q) ↦ elim (Option-cases (lookup s.table.windows v)) [
    | inl r ↦
        (let found : Option (ℤ × ℕ) = some (wid, w) in
          let a : none ≡ found = rw (q, r, resolve_in) at e in absurd cc)
    | inr (u, r) ↦
        let found : Option (ℤ × ℕ) = some (wid, w) in
        let a : some (v, u) ≡ found = rw (q, r, resolve_in) at e in
        let same : v ≡ wid = cc in
        (q ∙ ap some same, ap (lookup s.table.windows) (sym same) ∙ r ∙ cc)
  ]
]

pub send_known-Linked :
    (id : ℕ) (packet : ℤ → List Value) (s : Session) → Linked s → Linked (send_known id packet s)
unfolding send_known
send_known-Linked id packet s k = elim (Option-cases (resolve s id)) [
  | inl e ↦ rw (e, send_known) k
  | inr ((wid, w), e) ↦ rw (e, send_known) (send-Linked (packet wid) s k)
]

configured-Linked :
    (p : Platform) (wid : ℤ) (w : ℕ) (r : Rectangle) (s : Session)
    → Linked s
    → Linked (configured p wid w r s)
unfolding configured Linked live
configured-Linked p wid w r s k = elim (Bool-cases (same_area r (p.geometry s.log w))) [
  | inl e ↦ rw (e, configured) k
  | inr e ↦ elim (Bool-cases (p.fails (resized w r ∷ s.log))) [
    | inl f ↦ rw (e, f, configured) (same_windows s.table s.log _ (λ u. refl) k)
    | inr f ↦ rw (e, f, configured) (same_windows s.table s.log _ (λ u. refl) k)
  ]
]

pub handle_configure-Linked :
    (p : Platform) (id : ℕ) (r : Rectangle) (s : Session)
    → Linked s
    → Linked (handle_configure p id r s)
unfolding handle_configure
handle_configure-Linked p id r s k = elim (Option-cases (resolve s id)) [
  | inl e ↦ rw (e, handle_configure) k
  | inr ((wid, w), e) ↦ rw (e, handle_configure) (configured-Linked p wid w r s k)
]

set_iconified-Linked :
    (wid : ℤ) (w : ℕ) (now : Bool) (s : Session)
    → lookup s.table.windows wid ≡ some w
    → Linked s
    → Linked (set_iconified wid now s)
unfolding Linked set_iconified
set_iconified-Linked wid w now s found k = record {
  to_local = k.to_local;
  to_wid = k.to_wid;
  iconified_known = λ v b e. elim (lookup-insert_inv wid now s.table.iconified v b e) [
    | inl (q, _) ↦ (w, subst (λ j. lookup s.table.windows j ≡ some w) q found)
    | inr (_, q) ↦ k.iconified_known v b q
  ];
  server_iconic_known = k.server_iconic_known;
  focused_known = k.focused_known;
  alive = k.alive;
  no_leak = k.no_leak;
}

report_minimized-Linked :
    (p : Platform) (wid : ℤ) (w : ℕ) (now : Bool) (s : Session)
    → Linked s
    → Linked (report_minimized p wid w now s)
unfolding report_minimized Linked live
report_minimized-Linked p wid w true s k = k
report_minimized-Linked p wid w false s k = same_windows s.table s.log _ (λ u. refl) k

minimized_known-Linked :
    (p : Platform) (wid : ℤ) (w : ℕ) (now : Bool) (s : Session)
    → lookup s.table.windows wid ≡ some w
    → Linked s
    → Linked (minimized_known p wid w now s)
unfolding minimized_known
minimized_known-Linked p wid w now s found k =
    let t = set_iconified wid now s in
    let k1 = set_iconified-Linked wid w now s found k in
    elim (Bool-cases (if is_iconified wid s then now else not now)) [
      | inl e ↦ rw (e, minimized_known) k
      | inr e ↦ elim (Bool-cases (as_asked wid now t)) [
        | inl f ↦ rw (e, f, minimized_known) k1
        | inr f ↦ rw (e, f, minimized_known) (report_minimized-Linked p wid w now t k1)
      ]
    ]

pub handle_minimized-Linked :
    (p : Platform) (id : ℕ) (now : Bool) (s : Session)
    → Linked s
    → Linked (handle_minimized p id now s)
unfolding handle_minimized
handle_minimized-Linked p id now s k = elim (Option-cases (resolve s id)) [
  | inl e ↦ rw (e, handle_minimized) k
  | inr ((wid, w), e) ↦
      rw (e, handle_minimized)
        (minimized_known-Linked p wid w now s (resolve-known s id wid w e).1 k)
]

pub send_iconified-Linked : (wid : ℤ) (s : Session) → Linked s → Linked (send_iconified wid s)
unfolding send_iconified
send_iconified-Linked wid s k =
    elim (Bool-cases
      (not (is_iconified wid s) || or_default false (lookup s.table.server_iconic wid))) [
        | inl e ↦ rw (e, send_iconified) k
        | inr e ↦ rw (e, send_iconified) (send-Linked (unmap_packet wid) s k)
      ]

pub handle_button-Linked :
    (p : Platform) (id : ℕ) (button : ℤ) (pressed : Bool) (x y : ℤ) (s : Session)
    → Linked s
    → Linked (handle_button p id button pressed x y s)
unfolding handle_button
handle_button-Linked p id button pressed x y s k = elim (Bool-cases (is_wheel button)) [
  | inl e ↦ elim (Bool-cases pressed) [
    | inl f ↦
        rw (e, f, handle_button) (send_known-Linked id (wheel_packet p.compatible s button x y) s k)
    | inr f ↦ rw (e, f, handle_button) k
  ]
  | inr e ↦ rw (e, handle_button) (send_known-Linked id (button_packet s button pressed x y) s k)
]

pub handle_key-Linked :
    (id : ℕ) (pressed : Bool) (name : Bytes) (keysym : ℤ) (text : Bytes) (keycode : ℤ)
    (modifiers : List Bytes) (s : Session)
    → Linked s
    → Linked (handle_key id pressed name keysym text keycode modifiers s)
unfolding handle_key
handle_key-Linked id pressed [] keysym text keycode modifiers s k = k
handle_key-Linked id pressed (c ∷ name) keysym text keycode modifiers s k =
    send_known-Linked id (key_packet pressed (c ∷ name) keysym text keycode modifiers) s k
