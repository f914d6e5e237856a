-- ===== src/Client/Windows/Linked.antt =====
-- client/client.go: how the tables of windows hang together, and which windows of the backend exist.
use go_xpra.Prelude.{
  ℕ, ◌≡◌, ◌≢◌, refl, ap, sym, subst, ◌∙◌, ◌⊎◌, inl, inr, Bool, true, false, List, [], ◌∷◌, none,
  some, ◌==◌, if◌then◌else◌, Bool-cases,
}
use go_xpra.Prelude.Int.{ℤ, pos, eqb_ℤ}
use go_xpra.Prelude.Bytes.{Bytes}
use go_xpra.Prelude.Table.{
  Table, lookup, insert, delete, lookup-delete_inv, lookup-insert_inv, lookup-delete_ne,
  lookup-insert_self, lookup-insert_ne, Key-cases, same_ne, same_self, int_key, nat_key,
}
use go_xpra.Rencode.Value.{Entries}
use go_xpra.Ui.Monitor.{Rectangle}
use go_xpra.Protocol.Packet.{dict_has, dict_bool}
use go_xpra.Client.State.{Action, created, destroyed, minimized, state_set, Windows}
use go_xpra.Client.Windows.{forget, known_window, set_states, minimize_all}

-- The windows that were created and not destroyed since.
unfoldable pub live : List Action → ℕ → Bool
live [] w = false
live (created v r o ∷ log) w = let before = live log w in if v == w then true else before
live (destroyed v ∷ log) w = let before = live log w in if v == w then false else before
live (_ ∷ log) w = live log w

-- The two tables are inverse, nothing is remembered of a window that is gone, and the windows of the
-- table are the ones that exist.
pub record IsLinked (t : Windows) (log : List Action) : Type 0 where
  pub to_local : (wid : ℤ) (w : ℕ) → lookup t.windows wid ≡ some w → lookup t.by_local w ≡ some wid
  pub to_wid : (w : ℕ) (wid : ℤ) → lookup t.by_local w ≡ some wid → lookup t.windows wid ≡ some w
  pub iconified_known :
      (wid : ℤ) (b : Bool)
      → lookup t.iconified wid ≡ some b
      → (w : ℕ) × (lookup t.windows wid ≡ some w)
  pub server_iconic_known :
      (wid : ℤ) (b : Bool)
      → lookup t.server_iconic wid ≡ some b
      → (w : ℕ) × (lookup t.windows wid ≡ some w)
  pub focused_known : (t.focused ≡ pos 0) ⊎ ((w : ℕ) × (lookup t.windows t.focused ≡ some w))
  pub alive : (wid : ℤ) (w : ℕ) → lookup t.windows wid ≡ some w → live log w ≡ true
  pub no_leak : (w : ℕ) → live log w ≡ true → (wid : ℤ) × (lookup t.by_local w ≡ some wid)

live-created_self :
    (w : ℕ) (r : Rectangle) (o : Bool) (log : List Action) → live (created w r o ∷ log) w ≡ true
unfolding live
live-created_self w r o log = rw (same_self w) refl

live-created_ne :
    (w : ℕ) (r : Rectangle) (o : Bool) (log : List Action) (u : ℕ)
    → w ≢ u
    → live (created w r o ∷ log) u ≡ live log u
unfolding live
live-created_ne w r o log u n = rw (same_ne w u n) refl

live-destroyed_self : (w : ℕ) (log : List Action) → live (destroyed w ∷ log) w ≡ false
unfolding live
live-destroyed_self w log = rw (same_self w) refl

live-destroyed_ne :
    (w : ℕ) (log : List Action) (u : ℕ) → w ≢ u → live (destroyed w ∷ log) u ≡ live log u
unfolding live
live-destroyed_ne w log u n = rw (same_ne w u n) refl

pub live-set_states :
    (w : ℕ) (metadata : Entries) (states : List Bytes) (log : List Action) (u : ℕ)
    → live (set_states w metadata states log) u ≡ live log u
unfolding set_states live
live-set_states w metadata [] log u = refl
live-set_states w metadata (state ∷ states) log u = elim (Bool-cases (dict_has metadata state)) [
  | inl e ↦
      rw (e, set_states)
        (live-set_states w metadata states (state_set w state (dict_bool metadata state) ∷ log) u)
  | inr e ↦ rw (e, set_states) (live-set_states w metadata states log u)
]

pub live-minimize_all :
    (show : Bool) (t : Table ℤ ℕ) (log : List Action) (u : ℕ)
    → live (minimize_all show t log) u ≡ live log u
unfolding minimize_all live
live-minimize_all show [] log u = refl
live-minimize_all show ((wid, w) ∷ t) log u = live-minimize_all show t (minimized w show ∷ log) u

-- Calls that neither create nor destroy windows.
pub same_windows :
    (t : Windows) (log later : List Action)
    → ((w : ℕ) → live later w ≡ live log w)
    → IsLinked t log
    → IsLinked t later
same_windows t log later same k = record {
  to_local = k.to_local;
  to_wid = k.to_wid;
  iconified_known = k.iconified_known;
  server_iconic_known = k.server_iconic_known;
  focused_known = k.focused_known;
  alive = λ wid w e. same w ∙ k.alive wid w e;
  no_leak = λ w e. k.no_leak w (sym (same w) ∙ e);
}

-- A focus that is kept is on another window than the one that goes.
focused_after :
    (wid : ℤ) (t : Windows) (b : Bool)
    → eqb_ℤ t.focused wid ≡ b
    → (t.focused ≡ pos 0) ⊎ ((w : ℕ) × (lookup t.windows t.focused ≡ some w))
    → ((if b then pos 0 else t.focused) ≡ pos 0)
      ⊎ ((w : ℕ) × (lookup (delete wid t.windows) (if b then pos 0 else t.focused) ≡ some w))
focused_after wid t true e k = inl refl
focused_after wid t false e (inl z) = inl z
focused_after wid t false e (inr (w, found)) =
    let n : wid ≢ t.focused = λ q.
      (let same : eqb_ℤ t.focused wid ≡ true = (int_key.same_iff t.focused wid).1 (sym q) in
        absurd cc) in
    inr (w, lookup-delete_ne wid t.windows t.focused n ∙ found)

pub forget-IsLinked :
    (wid : ℤ) (w : ℕ) (t : Windows) (log : List Action)
    → lookup t.windows wid ≡ some w
    → IsLinked t log
    → IsLinked (forget wid w t) (destroyed w ∷ log)
unfolding forget
forget-IsLinked wid w t log found k = record {
  to_local = λ v u e.
      let (n, e1) = lookup-delete_inv wid t.windows v u e in
      lookup-delete_ne w t.by_local u (λ q. n (
        let a : some wid ≡ some v =
          sym (k.to_local wid w found) ∙ ap (lookup t.by_local) q ∙ k.to_local v u e1 in
        cc))
      ∙ k.to_local v u e1;
  to_wid = λ u v e.
      let (n, e1) = lookup-delete_inv w t.by_local u v e in
      lookup-delete_ne wid t.windows v (λ q.
        n (let a : some w ≡ some u = sym found ∙ ap (lookup t.windows) q ∙ k.to_wid u v e1 in cc))
      ∙ k.to_wid u v e1;
  iconified_known = λ v b e.
      let (n, e1) = lookup-delete_inv wid t.iconified v b e in
      let (u, e2) = k.iconified_known v b e1 in (u, lookup-delete_ne wid t.windows v n ∙ e2);
  server_iconic_known = λ v b e.
      let (n, e1) = lookup-delete_inv wid t.server_iconic v b e in
      let (u, e2) = k.server_iconic_known v b e1 in (u, lookup-delete_ne wid t.windows v n ∙ e2);
  focused_known = focused_after wid t (eqb_ℤ t.focused wid) refl k.focused_known;
  alive = λ v u e.
      let (n, e1) = lookup-delete_inv wid t.windows v u e in
      live-destroyed_ne w log u (λ q. n (
        let a : some wid ≡ some v =
          sym (k.to_local wid w found) ∙ ap (lookup t.by_local) q ∙ k.to_local v u e1 in
        cc))
      ∙ k.alive v u e1;
  no_leak = λ u e. elim (Key-cases w u) [
    | inl q ↦
        let dead : live (destroyed w ∷ log) u ≡ false =
          subst (λ j. live (destroyed w ∷ log) j ≡ false) q (live-destroyed_self w log) in
        absurd cc
    | inr n ↦
        let (v, e1) = k.no_leak u (sym (live-destroyed_ne w log u n) ∙ e) in
        (v, lookup-delete_ne w t.by_local u n ∙ e1)
  ];
}

-- A new window under a number that is free, with what the server asked of it.
pub create-IsLinked :
    (wid : ℤ) (w : ℕ) (r : Rectangle) (o : Bool) (t : Windows) (asked : Table ℤ Bool)
    (log later : List Action)
    → lookup t.windows wid ≡ none
    → live log w ≡ false
    → ((u : ℕ) → live later u ≡ live (created w r o ∷ log) u)
    → ((v : ℤ) (b : Bool)
        → lookup asked v ≡ some b
        → (wid ≡ v) ⊎ ((c : Bool) × (lookup t.server_iconic v ≡ some c)))
    → IsLinked t log
    → IsLinked (known_window wid w (record t { server_iconic = asked })) later
unfolding known_window
create-IsLinked wid w r o t asked log later free fresh same iconic k = record {
  to_local = λ v u e. elim (lookup-insert_inv wid w t.windows v u e) [
    | inl (p, q) ↦
        subst (λ j. lookup (insert w wid t.by_local) j ≡ some v) q
          (lookup-insert_self w wid t.by_local ∙ ap some p)
    | inr (n, e1) ↦ lookup-insert_ne w wid t.by_local u (other v u e1) ∙ k.to_local v u e1
  ];
  to_wid = λ u v e. elim (lookup-insert_inv w wid t.by_local u v e) [
    | inl (p, q) ↦
        subst (λ j. lookup (insert wid w t.windows) j ≡ some u) q
          (lookup-insert_self wid w t.windows ∙ ap some p)
    | inr (n, e1) ↦ keep v u (k.to_wid u v e1)
  ];
  iconified_known = λ v b e. let (u, e1) = k.iconified_known v b e in (u, keep v u e1);
  server_iconic_known = λ v b e. elim (iconic v b e) [
    | inl q ↦ (
      w,
      subst (λ j. lookup (insert wid w t.windows) j ≡ some w) q
          (lookup-insert_self wid w t.windows),
    )
    | inr (c, e1) ↦ let (u, e2) = k.server_iconic_known v c e1 in (u, keep v u e2)
  ];
  focused_known = elim k.focused_known [ inl z ↦ inl z | inr (u, e) ↦ inr (u, keep t.focused u e) ];
  alive = λ v u e. elim (lookup-insert_inv wid w t.windows v u e) [
    | inl (p, q) ↦
        same u ∙ subst (λ j. live (created w r o ∷ log) j ≡ true) q (live-created_self w r o log)
    | inr (n, e1) ↦ same u ∙ live-created_ne w r o log u (other v u e1) ∙ k.alive v u e1
  ];
  no_leak = λ u e. elim (Key-cases w u) [
    | inl q ↦ (
      wid,
      subst (λ j. lookup (insert w wid t.by_local) j ≡ some wid) q
          (lookup-insert_self w wid t.by_local),
    )
    | inr n ↦
        let (v, e1) = k.no_leak u (sym (live-created_ne w r o log u n) ∙ sym (same u) ∙ e) in
        (v, lookup-insert_ne w wid t.by_local u n ∙ e1)
  ];
}
  where
    keep :
        (v : ℤ) (u : ℕ) → lookup t.windows v ≡ some u → lookup (insert wid w t.windows) v ≡ some u
    keep v u e =
        lookup-insert_ne wid w t.windows v
          (λ q. let a : none ≡ some u = sym free ∙ ap (lookup t.windows) q ∙ e in cc)
        ∙ e

    other : (v : ℤ) (u : ℕ) → lookup t.windows v ≡ some u → w ≢ u
    other v u e q = let a : live log w ≡ true = ap (live log) q ∙ k.alive v u e in cc
