-- ===== src/Client/Local/Iconify.antt =====
-- client/client.go: what the server hears of minimized windows.
use go_xpra.Prelude.{
  ℕ, ◌≡◌, ◌≢◌, ◌⊎◌, refl, ap, inl, inr, Bool, true, false, ◌∷◌, some, Bool-cases, Option-cases,
}
use go_xpra.Prelude.Int.{ℤ}
use go_xpra.Prelude.Table.{lookup, lookup-insert_self, int_key}
use go_xpra.Client.State.{Platform, Session, send, or_default}
use go_xpra.Client.Local.{
  resolve, set_iconified, as_asked, is_iconified, report_minimized, minimized_known,
  handle_minimized, send_iconified, unmap_packet,
}

-- A change that the server did not ask for.
pub minimized_unasked :
    (p : Platform) (id : ℕ) (wid : ℤ) (w : ℕ) (s : Session)
    → resolve s id ≡ some (wid, w)
    → is_iconified wid s ≡ false
    → as_asked wid true s ≡ false
    → handle_minimized p id true s
      ≡ (record (set_iconified wid true s) { iconify_timers = wid ∷ s.iconify_timers })
unfolding handle_minimized minimized_known report_minimized set_iconified as_asked
minimized_unasked p id wid w s e f g = rw (e, f, g, handle_minimized, minimized_known) refl

pub now_iconified :
    (wid : ℤ) (now : Bool) (s : Session) → is_iconified wid (set_iconified wid now s) ≡ now
unfolding is_iconified set_iconified
now_iconified wid now s = ap (or_default false) (lookup-insert_self wid now s.table.iconified)

-- Restoring a window that is minimized: afterwards it is not, whatever is reported.
pub restored :
    (p : Platform) (id : ℕ) (wid : ℤ) (w : ℕ) (s : Session)
    → resolve s id ≡ some (wid, w)
    → is_iconified wid s ≡ true
    → is_iconified wid (handle_minimized p id false s) ≡ false
unfolding handle_minimized minimized_known report_minimized is_iconified
restored p id wid w s e f = elim (Bool-cases (as_asked wid false (set_iconified wid false s))) [
  | inl g ↦ rw (e, f, g, handle_minimized, minimized_known) (now_iconified wid false s)
  | inr g ↦ rw (e, f, g, handle_minimized, minimized_known) (now_iconified wid false s)
]

pub unreported :
    (wid : ℤ) (s : Session)
    → (is_iconified wid s ≡ false) ⊎ (lookup s.table.server_iconic wid ≡ some true)
    → send_iconified wid s ≡ s
unfolding send_iconified
unreported wid s (inl e) = rw (e, send_iconified) refl
unreported wid s (inr e) = elim (Bool-cases (is_iconified wid s)) [
  | inl f ↦ rw (e, f, send_iconified) refl
  | inr f ↦ rw (f, send_iconified) refl
]

pub not_asked :
    (wid : ℤ) (s : Session)
    → lookup s.table.server_iconic wid ≢ some true
    → (as_asked wid true s ≡ false) × (or_default false (lookup s.table.server_iconic wid) ≡ false)
unfolding as_asked
not_asked wid s n = elim (Option-cases (lookup s.table.server_iconic wid)) [
  | inl e ↦ rw (e, as_asked) (refl, refl)
  | inr (true, e) ↦ absurd (n e)
  | inr (false, e) ↦ rw (e, as_asked) (refl, refl)
]

pub reported :
    (wid : ℤ) (s : Session)
    → is_iconified wid s ≡ true
    → or_default false (lookup s.table.server_iconic wid) ≡ false
    → send_iconified wid s ≡ send (unmap_packet wid) s
unfolding send_iconified
reported wid s e f = rw (e, f, send_iconified) refl

as_the_server :
    (wid : ℤ) (s : Session)
    → lookup s.table.server_iconic wid ≡ some true
    → as_asked wid true (set_iconified wid true s) ≡ true
unfolding set_iconified as_asked
as_the_server wid s e = rw (e, as_asked) refl

pub minimized_asked :
    (p : Platform) (id : ℕ) (wid : ℤ) (w : ℕ) (s : Session)
    → resolve s id ≡ some (wid, w)
    → is_iconified wid s ≡ false
    → lookup s.table.server_iconic wid ≡ some true
    → handle_minimized p id true s ≡ set_iconified wid true s
unfolding handle_minimized minimized_known
minimized_asked p id wid w s e f g =
    rw (e, f, as_the_server wid s g, handle_minimized, minimized_known) refl
