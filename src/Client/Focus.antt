-- ===== src/Client/Focus.antt =====
-- client/input.go: keys, and which window has the keyboard.
pub mod Laws
pub mod Reports
use go_xpra.Prelude.{
  ℕ, ◌+◌, ◌-◌, Bool, true, false, ◌||◌, not, List, [], ◌∷◌, Option, none, some, if◌then◌else◌,
}
use go_xpra.Prelude.Int.{ℤ, pos, eqb_ℤ}
use go_xpra.Prelude.Bytes.{Bytes, codes, bytes_eq}
use go_xpra.Rencode.Value.{Value, no_entries, entry}
use go_xpra.Client.State.{Session, send, with_table}
use go_xpra.Client.Local.{resolve, send_known}

unfoldable pub key_packet : Bool → Bytes → ℤ → Bytes → ℤ → List Bytes → ℤ → List Value
key_packet pressed name keysym text keycode modifiers wid =
    Value.text (codes "keyboard-event")
    ∷ Value.int wid
    ∷ Value.text name
    ∷ Value.bool pressed
    ∷ Value.dict (
        entry (codes "modifiers") (Value.texts modifiers) (
          entry (codes "keyval") (Value.int keysym) (
            entry (codes "string") (Value.text text) (
              entry (codes "keycode") (Value.int keycode)
                (entry (codes "group") (Value.int (pos 0)) no_entries)))))
    ∷ []

-- No modifiers are the empty list, whether or not Go has a nil there.
unfoldable pub handle_key : ℕ → Bool → Bytes → ℤ → Bytes → ℤ → List Bytes → Session → Session
handle_key id pressed [] keysym text keycode modifiers s = s
handle_key id pressed (c ∷ name) keysym text keycode modifiers s =
    send_known id (key_packet pressed (c ∷ name) keysym text keycode modifiers) s

abbrev pub focus_packet : ℤ → List Value
focus_packet wid = Value.text (codes "window-focus") ∷ Value.int wid ∷ Value.texts [] ∷ []

unfoldable pub with_focus : ℤ → Session → Session
with_focus wid s = with_table (record s.table { focused = wid }) s

unfoldable pub focus_on : ℤ → Session → Session
focus_on wid s = if eqb_ℤ s.table.focused wid then s else send (focus_packet wid) (with_focus wid s)

unfoldable pub handle_focus : ℕ → Session → Session
handle_focus id s = elim (resolve s id) [ none ↦ s | some (wid, window) ↦ focus_on wid s ]

unfoldable pub start_focus_timer : Session → Session
start_focus_timer s =
    if s.focus_losing
    then s
    else record s { focus_losing = true; focus_timers = s.focus_timers + 1 }

unfoldable pub lose_focus : ℤ → Session → Session
lose_focus wid s =
    if not (eqb_ℤ s.table.focused wid) then s else start_focus_timer (with_focus (pos 0) s)

unfoldable pub handle_focus_lost : ℕ → Session → Session
handle_focus_lost id s = elim (resolve s id) [ none ↦ s | some (wid, window) ↦ lose_focus wid s ]

-- A report arrives.
unfoldable pub send_focus_lost : Session → Session
send_focus_lost s =
    let t = record s { focus_losing = false; focus_timers = s.focus_timers - 1 } in
    if not (eqb_ℤ s.table.focused (pos 0)) then t else send (focus_packet (pos 0)) t
