-- ===== src/Ui/Event.antt =====
-- ui/event.go: what a backend reports.
use go_xpra.Prelude.{ℕ, Bool, List}
use go_xpra.Prelude.Int.{ℤ}
use go_xpra.Prelude.Bytes.{Bytes}

-- A window is its identifier.
pub data Event : Type 0 where
  configure : (window : ℕ) (x y width height : ℤ) → Event
  minimized : (window : ℕ) (minimized : Bool) → Event
  close_request : (window : ℕ) → Event
  exit_request : Event
  motion : (window : ℕ) (x y : ℤ) → Event
  button : (window : ℕ) (button : ℤ) (pressed : Bool) (x y : ℤ) → Event
  key :
      (window : ℕ) (pressed : Bool) (name : Bytes) (keysym : ℤ) (text : Bytes) (keycode : ℤ)
      (modifiers : List Bytes)
      → Event
  focus : (window : ℕ) → Event
  focus_lost : (window : ℕ) → Event
  clipboard_change : (text : Bytes) → Event
