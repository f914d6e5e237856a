-- ===== src/Client/Run/Frame.antt =====
-- client/client.go, client/input.go: the events of the desktop and the draws, and the fields of the
-- clipboard.
use go_xpra.Prelude.{ℕ, ◌≡◌, Bool, List, Option, arith}
use go_xpra.Prelude.Int.{ℤ}
use go_xpra.Prelude.Bytes.{Bytes}
use go_xpra.Protocol.Packet.{Packet}
use go_xpra.Rencode.Value.{Value}
use go_xpra.Ui.Monitor.{Rectangle}
use go_xpra.Client.Mmap.Area.{Release}
use go_xpra.Client.State.{Platform, Session}
use go_xpra.Client.Draw.{
  Draw, release_area, release_pixels, answer, paint, draw_pixels, draw_window, draw_mmap,
  handle_draw,
}
use go_xpra.Client.Local.{
  configured, handle_configure, set_iconified, report_minimized, minimized_known, handle_minimized,
  send_iconified, send_known, handle_button,
}
use go_xpra.Client.Focus.{
  handle_key, with_focus, focus_on, handle_focus, start_focus_timer, lose_focus, handle_focus_lost,
  send_focus_lost,
}

release_pixels-clip :
    (put : ℕ → Bytes) (r : Option Release) (s : Session) → (release_pixels put r s).1.clip ≡ s.clip
unfolding release_pixels release_area
release_pixels-clip put r s = ground arith

answer-clip :
    (p : Platform) (d : Draw) (r : Option Release) (code : ℤ) (message : Bytes) (s : Session)
    → (answer p d r code message s).clip ≡ s.clip
unfolding answer
answer-clip p d r code message s = grind (arith, release_pixels-clip)

paint-clip :
    (p : Platform) (d : Draw) (r : Option Release) (w : ℕ) (pixels : Bytes) (rowstride : ℤ)
    (format : Bytes) (s : Session)
    → (paint p d r w pixels rowstride format s).clip ≡ s.clip
unfolding paint
paint-clip p d r w pixels rowstride format s = grind (arith, answer-clip)

draw_window-clip :
    (p : Platform) (d : Draw) (r : Option Release) (pixels : Option Bytes) (s : Session)
    → (draw_window p d r pixels s).clip ≡ s.clip
unfolding draw_window draw_pixels
draw_window-clip p d r pixels s = grind (arith, answer-clip, paint-clip)

pub handle_draw-clip :
    (p : Platform) (packet : Packet) (s : Session) → (handle_draw p packet s).clip ≡ s.clip
unfolding handle_draw draw_mmap
handle_draw-clip p packet s = grind (arith, answer-clip, draw_window-clip)

pub handle_configure-clip :
    (p : Platform) (id : ℕ) (r : Rectangle) (s : Session)
    → (handle_configure p id r s).clip ≡ s.clip
unfolding handle_configure configured
handle_configure-clip p id r s = ground arith

pub handle_minimized-clip :
    (p : Platform) (id : ℕ) (now : Bool) (s : Session) → (handle_minimized p id now s).clip ≡ s.clip
unfolding handle_minimized minimized_known report_minimized set_iconified
handle_minimized-clip p id now s = ground arith

pub send_iconified-clip : (wid : ℤ) (s : Session) → (send_iconified wid s).clip ≡ s.clip
unfolding send_iconified
send_iconified-clip wid s = ground arith

pub send_known-clip :
    (id : ℕ) (packet : ℤ → List Value) (s : Session) → (send_known id packet s).clip ≡ s.clip
unfolding send_known
send_known-clip id packet s = ground arith

pub handle_button-clip :
    (p : Platform) (id : ℕ) (button : ℤ) (pressed : Bool) (x y : ℤ) (s : Session)
    → (handle_button p id button pressed x y s).clip ≡ s.clip
unfolding handle_button send_known
handle_button-clip p id button pressed x y s = ground arith

pub handle_key-clip :
    (id : ℕ) (pressed : Bool) (name : Bytes) (keysym : ℤ) (text : Bytes) (keycode : ℤ)
    (modifiers : List Bytes) (s : Session)
    → (handle_key id pressed name keysym text keycode modifiers s).clip ≡ s.clip
unfolding handle_key send_known
handle_key-clip id pressed name keysym text keycode modifiers s = ground arith

pub handle_focus-clip : (id : ℕ) (s : Session) → (handle_focus id s).clip ≡ s.clip
unfolding handle_focus focus_on with_focus
handle_focus-clip id s = ground arith

pub handle_focus_lost-clip : (id : ℕ) (s : Session) → (handle_focus_lost id s).clip ≡ s.clip
unfolding handle_focus_lost lose_focus start_focus_timer with_focus
handle_focus_lost-clip id s = ground arith

pub send_focus_lost-clip : (s : Session) → (send_focus_lost s).clip ≡ s.clip
unfolding send_focus_lost
send_focus_lost-clip s = ground arith
