-- ===== src/Client/Run/Seen/Desktop.antt =====
-- client/client.go, client/input.go: the events of the desktop and the draws, and whether the server
-- has challenged the client.
use go_xpra.Prelude.{ℕ, ◌≡◌, Bool, List, Option, arith}
use go_xpra.Prelude.Int.{ℤ}
use go_xpra.Prelude.Bytes.{Bytes}
use go_xpra.Protocol.Packet.{Packet}
use go_xpra.Rencode.Value.{Value}
use go_xpra.Ui.Monitor.{Rectangle}
use go_xpra.Client.Mmap.Area.{Release}
use go_xpra.Client.State.{Platform, Session}
use go_xpra.Client.Draw.{
  Draw, release_area, release_pixels, answer, paint, draw_pixels, draw_window, draw_mmap,
  handle_draw,
}
use go_xpra.Client.Local.{
  configured, handle_configure, set_iconified, report_minimized, minimized_known, handle_minimized,
  send_iconified, send_known, handle_button,
}
use go_xpra.Client.Focus.{
  handle_key, with_focus, focus_on, handle_focus, start_focus_timer, lose_focus, handle_focus_lost,
  send_focus_lost,
}

release_pixels-seen :
    (put : ℕ → Bytes) (r : Option Release) (s : Session)
    → (release_pixels put r s).1.challenge_seen ≡ s.challenge_seen
unfolding release_pixels release_area
release_pixels-seen put r s = ground arith

answer-seen :
    (p : Platform) (d : Draw) (r : Option Release) (code : ℤ) (message : Bytes) (s : Session)
    → (answer p d r code message s).challenge_seen ≡ s.challenge_seen
unfolding answer
answer-seen p d r code message s = grind (arith, release_pixels-seen)

paint-seen :
    (p : Platform) (d : Draw) (r : Option Release) (w : ℕ) (pixels : Bytes) (rowstride : ℤ)
    (format : Bytes) (s : Session)
    → (paint p d r w pixels rowstride format s).challenge_seen ≡ s.challenge_seen
unfolding paint
paint-seen p d r w pixels rowstride format s = grind (arith, answer-seen)

draw_window-seen :
    (p : Platform) (d : Draw) (r : Option Release) (pixels : Option Bytes) (s : Session)
    → (draw_window p d r pixels s).challenge_seen ≡ s.challenge_seen
unfolding draw_window draw_pixels
draw_window-seen p d r pixels s = grind (arith, answer-seen, paint-seen)

pub handle_draw-seen :
    (p : Platform) (packet : Packet) (s : Session)
    → (handle_draw p packet s).challenge_seen ≡ s.challenge_seen
unfolding handle_draw draw_mmap
handle_draw-seen p packet s = grind (arith, answer-seen, draw_window-seen)

pub handle_configure-seen :
    (p : Platform) (id : ℕ) (r : Rectangle) (s : Session)
    → (handle_configure p id r s).challenge_seen ≡ s.challenge_seen
unfolding handle_configure configured
handle_configure-seen p id r s = ground arith

pub handle_minimized-seen :
    (p : Platform) (id : ℕ) (now : Bool) (s : Session)
    → (handle_minimized p id now s).challenge_seen ≡ s.challenge_seen
unfolding handle_minimized minimized_known report_minimized set_iconified
handle_minimized-seen p id now s = ground arith

pub send_iconified-seen :
    (wid : ℤ) (s : Session) → (send_iconified wid s).challenge_seen ≡ s.challenge_seen
unfolding send_iconified
send_iconified-seen wid s = ground arith

pub send_known-seen :
    (id : ℕ) (packet : ℤ → List Value) (s : Session)
    → (send_known id packet s).challenge_seen ≡ s.challenge_seen
unfolding send_known
send_known-seen id packet s = ground arith

pub handle_button-seen :
    (p : Platform) (id : ℕ) (button : ℤ) (pressed : Bool) (x y : ℤ) (s : Session)
    → (handle_button p id button pressed x y s).challenge_seen ≡ s.challenge_seen
unfolding handle_button send_known
handle_button-seen p id button pressed x y s = ground arith

pub handle_key-seen :
    (id : ℕ) (pressed : Bool) (name : Bytes) (keysym : ℤ) (text : Bytes) (keycode : ℤ)
    (modifiers : List Bytes) (s : Session)
    → (handle_key id pressed name keysym text keycode modifiers s).challenge_seen ≡ s.challenge_seen
unfolding handle_key send_known
handle_key-seen id pressed name keysym text keycode modifiers s = ground arith

pub handle_focus-seen :
    (id : ℕ) (s : Session) → (handle_focus id s).challenge_seen ≡ s.challenge_seen
unfolding handle_focus focus_on with_focus
handle_focus-seen id s = ground arith

pub handle_focus_lost-seen :
    (id : ℕ) (s : Session) → (handle_focus_lost id s).challenge_seen ≡ s.challenge_seen
unfolding handle_focus_lost lose_focus start_focus_timer with_focus
handle_focus_lost-seen id s = ground arith

pub send_focus_lost-seen : (s : Session) → (send_focus_lost s).challenge_seen ≡ s.challenge_seen
unfolding send_focus_lost
send_focus_lost-seen s = ground arith
