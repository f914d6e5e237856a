-- ===== src/Client/Windows/Frame.antt =====
-- client/client.go: the packets on windows, and the fields of the clipboard.
use go_xpra.Prelude.{ℕ, ◌≡◌, refl, ◌∙◌, Bool, ◌||◌, arith}
use go_xpra.Prelude.Int.{ℤ, pos}
use go_xpra.Prelude.Bytes.{codes}
use go_xpra.Rencode.Value.{Entries}
use go_xpra.Protocol.Packet.{Packet, int, dict_bool}
use go_xpra.Ui.Monitor.{Rectangle}
use go_xpra.Client.State.{Platform, Session}
use go_xpra.Client.Windows.{
  forget_window, forget_stale, apply_iconic, apply_states, report_shown, show_window, new_window,
  handle_new_window, handle_lost_window, handle_move_resize, set_title, handle_metadata,
  handle_raise_window, handle_bell, handle_show_desktop, set_icon, handle_known_icon,
  handle_window_icon, metadata_at, packet_area,
}

forget_stale-clip : (wid : ℤ) (s : Session) → (forget_stale wid s).clip ≡ s.clip
unfolding forget_stale forget_window
forget_stale-clip wid s = ground arith

apply_states-clip :
    (p : Platform) (wid : ℤ) (w : ℕ) (metadata : Entries) (s : Session)
    → (apply_states p wid w metadata s).clip ≡ s.clip
unfolding apply_states apply_iconic
apply_states-clip p wid w metadata s = ground arith

report_shown-clip :
    (o : Bool) (wid : ℤ) (r : Rectangle) (s : Session) → (report_shown o wid r s).clip ≡ s.clip
unfolding report_shown
report_shown-clip o wid r s = ground arith

new_window-clip :
    (p : Platform) (wid : ℤ) (r : Rectangle) (o : Bool) (metadata : Entries) (s : Session)
    → (new_window p wid r o metadata s).clip ≡ s.clip
unfolding new_window show_window
new_window-clip p wid r o metadata s = grind (arith, report_shown-clip, apply_states-clip)

pub handle_new_window-clip :
    (p : Platform) (packet : Packet) (o : Bool) (s : Session)
    → (handle_new_window p packet o s).clip ≡ s.clip
unfolding handle_new_window
handle_new_window-clip p packet o s =
    let wid = int packet (pos 1) in
    let metadata = metadata_at packet (pos 6) in
    new_window-clip p wid (packet_area packet) (o || dict_bool metadata (codes "override-redirect"))
      metadata (forget_stale wid s)
    ∙ forget_stale-clip wid s

pub handle_lost_window-clip :
    (packet : Packet) (s : Session) → (handle_lost_window packet s).clip ≡ s.clip
unfolding handle_lost_window
handle_lost_window-clip packet s = forget_stale-clip (int packet (pos 1)) s

pub handle_move_resize-clip :
    (packet : Packet) (s : Session) → (handle_move_resize packet s).clip ≡ s.clip
unfolding handle_move_resize
handle_move_resize-clip packet s = ground arith

pub handle_metadata-clip :
    (p : Platform) (packet : Packet) (s : Session) → (handle_metadata p packet s).clip ≡ s.clip
unfolding handle_metadata set_title
handle_metadata-clip p packet s = grind (arith, apply_states-clip)

pub handle_raise_window-clip :
    (packet : Packet) (s : Session) → (handle_raise_window packet s).clip ≡ s.clip
unfolding handle_raise_window
handle_raise_window-clip packet s = ground arith

pub handle_bell-clip : (packet : Packet) (s : Session) → (handle_bell packet s).clip ≡ s.clip
unfolding handle_bell
handle_bell-clip packet s = refl

pub handle_show_desktop-clip :
    (packet : Packet) (s : Session) → (handle_show_desktop packet s).clip ≡ s.clip
unfolding handle_show_desktop
handle_show_desktop-clip packet s = refl

pub handle_window_icon-clip :
    (p : Platform) (packet : Packet) (s : Session) → (handle_window_icon p packet s).clip ≡ s.clip
unfolding handle_window_icon handle_known_icon set_icon
handle_window_icon-clip p packet s = ground arith
