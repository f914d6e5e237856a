-- ===== src/Client/Run/Seen/Windows.antt =====
-- client/client.go: the packets on windows, and whether the server has challenged the client.
use go_xpra.Prelude.{ℕ, ◌≡◌, refl, ◌∙◌, Bool, ◌||◌, arith}
use go_xpra.Prelude.Int.{ℤ, pos}
use go_xpra.Prelude.Bytes.{codes}
use go_xpra.Rencode.Value.{Entries}
use go_xpra.Protocol.Packet.{Packet, int, dict_bool}
use go_xpra.Ui.Monitor.{Rectangle}
use go_xpra.Client.State.{Platform, Session}
use go_xpra.Client.Windows.{
  forget_window, forget_stale, apply_iconic, apply_states, report_shown, show_window, new_window,
  handle_new_window, handle_lost_window, handle_move_resize, set_title, handle_metadata,
  handle_raise_window, handle_bell, handle_show_desktop, set_icon, handle_known_icon,
  handle_window_icon, metadata_at, packet_area,
}

forget_stale-seen : (wid : ℤ) (s : Session) → (forget_stale wid s).challenge_seen ≡ s.challenge_seen
unfolding forget_stale forget_window
forget_stale-seen wid s = ground arith

apply_states-seen :
    (p : Platform) (wid : ℤ) (w : ℕ) (metadata : Entries) (s : Session)
    → (apply_states p wid w metadata s).challenge_seen ≡ s.challenge_seen
unfolding apply_states apply_iconic
apply_states-seen p wid w metadata s = ground arith

report_shown-seen :
    (o : Bool) (wid : ℤ) (r : Rectangle) (s : Session)
    → (report_shown o wid r s).challenge_seen ≡ s.challenge_seen
unfolding report_shown
report_shown-seen o wid r s = ground arith

new_window-seen :
    (p : Platform) (wid : ℤ) (r : Rectangle) (o : Bool) (metadata : Entries) (s : Session)
    → (new_window p wid r o metadata s).challenge_seen ≡ s.challenge_seen
unfolding new_window show_window
new_window-seen p wid r o metadata s = grind (arith, report_shown-seen, apply_states-seen)

pub handle_new_window-seen :
    (p : Platform) (packet : Packet) (o : Bool) (s : Session)
    → (handle_new_window p packet o s).challenge_seen ≡ s.challenge_seen
unfolding handle_new_window
handle_new_window-seen p packet o s =
    let wid = int packet (pos 1) in
    let metadata = metadata_at packet (pos 6) in
    new_window-seen p wid (packet_area packet) (o || dict_bool metadata (codes "override-redirect"))
      metadata (forget_stale wid s)
    ∙ forget_stale-seen wid s

pub handle_lost_window-seen :
    (packet : Packet) (s : Session)
    → (handle_lost_window packet s).challenge_seen ≡ s.challenge_seen
unfolding handle_lost_window
handle_lost_window-seen packet s = forget_stale-seen (int packet (pos 1)) s

pub handle_move_resize-seen :
    (packet : Packet) (s : Session)
    → (handle_move_resize packet s).challenge_seen ≡ s.challenge_seen
unfolding handle_move_resize
handle_move_resize-seen packet s = ground arith

pub handle_metadata-seen :
    (p : Platform) (packet : Packet) (s : Session)
    → (handle_metadata p packet s).challenge_seen ≡ s.challenge_seen
unfolding handle_metadata set_title
handle_metadata-seen p packet s = grind (arith, apply_states-seen)

pub handle_raise_window-seen :
    (packet : Packet) (s : Session)
    → (handle_raise_window packet s).challenge_seen ≡ s.challenge_seen
unfolding handle_raise_window
handle_raise_window-seen packet s = ground arith

pub handle_bell-seen :
    (packet : Packet) (s : Session) → (handle_bell packet s).challenge_seen ≡ s.challenge_seen
unfolding handle_bell
handle_bell-seen packet s = refl

pub handle_show_desktop-seen :
    (packet : Packet) (s : Session)
    → (handle_show_desktop packet s).challenge_seen ≡ s.challenge_seen
unfolding handle_show_desktop
handle_show_desktop-seen packet s = refl

pub handle_window_icon-seen :
    (p : Platform) (packet : Packet) (s : Session)
    → (handle_window_icon p packet s).challenge_seen ≡ s.challenge_seen
unfolding handle_window_icon handle_known_icon set_icon
handle_window_icon-seen p packet s = ground arith
