-- ===== src/Client/Dispatch.antt =====
-- client/client.go: `handlePacket` and `handleUIEvent`. A packet that only causes a message in the
-- log changes nothing.
use go_xpra.Prelude.{Bool, true, false, List, [], ◌∷◌, none, if◌then◌else◌}
use go_xpra.Prelude.Bytes.{Bytes, codes, bytes_eq}
use go_xpra.Protocol.Packet.{Packet, packet_type, canonical}
use go_xpra.Ui.Event.{Event}
use go_xpra.Client.State.{Platform, Session, send, stop}
use go_xpra.Client.Windows.{
  handle_new_window, handle_lost_window, handle_move_resize, handle_metadata, handle_raise_window,
  handle_bell, handle_show_desktop, handle_window_icon,
}
use go_xpra.Client.Draw.{handle_draw}
use go_xpra.Client.Local.{
  handle_configure, handle_minimized, handle_close_request, handle_motion, handle_button,
}
use go_xpra.Client.Focus.{handle_key, handle_focus, handle_focus_lost}
use go_xpra.Client.Clipboard.{handle_clipboard_change}
use go_xpra.Client.Clipboard.Remote.{
  handle_clipboard_token, handle_clipboard_data, handle_clipboard_contents,
  handle_clipboard_contents_none, handle_clipboard_request, handle_clipboard_enable_selections,
  handle_clipboard_status,
}
use go_xpra.Client.Hello.{Host}
use go_xpra.Client.Control.{
  handle_hello, handle_challenge, handle_ping, handle_cursor, handle_cursor_data,
  handle_cursor_default, disconnect_packet,
}

pub data PacketKind : Type 0 where
  hello challenge show_desktop cursor cursor_data cursor_default : PacketKind
  clipboard_data clipboard_token clipboard_request clipboard_contents : PacketKind
  clipboard_contents_none clipboard_enable_selections clipboard_status : PacketKind
  window_create new_override_redirect window_destroy window_move_resize window_metadata : PacketKind
  window_raise window_bell window_icon window_draw ping closing ignored : PacketKind

-- The cases of the switch; those of legacy servers only count in compatibility mode.
abbrev pub packet_kinds : Bool → List (Bytes × PacketKind)
packet_kinds compatible =
    (codes "hello", hello)
    ∷ (codes "challenge", challenge)
    ∷ (codes "show-desktop", show_desktop)
    ∷ (codes "cursor", if compatible then cursor else ignored)
    ∷ (codes "cursor-data", cursor_data)
    ∷ (codes "cursor-default", cursor_default)
    ∷ (codes "clipboard-data", clipboard_data)
    ∷ (codes "clipboard-token", if compatible then clipboard_token else ignored)
    ∷ (codes "clipboard-request", clipboard_request)
    ∷ (codes "clipboard-contents", clipboard_contents)
    ∷ (codes "clipboard-contents-none", clipboard_contents_none)
    ∷ (codes "clipboard-enable-selections", clipboard_enable_selections)
    ∷ (codes "clipboard-status", clipboard_status)
    ∷ (codes "set-clipboard-enabled", if compatible then clipboard_status else ignored)
    ∷ (codes "window-create", window_create)
    ∷ (codes "new-override-redirect", if compatible then new_override_redirect else ignored)
    ∷ (codes "window-destroy", window_destroy)
    ∷ (codes "window-move-resize", window_move_resize)
    ∷ (codes "window-metadata", window_metadata)
    ∷ (codes "window-raise", window_raise)
    ∷ (codes "window-bell", window_bell)
    ∷ (codes "window-icon", window_icon)
    ∷ (codes "window-draw", window_draw)
    ∷ (codes "ping", ping)
    ∷ (codes "disconnect", if compatible then closing else ignored)
    ∷ (codes "connection-close", closing)
    ∷ []

unfoldable pub kind_in : List (Bytes × PacketKind) → Bytes → PacketKind
kind_in [] name = ignored
kind_in ((case_name, kind) ∷ kinds) name =
    if bytes_eq case_name name then kind else kind_in kinds name

unfoldable pub kind_of : Bool → Packet → PacketKind
kind_of compatible packet =
    kind_in (packet_kinds compatible) (canonical compatible (packet_type packet))

module _ (p : Platform) (h : Host) where
  unfoldable pub handle_kind : PacketKind → Packet → Session → Session
  handle_kind hello packet s = handle_hello p packet s
  handle_kind challenge packet s = handle_challenge p h packet s
  handle_kind show_desktop packet s = handle_show_desktop packet s
  handle_kind cursor packet s = handle_cursor p packet s
  handle_kind cursor_data packet s = handle_cursor_data p packet s
  handle_kind cursor_default packet s = handle_cursor_default s
  handle_kind clipboard_data packet s = handle_clipboard_data p packet s
  handle_kind clipboard_token packet s = handle_clipboard_token p packet s
  handle_kind clipboard_request packet s = handle_clipboard_request packet s
  handle_kind clipboard_contents packet s = handle_clipboard_contents p packet s
  handle_kind clipboard_contents_none packet s = handle_clipboard_contents_none packet s
  handle_kind clipboard_enable_selections packet s = handle_clipboard_enable_selections p packet s
  handle_kind clipboard_status packet s = handle_clipboard_status p packet s
  handle_kind window_create packet s = handle_new_window p packet false s
  handle_kind new_override_redirect packet s = handle_new_window p packet true s
  handle_kind window_destroy packet s = handle_lost_window packet s
  handle_kind window_move_resize packet s = handle_move_resize packet s
  handle_kind window_metadata packet s = handle_metadata p packet s
  handle_kind window_raise packet s = handle_raise_window packet s
  handle_kind window_bell packet s = handle_bell packet s
  handle_kind window_icon packet s = handle_window_icon p packet s
  handle_kind window_draw packet s = handle_draw p packet s
  handle_kind ping packet s = handle_ping p.compatible packet s
  handle_kind closing packet s = stop none s
  handle_kind ignored packet s = s

  unfoldable pub handle_packet : Packet → Session → Session
  handle_packet packet s = handle_kind (kind_of p.compatible packet) packet s

module _ (p : Platform) where
  unfoldable pub handle_ui_event : Event → Session → Session
  handle_ui_event (Event.configure id x y width height) s =
      handle_configure p id (record { x = x; y = y; width = width; height = height }) s
  handle_ui_event (Event.minimized id now) s = handle_minimized p id now s
  handle_ui_event (Event.close_request id) s = handle_close_request id s
  handle_ui_event Event.exit_request s =
      stop none (send (disconnect_packet p.compatible (codes "client exit")) s)
  handle_ui_event (Event.motion id x y) s = handle_motion id x y s
  handle_ui_event (Event.button id button pressed x y) s = handle_button p id button pressed x y s
  handle_ui_event (Event.key id pressed name keysym text keycode modifiers) s =
      handle_key id pressed name keysym text keycode modifiers s
  handle_ui_event (Event.focus id) s = handle_focus id s
  handle_ui_event (Event.focus_lost id) s = handle_focus_lost id s
  handle_ui_event (Event.clipboard_change text) s = handle_clipboard_change p text s
