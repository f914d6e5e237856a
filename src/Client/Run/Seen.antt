-- ===== src/Client/Run/Seen.antt =====
-- client/client.go: that the client was challenged is remembered by every case of the run loop.
pub mod Windows
pub mod Desktop
pub mod Clipboard
pub mod Start
use go_xpra.Prelude.{◌≡◌, ◌∙◌, true, ◌++◌}
use go_xpra.Protocol.Packet.{Packet}
use go_xpra.Ui.Event.{Event}
use go_xpra.Client.State.{Platform, Session}
use go_xpra.Client.Local.{handle_close_request, handle_motion}
use go_xpra.Client.Control.{handle_cursor_default}
use go_xpra.Client.Dispatch.{PacketKind, kind_of, handle_kind, handle_packet, handle_ui_event}
use go_xpra.Client.Hello.{Host}
use go_xpra.Client.Run.{
  Step, packet, event, focus_lost_due, iconify_due, ping_tick, asked, disconnecting, area_written,
}
use go_xpra.Client.Run.Seen.Windows.{
  handle_new_window-seen, handle_lost_window-seen, handle_move_resize-seen, handle_metadata-seen,
  handle_raise_window-seen, handle_bell-seen, handle_show_desktop-seen, handle_window_icon-seen,
}
use go_xpra.Client.Run.Seen.Desktop.{
  handle_draw-seen, handle_configure-seen, handle_minimized-seen, send_iconified-seen,
  send_known-seen, handle_button-seen, handle_key-seen, handle_focus-seen, handle_focus_lost-seen,
  send_focus_lost-seen,
}
use go_xpra.Client.Run.Seen.Clipboard.{
  handle_clipboard_change-seen, handle_clipboard_token-seen, handle_clipboard_data-seen,
  handle_clipboard_contents-seen, handle_clipboard_contents_none-seen,
  handle_clipboard_request-seen, handle_clipboard_enable_selections-seen,
  handle_clipboard_status-seen,
}
use go_xpra.Client.Run.Seen.Start.{
  handle_hello-seen, handle_challenge-seen, handle_ping-seen, handle_cursor-seen,
  handle_cursor_data-seen, disconnect-seen,
}

module _ (p : Platform) (h : Host) where
  handle_kind-seen :
      (kind : PacketKind) (q : Packet) (s : Session)
      → s.challenge_seen ≡ true
      → (handle_kind p h kind q s).challenge_seen ≡ true
  unfolding handle_kind handle_cursor_default
  handle_kind-seen PacketKind.hello q s k = handle_hello-seen p q s ∙ k
  handle_kind-seen PacketKind.challenge q s k = handle_challenge-seen p h q s
  handle_kind-seen PacketKind.show_desktop q s k = handle_show_desktop-seen q s ∙ k
  handle_kind-seen PacketKind.cursor q s k = handle_cursor-seen p q s ∙ k
  handle_kind-seen PacketKind.cursor_data q s k = handle_cursor_data-seen p q s ∙ k
  handle_kind-seen PacketKind.cursor_default q s k = k
  handle_kind-seen PacketKind.clipboard_data q s k = handle_clipboard_data-seen p q s ∙ k
  handle_kind-seen PacketKind.clipboard_token q s k = handle_clipboard_token-seen p q s ∙ k
  handle_kind-seen PacketKind.clipboard_request q s k = handle_clipboard_request-seen q s ∙ k
  handle_kind-seen PacketKind.clipboard_contents q s k = handle_clipboard_contents-seen p q s ∙ k
  handle_kind-seen PacketKind.clipboard_contents_none q s k =
      handle_clipboard_contents_none-seen q s ∙ k
  handle_kind-seen PacketKind.clipboard_enable_selections q s k =
      handle_clipboard_enable_selections-seen p q s ∙ k
  handle_kind-seen PacketKind.clipboard_status q s k = handle_clipboard_status-seen p q s ∙ k
  handle_kind-seen PacketKind.window_create q s k = handle_new_window-seen p q _ s ∙ k
  handle_kind-seen PacketKind.new_override_redirect q s k = handle_new_window-seen p q _ s ∙ k
  handle_kind-seen PacketKind.window_destroy q s k = handle_lost_window-seen q s ∙ k
  handle_kind-seen PacketKind.window_move_resize q s k = handle_move_resize-seen q s ∙ k
  handle_kind-seen PacketKind.window_metadata q s k = handle_metadata-seen p q s ∙ k
  handle_kind-seen PacketKind.window_raise q s k = handle_raise_window-seen q s ∙ k
  handle_kind-seen PacketKind.window_bell q s k = handle_bell-seen q s ∙ k
  handle_kind-seen PacketKind.window_icon q s k = handle_window_icon-seen p q s ∙ k
  handle_kind-seen PacketKind.window_draw q s k = handle_draw-seen p q s ∙ k
  handle_kind-seen PacketKind.ping q s k = handle_ping-seen p.compatible q s ∙ k
  handle_kind-seen PacketKind.closing q s k = k
  handle_kind-seen PacketKind.ignored q s k = k

  handle_ui_event-seen :
      (e : Event) (s : Session)
      → s.challenge_seen ≡ true
      → (handle_ui_event p e s).challenge_seen ≡ true
  unfolding handle_ui_event handle_close_request handle_motion
  handle_ui_event-seen (Event.configure id x y width height) s k =
      handle_configure-seen p id _ s ∙ k
  handle_ui_event-seen (Event.minimized id now) s k = handle_minimized-seen p id now s ∙ k
  handle_ui_event-seen (Event.close_request id) s k = send_known-seen id _ s ∙ k
  handle_ui_event-seen Event.exit_request s k = k
  handle_ui_event-seen (Event.motion id x y) s k = send_known-seen id _ s ∙ k
  handle_ui_event-seen (Event.button id button pressed x y) s k =
      handle_button-seen p id button pressed x y s ∙ k
  handle_ui_event-seen (Event.key id pressed name keysym text keycode modifiers) s k =
      handle_key-seen id pressed name keysym text keycode modifiers s ∙ k
  handle_ui_event-seen (Event.focus id) s k = handle_focus-seen id s ∙ k
  handle_ui_event-seen (Event.focus_lost id) s k = handle_focus_lost-seen id s ∙ k
  handle_ui_event-seen (Event.clipboard_change text) s k = handle_clipboard_change-seen p text s ∙ k

  pub Step-seen : (s t : Session) → Step p h s t → s.challenge_seen ≡ true → t.challenge_seen ≡ true
  unfolding handle_packet
  Step-seen s t (packet q) k = handle_kind-seen (kind_of p.compatible q) q s k
  Step-seen s t (event e) k = handle_ui_event-seen e s k
  Step-seen s t (focus_lost_due n e) k = send_focus_lost-seen s ∙ k
  Step-seen s t (iconify_due front back wid e) k =
      send_iconified-seen wid (record s { iconify_timers = front ++ back }) ∙ k
  Step-seen s t (ping_tick now e) k = k
  Step-seen s t (asked reason) k = disconnect-seen reason s ∙ k
  Step-seen s t (disconnecting reason e) k = k
  Step-seen s t (area_written a contents e l) k = k
