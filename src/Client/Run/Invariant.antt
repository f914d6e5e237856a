-- ===== src/Client/Run/Invariant.antt =====
-- client/client.go: what every case of the run loop keeps.
use go_xpra.Prelude.{refl, true, false, [], ◌++◌}
use go_xpra.Prelude.Table.{int_key, nat_key}
use go_xpra.Protocol.Packet.{Packet}
use go_xpra.Ui.Event.{Event}
use go_xpra.Client.State.{Platform, Session}
use go_xpra.Client.Windows.Linked.{live}
use go_xpra.Client.Windows.Keeps.{Linked, Fresh, handle_new_window-Linked}
use go_xpra.Client.Windows.Packets.{
  handle_lost_window-Linked, handle_move_resize-Linked, handle_raise_window-Linked,
  handle_bell-Linked, handle_show_desktop-Linked, handle_metadata-Linked, handle_window_icon-Linked,
}
use go_xpra.Client.Windows.Frame.{
  handle_new_window-clip, handle_lost_window-clip, handle_move_resize-clip, handle_metadata-clip,
  handle_raise_window-clip, handle_bell-clip, handle_show_desktop-clip, handle_window_icon-clip,
}
use go_xpra.Client.Local.Keeps.{
  send_known-Linked, handle_configure-Linked, handle_minimized-Linked, send_iconified-Linked,
  handle_button-Linked, handle_key-Linked,
}
use go_xpra.Client.Local.{handle_close_request, handle_motion}
use go_xpra.Client.Focus.Laws.{
  handle_focus-Linked, handle_focus_lost-Linked, send_focus_lost-Linked,
}
use go_xpra.Client.Clipboard.Kept.{Kept}
use go_xpra.Client.Clipboard.Rounds.{
  handle_clipboard_token-Kept, handle_clipboard_data-Kept, handle_clipboard_contents-Kept,
}
use go_xpra.Client.Clipboard.Switches.{
  handle_clipboard_contents_none-Kept, handle_clipboard_enable_selections-Kept,
  handle_clipboard_status-Kept,
}
use go_xpra.Client.Clipboard.Direction.{handle_clipboard_change-Kept}
use go_xpra.Client.Control.{disconnect_packet, handle_cursor_default}
use go_xpra.Client.Dispatch.{PacketKind, kind_of, handle_kind, handle_packet, handle_ui_event}
use go_xpra.Client.Hello.{Host}
use go_xpra.Client.Hello.Display.{send_hello, greeted, hello_packet}
use go_xpra.Client.Run.{
  Step, Reach, packet, event, focus_lost_due, iconify_due, ping_tick, asked, disconnecting,
  area_written, begun, next, ping_packet,
}
use go_xpra.Client.Run.Quiet.{
  handle_clipboard_change-Quiet, handle_clipboard_token-Quiet, handle_clipboard_data-Quiet,
  handle_clipboard_contents-Quiet, handle_clipboard_contents_none-Quiet,
  handle_clipboard_request-Quiet, handle_clipboard_enable_selections-Quiet,
  handle_clipboard_status-Quiet,
}
use go_xpra.Client.Run.Frame.{
  handle_draw-clip, handle_configure-clip, handle_minimized-clip, send_iconified-clip,
  send_known-clip, handle_button-clip, handle_key-clip, handle_focus-clip, handle_focus_lost-clip,
  send_focus_lost-clip,
}
use go_xpra.Client.Run.Control.{
  handle_hello-Quiet, handle_hello-Kept, handle_challenge-Quiet, handle_ping-Quiet,
  handle_cursor-Quiet, handle_cursor_data-Quiet, handle_draw-Quiet,
}
use go_xpra.Client.Run.Sound.{
  IsSound, Quiet-IsSound, framed-IsSound, still-IsSound, default-Quiet, disconnect-Quiet,
  empty-IsLinked, empty-IsKept, request-clip, said_goodbye,
}

module _ (p : Platform) (h : Host) (fresh : Fresh p) where
  handle_kind-IsSound :
      (kind : PacketKind) (q : Packet) (s : Session)
      → IsSound s
      → IsSound (handle_kind p h kind q s)
  unfolding handle_kind handle_cursor_default
  handle_kind-IsSound PacketKind.hello q s k =
      Quiet-IsSound s _ (handle_hello-Quiet p q s) (handle_hello-Kept p q s k.1) k
  handle_kind-IsSound PacketKind.challenge q s k =
      let (quiet, same) = handle_challenge-Quiet p h q s in still-IsSound s _ quiet same k
  handle_kind-IsSound PacketKind.show_desktop q s k =
      framed-IsSound s _ (handle_show_desktop-Linked q s k.0) (handle_show_desktop-clip q s) k
  handle_kind-IsSound PacketKind.cursor q s k =
      let (quiet, same) = handle_cursor-Quiet p q s in still-IsSound s _ quiet same k
  handle_kind-IsSound PacketKind.cursor_data q s k =
      let (quiet, same) = handle_cursor_data-Quiet p q s in still-IsSound s _ quiet same k
  handle_kind-IsSound PacketKind.cursor_default q s k = still-IsSound s _ (default-Quiet s) refl k
  handle_kind-IsSound PacketKind.clipboard_data q s k =
      Quiet-IsSound s _ (handle_clipboard_data-Quiet p q s) (handle_clipboard_data-Kept p q s k.1) k
  handle_kind-IsSound PacketKind.clipboard_token q s k =
      Quiet-IsSound s _ (handle_clipboard_token-Quiet p q s) (handle_clipboard_token-Kept p q s k.1)
        k
  handle_kind-IsSound PacketKind.clipboard_request q s k =
      still-IsSound s _ (handle_clipboard_request-Quiet q s) (request-clip q s) k
  handle_kind-IsSound PacketKind.clipboard_contents q s k =
      Quiet-IsSound s _ (handle_clipboard_contents-Quiet p q s)
        (handle_clipboard_contents-Kept p q s k.1) k
  handle_kind-IsSound PacketKind.clipboard_contents_none q s k =
      Quiet-IsSound s _ (handle_clipboard_contents_none-Quiet q s)
        (handle_clipboard_contents_none-Kept q s k.1) k
  handle_kind-IsSound PacketKind.clipboard_enable_selections q s k =
      Quiet-IsSound s _ (handle_clipboard_enable_selections-Quiet p q s)
        (handle_clipboard_enable_selections-Kept p q s k.1) k
  handle_kind-IsSound PacketKind.clipboard_status q s k =
      Quiet-IsSound s _ (handle_clipboard_status-Quiet p q s)
        (handle_clipboard_status-Kept p q s k.1) k
  handle_kind-IsSound PacketKind.window_create q s k =
      framed-IsSound s _ (handle_new_window-Linked p q false s fresh k.0)
        (handle_new_window-clip p q false s) k
  handle_kind-IsSound PacketKind.new_override_redirect q s k =
      framed-IsSound s _ (handle_new_window-Linked p q true s fresh k.0)
        (handle_new_window-clip p q true s) k
  handle_kind-IsSound PacketKind.window_destroy q s k =
      framed-IsSound s _ (handle_lost_window-Linked q s k.0) (handle_lost_window-clip q s) k
  handle_kind-IsSound PacketKind.window_move_resize q s k =
      framed-IsSound s _ (handle_move_resize-Linked q s k.0) (handle_move_resize-clip q s) k
  handle_kind-IsSound PacketKind.window_metadata q s k =
      framed-IsSound s _ (handle_metadata-Linked p q s k.0) (handle_metadata-clip p q s) k
  handle_kind-IsSound PacketKind.window_raise q s k =
      framed-IsSound s _ (handle_raise_window-Linked q s k.0) (handle_raise_window-clip q s) k
  handle_kind-IsSound PacketKind.window_bell q s k =
      framed-IsSound s _ (handle_bell-Linked q s k.0) (handle_bell-clip q s) k
  handle_kind-IsSound PacketKind.window_icon q s k =
      framed-IsSound s _ (handle_window_icon-Linked p q s k.0) (handle_window_icon-clip p q s) k
  handle_kind-IsSound PacketKind.window_draw q s k =
      still-IsSound s _ (handle_draw-Quiet p q s) (handle_draw-clip p q s) k
  handle_kind-IsSound PacketKind.ping q s k =
      let (quiet, same) = handle_ping-Quiet p.compatible q s in still-IsSound s _ quiet same k
  handle_kind-IsSound PacketKind.closing q s k = still-IsSound s _ (refl, λ u. refl) refl k
  handle_kind-IsSound PacketKind.ignored q s k = k

  handle_ui_event-IsSound : (e : Event) (s : Session) → IsSound s → IsSound (handle_ui_event p e s)
  unfolding handle_ui_event handle_close_request handle_motion
  handle_ui_event-IsSound (Event.configure id x y width height) s k =
      framed-IsSound s _ (handle_configure-Linked p id _ s k.0) (handle_configure-clip p id _ s) k
  handle_ui_event-IsSound (Event.minimized id now) s k =
      framed-IsSound s _ (handle_minimized-Linked p id now s k.0) (handle_minimized-clip p id now s)
        k
  handle_ui_event-IsSound (Event.close_request id) s k =
      framed-IsSound s _ (send_known-Linked id _ s k.0) (send_known-clip id _ s) k
  handle_ui_event-IsSound Event.exit_request s k = still-IsSound s _ (said_goodbye s _) refl k
  handle_ui_event-IsSound (Event.motion id x y) s k =
      framed-IsSound s _ (send_known-Linked id _ s k.0) (send_known-clip id _ s) k
  handle_ui_event-IsSound (Event.button id button pressed x y) s k =
      framed-IsSound s _ (handle_button-Linked p id button pressed x y s k.0)
        (handle_button-clip p id button pressed x y s) k
  handle_ui_event-IsSound (Event.key id pressed name keysym text keycode modifiers) s k =
      framed-IsSound s _ (handle_key-Linked id pressed name keysym text keycode modifiers s k.0)
        (handle_key-clip id pressed name keysym text keycode modifiers s) k
  handle_ui_event-IsSound (Event.focus id) s k =
      framed-IsSound s _ (handle_focus-Linked id s k.0) (handle_focus-clip id s) k
  handle_ui_event-IsSound (Event.focus_lost id) s k =
      framed-IsSound s _ (handle_focus_lost-Linked id s k.0) (handle_focus_lost-clip id s) k
  handle_ui_event-IsSound (Event.clipboard_change text) s k =
      Quiet-IsSound s _ (handle_clipboard_change-Quiet p text s)
        (handle_clipboard_change-Kept p text s k.1) k

  Step-IsSound : (s t : Session) → Step p h s t → IsSound s → IsSound t
  unfolding handle_packet live Linked
  Step-IsSound s t (packet q) k = handle_kind-IsSound (kind_of p.compatible q) q s k
  Step-IsSound s t (event e) k = handle_ui_event-IsSound e s k
  Step-IsSound s t (focus_lost_due n e) k =
      framed-IsSound s _ (send_focus_lost-Linked s k.0) (send_focus_lost-clip s) k
  Step-IsSound s t (iconify_due front back wid e) k =
      let waiting : Session = record s { iconify_timers = front ++ back } in
      framed-IsSound s _ (send_iconified-Linked wid waiting k.0) (send_iconified-clip wid waiting) k
  Step-IsSound s t (ping_tick now e) k = still-IsSound s _ (said_goodbye s (ping_packet now)) refl k
  Step-IsSound s t (asked reason) k =
      still-IsSound s _ (disconnect-Quiet reason s).0 (disconnect-Quiet reason s).1 k
  Step-IsSound s t (disconnecting reason e) k =
      still-IsSound s _ (said_goodbye s (disconnect_packet p.compatible reason)) refl k
  Step-IsSound s t (area_written a contents e l) k = still-IsSound s _ (refl, λ u. refl) refl k

  -- Whatever the server, the desktop and the timers do, in any order: the table of the windows and
  -- that of their local identifiers are inverse, the windows in them are exactly those that were
  -- created and not yet destroyed, whatever is remembered by a window's number is about one of them,
  -- clipboard text is valid UTF-8 within its limit, and pending clipboard requests are current.
  -- The backend is only asked never to give out the identifier of a window that exists.
  pub reach-IsSound : (s : Session) → Reach p h s → IsSound s
  unfolding send_hello greeted Linked Kept
  reach-IsSound s (begun clipboard username password area) =
      (empty-IsLinked (hello_packet p h [] [] _), empty-IsKept clipboard)
  reach-IsSound t (next s after r q) = Step-IsSound s after q (reach-IsSound s r)
