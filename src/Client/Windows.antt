-- ===== src/Client/Windows.antt =====
-- client/client.go: the packets that create, change and remove windows.
pub mod Linked
pub mod Keeps
pub mod Packets
pub mod Frame
use go_xpra.Prelude.{
  ℕ, Bool, true, false, ◌||◌, ◌&&◌, not, List, [], ◌∷◌, ◌++◌, Option, none, some, length, leb, ltb,
  if◌then◌else◌,
}
use go_xpra.Prelude.Int.{ℤ, pos, eqb_ℤ, leb_ℤ, ltb_ℤ, min_ℤ, max_ℤ}
use go_xpra.Prelude.Bytes.{Bytes, codes, bytes_eq}
use go_xpra.Prelude.Result.{ok, err}
use go_xpra.Prelude.Table.{Table, lookup, insert, delete, int_key, nat_key}
use go_xpra.Rencode.Value.{Value, Entries, no_entries}
use go_xpra.Protocol.Packet.{Packet, int, str, bytes, bool, dict, dict_str, dict_bool, dict_has}
use go_xpra.Ui.Monitor.{Rectangle}
use go_xpra.Client.Monitor.{window_monitor_descriptor}
use go_xpra.Client.Image.{max_window_icon_dimension, decode_window_icon_png}
use go_xpra.Client.State.{
  Action, created, refused, destroyed, mapped, raised, titled, icon_set, minimized, moved,
  state_set, bell, Platform, Windows, Session, act, send, with_table, or_default,
}

unfoldable pub dimension : Packet → ℤ → ℤ
dimension packet index = min_ℤ (max_ℤ (int packet index) (pos 1)) (pos 65535)

-- `packetWindowSize`, behind the position in the same packets.
unfoldable pub packet_area : Packet → Rectangle
packet_area packet = record {
  x = int packet (pos 2);
  y = int packet (pos 3);
  width = dimension packet (pos 4);
  height = dimension packet (pos 5);
}

-- A missing dictionary reads as an empty one.
unfoldable pub metadata_at : Packet → ℤ → Entries
metadata_at packet index = or_default no_entries (dict packet index)

unfoldable pub forget : ℤ → ℕ → Windows → Windows
forget wid window t = record {
  windows = delete wid t.windows;
  by_local = delete window t.by_local;
  iconified = delete wid t.iconified;
  server_iconic = delete wid t.server_iconic;
  focused = if eqb_ℤ t.focused wid then pos 0 else t.focused;
}

unfoldable pub forget_window : ℤ → ℕ → Session → Session
forget_window wid window s = act (destroyed window) (with_table (forget wid window s.table) s)

-- The loop over the states that the hello advertised.
unfoldable pub set_states : ℕ → Entries → List Bytes → List Action → List Action
set_states window metadata [] log = log
set_states window metadata (state ∷ states) log = set_states window metadata states (
    if dict_has metadata state
    then state_set window state (dict_bool metadata state) ∷ log
    else log)

unfoldable pub apply_iconic : ℤ → ℕ → Entries → Session → Session
apply_iconic wid window metadata s =
    let iconic = dict_bool metadata (codes "iconic") in
    if dict_has metadata (codes "iconic")
    then act (minimized window iconic)
        (with_table (record s.table { server_iconic = insert wid iconic s.table.server_iconic }) s)
    else s

module _ (p : Platform) where
  unfoldable pub apply_states : ℤ → ℕ → Entries → Session → Session
  apply_states wid window metadata s =
      let t = apply_iconic wid window metadata s in
      if p.stateful window then record t { log = set_states window metadata t.states t.log } else t

-- The packet that reports a window as shown.
unfoldable pub map_packet : Session → ℤ → Rectangle → List Value
map_packet s wid r =
    Value.text (codes "window-map")
    ∷ Value.int wid
    ∷ Value.int r.x
    ∷ Value.int r.y
    ∷ Value.int r.width
    ∷ Value.int r.height
    ∷ Value.dict no_entries
    ∷ Value.dict no_entries
    ∷ elim (window_monitor_descriptor s.monitors r.x r.y) [
      | none ↦ []
      | some monitor ↦ Value.dict monitor ∷ []
    ]

unfoldable pub known_window : ℤ → ℕ → Windows → Windows
known_window wid window t = record t {
  windows = insert wid window t.windows;
  by_local = insert window wid t.by_local;
}

-- The server shows override-redirect windows itself.
unfoldable pub report_shown : Bool → ℤ → Rectangle → Session → Session
report_shown true wid r s = s
report_shown false wid r s = send (map_packet s wid r) s

unfoldable pub forget_stale : ℤ → Session → Session
forget_stale wid s = elim (lookup s.table.windows wid) [
  | none ↦ s
  | some old ↦ forget_window wid old s
]

module _ (p : Platform) where
  -- What follows a call of NewWindow that succeeds.
  unfoldable pub show_window : ℤ → ℕ → Rectangle → Bool → Entries → Session → Session
  show_window wid window r override_redirect metadata s =
      let t = apply_states p wid window metadata (
        act (titled window (dict_str metadata (codes "title")))
          (act (created window r override_redirect) s)) in
      let shown = with_table (known_window wid window t.table) (act (mapped window) t) in
      report_shown override_redirect wid r shown

  unfoldable pub new_window : ℤ → Rectangle → Bool → Entries → Session → Session
  new_window wid r override_redirect metadata s = elim (p.new_window s.log r override_redirect) [
    | none ↦ act (refused r override_redirect) s
    | some window ↦ show_window wid window r override_redirect metadata s
  ]

  unfoldable pub handle_new_window : Packet → Bool → Session → Session
  handle_new_window packet override_redirect s =
      let wid = int packet (pos 1) in
      let metadata = metadata_at packet (pos 6) in
      new_window wid (packet_area packet)
        (override_redirect || dict_bool metadata (codes "override-redirect")) metadata
        (forget_stale wid s)

unfoldable pub handle_lost_window : Packet → Session → Session
handle_lost_window packet s = forget_stale (int packet (pos 1)) s

-- The errors of MoveResize and SetIcon are only reported.
unfoldable pub handle_move_resize : Packet → Session → Session
handle_move_resize packet s = elim (lookup s.table.windows (int packet (pos 1))) [
  | none ↦ s
  | some window ↦ act (moved window (packet_area packet)) s
]

unfoldable pub set_title : ℕ → Entries → Session → Session
set_title window metadata s =
    if dict_has metadata (codes "title")
    then act (titled window (dict_str metadata (codes "title"))) s
    else s

module _ (p : Platform) where
  unfoldable pub handle_metadata : Packet → Session → Session
  handle_metadata packet s =
      let wid = int packet (pos 1) in
      let metadata = metadata_at packet (pos 2) in
      elim (lookup s.table.windows wid) [
        | none ↦ s
        | some window ↦ apply_states p wid window metadata (set_title window metadata s)
      ]

unfoldable pub handle_raise_window : Packet → Session → Session
handle_raise_window packet s = elim (lookup s.table.windows (int packet (pos 1))) [
  | none ↦ s
  | some window ↦ act (raised window) s
]

unfoldable pub handle_bell : Packet → Session → Session
handle_bell packet s =
    act (bell (int packet (pos 3)) (int packet (pos 4)) (int packet (pos 5)) (str packet (pos 8))) s

-- `show-desktop` on every window, in the order of the table.
unfoldable pub minimize_all : Bool → Table ℤ ℕ → List Action → List Action
minimize_all show [] log = log
minimize_all show ((wid, window) ∷ t) log = minimize_all show t (minimized window show ∷ log)

unfoldable pub handle_show_desktop : Packet → Session → Session
handle_show_desktop packet s =
    let show = leb 2 (length packet) && bool packet (pos 1) in
    record s { log = minimize_all show s.table.windows s.log }

module _ (p : Platform) where
  unfoldable pub set_icon : ℕ → Bytes → ℤ → ℤ → Session → Session
  set_icon window area width height s =
      if leb_ℤ width (pos 0)
        || leb_ℤ height (pos 0)
        || ltb_ℤ max_window_icon_dimension width
        || ltb_ℤ max_window_icon_dimension height
      then s
      else elim (decode_window_icon_png p.decode_config p.decode area width height) [
        | err e ↦ s
        | ok icon ↦ act (icon_set window icon) s
      ]

  unfoldable pub handle_known_icon : Packet → ℕ → Session → Session
  handle_known_icon packet window s =
      if not (bytes_eq (str packet (pos 4)) (codes "png")) then s else elim (bytes packet (pos 5)) [
        | none ↦ s
        | some area ↦ set_icon window area (int packet (pos 2)) (int packet (pos 3)) s
      ]

  unfoldable pub handle_window_icon : Packet → Session → Session
  handle_window_icon packet s =
      if ltb (length packet) 6 then s else elim (lookup s.table.windows (int packet (pos 1))) [
        | none ↦ s
        | some window ↦ handle_known_icon packet window s
      ]
