-- ===== src/Client/Local.antt =====
-- client/client.go and client/input.go: what the local desktop reports, and the packets for the
-- server.
pub mod Keeps
pub mod Iconify
use go_xpra.Prelude.{
  ℕ, suc, ◌-◌, Bool, true, false, ◌||◌, ◌&&◌, not, List, [], ◌∷◌, Option, none, some, if◌then◌else◌,
}
use go_xpra.Prelude.Int.{ℤ, pos, negsuc, eqb_ℤ, leb_ℤ}
use go_xpra.Prelude.Bytes.{Bytes, codes}
use go_xpra.Prelude.Table.{lookup, insert, int_key, nat_key}
use go_xpra.Rencode.Value.{Value, Entries, no_values, item, no_entries, entry, set}
use go_xpra.Ui.Monitor.{Rectangle}
use go_xpra.Client.Monitor.{window_monitor_descriptor, pointer_properties}
use go_xpra.Client.State.{
  Action, resized, Platform, Windows, Session, act, send, with_table, or_default,
}
use go_xpra.Client.Windows.{map_packet}

-- `lookup`: the number and the window of a local identifier.
unfoldable pub resolve_in : Windows → ℕ → Option (ℤ × ℕ)
resolve_in t id = elim (lookup t.by_local id) [
  | none ↦ none
  | some wid ↦ elim (lookup t.windows wid) [ none ↦ none | some window ↦ some (wid, window) ]
]

unfoldable pub resolve : Session → ℕ → Option (ℤ × ℕ)
resolve s id = resolve_in s.table id

unfoldable pub same_area : Rectangle → Rectangle → Bool
same_area a b = eqb_ℤ a.x b.x && eqb_ℤ a.y b.y && eqb_ℤ a.width b.width && eqb_ℤ a.height b.height

unfoldable pub configure_packet : Session → ℤ → Rectangle → List Value
configure_packet s wid r =
    let config =
      entry (codes "geometry")
        (Value.list (
          item (Value.int r.x) (
            item (Value.int r.y) (item (Value.int r.width) (item (Value.int r.height) no_values)))))
        no_entries in
    Value.text (codes "window-configure")
    ∷ Value.int wid
    ∷ Value.dict (elim (window_monitor_descriptor s.monitors r.x r.y) [
      | none ↦ config
      | some monitor ↦ set (codes "monitor") (Value.dict monitor) config
    ])
    ∷ []

module _ (p : Platform) where
  -- Resized that fails is only reported.
  unfoldable pub configured : ℤ → ℕ → Rectangle → Session → Session
  configured wid window r s =
      if same_area r (p.geometry s.log window)
      then s
      else if p.fails (resized window r ∷ s.log)
      then act (resized window r) s
      else send (configure_packet s wid r) (act (resized window r) s)

  unfoldable pub handle_configure : ℕ → Rectangle → Session → Session
  handle_configure id r s = elim (resolve s id) [
    | none ↦ s
    | some (wid, window) ↦ configured wid window r s
  ]

unfoldable pub set_iconified : ℤ → Bool → Session → Session
set_iconified wid now s =
    with_table (record s.table { iconified = insert wid now s.table.iconified }) s

-- The server asked for just this.
unfoldable pub as_asked : ℤ → Bool → Session → Bool
as_asked wid now s = elim (lookup s.table.server_iconic wid) [
  | none ↦ false
  | some expected ↦ if now then expected else not expected
]

unfoldable pub is_iconified : ℤ → Session → Bool
is_iconified wid s = or_default false (lookup s.table.iconified wid)

module _ (p : Platform) where
  -- Minimizing is reported later, restoring at once.
  unfoldable pub report_minimized : ℤ → ℕ → Bool → Session → Session
  report_minimized wid window true s = record s { iconify_timers = wid ∷ s.iconify_timers }
  report_minimized wid window false s = send (map_packet s wid (p.geometry s.log window)) s

  unfoldable pub minimized_known : ℤ → ℕ → Bool → Session → Session
  minimized_known wid window now s =
      let t = set_iconified wid now s in
      if (if is_iconified wid s then now else not now)
      then s
      else if as_asked wid now t
      then t
      else report_minimized wid window now t

  unfoldable pub handle_minimized : ℕ → Bool → Session → Session
  handle_minimized id now s = elim (resolve s id) [
    | none ↦ s
    | some (wid, window) ↦ minimized_known wid window now s
  ]

unfoldable pub unmap_packet : ℤ → List Value
unmap_packet wid =
    Value.text (codes "window-unmap")
    ∷ Value.int wid
    ∷ Value.bool true
    ∷ Value.dict (entry (codes "iconified") (Value.bool true) no_entries)
    ∷ []

unfoldable pub send_iconified : ℤ → Session → Session
send_iconified wid s =
    if not (is_iconified wid s) || or_default false (lookup s.table.server_iconic wid)
    then s
    else send (unmap_packet wid) s

-- An event of a window that is known sends one packet.
unfoldable pub send_known : ℕ → (ℤ → List Value) → Session → Session
send_known id packet s = elim (resolve s id) [ none ↦ s | some (wid, window) ↦ send (packet wid) s ]

unfoldable pub handle_close_request : ℕ → Session → Session
handle_close_request id s =
    send_known id (λ wid. Value.text (codes "window-close") ∷ Value.int wid ∷ []) s

unfoldable pub position : ℤ → ℤ → Value
position x y = Value.list (item (Value.int x) (item (Value.int y) no_values))

abbrev pub device_id : ℤ
device_id = negsuc 0

unfoldable pub handle_motion : ℕ → ℤ → ℤ → Session → Session
handle_motion id x y s =
    send_known id
      (λ wid.
        Value.text (codes "pointer-motion")
        ∷ Value.int device_id
        ∷ Value.int (pos 0)
        ∷ Value.int wid
        ∷ position x y
        ∷ Value.dict (pointer_properties s.monitors x y)
        ∷ [])
      s

unfoldable pub is_wheel : ℤ → Bool
is_wheel button = leb_ℤ (pos 4) button && leb_ℤ button (pos 7)

-- A notch down or to the right is negative.
unfoldable pub wheel_distance : ℤ → ℤ
wheel_distance button =
    if eqb_ℤ button (pos 5) || eqb_ℤ button (pos 7) then negsuc 999 else pos 1000

unfoldable pub wheel_packet : Bool → Session → ℤ → ℤ → ℤ → ℤ → List Value
wheel_packet compatible s button x y wid =
    Value.text (if compatible then codes "wheel-motion" else codes "pointer-wheel")
    ∷ Value.int wid
    ∷ Value.int button
    ∷ Value.int (wheel_distance button)
    ∷ position x y
    ∷ Value.texts []
    ∷ Value.ints []
    ∷ Value.dict (pointer_properties s.monitors x y)
    ∷ []

unfoldable pub button_packet : Session → ℤ → Bool → ℤ → ℤ → ℤ → List Value
button_packet s button pressed x y wid =
    Value.text (codes "pointer-button")
    ∷ Value.int device_id
    ∷ Value.int (pos 0)
    ∷ Value.int wid
    ∷ Value.int button
    ∷ Value.bool pressed
    ∷ position x y
    ∷ Value.dict (pointer_properties s.monitors x y)
    ∷ []

module _ (p : Platform) where
  unfoldable pub handle_button : ℕ → ℤ → Bool → ℤ → ℤ → Session → Session
  handle_button id button pressed x y s =
      if is_wheel button
      then if pressed then send_known id (wheel_packet p.compatible s button x y) s else s
      else send_known id (button_packet s button pressed x y) s
