-- ===== src/Client/Monitor.antt =====
-- client/monitor.go: which monitor a position is reported against.
pub mod Laws
mod Tests
use go_xpra.Prelude.{
  ℕ, zero, suc, ◌+◌, ◌≡◌, refl, ap, ◌∙◌, Bool, true, false, ◌&&◌, List, [], ◌∷◌, ◌++◌, Option, none,
  some, get_elem?, take, All, if◌then◌else◌, arith, Bool-cases, Option-cases, inl, inr, ◌⊎◌,
}
use go_xpra.Prelude.Int.{
  ℤ, pos, ltb_ℤ, leb_ℤ, ◌+ℤ◌, ◌-ℤ◌, ◌≤ℤ◌, ◌<ℤ◌, int_laws, eq_of_parts, +ℤ_parts, -ℤ_parts,
}
use go_xpra.Prelude.Bytes.{Bytes, codes}
use go_xpra.Rencode.Value.{Value, Values, Entries, no_values, item, no_entries, entry, set}
use go_xpra.Ui.Monitor.{Rectangle, Monitor, valid}
use go_xpra.Ui.Geometry.{Inside}

unfoldable pub usable_monitors : List Monitor → List Monitor
usable_monitors [] = []
usable_monitors (m ∷ ms) =
    let rest = usable_monitors ms in if valid m.geometry then m ∷ rest else rest

-- The sums are of int64s, and their terms far inside it.
unfoldable pub contains : Rectangle → ℤ → ℤ → Bool
contains g x y = leb_ℤ g.x x && ltb_ℤ x (g.x +ℤ g.width) && leb_ℤ g.y y && ltb_ℤ y (g.y +ℤ g.height)

-- The loop over the monitors, from number `index` on.
unfoldable pub relative_from : ℕ → List Monitor → ℤ → ℤ → Option (ℕ × ℤ × ℤ)
relative_from index [] x y = none
relative_from index (m ∷ ms) x y =
    let later = relative_from (index + 1) ms x y in
    if contains m.geometry x y then some (index, x -ℤ m.geometry.x, y -ℤ m.geometry.y) else later

unfoldable pub monitor_relative_position : List Monitor → ℤ → ℤ → Option (ℕ × ℤ × ℤ)
monitor_relative_position = relative_from 0

unfoldable pub monitor_descriptor : ℕ → ℤ → ℤ → Monitor → Entries
monitor_descriptor index x y m = entry (codes "index") (Value.int (pos index)) (
    entry (codes "position")
      (Value.list
        (item (Value.int (x -ℤ m.geometry.x)) (item (Value.int (y -ℤ m.geometry.y)) no_values)))
      no_entries)

-- An index outside the slice, where Go panics, gives `none` as well.
unfoldable pub point_monitor_descriptor : List Monitor → ℤ → ℤ → Option Entries
point_monitor_descriptor ms x y = elim (monitor_relative_position ms x y) [
  | none ↦ none
  | some (index, relative_x, relative_y) ↦ elim (get_elem? ms index) [
    | none ↦ none
    | some m ↦ some (monitor_descriptor index x y m)
  ]
]

unfoldable pub fallback_descriptor : List Monitor → ℤ → ℤ → Option Entries
fallback_descriptor [] x y = none
fallback_descriptor (m ∷ ms) x y = some (monitor_descriptor 0 x y m)

unfoldable pub window_monitor_descriptor : List Monitor → ℤ → ℤ → Option Entries
window_monitor_descriptor ms x y = elim (point_monitor_descriptor ms x y) [
  | some d ↦ some d
  | none ↦ fallback_descriptor ms x y
]

unfoldable pub pointer_properties : List Monitor → ℤ → ℤ → Entries
pointer_properties ms x y = elim (point_monitor_descriptor ms x y) [
  | none ↦ no_entries
  | some d ↦ set (codes "monitor") (Value.dict d) no_entries
]
