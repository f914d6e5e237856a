-- ===== src/Client/Monitor/Laws.antt =====
-- client/monitor.go: the descriptors, and the points that they stand for.
use go_xpra.Prelude.{
  ℕ, suc, ◌+◌, ◌≡◌, refl, ap, ◌∙◌, true, false, List, [], ◌∷◌, Option, none, some, get_elem?, take,
  All, arith, Bool-cases, inl, inr, ◌⊎◌,
}
use go_xpra.Prelude.Int.{ℤ, pos, ◌+ℤ◌, ◌-ℤ◌, eq_of_parts, +ℤ_parts, -ℤ_parts}
use go_xpra.Prelude.Bytes.{codes}
use go_xpra.Rencode.Value.{Value, Entries, no_values, item, no_entries, entry, set}
use go_xpra.Ui.Monitor.{Monitor, valid}
use go_xpra.Ui.Geometry.{Inside}
use go_xpra.Client.Monitor.{
  usable_monitors, contains, relative_from, monitor_relative_position, monitor_descriptor,
  point_monitor_descriptor, fallback_descriptor, window_monitor_descriptor, pointer_properties,
}

-- A monitor shows a point.
abbrev pub Shows : ℤ → ℤ → Monitor → Type 0
Shows x y m = Inside x y m.geometry.x m.geometry.y m.geometry.width m.geometry.height

contains→Shows : (m : Monitor) (x y : ℤ) → contains m.geometry x y ≡ true → Shows x y m
unfolding contains
contains→Shows m x y h = (ground arith, ground arith, ground arith, ground arith)

missed : (m : Monitor) (x y : ℤ) → contains m.geometry x y ≡ false → ¬ (Shows x y m)
unfolding contains
missed m x y h s = ground arith

-- What the loop finds from number `index` on.
abbrev Found : ℕ → List Monitor → ℤ → ℤ → Option (ℕ × ℤ × ℤ) → Type 0
Found index ms x y r =
    ((r ≡ none) × All (λ m. ¬ (Shows x y m)) ms)
    ⊎ ((i : ℕ) × (m : Monitor) × (get_elem? ms i ≡ some m)
        × (r ≡ some (index + i, x -ℤ m.geometry.x, y -ℤ m.geometry.y))
        × Shows x y m
        × All (λ m. ¬ (Shows x y m)) (take i ms))

index_zero : (index : ℕ) → index ≡ index + 0
index_zero index = omega arith

zero_index : (i : ℕ) → 0 + i ≡ i
zero_index i = omega arith

index_suc : (index i : ℕ) → index + 1 + i ≡ index + suc i
index_suc index i = omega arith

relative_from-Found :
    (index : ℕ) (ms : List Monitor) (x y : ℤ) → Found index ms x y (relative_from index ms x y)
unfolding relative_from
relative_from-Found index [] x y = inl (refl, tt)
relative_from-Found index (m ∷ ms) x y = elim (Bool-cases (contains m.geometry x y)) [
  | inl e ↦ rw e (
      inr (
        0,
        m,
        refl,
        ap (λ k. some (k, x -ℤ m.geometry.x, y -ℤ m.geometry.y)) (index_zero index),
        contains→Shows m x y e,
        tt,
      ))
  | inr e ↦ rw e (elim (relative_from-Found (index + 1) ms x y) [
    | inl (n, none_shows) ↦ inl (n, (missed m x y e, none_shows))
    | inr (i, m', at, r, shows, before) ↦ inr (
      suc i,
      m',
      at,
      r ∙ ap (λ k. some (k, x -ℤ m'.geometry.x, y -ℤ m'.geometry.y)) (index_suc index i),
      shows,
      (missed m x y e, before),
    )
  ])
]

-- The position of a point is reported against the first monitor that shows it, from that monitor's
-- origin, and none is reported only if no monitor shows the point.
pub monitor_relative_position_lem :
    (ms : List Monitor) (x y : ℤ)
    → ((monitor_relative_position ms x y ≡ none) × All (λ m. ¬ (Shows x y m)) ms)
      ⊎ ((i : ℕ) × (m : Monitor) × (get_elem? ms i ≡ some m)
          × (monitor_relative_position ms x y ≡ some (i, x -ℤ m.geometry.x, y -ℤ m.geometry.y))
          × Shows x y m
          × All (λ m. ¬ (Shows x y m)) (take i ms))
unfolding monitor_relative_position
monitor_relative_position_lem ms x y = elim (relative_from-Found 0 ms x y) [
  | inl h ↦ inl h
  | inr (i, m, e, r, shows, before) ↦ inr (
    i,
    m,
    e,
    r ∙ ap (λ k. some (k, x -ℤ m.geometry.x, y -ℤ m.geometry.y)) (zero_index i),
    shows,
    before,
  )
]

-- A descriptor names a monitor and an offset that together are the point.
abbrev pub Locates : List Monitor → ℤ → ℤ → Entries → Type 0
Locates ms x y d =
    (i : ℕ) × (m : Monitor) × (dx dy : ℤ) × (get_elem? ms i ≡ some m)
    × (d
        ≡ entry (codes "index") (Value.int (pos i)) (
            entry (codes "position")
              (Value.list (item (Value.int dx) (item (Value.int dy) no_values))) no_entries))
    × (m.geometry.x +ℤ dx ≡ x)
    × (m.geometry.y +ℤ dy ≡ y)

add_sub : (a b : ℤ) → a +ℤ (b -ℤ a) ≡ b
add_sub a b = eq_of_parts (a +ℤ (b -ℤ a)) b (omega (arith, +ℤ_parts a (b -ℤ a), -ℤ_parts b a))

monitor_descriptor-Locates :
    (ms : List Monitor) (i : ℕ) (m : Monitor) (x y : ℤ)
    → get_elem? ms i ≡ some m
    → Locates ms x y (monitor_descriptor i x y m)
unfolding monitor_descriptor
monitor_descriptor-Locates ms i m x y e = (
  i,
  m,
  x -ℤ m.geometry.x,
  y -ℤ m.geometry.y,
  e,
  refl,
  add_sub m.geometry.x x,
  add_sub m.geometry.y y,
)

point_found :
    (ms : List Monitor) (x y : ℤ) (i : ℕ) (m : Monitor)
    → get_elem? ms i ≡ some m
    → monitor_relative_position ms x y ≡ some (i, x -ℤ m.geometry.x, y -ℤ m.geometry.y)
    → point_monitor_descriptor ms x y ≡ some (monitor_descriptor i x y m)
unfolding point_monitor_descriptor
point_found ms x y i m e r = rw (r, point_monitor_descriptor) (rw e refl)

point_missed :
    (ms : List Monitor) (x y : ℤ)
    → monitor_relative_position ms x y ≡ none
    → point_monitor_descriptor ms x y ≡ none
unfolding point_monitor_descriptor
point_missed ms x y r = rw (r, point_monitor_descriptor) refl

fallback-Locates :
    (ms : List Monitor) (x y : ℤ)
    → ((ms ≡ []) × (fallback_descriptor ms x y ≡ none))
      ⊎ ((d : Entries) × (fallback_descriptor ms x y ≡ some d) × Locates ms x y d)
unfolding fallback_descriptor
fallback-Locates [] x y = inl (refl, refl)
fallback-Locates (m ∷ ms) x y =
    inr (monitor_descriptor 0 x y m, refl, monitor_descriptor-Locates (m ∷ ms) 0 m x y refl)

-- Whatever monitor a window's origin is described against, the monitor's origin and the offset add
-- up to it, so that the server finds the same position; with any monitor there is a description.
pub window_monitor_descriptor-Locates :
    (ms : List Monitor) (x y : ℤ)
    → ((ms ≡ []) × (window_monitor_descriptor ms x y ≡ none))
      ⊎ ((d : Entries) × (window_monitor_descriptor ms x y ≡ some d) × Locates ms x y d)
unfolding window_monitor_descriptor
window_monitor_descriptor-Locates ms x y = elim (monitor_relative_position_lem ms x y) [
  | inl (n, none_shows) ↦
      rw (point_missed ms x y n, window_monitor_descriptor) (fallback-Locates ms x y)
  | inr (i, m, e, r, shows, before) ↦
      rw (point_found ms x y i m e r, window_monitor_descriptor)
        (inr (monitor_descriptor i x y m, refl, monitor_descriptor-Locates ms i m x y e))
]

-- The pointer's properties name a monitor exactly where one shows the pointer, and locate it there.
pub pointer_properties_lem :
    (ms : List Monitor) (x y : ℤ)
    → ((pointer_properties ms x y ≡ no_entries) × All (λ m. ¬ (Shows x y m)) ms)
      ⊎ ((d : Entries) × (pointer_properties ms x y
            ≡ entry (codes "monitor") (Value.dict d) no_entries)
          × Locates ms x y d)
unfolding pointer_properties set
pointer_properties_lem ms x y = elim (monitor_relative_position_lem ms x y) [
  | inl (n, none_shows) ↦ rw (point_missed ms x y n, pointer_properties) (inl (refl, none_shows))
  | inr (i, m, e, r, shows, before) ↦
      rw (point_found ms x y i m e r, pointer_properties)
        (inr (monitor_descriptor i x y m, refl, monitor_descriptor-Locates ms i m x y e))
]

-- The monitors that are advertised all have an extent, and monitors that all have one are
-- advertised in their order, none left out.
pub usable_monitors_lem :
    (ms : List Monitor)
    → All (λ m. valid m.geometry ≡ true) (usable_monitors ms)
      × (All (λ m. valid m.geometry ≡ true) ms → usable_monitors ms ≡ ms)
unfolding usable_monitors
usable_monitors_lem [] = (tt, λ h. refl)
usable_monitors_lem (m ∷ ms) =
    let (sound, complete) = usable_monitors_lem ms in
    elim (Bool-cases (valid m.geometry)) [
      | inl e ↦ rw e ((e, sound), λ h. ap (λ l. m ∷ l) (complete h.1))
      | inr e ↦ rw e (sound, λ h. (let no : false ≡ true = h.0 in cc))
    ]
