-- ===== src/Ui/Geometry.antt =====
-- ui/pixels.go: window sizes and damage rectangles. Go's int is ℤ here: the values are far inside
-- int64.
use go_xpra.Prelude.{
  ◌≡◌, ◌↔◌, refl, true, false, ◌||◌, Option, none, some, if◌then◌else◌, arith, Bool-cases, ◌⊎◌, inl,
  inr,
}
use go_xpra.Prelude.Int.{
  ℤ, pos, ltb_ℤ, leb_ℤ, ◌-ℤ◌, ◌+ℤ◌, ◌≤ℤ◌, ◌<ℤ◌, min_ℤ, max_ℤ, min_ℤ-cases, max_ℤ-cases, -ℤ_parts,
  int_laws, ltb_ℤ→lt, ltb_ℤ→le,
}

-- `none` is the error for a negative origin.
unfoldable pub clip_damage : ℤ → ℤ → ℤ → ℤ → ℤ → ℤ → Option (ℤ × ℤ)
clip_damage x y width height win_width win_height =
    if ltb_ℤ x (pos 0) || ltb_ℤ y (pos 0)
    then none
    else if leb_ℤ win_width x || leb_ℤ win_height y
    then some (pos 0, pos 0)
    else some (
      max_ℤ (min_ℤ width (win_width -ℤ x)) (pos 0),
      max_ℤ (min_ℤ height (win_height -ℤ y)) (pos 0),
    )

unfoldable pub clamp_size : ℤ → ℤ → ℤ × ℤ
clamp_size width height =
    (min_ℤ (max_ℤ width (pos 1)) (pos 0xffff), min_ℤ (max_ℤ height (pos 1)) (pos 0xffff))

-- A point lies in a rectangle: left and top edges included, right and bottom excluded.
abbrev pub Inside : (px py x y width height : ℤ) → Type 0
Inside px py x y width height = (x ≤ℤ px) × (px <ℤ x +ℤ width) × (y ≤ℤ py) × (py <ℤ y +ℤ height)

-- One dimension of a clipped rectangle.
abbrev clipped : ℤ → ℤ → ℤ → ℤ
clipped x width win = max_ℤ (min_ℤ width (win -ℤ x)) (pos 0)

clipped-cases :
    (x width win : ℤ)
    → x <ℤ win
    → ((clipped x width win ≡ width) × (pos 0 ≤ℤ width) × (width ≤ℤ win -ℤ x))
      ⊎ ((clipped x width win ≡ win -ℤ x) × (win -ℤ x ≤ℤ width))
      ⊎ ((clipped x width win ≡ pos 0) × (width ≤ℤ pos 0))
clipped-cases x width win h = elim (min_ℤ-cases width (win -ℤ x)) [
  | inl (e, le) ↦ rw e (elim (max_ℤ-cases width (pos 0)) [
    | inl (e', le') ↦ rw e' (inl (refl, le', le))
    | inr (e', le') ↦ rw e' (inr (inr (refl, le')))
  ])
  | inr (e, le) ↦ rw e (elim (max_ℤ-cases (win -ℤ x) (pos 0)) [
    | inl (e', le') ↦ rw e' (inr (inl (refl, le)))
    | inr (e', le') ↦ absurd (omega (arith, -ℤ_parts win x))
  ])
]

clip_one :
    (p x width win : ℤ)
    → x <ℤ win
    → ((x ≤ℤ p) × (p <ℤ x +ℤ clipped x width win)) ↔ ((x ≤ℤ p) × (p <ℤ x +ℤ width) × (p <ℤ win))
clip_one p x width win hw = elim (clipped-cases x width win hw) [
  | inl (e, a, b) ↦ rw e (λ h. omega int_laws, λ h. omega int_laws)
  | inr (inl (e, a)) ↦ rw e (λ h. omega int_laws, λ h. omega int_laws)
  | inr (inr (e, a)) ↦ rw e (λ h. omega int_laws, λ h. omega int_laws)
]

-- Where the origin is right of or below the window, damage and window share no point.
clip_miss :
    (px py x y width height win_width win_height : ℤ)
    → (win_width ≤ℤ x) ⊎ (win_height ≤ℤ y)
    → Inside px py x y (pos 0) (pos 0)
      ↔ (Inside px py x y width height × (px <ℤ win_width) × (py <ℤ win_height))
clip_miss px py x y width height win_width win_height (inl h) =
    (λ i. absurd (omega int_laws), λ i. absurd (omega int_laws))
clip_miss px py x y width height win_width win_height (inr h) =
    (λ i. absurd (omega int_laws), λ i. absurd (omega int_laws))

clip_hit :
    (px py x y width height win_width win_height : ℤ)
    → x <ℤ win_width
    → y <ℤ win_height
    → Inside px py x y (clipped x width win_width) (clipped y height win_height)
      ↔ (Inside px py x y width height × (px <ℤ win_width) × (py <ℤ win_height))
clip_hit px py x y width height win_width win_height hx hy =
    let cx = clip_one px x width win_width hx in
    let cy = clip_one py y height win_height hy in
    (
      λ i.
          let (a, b, c) = cx.0 (i.0, i.1) in
          let (a', b', c') = cy.0 (i.2, i.3) in ((a, b, a', b'), c, c'),
      λ i.
          let (a, b) = cx.1 (i.0.0, i.0.1, i.1) in
          let (a', b') = cy.1 (i.0.2, i.0.3, i.2) in (a, b, a', b'),
    )

-- The size that a clipped rectangle has covers exactly the points of the damage that lie in the
-- window, which starts at 0,0.
abbrev pub Clips : (x y width height win_width win_height : ℤ) → ℤ × ℤ → Type 0
Clips x y width height win_width win_height size =
    (px py : ℤ)
    → Inside px py x y size.0 size.1
      ↔ (Inside px py x y width height × (px <ℤ win_width) × (py <ℤ win_height))

-- `ClipDamage` fails exactly for a negative origin; otherwise the rectangle of the size that it
-- reports, at the same origin, consists of the points of the damage that lie in the window.
pub clip_damage_lem :
    (x y width height win_width win_height : ℤ)
    → ((clip_damage x y width height win_width win_height ≡ none) × ((x <ℤ pos 0) ⊎ (y <ℤ pos 0)))
      ⊎ ((size : ℤ × ℤ) × (clip_damage x y width height win_width win_height ≡ some size)
          × (pos 0 ≤ℤ x)
          × (pos 0 ≤ℤ y)
          × Clips x y width height win_width win_height size)
unfolding clip_damage
clip_damage_lem x y width height win_width win_height = elim (Bool-cases (ltb_ℤ x (pos 0))) [
  | inl e ↦ rw e (inl (refl, inl (ltb_ℤ→lt x (pos 0) e)))
  | inr e ↦ rw e (elim (Bool-cases (ltb_ℤ y (pos 0))) [
    | inl e' ↦ rw e' (inl (refl, inr (ltb_ℤ→lt y (pos 0) e')))
    | inr e' ↦ rw e' (inr (placed (ltb_ℤ→le x (pos 0) e) (ltb_ℤ→le y (pos 0) e')))
  ])
]
  where
    right : (leb_ℤ win_width x ≡ true) → win_width ≤ℤ x
    right h = ground arith

    left : (leb_ℤ win_width x ≡ false) → x <ℤ win_width
    left h = ground arith

    below : (leb_ℤ win_height y ≡ true) → win_height ≤ℤ y
    below h = ground arith

    above : (leb_ℤ win_height y ≡ false) → y <ℤ win_height
    above h = ground arith

    placed :
        pos 0 ≤ℤ x
        → pos 0 ≤ℤ y
        → (size : ℤ × ℤ) × ((if leb_ℤ win_width x || leb_ℤ win_height y
              then some (pos 0, pos 0)
              else some (clipped x width win_width, clipped y height win_height))
            ≡ some size)
          × (pos 0 ≤ℤ x)
          × (pos 0 ≤ℤ y)
          × Clips x y width height win_width win_height size
    placed hx hy = elim (Bool-cases (leb_ℤ win_width x)) [
      | inl e ↦ rw e (
        (pos 0, pos 0),
        refl,
        hx,
        hy,
        λ px py. clip_miss px py x y width height win_width win_height (inl (right e)),
      )
      | inr e ↦ rw e (elim (Bool-cases (leb_ℤ win_height y)) [
        | inl e' ↦ rw e' (
          (pos 0, pos 0),
          refl,
          hx,
          hy,
          λ px py. clip_miss px py x y width height win_width win_height (inr (below e')),
        )
        | inr e' ↦ rw e' (
          (clipped x width win_width, clipped y height win_height),
          refl,
          hx,
          hy,
          λ px py. clip_hit px py x y width height win_width win_height (left e) (above e'),
        )
      ])
    ]

clamp_one : (n : ℤ) → ℤ
clamp_one n = min_ℤ (max_ℤ n (pos 1)) (pos 0xffff)

-- A clamped dimension is within 1 to 65535, and one that is there already stays.
clamp_one_lem :
    (n : ℤ)
    → (pos 1 ≤ℤ clamp_one n)
      × (clamp_one n ≤ℤ pos 0xffff)
      × (pos 1 ≤ℤ n → n ≤ℤ pos 0xffff → clamp_one n ≡ n)
unfolding clamp_one
clamp_one_lem n = elim (max_ℤ-cases n (pos 1)) [
  | inl (e, le) ↦ rw e (elim (min_ℤ-cases n (pos 0xffff)) [
    | inl (e', le') ↦ rw e' (le, le', λ a b. refl)
    | inr (e', le') ↦ rw e' (omega arith, omega arith, λ a b. omega int_laws)
  ])
  | inr (e, le) ↦ rw e (elim (min_ℤ-cases (pos 1) (pos 0xffff)) [
    | inl (e', le') ↦ rw e' (omega arith, omega arith, λ a b. omega int_laws)
    | inr (e', le') ↦ absurd (omega arith)
  ])
]

-- Whatever size is asked for, the clamped one has both dimensions within 1 to 65535, and a size
-- that is in this range is not changed.
pub clamp_size_bounds :
    (width height : ℤ)
    → (pos 1 ≤ℤ (clamp_size width height).0)
      × ((clamp_size width height).0 ≤ℤ pos 0xffff)
      × (pos 1 ≤ℤ (clamp_size width height).1)
      × ((clamp_size width height).1 ≤ℤ pos 0xffff)
      × (pos 1 ≤ℤ width
          → width ≤ℤ pos 0xffff
          → pos 1 ≤ℤ height
          → height ≤ℤ pos 0xffff
          → clamp_size width height ≡ (width, height))
unfolding clamp_size clamp_one
clamp_size_bounds width height =
    let (a, b, c) = clamp_one_lem width in
    let (a', b', c') = clamp_one_lem height in
    (a, b, a', b', λ h k h' k'. λ i. (c h k i, c' h' k' i))
