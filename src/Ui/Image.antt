-- ===== src/Ui/Image.antt =====
-- ui/ui.go: what `Icon.Validate` and `Cursor.Validate` check. Go's int is ℤ.
use go_xpra.Prelude.{
  or-false, ℕ, ◌*◌, ◌≡◌, refl, Bool, true, false, ◌||◌, Option, none, some, ◌==◌, if◌then◌else◌,
  arith, Option-cases, List, length, inl, inr,
}
use go_xpra.Prelude.Int.{ℤ, pos, pos_part, ltb_ℤ, leb_ℤ, ◌+ℤ◌, ◌≤ℤ◌, ltb_ℤ→le}
use go_xpra.Ui.Geometry.{Inside}

pub record Cursor : Type 0 where
  pub pixels : List ℕ
  pub width : ℤ
  pub height : ℤ
  pub hotspot_x : ℤ
  pub hotspot_y : ℤ

pub record Icon : Type 0 where
  pub pixels : List ℕ
  pub width : ℤ
  pub height : ℤ

pub data ImageError : Type 0 where
  bad_size bad_pixels bad_hotspot : ImageError

-- The pixel count is compared once both dimensions are known to be positive.
unfoldable pub check_image : List ℕ → ℤ → ℤ → Option ImageError
check_image pixels width height =
    if leb_ℤ width (pos 0)
      || leb_ℤ height (pos 0)
      || ltb_ℤ (pos 0xffff) width
      || ltb_ℤ (pos 0xffff) height
    then some bad_size
    else if length pixels == pos_part width * pos_part height * 4
    then none
    else some bad_pixels

unfoldable pub validate_icon : List ℕ → ℤ → ℤ → Option ImageError
validate_icon = check_image

unfoldable pub validate_cursor : Cursor → Option ImageError
validate_cursor c = elim (check_image c.pixels c.width c.height) [
  | some e ↦ some e
  | none ↦
      if ltb_ℤ c.hotspot_x (pos 0)
        || leb_ℤ c.width c.hotspot_x
        || ltb_ℤ c.hotspot_y (pos 0)
        || leb_ℤ c.height c.hotspot_y
      then some bad_hotspot
      else none
]

if-none :
    {A : Type 0} (b : Bool) (a : A) (o : Option A)
    → ((if b then some a else o) ≡ none)
    → (b ≡ false) × (o ≡ none)
if-none true a o h = cc
if-none false a o h = (refl, h)

same_length : (m n : ℕ) → ((if m == n then none else some bad_pixels) ≡ none) → m ≡ n
same_length m n h = ground arith

check_image_lem :
    (pixels : List ℕ) (width height : ℤ)
    → check_image pixels width height ≡ none
    → (pos 1 ≤ℤ width)
      × (width ≤ℤ pos 0xffff)
      × (pos 1 ≤ℤ height)
      × (height ≤ℤ pos 0xffff)
      × (length pixels ≡ pos_part width * pos_part height * 4)
unfolding check_image
check_image_lem pixels width height h =
    let (guard, rest) =
      if-none
        (leb_ℤ width (pos 0)
          || leb_ℤ height (pos 0)
          || ltb_ℤ (pos 0xffff) width
          || ltb_ℤ (pos 0xffff) height)
        bad_size
        (if length pixels == pos_part width * pos_part height * 4 then none else some bad_pixels)
        h in
    let (w, t, w', t') =
      or-false (leb_ℤ width (pos 0)) (leb_ℤ height (pos 0)) (ltb_ℤ (pos 0xffff) width)
        (ltb_ℤ (pos 0xffff) height) guard in
    (
      ground arith,
      ltb_ℤ→le (pos 0xffff) width w',
      ground arith,
      ltb_ℤ→le (pos 0xffff) height t',
      same_length (length pixels) (pos_part width * pos_part height * 4) rest,
    )

on_pixel :
    (x y width height : ℤ)
    → ((if ltb_ℤ x (pos 0) || leb_ℤ width x || ltb_ℤ y (pos 0) || leb_ℤ height y
          then some bad_hotspot
          else none)
        ≡ none)
    → Inside x y (pos 0) (pos 0) width height
unfolding ◌+ℤ◌
on_pixel x y width height h =
    let (guard, rest) =
      if-none (ltb_ℤ x (pos 0) || leb_ℤ width x || ltb_ℤ y (pos 0) || leb_ℤ height y) bad_hotspot
        none h in
    let (l, r, t, b) =
      or-false (ltb_ℤ x (pos 0)) (leb_ℤ width x) (ltb_ℤ y (pos 0)) (leb_ℤ height y) guard in
    (ltb_ℤ→le x (pos 0) l, ground arith, ltb_ℤ→le y (pos 0) t, ground arith)

-- A cursor that passes has dimensions within 1 to 65535, four bytes for each pixel, and its hotspot
-- on one of its pixels.
pub validate_cursor_lem :
    (c : Cursor)
    → validate_cursor c ≡ none
    → (pos 1 ≤ℤ c.width)
      × (c.width ≤ℤ pos 0xffff)
      × (pos 1 ≤ℤ c.height)
      × (c.height ≤ℤ pos 0xffff)
      × (length c.pixels ≡ pos_part c.width * pos_part c.height * 4)
      × Inside c.hotspot_x c.hotspot_y (pos 0) (pos 0) c.width c.height
unfolding validate_cursor
validate_cursor_lem c h = elim (Option-cases (check_image c.pixels c.width c.height)) [
  | inl e ↦
      let (a, b, a', b', n) = check_image_lem c.pixels c.width c.height e in
      (
        a,
        b,
        a',
        b',
        n,
        on_pixel c.hotspot_x c.hotspot_y c.width c.height (rw (e, validate_cursor) at h),
      )
  | inr (r, e) ↦ (let h2 : some r ≡ none = rw (e, validate_cursor) at h in cc)
]
