-- ===== src/Client/Image/Alpha.antt =====
-- client/image.go: cursors and icons, and what `applyCursorPNG` of client/client.go makes of a
-- hotspot.
use go_xpra.Prelude.{
  ℕ, ◌*◌, ◌≡◌, refl, ap, sym, subst, ◌∙◌, not, ◌&&◌, Option, none, some, length, if◌then◌else◌,
  arith, inl, inr, false, ==_iff,
}
use go_xpra.Prelude.Int.{
  ℤ, pos, pos_part, eqb_ℤ, leb_ℤ, ltb_ℤ, ◌-ℤ◌, -ℤ_parts, max_ℤ, min_ℤ-cases, max_ℤ-cases, ◌≤ℤ◌,
  ◌<ℤ◌,
}
use go_xpra.Prelude.Bytes.{Bytes}
use go_xpra.Prelude.Result.{ok, err, if-ok, >>=-eq-ok}
use go_xpra.Client.Image.{
  Format, png, Picture, all_pixels, bgra_pixel, alpha_pixel, outside_limit, differs, size_outside,
  size_mismatch, bounds_mismatch, alpha_picture, alpha_sized, decode_alpha_png, decode_cursor_png,
  clamp_hotspot, with_hotspot, max_cursor_dimension,
}
use go_xpra.Ui.Image.{Cursor, validate_cursor, check_image}
use go_xpra.Client.Image.Laws.{within_limit, length-all_pixels}

length-bgra_pixel : (image : Picture) (x y : ℕ) → length (bgra_pixel image x y) ≡ 4
unfolding bgra_pixel alpha_pixel
length-bgra_pixel image x y = refl

area_comm : (w h : ℕ) → h * (w * 4) ≡ w * h * 4
area_comm w h = grind arith

-- The size is within the limit and the pixels are tightly packed.
unfoldable pub Fits : ℤ → Bytes × ℤ × ℤ → Type 0
Fits limit (pixels, width, height) =
    (pos 1 ≤ℤ width)
    × (pos 1 ≤ℤ height)
    × (width ≤ℤ limit)
    × (height ≤ℤ limit)
    × (length pixels ≡ pos_part width * pos_part height * 4)

module _ (config : Format → Bytes → Option (ℤ × ℤ)) (decode : Format → Bytes → Option Picture) where
  alpha_picture_lem :
      (size : ℤ × ℤ) (found : Option Picture) (pixels : Bytes) (w h : ℤ)
      → alpha_picture config decode size found ≡ ok (pixels, w, h)
      → (length pixels ≡ pos_part w * pos_part h * 4) × (w ≡ size.0) × (h ≡ size.1)
  unfolding alpha_picture
  alpha_picture_lem size none pixels w h e = cc
  alpha_picture_lem (width, height) (some image) pixels w h e =
      let all = all_pixels (bgra_pixel image) (pos_part width) (pos_part height) 0 in
      let got : Bytes × ℤ × ℤ = (all, width, height) in
      let (_, q) =
        if-ok (differs (image.width, image.height) (width, height)) bounds_mismatch (ok got) e in
      let r : got ≡ (pixels, w, h) = cc in
      let rw' : width ≡ w = ap (λ t. t.1) r in
      let rh : height ≡ h = ap (λ t. t.2) r in
      (
        ap (λ t. length t.0) (sym r)
            ∙ length-all_pixels (bgra_pixel image) (length-bgra_pixel image) (pos_part width)
                (pos_part height) 0
            ∙ area_comm (pos_part width) (pos_part height)
            ∙ cc (rw', rh),
        sym rw',
        sym rh,
      )

  alpha_sized-Fits :
      (area : Bytes) (expected : ℤ × ℤ) (limit : ℤ) (size : Option (ℤ × ℤ)) (pixels : Bytes)
      (w h : ℤ)
      → alpha_sized config decode area expected limit size ≡ ok (pixels, w, h)
      → Fits limit (pixels, w, h)
  unfolding alpha_sized Fits
  alpha_sized-Fits area expected limit none pixels w h e = cc
  alpha_sized-Fits area expected limit (some size) pixels w h e =
      let made = alpha_picture config decode size (decode png area) in
      let wrong = not (eqb_ℤ expected.0 (pos 0)) && differs size expected in
      let (near, e1) =
        if-ok (outside_limit limit size) size_outside (if wrong then err size_mismatch else made)
          e in
      let (_, e2) = if-ok wrong size_mismatch made e1 in
      let (full, p, q) = alpha_picture_lem size (decode png area) pixels w h e2 in
      let (w1, h1, w2, h2) = within_limit limit size near in
      (
        subst (λ z. pos 1 ≤ℤ z) (sym p) w1,
        subst (λ z. pos 1 ≤ℤ z) (sym q) h1,
        subst (λ z. z ≤ℤ limit) (sym p) w2,
        subst (λ z. z ≤ℤ limit) (sym q) h2,
        full,
      )

  pub decode_alpha_png-Fits :
      (area : Bytes) (expected : ℤ × ℤ) (limit : ℤ) (pixels : Bytes) (w h : ℤ)
      → decode_alpha_png config decode area expected limit ≡ ok (pixels, w, h)
      → Fits limit (pixels, w, h)
  unfolding decode_alpha_png
  decode_alpha_png-Fits area expected limit pixels w h e =
      alpha_sized-Fits area expected limit (config png area) pixels w h e

  cursor_size :
      (area : Bytes) (cursor : Cursor)
      → decode_cursor_png config decode area ≡ ok cursor
      → Fits max_cursor_dimension (cursor.pixels, cursor.width, cursor.height)
  unfolding decode_cursor_png
  cursor_size area cursor e =
      let (r, q, k) =
        >>=-eq-ok (decode_alpha_png config decode area (pos 0, pos 0) max_cursor_dimension)
          (λ r. ok (record {
            pixels = r.0;
            width = r.1;
            height = r.2;
            hotspot_x = pos 0;
            hotspot_y = pos 0;
          }))
          e in
      let made : Cursor = record {
        pixels = r.0;
        width = r.1;
        height = r.2;
        hotspot_x = pos 0;
        hotspot_y = pos 0;
      } in
      let same : made ≡ cursor = cc in
      subst (λ (c : Cursor). Fits max_cursor_dimension (c.pixels, c.width, c.height)) same
        (decode_alpha_png-Fits area (pos 0, pos 0) max_cursor_dimension r.0 r.1 r.2 q)

clamp_hotspot-Inside :
    (h size : ℤ) → pos 1 ≤ℤ size → (pos 0 ≤ℤ clamp_hotspot h size) × (clamp_hotspot h size <ℤ size)
unfolding clamp_hotspot
clamp_hotspot-Inside h size p =
    let low : pos 0 ≤ℤ max_ℤ h (pos 0) = elim (max_ℤ-cases h (pos 0)) [
      | inl (e, q) ↦ rw e q
      | inr (e, q) ↦ rw e (omega arith)
    ] in
    elim (min_ℤ-cases (max_ℤ h (pos 0)) (size -ℤ pos 1)) [
      | inl (e, q) ↦ rw e (low, omega (arith, -ℤ_parts size (pos 1)))
      | inr (e, q) ↦
          rw e (omega (arith, -ℤ_parts size (pos 1)), omega (arith, -ℤ_parts size (pos 1)))
    ]

check_image_accepts :
    (pixels : Bytes) (width height : ℤ)
    → Fits (pos 1024) (pixels, width, height)
    → check_image pixels width height ≡ none
unfolding check_image Fits
check_image_accepts pixels width height (w1, h1, w2, h2, full) =
    let a : leb_ℤ width (pos 0) ≡ false = ground arith in
    let b : leb_ℤ height (pos 0) ≡ false = ground arith in
    let c : ltb_ℤ (pos 0xffff) width ≡ false = ground arith in
    let d : ltb_ℤ (pos 0xffff) height ≡ false = ground arith in
    rw (a, b, c, d, (==_iff (length pixels) (pos_part width * pos_part height * 4)).1 full) refl

module _ (config : Format → Bytes → Option (ℤ × ℤ)) (decode : Format → Bytes → Option Picture) where
  -- A cursor that decodes, with whatever hotspot the packet names moved into it, passes the check
  -- that the backends make.
  pub validate_cursor-decode_cursor_png :
      (area : Bytes) (cursor : Cursor) (x y : ℤ)
      → decode_cursor_png config decode area ≡ ok cursor
      → validate_cursor (with_hotspot x y cursor) ≡ none
  unfolding validate_cursor with_hotspot Fits
  validate_cursor-decode_cursor_png area cursor x y e =
      let f = cursor_size config decode area cursor e in
      let (x1, x2) = clamp_hotspot-Inside x cursor.width f.0 in
      let (y1, y2) = clamp_hotspot-Inside y cursor.height f.1 in
      let a : ltb_ℤ (clamp_hotspot x cursor.width) (pos 0) ≡ false = ground arith in
      let b : leb_ℤ cursor.width (clamp_hotspot x cursor.width) ≡ false = ground arith in
      let c : ltb_ℤ (clamp_hotspot y cursor.height) (pos 0) ≡ false = ground arith in
      let d : leb_ℤ cursor.height (clamp_hotspot y cursor.height) ≡ false = ground arith in
      rw
        (
          check_image_accepts cursor.pixels cursor.width cursor.height f,
          a,
          b,
          c,
          d,
          validate_cursor,
        )
        refl
