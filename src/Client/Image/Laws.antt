-- ===== src/Client/Image/Laws.antt =====
-- client/image.go: sizes and pixels of decoded images.
use go_xpra.Prelude.{
  ℕ, zero, suc, ◌+◌, ◌*◌, ◌<◌, ◌≤◌, ◌≡◌, refl, ap, subst, sym, ◌∙◌, Bool, true, false, ◌++◌, Option,
  none, some, ltb, length, take, drop, if◌then◌else◌, arith, length-append, take-append,
  drop-append_add, append_assoc, or-false, ltb→le, inl, inr, Option-cases, not, ◌&&◌,
}
use go_xpra.Prelude.Int.{ℤ, pos, pos_part, ltb_ℤ, leb_ℤ, eqb_ℤ, ◌≤ℤ◌, ltb_ℤ→le, ◌+ℤ◌}
use go_xpra.Prelude.Bytes.{Bytes}
use go_xpra.Prelude.Result.{Result, ok, err, if-ok}
use go_xpra.Prelude.Table.{int_key}
use go_xpra.Client.Image.{
  max_image_dimension, max_decoded_image_bytes, Format, jpeg, png, webp, Picture, DecodeError,
  row_pixels, all_pixels, bgrx_pixel, opaque_pixel, sampled_pixel, at_point, outside_limit, differs,
  draw_picture, decode_sized, decode_image, format_of, unsupported_coding, size_outside,
  size_mismatch, too_many_bytes, bounds_mismatch,
}

-- Pixels of four bytes each.
module _ (pixel : ℕ → ℕ → Bytes) (four : (x y : ℕ) → length (pixel x y) ≡ 4) where
  length-row_pixels : (y count x : ℕ) → length (row_pixels (λ i. pixel i y) count x) ≡ count * 4
  unfolding row_pixels
  length-row_pixels y zero x = refl
  length-row_pixels y (suc count) x = omega (
    arith,
    length-append (pixel x y) (row_pixels (λ i. pixel i y) count (x + 1)),
    four x y,
    length-row_pixels y count (x + 1),
  )

  pub length-all_pixels :
      (width count y : ℕ) → length (all_pixels pixel width count y) ≡ count * (width * 4)
  unfolding all_pixels
  length-all_pixels width zero y = omega arith
  length-all_pixels width (suc count) y = grind (
    arith,
    length-append (row_pixels (λ i. pixel i y) width 0) (all_pixels pixel width count (y + 1)),
    length-row_pixels y width 0,
    length-all_pixels width count (y + 1),
  )

  pixel-row_pixels :
      (y count x i : ℕ) (rest : Bytes)
      → i < count
      → take 4 (drop (i * 4) (row_pixels (λ j. pixel j y) count x ++ rest)) ≡ pixel (x + i) y
  unfolding row_pixels
  pixel-row_pixels y zero x i rest h = absurd (omega arith)
  pixel-row_pixels y (suc count) x zero rest h =
      let r = row_pixels (λ j. pixel j y) count (x + 1) in
      ap (take 4) (append_assoc (pixel x y) r rest)
      ∙ ap (λ n. take n (pixel x y ++ (r ++ rest))) (sym (four x y))
      ∙ take-append (pixel x y) (r ++ rest)
      ∙ ap (λ n. pixel n y) (omega arith)
  pixel-row_pixels y (suc count) x (suc i) rest h =
      let r = row_pixels (λ j. pixel j y) count (x + 1) in
      ap (λ l. take 4 (drop (suc i * 4) l)) (append_assoc (pixel x y) r rest)
      ∙ ap (take 4)
          (drop-append_add (pixel x y) (r ++ rest) (suc i * 4) (i * 4) (omega (arith, four x y)))
      ∙ pixel-row_pixels y count (x + 1) i rest (omega arith)
      ∙ ap (λ n. pixel n y) (omega arith)

  -- The pixel of column `x` and row `y + j`.
  pub pixel-all_pixels :
      (width count y x j : ℕ)
      → x < width
      → j < count
      → take 4 (drop (j * (width * 4) + x * 4) (all_pixels pixel width count y)) ≡ pixel x (y + j)
  unfolding all_pixels
  pixel-all_pixels width zero y x j h k = absurd (omega arith)
  pixel-all_pixels width (suc count) y x zero h k =
      let rest = all_pixels pixel width count (y + 1) in
      ap (λ n. take 4 (drop n (row_pixels (λ i. pixel i y) width 0 ++ rest))) (grind arith)
      ∙ pixel-row_pixels y width 0 x rest h
      ∙ ap (λ n. pixel n y) (omega arith)
      ∙ ap (pixel x) (omega arith)
  pixel-all_pixels width (suc count) y x (suc j) h k =
      let rest = all_pixels pixel width count (y + 1) in
      ap (take 4) (
        drop-append_add (row_pixels (λ i. pixel i y) width 0) rest (suc j * (width * 4) + x * 4)
          (j * (width * 4) + x * 4) (grind (arith, length-row_pixels y width 0)))
      ∙ pixel-all_pixels width count (y + 1) x j h (omega arith)
      ∙ ap (pixel x) (omega arith)

length-bgrx_pixel : (f : Format) (image : Picture) (x y : ℕ) → length (bgrx_pixel f image x y) ≡ 4
unfolding bgrx_pixel opaque_pixel sampled_pixel
length-bgrx_pixel jpeg image x y = refl
length-bgrx_pixel png image x y = refl
length-bgrx_pixel webp image x y =
    elim (Option-cases (at_point image.samples (image.min_x +ℤ pos x) (image.min_y +ℤ pos y))) [
      | inl e ↦ rw (e, bgrx_pixel, length) refl
      | inr (s, e) ↦ rw (e, bgrx_pixel, length) refl
    ]

pub within_limit :
    (limit : ℤ) (size : ℤ × ℤ)
    → outside_limit limit size ≡ false
    → (pos 1 ≤ℤ size.0) × (pos 1 ≤ℤ size.1) × (size.0 ≤ℤ limit) × (size.1 ≤ℤ limit)
unfolding outside_limit
within_limit limit (width, height) e =
    let (a, b, c, d) =
      or-false (leb_ℤ width (pos 0)) (leb_ℤ height (pos 0)) (ltb_ℤ limit width) (ltb_ℤ limit height)
        e in
    (ground arith, ground arith, ltb_ℤ→le limit width c, ltb_ℤ→le limit height d)

-- What a decoded damage rectangle is: within the limits, tightly packed, of the size that the draw
-- packet names, and with the pixels of the picture in their places.
unfoldable pub IsDrawn : Picture → Format → ℤ → ℤ → Bytes → ℤ → Type 0
IsDrawn image f width height pixels rowstride =
    (w h : ℕ) × (width ≡ pos w)
    × (height ≡ pos h)
    × (1 ≤ w)
    × (1 ≤ h)
    × (w ≤ 16384)
    × (h ≤ 16384)
    × (w * h * 4 ≤ max_decoded_image_bytes)
    × (rowstride ≡ pos (w * 4))
    × (length pixels ≡ h * (w * 4))
    × ((x y : ℕ)
        → x < w
        → y < h
        → take 4 (drop (y * (w * 4) + x * 4) pixels) ≡ bgrx_pixel f image x y)

pub same_size : (size expected : ℤ × ℤ) → differs size expected ≡ false → size ≡ expected
unfolding differs
same_size (w, h) (width, height) e =
    let (p, q) = both (eqb_ℤ w width) (eqb_ℤ h height) e in
    cc ((int_key.same_iff w width).0 p, (int_key.same_iff h height).0 q)
  where
    both : (a b : Bool) → not (a && b) ≡ false → (a ≡ true) × (b ≡ true)
    both true true e = (refl, refl)
    both true false e = cc
    both false b e = cc

module _ (config : Format → Bytes → Option (ℤ × ℤ)) (decode : Format → Bytes → Option Picture) where
  draw_picture_lem :
      (f : Format) (width height : ℤ) (found : Option Picture) (pixels : Bytes) (rowstride : ℤ)
      → draw_picture config decode f width height found ≡ ok (pixels, rowstride)
      → (image : Picture) × (found ≡ some image)
        × (rowstride ≡ pos (pos_part width * 4))
        × (pixels ≡ all_pixels (bgrx_pixel f image) (pos_part width) (pos_part height) 0)
  unfolding draw_picture
  draw_picture_lem f width height none pixels rowstride e = cc
  draw_picture_lem f width height (some image) pixels rowstride e =
      let got : Bytes × ℤ = (
        all_pixels (bgrx_pixel f image) (pos_part width) (pos_part height) 0,
        pos (pos_part width * 4),
      ) in
      let (_, q) =
        if-ok (differs (image.width, image.height) (width, height)) bounds_mismatch (ok got) e in
      let r : got ≡ (pixels, rowstride) = cc in
      (image, refl, ap (λ t. t.1) (sym r), ap (λ t. t.0) (sym r))

  decode_sized_lem :
      (f : Format) (area : Bytes) (width height : ℤ) (size : Option (ℤ × ℤ)) (pixels : Bytes)
      (rowstride : ℤ)
      → decode_sized config decode f area width height size ≡ ok (pixels, rowstride)
      → (image : Picture) × (decode f area ≡ some image)
        × IsDrawn image f width height pixels rowstride
  unfolding decode_sized IsDrawn
  decode_sized_lem f area width height none pixels rowstride e = cc
  decode_sized_lem f area width height (some size) pixels rowstride e =
      let w = pos_part width in
      let h = pos_part height in
      let draw = draw_picture config decode f width height (decode f area) in
      let fits = if ltb max_decoded_image_bytes (w * h * 4) then err too_many_bytes else draw in
      let (near, e1) =
        if-ok (outside_limit max_image_dimension size) size_outside
          (if differs size (width, height) then err size_mismatch else fits) e in
      let (same, e2) = if-ok (differs size (width, height)) size_mismatch fits e1 in
      let (small, e3) = if-ok (ltb max_decoded_image_bytes (w * h * 4)) too_many_bytes draw e2 in
      let (image, found, stride, drawn) =
        draw_picture_lem f width height (decode f area) pixels rowstride e3 in
      let q = same_size size (width, height) same in
      let (w1, h1, w2, h2) : (pos 1 ≤ℤ width)
          × (pos 1 ≤ℤ height)
          × (width ≤ℤ max_image_dimension)
          × (height ≤ℤ max_image_dimension) =
        subst
          (λ t.
            (pos 1 ≤ℤ t.0)
            × (pos 1 ≤ℤ t.1)
            × (t.0 ≤ℤ max_image_dimension)
            × (t.1 ≤ℤ max_image_dimension))
          q (within_limit max_image_dimension size near) in
      (
        image,
        found,
        (
          w,
          h,
          ground arith,
          ground arith,
          ground arith,
          ground arith,
          ground arith,
          ground arith,
          ltb→le max_decoded_image_bytes (w * h * 4) small,
          stride,
          ap length drawn
              ∙ length-all_pixels (bgrx_pixel f image) (length-bgrx_pixel f image) w h 0,
          λ x y p r.
              ap (λ l. take 4 (drop (y * (w * 4) + x * 4) l)) drawn
              ∙ pixel-all_pixels (bgrx_pixel f image) (length-bgrx_pixel f image) w h 0 x y p r
              ∙ ap (bgrx_pixel f image x) (omega arith),
        ),
      )

  -- A damage rectangle that decodes has the sizes that its draw packet names, within the limits, is
  -- tightly packed, and holds the picture's pixels in their places.
  pub decode_image_lem :
      (coding area : Bytes) (width height : ℤ) (pixels : Bytes) (rowstride : ℤ)
      → decode_image config decode coding area width height ≡ ok (pixels, rowstride)
      → (f : Format) × (format_of coding ≡ some f)
        × ((image : Picture) × (decode f area ≡ some image)
            × IsDrawn image f width height pixels rowstride)
  unfolding decode_image
  decode_image_lem coding area width height pixels rowstride e =
      elim (Option-cases (format_of coding)) [
        | inl q ↦
            let failed : Result DecodeError (Bytes × ℤ) = err unsupported_coding in
            let bad : failed ≡ ok (pixels, rowstride) = rw (q, decode_image) at e in absurd cc
        | inr (f, q) ↦ (
          f,
          q,
          decode_sized_lem f area width height (config f area) pixels rowstride
              (rw (q, decode_image) at e),
        )
      ]
