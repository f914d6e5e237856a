-- ===== src/Client/Image.antt =====
-- client/image.go: the decoded pixels of a damage rectangle, a cursor and an icon. The decoders of
-- the image formats are arguments.
pub mod Laws
pub mod Alpha
use go_xpra.Prelude.{
  ℕ, zero, suc, ◌+◌, ◌*◌, ◌/◌, ◌%◌, Bool, true, false, not, ◌||◌, ◌&&◌, List, [], ◌∷◌, ◌++◌, Option,
  none, some, ltb, if◌then◌else◌,
}
use go_xpra.Prelude.Int.{ℤ, pos, negsuc, pos_part, leb_ℤ, ltb_ℤ, eqb_ℤ, ◌+ℤ◌, ◌-ℤ◌, min_ℤ, max_ℤ}
use go_xpra.Prelude.Bytes.{Bytes, bytes_eq, codes}
use go_xpra.Prelude.Result.{Result, ok, err, ◌>>=◌}
use go_xpra.Ui.Image.{Cursor, Icon}

abbrev pub max_image_dimension : ℤ
max_image_dimension = pos 16384

abbrev pub max_decoded_image_bytes : ℕ
max_decoded_image_bytes = 268435456

abbrev pub max_cursor_dimension : ℤ
max_cursor_dimension = pos 1024

abbrev pub max_window_icon_dimension : ℤ
max_window_icon_dimension = pos 1024

pub data Format : Type 0 where
  jpeg png webp : Format

-- A colour as `RGBA` gives it: alpha-premultiplied, 16 bits each.
pub record Rgba : Type 0 where
  pub r : ℕ
  pub g : ℕ
  pub b : ℕ
  pub a : ℕ

-- A decoded image: its bounds, the colour of a point, and for the YCbCr types that webp gives the
-- samples of a point, and its alpha.
pub record Picture : Type 0 where
  pub min_x : ℤ
  pub min_y : ℤ
  pub width : ℤ
  pub height : ℤ
  pub colour : ℤ → ℤ → Rgba
  pub samples : Option (ℤ → ℤ → ℕ × ℕ × ℕ)
  pub alpha : Option (ℤ → ℤ → ℕ)

pub data DecodeError : Type 0 where
  unsupported_coding bad_header size_outside size_mismatch too_many_bytes : DecodeError
  bad_pixels bounds_mismatch : DecodeError

-- The formats of the codings.
unfoldable pub format_of : Bytes → Option Format
format_of coding =
    if bytes_eq coding (codes "jpeg")
    then some jpeg
    else if bytes_eq coding (codes "png")
        || bytes_eq coding (codes "png/P")
        || bytes_eq coding (codes "png/L")
    then some png
    else if bytes_eq coding (codes "webp")
    then some webp
    else none

-- `x >> 8` of the product.
unfoldable pub mult_hi : ℕ → ℕ → ℕ
mult_hi value coefficient = value * coefficient / 256

unfoldable pub clip : ℤ → ℕ
clip (negsuc n) = 0
clip (pos n) = if ltb 255 (n / 64) then 255 else n / 64

unfoldable pub webp_ycbcr_to_rgb : ℕ → ℕ → ℕ → ℕ × ℕ × ℕ
webp_ycbcr_to_rgb y cb cr = (
  clip (pos (mult_hi y 19077) +ℤ pos (mult_hi cr 26149) -ℤ pos 14234),
  clip (pos (mult_hi y 19077) -ℤ pos (mult_hi cb 6419) -ℤ pos (mult_hi cr 13320) +ℤ pos 8708),
  clip (pos (mult_hi y 19077) +ℤ pos (mult_hi cb 33050) -ℤ pos 17685),
)

-- `byte(c >> 8)`.
unfoldable pub high_byte : ℕ → ℕ
high_byte c = c / 256 % 256

unfoldable pub scaled : Option ℕ → ℕ → ℕ
scaled none c = c
scaled (some a) c = c * a / 255 % 256

unfoldable pub sampled_pixel : ℕ × ℕ × ℕ → Option ℕ → Bytes
sampled_pixel (y, cb, cr) a =
    let (r, g, b) = webp_ycbcr_to_rgb y cb cr in scaled a b ∷ scaled a g ∷ scaled a r ∷ 255 ∷ []

unfoldable pub opaque_pixel : Rgba → Bytes
opaque_pixel c = high_byte c.b ∷ high_byte c.g ∷ high_byte c.r ∷ 255 ∷ []

unfoldable pub alpha_pixel : Rgba → Bytes
alpha_pixel c = high_byte c.b ∷ high_byte c.g ∷ high_byte c.r ∷ high_byte c.a ∷ []

abbrev pub at_point {ℓ} : {A : Type ℓ} → Option (ℤ → ℤ → A) → ℤ → ℤ → Option A
at_point none x y = none
at_point (some f) x y = some (f x y)

-- The samples are looked at only for webp.
unfoldable pub bgrx_pixel : Format → Picture → ℕ → ℕ → Bytes
bgrx_pixel webp image x y =
    let px = image.min_x +ℤ pos x in
    let py = image.min_y +ℤ pos y in
    elim (at_point image.samples px py) [
      | some s ↦ sampled_pixel s (at_point image.alpha px py)
      | none ↦ opaque_pixel (image.colour px py)
    ]
bgrx_pixel _ image x y = opaque_pixel (image.colour (image.min_x +ℤ pos x) (image.min_y +ℤ pos y))

unfoldable pub bgra_pixel : Picture → ℕ → ℕ → Bytes
bgra_pixel image x y = alpha_pixel (image.colour (image.min_x +ℤ pos x) (image.min_y +ℤ pos y))

-- The loops write the pixels one behind the other: `count` of them from `x` on, and `count` rows
-- from `y` on.
unfoldable pub row_pixels : (ℕ → Bytes) → ℕ → ℕ → Bytes
row_pixels pixel zero x = []
row_pixels pixel (suc count) x = pixel x ++ row_pixels pixel count (x + 1)

unfoldable pub all_pixels : (ℕ → ℕ → Bytes) → ℕ → ℕ → ℕ → Bytes
all_pixels pixel width zero y = []
all_pixels pixel width (suc count) y =
    row_pixels (λ x. pixel x y) width 0 ++ all_pixels pixel width count (y + 1)

unfoldable pub outside_limit : ℤ → ℤ × ℤ → Bool
outside_limit limit (width, height) =
    leb_ℤ width (pos 0) || leb_ℤ height (pos 0) || ltb_ℤ limit width || ltb_ℤ limit height

unfoldable pub differs : ℤ × ℤ → ℤ × ℤ → Bool
differs (w, h) (width, height) = not (eqb_ℤ w width && eqb_ℤ h height)

module _ (config : Format → Bytes → Option (ℤ × ℤ)) (decode : Format → Bytes → Option Picture) where
  -- The second half of `decodeImage`: the pixels and their row stride.
  unfoldable pub draw_picture : Format → ℤ → ℤ → Option Picture → Result DecodeError (Bytes × ℤ)
  draw_picture f width height none = err bad_pixels
  draw_picture f width height (some image) =
      if differs (image.width, image.height) (width, height)
      then err bounds_mismatch
      else ok (
        all_pixels (bgrx_pixel f image) (pos_part width) (pos_part height) 0,
        pos (pos_part width * 4),
      )

  unfoldable pub decode_sized :
      Format → Bytes → ℤ → ℤ → Option (ℤ × ℤ) → Result DecodeError (Bytes × ℤ)
  decode_sized f area width height none = err bad_header
  decode_sized f area width height (some size) =
      if outside_limit max_image_dimension size
      then err size_outside
      else if differs size (width, height)
      then err size_mismatch
      else if ltb max_decoded_image_bytes (pos_part width * pos_part height * 4)
      then err too_many_bytes
      else draw_picture f width height (decode f area)

  unfoldable pub decode_image : Bytes → Bytes → ℤ → ℤ → Result DecodeError (Bytes × ℤ)
  decode_image coding area width height = elim (format_of coding) [
    | none ↦ err unsupported_coding
    | some f ↦ decode_sized f area width height (config f area)
  ]

  unfoldable pub alpha_picture : ℤ × ℤ → Option Picture → Result DecodeError (Bytes × ℤ × ℤ)
  alpha_picture size none = err bad_pixels
  alpha_picture (width, height) (some image) =
      if differs (image.width, image.height) (width, height)
      then err bounds_mismatch
      else ok (all_pixels (bgra_pixel image) (pos_part width) (pos_part height) 0, width, height)

  unfoldable pub alpha_sized :
      Bytes → ℤ × ℤ → ℤ → Option (ℤ × ℤ) → Result DecodeError (Bytes × ℤ × ℤ)
  alpha_sized area expected limit none = err bad_header
  alpha_sized area expected limit (some size) =
      if outside_limit limit size
      then err size_outside
      else if not (eqb_ℤ expected.0 (pos 0)) && differs size expected
      then err size_mismatch
      else alpha_picture size (decode png area)

  unfoldable pub decode_alpha_png : Bytes → ℤ × ℤ → ℤ → Result DecodeError (Bytes × ℤ × ℤ)
  decode_alpha_png area expected limit = alpha_sized area expected limit (config png area)

  unfoldable pub decode_cursor_png : Bytes → Result DecodeError Cursor
  decode_cursor_png area = decode_alpha_png area (pos 0, pos 0) max_cursor_dimension >>= λ r.
      ok (record { pixels = r.0; width = r.1; height = r.2; hotspot_x = pos 0; hotspot_y = pos 0 })

  unfoldable pub decode_window_icon_png : Bytes → ℤ → ℤ → Result DecodeError Icon
  decode_window_icon_png area width height =
      decode_alpha_png area (width, height) max_window_icon_dimension >>= λ r.
      ok (record { pixels = r.0; width = width; height = height })

-- `applyCursorPNG` moves a hotspot into the cursor.
unfoldable pub clamp_hotspot : ℤ → ℤ → ℤ
clamp_hotspot h size = min_ℤ (max_ℤ h (pos 0)) (size -ℤ pos 1)

unfoldable pub with_hotspot : ℤ → ℤ → Cursor → Cursor
with_hotspot x y c = record c {
  hotspot_x = clamp_hotspot x c.width;
  hotspot_y = clamp_hotspot y c.height;
}
