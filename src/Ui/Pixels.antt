-- ===== src/Ui/Pixels.antt =====
-- ui/pixels.go: `Convert` and its row converters. The backends call it with the width and height
-- that `ClipDamage` left, which are not negative, and the stride of their own buffer; the source's
-- stride is the server's. A converter is given the row's bytes, and returns the bytes that it writes.
pub mod Rows
pub mod Convert
use go_xpra.Prelude.{
  ℕ, zero, suc, ◌+◌, ◌*◌, ◌%◌, ◌^◌, Bool, true, not, ◌&&◌, ◌||◌, leb, List, [], ◌∷◌, Option, none,
  some, length, take, drop, ltb, if◌then◌else◌,
}
use go_xpra.Prelude.Int.{ℤ, pos, pos_part, ltb_ℤ}
use go_xpra.Prelude.Bytes.{Bytes, codes, bytes_eq, overwrite}
use go_xpra.Prelude.Result.{Result, ok, err}

abbrev pub bytes_per_pixel : ℕ
bytes_per_pixel = 4

abbrev pub Converter : Type 0
Converter = Bytes → Bytes

abbrev pub copy4 : Converter
copy4 src = src

unfoldable pub swap_rb4 : Converter
swap_rb4 (a ∷ b ∷ c ∷ d ∷ src) = c ∷ b ∷ a ∷ d ∷ swap_rb4 src
swap_rb4 _ = []

unfoldable pub expand_bgr : Converter
expand_bgr (a ∷ b ∷ c ∷ src) = a ∷ b ∷ c ∷ 0xff ∷ expand_bgr src
expand_bgr _ = []

unfoldable pub expand_rgb : Converter
expand_rgb (a ∷ b ∷ c ∷ src) = c ∷ b ∷ a ∷ 0xff ∷ expand_rgb src
expand_rgb _ = []

unfoldable pub converter_for : Bytes → Option (Converter × ℕ)
converter_for format =
    if bytes_eq format (codes "BGRX") || bytes_eq format (codes "BGRA")
    then some (copy4, 4)
    else if bytes_eq format (codes "RGBX") || bytes_eq format (codes "RGBA")
    then some (swap_rb4, 4)
    else if bytes_eq format (codes "BGR")
    then some (expand_bgr, 3)
    else if bytes_eq format (codes "RGB")
    then some (expand_rgb, 3)
    else none

pub data ConvertError : Type 0 where
  bad_format small_rowstride short_source short_destination out_of_range : ConvertError

-- The bytes of a source row.
unfoldable pub source_row : Bytes → ℕ → ℕ → ℕ → Bytes
source_row src src_stride len row = take len (drop (row * src_stride) src)

-- The loop over the rows, `n` of them from `row` on: each is written where it belongs.
unfoldable pub convert_rows :
    (convert : Converter) (src : Bytes) (src_stride len dst_stride n row : ℕ) → Bytes → Bytes
convert_rows convert src src_stride len dst_stride zero row dst = dst
convert_rows convert src src_stride len dst_stride (suc n) row dst =
    convert_rows convert src src_stride len dst_stride n (row + 1)
      (overwrite (row * dst_stride) (convert (source_row src src_stride len row)) dst)

-- The test `len(src) < srcStride*height` in 64 bits: a product that wraps to a negative number is
-- larger than no length.
unfoldable pub is_short : ℕ → ℕ → ℕ → Bool
is_short size src_stride height =
    let need = src_stride * height % 2 ^ 64 in ltb need (2 ^ 63) && ltb size need

-- Whether the slices of the first `n` source rows are in range. The first that is not panics. A row
-- behind one in range begins below 2 ^ 64, so that its offset is exact or negative, and out of range
-- in either case.
unfoldable pub rows_inside : (size src_stride len n : ℕ) → Bool
rows_inside size src_stride len zero = true
rows_inside size src_stride len (suc n) =
    leb (n * src_stride + len) size && rows_inside size src_stride len n

-- A panic is the error `out_of_range`. The destination's test is `len(dst) < dstStride*(height-1) + width*BytesPerPixel`, without the
-- difference, which is negative for a height of 0.
unfoldable pub convert_with :
    Converter × ℕ
    → (dst : Bytes) (dst_stride : ℕ) (src : Bytes) (src_stride : ℤ) (width height : ℕ)
    → Result ConvertError Bytes
convert_with (convert, bpp) dst dst_stride src src_stride width height =
    if ltb_ℤ src_stride (pos (width * bpp))
    then err small_rowstride
    else if is_short (length src) (pos_part src_stride) height
    then err short_source
    else if ltb (length dst + dst_stride) (dst_stride * height + width * bytes_per_pixel)
    then err short_destination
    else if not (rows_inside (length src) (pos_part src_stride) (width * bpp) height)
    then err out_of_range
    else ok (convert_rows convert src (pos_part src_stride) (width * bpp) dst_stride height 0 dst)

unfoldable pub convert :
    (dst : Bytes) (dst_stride : ℕ) (src : Bytes) (src_stride : ℤ) (width height : ℕ)
    (format : Bytes)
    → Result ConvertError Bytes
convert dst dst_stride src src_stride width height format = elim (converter_for format) [
  | none ↦ err bad_format
  | some c ↦ convert_with c dst dst_stride src src_stride width height
]
