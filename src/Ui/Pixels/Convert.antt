-- ===== src/Ui/Pixels/Convert.antt =====
-- ui/pixels.go: what `Convert` leaves in the destination.
use go_xpra.Prelude.{
  ℕ, zero, suc, ◌+◌, ◌*◌, ◌≤◌, ◌<◌, ◌≡◌, ◌⊎◌, inl, inr, subst, Bool, true, false, ◌||◌, [], ◌∷◌,
  Option, none, some, length, drop, get_elem?, ltb, ltb→le, if◌then◌else◌, arith, Option-cases,
  Bool-cases, sym, not, length-take, length-drop,
}
use go_xpra.Prelude.Int.{ℤ, pos, pos_part, ltb_ℤ}
use go_xpra.Prelude.Bytes.{Bytes, codes, bytes_eq}
use go_xpra.Prelude.Result.{ok, err, if-ok}
use go_xpra.Ui.Pixels.{
  Converter, copy4, swap_rb4, expand_bgr, expand_rgb, converter_for, bad_format, small_rowstride,
  short_source, short_destination, out_of_range, is_short, rows_inside, source_row, convert_rows,
  convert_with, convert,
}
use go_xpra.Ui.Pixels.Rows.{
  length-convert_rows, convert_rows-other, convert_rows-row, next_row, rows_below,
}

-- A row of `w` source pixels becomes one of `w` destination pixels.
abbrev IsConverter : Converter × ℕ → Type 0
IsConverter c = (w : ℕ) (src : Bytes) → length src ≡ w * c.1 → length (c.0 src) ≡ w * 4

copy4-IsConverter : IsConverter (copy4, 4)
copy4-IsConverter w src h = h

swap_rb4-IsConverter : IsConverter (swap_rb4, 4)
unfolding swap_rb4
swap_rb4-IsConverter zero [] h = omega arith
swap_rb4-IsConverter zero (a ∷ src) h = absurd (omega arith)
swap_rb4-IsConverter (suc w) (a ∷ b ∷ c ∷ d ∷ src) h =
    omega (arith, swap_rb4-IsConverter w src (omega arith))
swap_rb4-IsConverter (suc w) [] h = absurd (omega arith)
swap_rb4-IsConverter (suc w) (a ∷ []) h = absurd (omega arith)
swap_rb4-IsConverter (suc w) (a ∷ b ∷ []) h = absurd (omega arith)
swap_rb4-IsConverter (suc w) (a ∷ b ∷ c ∷ []) h = absurd (omega arith)

expand_bgr-IsConverter : IsConverter (expand_bgr, 3)
unfolding expand_bgr
expand_bgr-IsConverter zero [] h = omega arith
expand_bgr-IsConverter zero (a ∷ src) h = absurd (omega arith)
expand_bgr-IsConverter (suc w) (a ∷ b ∷ c ∷ src) h =
    omega (arith, expand_bgr-IsConverter w src (omega arith))
expand_bgr-IsConverter (suc w) [] h = absurd (omega arith)
expand_bgr-IsConverter (suc w) (a ∷ []) h = absurd (omega arith)
expand_bgr-IsConverter (suc w) (a ∷ b ∷ []) h = absurd (omega arith)

expand_rgb-IsConverter : IsConverter (expand_rgb, 3)
unfolding expand_rgb
expand_rgb-IsConverter zero [] h = omega arith
expand_rgb-IsConverter zero (a ∷ src) h = absurd (omega arith)
expand_rgb-IsConverter (suc w) (a ∷ b ∷ c ∷ src) h =
    omega (arith, expand_rgb-IsConverter w src (omega arith))
expand_rgb-IsConverter (suc w) [] h = absurd (omega arith)
expand_rgb-IsConverter (suc w) (a ∷ []) h = absurd (omega arith)
expand_rgb-IsConverter (suc w) (a ∷ b ∷ []) h = absurd (omega arith)

-- One of the choices of the switch.
chosen :
    (b : Bool) (c : Converter × ℕ) (rest : Option (Converter × ℕ)) (d : Converter × ℕ)
    → IsConverter c
    → (rest ≡ some d → IsConverter d)
    → ((if b then some c else rest) ≡ some d)
    → IsConverter d
chosen true c rest d i r e = let q : c ≡ d = cc in subst IsConverter q i
chosen false c rest d i r e = r e

converter_for-IsConverter :
    (format : Bytes) (c : Converter × ℕ) → converter_for format ≡ some c → IsConverter c
unfolding converter_for
converter_for-IsConverter format c e =
    let rgb : Option (Converter × ℕ) =
      if bytes_eq format (codes "RGB") then some (expand_rgb, 3) else none in
    let bgr : Option (Converter × ℕ) =
      if bytes_eq format (codes "BGR") then some (expand_bgr, 3) else rgb in
    let swapped : Option (Converter × ℕ) =
      if bytes_eq format (codes "RGBX") || bytes_eq format (codes "RGBA")
      then some (swap_rb4, 4)
      else bgr in
    chosen (bytes_eq format (codes "BGRX") || bytes_eq format (codes "BGRA")) (copy4, 4) swapped c
      copy4-IsConverter
      (chosen (bytes_eq format (codes "RGBX") || bytes_eq format (codes "RGBA")) (swap_rb4, 4) bgr c
        swap_rb4-IsConverter
        (chosen (bytes_eq format (codes "BGR")) (expand_bgr, 3) rgb c expand_bgr-IsConverter
          (chosen (bytes_eq format (codes "RGB")) (expand_rgb, 3) none c expand_rgb-IsConverter
            (λ q. cc))))
      e

-- What a conversion that succeeds has done: `c` is the row converter of the format.
pub record Converted (c : Converter × ℕ) (dst : Bytes) (dst_stride : ℕ) (src : Bytes)
    (src_stride width height : ℕ) (dst' : Bytes) : Type 0 where
  pub same_size : length dst' ≡ length dst
  pub source_inside : (row : ℕ) → row < height → row * src_stride + width * c.1 ≤ length src
  pub destination_inside : (row : ℕ) → row < height → row * dst_stride + width * 4 ≤ length dst
  pub rows :
      (row col : ℕ)
      → row < height
      → col < width * 4
      → get_elem? dst' (row * dst_stride + col)
        ≡ get_elem? (c.0 (source_row src src_stride (width * c.1) row)) col
  pub elsewhere :
      (p : ℕ)
      → ((row : ℕ) → row < height → (p < row * dst_stride) ⊎ (row * dst_stride + width * 4 ≤ p))
      → get_elem? dst' p ≡ get_elem? dst p

swap_factors : (a b : ℕ) → a * b ≡ b * a
swap_factors a b = grind arith

inside :
    (row height stride need size : ℕ)
    → row < height
    → stride * height + need ≤ size + stride
    → row * stride + need ≤ size
inside row height stride need size h e = omega (
  arith,
  swap_factors stride height,
  next_row row stride,
  rows_below (suc row) height stride (omega arith),
)

length-source_row :
    (src : Bytes) (stride len row : ℕ)
    → row * stride + len ≤ length src
    → length (source_row src stride len row) ≡ len
unfolding source_row
length-source_row src stride len row h =
    omega (arith, length-take len (drop (row * stride) src), length-drop (row * stride) src)

rows_inside-inside :
    (size stride len height : ℕ)
    → rows_inside size stride len height ≡ true
    → (row : ℕ) → row < height
    → row * stride + len ≤ size
unfolding rows_inside
rows_inside-inside size stride len zero e row h = absurd (omega arith)
rows_inside-inside size stride len (suc n) e row h = elim (Bool-cases (ltb row n)) [
  | inl below ↦ rows_inside-inside size stride len n (ground arith) row (ground arith)
  | inr last ↦
      let same : row ≡ n = ground arith in
      subst (λ k. k * stride + len ≤ size) (sym same) (ground arith)
]

rows-Converted :
    (c : Converter × ℕ) (dst : Bytes) (dst_stride : ℕ) (src : Bytes) (src_stride width height : ℕ)
    → IsConverter c
    → width * 4 ≤ dst_stride
    → ((row : ℕ) → row < height → row * src_stride + width * c.1 ≤ length src)
    → ((row : ℕ) → row < height → row * dst_stride + width * 4 ≤ length dst)
    → Converted c dst dst_stride src src_stride width height
        (convert_rows c.0 src src_stride (width * c.1) dst_stride height 0 dst)
rows-Converted c dst dst_stride src src_stride width height i apart from to =
    let whole = λ (row : ℕ) (h : row < height).
      i width (source_row src src_stride (width * c.1) row)
        (length-source_row src src_stride (width * c.1) row (from row h)) in
    record {
      same_size =
          length-convert_rows c.0 src src_stride (width * c.1) dst_stride (width * 4) height whole
            apart height 0 dst;
      source_inside = from;
      destination_inside = to;
      rows = λ row col h k.
          convert_rows-row c.0 src src_stride (width * c.1) dst_stride (width * 4) height whole
            apart height 0 dst row col (omega arith) (omega arith) (omega arith) k (to row h);
      elsewhere = λ p h.
          convert_rows-other c.0 src src_stride (width * c.1) dst_stride (width * 4) height whole
            apart height 0 dst p (omega arith) (λ row a b. h row (omega arith));
    }

convert_with-Converted :
    (c : Converter × ℕ) (dst : Bytes) (dst_stride : ℕ) (src : Bytes) (src_stride : ℤ)
    (width height : ℕ) (dst' : Bytes)
    → IsConverter c
    → width * 4 ≤ dst_stride
    → convert_with c dst dst_stride src src_stride width height ≡ ok dst'
    → Converted c dst dst_stride src (pos_part src_stride) width height dst'
unfolding convert_with
convert_with-Converted (conv, bpp) dst dst_stride src src_stride width height dst' i apart e =
    let (a, e') =
      if-ok (ltb_ℤ src_stride (pos (width * bpp))) small_rowstride
        (if is_short (length src) (pos_part src_stride) height
          then err short_source
          else if ltb (length dst + dst_stride) (dst_stride * height + width * 4)
          then err short_destination
          else if not (rows_inside (length src) (pos_part src_stride) (width * bpp) height)
          then err out_of_range
          else ok
              (convert_rows conv src (pos_part src_stride) (width * bpp) dst_stride height 0 dst))
        e in
    let (b, e'') = if-ok (is_short (length src) (pos_part src_stride) height) short_source _ e' in
    let (d, e''') =
      if-ok (ltb (length dst + dst_stride) (dst_stride * height + width * 4)) short_destination _
        e'' in
    let (r, q) =
      if-ok (not (rows_inside (length src) (pos_part src_stride) (width * bpp) height)) out_of_range
        _ e''' in
    let p : convert_rows conv src (pos_part src_stride) (width * bpp) dst_stride height 0 dst
        ≡ dst' =
      cc in
    subst (Converted (conv, bpp) dst dst_stride src (pos_part src_stride) width height) p (
      rows-Converted (conv, bpp) dst dst_stride src (pos_part src_stride) width height i apart
        (rows_inside-inside (length src) (pos_part src_stride) (width * bpp) height (ground arith))
        (λ row h.
          inside row height dst_stride (width * 4) (length dst) h
            (ltb→le (length dst + dst_stride) (dst_stride * height + width * 4) d)))

-- Where the format is known and the rows of the destination do not overlap, a conversion that
-- succeeds reads and writes within its buffers, puts each converted row where it belongs, and
-- changes no other byte.
pub convert-Converted :
    (dst : Bytes) (dst_stride : ℕ) (src : Bytes) (src_stride : ℤ) (width height : ℕ)
    (format dst' : Bytes)
    → width * 4 ≤ dst_stride
    → convert dst dst_stride src src_stride width height format ≡ ok dst'
    → (c : Converter × ℕ) × (converter_for format ≡ some c)
      × Converted c dst dst_stride src (pos_part src_stride) width height dst'
unfolding convert
convert-Converted dst dst_stride src src_stride width height format dst' apart e =
    elim (Option-cases (converter_for format)) [
      | inl n ↦ (let no : err bad_format ≡ ok dst' = rw (n, convert) at e in cc)
      | inr (c, q) ↦ (
        c,
        q,
        convert_with-Converted c dst dst_stride src src_stride width height dst'
            (converter_for-IsConverter format c q) apart (rw (q, convert) at e),
      )
    ]
