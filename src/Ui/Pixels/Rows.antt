-- ===== src/Ui/Pixels/Rows.antt =====
-- ui/pixels.go: where the rows that `Convert` writes end up.
use native.Mathlib.Decide.{ℕ_discrete}
use go_xpra.Prelude.{
  ◌⊎◌, inl, inr, ℕ, zero, suc, ◌+◌, ◌*◌, ◌≤◌, ◌<◌, ◌≡◌, refl, ap, ◌∙◌, [], ◌∷◌, length, get_elem?,
  set, length-set, get_elem?-set_self, get_elem?-set_ne, arith,
}
use go_xpra.Prelude.Bytes.{Bytes, overwrite}
use go_xpra.Ui.Pixels.{Converter, source_row, convert_rows}

length-overwrite : (i : ℕ) (bs area : Bytes) → length (overwrite i bs area) ≡ length area
unfolding overwrite
length-overwrite i [] area = refl
length-overwrite i (b ∷ bs) area = length-overwrite (i + 1) bs (set area i b) ∙ length-set area i b

-- A byte in front of what is written, or behind it, stays.
get_elem?-overwrite_before :
    (i : ℕ) (bs area : Bytes) (k : ℕ) → k < i → get_elem? (overwrite i bs area) k ≡ get_elem? area k
unfolding overwrite
get_elem?-overwrite_before i [] area k h = refl
get_elem?-overwrite_before i (b ∷ bs) area k h =
    get_elem?-overwrite_before (i + 1) bs (set area i b) k (omega arith)
    ∙ get_elem?-set_ne area i k b (λ e. omega (arith, e))

get_elem?-overwrite_behind :
    (i : ℕ) (bs area : Bytes) (k : ℕ)
    → i + length bs ≤ k
    → get_elem? (overwrite i bs area) k ≡ get_elem? area k
unfolding overwrite
get_elem?-overwrite_behind i [] area k h = refl
get_elem?-overwrite_behind i (b ∷ bs) area k h =
    get_elem?-overwrite_behind (i + 1) bs (set area i b) k (omega arith)
    ∙ get_elem?-set_ne area i k b (λ e. omega (arith, e))

-- What is written within the area is found there.
get_elem?-overwrite :
    (i : ℕ) (bs area : Bytes) (j p : ℕ)
    → p ≡ i + j
    → j < length bs
    → p < length area
    → get_elem? (overwrite i bs area) p ≡ get_elem? bs j
unfolding overwrite
get_elem?-overwrite i [] area j p e h r = absurd (omega arith)
get_elem?-overwrite i (b ∷ bs) area zero p e h r =
    let q : p ≡ i = omega arith in
    get_elem?-overwrite_before (i + 1) bs (set area i b) p (omega arith)
    ∙ rw q (get_elem?-set_self area i b (omega arith))
get_elem?-overwrite i (b ∷ bs) area (suc j) p e h r =
    get_elem?-overwrite (i + 1) bs (set area i b) j p (omega arith) (omega arith)
      (omega (arith, length-set area i b))

pub next_row : (row s : ℕ) → suc row * s ≡ row * s + s
next_row row s = grind arith

pub rows_below : (row r s : ℕ) → row ≤ r → row * s ≤ r * s
rows_below row r s h = grind arith

module _ (convert : Converter) (src : Bytes) (src_stride len dst_stride width height : ℕ)
    (whole : (row : ℕ)
      → row < height
      → length (convert (source_row src src_stride len row)) ≡ width)
    (apart : width ≤ dst_stride) where
  pub length-convert_rows :
      (n row : ℕ) (dst : Bytes)
      → length (convert_rows convert src src_stride len dst_stride n row dst) ≡ length dst
  unfolding convert_rows
  length-convert_rows zero row dst = refl
  length-convert_rows (suc n) row dst =
      length-convert_rows n (row + 1)
        (overwrite (row * dst_stride) (convert (source_row src src_stride len row)) dst)
      ∙ length-overwrite (row * dst_stride) (convert (source_row src src_stride len row)) dst

  -- A byte that is in none of the rows stays.
  pub convert_rows-other :
      (n row : ℕ) (dst : Bytes) (p : ℕ)
      → row + n ≤ height
      → ((r : ℕ) → row ≤ r → r < row + n → (p < r * dst_stride) ⊎ (r * dst_stride + width ≤ p))
      → get_elem? (convert_rows convert src src_stride len dst_stride n row dst) p ≡ get_elem? dst p
  unfolding convert_rows
  convert_rows-other zero row dst p k h = refl
  convert_rows-other (suc n) row dst p k h =
      convert_rows-other n (row + 1)
        (overwrite (row * dst_stride) (convert (source_row src src_stride len row)) dst) p
        (omega arith) (λ r a b. h r (omega arith) (omega arith))
      ∙ elim (h row (omega arith) (omega arith)) [
        | inl l ↦
            get_elem?-overwrite_before (row * dst_stride)
              (convert (source_row src src_stride len row)) dst p l
        | inr g ↦
            get_elem?-overwrite_behind (row * dst_stride)
              (convert (source_row src src_stride len row)) dst p
              (omega (arith, whole row (omega arith)))
      ]

  -- Rows further down start behind this one.
  later_rows : (row c r : ℕ) → c < width → row + 1 ≤ r → row * dst_stride + c < r * dst_stride
  later_rows row c zero h l = absurd (omega arith)
  later_rows row c (suc r) h l =
      omega (arith, next_row r dst_stride, rows_below row r dst_stride (omega arith))

  pub convert_rows-row :
      (n row : ℕ) (dst : Bytes) (r c : ℕ)
      → row + n ≤ height
      → row ≤ r
      → r < row + n
      → c < width
      → r * dst_stride + width ≤ length dst
      → get_elem?
          (convert_rows convert src src_stride len dst_stride n row dst)
          (r * dst_stride + c)
        ≡ get_elem? (convert (source_row src src_stride len r)) c
  unfolding convert_rows
  convert_rows-row zero row dst r c k a b h f = absurd (omega arith)
  convert_rows-row (suc n) row dst r c k a b h f = elim (ℕ_discrete row r) [
    | yes e ↦ rw (← e) (
        convert_rows-other n (row + 1)
          (overwrite (row * dst_stride) (convert (source_row src src_stride len row)) dst)
          (row * dst_stride + c) (omega arith) (λ r' a' b'. inl (later_rows row c r' h a'))
        ∙ get_elem?-overwrite (row * dst_stride) (convert (source_row src src_stride len row)) dst c
            (row * dst_stride + c) refl (omega (arith, whole row (omega arith)))
            (omega (arith, ap (λ k. k * dst_stride) e)))
    | no ne ↦
        convert_rows-row n (row + 1)
          (overwrite (row * dst_stride) (convert (source_row src src_stride len row)) dst) r c
          (omega arith) (omega arith) (omega arith) h
          (omega (
            arith,
            length-overwrite (row * dst_stride) (convert (source_row src src_stride len row)) dst,
          ))
  ]
