-- ===== src/Client/Mmap/Chunks/Bounds.antt =====
-- client/mmap.go: the chunks that `parseMmapChunks` lets pass.
use go_xpra.Prelude.{
  ℕ, suc, ◌+◌, ◌≤◌, ◌≡◌, refl, subst, or-false, ◌||◌, List, [], ◌∷◌, Option, none, some, length,
  All, ltb, ◌==◌, arith, Option-cases, inl, inr,
}
use go_xpra.Prelude.Int.{ℤ, pos, negsuc, pos_part, ltb_ℤ, ◌-ℤ◌, ◌≤ℤ◌, -ℤ_parts, ltb_ℤ→le}
use go_xpra.Prelude.Result.{ok, err, ◌>>=◌, >>=-eq-ok, if-ok}
use go_xpra.Rencode.Value.{Value, Values, no_values, item}
use go_xpra.Client.Mmap.Chunks.{
  mmap_header_size, MmapChunk, bad_list, bad_descriptor, outside_area, sizes_overflow, no_pixels,
  pair_of, int64_of, bounded_chunk, typed_chunk, parse_chunk, with_chunks, parse_items,
  nonempty_chunks, count_values, parse_mmap_chunks,
}

abbrev pub total_length : List MmapChunk → ℕ
total_length [] = 0
total_length (c ∷ cs) = c.length + total_length cs

-- A chunk lies in the area, behind its header.
abbrev pub InArea : ℕ → MmapChunk → Type 0
InArea size c = (mmap_header_size ≤ c.offset) × (c.offset + c.length ≤ size)

in_area :
    (size total : ℕ) (offset len : ℤ) (c : MmapChunk)
    → pos 8 ≤ℤ offset
    → pos 0 ≤ℤ len
    → len ≤ℤ pos size -ℤ offset
    → len ≤ℤ pos size -ℤ pos total
    → total ≤ size
    → record { offset = pos_part offset; length = pos_part len } ≡ c
    → InArea size c × (total + c.length ≤ size)
in_area size total (negsuc n) len c o l fits sum t q = absurd (omega arith)
in_area size total (pos n) (negsuc k) c o l fits sum t q = absurd (omega arith)
in_area size total (pos n) (pos k) c o l fits sum t q =
    subst (λ c. InArea size c × (total + c.length ≤ size)) q
      (
        (omega arith, omega (arith, -ℤ_parts (pos size) (pos n))),
        omega (arith, -ℤ_parts (pos size) (pos total)),
      )

bounded_chunk-InArea :
    (size total : ℕ) (offset len : ℤ) (c : MmapChunk)
    → total ≤ size
    → bounded_chunk size total offset len ≡ ok c
    → InArea size c × (total + c.length ≤ size)
unfolding bounded_chunk
bounded_chunk-InArea size total offset len c t e =
    let (inside, e') = if-ok _ outside_area _ e in
    let (a, b, c', d) =
      or-false (ltb_ℤ offset (pos mmap_header_size)) (ltb_ℤ len (pos 0)) (ltb_ℤ (pos size) offset)
        (ltb_ℤ (pos size -ℤ offset) len) inside in
    let (small, e'') = if-ok _ sizes_overflow _ e' in
    in_area size total offset len c (ltb_ℤ→le offset (pos 8) a) (ltb_ℤ→le len (pos 0) b)
      (ltb_ℤ→le (pos size -ℤ offset) len d) (ltb_ℤ→le (pos size -ℤ pos total) len small) t
      (ground arith)

typed_chunk-InArea :
    (size total : ℕ) (o l : Option ℤ) (c : MmapChunk)
    → total ≤ size
    → typed_chunk size total o l ≡ ok c
    → InArea size c × (total + c.length ≤ size)
unfolding typed_chunk
typed_chunk-InArea size total none l c t e = cc
typed_chunk-InArea size total (some o) none c t e = cc
typed_chunk-InArea size total (some o) (some l) c t e = bounded_chunk-InArea size total o l c t e

parse_chunk-InArea :
    (size total : ℕ) (v : Value) (c : MmapChunk)
    → total ≤ size
    → parse_chunk size total v ≡ ok c
    → InArea size c × (total + c.length ≤ size)
unfolding parse_chunk
parse_chunk-InArea size total v c t e = elim (Option-cases (pair_of v)) [
  | inl n ↦ (let no : err bad_descriptor ≡ ok c = rw (n, parse_chunk) at e in cc)
  | inr ((a, b), p) ↦
      typed_chunk-InArea size total (int64_of a) (int64_of b) c t (rw (p, parse_chunk) at e)
]

-- What the loop over `n` descriptors returns.
abbrev Parsed : ℕ → ℕ → ℕ → List MmapChunk × ℕ → Type 0
Parsed size total n r =
    All (InArea size) r.0 × (r.1 ≡ total + total_length r.0) × (r.1 ≤ size) × (length r.0 ≡ n)

with_chunks-Parsed :
    (size total n : ℕ) (c : MmapChunk) (r r' : List MmapChunk × ℕ)
    → InArea size c
    → Parsed size (total + c.length) n r
    → with_chunks c r ≡ ok r'
    → Parsed size total (suc n) r'
unfolding with_chunks
with_chunks-Parsed size total n c (cs, sum) r' inside (all, s, b, k) e =
    let q : (c ∷ cs, sum) ≡ r' = cc in
    subst (Parsed size total (suc n)) q ((inside, all), omega arith, b, omega arith)

parse_items-Parsed :
    (size total : ℕ) (vs : Values) (r : List MmapChunk × ℕ)
    → total ≤ size
    → parse_items size total vs ≡ ok r
    → Parsed size total (count_values vs) r
unfolding parse_items count_values
parse_items-Parsed size total no_values r t e =
    let q : ([], total) ≡ r = cc in subst (Parsed size total 0) q (tt, omega arith, t, refl)
parse_items-Parsed size total (item v vs) r t e =
    let (c, p, e') =
      >>=-eq-ok (parse_chunk size total v)
        (λ c. parse_items size (total + c.length) vs >>= with_chunks c) e in
    let (r', p', e'') = >>=-eq-ok (parse_items size (total + c.length) vs) (with_chunks c) e' in
    let (inside, t') = parse_chunk-InArea size total v c t p in
    with_chunks-Parsed size total (count_values vs) c r' r inside
      (parse_items-Parsed size (total + c.length) vs r' t' p') e''

-- The chunks that are accepted are one or two, lie in the area behind its header, and hold at least
-- one byte and together no more than the area.
pub parse_mmap_chunks_bounds :
    (raw : Value) (size : ℕ) (cs : List MmapChunk)
    → parse_mmap_chunks raw size ≡ ok cs
    → All (InArea size) cs
      × (1 ≤ length cs)
      × (length cs ≤ 2)
      × (1 ≤ total_length cs)
      × (total_length cs ≤ size)
unfolding parse_mmap_chunks nonempty_chunks
parse_mmap_chunks_bounds (Value.list items) size cs e =
    let (few, e') =
      if-ok (count_values items == 0 || ltb 2 (count_values items)) bad_list
        (parse_items size 0 items >>= nonempty_chunks) e in
    let ((cs', sum), p, e'') = >>=-eq-ok (parse_items size 0 items) nonempty_chunks e' in
    let (filled, q) = if-ok (sum == 0) no_pixels (ok cs') e'' in
    let (all, s, b, k) = parse_items-Parsed size 0 items (cs', sum) (omega arith) p in
    let q' : cs' ≡ cs = cc in
    subst
      (λ cs.
        All (InArea size) cs
        × (1 ≤ length cs)
        × (length cs ≤ 2)
        × (1 ≤ total_length cs)
        × (total_length cs ≤ size))
      q' (all, ground arith, ground arith, ground arith, omega arith)
parse_mmap_chunks_bounds _ size cs e = cc
