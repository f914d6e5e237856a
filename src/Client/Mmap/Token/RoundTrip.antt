-- ===== src/Client/Mmap/Token/RoundTrip.antt =====
-- client/mmap.go: a token that is written and read in the area.
use go_xpra.Prelude.{
  ℕ, ◌+◌, ◌-◌, ◌≤◌, ◌≡◌, refl, ap, sym, ◌∙◌, false, ◌++◌, some, length, take, drop, arith,
  length-take, length-drop, length-append, length-replicate, or-false,
}
use go_xpra.Prelude.Int.{ℤ, pos, negsuc, pos_part, ltb_ℤ, leb_ℤ, ◌-ℤ◌, ◌≤ℤ◌, -ℤ_parts, ltb_ℤ→le}
use go_xpra.Prelude.Bytes.{Bytes}
use go_xpra.Prelude.Result.{ok, if-ok}
use go_xpra.Prelude.{append_assoc, take-append-drop, take-append, drop-append, subst}
use go_xpra.Client.Mmap.Token.{
  invalid_bounds, reversed_bytes, zeros, put_token, outside, write_mmap_token, value_of_reversed,
  read_mmap_token,
}
use go_xpra.Client.Mmap.Token.Overwrite.{value-append_zeros, value-digits_from, put_token_lem}

-- The parts of an area: before a range, the range, and behind it.
cut_area :
    (area : Bytes) (i c : ℕ)
    → i + c ≤ length area
    → (front old back : Bytes) × (area ≡ front ++ (old ++ back))
      × (length front ≡ i)
      × (length old ≡ c)
cut_area area i c h = (
  take i area,
  take c (drop i area),
  drop c (drop i area),
  sym (ap (λ l. take i area ++ l) (take-append-drop c (drop i area)) ∙ take-append-drop i area),
  omega (arith, length-take i area),
  omega (arith, length-take c (drop i area), length-drop i area),
)

-- What a token that was written leaves in the area.
record Written (area area' : Bytes) (n i c : ℕ) : Type 0 where
  pub found : value_of_reversed (take c (drop i area')) ≡ n
  pub size : length area' ≡ length area
  pub before : take i area' ≡ take i area
  pub behind : drop (i + c) area' ≡ drop (i + c) area

drop-parts :
    (front old back : Bytes) (k : ℕ)
    → k ≡ length front + length old
    → drop k (front ++ (old ++ back)) ≡ back
drop-parts front old back k h =
    ap (drop k) (sym (append_assoc front old back))
    ∙ ap (λ j. drop j ((front ++ old) ++ back)) (h ∙ sym (length-append front old))
    ∙ drop-append (front ++ old) back

take-parts : (old back : Bytes) (k : ℕ) → k ≡ length old → take k (old ++ back) ≡ old
take-parts old back k h = ap (λ j. take j (old ++ back)) h ∙ take-append old back

put_token-Written :
    (front old back : Bytes) (n : ℕ)
    → length (reversed_bytes n) ≤ length old
    → Written
        (front ++ (old ++ back))
        (front ++ ((reversed_bytes n ++ zeros (length old - length (reversed_bytes n))) ++ back))
        n
        (length front)
        (length old)
unfolding reversed_bytes
put_token-Written front old back n h =
    let bs = reversed_bytes n in
    let k = length old - length bs in
    let new = bs ++ zeros k in
    let same : length old ≡ length new =
      omega (arith, length-append bs (zeros k), length-replicate {A = ℕ} k 0) in
    record {
      found =
          ap (λ l. value_of_reversed (take (length old) l)) (drop-append front (new ++ back))
          ∙ ap value_of_reversed (take-parts new back (length old) same)
          ∙ value-append_zeros bs k
          ∙ value-digits_from n n (omega arith);
      size = omega (
        arith,
        length-append front (new ++ back),
        length-append front (old ++ back),
        length-append new back,
        length-append old back,
      );
      before = take-append front (new ++ back) ∙ sym (take-append front (old ++ back));
      behind =
          drop-parts front new back (length front + length old) (ap (λ j. length front + j) same)
          ∙ sym (drop-parts front old back (length front + length old) refl);
    }

put_token-short :
    (area encoded area' : Bytes) (i c : ℕ)
    → put_token area encoded i c ≡ ok area'
    → length encoded ≤ c
unfolding put_token
put_token-short area encoded area' i c e = ground arith

put_parts :
    (front old back area' : Bytes) (n : ℕ)
    → put_token (front ++ (old ++ back)) (reversed_bytes n) (length front) (length old) ≡ ok area'
    → Written (front ++ (old ++ back)) area' n (length front) (length old)
put_parts front old back area' n e =
    let short =
      put_token-short (front ++ (old ++ back)) (reversed_bytes n) area' (length front) (length old)
        e in
    let e' = put_token_lem front old back (reversed_bytes n) short in
    let q : front ++ ((reversed_bytes n ++ zeros (length old - length (reversed_bytes n))) ++ back)
        ≡ area' =
      cc in
    subst (λ a. Written (front ++ (old ++ back)) a n (length front) (length old)) q
      (put_token-Written front old back n short)

put-Written :
    (area area' : Bytes) (n i c : ℕ)
    → i + c ≤ length area
    → put_token area (reversed_bytes n) i c ≡ ok area'
    → Written area area' n i c
put-Written area area' n i c h e =
    let (front, old, back, q, lf, lo) = cut_area area i c h in
    let e' : put_token (front ++ (old ++ back)) (reversed_bytes n) (length front) (length old)
        ≡ ok area' =
      cc in
    subst (λ c. Written area area' n i c) lo
      (subst (λ i. Written area area' n i (length old)) lf
        (subst (λ a. Written a area' n (length front) (length old)) (sym q)
          (put_parts front old back area' n e')))

fits :
    (size : ℕ) (index count : ℤ)
    → pos 0 ≤ℤ index
    → count ≤ℤ pos size -ℤ index
    → index ≤ℤ pos size
    → pos_part index + pos_part count ≤ size
fits size (negsuc i) count a b c = absurd (omega arith)
fits size (pos i) (negsuc k) a b c = omega arith
fits size (pos i) (pos k) a b c = omega (arith, -ℤ_parts (pos size) (pos i))

within :
    (area : Bytes) (index count : ℤ)
    → outside area index count ≡ false
    → pos_part index + pos_part count ≤ length area
unfolding outside
within area index count h =
    let (a, b, c, d) =
      or-false (ltb_ℤ index (pos 0)) (leb_ℤ count (pos 0)) (ltb_ℤ (pos (length area)) index)
        (ltb_ℤ (pos (length area) -ℤ index) count) h in
    fits (length area) index count (ltb_ℤ→le index (pos 0) a)
      (ltb_ℤ→le (pos (length area) -ℤ index) count d) (ltb_ℤ→le (pos (length area)) index c)

-- The test looks at the size of the area alone.
pub outside-length :
    (area area' : Bytes) (index count : ℤ)
    → length area' ≡ length area
    → outside area' index count ≡ outside area index count
unfolding outside
outside-length area area' index count h = rw h refl

-- A token that `writeMmapToken` puts into the area is what `readMmapToken` finds there; the area
-- keeps its size, and every byte outside the token's room.
pub read-write_mmap_token :
    (area area' : Bytes) (n : ℕ) (index count : ℤ)
    → write_mmap_token area (some (pos n)) index count ≡ ok area'
    → (read_mmap_token area' index count ≡ ok n)
      × (length area' ≡ length area)
      × (take (pos_part index) area' ≡ take (pos_part index) area)
      × (drop (pos_part index + pos_part count) area' ≡ drop (pos_part index + pos_part count) area)
unfolding write_mmap_token read_mmap_token
read-write_mmap_token area area' n index count e =
    let (inside, e') =
      if-ok (outside area index count) invalid_bounds
        (put_token area (reversed_bytes n) (pos_part index) (pos_part count)) e in
    let w =
      put-Written area area' n (pos_part index) (pos_part count) (within area index count inside)
        e' in
    (
      rw (outside-length area area' index count w.size ∙ inside) (ap ok w.found),
      w.size,
      w.before,
      w.behind,
    )
