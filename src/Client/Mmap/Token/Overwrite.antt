-- ===== src/Client/Mmap/Token/Overwrite.antt =====
-- client/mmap.go: the bytes of a token, and bytes written over an area.
use go_xpra.Prelude.{
  ℕ, zero, suc, ◌+◌, ◌-◌, ◌/◌, ◌≤◌, ◌≡◌, ◌≢◌, refl, ap, sym, ◌∙◌, [], ◌∷◌, ◌++◌, length, set, ◌==◌,
  arith, length-append, length-replicate,
}
use go_xpra.Prelude.Bytes.{overwrite, Bytes}
use go_xpra.Prelude.Result.{ok}
use go_xpra.Prelude.{append_assoc, Bool-cases, inl, inr, le→ltb}
use go_xpra.Client.Mmap.Token.{digits_from, zeros, put_token, value_of_reversed}

-- Zeros behind the bytes do not change the number.
pub value-append_zeros :
    (bs : Bytes) (k : ℕ) → value_of_reversed (bs ++ zeros k) ≡ value_of_reversed bs
unfolding value_of_reversed
value-append_zeros [] zero = refl
value-append_zeros [] (suc k) = omega (arith, value-append_zeros [] k)
value-append_zeros (b ∷ bs) k = omega (arith, value-append_zeros bs k)

pub value-digits_from : (f n : ℕ) → n ≤ f → value_of_reversed (digits_from f n) ≡ n
unfolding value_of_reversed digits_from
value-digits_from zero n h = omega arith
value-digits_from (suc f) n h = elim (Bool-cases (n == 0)) [
  | inl e ↦ rw e (ground arith)
  | inr e ↦
      rw e
        (let p : n ≢ 0 = ground arith in omega (arith, value-digits_from f (n / 256) (omega arith)))
]

snoc_length : (front : Bytes) (b : ℕ) → length (front ++ (b ∷ [])) ≡ length front + 1
snoc_length front b = length-append front (b ∷ [])

set-append :
    (front rest : Bytes) (o b : ℕ)
    → set (front ++ (o ∷ rest)) (length front) b ≡ (front ++ (b ∷ [])) ++ rest
set-append [] rest o b = refl
set-append (x ∷ front) rest o b = ap (λ l. x ∷ l) (set-append front rest o b)

-- Overwriting within bounds, as a concatenation.
pub overwrite_lem :
    (front bs old back : Bytes)
    → length bs ≡ length old
    → overwrite (length front) bs (front ++ (old ++ back)) ≡ front ++ (bs ++ back)
unfolding overwrite
overwrite_lem front [] [] back h = refl
overwrite_lem front [] (_ ∷ _) back h = absurd (omega arith)
overwrite_lem front (_ ∷ _) [] back h = absurd (omega arith)
overwrite_lem front (b ∷ bs) (o ∷ old) back h =
    rw (set-append front (old ++ back) o b, ← snoc_length front b)
      (overwrite_lem (front ++ (b ∷ [])) bs old back (omega arith)
        ∙ append_assoc front (b ∷ []) (bs ++ back))

zero_add : (j : ℕ) → 0 + j ≡ j
zero_add j = omega arith

suc_add : (k j : ℕ) → suc k + j ≡ suc (k + j)
suc_add k j = omega arith

zeros-add : (k j : ℕ) → zeros (k + j) ≡ zeros k ++ zeros j
zeros-add zero j = ap zeros (zero_add j)
zeros-add (suc k) j = ap zeros (suc_add k j) ∙ ap (λ l. 0 ∷ l) (zeros-add k j)

zeros_split : (k n : ℕ) → k ≤ n → zeros n ≡ zeros k ++ zeros (n - k)
zeros_split k n h = ap zeros (let e : n ≡ k + (n - k) = omega arith in e) ∙ zeros-add k (n - k)

-- What is written: the token's bytes, zeros up to the end of its room, and nothing else.
pub put_token_lem :
    (front old back encoded : Bytes)
    → length encoded ≤ length old
    → put_token (front ++ (old ++ back)) encoded (length front) (length old)
      ≡ ok (front ++ ((encoded ++ zeros (length old - length encoded)) ++ back))
unfolding put_token
put_token_lem front old back encoded h =
    let n = length old in
    let k = length encoded in
    let cleared : overwrite (length front) (zeros n) (front ++ (old ++ back))
        ≡ front ++ (zeros n ++ back) =
      overwrite_lem front (zeros n) old back (length-replicate n 0) in
    let split : front ++ (zeros n ++ back) ≡ front ++ (zeros k ++ (zeros (n - k) ++ back)) =
      ap (λ z. front ++ (z ++ back)) (zeros_split k n h)
      ∙ ap (λ l. front ++ l) (append_assoc (zeros k) (zeros (n - k)) back) in
    let written : overwrite (length front) encoded (front ++ (zeros k ++ (zeros (n - k) ++ back)))
        ≡ front ++ (encoded ++ (zeros (n - k) ++ back)) =
      overwrite_lem front encoded (zeros k) (zeros (n - k) ++ back) (sym (length-replicate k 0)) in
    rw (le→ltb (length old) (length encoded) h) (
      ap ok (
        ap (overwrite (length front) encoded) (cleared ∙ split)
        ∙ written
        ∙ ap (λ l. front ++ l) (sym (append_assoc encoded (zeros (n - k)) back))))
