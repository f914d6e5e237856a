-- ===== src/Rencode/Decimal/Laws.antt =====
-- The decimal conversions: printing and parsing together.
use go_xpra.Prelude.{
  ℕ, zero, suc, ◌+◌, ◌-◌, ◌*◌, ◌/◌, ◌^◌, ◌<◌, ◌≤◌, ◌≡◌, refl, ◌∙◌, [], ◌∷◌, ◌++◌, some, ltb, arith,
  All, All-append, length, length-append, Bool-cases, inl, inr, tests,
}
use go_xpra.Prelude.Int.{ℤ, pos, negsuc, IsSigned}
use go_xpra.Prelude.Bytes.{Bytes}
use go_xpra.Rencode.Decimal.{digits_loop, append_int, parse_digits, parse_nat, set_string, atoi}

abbrev pub IsDigit : ℕ → Type 0
IsDigit c = (b'0' ≤ c) × (c ≤ b'9')

pub digits_loop-IsDigit : (f n : ℕ) → All IsDigit (digits_loop f n)
unfolding digits_loop
digits_loop-IsDigit zero n = omega arith
digits_loop-IsDigit (suc f) n = elim (Bool-cases (ltb n 10)) [
  | inl few ↦ rw few (omega tests)
  | inr many ↦
      rw many (
        All-append IsDigit (digits_loop f (n / 10)) _ (digits_loop-IsDigit f (n / 10))
          (omega arith))
]

pub length-digits_loop_pos : (f n : ℕ) → 0 < length (digits_loop f n)
unfolding digits_loop
length-digits_loop_pos zero n = omega arith
length-digits_loop_pos (suc f) n = elim (Bool-cases (ltb n 10)) [
  | inl few ↦ rw few (omega tests)
  | inr many ↦ rw (many, length-append) (omega arith)
]

parse_digits-append :
    (acc : ℕ) (xs ys : Bytes) (n : ℕ)
    → parse_digits acc xs ≡ some n
    → parse_digits acc (xs ++ ys) ≡ parse_digits n ys
unfolding parse_digits
parse_digits-append acc [] ys n h = ground arith
parse_digits-append acc (c ∷ xs) ys n h =
    ground (arith, parse_digits-append (acc * 10 + (c - b'0')) xs ys n)

pub parse_digits-digits_loop : (f n : ℕ) → n ≤ f → parse_digits 0 (digits_loop f n) ≡ some n
unfolding digits_loop
parse_digits-digits_loop zero n h = unfold parse_digits in ground arith
parse_digits-digits_loop (suc f) n h = elim (Bool-cases (ltb n 10)) [
  | inl few ↦ rw few (unfold parse_digits in ground arith)
  | inr many ↦ rw many (
      parse_digits-append 0 (digits_loop f (n / 10)) _ (n / 10)
        (parse_digits-digits_loop f (n / 10) (omega tests))
      ∙ unfold parse_digits in ground arith)
]

parse_nat-of_pos : (s : Bytes) → 0 < length s → parse_nat s ≡ parse_digits 0 s
unfolding parse_nat
parse_nat-of_pos [] h = absurd (omega arith)
parse_nat-of_pos (c ∷ cs) h = refl

pub parse_nat-digits : (n : ℕ) → parse_nat (digits_loop n n) ≡ some n
parse_nat-digits n =
    parse_nat-of_pos (digits_loop n n) (length-digits_loop_pos n n)
    ∙ parse_digits-digits_loop n n (omega arith)

set_string_digits :
    (s : Bytes) (n : ℕ) → All IsDigit s → parse_nat s ≡ some n → set_string s ≡ some (pos n)
unfolding set_string
set_string_digits [] n h e = cc
set_string_digits (c ∷ cs) n h e = ground arith

-- A printed integer parses back to itself.
pub set_string-append_int : (n : ℤ) → set_string (append_int [] n) ≡ some n
unfolding append_int
set_string-append_int (pos n) = set_string_digits _ n (digits_loop-IsDigit n n) (parse_nat-digits n)
set_string-append_int (negsuc n) = unfold set_string in rw (parse_nat-digits (suc n))

pub atoi-set_string :
    (s : Bytes) (n : ℤ) → set_string s ≡ some n → IsSigned (2 ^ 63) n → atoi s ≡ some n
unfolding atoi
atoi-set_string s (pos n) e h = rw (e, atoi) (ground arith)
atoi-set_string s (negsuc n) e h = rw (e, atoi) (ground arith)

pub atoi-digits : (n : ℕ) → n < 2 ^ 63 → atoi (digits_loop n n) ≡ some (pos n)
unfolding append_int
atoi-digits n h = atoi-set_string (digits_loop n n) (pos n) (set_string-append_int (pos n)) h
