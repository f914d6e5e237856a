-- ===== src/Prelude/Int.antt =====
-- Signed integers over the native numbers, and Go's fixed-width integers as two's complement words.
use Prim.Native.Nat.{ℕ, suc, ◌+◌, ◌-◌, ◌%◌, ◌*◌, ◌≤◌, ◌<◌}
use mathlib.Core.Path.{◌≡◌, refl}
use mathlib.Core.Logic.{◌⊎◌, inl, inr}
use mathlib.Core.Bool.{Bool, true, false}
use native.Mathlib.Omega.{arith}
use native.Mathlib.Nat.{mod-eq_of_lt}
use go_xpra.Prelude.Tests.{ltb, leb, ◌==◌, if◌then◌else◌, Bool-cases}

-- `negsuc n` is -(n + 1).
pub data ℤ : Type 0 where
  pos : ℕ → ℤ
  negsuc : ℕ → ℤ

abbrev pub pos_part : ℤ → ℕ
pos_part (pos n) = n
pos_part (negsuc n) = 0

abbrev pub neg_part : ℤ → ℕ
neg_part (pos n) = 0
neg_part (negsuc n) = suc n

-- a - b, as an integer.
abbrev pub sub_ℕ : ℕ → ℕ → ℤ
sub_ℕ a b = if leb b a then pos (a - b) else negsuc (b - a - 1)

infixl 65 ◌+ℤ◌ ◌-ℤ◌
infix 50 ◌≤ℤ◌ ◌<ℤ◌
unfoldable pub ◌+ℤ◌ : ℤ → ℤ → ℤ
a +ℤ b = sub_ℕ (pos_part a + pos_part b) (neg_part a + neg_part b)

unfoldable pub ◌-ℤ◌ : ℤ → ℤ → ℤ
a -ℤ b = sub_ℕ (pos_part a + neg_part b) (neg_part a + pos_part b)

abbrev pub ◌≤ℤ◌ : ℤ → ℤ → Type 0
a ≤ℤ b = pos_part a + neg_part b ≤ pos_part b + neg_part a

abbrev pub ◌<ℤ◌ : ℤ → ℤ → Type 0
a <ℤ b = pos_part a + neg_part b < pos_part b + neg_part a

abbrev pub ltb_ℤ : ℤ → ℤ → Bool
ltb_ℤ a b = ltb (pos_part a + neg_part b) (pos_part b + neg_part a)

abbrev pub leb_ℤ : ℤ → ℤ → Bool
leb_ℤ a b = leb (pos_part a + neg_part b) (pos_part b + neg_part a)

abbrev pub eqb_ℤ : ℤ → ℤ → Bool
eqb_ℤ a b = (pos_part a + neg_part b) == (pos_part b + neg_part a)

-- The value lies in the range of a signed integer of `2 * h` values: -h ≤ a < h.
abbrev pub IsSigned : ℕ → ℤ → Type 0
IsSigned h (pos n) = n < h
IsSigned h (negsuc n) = n < h

abbrev pub fits_signed : ℕ → ℤ → Bool
fits_signed h (pos n) = ltb n h
fits_signed h (negsuc n) = ltb n h

-- Conversion to an unsigned word of `2 * h` values keeps the value modulo `2 * h`.
unfoldable pub to_word : ℕ → ℤ → ℕ
to_word h (pos n) = n % (2 * h)
to_word h (negsuc n) = 2 * h - 1 - n % (2 * h)

-- Conversion of a word of `2 * h` values to the signed integer of the same width.
unfoldable pub of_word : ℕ → ℕ → ℤ
of_word h w = if ltb w h then pos w else negsuc (2 * h - 1 - w)

-- An integer in the signed range survives the conversion to a word and back.
pub of_word-to_word : (h : ℕ) (a : ℤ) → IsSigned h a → of_word h (to_word h a) ≡ a
unfolding of_word to_word
of_word-to_word h (pos n) r = let e : n % (2 * h) ≡ n = mod-eq_of_lt (omega arith) in ground arith
of_word-to_word h (negsuc n) r =
    let e : n % (2 * h) ≡ n = mod-eq_of_lt (omega arith) in ground arith

pub to_word-lt : (h : ℕ) (a : ℤ) → 0 < h → to_word h a < 2 * h
unfolding to_word
to_word-lt h (pos n) p = grind arith
to_word-lt h (negsuc n) p = omega arith

-- One lemma for each operation lets `omega` work with the operations shut.
pub +ℤ_parts :
    (a b : ℤ)
    → pos_part (a +ℤ b) + neg_part a + neg_part b ≡ neg_part (a +ℤ b) + pos_part a + pos_part b
unfolding ◌+ℤ◌
+ℤ_parts a b = ground arith

pub -ℤ_parts :
    (a b : ℤ)
    → pos_part (a -ℤ b) + neg_part a + pos_part b ≡ neg_part (a -ℤ b) + pos_part a + neg_part b
unfolding ◌-ℤ◌
-ℤ_parts a b = ground arith

pub eq_of_parts : (a b : ℤ) → pos_part a + neg_part b ≡ pos_part b + neg_part a → a ≡ b
eq_of_parts a b h = ground arith

pub ltb_ℤ→lt : (a b : ℤ) → ltb_ℤ a b ≡ true → a <ℤ b
ltb_ℤ→lt a b h = ground arith

pub ltb_ℤ→le : (a b : ℤ) → ltb_ℤ a b ≡ false → b ≤ℤ a
ltb_ℤ→le a b h = ground arith

pub ruleset int_laws = (arith, +ℤ_parts, -ℤ_parts, eq_of_parts)

unfoldable pub min_ℤ : ℤ → ℤ → ℤ
min_ℤ a b = if ltb_ℤ b a then b else a

unfoldable pub max_ℤ : ℤ → ℤ → ℤ
max_ℤ a b = if ltb_ℤ a b then b else a

pub min_ℤ-cases : (a b : ℤ) → ((min_ℤ a b ≡ a) × (a ≤ℤ b)) ⊎ ((min_ℤ a b ≡ b) × (b ≤ℤ a))
unfolding min_ℤ
min_ℤ-cases a b = elim (Bool-cases (ltb_ℤ b a)) [
  | inl e ↦ rw e (inr (refl, omega (arith, ltb_ℤ→lt b a e)))
  | inr e ↦ rw e (inl (refl, ltb_ℤ→le b a e))
]

pub max_ℤ-cases : (a b : ℤ) → ((max_ℤ a b ≡ a) × (b ≤ℤ a)) ⊎ ((max_ℤ a b ≡ b) × (a ≤ℤ b))
unfolding max_ℤ
max_ℤ-cases a b = elim (Bool-cases (ltb_ℤ a b)) [
  | inl e ↦ rw e (inr (refl, omega (arith, ltb_ℤ→lt a b e)))
  | inr e ↦ rw e (inl (refl, ltb_ℤ→le a b e))
]
