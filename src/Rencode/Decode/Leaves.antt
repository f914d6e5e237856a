-- ===== src/Rencode/Decode/Leaves.antt =====
-- rencodeplus/decode.go: the steps that read no container.
use go_xpra.Prelude.{
  ℕ, Bool, suc, ◌^◌, ◌≤◌, ◌<◌, ◌≡◌, refl, true, [], ◌∷◌, arith, length, length-drop, ltb, ◌==◌,
  tests, Bool-cases, Option-cases, inl, inr, if◌then◌else◌,
}
use go_xpra.Prelude.Int.{ℤ, pos, negsuc, IsSigned, fits_signed, of_word}
use go_xpra.Prelude.Bytes.{Bytes, be_value}
use go_xpra.Prelude.Result.{ok}
use go_xpra.Rencode.Value.{Value}
use go_xpra.Rencode.Received.{height}
use go_xpra.Rencode.Decoded.{IsDecoded}
use go_xpra.Rencode.Decimal.{atoi, set_string}
use go_xpra.Rencode.Decode.{
  next, scan, is_separator, is_terminator, sized_payload, sized, big_payload, big_int, fixed_int,
  fixed_text, float32_value, float64_value, tagged,
}
use go_xpra.Rencode.Decode.Ensures.{Ensures, holds, fails, Ensures-bind, Ensures-if}

-- A value without parts, with at most `n` bytes left.
abbrev pub IsLeaf : ℕ → Value × Bytes → Type 0
IsLeaf n r = (length r.1 ≤ n) × IsDecoded r.0 × (height r.0 ≡ 0)

next-Ensures : (n : ℤ) (ts : Bytes) → Ensures (λ r. length r.1 ≤ length ts) (next n ts)
unfolding next
next-Ensures (negsuc n) ts = fails (λ e. cc)
next-Ensures (pos n) ts = elim (Bool-cases (ltb (length ts) n)) [
  | inl e ↦ rw e (fails (λ p. cc))
  | inr e ↦ rw e (holds (omega (arith, length-drop n ts)))
]

of_word-IsSigned : (h w k : ℕ) → h ≤ k → 0 < k → IsSigned k (of_word h w)
unfolding of_word
of_word-IsSigned h w k le p = elim (Bool-cases (ltb w h)) [
  | inl e ↦ rw e (omega tests)
  | inr e ↦ rw e (omega tests)
]

fixed_int-Ensures :
    (k h : ℕ) (ts : Bytes) → h ≤ 2 ^ 63 → Ensures (IsLeaf (length ts)) (fixed_int k h ts)
unfolding fixed_int IsDecoded height
fixed_int-Ensures k h ts le =
    Ensures-bind (next-Ensures (pos k) ts)
      λ (b, rest) s. holds (s, of_word-IsSigned h (be_value b) (2 ^ 63) le (omega arith), refl)

pub fixed_text-Ensures : (n : ℕ) (ts : Bytes) → Ensures (IsLeaf (length ts)) (fixed_text n ts)
unfolding fixed_text IsDecoded height
fixed_text-Ensures n ts = Ensures-bind (next-Ensures (pos n) ts) λ (b, rest) s. holds (s, tt, refl)

float32_value-Ensures : (ts : Bytes) → Ensures (IsLeaf (length ts)) (float32_value ts)
unfolding float32_value IsDecoded height
float32_value-Ensures ts = Ensures-bind (next-Ensures (pos 4) ts) λ (b, rest) s. holds (s, tt, refl)

float64_value-Ensures : (ts : Bytes) → Ensures (IsLeaf (length ts)) (float64_value ts)
unfolding float64_value IsDecoded height
float64_value-Ensures ts = Ensures-bind (next-Ensures (pos 8) ts) λ (b, rest) s. holds (s, tt, refl)

length-scan : (stop : ℕ → Bool) (ts : Bytes) → length (scan stop ts).1 ≤ length ts
unfolding scan
length-scan stop [] = omega arith
length-scan stop (b ∷ ts) = elim (Bool-cases (stop b)) [
  | inl e ↦ rw e (omega arith)
  | inr e ↦ rw e (omega (arith, length-scan stop ts))
]

sized_payload-Ensures :
    (digits ts : Bytes) (n : ℕ) → length ts ≤ suc n → Ensures (IsLeaf n) (sized_payload digits ts)
unfolding sized_payload IsDecoded height
sized_payload-Ensures digits [] n le = fails (λ e. cc)
sized_payload-Ensures digits (sep ∷ ts) n le = elim (Option-cases (atoi digits)) [
  | inl e ↦ rw (e, sized_payload) (fails (λ p. cc))
  | inr (k, e) ↦
      rw (e, sized_payload)
        (Ensures-bind (next-Ensures k ts) λ (b, rest) s. payload b rest (omega arith))
]
  where
    payload :
        (b rest : Bytes)
        → length rest ≤ n
        → Ensures (IsLeaf n) (ok (if sep == b'/' then Value.binary b else Value.text b, rest))
    payload b rest s = elim (Bool-cases (sep == b'/')) [
      | inl e ↦ rw e (holds (s, tt, refl))
      | inr e ↦ rw e (holds (s, tt, refl))
    ]

pub sized-Ensures : (t : ℕ) (ts : Bytes) → Ensures (IsLeaf (length ts)) (sized (t ∷ ts))
unfolding sized
sized-Ensures t ts =
    sized_payload-Ensures (scan is_separator (t ∷ ts)).0 (scan is_separator (t ∷ ts)).1 (length ts)
      (length-scan is_separator (t ∷ ts))

big_payload-Ensures :
    (digits ts : Bytes) (n : ℕ) → length ts ≤ n → Ensures (IsLeaf n) (big_payload digits ts)
unfolding big_payload IsDecoded height
big_payload-Ensures digits [] n le = fails (λ e. cc)
big_payload-Ensures digits (b ∷ ts) n le = elim (Option-cases (set_string digits)) [
  | inl e ↦ rw (e, big_payload) (fails (λ p. cc))
  | inr (k, e) ↦
      rw (e, big_payload)
        (elim (Bool-cases (fits_signed (2 ^ 63) k)) [
          | inl fits ↦ rw fits (holds (omega arith, signed k fits, refl))
          | inr big ↦ rw big (holds (omega arith, big, refl))
        ])
]
  where
    signed : (k : ℤ) → fits_signed (2 ^ 63) k ≡ true → IsSigned (2 ^ 63) k
    signed (pos n) h = ground arith
    signed (negsuc n) h = ground arith

big_int-Ensures : (ts : Bytes) → Ensures (IsLeaf (length ts)) (big_int ts)
unfolding big_int
big_int-Ensures ts =
    big_payload-Ensures (scan is_terminator ts).0 (scan is_terminator ts).1 (length ts)
      (length-scan is_terminator ts)

-- What `tagged` returns leaves no more than it was given.
pub tagged-Ensures : (tag : ℕ) (ts : Bytes) → Ensures (IsLeaf (length ts)) (tagged tag ts)
unfolding tagged IsDecoded height
tagged-Ensures tag ts = Ensures-if (tag == 69) (holds (omega arith, tt, refl)) (
    Ensures-if (tag == 67) (holds (omega arith, tt, refl)) (
      Ensures-if (tag == 68) (holds (omega arith, tt, refl)) (
        Ensures-if (tag == 62) (fixed_int-Ensures 1 128 ts (omega arith)) (
          Ensures-if (tag == 63) (fixed_int-Ensures 2 (2 ^ 15) ts (omega arith)) (
            Ensures-if (tag == 64) (fixed_int-Ensures 4 (2 ^ 31) ts (omega arith)) (
              Ensures-if (tag == 65) (fixed_int-Ensures 8 (2 ^ 63) ts (omega arith)) (
                Ensures-if (tag == 61) (big_int-Ensures ts) (
                  Ensures-if (tag == 66) (float32_value-Ensures ts)
                    (Ensures-if (tag == 44) (float64_value-Ensures ts) (fails (λ e. cc)))))))))))
