-- ===== src/Rencode/RoundTrip/Ints.antt =====
-- rencodeplus/: integers of every width through `encodeInt` and the tags of `value`.
use native.Mathlib.Decide.{dec_lt}
use go_xpra.Prelude.{ℕ, zero, suc, ◌+◌, ◌*◌, ◌^◌, ◌<◌, ◌≤◌, ◌≡◌, refl, ◌∙◌, [], ◌∷◌, arith, ◌⊎◌}
use go_xpra.Prelude.Int.{ℤ, pos, negsuc, IsSigned, to_word, to_word-lt, ◌-ℤ◌}
use go_xpra.Prelude.Bytes.{Bytes, be_bytes}
use go_xpra.Rencode.Value.{Value}
use go_xpra.Rencode.Tag
use go_xpra.Rencode.Encode.{Writer, encode_int}
use go_xpra.Rencode.Decode.{value, tagged, fixed_int}
use go_xpra.Rencode.RoundTrip.Codec.{Codec, Reads, Writes, fixed_int-be_bytes}

-- The tags that `tagged` reads, after the tests on the depth and on the ranges.
pub value-tagged :
    (tag f depth : ℕ) (ts : Bytes)
    → (61 ≤ tag) × (tag < 70) ⊎ (tag ≡ 44)
    → depth ≤ 64
    → value (suc f) depth (tag ∷ ts) ≡ tagged tag ts
unfolding value
value-tagged tag f depth ts t d = ground arith

-- A tag above the fixed range, followed by `k` big-endian bytes.
word-Reads :
    (tag k h : ℕ) (n : ℤ)
    → ((61 ≤ tag) × (tag < 70)) ⊎ (tag ≡ 44)
    → ((rest : Bytes) → tagged tag rest ≡ fixed_int k h rest)
    → 2 * h ≡ 256 ^ k
    → 0 < h
    → IsSigned h n
    → Reads 0 (tag ∷ be_bytes k (to_word h n)) (Value.int n)
word-Reads tag k h n t e m p r rest zero depth hf hd = absurd (omega arith)
word-Reads tag k h n t e m p r rest (suc f) depth hf hd =
    value-tagged tag f depth _ t (omega arith) ∙ e _ ∙ fixed_int-be_bytes k h n rest m p r

-- The two ranges of tags that are integers.
fixed_pos-Reads : (n : ℕ) → n < 44 → Reads 0 (n ∷ []) (Value.int (pos n))
unfolding value
fixed_pos-Reads n h rest zero depth hf hd = absurd (omega arith)
fixed_pos-Reads n h rest (suc f) depth hf hd = ground arith

fixed_neg-Reads : (n : ℕ) → n < 32 → Reads 0 ((70 + n) ∷ []) (Value.int (negsuc n))
unfolding value
fixed_neg-Reads n h rest zero depth hf hd = absurd (omega arith)
fixed_neg-Reads n h rest (suc f) depth hf hd = ground arith

abbrev pub int_writer : ℤ → Writer
int_writer n = λ buf. encode_int buf n

-- Where `encode_int` writes a tag and a word, the decoder reads the integer.
word-Codec :
    (tag k h : ℕ) (n : ℤ)
    → ((61 ≤ tag) × (tag < 70)) ⊎ (tag ≡ 44)
    → ((rest : Bytes) → tagged tag rest ≡ fixed_int k h rest)
    → 2 * h ≡ 256 ^ k
    → 0 < h
    → IsSigned h n
    → Writes (int_writer n) (tag ∷ be_bytes k (to_word h n))
    → Codec 0 (int_writer n) (Value.int n)
word-Codec tag k h n t e m p r w = record {
  image = tag ∷ be_bytes k (to_word h n);
  writes = w;
  starts = omega arith;
  reads = word-Reads tag k h n t e m p r;
}

be_byte : (n : ℤ) → be_bytes 1 (to_word 128 n) ≡ to_word 128 n ∷ []
unfolding be_bytes
be_byte n = ground (arith, to_word-lt 128 n)

int1-Codec :
    (n : ℤ)
    → IsSigned 128 n
    → Writes (int_writer n) (Tag.int1 ∷ to_word 128 n ∷ [])
    → Codec 0 (int_writer n) (Value.int n)
int1-Codec n r w =
    word-Codec Tag.int1 1 128 n (omega arith) (λ rest. unfold tagged in refl) refl (omega arith) r
      (λ buf. rw be_byte (w buf))

int2-Codec :
    (n : ℤ)
    → IsSigned (2 ^ 15) n
    → Writes (int_writer n) (Tag.int2 ∷ be_bytes 2 (to_word (2 ^ 15) n))
    → Codec 0 (int_writer n) (Value.int n)
int2-Codec n r w =
    word-Codec Tag.int2 2 (2 ^ 15) n (omega arith) (λ rest. unfold tagged in refl) refl
      (omega arith) r w

int4-Codec :
    (n : ℤ)
    → IsSigned (2 ^ 31) n
    → Writes (int_writer n) (Tag.int4 ∷ be_bytes 4 (to_word (2 ^ 31) n))
    → Codec 0 (int_writer n) (Value.int n)
int4-Codec n r w =
    word-Codec Tag.int4 4 (2 ^ 31) n (omega arith) (λ rest. unfold tagged in refl) refl
      (omega arith) r w

int8-Codec :
    (n : ℤ)
    → IsSigned (2 ^ 63) n
    → Writes (int_writer n) (Tag.int8 ∷ be_bytes 8 (to_word (2 ^ 63) n))
    → Codec 0 (int_writer n) (Value.int n)
int8-Codec n r w =
    word-Codec Tag.int8 8 (2 ^ 63) n (omega arith) (λ rest. unfold tagged in refl) refl
      (omega arith) r w

fixed_pos-Codec : (n : ℕ) → n < 44 → Codec 0 (int_writer (pos n)) (Value.int (pos n))
unfolding encode_int to_word
fixed_pos-Codec n h = record {
  image = n ∷ [];
  writes = λ buf. ground arith;
  starts = omega arith;
  reads = fixed_pos-Reads n h;
}

fixed_neg-Codec : (n : ℕ) → n < 32 → Codec 0 (int_writer (negsuc n)) (Value.int (negsuc n))
unfolding encode_int to_word ◌-ℤ◌
fixed_neg-Codec n h = record {
  image = (70 + n) ∷ [];
  writes = λ buf. ground arith;
  starts = omega arith;
  reads = fixed_neg-Reads n h;
}

-- The range of a value decides its form.
pos-Codec : (n : ℕ) → n < 2 ^ 63 → Codec 0 (int_writer (pos n)) (Value.int (pos n))
pos-Codec n h = elim (dec_lt n 44) [
  | yes a ↦ fixed_pos-Codec n a
  | no a ↦ elim (dec_lt n 128) [
    | yes b ↦ int1-Codec (pos n) b (λ buf. unfold encode_int in ground arith)
    | no b ↦ elim (dec_lt n (2 ^ 15)) [
      | yes c ↦ int2-Codec (pos n) c (λ buf. unfold encode_int in ground arith)
      | no c ↦ elim (dec_lt n (2 ^ 31)) [
        | yes d ↦ int4-Codec (pos n) d (λ buf. unfold encode_int in ground arith)
        | no d ↦ int8-Codec (pos n) h (λ buf. unfold encode_int in ground arith)
      ]
    ]
  ]
]

negsuc-Codec : (n : ℕ) → n < 2 ^ 63 → Codec 0 (int_writer (negsuc n)) (Value.int (negsuc n))
negsuc-Codec n h = elim (dec_lt n 32) [
  | yes a ↦ fixed_neg-Codec n a
  | no a ↦ elim (dec_lt n 128) [
    | yes b ↦ int1-Codec (negsuc n) b (λ buf. unfold encode_int in ground arith)
    | no b ↦ elim (dec_lt n (2 ^ 15)) [
      | yes c ↦ int2-Codec (negsuc n) c (λ buf. unfold encode_int in ground arith)
      | no c ↦ elim (dec_lt n (2 ^ 31)) [
        | yes d ↦ int4-Codec (negsuc n) d (λ buf. unfold encode_int in ground arith)
        | no d ↦ int8-Codec (negsuc n) h (λ buf. unfold encode_int in ground arith)
      ]
    ]
  ]
]

-- Every int64 survives `encodeInt` and the decoder.
pub int-Codec : (n : ℤ) → IsSigned (2 ^ 63) n → Codec 0 (int_writer n) (Value.int n)
int-Codec (pos n) h = pos-Codec n h
int-Codec (negsuc n) h = negsuc-Codec n h
