-- ===== src/Rencode/RoundTrip/Texts.antt =====
-- rencodeplus/: texts, byte strings, floats and the constants, encoded and decoded.
use native.Mathlib.Decide.{dec_lt}
use go_xpra.Prelude.{
  ℕ, zero, suc, ◌+◌, ◌^◌, ◌<◌, ◌≤◌, ◌≡◌, refl, ◌∙◌, true, false, [], ◌∷◌, ◌++◌, arith, All, length,
  length-append, append_assoc, ap, Bool, inl,
}
use go_xpra.Prelude.Bytes.{Bytes, be_bytes, length-be_bytes, be_value-be_bytes}
use go_xpra.Prelude.Result.{ok}
use go_xpra.Rencode.Value.{Value}
use go_xpra.Rencode.Tag
use go_xpra.Rencode.Tag.{sep_text, sep_binary}
use go_xpra.Rencode.Decimal.{append_nat, digits_loop}
use go_xpra.Rencode.Decimal.Laws.{IsDigit, digits_loop-IsDigit, length-digits_loop_pos, atoi-digits}
use go_xpra.Rencode.Encode.{Writer, encode, encode_string, encode_bytes, encode_float}
use go_xpra.Rencode.Decode.{
  value, tagged, sized, sized_payload, fixed_text, scan, is_separator, is_terminator, float64_value,
}
use go_xpra.Rencode.RoundTrip.Codec.{Codec, Reads, Writes, next-append_n, next-append, Starts}
use go_xpra.Rencode.RoundTrip.Ints.{value-tagged}

-- A scan passes what the test refuses, and stops where it accepts.
pub scan-append :
    (stop : ℕ → Bool) (xs : Bytes) (b : ℕ) (rest : Bytes)
    → All (λ x. stop x ≡ false) xs
    → stop b ≡ true
    → scan stop (xs ++ b ∷ rest) ≡ (xs, b ∷ rest)
unfolding scan
scan-append stop [] b rest h e = rw e
scan-append stop (x ∷ xs) b rest h e = rw (scan-append stop xs b rest h.1 e, h.0)

no_separator : (s : Bytes) → All IsDigit s → All (λ x. is_separator x ≡ false) s
no_separator [] h = tt
no_separator (c ∷ cs) h = (ground arith, no_separator cs h.1)

no_terminator : (s : Bytes) → All IsDigit s → All (λ x. is_terminator x ≡ false) s
no_terminator [] h = tt
no_terminator (c ∷ cs) h = (ground arith, no_terminator cs h.1)

-- An input that starts with a digit is a sized text.
value-digit :
    (ds ts : Bytes) (f depth : ℕ)
    → All IsDigit ds
    → 0 < length ds
    → depth ≤ 64
    → value (suc f) depth (ds ++ ts) ≡ sized (ds ++ ts)
unfolding value
value-digit [] ts f depth h p d = absurd (omega arith)
value-digit (c ∷ cs) ts f depth h p d = ground arith

sized_text :
    (s rest : Bytes)
    → length s < 2 ^ 63
    → sized (digits_loop (length s) (length s) ++ b':' ∷ (s ++ rest)) ≡ ok (Value.text s, rest)
unfolding sized sized_payload
sized_text s rest h =
    let ds = digits_loop (length s) (length s) in
    rw
      (scan-append is_separator ds b':' (s ++ rest) (no_separator ds (digits_loop-IsDigit _ _))
        refl)
      (rw (atoi-digits (length s) h, sized_payload) (rw (next-append s rest)))

sized_binary :
    (s rest : Bytes)
    → length s < 2 ^ 63
    → sized (digits_loop (length s) (length s) ++ b'/' ∷ (s ++ rest)) ≡ ok (Value.binary s, rest)
unfolding sized sized_payload
sized_binary s rest h =
    let ds = digits_loop (length s) (length s) in
    rw
      (scan-append is_separator ds b'/' (s ++ rest) (no_separator ds (digits_loop-IsDigit _ _))
        refl)
      (rw (atoi-digits (length s) h, sized_payload) (rw (next-append s rest)))

-- A text or byte string with its decimal length before it.
sized-Reads :
    (s : Bytes) (sep : ℕ) (v : Value)
    → ((rest : Bytes)
        → sized (digits_loop (length s) (length s) ++ sep ∷ (s ++ rest)) ≡ ok (v, rest))
    → Reads 0 (digits_loop (length s) (length s) ++ sep ∷ s) v
sized-Reads s sep v e rest zero depth hf hd = absurd (
    omega (
      arith,
      length-digits_loop_pos (length s) (length s),
      length-append (digits_loop (length s) (length s)) (sep ∷ s),
    ))
sized-Reads s sep v e rest (suc f) depth hf hd =
    let ds = digits_loop (length s) (length s) in
    ap (λ t. value (suc f) depth t) (append_assoc ds (sep ∷ s) rest)
    ∙ value-digit ds (sep ∷ (s ++ rest)) f depth (digits_loop-IsDigit _ _)
        (length-digits_loop_pos _ _) (omega arith)
    ∙ e rest

Starts-digits : (ds ts : Bytes) → All IsDigit ds → 0 < length ds → Starts (ds ++ ts)
Starts-digits [] ts h p = absurd (omega arith)
Starts-digits (c ∷ cs) ts h p = omega arith

fixed_text-Reads : (s : Bytes) → length s < 64 → Reads 0 ((128 + length s) ∷ s) (Value.text s)
unfolding value fixed_text
fixed_text-Reads s h rest zero depth hf hd = absurd (omega arith)
fixed_text-Reads s h rest (suc f) depth hf hd = ground (arith, next-append s rest)

-- A string shorter than 2^63 bytes survives `encodeString` and the decoder.
pub text-Codec :
    (s : Bytes) → length s < 2 ^ 63 → Codec 0 (λ buf. ok (encode_string buf s)) (Value.text s)
text-Codec s h = elim (dec_lt (length s) 64) [
  | yes a ↦ record {
    image = (128 + length s) ∷ s;
    writes = λ buf. unfold encode_string in ground arith;
    starts = omega arith;
    reads = fixed_text-Reads s a;
  }
  | no a ↦
      let ds = digits_loop (length s) (length s) in
      record {
        image = ds ++ sep_text ∷ s;
        writes = λ buf.
            unfold encode_string append_nat in ground (arith, append_assoc buf ds (sep_text ∷ s));
        starts =
            Starts-digits ds (sep_text ∷ s) (digits_loop-IsDigit _ _) (length-digits_loop_pos _ _);
        reads = sized-Reads s sep_text (Value.text s) (λ rest. sized_text s rest h);
      }
]

pub binary-Codec :
    (s : Bytes) → length s < 2 ^ 63 → Codec 0 (λ buf. ok (encode_bytes buf s)) (Value.binary s)
binary-Codec s h =
    let ds = digits_loop (length s) (length s) in
    record {
      image = ds ++ sep_binary ∷ s;
      writes = λ buf.
          unfold encode_bytes append_nat in ground (arith, append_assoc buf ds (sep_binary ∷ s));
      starts =
          Starts-digits ds (sep_binary ∷ s) (digits_loop-IsDigit _ _) (length-digits_loop_pos _ _);
      reads = sized-Reads s sep_binary (Value.binary s) (λ rest. sized_binary s rest h);
    }

-- A tag that stands for a value by itself.
constant-Codec :
    (tag : ℕ) (w : Writer) (v : Value)
    → (61 ≤ tag) × (tag < 70)
    → Writes w (tag ∷ [])
    → ((rest : Bytes) → tagged tag rest ≡ ok (v, rest))
    → Codec 0 w v
constant-Codec tag w v t h e = record {
  image = tag ∷ [];
  writes = h;
  starts = omega arith;
  reads = reads;
}
  where
    reads : Reads 0 (tag ∷ []) v
    reads rest zero depth hf hd = absurd (omega arith)
    reads rest (suc f) depth hf hd = value-tagged tag f depth rest (inl t) (omega arith) ∙ e rest

pub nil-Codec : Codec 0 (encode Value.nil) Value.nil
nil-Codec =
    constant-Codec Tag.none _ _ (omega arith) (λ buf. unfold encode in refl)
      (λ rest. unfold tagged in refl)

pub bool-Codec : (b : Bool) → Codec 0 (encode (Value.bool b)) (Value.bool b)
bool-Codec true =
    constant-Codec Tag.true _ _ (omega arith) (λ buf. unfold encode in refl)
      (λ rest. unfold tagged in refl)
bool-Codec false =
    constant-Codec Tag.false _ _ (omega arith) (λ buf. unfold encode in refl)
      (λ rest. unfold tagged in refl)

-- A float keeps all 64 bits.
pub float-Codec : (b : ℕ) → b < 2 ^ 64 → Codec 0 (λ buf. ok (encode_float buf b)) (Value.float64 b)
float-Codec b h = record {
  image = Tag.float64 ∷ be_bytes 8 b;
  writes = λ buf. unfold encode_float in refl;
  starts = omega arith;
  reads = reads;
}
  where
    reads : Reads 0 (Tag.float64 ∷ be_bytes 8 b) (Value.float64 b)
    reads rest zero depth hf hd = absurd (omega arith)
    reads rest (suc f) depth hf hd =
        value-tagged Tag.float64 f depth (be_bytes 8 b ++ rest) (omega arith) (omega arith)
        ∙ unfold tagged float64_value in
          rw (next-append_n 8 (be_bytes 8 b) rest (length-be_bytes 8 b), be_value-be_bytes 8 b h)
