-- ===== src/Rencode/RoundTrip/Bigs.antt =====
-- rencodeplus/: arbitrary precision integers through `encodeBigInt` and `bigInt`.
use go_xpra.Prelude.{
  zero, suc, ◌^◌, ◌≡◌, refl, ◌∙◌, true, false, [], ◌∷◌, ◌++◌, arith, All, some, append_assoc, ap,
  Bool-cases, inl, inr,
}
use go_xpra.Prelude.Int.{ℤ, pos, negsuc, IsSigned, fits_signed}
use go_xpra.Prelude.Bytes.{Bytes}
use go_xpra.Prelude.Result.{ok}
use go_xpra.Rencode.Value.{Value}
use go_xpra.Rencode.Tag
use go_xpra.Rencode.Decimal.{append_int, digits_loop}
use go_xpra.Rencode.Decimal.Laws.{IsDigit, digits_loop-IsDigit, set_string-append_int}
use go_xpra.Rencode.Encode.{encode_big_int}
use go_xpra.Rencode.Decode.{tagged, is_terminator, big_int, big_payload}
use go_xpra.Rencode.Received.{received_int}
use go_xpra.Rencode.RoundTrip.Codec.{Codec, Reads}
use go_xpra.Rencode.RoundTrip.Ints.{int-Codec, value-tagged}
use go_xpra.Rencode.RoundTrip.Texts.{scan-append}

append_int-buffer : (buf : Bytes) (n : ℤ) → append_int buf n ≡ buf ++ append_int [] n
unfolding append_int
append_int-buffer buf (pos n) = refl
append_int-buffer buf (negsuc n) = append_assoc buf (b'-' ∷ []) (digits_loop (suc n) (suc n))

no_terminator : (s : Bytes) → All IsDigit s → All (λ x. is_terminator x ≡ false) s
no_terminator [] h = tt
no_terminator (c ∷ cs) h = (ground arith, no_terminator cs h.1)

append_int-no_terminator : (n : ℤ) → All (λ x. is_terminator x ≡ false) (append_int [] n)
unfolding append_int
append_int-no_terminator (pos n) = no_terminator _ (digits_loop-IsDigit n n)
append_int-no_terminator (negsuc n) = (refl, no_terminator _ (digits_loop-IsDigit (suc n) (suc n)))

big-Reads :
    (n : ℤ)
    → fits_signed (2 ^ 63) n ≡ false
    → Reads 0 (Tag.int ∷ (append_int [] n ++ Tag.term ∷ [])) (Value.big_ptr (some n))
unfolding big_payload
big-Reads n h rest zero depth hf hd = absurd (omega arith)
big-Reads n h rest (suc f) depth hf hd =
    value-tagged Tag.int f depth _ (omega arith) (omega arith)
    ∙ unfold tagged big_int in
      rw
        (
          append_assoc (append_int [] n) (Tag.term ∷ []) rest,
          scan-append is_terminator (append_int [] n) Tag.term rest (append_int-no_terminator n)
              refl,
        )
        (rw (set_string-append_int n, big_payload) (rw h))

fits→IsSigned : (n : ℤ) → fits_signed (2 ^ 63) n ≡ true → IsSigned (2 ^ 63) n
fits→IsSigned (pos n) h = ground arith
fits→IsSigned (negsuc n) h = ground arith

pub big-Codec : (n : ℤ) → Codec 0 (λ buf. encode_big_int buf n) (received_int n)
unfolding encode_big_int received_int
big-Codec n = elim (Bool-cases (fits_signed (2 ^ 63) n)) [
  | inl e ↦
      let c = int-Codec n (fits→IsSigned n e) in
      record {
        image = c.image;
        writes = λ buf. rw e (c.writes buf);
        starts = c.starts;
        reads = rw e c.reads;
      }
  | inr e ↦ record {
    image = Tag.int ∷ (append_int [] n ++ Tag.term ∷ []);
    writes = λ buf.
        rw (e, append_int-buffer)
          (ap ok (append_assoc (buf ++ Tag.int ∷ []) _ _ ∙ append_assoc buf _ _));
    starts = omega arith;
    reads = rw e (big-Reads n e);
  }
]
