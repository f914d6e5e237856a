-- ===== src/Rencode/RoundTrip/Codec.antt =====
-- What it means that a writer and the decoder agree on a value, and one step of the decoder on each
-- form of the wire format.
use go_xpra.Prelude.{
  ℕ, ◌+◌, ◌*◌, ◌^◌, ◌<◌, ◌≤◌, ◌≡◌, true, [], ◌∷◌, ◌++◌, arith, length, length-append, take-append,
  drop-append, le→ltb, ◌≢◌,
}
use go_xpra.Prelude.Int.{ℤ, pos, IsSigned, to_word, of_word-to_word, to_word-lt}
use go_xpra.Prelude.Bytes.{Bytes, be_bytes, length-be_bytes, be_value-be_bytes}
use go_xpra.Prelude.Result.{ok}
use go_xpra.Rencode.Value.{Value}
use go_xpra.Rencode.Tag
use go_xpra.Rencode.Encode.{Writer}
use go_xpra.Rencode.Decode.{value, next, ahead, more, fixed_int}

-- The decoder reads `v` off the front of any input that starts with `bs`, where `h` levels of
-- nesting are left.
abbrev pub Reads : ℕ → Bytes → Value → Type 0
Reads h bs v =
    (rest : Bytes) (f depth : ℕ)
    → 2 * length bs ≤ f
    → depth + h ≤ 64
    → value f depth (bs ++ rest) ≡ ok (v, rest)

abbrev pub Writes : Writer → Bytes → Type 0
Writes w bs = (buf : Bytes) → w buf ≡ ok (buf ++ bs)

-- No item begins with the terminator.
abbrev pub Starts : Bytes → Type 0
Starts [] = ⊥
Starts (b ∷ bs) = b ≢ Tag.term

-- The writer appends `image`, whatever stands in the buffer, and the decoder reads `v` from it.
pub record Codec (h : ℕ) (w : Writer) (v : Value) : Type 0 where
  pub image : Bytes
  pub writes : Writes w image
  pub starts : Starts image
  pub reads : Reads h image v

pub Starts-pos : (bs : Bytes) → Starts bs → 0 < length bs
Starts-pos [] s = absurd s
Starts-pos (b ∷ bs) s = omega arith

pub ahead-Starts : (n : ℕ) (bs rest : Bytes) → Starts bs → ahead n true (bs ++ rest) ≡ more
unfolding ahead
ahead-Starts n [] rest s = absurd s
ahead-Starts n (b ∷ bs) rest s = ground arith

pub Reads-mono : (h h' : ℕ) (bs : Bytes) (v : Value) → h ≤ h' → Reads h bs v → Reads h' bs v
Reads-mono h h' bs v le r = λ rest f depth hf hd. r rest f depth hf (omega arith)

pub Codec-mono : (h h' : ℕ) (w : Writer) (v : Value) → h ≤ h' → Codec h w v → Codec h' w v
Codec-mono h h' w v le c = record {
  image = c.image;
  writes = c.writes;
  starts = c.starts;
  reads = Reads-mono h h' c.image v le c.reads;
}

-- `next` takes exactly the bytes that stand there.
pub next-append : (bs rest : Bytes) → next (pos (length bs)) (bs ++ rest) ≡ ok (bs, rest)
unfolding next
next-append bs rest = rw (
  le→ltb (length (bs ++ rest)) (length bs) (omega (arith, length-append bs rest)),
  take-append bs rest,
  drop-append bs rest,
)

pub next-append_n :
    (n : ℕ) (bs rest : Bytes) → length bs ≡ n → next (pos n) (bs ++ rest) ≡ ok (bs, rest)
next-append_n n bs rest e = rw (← e) (next-append bs rest)

-- A signed integer comes back from its `k` big-endian bytes.
pub fixed_int-be_bytes :
    (k h : ℕ) (n : ℤ) (rest : Bytes)
    → 2 * h ≡ 256 ^ k
    → 0 < h
    → IsSigned h n
    → fixed_int k h (be_bytes k (to_word h n) ++ rest) ≡ ok (Value.int n, rest)
unfolding fixed_int
fixed_int-be_bytes k h n rest e p r = rw (
  next-append_n k (be_bytes k (to_word h n)) rest (length-be_bytes k (to_word h n)),
  be_value-be_bytes k (to_word h n) (omega (arith, to_word-lt h n p)),
  of_word-to_word h n r,
)
