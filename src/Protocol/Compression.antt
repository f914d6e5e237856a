-- ===== src/Protocol/Compression.antt =====
-- protocol/conn.go, `decompress`. The LZ4 block decoder is a library's: a parameter that is given the
-- block and the size of the output, and returns the bytes that it produced, or fails.
use Prim.Native.Nat.{bit_and}
use go_xpra.Prelude.{
  ℕ, ◌+◌, ◌*◌, ◌≤◌, ◌≡◌, ◌∷◌, Option, none, some, length, drop, ltb, not, ◌==◌, if◌then◌else◌,
  arith, Option-cases, inl, inr,
}
use go_xpra.Prelude.Bytes.{Bytes}
use go_xpra.Prelude.Result.{Result, ok, err}
use go_xpra.Protocol.Header.{max_payload_size}

-- The errors, without the numbers that their messages print.
pub data CompressionError : Type 0 where
  zstd_used brotli_used zlib_used no_size_prefix expands_too_far lz4_failed wrong_size :
      CompressionError

-- The little-endian word at the head of a payload.
unfoldable pub le_value : Bytes → ℕ
le_value (b0 ∷ b1 ∷ b2 ∷ b3 ∷ rest) = b0 + 256 * b1 + 65536 * b2 + 16777216 * b3
le_value _ = 0

module _ (uncompress_block : Bytes → ℕ → Option Bytes) where
  unfoldable pub inflate : ℕ → Bytes → Result CompressionError Bytes
  inflate size block = elim (uncompress_block block size) [
    | none ↦ err lz4_failed
    | some out ↦ if length out == size then ok out else err wrong_size
  ]

  unfoldable pub decompress : ℕ → Bytes → Result CompressionError Bytes
  decompress compression payload =
      if bit_and compression 0x10 == 0
      then (if not (bit_and compression 0x80 == 0)
          then err zstd_used
          else if not (bit_and compression 0x40 == 0)
          then err brotli_used
          else err zlib_used)
      else if ltb (length payload) 4
      then err no_size_prefix
      else if ltb max_payload_size (le_value payload)
      then err expands_too_far
      else inflate (le_value payload) (drop 4 payload)

  inflate_lem : (size : ℕ) (block out : Bytes) → inflate size block ≡ ok out → length out ≡ size
  unfolding inflate
  inflate_lem size block out e = elim (Option-cases (uncompress_block block size)) [
    | inl q ↦ absurd (ground arith)
    | inr (o, q) ↦ ground arith
  ]

  -- Whatever the LZ4 decoder does, an inflated payload has exactly the announced size, within the
  -- packet limit, and came with a size prefix.
  pub decompress_bounds :
      (compression : ℕ) (payload out : Bytes)
      → decompress compression payload ≡ ok out
      → (length out ≡ le_value payload) × (length out ≤ max_payload_size) × (4 ≤ length payload)
  unfolding decompress
  decompress_bounds compression payload out e =
      let size = inflate_lem (le_value payload) (drop 4 payload) out in
      (ground arith, ground arith, ground arith)
