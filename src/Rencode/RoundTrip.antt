-- ===== src/Rencode/RoundTrip.antt =====
-- rencodeplus/: `Encode` and `Decode` together.
mod Codec
mod Ints
mod Texts
mod Bigs
mod Lists
mod Containers
mod Floats
mod Sorting
mod Entries
mod Values
use native.Mathlib.Omega.{arith}
use go_xpra.Prelude.{ℕ, ◌+◌, ◌*◌, ◌≤◌, length, ◌≡◌, refl, [], ◌++◌, append-nil}
use go_xpra.Prelude.Bytes.{Bytes}
use go_xpra.Prelude.Result.{ok}
use go_xpra.Rencode.Value.{Value}
use go_xpra.Rencode.Encode.{encode, encode_value}
use go_xpra.Rencode.Decode.{decode, value, no_rest}
use go_xpra.Rencode.Received.{IsEncodable, height, received}
use Values.{encode-Codec}

-- Every encodable value that nests at most 64 deep is encoded, and decoding what was written gives
-- the value that the peer is meant to receive: integers of every type as int64 or *big.Int, floats
-- as float64, typed slices as lists, dictionaries and maps as maps with text keys.
pub decode-encode_value :
    (v : Value)
    → IsEncodable v
    → height v ≤ 64
    → (bs : Bytes) × (encode_value v ≡ ok bs) × (decode bs ≡ ok (received v))
unfolding encode_value decode
decode-encode_value v e h =
    let c = encode-Codec v e in
    let whole = c.reads [] (2 * length c.image + 2) 0 (omega arith) (omega arith) in
    (c.image, c.writes [], rw (rw append-nil at whole) (unfold no_rest in refl))

-- Encoded values can follow one another: the decoder takes the first and leaves the rest, and the
-- encoder only appends to its buffer.
pub value-encode :
    (v : Value)
    → IsEncodable v
    → (depth : ℕ) → depth + height v ≤ 64
    → (bs : Bytes) × ((buf : Bytes) → encode v buf ≡ ok (buf ++ bs))
      × ((rest : Bytes) (f : ℕ)
          → 2 * length bs ≤ f
          → value f depth (bs ++ rest) ≡ ok (received v, rest))
value-encode v e depth h =
    let c = encode-Codec v e in (c.image, c.writes, λ rest f hf. c.reads rest f depth hf h)
