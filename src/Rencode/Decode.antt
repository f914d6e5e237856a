-- ===== src/Rencode/Decode.antt =====
-- rencodeplus/decode.go. The decoder's `data` and `pos` are the input that is left, `data[pos:]`.
mod Ensures
mod Leaves
mod Store
pub mod Sound
use go_xpra.Prelude.{
  ℕ, zero, suc, ◌+◌, ◌-◌, ◌*◌, ◌^◌, Bool, true, false, ◌&&◌, ◌||◌, [], ◌∷◌, Option, none, some, ltb,
  leb, ◌==◌, if◌then◌else◌, length, take, drop,
}
use go_xpra.Prelude.Int.{ℤ, pos, negsuc, of_word, fits_signed}
use go_xpra.Prelude.Bytes.{Bytes, be_value}
use go_xpra.Prelude.Result.{Result, ok, err, ◌>>=◌}
use go_xpra.Rencode.Value.{Value, Values, Entries, no_values, item, no_entries, set}
use go_xpra.Rencode.Tag
use go_xpra.Rencode.Tag.{
  int_pos_fixed_count, int_neg_fixed_start, int_neg_fixed_count, dict_fixed_start, dict_fixed_count,
  str_fixed_start, str_fixed_count, list_fixed_start, sep_text, sep_binary,
}
use go_xpra.Rencode.Decimal.{atoi, set_string, append_int}
use go_xpra.Rencode.Encode.{widen}

-- The errors, without the numbers that their messages print. `out_of_fuel` is no error of the code.
pub data DecodeError : Type 0 where
  truncated too_deep bad_length bad_bignum bad_tag bad_key trailing_bytes out_of_fuel : DecodeError

-- A step reads from the input that is left, and says what is left after it.
abbrev pub Decoder {ℓ} : Type ℓ → Type ℓ
Decoder A = Bytes → Result DecodeError (A × Bytes)

abbrev pub max_depth : ℕ
max_depth = 64

-- `d.next(n)`.
unfoldable pub next : ℤ → Decoder Bytes
next (negsuc n) ts = err truncated
next (pos n) ts = if ltb (length ts) n then err truncated else ok (take n ts, drop n ts)

-- The loops that look for a separator or a terminator: what they pass, and where they stop.
unfoldable pub scan : (ℕ → Bool) → Bytes → Bytes × Bytes
scan stop [] = ([], [])
scan stop (b ∷ bs) =
    let (passed, rest) = scan stop bs in if stop b then ([], b ∷ bs) else (b ∷ passed, rest)

abbrev pub is_separator : ℕ → Bool
is_separator b = b == sep_text || b == sep_binary

abbrev pub is_terminator : ℕ → Bool
is_terminator b = b == Tag.term

-- What `sized` does once the separator is reached.
unfoldable pub sized_payload : Bytes → Decoder Value
sized_payload digits [] = err truncated
sized_payload digits (sep ∷ ts) = elim (atoi digits) [
  | none ↦ err bad_length
  | some n ↦ next n ts >>= λ (b, rest).
      ok (if sep == sep_binary then Value.binary b else Value.text b, rest)
]

unfoldable pub sized : Decoder Value
sized ts = let (digits, rest) = scan is_separator ts in sized_payload digits rest

unfoldable pub big_payload : Bytes → Decoder Value
big_payload digits [] = err truncated
big_payload digits (_ ∷ rest) = elim (set_string digits) [
  | none ↦ err bad_bignum
  | some n ↦ ok (if fits_signed (2 ^ 63) n then Value.int n else Value.big_ptr (some n), rest)
]

unfoldable pub big_int : Decoder Value
big_int ts = let (digits, rest) = scan is_terminator ts in big_payload digits rest

-- A big-endian integer of `k` bytes, signed, of `2 * h` values.
unfoldable pub fixed_int : ℕ → ℕ → Decoder Value
fixed_int k h ts = next (pos k) ts >>= λ (b, rest). ok (Value.int (of_word h (be_value b)), rest)

unfoldable pub fixed_text : ℕ → Decoder Value
fixed_text n ts = next (pos n) ts >>= λ (b, rest). ok (Value.text b, rest)

unfoldable pub float32_value : Decoder Value
float32_value ts = next (pos 4) ts >>= λ (b, rest). ok (Value.float64 (widen (be_value b)), rest)

unfoldable pub float64_value : Decoder Value
float64_value ts = next (pos 8) ts >>= λ (b, rest). ok (Value.float64 (be_value b), rest)

-- The second switch of `value`, over the tags that no range covers, but for the containers.
unfoldable pub tagged : ℕ → Decoder Value
tagged tag ts =
    if tag == Tag.none
    then ok (Value.nil, ts)
    else if tag == Tag.true
    then ok (Value.bool true, ts)
    else if tag == Tag.false
    then ok (Value.bool false, ts)
    else if tag == Tag.int1
    then fixed_int 1 128 ts
    else if tag == Tag.int2
    then fixed_int 2 (2 ^ 15) ts
    else if tag == Tag.int4
    then fixed_int 4 (2 ^ 31) ts
    else if tag == Tag.int8
    then fixed_int 8 (2 ^ 63) ts
    else if tag == Tag.int
    then big_int ts
    else if tag == Tag.float32
    then float32_value ts
    else if tag == Tag.float64
    then float64_value ts
    else err bad_tag

-- The key of a decoded pair as a Go string.
unfoldable pub key_name : Value → Option Bytes
key_name (Value.text k) = some k
key_name (Value.binary k) = some k
key_name (Value.int n) = some (append_int [] n)
key_name _ = none

-- `out[key] = v`.
unfoldable pub store : Value → Value → Entries → Result DecodeError Entries
store k v out = elim (key_name k) [ none ↦ err bad_key | some name ↦ ok (set name v out) ]

-- Before an item the loops of `list` and `dict` end by their count, or by a terminator.
pub data Ahead : Type 0 where
  -- the loop goes on, it ends with this input left, or the input does
  more : Ahead
  done : Bytes → Ahead
  cut : Ahead

unfoldable pub ahead : ℕ → Bool → Bytes → Ahead
ahead n false ts = if n == 0 then done ts else more
ahead n true [] = cut
ahead n true (b ∷ ts) = if b == Tag.term then done ts else more

-- What is done with the result of a loop: `value` returns it, `list` puts an item before it.
unfoldable pub as_list : Values × Bytes → Result DecodeError (Value × Bytes)
as_list (vs, rest) = ok (Value.list vs, rest)

unfoldable pub as_map : Entries × Bytes → Result DecodeError (Value × Bytes)
as_map (es, rest) = ok (Value.map_text es, rest)

unfoldable pub with_item : Value → Values × Bytes → Result DecodeError (Values × Bytes)
with_item v (vs, rest) = ok (item v vs, rest)

-- `value`, `list` and `dict`. What a call leaves is no structural part of its input, so that each
-- call costs a unit of fuel. `list` and `dict` count down the items to come.
unfoldable mutual
  pub value : ℕ → ℕ → Decoder Value
  value zero depth ts = err out_of_fuel
  value (suc f) depth [] = if ltb max_depth depth then err too_deep else err truncated
  value (suc f) depth (tag ∷ ts) =
      let list_of = λ (n : ℕ) (open_ended : Bool). list f n open_ended depth ts >>= as_list in
      let dict_of =
        λ (n : ℕ) (open_ended : Bool). dict f n open_ended depth no_entries ts >>= as_map in
      if ltb max_depth depth
      then err too_deep
      else if ltb tag int_pos_fixed_count
      then ok (Value.int (pos tag), ts)
      else if leb int_neg_fixed_start tag && ltb tag (int_neg_fixed_start + int_neg_fixed_count)
      then ok (Value.int (negsuc (tag - int_neg_fixed_start)), ts)
      else if leb str_fixed_start tag && ltb tag (str_fixed_start + str_fixed_count)
      then fixed_text (tag - str_fixed_start) ts
      else if leb list_fixed_start tag
      then list_of (tag - list_fixed_start) false
      else if leb dict_fixed_start tag && ltb tag (dict_fixed_start + dict_fixed_count)
      then dict_of (tag - dict_fixed_start) false
      else if leb b'0' tag && leb tag b'9'
      then sized (tag ∷ ts)
      else if tag == Tag.list
      then list_of 0 true
      else if tag == Tag.dict
      then dict_of 0 true
      else tagged tag ts

  pub list : ℕ → ℕ → Bool → ℕ → Decoder Values
  list zero n open_ended depth ts = err out_of_fuel
  list (suc f) n open_ended depth ts = elim (ahead n open_ended ts) [
    | cut ↦ err truncated
    | done rest ↦ ok (no_values, rest)
    | more ↦
        value f (depth + 1) ts >>= λ (v, rest). list f (n - 1) open_ended depth rest >>= with_item v
  ]

  pub dict : ℕ → ℕ → Bool → ℕ → Entries → Decoder Entries
  dict zero n open_ended depth out ts = err out_of_fuel
  dict (suc f) n open_ended depth out ts = elim (ahead n open_ended ts) [
    | cut ↦ err truncated
    | done rest ↦ ok (out, rest)
    | more ↦ value f (depth + 1) ts >>= λ (k, after_key).
        value f (depth + 1) after_key >>= λ (v, rest).
        store k v out >>= λ out'. dict f (n - 1) open_ended depth out' rest
  ]

unfoldable pub no_rest : Value × Bytes → Result DecodeError Value
no_rest (v, []) = ok v
no_rest (v, _ ∷ _) = err trailing_bytes

-- `Decode`. Every two units of fuel consume a byte.
unfoldable pub decode : Bytes → Result DecodeError Value
decode ts = value (2 * length ts + 2) 0 ts >>= no_rest
