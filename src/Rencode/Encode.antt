-- ===== src/Rencode/Encode.antt =====
-- rencodeplus/encode.go. A writer appends to a buffer, or fails.
use go_xpra.Prelude.{
  ℕ, zero, suc, ◌+◌, ◌-◌, ◌*◌, ◌/◌, ◌%◌, ◌^◌, Bool, ◌&&◌, List, [], ◌∷◌, ◌++◌, map, none, some, ltb,
  ◌==◌, if◌then◌else◌, length,
}
use go_xpra.Prelude.Int.{ℤ, pos, negsuc, ltb_ℤ, leb_ℤ, ◌-ℤ◌, to_word, fits_signed}
use go_xpra.Prelude.Bytes.{Bytes, bytes_lt, be_bytes}
use go_xpra.Prelude.Result.{Result, ok, err, ◌>>=◌}
use go_xpra.Rencode.Value.{
  Value, Values, Entries, IntEntries, no_values, item, no_entries, entry, no_int_entries, int_entry,
}
use go_xpra.Rencode.Tag
use go_xpra.Rencode.Tag.{
  int_pos_fixed_count, int_neg_fixed_start, int_neg_fixed_count, dict_fixed_start, dict_fixed_count,
  str_fixed_start, str_fixed_count, list_fixed_start, list_fixed_count, sep_text, sep_binary,
}
use go_xpra.Rencode.Decimal.{append_nat, append_int}

pub data EncodeError : Type 0 where
  uint_overflow : ℕ → EncodeError
  nil_big_int : EncodeError
  unsupported : EncodeError

abbrev pub Writer : Type 0
Writer = Bytes → Result EncodeError Bytes

unfoldable pub encode_string : Bytes → Bytes → Bytes
encode_string buf s =
    if ltb (length s) str_fixed_count
    then buf ++ ((str_fixed_start + length s) ∷ s)
    else append_nat buf (length s) ++ (sep_text ∷ s)

unfoldable pub encode_bytes : Bytes → Bytes → Bytes
encode_bytes buf b = append_nat buf (length b) ++ (sep_binary ∷ b)

unfoldable pub encode_int : Bytes → ℤ → Result EncodeError Bytes
encode_int buf n =
    if leb_ℤ (pos 0) n && ltb_ℤ n (pos int_pos_fixed_count)
    then ok (buf ++ (to_word 128 n ∷ []))
    else if leb_ℤ (negsuc (int_neg_fixed_count - 1)) n && ltb_ℤ n (pos 0)
    then ok (buf ++ (to_word 128 (pos (int_neg_fixed_start - 1) -ℤ n) ∷ []))
    else if leb_ℤ (negsuc 127) n && leb_ℤ n (pos 127)
    then ok (buf ++ (Tag.int1 ∷ to_word 128 n ∷ []))
    else if leb_ℤ (negsuc (2 ^ 15 - 1)) n && leb_ℤ n (pos (2 ^ 15 - 1))
    then ok (buf ++ (Tag.int2 ∷ be_bytes 2 (to_word (2 ^ 15) n)))
    else if leb_ℤ (negsuc (2 ^ 31 - 1)) n && leb_ℤ n (pos (2 ^ 31 - 1))
    then ok (buf ++ (Tag.int4 ∷ be_bytes 4 (to_word (2 ^ 31) n)))
    else ok (buf ++ (Tag.int8 ∷ be_bytes 8 (to_word (2 ^ 63) n)))

-- Outside int64: ASCII decimal digits up to a terminator.
unfoldable pub encode_big_int : Bytes → ℤ → Result EncodeError Bytes
encode_big_int buf n =
    if fits_signed (2 ^ 63) n
    then encode_int buf n
    else ok (append_int (buf ++ (Tag.int ∷ [])) n ++ (Tag.term ∷ []))

-- The conversion `float64(x)` of a float32, on the bit patterns: exponent and fraction of a
-- subnormal, whose fraction is doubled until its leading bit is the implicit one.
unfoldable pub normalize : ℕ → ℕ → ℕ → ℕ
normalize zero m e = e * 2 ^ 52 + (m - 2 ^ 23) * 2 ^ 29
normalize (suc f) m e =
    let again = normalize f (2 * m) (e - 1) in
    if ltb m (2 ^ 23) then again else e * 2 ^ 52 + (m - 2 ^ 23) * 2 ^ 29

-- The exponent and fraction of a float32, widened. A signalling NaN is made quiet.
unfoldable pub widen_magnitude : ℕ → ℕ → ℕ
widen_magnitude e m =
    if e == 255
    then (if m == 0
        then 2047 * 2 ^ 52
        else 2047 * 2 ^ 52 + (if ltb m (2 ^ 22) then m + 2 ^ 22 else m) * 2 ^ 29)
    else if e == 0
    then (if m == 0 then 0 else normalize 23 m 897)
    else (e + 896) * 2 ^ 52 + m * 2 ^ 29

unfoldable pub widen : ℕ → ℕ
widen b = b / 2 ^ 31 * 2 ^ 63 + widen_magnitude (b / 2 ^ 23 % 256) (b % 2 ^ 23)

unfoldable pub encode_float : Bytes → ℕ → Bytes
encode_float buf f = buf ++ (Tag.float64 ∷ be_bytes 8 f)

-- The loop of `encodeList` and `encodeDict`: the item functions in turn, up to the first error.
unfoldable pub write_all : List Writer → Writer
write_all [] buf = ok buf
write_all (w ∷ ws) buf = w buf >>= write_all ws

unfoldable pub encode_counted : ℕ → ℕ → ℕ → List Writer → Writer
encode_counted start count tag ws buf =
    let few = ltb (length ws) count in
    write_all ws (buf ++ ((if few then start + length ws else tag) ∷ [])) >>= λ out.
    ok (if few then out else out ++ (Tag.term ∷ []))

unfoldable pub encode_list : List Writer → Writer
encode_list = encode_counted list_fixed_start list_fixed_count Tag.list

unfoldable pub encode_dict : List Writer → Writer
encode_dict = encode_counted dict_fixed_start dict_fixed_count Tag.dict

-- `sort.Strings` and `sort.Ints` over the keys, each key with what is kept for it.
module _ {ℓ κ} {K : Type κ} {A : Type ℓ} (lt : K → K → Bool) where
  unfoldable pub insert_key : K → A → List (K × A) → List (K × A)
  insert_key k a [] = (k, a) ∷ []
  insert_key k a ((j, b) ∷ l) = if lt j k then (j, b) ∷ insert_key k a l else (k, a) ∷ (j, b) ∷ l

  unfoldable pub sort_keys : List (K × A) → List (K × A)
  unfolding insert_key
  sort_keys [] = []
  sort_keys ((k, a) ∷ l) = insert_key k a (sort_keys l)

-- The function that `encodeDict` calls for a pair.
unfoldable pub write_entry : Bytes × Writer → Writer
write_entry (k, w) buf = w (encode_string buf k)

unfoldable pub write_int_entry : ℤ × Writer → Writer
write_int_entry (k, w) buf = encode_int buf k >>= w

unfoldable mutual
  pub encode : Value → Writer
  encode Value.nil buf = ok (buf ++ (Tag.none ∷ []))
  encode (Value.bool b) buf = ok (buf ++ ((if b then Tag.true else Tag.false) ∷ []))
  encode (Value.text s) buf = ok (encode_string buf s)
  encode (Value.binary b) buf = ok (encode_bytes buf b)
  encode (Value.int n) buf = encode_int buf n
  encode (Value.uint n) buf =
      if ltb (2 ^ 63 - 1) n then err (uint_overflow n) else encode_int buf (pos n)
  encode (Value.big_int n) buf = encode_big_int buf n
  encode (Value.big_ptr none) buf = err nil_big_int
  encode (Value.big_ptr (some n)) buf = encode_big_int buf n
  encode (Value.float32 f) buf = ok (encode_float buf (widen f))
  encode (Value.float64 f) buf = ok (encode_float buf f)
  encode (Value.list vs) buf = encode_list (item_writers vs) buf
  encode (Value.texts ss) buf = encode_list (map (λ s b. ok (encode_string b s)) ss) buf
  encode (Value.ints ns) buf = encode_list (map (λ n b. encode_int b n) ns) buf
  encode (Value.dict es) buf = encode_dict (map write_entry (entry_writers es)) buf
  encode (Value.map_text es) buf =
      encode_dict (map write_entry (sort_keys bytes_lt (entry_writers es))) buf
  encode (Value.map_int es) buf =
      encode_dict (map write_int_entry (sort_keys ltb_ℤ (int_entry_writers es))) buf
  encode Value.other buf = err unsupported

  pub item_writers : Values → List Writer
  item_writers no_values = []
  item_writers (item v vs) = encode v ∷ item_writers vs

  pub entry_writers : Entries → List (Bytes × Writer)
  entry_writers no_entries = []
  entry_writers (entry k v es) = (k, encode v) ∷ entry_writers es

  pub int_entry_writers : IntEntries → List (ℤ × Writer)
  int_entry_writers no_int_entries = []
  int_entry_writers (int_entry k v es) = (k, encode v) ∷ int_entry_writers es

-- `Encode`.
unfoldable pub encode_value : Value → Result EncodeError Bytes
unfolding encode
encode_value v = encode v []
