-- ===== src/Rencode/Received.antt =====
-- rencodeplus/: which values `Encode` accepts, how deep they nest, and what the other side receives
-- for them.
use go_xpra.Prelude.{
  ℕ, suc, ◌^◌, ◌<◌, max, List, [], ◌∷◌, map, All, none, some, length, if◌then◌else◌,
}
use go_xpra.Prelude.Int.{ℤ, pos, IsSigned, fits_signed, ltb_ℤ}
use go_xpra.Prelude.Bytes.{Bytes, bytes_lt}
use go_xpra.Rencode.Value.{
  Value, Values, Entries, IntEntries, no_values, item, no_entries, entry, no_int_entries, int_entry,
  set,
}
use go_xpra.Rencode.Decimal.{append_int}
use go_xpra.Rencode.Encode.{widen, sort_keys}

-- A length that Go's `int` holds.
abbrev pub IsText : Bytes → Type 0
IsText s = length s < 2 ^ 63

-- A Go value that the encoder has a form for: numbers within their types' ranges, uints within
-- int64, no nil *big.Int, and nothing of another type.
unfoldable mutual
  pub IsEncodable : Value → Type 0
  IsEncodable Value.nil = Unit
  IsEncodable (Value.bool b) = Unit
  IsEncodable (Value.text s) = IsText s
  IsEncodable (Value.binary s) = IsText s
  IsEncodable (Value.int n) = IsSigned (2 ^ 63) n
  IsEncodable (Value.uint n) = n < 2 ^ 63
  IsEncodable (Value.big_int n) = Unit
  IsEncodable (Value.big_ptr none) = ⊥
  IsEncodable (Value.big_ptr (some n)) = Unit
  IsEncodable (Value.float32 b) = b < 2 ^ 32
  IsEncodable (Value.float64 b) = b < 2 ^ 64
  IsEncodable (Value.list vs) = AreEncodable vs
  IsEncodable (Value.texts ss) = All IsText ss
  IsEncodable (Value.ints ns) = All (IsSigned (2 ^ 63)) ns
  IsEncodable (Value.dict es) = EntriesEncodable es
  IsEncodable (Value.map_text es) = EntriesEncodable es
  IsEncodable (Value.map_int es) = IntEntriesEncodable es
  IsEncodable Value.other = ⊥

  pub AreEncodable : Values → Type 0
  AreEncodable no_values = Unit
  AreEncodable (item v vs) = IsEncodable v × AreEncodable vs

  pub EntriesEncodable : Entries → Type 0
  EntriesEncodable no_entries = Unit
  EntriesEncodable (entry k v es) = IsText k × IsEncodable v × EntriesEncodable es

  pub IntEntriesEncodable : IntEntries → Type 0
  IntEntriesEncodable no_int_entries = Unit
  IntEntriesEncodable (int_entry k v es) =
      IsSigned (2 ^ 63) k × IsEncodable v × IntEntriesEncodable es

-- How many containers stand around the innermost value.
unfoldable mutual
  pub height : Value → ℕ
  height (Value.list vs) = height_values vs
  height (Value.texts []) = 0
  height (Value.texts (s ∷ ss)) = 1
  height (Value.ints []) = 0
  height (Value.ints (n ∷ ns)) = 1
  height (Value.dict es) = height_entries es
  height (Value.map_text es) = height_entries es
  height (Value.map_int es) = height_int_entries es
  height _ = 0

  pub height_values : Values → ℕ
  height_values no_values = 0
  height_values (item v vs) = max (suc (height v)) (height_values vs)

  pub height_entries : Entries → ℕ
  height_entries no_entries = 0
  height_entries (entry k v es) = max (suc (height v)) (height_entries es)

  pub height_int_entries : IntEntries → ℕ
  height_int_entries no_int_entries = 0
  height_int_entries (int_entry k v es) = max (suc (height v)) (height_int_entries es)

-- What arrives for an integer: an int64 where it fits, a *big.Int otherwise.
unfoldable pub received_int : ℤ → Value
received_int n = if fits_signed (2 ^ 63) n then Value.int n else Value.big_ptr (some n)

unfoldable pub to_values : List Value → Values
to_values [] = no_values
to_values (v ∷ vs) = item v (to_values vs)

-- Assignment of all pairs, from left to right: a repeated key keeps its last value.
unfoldable pub set_all : Entries → List (Bytes × Value) → Entries
set_all es [] = es
set_all es ((k, v) ∷ l) = set_all (set k v es) l

-- Integer keys arrive as their decimal texts.
unfoldable pub text_key : ℤ × Value → Bytes × Value
text_key (k, v) = (append_int [] k, v)

-- The value that the peer's `Decode` returns.
unfoldable mutual
  pub received : Value → Value
  received Value.nil = Value.nil
  received (Value.bool b) = Value.bool b
  received (Value.text s) = Value.text s
  received (Value.binary s) = Value.binary s
  received (Value.int n) = Value.int n
  received (Value.uint n) = Value.int (pos n)
  received (Value.big_int n) = received_int n
  received (Value.big_ptr none) = Value.nil
  received (Value.big_ptr (some n)) = received_int n
  received (Value.float32 b) = Value.float64 (widen b)
  received (Value.float64 b) = Value.float64 b
  received (Value.list vs) = Value.list (received_values vs)
  received (Value.texts ss) = Value.list (to_values (map Value.text ss))
  received (Value.ints ns) = Value.list (to_values (map Value.int ns))
  received (Value.dict es) = Value.map_text (set_all no_entries (received_entries es))
  received (Value.map_text es) =
      Value.map_text (set_all no_entries (sort_keys bytes_lt (received_entries es)))
  received (Value.map_int es) =
      Value.map_text (set_all no_entries (map text_key (sort_keys ltb_ℤ (received_int_entries es))))
  received Value.other = Value.nil

  pub received_values : Values → Values
  received_values no_values = no_values
  received_values (item v vs) = item (received v) (received_values vs)

  pub received_entries : Entries → List (Bytes × Value)
  received_entries no_entries = []
  received_entries (entry k v es) = (k, received v) ∷ received_entries es

  pub received_int_entries : IntEntries → List (ℤ × Value)
  received_int_entries no_int_entries = []
  received_int_entries (int_entry k v es) = (k, received v) ∷ received_int_entries es
