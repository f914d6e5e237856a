-- ===== src/Wayland/Keymap/Symbols.antt =====
-- wayland/keymap.go: the statements of the xkb_symbols section, and the whole keymap.
use go_xpra.Prelude.{
  ℕ, ◌+◌, ◌-◌, ◌*◌, ◌^◌, Bool, ◌&&◌, ◌||◌, List, [], ◌∷◌, ◌++◌, map, Option, none, some, ltb, leb,
  ◌==◌, if◌then◌else◌,
}
use go_xpra.Prelude.Bytes.{Bytes, codes, bytes_eq}
use go_xpra.Prelude.Table.{Table, lookup, insert, bytes_key, nat_key}
use go_xpra.Ui.Keys.{keysym_for}
use go_xpra.Keysym.{name_of}
use go_xpra.Prelude.Text.{cut_at, cut_prefix, split, trim_space}
use go_xpra.Wayland.Keymap.{
  Levels, keycode_offset, section_body, parse_keycodes, split_statements, symbol_list,
}

abbrev pub is_space : ℕ → Bool
is_space c = c == 32 || c == 9 || c == 10 || c == 13

abbrev pub hex_value : ℕ → Option ℕ
hex_value c =
    if leb b'0' c && leb c b'9'
    then some (c - b'0')
    else if leb b'a' c && leb c b'f'
    then some (c - b'a' + 10)
    else if leb b'A' c && leb c b'F'
    then some (c - b'A' + 10)
    else none

unfoldable pub parse_hex_digits : ℕ → Bytes → Option ℕ
parse_hex_digits acc [] = some acc
parse_hex_digits acc (c ∷ cs) = elim (hex_value c) [
  | none ↦ none
  | some d ↦ parse_hex_digits (acc * 16 + d) cs
]

-- `strconv.ParseUint(s, 16, 32)`.
unfoldable pub parse_hex32 : Bytes → Option ℕ
unfolding parse_hex_digits
parse_hex32 [] = none
parse_hex32 (c ∷ cs) = elim (parse_hex_digits 0 (c ∷ cs)) [
  | none ↦ none
  | some n ↦ if ltb n (2 ^ 32) then some n else none
]

module _ (keysym_to_str : ℕ → Bytes) where
  unfoldable pub symbol_name : Bytes → Bytes
  unfolding cut_prefix parse_hex32 name_of
  symbol_name symbol =
      if bytes_eq symbol (codes "NoSymbol") || bytes_eq symbol (codes "VoidSymbol")
      then []
      else elim (cut_prefix symbol (codes "0x")) [
        | none ↦ symbol
        | some hex ↦ elim (parse_hex32 hex) [ none ↦ [] | some value ↦ name_of keysym_to_str value ]
      ]

  unfoldable pub split_symbols : Bytes → List Bytes
  unfolding split trim_space symbol_name
  split_symbols list = map (λ level. symbol_name (trim_space level)) (split b',' list)

  -- What follows `key` and a blank: the name, and the list.
  unfoldable pub named_key : Bytes → Option (Bytes × List Bytes)
  unfolding cut_prefix cut_at symbol_list split_symbols
  named_key rest = elim (cut_prefix rest (codes "<")) [
    | none ↦ none
    | some inside ↦ elim (cut_at b'>' rest) [
      | none ↦ none
      | some (before, behind) ↦ elim (symbol_list behind) [
        | none ↦ none
        | some list ↦ some (before ++ (b'>' ∷ []), split_symbols list)
      ]
    ]
  ]

  unfoldable pub parse_key_statement : Bytes → Option (Bytes × List Bytes)
  unfolding cut_prefix trim_space named_key
  parse_key_statement statement = elim (cut_prefix (trim_space statement) (codes "key")) [
    | none ↦ none
    | some [] ↦ none
    | some (c ∷ rest) ↦ if is_space c then named_key (trim_space (c ∷ rest)) else none
  ]

  unfoldable pub add_key : Table Bytes ℕ → Bytes × List Bytes → Levels → Levels
  unfolding lookup insert
  add_key keycodes (key, names) levels = elim (lookup keycodes key) [
    | none ↦ levels
    | some code ↦
        if ltb code keycode_offset then levels else insert (code - keycode_offset) names levels
  ]

  unfoldable pub add_statements : Table Bytes ℕ → List Bytes → Levels → Levels
  unfolding parse_key_statement add_key
  add_statements keycodes [] levels = levels
  add_statements keycodes (statement ∷ statements) levels = elim (parse_key_statement statement) [
    | none ↦ add_statements keycodes statements levels
    | some key ↦ add_statements keycodes statements (add_key keycodes key levels)
  ]

  -- Without a key code, the symbols are not read.
  unfoldable pub keymap_of : Table Bytes ℕ → Bytes → Levels
  unfolding section_body add_statements split_statements
  keymap_of [] text = []
  keymap_of (code ∷ more) text =
      add_statements (code ∷ more) (split_statements (section_body text (codes "xkb_symbols"))) []

  unfoldable pub parse_keymap : Bytes → Levels
  unfolding parse_keycodes section_body keymap_of
  parse_keymap text = keymap_of (parse_keycodes (section_body text (codes "xkb_keycodes"))) text

-- The numeric keysym and the text of a name.
unfoldable pub key_details : Bytes → ℕ × Bytes
unfolding keysym_for
key_details key = let c = keysym_for key in if c == 0 then (0, []) else (c, c ∷ [])
