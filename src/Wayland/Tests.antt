-- ===== src/Wayland/Tests.antt =====
-- wayland/: a keymap and requests, at concrete inputs.
use go_xpra.Prelude.{
  true, false, inl, inr, arith, ℕ, ◌+◌, ◌*◌, ◌/◌, ◌%◌, ◌≤◌, ◌≡◌, refl, List, [], ◌∷◌, ◌++◌, some,
  length, arith,
}
use go_xpra.Prelude.Int.{◌+ℤ◌}
use go_xpra.Prelude.Bytes.{Bytes, codes, bytes_eq}
use go_xpra.Prelude.Table.{lookup, insert, nat_key}
use go_xpra.Rencode.Decimal.{parse_nat, parse_digits, is_digit}
use go_xpra.Prelude.Text.{
  cut_at, cut_prefix, behind_keyword, cons_head, split, trim_space, trim_front, blank_width,
  last_blank_width, backwards,
}
use go_xpra.Wayland.Keymap.{
  keycode_offset, braced, section_body, parse_uint32, before_semicolon, keycode_line, add_keycodes,
  parse_keycodes, after_byte, statements_from, split_statements, bracket_group, symbol_list,
}
use go_xpra.Wayland.Keymap.Split.{join}
use go_xpra.Wayland.Keymap.Whole.{Whole, empty, plain, quoted, bracketed, split_statements-join}
use go_xpra.Wayland.Keymap.Symbols.{
  symbol_name, split_symbols, named_key, parse_key_statement, add_key, add_statements, keymap_of,
  parse_keymap,
}
use go_xpra.Wayland.Keymap.Described.{Numbers, Names, parse_keymap-described}
use go_xpra.Wayland.Wire.{string_size, bind_global, string_request}
use go_xpra.Wayland.Wire.Layout.{bind_header, header_bytes, with_string, requests-bytes}

-- xgbutil's table, which the names below do not need.
abbrev no_names : ℕ → Bytes
no_names keysym = []

abbrev small_keymap : Bytes
small_keymap =
    codes "xkb_keycodes \"evdev\" {\n <ESC> = 9;\n <AE01> = 10;\n};\n"
    ++ codes
        "xkb_symbols \"pc\" {\n key <AE01> { type= \"X;\", symbols[Group1]= [ 1, exclam ] };\n};"

abbrev digit_one : List Bytes
digit_one = codes "1" ∷ codes "exclam" ∷ []

parse_small : lookup (parse_keymap no_names small_keymap) 2 ≡ some digit_one
unfolding parse_keymap keymap_of parse_keycodes section_body behind_keyword cut_prefix cut_at braced
    split cons_head add_keycodes keycode_line trim_space trim_front blank_width last_blank_width
    backwards before_semicolon parse_uint32 parse_nat parse_digits is_digit insert lookup bytes_eq
    split_statements statements_from after_byte ◌+ℤ◌ add_statements parse_key_statement named_key
    symbol_list bracket_group split_symbols symbol_name add_key
parse_small = refl

parse_keymap-described_example :
    (key : Bytes) × Names no_names
      (split_statements (section_body small_keymap (codes "xkb_symbols")))
      key
      digit_one
    × Numbers (split 10 (section_body small_keymap (codes "xkb_keycodes"))) key (2 + keycode_offset)
parse_keymap-described_example =
    parse_keymap-described no_names small_keymap 2 digit_one parse_small

-- A statement with semicolons in a quote and in a bracket, and a quoted closing bracket.
abbrev block : Bytes
block = codes "k{\"};\";}"

block-Whole : Whole false block
block-Whole =
    plain false b'k' _ (ground arith, ground arith, ground arith, ground arith, ground arith)
      (inr (ground arith))
      (bracketed false b'{' b'}' (codes "\"};\";") [] (inl refl) (inl refl)
        (quoted true (codes "};") (codes ";") (ground arith, (ground arith, tt))
          (plain true b';' [] (ground arith, ground arith, ground arith, ground arith, ground arith)
            (inl refl) (empty true)))
        (empty false))

split_statements-join_example :
    (join b';' (split_statements (codes "}; a;b")) ≡ codes "}; a;b")
    × (split_statements (join b';' (block ∷ block ∷ [])) ≡ block ∷ block ∷ [])
split_statements-join_example =
    split_statements-join (codes "}; a;b") block (block ∷ []) block-Whole (block-Whole, tt)

-- The little-endian words and the padding of the wire.
abbrev le_word : ℕ → Bytes
le_word n = n % 256 ∷ n / 256 % 256 ∷ n / 65536 % 256 ∷ n / 16777216 % 256 ∷ []

abbrev padded : ℕ → ℕ
padded n = (n + 3) / 4 * 4

padded_ge : (n : ℕ) → n ≤ padded n
padded_ge n = omega arith

word_length : (n : ℕ) → length (le_word n) ≡ 4
word_length n = refl

requests-bytes_example :
    (bind_global le_word padded 2 5 (codes "wl_shm") 1 7
      ≡ (with_string le_word padded word_length padded_ge
            (bind_header le_word padded word_length padded_ge 2 5 (codes "wl_shm"))
            (codes "wl_shm")
          ++ le_word 1)
        ++ le_word 7)
    × (string_request le_word padded 2 3 (codes "wl_shm")
        ≡ with_string le_word padded word_length padded_ge
            (header_bytes le_word padded word_length padded_ge 2 3
              (8 + string_size le_word padded (codes "wl_shm")))
            (codes "wl_shm"))
requests-bytes_example =
    requests-bytes le_word padded word_length padded_ge 2 5 3 (codes "wl_shm") 1 7
