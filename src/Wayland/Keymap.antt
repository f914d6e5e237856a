-- ===== src/Wayland/Keymap.antt =====
-- wayland/keymap.go: the key names of an XKB keymap. A slice is the text that it spans.
pub mod Symbols
pub mod Described
pub mod Split
pub mod Whole
use Prim.Native.Nat.{bit_and}
use go_xpra.Prelude.{
  ℕ, zero, suc, ◌+◌, ◌-◌, ◌*◌, ◌^◌, Bool, true, false, not, ◌&&◌, ◌||◌, List, [], ◌∷◌, ◌++◌, map,
  Option, none, some, ltb, leb, ◌==◌, if◌then◌else◌, length,
}
use go_xpra.Prelude.Int.{ℤ, pos, negsuc, ◌+ℤ◌, leb_ℤ}
use go_xpra.Prelude.Bytes.{Bytes, codes, bytes_eq}
use go_xpra.Prelude.Table.{Table, lookup, insert, bytes_key, nat_key}
use go_xpra.Rencode.Decimal.{parse_nat}
use go_xpra.Ui.Keys.{keysym_for}
use go_xpra.Keysym.{name_of}
use go_xpra.Command.Ssh.{is_empty}
use go_xpra.Prelude.Text.{cut_at, cut_prefix, behind_keyword, cons_head, split, trim_space}

abbrev pub keycode_offset : ℕ
keycode_offset = 8

-- The names of an evdev code by shift level.
abbrev pub Levels : Type 0
Levels = Table ℕ (List Bytes)

abbrev pub is_letter : ℕ → Bool
is_letter c = (leb b'a' c && leb c b'z') || (leb b'A' c && leb c b'Z')

unfoldable pub is_alpha_name : Bytes → Bool
is_alpha_name (c ∷ []) = is_letter c
is_alpha_name _ = false

abbrev pub has_bit : ℕ → ℕ → Bool
has_bit mods bit = not (bit_and mods bit == 0)

-- Shift, which caps lock inverts for letters.
unfoldable pub shifted : Bytes → ℕ → Bool
unfolding is_alpha_name
shifted first mods =
    if has_bit mods 2 && is_alpha_name first then not (has_bit mods 1) else has_bit mods 1

unfoldable pub level_name : List Bytes → ℕ → Bytes
unfolding shifted is_empty
level_name [] mods = []
level_name (first ∷ []) mods = first
level_name (first ∷ second ∷ more) mods =
    if shifted first mods && not (is_empty second) then second else first

unfoldable pub key_name : Levels → ℕ → ℕ → Bytes
unfolding level_name lookup
key_name levels keycode mods = elim (lookup levels keycode) [
  | none ↦ []
  | some names ↦ level_name names mods
]

abbrev pub next_depth : ℕ → ℕ → ℕ
next_depth c depth = if c == b'{' then depth + 1 else if c == b'}' then depth - 1 else depth

-- The text up to the brace that closes the one before it; `depth` more are open.
unfoldable pub braced : ℕ → Bytes → Option Bytes
braced depth [] = none
braced depth (c ∷ text) =
    let rest = braced (next_depth c depth) text in
    if c == b'}' && depth == 0
    then some []
    else elim rest [ none ↦ none | some body ↦ some (c ∷ body) ]

abbrev pub or_empty : Option Bytes → Bytes
or_empty none = []
or_empty (some text) = text

unfoldable pub section_body : Bytes → Bytes → Bytes
unfolding behind_keyword cut_at braced
section_body text keyword = elim (behind_keyword keyword text) [
  | none ↦ []
  | some rest ↦ elim (cut_at b'{' rest) [
    | none ↦ []
    | some (before, body) ↦ or_empty (braced 0 body)
  ]
]

-- `strconv.ParseUint(s, 10, 32)`.
unfoldable pub parse_uint32 : Bytes → Option ℕ
unfolding parse_nat
parse_uint32 s = elim (parse_nat s) [
  | none ↦ none
  | some n ↦ if ltb n (2 ^ 32) then some n else none
]

unfoldable pub before_semicolon : Bytes → Bytes
unfolding cut_at
before_semicolon text = elim (cut_at b';' text) [ none ↦ text | some (before, behind) ↦ before ]

-- One line `<AE01> = 10;`.
unfoldable pub keycode_line : Bytes → Option (Bytes × ℕ)
unfolding trim_space cut_prefix cut_at parse_uint32
keycode_line line = elim (cut_prefix (trim_space line) (codes "<")) [
  | none ↦ none
  | some inside ↦ elim (cut_at b'>' (trim_space line)) [
    | none ↦ none
    | some (before, behind) ↦ elim (cut_prefix (trim_space behind) (codes "=")) [
      | none ↦ none
      | some rest ↦ elim (parse_uint32 (trim_space (before_semicolon rest))) [
        | none ↦ none
        | some code ↦ some (before ++ (b'>' ∷ []), code)
      ]
    ]
  ]
]

unfoldable pub add_keycodes : List Bytes → Table Bytes ℕ → Table Bytes ℕ
unfolding keycode_line insert
add_keycodes [] known = known
add_keycodes (line ∷ lines) known = elim (keycode_line line) [
  | none ↦ add_keycodes lines known
  | some (key, code) ↦ add_keycodes lines (insert key code known)
]

unfoldable pub parse_keycodes : Bytes → Table Bytes ℕ
unfolding add_keycodes split
parse_keycodes body = add_keycodes (split 10 body) []

-- The depth in brackets, which an unmatched one makes negative, and whether a quote is open.
unfoldable pub after_byte : ℕ → ℤ × Bool → ℤ × Bool
unfolding ◌+ℤ◌
after_byte c (depth, quoted) =
    if c == b'"'
    then (depth, not quoted)
    else if quoted
    then (depth, quoted)
    else if c == b'{' || c == b'['
    then (depth +ℤ pos 1, quoted)
    else if c == b'}' || c == b']'
    then (depth +ℤ negsuc 0, quoted)
    else (depth, quoted)

abbrev pub ends_statement : ℕ → ℤ × Bool → Bool
ends_statement c (depth, quoted) = not quoted && c == b';' && leb_ℤ depth (pos 0)

unfoldable pub statements_from : ℤ × Bool → Bytes → List Bytes
unfolding after_byte cons_head
statements_from state [] = [] ∷ []
statements_from state (c ∷ body) =
    let rest = statements_from (after_byte c state) body in
    if ends_statement c state then [] ∷ rest else cons_head c rest

unfoldable pub split_statements : Bytes → List Bytes
unfolding statements_from
split_statements body = statements_from (pos 0, false) body

unfoldable pub bracket_group : Bytes → Option Bytes
unfolding cut_at
bracket_group s = elim (cut_at b'[' s) [
  | none ↦ none
  | some (before, behind) ↦ elim (cut_at b']' behind) [
    | none ↦ none
    | some (inside, after) ↦ some inside
  ]
]

unfoldable pub symbol_list : Bytes → Option Bytes
unfolding behind_keyword bracket_group cut_at
symbol_list statement = elim (behind_keyword (codes "symbols[") statement) [
  | some label ↦ elim (behind_keyword (codes "]=") label) [
    | some list ↦ bracket_group list
    | none ↦ none
  ]
  | none ↦ elim (cut_at b'{' statement) [
    | none ↦ none
    | some (before, behind) ↦ bracket_group behind
  ]
]
