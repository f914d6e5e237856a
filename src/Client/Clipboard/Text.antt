-- ===== src/Client/Clipboard/Text.antt =====
-- client/clipboard.go: which values of a packet are text of the clipboard, and `unicode/utf8`.
pub mod Valid
use go_xpra.Prelude.{
  ℕ, ◌+◌, ◌/◌, ◌%◌, Bool, true, false, ◌||◌, ◌&&◌, not, List, [], ◌∷◌, ◌++◌, Option, none, some,
  length, get_elem?, leb, ltb, ◌==◌, if◌then◌else◌,
}
use go_xpra.Prelude.Int.{ℤ, pos, eqb_ℤ}
use go_xpra.Prelude.Bytes.{Bytes, codes, bytes_eq}
use go_xpra.Rencode.Value.{Value, Values, no_values, item}

abbrev pub max_clipboard_bytes : ℕ
max_clipboard_bytes = 16777216

abbrev pub max_clipboard_token_bytes : ℕ
max_clipboard_token_bytes = 4194304

abbrev pub clipboard_selection : Bytes
clipboard_selection = codes "CLIPBOARD"

abbrev pub clipboard_targets : List Bytes
clipboard_targets =
    codes "UTF8_STRING"
    ∷ codes "text/plain;charset=utf-8"
    ∷ codes "text/plain"
    ∷ codes "TEXT"
    ∷ codes "STRING"
    ∷ []

-- The ranges of the bytes that follow the first one of a character.
abbrev pub Ranges : Type 0
Ranges = List (ℕ × ℕ)

abbrev pub tail_byte : ℕ × ℕ
tail_byte = (0x80, 0xbf)

unfoldable pub within : ℕ → ℕ → ℕ → Bool
within low high b = leb low b && leb b high

unfoldable pub following : ℕ → Option Ranges
following b =
    if ltb b 0x80
    then some []
    else if within 0xc2 0xdf b
    then some (tail_byte ∷ [])
    else if b == 0xe0
    then some ((0xa0, 0xbf) ∷ tail_byte ∷ [])
    else if b == 0xed
    then some ((0x80, 0x9f) ∷ tail_byte ∷ [])
    else if within 0xe1 0xef b
    then some (tail_byte ∷ tail_byte ∷ [])
    else if b == 0xf0
    then some ((0x90, 0xbf) ∷ tail_byte ∷ tail_byte ∷ [])
    else if within 0xf1 0xf3 b
    then some (tail_byte ∷ tail_byte ∷ tail_byte ∷ [])
    else if b == 0xf4
    then some ((0x80, 0x8f) ∷ tail_byte ∷ tail_byte ∷ [])
    else none

-- `utf8.Valid`, within a character and at the start of one.
unfoldable pub valid_from : Ranges → Bytes → Bool
valid_from [] [] = true
valid_from (r ∷ rs) [] = false
valid_from [] (b ∷ bs) = elim (following b) [ none ↦ false | some rs ↦ valid_from rs bs ]
valid_from ((low, high) ∷ rs) (b ∷ bs) = within low high b && valid_from rs bs

unfoldable pub utf8_valid : Bytes → Bool
utf8_valid bs = valid_from [] bs

-- `string(runes)` where every byte is a rune.
unfoldable pub rune_bytes : ℕ → Bytes
rune_bytes b = if ltb b 0x80 then b ∷ [] else (0xc0 + b / 64) ∷ (0x80 + b % 64) ∷ []

unfoldable pub latin_text : Bytes → Bytes
latin_text [] = []
latin_text (b ∷ bs) = rune_bytes (b % 256) ++ latin_text bs

unfoldable pub contains_string : List Bytes → Bytes → Bool
contains_string [] want = false
contains_string (v ∷ vs) want = bytes_eq v want || contains_string vs want

unfoldable pub is_clipboard_text_target : Bytes → Bool
is_clipboard_text_target target = contains_string clipboard_targets target

unfoldable pub data_text : Bytes → Bytes → Option Bytes
data_text target area =
    if ltb max_clipboard_bytes (length area)
    then none
    else if utf8_valid area
    then some area
    else if bytes_eq target (codes "STRING")
    then some (latin_text area)
    else none

unfoldable pub value_text : Bytes → Value → Option Bytes
value_text target (Value.binary area) = data_text target area
value_text target (Value.text area) = data_text target area
value_text target _ = none

unfoldable pub clipboard_wire_text : Bytes → ℤ → Bytes → Value → Option Bytes
clipboard_wire_text target format encoding value =
    if not (is_clipboard_text_target target)
      || not (eqb_ℤ format (pos 8))
      || not (bytes_eq encoding (codes "bytes"))
    then none
    else value_text target value

unfoldable pub first_of : List Bytes → List Bytes → Bytes
first_of [] targets = []
first_of (preferred ∷ others) targets =
    if contains_string targets preferred then preferred else first_of others targets

unfoldable pub preferred_clipboard_target : List Bytes → Bytes
preferred_clipboard_target [] = codes "UTF8_STRING"
preferred_clipboard_target targets = first_of clipboard_targets targets

unfoldable pub string_value : Value → Option Bytes
string_value (Value.text s) = some s
string_value (Value.binary b) = some b
string_value _ = none

unfoldable pub strings_of : Values → List Bytes
strings_of no_values = []
strings_of (item v vs) = elim (string_value v) [ some s ↦ s ∷ strings_of vs | none ↦ strings_of vs ]

unfoldable pub value_strings : Value → List Bytes
value_strings (Value.texts ss) = ss
value_strings (Value.list vs) = strings_of vs
value_strings _ = []
