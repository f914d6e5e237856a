-- ===== src/Ui/Keys.antt =====
-- ui/keys.go: the X11 names of printable ASCII characters. A name is its bytes: a name of one rune
-- that is a letter or a digit has one byte.
pub mod Laws
pub mod Modifiers
use Prim.Native.Nat.{bit_and}
use go_xpra.Prelude.{
  ℕ, Bool, true, false, ◌&&◌, ◌||◌, List, [], ◌∷◌, Option, none, some, leb, ◌==◌, if◌then◌else◌,
}
use go_xpra.Prelude.Bytes.{Bytes, codes, bytes_eq}

abbrev pub punctuation_keysyms : List (ℕ × Bytes)
punctuation_keysyms =
    (0x20, codes "space")
    ∷ (0x21, codes "exclam")
    ∷ (0x22, codes "quotedbl")
    ∷ (0x23, codes "numbersign")
    ∷ (0x24, codes "dollar")
    ∷ (0x25, codes "percent")
    ∷ (0x26, codes "ampersand")
    ∷ (0x27, codes "apostrophe")
    ∷ (0x28, codes "parenleft")
    ∷ (0x29, codes "parenright")
    ∷ (0x2a, codes "asterisk")
    ∷ (0x2b, codes "plus")
    ∷ (0x2c, codes "comma")
    ∷ (0x2d, codes "minus")
    ∷ (0x2e, codes "period")
    ∷ (0x2f, codes "slash")
    ∷ (0x3a, codes "colon")
    ∷ (0x3b, codes "semicolon")
    ∷ (0x3c, codes "less")
    ∷ (0x3d, codes "equal")
    ∷ (0x3e, codes "greater")
    ∷ (0x3f, codes "question")
    ∷ (0x40, codes "at")
    ∷ (0x5b, codes "bracketleft")
    ∷ (0x5c, codes "backslash")
    ∷ (0x5d, codes "bracketright")
    ∷ (0x5e, codes "asciicircum")
    ∷ (0x5f, codes "underscore")
    ∷ (0x60, codes "grave")
    ∷ (0x7b, codes "braceleft")
    ∷ (0x7c, codes "bar")
    ∷ (0x7d, codes "braceright")
    ∷ (0x7e, codes "asciitilde")
    ∷ []

unfoldable pub name_of_code : List (ℕ × Bytes) → ℕ → Option Bytes
name_of_code [] c = none
name_of_code ((k, name) ∷ table) c = if k == c then some name else name_of_code table c

-- The inverted table.
unfoldable pub code_of_name : List (ℕ × Bytes) → Bytes → Option ℕ
code_of_name [] name = none
code_of_name ((k, n) ∷ table) name = if bytes_eq n name then some k else code_of_name table name

abbrev pub is_alphanumeric : ℕ → Bool
is_alphanumeric c =
    (leb b'0' c && leb c b'9') || (leb b'A' c && leb c b'Z') || (leb b'a' c && leb c b'z')

unfoldable pub keysym_name : ℕ → Bytes
keysym_name c = elim (name_of_code punctuation_keysyms c) [
  | some name ↦ name
  | none ↦ if is_alphanumeric c then c ∷ [] else []
]

unfoldable pub single : Bytes → ℕ
single (c ∷ []) = if is_alphanumeric c then c else 0
single _ = 0

unfoldable pub keysym_for : Bytes → ℕ
keysym_for name = elim (code_of_name punctuation_keysyms name) [ some c ↦ c | none ↦ single name ]

-- The names in the order of their bits, each with its bit.
abbrev pub modifier_bits : List (ℕ × Bytes)
modifier_bits =
    (1, codes "shift")
    ∷ (2, codes "lock")
    ∷ (4, codes "control")
    ∷ (8, codes "mod1")
    ∷ (16, codes "mod2")
    ∷ (32, codes "mod3")
    ∷ (64, codes "mod4")
    ∷ (128, codes "mod5")
    ∷ []

unfoldable pub names_of_mask : List (ℕ × Bytes) → ℕ → List Bytes
names_of_mask [] mask = []
names_of_mask ((bit, name) ∷ table) mask =
    let rest = names_of_mask table mask in if bit_and mask bit == 0 then rest else name ∷ rest

unfoldable pub modifier_names : ℕ → List Bytes
modifier_names = names_of_mask modifier_bits
