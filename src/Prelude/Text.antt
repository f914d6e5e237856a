-- ===== src/Prelude/Text.antt =====
-- Go's string functions. Blanks are those of Unicode, in UTF-8.
use Prim.Native.Nat.{ℕ, zero, suc}
use mathlib.Core.Bool.{Bool, ◌||◌, ◌&&◌}
use mathlib.Core.List.{List, [], ◌∷◌}
use mathlib.Core.Option.{Option, none, some}
use go_xpra.Prelude.Tests.{◌==◌, leb, if◌then◌else◌}
use go_xpra.Prelude.Bytes.{Bytes}

abbrev pub is_white : ℕ → Bool
is_white c = c == 32 || (leb 9 c && leb c 13)

-- The text before and behind the first such byte.
unfoldable pub cut_at : ℕ → Bytes → Option (Bytes × Bytes)
cut_at separator [] = none
cut_at separator (c ∷ cs) =
    let rest = cut_at separator cs in
    if c == separator
    then some ([], cs)
    else elim rest [ none ↦ none | some (before, behind) ↦ some (c ∷ before, behind) ]

unfoldable pub cut_prefix : Bytes → Bytes → Option Bytes
cut_prefix text [] = some text
cut_prefix [] (p ∷ prefix) = none
cut_prefix (c ∷ text) (p ∷ prefix) =
    let rest = cut_prefix text prefix in if c == p then rest else none

-- The text behind the first occurrence of a keyword.
unfoldable pub behind_keyword : Bytes → Bytes → Option Bytes
unfolding cut_prefix
behind_keyword keyword [] = cut_prefix [] keyword
behind_keyword keyword (c ∷ text) =
    let rest = behind_keyword keyword text in
    elim (cut_prefix (c ∷ text) keyword) [ some behind ↦ some behind | none ↦ rest ]

unfoldable pub cons_head : ℕ → List Bytes → List Bytes
cons_head c [] = (c ∷ []) ∷ []
cons_head c (part ∷ parts) = (c ∷ part) ∷ parts

unfoldable pub split : ℕ → Bytes → List Bytes
unfolding cons_head
split separator [] = [] ∷ []
split separator (c ∷ text) =
    let rest = split separator text in if c == separator then [] ∷ rest else cons_head c rest

-- U+0085 and U+00A0.
abbrev pub blank_two : ℕ → ℕ → Bool
blank_two c d = c == 0xc2 && (d == 0x85 || d == 0xa0)

-- U+1680, U+2000 to U+200A, U+2028, U+2029, U+202F, U+205F and U+3000.
abbrev pub blank_three : ℕ → ℕ → ℕ → Bool
blank_three c d e =
    (c == 0xe1 && d == 0x9a && e == 0x80)
    || (c == 0xe2
        && d == 0x80
        && ((leb 0x80 e && leb e 0x8a) || e == 0xa8 || e == 0xa9 || e == 0xaf))
    || (c == 0xe2 && d == 0x81 && e == 0x9f)
    || (c == 0xe3 && d == 0x80 && e == 0x80)

-- How many bytes the blank takes that a text begins with, 0 if it begins with none.
unfoldable pub blank_width : Bytes → ℕ
blank_width [] = 0
blank_width (c ∷ []) = if is_white c then 1 else 0
blank_width (c ∷ d ∷ []) = if is_white c then 1 else if blank_two c d then 2 else 0
blank_width (c ∷ d ∷ e ∷ text) =
    if is_white c then 1 else if blank_two c d then 2 else if blank_three c d e then 3 else 0

-- The same for a text that is read from its end.
unfoldable pub last_blank_width : Bytes → ℕ
last_blank_width [] = 0
last_blank_width (c ∷ []) = if is_white c then 1 else 0
last_blank_width (c ∷ d ∷ []) = if is_white c then 1 else if blank_two d c then 2 else 0
last_blank_width (c ∷ d ∷ e ∷ text) =
    if is_white c then 1 else if blank_two d c then 2 else if blank_three e d c then 3 else 0

-- The text behind the blanks at its front, of which `skipped` bytes are yet to be passed over.
unfoldable pub trim_front : (Bytes → ℕ) → ℕ → Bytes → Bytes
trim_front width skipped [] = []
trim_front width (suc skipped) (c ∷ text) = trim_front width skipped text
trim_front width zero (c ∷ text) = elim (width (c ∷ text)) [
  | zero ↦ c ∷ text
  | suc rest ↦ trim_front width rest text
]

unfoldable pub backwards : Bytes → Bytes → Bytes
backwards [] done = done
backwards (c ∷ text) done = backwards text (c ∷ done)

unfoldable pub trim_space : Bytes → Bytes
unfolding trim_front blank_width last_blank_width backwards
trim_space text =
    backwards (trim_front last_blank_width 0 (backwards (trim_front blank_width 0 text) [])) []
