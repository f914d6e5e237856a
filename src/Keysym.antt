-- ===== src/Keysym.antt =====
-- keysym/keysym.go: the X11 names of keysyms. xgbutil's table of the other names is a parameter.
use go_xpra.Prelude.{ℕ, ◌&&◌, not, [], ◌∷◌, none, some, leb, if◌then◌else◌}
use go_xpra.Prelude.Bytes.{Bytes, codes}
use go_xpra.Prelude.Table.{Table, lookup, nat_key}
use go_xpra.Ui.Keys.{keysym_name}
use go_xpra.Command.Ssh.{is_empty}

abbrev pub keypad_keysyms : Table ℕ Bytes
keypad_keysyms =
    (0xffaa, codes "KP_Multiply")
    ∷ (0xffab, codes "KP_Add")
    ∷ (0xffad, codes "KP_Subtract")
    ∷ (0xffae, codes "KP_Decimal")
    ∷ (0xffaf, codes "KP_Divide")
    ∷ (0xffb0, codes "KP_0")
    ∷ (0xffb1, codes "KP_1")
    ∷ (0xffb2, codes "KP_2")
    ∷ (0xffb3, codes "KP_3")
    ∷ (0xffb4, codes "KP_4")
    ∷ (0xffb5, codes "KP_5")
    ∷ (0xffb6, codes "KP_6")
    ∷ (0xffb7, codes "KP_7")
    ∷ (0xffb8, codes "KP_8")
    ∷ (0xffb9, codes "KP_9")
    ∷ []

unfoldable pub name_of : (ℕ → Bytes) → ℕ → Bytes
unfolding lookup keysym_name is_empty
name_of keysym_to_str keysym =
    if leb keysym 0x7e && not (is_empty (keysym_name keysym))
    then keysym_name keysym
    else elim (lookup keypad_keysyms keysym) [ some name ↦ name | none ↦ keysym_to_str keysym ]
