-- ===== src/Ui/Keys/Modifiers.antt =====
-- ui/keys.go: modifier masks and the names of their bits.
use go_xpra.Prelude.{ℕ, ◌+◌, ◌<◌, ◌≡◌, refl, Bool, true, List, [], ◌∷◌, ◌==◌, ==_iff, if◌then◌else◌}
use go_xpra.Prelude.Bytes.{Bytes, bytes_eq}
use go_xpra.Ui.Keys.{modifier_bits, names_of_mask, modifier_names}
use go_xpra.Ui.Keys.Laws.{all_below, all_below-lt}

-- The mask that names stand for, each name once.
unfoldable pub bit_of_name : List (ℕ × Bytes) → Bytes → ℕ
bit_of_name [] name = 0
bit_of_name ((bit, n) ∷ table) name = if bytes_eq n name then bit else bit_of_name table name

unfoldable pub mask_of_names : List Bytes → ℕ
mask_of_names [] = 0
mask_of_names (name ∷ names) = bit_of_name modifier_bits name + mask_of_names names

unfoldable recovers : ℕ → Bool
recovers mask = mask_of_names (modifier_names mask) == mask

all_recover : all_below recovers 256 ≡ true
unfolding all_below recovers mask_of_names bit_of_name modifier_names names_of_mask bytes_eq
all_recover = refl

-- The names of an 8-bit modifier mask stand for exactly its bits: the mask can be told from them.
pub mask_of_names-modifier_names :
    (mask : ℕ) → mask < 256 → mask_of_names (modifier_names mask) ≡ mask
unfolding recovers
mask_of_names-modifier_names mask h =
    (==_iff (mask_of_names (modifier_names mask)) mask).0
      (all_below-lt recovers 256 mask all_recover h)
