-- ===== src/Ui/Keys/Laws.antt =====
-- ui/keys.go: names and characters, one from the other.
use go_xpra.Prelude.{
  ℕ, zero, suc, ◌≤◌, ◌<◌, ◌≡◌, ◌≢◌, refl, ap, sym, ◌∙◌, Bool, true, false, not, ◌&&◌, ◌||◌, List,
  [], ◌∷◌, none, some, ltb, ◌==◌, ==_iff, arith, Bool-cases, Option-cases, inl, inr,
}
use go_xpra.Prelude.Bytes.{Bytes, bytes_eq, bytes_eq→eq}
use go_xpra.Ui.Keys.{
  punctuation_keysyms, name_of_code, code_of_name, is_alphanumeric, keysym_name, single, keysym_for,
}

-- A test on all codes below a bound, and what it says of each.
unfoldable pub all_below : (ℕ → Bool) → ℕ → Bool
all_below test zero = true
all_below test (suc n) = let rest = all_below test n in test n && rest

and_both : (a b : Bool) → (a && b) ≡ true → (a ≡ true) × (b ≡ true)
and_both true b h = (refl, h)
and_both false b h = cc

pub all_below-lt : (test : ℕ → Bool) (n c : ℕ) → all_below test n ≡ true → c < n → test c ≡ true
unfolding all_below
all_below-lt test zero c h l = absurd (omega arith)
all_below-lt test (suc n) c h l = elim (Bool-cases (c == n)) [
  | inl e ↦ (let q : c ≡ n = ground arith in rw q (and_both (test n) (all_below test n) h).0)
  | inr e ↦ all_below-lt test n c (and_both (test n) (all_below test n) h).1 (ground arith)
]

unfoldable is_nil : Bytes → Bool
is_nil [] = true
is_nil (_ ∷ _) = false

unfoldable inverts : ℕ → Bool
inverts c = is_nil (keysym_name c) || keysym_for (keysym_name c) == c

all_invert : all_below inverts 128 ≡ true
unfolding all_below inverts is_nil keysym_name keysym_for name_of_code code_of_name single bytes_eq
all_invert = refl

-- No entry of the table is outside ASCII.
unfoldable all_ascii : List (ℕ × Bytes) → Bool
all_ascii [] = true
all_ascii ((k, name) ∷ table) = ltb k 128 && all_ascii table

name_of_code-none :
    (table : List (ℕ × Bytes)) (c : ℕ)
    → all_ascii table ≡ true
    → 128 ≤ c
    → name_of_code table c ≡ none
unfolding name_of_code all_ascii
name_of_code-none [] c h l = refl
name_of_code-none ((k, name) ∷ table) c h l =
    let (small, rest) = and_both (ltb k 128) (all_ascii table) h in
    let e : (k == c) ≡ false = ground arith in rw e (name_of_code-none table c rest l)

table_ascii : all_ascii punctuation_keysyms ≡ true
unfolding all_ascii
table_ascii = refl

not_alphanumeric : (c : ℕ) → 128 ≤ c → is_alphanumeric c ≡ false
not_alphanumeric c h = ground arith

keysym_name-none : (c : ℕ) → 128 ≤ c → keysym_name c ≡ []
unfolding keysym_name
keysym_name-none c h =
    rw (name_of_code-none punctuation_keysyms c table_ascii h, keysym_name)
      (rw (not_alphanumeric c h) refl)

named_inverts :
    (name : Bytes) (c : ℕ)
    → (is_nil name || keysym_for name == c) ≡ true
    → name ≢ []
    → keysym_for name ≡ c
unfolding is_nil
named_inverts [] c h named = absurd (named refl)
named_inverts (b ∷ bs) c h named = (==_iff (keysym_for (b ∷ bs)) c).0 h

inverts-lem : (c : ℕ) → inverts c ≡ true → keysym_name c ≢ [] → keysym_for (keysym_name c) ≡ c
unfolding inverts
inverts-lem c h named = named_inverts (keysym_name c) c h named

-- A character that has a name is found again from it.
pub keysym_for-keysym_name : (c : ℕ) → keysym_name c ≢ [] → keysym_for (keysym_name c) ≡ c
keysym_for-keysym_name c named = elim (Bool-cases (ltb c 128)) [
  | inl e ↦ inverts-lem c (all_below-lt inverts 128 c all_invert (ground arith)) named
  | inr e ↦ absurd (named (keysym_name-none c (ground arith)))
]

unfoldable all_named : List (ℕ × Bytes) → Bool
all_named [] = true
all_named ((k, name) ∷ table) = bytes_eq (keysym_name k) name && all_named table

table_named : all_named punctuation_keysyms ≡ true
unfolding all_named keysym_name name_of_code bytes_eq
table_named = refl

code_of_name-some :
    (table : List (ℕ × Bytes)) (name : Bytes) (c : ℕ)
    → all_named table ≡ true
    → code_of_name table name ≡ some c
    → keysym_name c ≡ name
unfolding code_of_name all_named
code_of_name-some [] name c h e = cc
code_of_name-some ((k, n) ∷ table) name c h e =
    let (same, rest) = and_both (bytes_eq (keysym_name k) n) (all_named table) h in
    elim (Bool-cases (bytes_eq n name)) [
      | inl q ↦
          let e' : some k ≡ some c = rw q at e in
          let kc : k ≡ c = cc in
          ap keysym_name (sym kc) ∙ bytes_eq→eq (keysym_name k) n same ∙ bytes_eq→eq n name q
      | inr q ↦ code_of_name-some table name c rest (rw q at e)
    ]

unfoldable names_itself : ℕ → Bool
names_itself c = not (is_alphanumeric c) || bytes_eq (keysym_name c) (c ∷ [])

all_name_themselves : all_below names_itself 128 ≡ true
unfolding all_below names_itself keysym_name name_of_code bytes_eq
all_name_themselves = refl

alphanumeric_name : (c : ℕ) → is_alphanumeric c ≡ true → keysym_name c ≡ c ∷ []
unfolding names_itself
alphanumeric_name c h =
    bytes_eq→eq (keysym_name c) (c ∷ [])
      (rw h at (all_below-lt names_itself 128 c all_name_themselves (ascii c h)))
  where
    ascii : (c : ℕ) → is_alphanumeric c ≡ true → c < 128
    ascii c h = ground arith

single-named : (name : Bytes) → single name ≢ 0 → keysym_name (single name) ≡ name
unfolding single
single-named [] h = absurd (h refl)
single-named (c ∷ d ∷ name) h = absurd (h refl)
single-named (c ∷ []) h = elim (Bool-cases (is_alphanumeric c)) [
  | inl e ↦ rw e (alphanumeric_name c e)
  | inr e ↦ absurd (h (rw e refl))
]

-- A name that stands for a character is the name of that character.
pub keysym_name-keysym_for :
    (name : Bytes) → keysym_for name ≢ 0 → keysym_name (keysym_for name) ≡ name
unfolding keysym_for
keysym_name-keysym_for name h = elim (Option-cases (code_of_name punctuation_keysyms name)) [
  | inl e ↦ rw (e, keysym_for) (single-named name (rw (e, keysym_for) at h))
  | inr (c, e) ↦ rw (e, keysym_for) (code_of_name-some punctuation_keysyms name c table_named e)
]
