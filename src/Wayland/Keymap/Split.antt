-- ===== src/Wayland/Keymap/Split.antt =====
-- wayland/keymap.go: what splitStatements cuts.
use go_xpra.Prelude.{
  ℕ, ◌≡◌, refl, sym, ap, ◌∙◌, inl, inr, Bool, true, false, List, [], ◌∷◌, ◌++◌, arith, Bool-cases,
  length, ◌<◌,
}
use go_xpra.Prelude.Int.{ℤ, pos}
use go_xpra.Prelude.Bytes.{Bytes}
use go_xpra.Prelude.Text.{cons_head}
use go_xpra.Wayland.Keymap.{after_byte, ends_statement, statements_from, split_statements}

-- The parts with a separator between them.
unfoldable pub join : ℕ → List Bytes → Bytes
join separator [] = []
join separator (part ∷ []) = part
join separator (part ∷ next ∷ parts) = part ++ (separator ∷ join separator (next ∷ parts))

join-cons_head :
    (separator c : ℕ) (parts : List Bytes)
    → join separator (cons_head c parts) ≡ c ∷ join separator parts
unfolding join cons_head
join-cons_head separator c [] = refl
join-cons_head separator c (part ∷ []) = refl
join-cons_head separator c (part ∷ next ∷ parts) = refl

length-cons_head_pos : (c : ℕ) (parts : List Bytes) → 0 < length (cons_head c parts)
unfolding cons_head
length-cons_head_pos c [] = omega arith
length-cons_head_pos c (part ∷ parts) = omega arith

length-statements_from_pos :
    (state : ℤ × Bool) (body : Bytes) → 0 < length (statements_from state body)
unfolding statements_from
length-statements_from_pos state [] = omega arith
length-statements_from_pos state (c ∷ body) = elim (Bool-cases (ends_statement c state)) [
  | inl e ↦ rw (e, statements_from) (omega arith)
  | inr e ↦
      rw (e, statements_from) (length-cons_head_pos c (statements_from (after_byte c state) body))
]

join-nil :
    (separator : ℕ) (parts : List Bytes)
    → 0 < length parts
    → join separator ([] ∷ parts) ≡ separator ∷ join separator parts
unfolding join
join-nil separator [] h = absurd (omega arith)
join-nil separator (part ∷ parts) h = refl

ends-semicolon : (c : ℕ) (state : ℤ × Bool) → ends_statement c state ≡ true → c ≡ b';'
ends-semicolon c (depth, quoted) e = ground arith

join-statements_from :
    (state : ℤ × Bool) (body : Bytes) → join b';' (statements_from state body) ≡ body
unfolding statements_from join
join-statements_from state [] = refl
join-statements_from state (c ∷ body) =
    let rest = statements_from (after_byte c state) body in
    elim (Bool-cases (ends_statement c state)) [
      | inl e ↦
          rw (e, statements_from)
            (join-nil b';' rest (length-statements_from_pos (after_byte c state) body)
              ∙ ap (λ b. b ∷ join b';' rest) (sym (ends-semicolon c state e))
              ∙ ap (λ t. c ∷ t) (join-statements_from (after_byte c state) body))
      | inr e ↦
          rw (e, statements_from)
            (join-cons_head b';' c rest
              ∙ ap (λ t. c ∷ t) (join-statements_from (after_byte c state) body))
    ]

-- splitStatements loses nothing: its statements with semicolons between them are the body.
pub join-split_statements : (body : Bytes) → join b';' (split_statements body) ≡ body
unfolding split_statements
join-split_statements body = join-statements_from (pos 0, false) body
