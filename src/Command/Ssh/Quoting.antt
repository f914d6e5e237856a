-- ===== src/Command/Ssh/Quoting.antt =====
-- cmd/go-xpra/ssh.go: what the shells on the server read.
use go_xpra.Prelude.{
  ℕ, ◌≡◌, refl, sym, ap, ◌∙◌, inl, inr, false, List, [], ◌∷◌, ◌++◌, some, ◌==◌, arith, Bool-cases,
  append-nil, append_assoc,
}
use go_xpra.Prelude.Bytes.{Bytes}
use go_xpra.Command.Shell.{Quoting, Token, Reading, one_of, read_plain, read_char, read_from}
use go_xpra.Command.Ssh.{escape_quotes}

abbrev pub in_quotes : Bytes → List Token → Reading
in_quotes w tokens = record { quoting = Quoting.single; begun = some w; tokens = tokens }

abbrev pub in_word : Bytes → List Token → Reading
in_word w tokens = record { quoting = Quoting.plain; begun = some w; tokens = tokens }

-- No NUL, which no argument of a process can hold.
abbrev pub WithoutNul : Bytes → Type 0
WithoutNul v = one_of 0 v ≡ false

read-quoted_char :
    (c : ℕ) (w : Bytes) (tokens : List Token)
    → (c == 0) ≡ false
    → (c == 39) ≡ false
    → read_char c (in_quotes w tokens) ≡ some (in_quotes (w ++ (c ∷ [])) tokens)
unfolding read_char
read-quoted_char c w tokens e f = rw (e, f, read_char) refl

pub no_nul_head : (c : ℕ) (v : Bytes) → WithoutNul (c ∷ v) → ((c == 0) ≡ false) × WithoutNul v
unfolding one_of
no_nul_head c v n = ground arith

-- Up to the closing quote, a quoted value is read as itself.
pub read-escape_quotes :
    (v rest w : Bytes) (tokens : List Token)
    → WithoutNul v
    → read_from (in_quotes w tokens) (escape_quotes v ++ (39 ∷ rest))
      ≡ read_from (in_word (w ++ v) tokens) rest
unfolding read_from read_char read_plain escape_quotes one_of
read-escape_quotes [] rest w tokens n =
    ap (λ u. read_from (in_word u tokens) rest) (sym (append-nil w))
read-escape_quotes (c ∷ v) rest w tokens n =
    let (head, tail) = no_nul_head c v n in
    let regroup : read_from (in_word ((w ++ (c ∷ [])) ++ v) tokens) rest
        ≡ read_from (in_word (w ++ (c ∷ v)) tokens) rest =
      ap (λ u. read_from (in_word u tokens) rest) (append_assoc w (c ∷ []) v) in
    elim (Bool-cases (c == 39)) [
      | inl e ↦
          let quote : c ≡ 39 = ground arith in
          rw (e, escape_quotes)
            (ap (λ b. read_from (in_quotes (w ++ (b ∷ [])) tokens) (escape_quotes v ++ (39 ∷ rest)))
                (sym quote)
              ∙ read-escape_quotes v rest (w ++ (c ∷ [])) tokens tail
              ∙ regroup)
      | inr e ↦
          rw (e, escape_quotes)
            (rw (read-quoted_char c w tokens head e, read_from)
              (read-escape_quotes v rest (w ++ (c ∷ [])) tokens tail ∙ regroup))
    ]
