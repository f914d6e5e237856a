-- ===== src/Command/Shell.antt =====
-- How a POSIX shell reads a command, as the reference for what cmd/go-xpra/ssh.go quotes: words,
-- quotes and operators. What the shell would expand or continue on another line is refused.
use go_xpra.Prelude.{
  ℕ, Bool, false, ◌||◌, List, [], ◌∷◌, ◌++◌, Option, none, some, ◌==◌, if◌then◌else◌,
}
use go_xpra.Prelude.Bytes.{Bytes}

pub data Quoting : Type 0 where
  plain single double escaped : Quoting

pub data Token : Type 0 where
  word : Bytes → Token
  operator : ℕ → Token

-- The word that is being read, if one is, and the tokens before it.
pub record Reading : Type 0 where
  pub quoting : Quoting
  pub begun : Option Bytes
  pub tokens : List Token

unfoldable pub one_of : ℕ → Bytes → Bool
one_of c [] = false
one_of c (b ∷ bs) = c == b || one_of c bs

abbrev pub so_far : Option Bytes → Bytes
so_far none = []
so_far (some w) = w

unfoldable pub end_word : Option Bytes → List Token → List Token
end_word none tokens = tokens
end_word (some w) tokens = tokens ++ (Token.word w ∷ [])

abbrev pub blanks : Bytes
blanks = 32 ∷ 9 ∷ []

-- `;`, `&`, `|`, `<`, `>`, `(`, `)` and a new line.
abbrev pub operators : Bytes
operators = 59 ∷ 38 ∷ 124 ∷ 60 ∷ 62 ∷ 40 ∷ 41 ∷ 10 ∷ []

-- `$`, a backquote, `*`, `?`, `[`, `#`, `~` and NUL.
abbrev pub expansions : Bytes
expansions = 36 ∷ 96 ∷ 42 ∷ 63 ∷ 91 ∷ 35 ∷ 126 ∷ 0 ∷ []

unfoldable pub read_plain : ℕ → Option Bytes → List Token → Option Reading
unfolding one_of end_word
read_plain c w tokens =
    if one_of c blanks
    then some (record { quoting = Quoting.plain; begun = none; tokens = end_word w tokens })
    else if c == 39
    then some (record { quoting = Quoting.single; begun = some (so_far w); tokens = tokens })
    else if c == 34
    then some (record { quoting = Quoting.double; begun = some (so_far w); tokens = tokens })
    else if c == 92
    then some (record { quoting = Quoting.escaped; begun = some (so_far w); tokens = tokens })
    else if one_of c operators
    then some (record {
      quoting = Quoting.plain;
      begun = none;
      tokens = end_word w tokens ++ (Token.operator c ∷ []);
    })
    else if one_of c expansions
    then none
    else some
        (record { quoting = Quoting.plain; begun = some (so_far w ++ (c ∷ [])); tokens = tokens })

-- One character of the command.
unfoldable pub read_char : ℕ → Reading → Option Reading
unfolding one_of read_plain
read_char c r = elim r.quoting [
  | Quoting.plain ↦ read_plain c r.begun r.tokens
  | Quoting.single ↦
      if c == 0
      then none
      else if c == 39
      then some (record r { quoting = Quoting.plain })
      else some (record r { begun = some (so_far r.begun ++ (c ∷ [])) })
  | Quoting.double ↦
      if one_of c (36 ∷ 96 ∷ 92 ∷ 0 ∷ [])
      then none
      else if c == 34
      then some (record r { quoting = Quoting.plain })
      else some (record r { begun = some (so_far r.begun ++ (c ∷ [])) })
  | Quoting.escaped ↦
      if one_of c (10 ∷ 0 ∷ [])
      then none
      else some (record {
        quoting = Quoting.plain;
        begun = some (so_far r.begun ++ (c ∷ []));
        tokens = r.tokens;
      })
]

-- An open quote at the end of the command is refused.
unfoldable pub read_end : Reading → Option (List Token)
unfolding end_word
read_end r = elim r.quoting [
  | Quoting.plain ↦ some (end_word r.begun r.tokens)
  | Quoting.single ↦ none
  | Quoting.double ↦ none
  | Quoting.escaped ↦ none
]

unfoldable pub read_from : Reading → Bytes → Option (List Token)
unfolding read_char read_end
read_from r [] = read_end r
read_from r (c ∷ cs) = elim (read_char c r) [ none ↦ none | some after ↦ read_from after cs ]

abbrev pub at_start : Reading
at_start = record { quoting = Quoting.plain; begun = none; tokens = [] }

-- The tokens of a whole command.
unfoldable pub shell_tokens : Bytes → Option (List Token)
unfolding read_from
shell_tokens command = read_from at_start command
