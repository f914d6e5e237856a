-- ===== src/Command/Ssh/Remote.antt =====
-- cmd/go-xpra/ssh.go: the command line that the server runs.
use go_xpra.Prelude.{◌≡◌, refl, ap, ◌∙◌, List, [], ◌∷◌, ◌++◌, some, arith, append_assoc}
use go_xpra.Prelude.Bytes.{Bytes, codes}
use go_xpra.Command.Shell.{
  Token, one_of, end_word, read_plain, read_char, read_end, read_from, shell_tokens,
}
use go_xpra.Command.Ssh.{
  escape_quotes, shell_quote, proxy_start, proxy_end, proxy_command, inner_command,
  ssh_remote_command,
}
use go_xpra.Command.Ssh.Quoting.{WithoutNul, in_quotes, no_nul_head, read-escape_quotes}

WithoutNul-append : (v w : Bytes) → WithoutNul v → WithoutNul w → WithoutNul (v ++ w)
unfolding one_of
WithoutNul-append [] w n m = m
WithoutNul-append (c ∷ v) w n m =
    let (head, tail) = no_nul_head c v n in let rest = WithoutNul-append v w tail m in ground arith

WithoutNul-escape_quotes : (v : Bytes) → WithoutNul v → WithoutNul (escape_quotes v)
unfolding one_of escape_quotes
WithoutNul-escape_quotes [] n = refl
WithoutNul-escape_quotes (c ∷ v) n =
    let (head, tail) = no_nul_head c v n in
    let rest = WithoutNul-escape_quotes v tail in ground arith

WithoutNul-inner_command :
    (display : Bytes) → WithoutNul display → WithoutNul (inner_command display)
unfolding one_of inner_command proxy_command shell_quote
WithoutNul-inner_command [] n = refl
WithoutNul-inner_command (c ∷ cs) n =
    WithoutNul-append proxy_start (proxy_command (c ∷ cs) ++ proxy_end) refl (
      WithoutNul-append (proxy_command (c ∷ cs)) proxy_end
        (WithoutNul-append (escape_quotes (c ∷ cs)) (39 ∷ []) (WithoutNul-escape_quotes (c ∷ cs) n)
          refl)
        refl)

-- The display as one word, if there is one.
abbrev pub proxied : Bytes → List Token
proxied [] = []
proxied (c ∷ cs) = Token.word (c ∷ cs) ∷ []

abbrev pub before_display : List Token
before_display =
    Token.word (codes "if")
    ∷ Token.word (codes "command")
    ∷ Token.word (codes "-v")
    ∷ Token.word (codes "xpra")
    ∷ Token.operator 62
    ∷ Token.word (codes "/dev/null")
    ∷ Token.word (codes "2")
    ∷ Token.operator 62
    ∷ Token.operator 38
    ∷ Token.word (codes "1")
    ∷ Token.operator 59
    ∷ Token.word (codes "then")
    ∷ Token.word (codes "xpra")
    ∷ Token.word (codes "_proxy")
    ∷ []

abbrev pub after_display : List Token
after_display =
    Token.operator 59
    ∷ Token.word (codes "else")
    ∷ Token.word (codes "echo")
    ∷ Token.word (codes "no xpra command found")
    ∷ Token.word (codes "1")
    ∷ Token.operator 62
    ∷ Token.operator 38
    ∷ Token.word (codes "2")
    ∷ Token.operator 59
    ∷ Token.word (codes "exit")
    ∷ Token.word (codes "1")
    ∷ Token.operator 59
    ∷ Token.word (codes "fi")
    ∷ []

inner_command-tokens :
    (display : Bytes)
    → WithoutNul display
    → shell_tokens (inner_command display)
      ≡ some (before_display ++ (proxied display ++ after_display))
unfolding shell_tokens read_from read_char read_plain read_end end_word one_of inner_command
    proxy_command shell_quote
inner_command-tokens [] n = refl
inner_command-tokens (c ∷ cs) n =
    ap (read_from (in_quotes [] before_display))
      (append_assoc (escape_quotes (c ∷ cs)) (39 ∷ []) proxy_end)
    ∙ read-escape_quotes (c ∷ cs) proxy_end [] before_display n

-- Whatever the display is called, if its name has no NUL: the shell that sshd starts reads three
-- words, `sh`, `-c` and a command, and the shell that reads this command reads the name as one word,
-- exactly as it is, where xpra's proxy expects it. All else that it reads is fixed.
pub ssh_remote_command_lem :
    (display : Bytes)
    → WithoutNul display
    → (shell_tokens (ssh_remote_command display)
        ≡ some (
            Token.word (codes "sh")
            ∷ Token.word (codes "-c")
            ∷ Token.word (inner_command display)
            ∷ []))
      × (shell_tokens (inner_command display)
          ≡ some (before_display ++ (proxied display ++ after_display)))
unfolding shell_tokens read_from read_char read_plain read_end end_word one_of ssh_remote_command
    shell_quote
ssh_remote_command_lem display n = (
  read-escape_quotes (inner_command display) [] []
      (Token.word (codes "sh") ∷ Token.word (codes "-c") ∷ []) (WithoutNul-inner_command display n),
  inner_command-tokens display n,
)
