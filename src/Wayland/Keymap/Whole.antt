-- ===== src/Wayland/Keymap/Whole.antt =====
-- wayland/keymap.go: statements that splitStatements leaves whole.
use go_xpra.Prelude.{
  ℕ, suc, ◌≡◌, ◌≢◌, ◌⊎◌, ◌≤◌, refl, sym, ap, ◌∙◌, inl, inr, Bool, true, false, List, [], ◌∷◌, ◌++◌,
  append-nil, append_assoc, All, arith,
}
use go_xpra.Prelude.Int.{ℤ, pos, negsuc, ◌+ℤ◌}
use go_xpra.Prelude.Bytes.{Bytes}
use go_xpra.Prelude.Text.{cons_head}
use go_xpra.Wayland.Keymap.{after_byte, ends_statement, statements_from, split_statements}
use go_xpra.Wayland.Keymap.Split.{join, join-split_statements}

-- The bytes that neither quote nor bracket.
abbrev pub IsPlain : ℕ → Type 0
IsPlain c = (c ≢ b'"') × (c ≢ b'{') × (c ≢ b'}') × (c ≢ b'[') × (c ≢ b']')

abbrev pub IsOpening : ℕ → Type 0
IsOpening c = (c ≡ b'{') ⊎ (c ≡ b'[')

abbrev pub IsClosing : ℕ → Type 0
IsClosing c = (c ≡ b'}') ⊎ (c ≡ b']')

-- A text whose quotes and brackets are closed, and which has semicolons only within them, or, where
-- it is inside a bracket, anywhere.
pub data Whole : Bool → Bytes → Type 0 where
  empty : (inside : Bool) → Whole inside []
  plain :
      (inside : Bool) (c : ℕ) (rest : Bytes)
      → IsPlain c
      → (inside ≡ true) ⊎ (c ≢ b';')
      → Whole inside rest
      → Whole inside (c ∷ rest)
  quoted :
      (inside : Bool) (text rest : Bytes)
      → All (λ c. c ≢ b'"') text
      → Whole inside rest
      → Whole inside (b'"' ∷ (text ++ (b'"' ∷ rest)))
  bracketed :
      (inside : Bool) (opening closing : ℕ) (text rest : Bytes)
      → IsOpening opening
      → IsClosing closing
      → Whole true text
      → Whole inside rest
      → Whole inside (opening ∷ (text ++ (closing ∷ rest)))

unfoldable prepend : Bytes → List Bytes → List Bytes
unfolding cons_head
prepend [] parts = parts
prepend (c ∷ text) parts = cons_head c (prepend text parts)

prepend-append :
    (a b : Bytes) (parts : List Bytes) → prepend (a ++ b) parts ≡ prepend a (prepend b parts)
unfolding prepend
prepend-append [] b parts = refl
prepend-append (c ∷ a) b parts = ap (cons_head c) (prepend-append a b parts)

prepend-nil : (text : Bytes) (parts : List Bytes) → prepend text ([] ∷ parts) ≡ text ∷ parts
unfolding prepend cons_head
prepend-nil [] parts = refl
prepend-nil (c ∷ text) parts = ap (cons_head c) (prepend-nil text parts)

step :
    (c : ℕ) (state after : ℤ × Bool) (body : Bytes)
    → ends_statement c state ≡ false
    → after_byte c state ≡ after
    → statements_from state (c ∷ body) ≡ cons_head c (statements_from after body)
unfolding statements_from
step c (depth, open_quote) after body e q =
    rw (e, statements_from) (ap (λ z. cons_head c (statements_from z body)) q)

statements_from-quoted :
    (depth : ℤ) (text rest : Bytes)
    → All (λ c. c ≢ b'"') text
    → statements_from (depth, true) (text ++ (b'"' ∷ rest))
      ≡ prepend text (cons_head b'"' (statements_from (depth, false) rest))
unfolding prepend after_byte
statements_from-quoted depth [] rest h = step b'"' (depth, true) (depth, false) rest refl refl
statements_from-quoted depth (c ∷ text) rest h =
    step c (depth, true) (depth, true) (text ++ (b'"' ∷ rest)) refl (ground arith)
    ∙ ap (cons_head c) (statements_from-quoted depth text rest h.1)

one_deeper : (d : ℕ) → pos d +ℤ pos 1 ≡ pos (suc d)
unfolding ◌+ℤ◌
one_deeper d = ground arith

one_back : (d : ℕ) → pos (suc d) +ℤ negsuc 0 ≡ pos d
unfolding ◌+ℤ◌
one_back d = ground arith

opened :
    (c d : ℕ)
    → IsOpening c
    → (ends_statement c (pos d, false) ≡ false)
      × (after_byte c (pos d, false) ≡ (pos (suc d), false))
unfolding after_byte
opened c d (inl e) = rw (e, after_byte) (refl, ap (λ z. (z, false)) (one_deeper d))
opened c d (inr e) = rw (e, after_byte) (refl, ap (λ z. (z, false)) (one_deeper d))

closed :
    (c d : ℕ)
    → IsClosing c
    → (ends_statement c (pos (suc d), false) ≡ false)
      × (after_byte c (pos (suc d), false) ≡ (pos d, false))
unfolding after_byte
closed c d (inl e) = rw (e, after_byte) (refl, ap (λ z. (z, false)) (one_back d))
closed c d (inr e) = rw (e, after_byte) (refl, ap (λ z. (z, false)) (one_back d))

inner :
    (c d : ℕ) (inside : Bool)
    → IsPlain c
    → (inside ≡ true) ⊎ (c ≢ b';')
    → (inside ≡ true → 1 ≤ d)
    → (ends_statement c (pos d, false) ≡ false) × (after_byte c (pos d, false) ≡ (pos d, false))
unfolding after_byte
inner c d inside h (inl e) deep = let below = deep e in (ground arith, ground arith)
inner c d inside h (inr n) deep = (ground arith, ground arith)

statements_from-Whole :
    (inside : Bool) (text : Bytes) (d : ℕ) (rest : Bytes)
    → Whole inside text
    → (inside ≡ true → 1 ≤ d)
    → statements_from (pos d, false) (text ++ rest)
      ≡ prepend text (statements_from (pos d, false) rest)
unfolding prepend after_byte
statements_from-Whole inside text d rest (empty inside') deep = refl
statements_from-Whole inside text d rest (plain inside' c more p s w) deep =
    let (open_still, same) = inner c d inside' p s deep in
    step c (pos d, false) (pos d, false) (more ++ rest) open_still same
    ∙ ap (cons_head c) (statements_from-Whole inside' more d rest w deep)
statements_from-Whole inside text d rest (quoted inside' t more n w) deep =
    ap (λ b. statements_from (pos d, false) (b'"' ∷ b)) (append_assoc t (b'"' ∷ more) rest)
    ∙ step b'"' (pos d, false) (pos d, true) (t ++ (b'"' ∷ (more ++ rest))) refl refl
    ∙ ap (cons_head b'"') (
        statements_from-quoted (pos d) t (more ++ rest) n
        ∙ ap (λ z. prepend t (cons_head b'"' z)) (statements_from-Whole inside' more d rest w deep)
        ∙ sym (prepend-append t (b'"' ∷ more) (statements_from (pos d, false) rest)))
statements_from-Whole inside text d rest (bracketed inside' o c t more p q v w) deep =
    let (still, deeper) = opened o d p in
    let (yet, back) = closed c d q in
    ap (λ b. statements_from (pos d, false) (o ∷ b)) (append_assoc t (c ∷ more) rest)
    ∙ step o (pos d, false) (pos (suc d), false) (t ++ (c ∷ (more ++ rest))) still deeper
    ∙ ap (cons_head o) (
        statements_from-Whole true t (suc d) (c ∷ (more ++ rest)) v (λ e. omega arith)
        ∙ ap (prepend t) (
            step c (pos (suc d), false) (pos d, false) (more ++ rest) yet back
            ∙ ap (cons_head c) (statements_from-Whole inside' more d rest w deep))
        ∙ sym (prepend-append t (c ∷ more) (statements_from (pos d, false) rest)))

statements_from-join :
    (part : Bytes) (parts : List Bytes)
    → Whole false part
    → All (Whole false) parts
    → statements_from (pos 0, false) (join b';' (part ∷ parts)) ≡ part ∷ parts
unfolding join statements_from after_byte
statements_from-join part [] w ws =
    ap (statements_from (pos 0, false)) (sym (append-nil part))
    ∙ statements_from-Whole false part 0 [] w (λ e. cc)
    ∙ prepend-nil part []
statements_from-join part (next ∷ parts) w ws =
    statements_from-Whole false part 0 (b';' ∷ join b';' (next ∷ parts)) w (λ e. cc)
    ∙ ap (λ z. prepend part ([] ∷ z)) (statements_from-join next parts ws.0 ws.1)
    ∙ prepend-nil part (next ∷ parts)

-- splitStatements loses nothing: its statements with semicolons between them are the body. And it
-- finds the statements of a body: where the quotes and brackets of each are closed, and semicolons
-- stand within them only, the statements with semicolons between them are split into just these.
pub split_statements-join :
    (body part : Bytes) (parts : List Bytes)
    → Whole false part
    → All (Whole false) parts
    → (join b';' (split_statements body) ≡ body)
      × (split_statements (join b';' (part ∷ parts)) ≡ part ∷ parts)
unfolding split_statements
split_statements-join body part parts w ws =
    (join-split_statements body, statements_from-join part parts w ws)
