-- ===== src/Wayland/Keymap/Described.antt =====
-- wayland/keymap.go: where the entries of a parsed keymap come from.
use go_xpra.Prelude.{
  ℕ, suc, ◌+◌, ◌-◌, ◌≡◌, ◌⊎◌, refl, ap, inl, inr, List, [], ◌∷◌, some, ltb, arith, Bool-cases,
  Option-cases, get_elem?, ltb→le,
}
use go_xpra.Prelude.Bytes.{Bytes, codes}
use go_xpra.Prelude.Table.{Table, lookup, insert, lookup-insert_inv, bytes_key, nat_key}
use go_xpra.Prelude.Text.{split}
use go_xpra.Wayland.Keymap.{
  Levels, keycode_offset, keycode_line, add_keycodes, parse_keycodes, section_body,
  split_statements,
}
use go_xpra.Wayland.Keymap.Symbols.{
  parse_key_statement, add_key, add_statements, keymap_of, parse_keymap,
}

-- A line that gives a key its code.
abbrev pub Numbers : List Bytes → Bytes → ℕ → Type 0
Numbers lines key code =
    (i : ℕ) × (line : Bytes) × (get_elem? lines i ≡ some line)
    × (keycode_line line ≡ some (key, code))

add_keycodes-Numbers :
    (lines : List Bytes) (known : Table Bytes ℕ) (key : Bytes) (code : ℕ)
    → lookup (add_keycodes lines known) key ≡ some code
    → Numbers lines key code ⊎ (lookup known key ≡ some code)
unfolding add_keycodes
add_keycodes-Numbers [] known key code e = inr e
add_keycodes-Numbers (line ∷ lines) known key code e = elim (Option-cases (keycode_line line)) [
  | inl other ↦
      let later : lookup (add_keycodes lines known) key ≡ some code =
        rw (other, add_keycodes) at e in
      further (add_keycodes-Numbers lines known key code later)
  | inr ((k, c), found) ↦
      let later : lookup (add_keycodes lines (insert k c known)) key ≡ some code =
        rw (found, add_keycodes) at e in
      elim (add_keycodes-Numbers lines (insert k c known) key code later) [
        | inl numbers ↦ further (inl numbers)
        | inr there ↦ elim (lookup-insert_inv k c known key code there) [
          | inl (same, equal) ↦ inl (0, line, refl, cc)
          | inr (other, old) ↦ inr old
        ]
      ]
]
  where
    further :
        Numbers lines key code ⊎ (lookup known key ≡ some code)
        → Numbers (line ∷ lines) key code ⊎ (lookup known key ≡ some code)
    further (inl (i, l, at, k)) = inl (suc i, l, at, k)
    further (inr k) = inr k

module _ (keysym_to_str : ℕ → Bytes) where
  -- A statement that gives a key its names.
  abbrev pub Names : List Bytes → Bytes → List Bytes → Type 0
  Names statements key names =
      (i : ℕ) × (statement : Bytes) × (get_elem? statements i ≡ some statement)
      × (parse_key_statement keysym_to_str statement ≡ some (key, names))

  -- What an entry that is found after a statement was before it.
  add_key-inv :
      (keycodes : Table Bytes ℕ) (key : Bytes) (given : List Bytes) (levels : Levels) (code : ℕ)
      (names : List Bytes)
      → lookup (add_key keysym_to_str keycodes (key, given) levels) code ≡ some names
      → ((given ≡ names) × (lookup keycodes key ≡ some (code + keycode_offset)))
        ⊎ (lookup levels code ≡ some names)
  unfolding add_key
  add_key-inv keycodes key given levels code names e = elim (Option-cases (lookup keycodes key)) [
    | inl absent ↦ inr (rw (absent, add_key) at e)
    | inr (x, known) ↦ elim (Bool-cases (ltb x keycode_offset)) [
      | inl low ↦ inr (rw (known, low, add_key) at e)
      | inr high ↦
          let added : lookup (insert (x - keycode_offset) given levels) code ≡ some names =
            rw (known, high, add_key) at e in
          elim (lookup-insert_inv (x - keycode_offset) given levels code names added) [
            | inl (same, equal) ↦
                let whole : x ≡ code + keycode_offset =
                  omega (arith, ltb→le x keycode_offset high) in
                inl (equal, rw known (ap some whole))
            | inr (other, old) ↦ inr old
          ]
    ]
  ]

  add_statements-Names :
      (keycodes : Table Bytes ℕ) (statements : List Bytes) (levels : Levels) (code : ℕ)
      (names : List Bytes)
      → lookup (add_statements keysym_to_str keycodes statements levels) code ≡ some names
      → ((key : Bytes) × Names statements key names
          × (lookup keycodes key ≡ some (code + keycode_offset)))
        ⊎ (lookup levels code ≡ some names)
  unfolding add_statements
  add_statements-Names keycodes [] levels code names e = inr e
  add_statements-Names keycodes (statement ∷ statements) levels code names e =
      elim (Option-cases (parse_key_statement keysym_to_str statement)) [
        | inl other ↦
            let later : lookup (add_statements keysym_to_str keycodes statements levels) code
                ≡ some names =
              rw (other, add_statements) at e in
            further (add_statements-Names keycodes statements levels code names later)
        | inr ((key, given), found) ↦
            let later : lookup
                  (add_statements keysym_to_str keycodes statements
                    (add_key keysym_to_str keycodes (key, given) levels))
                  code
                ≡ some names =
              rw (found, add_statements) at e in
            elim (add_statements-Names keycodes statements
              (add_key keysym_to_str keycodes (key, given) levels) code names later) [
                | inl described ↦ further (inl described)
                | inr there ↦ elim (add_key-inv keycodes key given levels code names there) [
                  | inl (same, known) ↦ inl (key, (0, statement, refl, cc), known)
                  | inr old ↦ inr old
                ]
              ]
      ]
    where
      further :
          ((key : Bytes) × Names statements key names
              × (lookup keycodes key ≡ some (code + keycode_offset)))
            ⊎ (lookup levels code ≡ some names)
          → ((key : Bytes) × Names (statement ∷ statements) key names
              × (lookup keycodes key ≡ some (code + keycode_offset)))
            ⊎ (lookup levels code ≡ some names)
      further (inl (key, (i, l, at, k), c)) = inl (key, (suc i, l, at, k), c)
      further (inr k) = inr k

  keymap_of-Names :
      (keycodes : Table Bytes ℕ) (text : Bytes) (code : ℕ) (names : List Bytes)
      → lookup (keymap_of keysym_to_str keycodes text) code ≡ some names
      → (key : Bytes) × Names (split_statements (section_body text (codes "xkb_symbols"))) key names
        × (lookup keycodes key ≡ some (code + keycode_offset))
  unfolding keymap_of lookup
  keymap_of-Names [] text code names e = absurd cc
  keymap_of-Names (k ∷ more) text code names e =
      elim (add_statements-Names (k ∷ more)
        (split_statements (section_body text (codes "xkb_symbols"))) [] code names e) [
          | inl described ↦ described
          | inr impossible ↦ absurd cc
        ]

  numbered :
      (body : Bytes) (key : Bytes) (code : ℕ)
      → lookup (parse_keycodes body) key ≡ some code
      → Numbers (split 10 body) key code
  unfolding parse_keycodes lookup
  numbered body key code e = elim (add_keycodes-Numbers (split 10 body) [] key code e) [
    | inl numbers ↦ numbers
    | inr impossible ↦ absurd cc
  ]

  -- A key that a parsed keymap describes has its names from a statement of the xkb_symbols section, and
  -- its code, with X11's offset, from a line of xkb_keycodes for the same key.
  pub parse_keymap-described :
      (text : Bytes) (code : ℕ) (names : List Bytes)
      → lookup (parse_keymap keysym_to_str text) code ≡ some names
      → (key : Bytes) × Names (split_statements (section_body text (codes "xkb_symbols"))) key names
        × Numbers (split 10 (section_body text (codes "xkb_keycodes"))) key (code + keycode_offset)
  unfolding parse_keymap
  parse_keymap-described text code names e =
      let (key, named, code_of_key) = keymap_of-Names _ text code names e in
      (
        key,
        named,
        numbered (section_body text (codes "xkb_keycodes")) key (code + keycode_offset) code_of_key,
      )
