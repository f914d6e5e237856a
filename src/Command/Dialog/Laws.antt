-- ===== src/Command/Dialog/Laws.antt =====
-- cmd/go-xpra/connect_dialog.go: a text field as the runes on both sides of its cursor.
use go_xpra.Prelude.{
  ℕ, zero, suc, ◌+◌, ◌-◌, ◌≤◌, ◌≡◌, refl, sym, ap, ◌∙◌, inl, inr, List, [], ◌∷◌, ◌++◌, ◌==◌, length,
  take, drop, length-append, length-take, length-drop, take-append, drop-append, append-nil,
  append_assoc, arith, Bool-cases,
}
use go_xpra.Command.Dialog.{TextInput, insert_text, backspace, delete_rune, all_but_last}

-- The runes before the cursor and those behind it.
abbrev pub View : Type 0
View = List ℕ × List ℕ

unfoldable pub view : TextInput → View
view i = (take i.cursor i.text, drop i.cursor i.text)

unfoldable pub tail_of : List ℕ → List ℕ
tail_of [] = []
tail_of (r ∷ runes) = runes

view_at :
    (c : ℕ) (front back : List ℕ)
    → c ≡ length front
    → view (record { text = front ++ back; cursor = c }) ≡ (front, back)
unfolding view
view_at c front back e =
    ap (λ n. view (record { text = front ++ back; cursor = n })) e
    ∙ ap (λ l. (l, drop (length front) (front ++ back))) (take-append front back)
    ∙ ap (λ l. (front, l)) (drop-append front back)

all_but_last-take :
    (n : ℕ) (xs : List ℕ) → suc n ≤ length xs → all_but_last (take (suc n) xs) ≡ take n xs
unfolding all_but_last
all_but_last-take zero (x ∷ xs) h = refl
all_but_last-take (suc n) (x ∷ []) h = absurd (omega arith)
all_but_last-take (suc n) (x ∷ y ∷ xs) h =
    ap (λ l. x ∷ l) (all_but_last-take n (y ∷ xs) (omega arith))
all_but_last-take n [] h = absurd (omega arith)

tail_of-drop : (n m : ℕ) (xs : List ℕ) → m ≡ suc n → tail_of (drop n xs) ≡ drop m xs
unfolding tail_of
tail_of-drop n zero xs e = absurd (omega arith)
tail_of-drop zero (suc m) [] e = refl
tail_of-drop zero (suc m) (x ∷ xs) e = ap (λ k. drop k xs) (let f : 0 ≡ m = omega arith in f)
tail_of-drop (suc n) (suc m) [] e = refl
tail_of-drop (suc n) (suc m) (x ∷ xs) e = tail_of-drop n m xs (omega arith)

nil_of_length : (xs : List ℕ) → length xs ≡ 0 → xs ≡ []
nil_of_length [] e = refl
nil_of_length (x ∷ xs) e = absurd (omega arith)

module _ (i : TextInput) (within : i.cursor ≤ length i.text) where
  length-before : (n : ℕ) → n ≤ i.cursor → n ≡ length (take n i.text)
  length-before n h = omega (arith, length-take n i.text)

  view-insert_text :
      (runes : List ℕ) → view (insert_text runes i) ≡ ((view i).0 ++ runes, (view i).1)
  unfolding view insert_text
  view-insert_text [] =
      ap (λ l. (l, drop i.cursor i.text)) (sym (append-nil (take i.cursor i.text)))
  view-insert_text (r ∷ runes) =
      let before = take i.cursor i.text in
      let behind = drop i.cursor i.text in
      let at = i.cursor + length (r ∷ runes) in
      ap (λ l. view (record { text = l; cursor = at }))
        (sym (append_assoc before (r ∷ runes) behind))
      ∙ view_at at (before ++ (r ∷ runes)) behind
          (omega (arith, length-append before (r ∷ runes), length-take i.cursor i.text))

  view-delete_rune : view (delete_rune i) ≡ ((view i).0, tail_of (view i).1)
  unfolding view delete_rune tail_of
  view-delete_rune = elim (Bool-cases (i.cursor == length i.text)) [
    | inl e ↦
        let last : i.cursor ≡ length i.text = ground arith in
        let none_behind : drop i.cursor i.text ≡ [] =
          nil_of_length (drop i.cursor i.text) (omega (arith, length-drop i.cursor i.text)) in
        rw (e, delete_rune)
          (ap (λ l. (take i.cursor i.text, l)) (none_behind ∙ sym (ap tail_of none_behind)))
    | inr e ↦
        rw (e, delete_rune)
          (view_at i.cursor (take i.cursor i.text) (drop (i.cursor + 1) i.text)
              (length-before i.cursor (omega arith))
            ∙ ap (λ l. (take i.cursor i.text, l))
                (sym (tail_of-drop i.cursor (i.cursor + 1) i.text (omega arith))))
  ]

  view-backspace : view (backspace i) ≡ (all_but_last (view i).0, (view i).1)
  unfolding view backspace all_but_last
  view-backspace = elim (Bool-cases (i.cursor == 0)) [
    | inl e ↦
        let first : i.cursor ≡ 0 = ground arith in
        let none_before : take i.cursor i.text ≡ [] = ap (λ n. take n i.text) first in
        rw (e, backspace)
          (ap (λ l. (l, drop i.cursor i.text)) (none_before ∙ sym (ap all_but_last none_before)))
    | inr e ↦
        let whole : suc (i.cursor - 1) ≡ i.cursor = ground arith in
        let shorter : all_but_last (take i.cursor i.text) ≡ take (i.cursor - 1) i.text =
          ap (λ n. all_but_last (take n i.text)) (sym whole)
          ∙ all_but_last-take (i.cursor - 1) i.text (omega arith) in
        rw (e, backspace)
          (view_at (i.cursor - 1) (take (i.cursor - 1) i.text) (drop i.cursor i.text)
              (length-before (i.cursor - 1) (omega arith))
            ∙ ap (λ l. (l, drop i.cursor i.text)) (sym shorter))
  ]

  -- As long as the cursor is within the text: insert puts runes before the cursor, backspace takes the
  -- last rune before it away, delete the first one behind it, each nothing where there is none, and
  -- all leave what is on the other side as it is.
  pub edits_lem :
      (runes : List ℕ)
      → (view (insert_text runes i) ≡ ((view i).0 ++ runes, (view i).1))
        × (view (backspace i) ≡ (all_but_last (view i).0, (view i).1))
        × (view (delete_rune i) ≡ ((view i).0, tail_of (view i).1))
  edits_lem runes = (view-insert_text runes, view-backspace, view-delete_rune)
