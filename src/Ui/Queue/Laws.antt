-- ===== src/Ui/Queue/Laws.antt =====
-- ui/event_queue.go, `pushLocked`: the queue before and after a push.
use go_xpra.Prelude.{
  ℕ, ◌+◌, ◌≤◌, ◌≡◌, refl, ap, true, false, List, [], ◌∷◌, ◌++◌, append-nil, none, some, length,
  length-append, ltb, if◌then◌else◌, All, ◌⊎◌, max, arith, Bool-cases, Option-cases, inl, inr,
  ltb→le, ltb→lt,
}
use go_xpra.Ui.Event.{Event, configure, motion, clipboard_change}
use go_xpra.Ui.Queue.{is_coalescible, can_coalesce, replace_last, evict_first, push_locked}

-- The events that must not be lost, in order.
abbrev pub important : List Event → List Event
important [] = []
important (e ∷ es) = if is_coalescible e then important es else e ∷ important es

pub important-append : (p q : List Event) → important (p ++ q) ≡ important p ++ important q
important-append [] q = refl
important-append (e ∷ p) q = elim (Bool-cases (is_coalescible e)) [
  | inl c ↦ rw c (important-append p q)
  | inr i ↦ rw i (ap (λ t. e ∷ t) (important-append p q))
]

can_coalesce-old : (old new : Event) → can_coalesce old new ≡ true → is_coalescible old ≡ true
unfolding can_coalesce is_coalescible
can_coalesce-old (configure v x y w h) new e = refl
can_coalesce-old (motion v x y) new e = refl
can_coalesce-old (clipboard_change s) new e = refl
can_coalesce-old _ new e = cc

-- Replacing a coalescible event touches no important one.
replace_last-important :
    (q q' : List Event) (e : Event)
    → is_coalescible e ≡ true
    → replace_last q e ≡ some q'
    → (important q' ≡ important q) × (length q' ≡ length q)
unfolding replace_last
replace_last-important [] q' e c h = cc
replace_last-important (x ∷ qs) q' e c h = elim (Option-cases (replace_last qs e)) [
  | inl n ↦ elim (Bool-cases (can_coalesce x e)) [
    | inl y ↦ let s : q' ≡ e ∷ qs = ground arith in rw s (rw (c, can_coalesce-old x e y) refl, refl)
    | inr y ↦ absurd (ground arith)
  ]
  | inr (qs', n) ↦
      let s : q' ≡ x ∷ qs' = ground arith in
      let (same, len) = replace_last-important qs qs' e c n in rw s (rw same refl, rw len refl)
]

-- An eviction removes one coalescible event and puts the important one last.
evict_first-important :
    (q q' : List Event) (e : Event)
    → is_coalescible e ≡ false
    → evict_first q e ≡ some q'
    → (important q' ≡ important q ++ (e ∷ [])) × (length q' ≡ length q)
unfolding evict_first
evict_first-important [] q' e i h = cc
evict_first-important (x ∷ qs) q' e i h = elim (Bool-cases (is_coalescible x)) [
  | inl c ↦
      let s : q' ≡ qs ++ (e ∷ []) = ground arith in
      rw s (rw (important-append qs (e ∷ []), c, i) refl, omega (arith, length-append qs (e ∷ [])))
  | inr c ↦ elim (Option-cases (evict_first qs e)) [
    | inl n ↦ absurd (ground arith)
    | inr (qs', n) ↦
        let s : q' ≡ x ∷ qs' = ground arith in
        let (same, len) = evict_first-important qs qs' e i n in
        rw s (rw (c, same) refl, rw len refl)
  ]
]

-- What `push` does to the important events.
abbrev pub with_event : List Event → Event → List Event
with_event es e = if is_coalescible e then es else es ++ (e ∷ [])

append-important :
    (q : List Event) (e : Event) → important (q ++ (e ∷ [])) ≡ with_event (important q) e
append-important q e = elim (Bool-cases (is_coalescible e)) [
  | inl c ↦ rw (important-append q (e ∷ []), c) (append-nil (important q))
  | inr i ↦ rw (important-append q (e ∷ []), i) refl
]

-- A queue with nothing to evict holds important events alone.
evict_first-none : (q : List Event) (e : Event) → evict_first q e ≡ none → important q ≡ q
unfolding evict_first
evict_first-none [] e h = refl
evict_first-none (x ∷ qs) e h = elim (Bool-cases (is_coalescible x)) [
  | inl c ↦ absurd (ground arith)
  | inr c ↦ elim (Option-cases (evict_first qs e)) [
    | inl n ↦ rw (c, evict_first-none qs e n) refl
    | inr (qs', n) ↦ absurd (ground arith)
  ]
]

-- What a push of `e` that yields `q'` out of `q` keeps, under the limit `m`.
pub record Pushed (m : ℕ) (q : List Event) (e : Event) (q' : List Event) : Type 0 where
  pub kept : important q' ≡ with_event (important q) e
  pub size :
      (length q' ≤ max m (length q))
      ⊎ ((length q' ≡ length q + 1) × (important q ≡ q) × (is_coalescible e ≡ false))

pub push_locked-Pushed :
    (m : ℕ) (q : List Event) (e : Event) (q' : List Event)
    → push_locked m q e ≡ some q'
    → Pushed m q e q'
unfolding push_locked
push_locked-Pushed m q e q' h = elim (Bool-cases (ltb (length q) m)) [
  | inl room ↦
      let s : q' ≡ q ++ (e ∷ []) = ground arith in
      rw s (record {
        kept = append-important q e;
        size = inl (omega (arith, length-append q (e ∷ []), ltb→lt (length q) m room));
      })
  | inr full ↦ elim (Bool-cases (is_coalescible e)) [
    | inl c ↦
        let r : replace_last q e ≡ some q' = ground arith in
        let (same, len) = replace_last-important q q' e c r in
        record { kept = rw c same; size = inl (omega arith) }
    | inr i ↦ elim (Option-cases (evict_first q e)) [
      | inl n ↦
          let s : q' ≡ q ++ (e ∷ []) = ground arith in
          rw s (record {
            kept = append-important q e;
            size = inr (omega (arith, length-append q (e ∷ [])), evict_first-none q e n, i);
          })
      | inr (q2, n) ↦
          let s : q' ≡ q2 = ground arith in
          let (same, len) = evict_first-important q q2 e i n in
          rw s (record { kept = rw (same, i) refl; size = inl (omega arith) })
    ]
  ]
]

-- Only a coalescible event is dropped, and only where no pending one can take its place.
replace_last-none :
    (q : List Event) (e : Event) → replace_last q e ≡ none → All (λ x. can_coalesce x e ≡ false) q
unfolding replace_last
replace_last-none [] e h = tt
replace_last-none (x ∷ qs) e h = elim (Option-cases (replace_last qs e)) [
  | inl n ↦ (ground arith, replace_last-none qs e n)
  | inr (qs', n) ↦ absurd (ground arith)
]

pub push_locked-none :
    (m : ℕ) (q : List Event) (e : Event)
    → push_locked m q e ≡ none
    → (is_coalescible e ≡ true) × (m ≤ length q) × All (λ x. can_coalesce x e ≡ false) q
unfolding push_locked
push_locked-none m q e h = elim (Bool-cases (ltb (length q) m)) [
  | inl room ↦ absurd (ground arith)
  | inr full ↦ elim (Bool-cases (is_coalescible e)) [
    | inl c ↦ (c, ltb→le (length q) m full, replace_last-none q e (ground arith))
    | inr i ↦ elim (Option-cases (evict_first q e)) [
      | inl n ↦ absurd (ground arith)
      | inr (q2, n) ↦ absurd (ground arith)
    ]
  ]
]
