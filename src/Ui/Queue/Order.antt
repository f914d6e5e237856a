-- ===== src/Ui/Queue/Order.antt =====
-- ui/event_queue.go: `Push` and `Pop` as the two sides of the queue see them.
use go_xpra.Prelude.{
  ℕ, ◌+◌, ◌≤◌, ◌≡◌, ◌⊎◌, refl, ap, sym, ◌∙◌, true, false, List, [], ◌∷◌, ◌++◌, append_assoc,
  append-nil, Option, none, some, length, All, max, arith, if◌then◌else◌, Bool-cases, Option-cases,
  inl, inr,
}
use go_xpra.Ui.Event.{Event}
use go_xpra.Ui.Queue.{
  EventQueue, new_event_queue, is_coalescible, can_coalesce, push_locked, push, pop,
}
use go_xpra.Ui.Queue.Laws.{important, important-append, push_locked-Pushed, push_locked-none}

-- No push loses, repeats or reorders an event that must not be lost: an important event joins the
-- important ones at the end, and a coalescible one leaves them as they are.
pub important-push :
    (q : EventQueue) (e : Event)
    → important (push q e).pending
      ≡ (if is_coalescible e then important q.pending else important q.pending ++ (e ∷ []))
unfolding push
important-push q e = elim (Option-cases (push_locked q.max_pending q.pending e)) [
  | inl n ↦ rw (n, push) (rw ((push_locked-none q.max_pending q.pending e n).0) refl)
  | inr (p, h) ↦ rw (h, push) ((push_locked-Pushed q.max_pending q.pending e p h).kept)
]

-- The queue grows past its limit by an important event alone, and only when all that is pending is
-- important too.
pub length-push :
    (q : EventQueue) (e : Event)
    → (length (push q e).pending ≤ max q.max_pending (length q.pending))
      ⊎ ((length (push q e).pending ≡ length q.pending + 1)
          × (important q.pending ≡ q.pending)
          × (is_coalescible e ≡ false))
unfolding push
length-push q e = elim (Option-cases (push_locked q.max_pending q.pending e)) [
  | inl n ↦ rw (n, push) (inl (omega arith))
  | inr (p, h) ↦ rw (h, push) ((push_locked-Pushed q.max_pending q.pending e p h).size)
]

-- A push either wakes the consumer, or drops its event; it drops only a coalescible event, from a
-- full queue that holds none which it could replace.
pub push_wakes :
    (q : EventQueue) (e : Event)
    → ((push q e).wake ≡ true)
      ⊎ ((push q e ≡ q)
          × (is_coalescible e ≡ true)
          × (q.max_pending ≤ length q.pending)
          × All (λ x. can_coalesce x e ≡ false) q.pending)
unfolding push
push_wakes q e = elim (Option-cases (push_locked q.max_pending q.pending e)) [
  | inl n ↦
      let (c, full, none_matches) = push_locked-none q.max_pending q.pending e n in
      rw (n, push) (inr (refl, c, full, none_matches))
  | inr (p, h) ↦ rw (h, push) (inl refl)
]

-- The two sides call in any order.
pub data Call : Type 0 where
  pushes : Event → Call
  pops : Call

abbrev pub popped : Option Event → List Event
popped none = []
popped (some e) = e ∷ []

-- The queue after the calls, and the events that were popped.
unfoldable pub run : List Call → EventQueue → EventQueue × List Event
run [] q = (q, [])
run (pushes e ∷ calls) q = run calls (push q e)
run (pops ∷ calls) q =
    let (q', got) = pop q in let (q'', more) = run calls q' in (q'', popped got ++ more)

abbrev pub pushed : List Call → List Event
pushed [] = []
pushed (pushes e ∷ calls) = e ∷ pushed calls
pushed (pops ∷ calls) = pushed calls

pop-important :
    (q : EventQueue) → important (popped (pop q).1 ++ (pop q).0.pending) ≡ important q.pending
unfolding pop
pop-important q = by_pending q.pending refl
  where
    by_pending :
        (l : List Event)
        → q.pending ≡ l
        → important (popped (pop q).1 ++ (pop q).0.pending) ≡ important q.pending
    by_pending [] e = rw (e, pop) (ap important e)
    by_pending (x ∷ l) e = rw (e, pop) refl

run-important :
    (calls : List Call) (q : EventQueue)
    → important ((run calls q).1 ++ (run calls q).0.pending)
      ≡ important q.pending ++ important (pushed calls)
unfolding run
run-important [] q = sym (append-nil (important q.pending))
run-important (pushes e ∷ calls) q = elim (Bool-cases (is_coalescible e)) [
  | inl c ↦ run-important calls (push q e) ∙ rw (important-push q e, c) refl
  | inr i ↦
      run-important calls (push q e)
      ∙ rw (important-push q e, i)
          (append_assoc (important q.pending) (e ∷ []) (important (pushed calls)))
]
run-important (pops ∷ calls) q =
    let got = popped (pop q).1 in
    let later = run calls (pop q).0 in
    ap important (append_assoc got later.1 later.0.pending)
    ∙ important-append got (later.1 ++ later.0.pending)
    ∙ ap (λ t. important got ++ t) (run-important calls (pop q).0)
    ∙ sym (append_assoc (important got) (important (pop q).0.pending) (important (pushed calls)))
    ∙ ap (λ t. t ++ important (pushed calls))
        (sym (important-append got (pop q).0.pending) ∙ pop-important q)

-- Whatever the order of calls on a new queue, the important events that were popped and those still
-- pending are the important events that were pushed, in the order in which they were pushed.
pub run_keeps_important :
    (max_pending : ℕ) (calls : List Call)
    → important (
        (run calls (new_event_queue max_pending)).1
        ++ (run calls (new_event_queue max_pending)).0.pending)
      ≡ important (pushed calls)
run_keeps_important max_pending calls = run-important calls (new_event_queue max_pending)
