-- ===== src/Ui/Queue.antt =====
-- ui/event_queue.go: the queue between a backend's desktop thread and the relay of its events.
pub mod Laws
pub mod Order
use go_xpra.Prelude.{
  ℕ, ◌+◌, Bool, true, false, List, [], ◌∷◌, ◌++◌, Option, none, some, length, ltb, ◌==◌,
  if◌then◌else◌,
}
use go_xpra.Ui.Event.{Event, configure, motion, clipboard_change}

-- `wake` tells whether the channel holds its token.
pub record EventQueue : Type 0 where
  pub pending : List Event
  pub max_pending : ℕ
  pub wake : Bool

abbrev pub new_event_queue : ℕ → EventQueue
new_event_queue max_pending = record { pending = []; max_pending = max_pending; wake = false }

unfoldable pub is_coalescible : Event → Bool
is_coalescible (configure w x y width height) = true
is_coalescible (motion w x y) = true
is_coalescible (clipboard_change t) = true
is_coalescible _ = false

unfoldable pub can_coalesce : Event → Event → Bool
can_coalesce (configure v x y width height) (configure w x' y' width' height') = v == w
can_coalesce (motion v x y) (motion w x' y') = v == w
can_coalesce (clipboard_change s) (clipboard_change t) = true
can_coalesce _ _ = false

-- The loop from the newest event down: the last one that coalesces is replaced in its place.
unfoldable pub replace_last : List Event → Event → Option (List Event)
replace_last [] e = none
replace_last (q ∷ qs) e = elim (replace_last qs e) [
  | some qs' ↦ some (q ∷ qs')
  | none ↦ if can_coalesce q e then some (e ∷ qs) else none
]

-- The loop from the oldest event up: the first coalescible one gives its room to the new event.
unfoldable pub evict_first : List Event → Event → Option (List Event)
evict_first [] e = none
evict_first (q ∷ qs) e =
    if is_coalescible q
    then some (qs ++ (e ∷ []))
    else elim (evict_first qs e) [ some qs' ↦ some (q ∷ qs') | none ↦ none ]

-- The new queue, or `none` where the event is dropped.
unfoldable pub push_locked : ℕ → List Event → Event → Option (List Event)
push_locked max_pending pending e =
    if ltb (length pending) max_pending
    then some (pending ++ (e ∷ []))
    else if is_coalescible e
    then replace_last pending e
    else elim (evict_first pending e) [
      | some pending' ↦ some pending'
      | none ↦ some (pending ++ (e ∷ []))
    ]

unfoldable pub push : EventQueue → Event → EventQueue
push q e = elim (push_locked q.max_pending q.pending e) [
  | none ↦ q
  | some pending' ↦ record q { pending = pending'; wake = true }
]

unfoldable pub pop : EventQueue → EventQueue × Option Event
pop q = elim q.pending [ [] ↦ (q, none) | e ∷ rest ↦ (record q { pending = rest }, some e) ]
