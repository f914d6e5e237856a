-- ===== src/Protocol/Chunks/Apply.antt =====
-- protocol/conn.go, `rawChunkState.apply`: packets and the chunks put into them.
use native.Mathlib.Decide.{ℕ_discrete}
use go_xpra.Prelude.{
  ℕ, zero, suc, ◌+◌, ◌≤◌, ◌<◌, ◌≡◌, ◌≢◌, refl, ap, subst, ◌∙◌, Bool, true, false, List, [], ◌∷◌,
  Option, none, some, length, get_elem?, set, length-set, get_elem?-set_self, get_elem?-set_ne,
  get_elem?-some_lt, ◌&&◌, leb, ltb, ◌==◌, if◌then◌else◌, arith, All, Bool-cases, Option-cases, inl,
  inr,
}
use go_xpra.Prelude.Bytes.{Bytes}
use go_xpra.Prelude.Result.{Result, ok, err, ◌>>=◌, >>=-eq-ok}
use go_xpra.Rencode.Value.{Value}
use go_xpra.Protocol.Header.{max_packet_index}
use go_xpra.Protocol.Chunks.Laws.{IsValid, total}
use go_xpra.Protocol.Chunks.{
  RawChunkState, no_chunks, ChunkError, payload_at, check_placeholder, place, place_all, apply,
}

-- The element that a packet has at `k` once the chunks are in place.
abbrev pub with_chunk : List (ℕ × Bytes) → List Value → ℕ → Option Value
with_chunk chunks packet k = elim (payload_at k chunks) [
  | some p ↦ some (Value.binary p)
  | none ↦ get_elem? packet k
]

record Placed (i : ℕ) (p : Bytes) (packet packet' : List Value) : Type 0 where
  inside : i < length packet
  result : packet' ≡ set packet i (Value.binary p)

place_inv :
    (i : ℕ) (p : Bytes) (packet packet' : List Value)
    → place i p packet ≡ ok packet'
    → Placed i p packet packet'
unfolding place
place_inv i p packet packet' e = elim (Option-cases (get_elem? packet i)) [
  | inl n ↦ absurd (ground arith)
  | inr (v, q) ↦
      let checked =
        >>=-eq-ok (check_placeholder v) (λ _. ok (set packet i (Value.binary p)))
          (rw (q, place) at e) in
      record { inside = get_elem?-some_lt packet i v q; result = cc (checked.2) }
]

-- The range of indexes that `n` rounds from `i` on reach.
abbrev in_range : ℕ → ℕ → ℕ → Bool
in_range n i k = leb i k && ltb k (i + n)

place_all-length :
    (n i : ℕ) (chunks : List (ℕ × Bytes)) (packet packet' : List Value)
    → place_all n i chunks packet ≡ ok packet'
    → length packet' ≡ length packet
unfolding place_all
place_all-length zero i chunks packet packet' e = ground arith
place_all-length (suc n) i chunks packet packet' e = elim (Option-cases (payload_at i chunks)) [
  | inl q ↦ place_all-length n (i + 1) chunks packet packet' (rw (q, place_all) at e)
  | inr (p, q) ↦
      let (mid, placed, later) =
        >>=-eq-ok (place i p packet) (place_all n (i + 1) chunks) (rw (q, place_all) at e) in
      place_all-length n (i + 1) chunks mid packet' later
      ∙ rw ((place_inv i p packet mid placed).result) (length-set packet i (Value.binary p))
]

range_miss : (n i k : ℕ) → i ≡ k → (in_range n (i + 1) k ≡ false) × (in_range (suc n) i k ≡ true)
range_miss n i k e = (ground arith, ground arith)

range_next : (n i k : ℕ) → i ≢ k → in_range (suc n) i k ≡ in_range n (i + 1) k
range_next n i k e = ground arith

elsewhere :
    (n i k : ℕ) (chunk : Option Bytes) (x y r : Option Value)
    → i ≢ k
    → x ≡ y
    → r ≡ (
        if in_range n (i + 1) k
        then elim chunk [ some p ↦ some (Value.binary p) | none ↦ x ]
        else x)
    → r ≡ (
        if in_range (suc n) i k
        then elim chunk [ some p ↦ some (Value.binary p) | none ↦ y ]
        else y)
elsewhere n i k chunk x y r other e h = rw (range_next n i k other) (
    subst
      (λ t. r ≡ (
        if in_range n (i + 1) k
        then elim chunk [ some p ↦ some (Value.binary p) | none ↦ t ]
        else t))
      e h)

place_all_lem :
    (n i k : ℕ) (chunks : List (ℕ × Bytes)) (packet packet' : List Value)
    → place_all n i chunks packet ≡ ok packet'
    → get_elem? packet' k
      ≡ (if in_range n i k then with_chunk chunks packet k else get_elem? packet k)
unfolding place_all
place_all_lem zero i k chunks packet packet' e = ground arith
place_all_lem (suc n) i k chunks packet packet' e = elim (Option-cases (payload_at i chunks)) [
  | inl q ↦
      let rest = place_all_lem n (i + 1) k chunks packet packet' (rw (q, place_all) at e) in
      elim (ℕ_discrete i k) [
        | yes same ↦ ground (arith, range_miss n i k same)
        | no other ↦ rw (range_next n i k other) rest
      ]
  | inr (p, q) ↦
      let (mid, placed, later) =
        >>=-eq-ok (place i p packet) (place_all n (i + 1) chunks) (rw (q, place_all) at e) in
      let rest = place_all_lem n (i + 1) k chunks mid packet' later in
      let put = place_inv i p packet mid placed in
      elim (ℕ_discrete i k) [
        | yes same ↦ ground (
          arith,
          range_miss n i k same,
          put.result,
          get_elem?-set_self packet i (Value.binary p) put.inside,
        )
        | no other ↦
            elsewhere n i k (payload_at k chunks) (get_elem? mid k) (get_elem? packet k)
              (get_elem? packet' k) other
              (rw put.result (get_elem?-set_ne packet i k (Value.binary p) other)) rest
      ]
]

payload_at-indexed :
    (k : ℕ) (l : List (ℕ × Bytes))
    → All (λ p. (1 ≤ p.0) × (p.0 ≤ max_packet_index)) l
    → in_range max_packet_index 1 k ≡ false
    → payload_at k l ≡ none
unfolding payload_at
payload_at-indexed k [] h r = refl
payload_at-indexed k ((i, p) ∷ l) h r = ground (arith, payload_at-indexed k l h.1 r)

reset_inv :
    (m : Result ChunkError (List Value)) (packet' : List Value) (s' : RawChunkState)
    → ◌>>=◌ {B = List Value × RawChunkState} m (λ r. ok (r, no_chunks)) ≡ ok (packet', s')
    → (m ≡ ok packet') × (s' ≡ no_chunks)
reset_inv (ok r) packet' s' e = (cc, cc)
reset_inv (err x) packet' s' e = (cc, cc)

length_zero : (l : List (ℕ × Bytes)) → (length l == 0) ≡ true → l ≡ []
length_zero [] h = refl
length_zero (c ∷ l) h = absurd (ground arith)

module _ (s : RawChunkState) (packet : List Value) (main_size : ℕ) (packet' : List Value)
    (s' : RawChunkState) (v : IsValid s) (e : apply s packet main_size ≡ ok (packet', s')) where
  applied_none :
      (length s.packets == 0) ≡ true → (packet' ≡ packet) × (s' ≡ no_chunks) × (s.packets ≡ [])
  unfolding apply
  applied_none h =
      let empty = length_zero s.packets h in
      let size : total s.packets ≡ 0 = rw empty refl in (ground arith, ground arith, empty)

  applied_some :
      (length s.packets == 0) ≡ false
      → (place_all max_packet_index 1 s.packets packet ≡ ok packet') × (s' ≡ no_chunks)
  unfolding apply
  applied_some h =
      let checked : ◌>>=◌ {B = List Value × RawChunkState}
            (place_all max_packet_index 1 s.packets packet) (λ r. ok (r, no_chunks))
          ≡ ok (packet', s') =
        ground arith in
      reset_inv (place_all max_packet_index 1 s.packets packet) packet' s' checked

-- The chunks that were waiting stand in the packet under their indexes, every other element is as it
-- was, and none is waiting any more.
pub apply_lem :
    (s : RawChunkState) (packet : List Value) (main_size : ℕ) (packet' : List Value)
    (s' : RawChunkState)
    → IsValid s
    → apply s packet main_size ≡ ok (packet', s')
    → (length packet' ≡ length packet)
      × ((k : ℕ) → get_elem? packet' k ≡ with_chunk s.packets packet k)
      × (s' ≡ no_chunks)
apply_lem s packet main_size packet' s' v e = elim (Bool-cases (length s.packets == 0)) [
  | inl h ↦
      let (same, reset, empty) = applied_none s packet main_size packet' s' v e h in
      (ap length same, λ k. rw (same, empty) (unfold payload_at in refl), reset)
  | inr h ↦
      let (placed, reset) = applied_some s packet main_size packet' s' v e h in
      (
        place_all-length max_packet_index 1 s.packets packet packet' placed,
        λ k.
            everywhere k (place_all_lem max_packet_index 1 k s.packets packet packet' placed)
              (payload_at-indexed k s.packets v.indexed),
        reset,
      )
]
  where
    everywhere :
        (k : ℕ)
        → get_elem? packet' k ≡ (
            if in_range max_packet_index 1 k
            then with_chunk s.packets packet k
            else get_elem? packet k)
        → (in_range max_packet_index 1 k ≡ false → payload_at k s.packets ≡ none)
        → get_elem? packet' k ≡ with_chunk s.packets packet k
    everywhere k at_k out = elim (Bool-cases (in_range max_packet_index 1 k)) [
      | inl t ↦ rw t at at_k
      | inr t ↦ rw (out t, with_chunk) (rw t at at_k)
    ]
