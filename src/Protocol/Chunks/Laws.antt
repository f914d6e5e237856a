-- ===== src/Protocol/Chunks/Laws.antt =====
-- protocol/conn.go, `rawChunkState.add`: the chunks that are held, their indexes and sizes.
use go_xpra.Prelude.{
  ℕ, ◌+◌, ◌-◌, ◌≤◌, ◌<◌, ◌≡◌, refl, Bool, true, false, List, [], ◌∷◌, ◌++◌, Option, none, some,
  length, length-append, ◌==◌, if◌then◌else◌, arith, All, All-append, Bool-cases, inl, inr,
}
use go_xpra.Prelude.Bytes.{Bytes}
use go_xpra.Prelude.Result.{ok}
use go_xpra.Protocol.Header.{max_payload_size, max_packet_index}
use go_xpra.Protocol.Chunks.{RawChunkState, max_raw_chunks, payload_at, is_some, add}

abbrev pub total : List (ℕ × Bytes) → ℕ
total [] = 0
total ((i, p) ∷ l) = length p + total l

-- No index twice.
abbrev pub AreDistinct : List (ℕ × Bytes) → Type 0
AreDistinct [] = Unit
AreDistinct ((i, p) ∷ l) = (payload_at i l ≡ none) × AreDistinct l

-- At most three chunks, none of them empty, under distinct indexes from 1 to 15, whose sizes sum to
-- `size` and fit in a packet.
pub record IsValid (s : RawChunkState) : Type 0 where
  pub few : length s.packets ≤ max_raw_chunks
  pub filled : All (λ p. 0 < length p.1) s.packets
  pub indexed : All (λ p. (1 ≤ p.0) × (p.0 ≤ max_packet_index)) s.packets
  pub distinct : AreDistinct s.packets
  pub counted : total s.packets ≡ s.size
  pub bounded : s.size ≤ max_payload_size

total-snoc :
    (l : List (ℕ × Bytes)) (i : ℕ) (p : Bytes) → total (l ++ ((i, p) ∷ [])) ≡ total l + length p
total-snoc [] i p = omega arith
total-snoc ((j, q) ∷ l) i p = omega (arith, total-snoc l i p)

payload_at-snoc :
    (k : ℕ) (l : List (ℕ × Bytes)) (i : ℕ) (p : Bytes)
    → payload_at k (l ++ ((i, p) ∷ []))
      ≡ elim (payload_at k l) [ some q ↦ some q | none ↦ if i == k then some p else none ]
unfolding payload_at
payload_at-snoc k [] i p = refl
payload_at-snoc k ((j, q) ∷ l) i p = elim (Bool-cases (j == k)) [
  | inl e ↦ rw e
  | inr e ↦ rw e (payload_at-snoc k l i p)
]

snoc-AreDistinct :
    (l : List (ℕ × Bytes)) (i : ℕ) (p : Bytes)
    → AreDistinct l
    → payload_at i l ≡ none
    → AreDistinct (l ++ ((i, p) ∷ []))
unfolding payload_at
snoc-AreDistinct [] i p d a = (refl, tt)
snoc-AreDistinct ((j, q) ∷ l) i p d a =
    (ground (arith, payload_at-snoc j l i p, d), snoc-AreDistinct l i p d.1 (ground arith))

is_some-none : (o : Option Bytes) → is_some o ≡ false → o ≡ none
unfolding is_some
is_some-none none h = refl
is_some-none (some p) h = cc

-- What a successful `add` has checked, and the state that it leaves.
record Added (s : RawChunkState) (i : ℕ) (p : Bytes) (s' : RawChunkState) : Type 0 where
  filled : 0 < length p
  fresh : payload_at i s.packets ≡ none
  room : length s.packets < max_raw_chunks
  fits : length p ≤ max_payload_size - s.size
  packets_eq : s'.packets ≡ s.packets ++ ((i, p) ∷ [])
  size_eq : s'.size ≡ s.size + length p

add_inv :
    (s : RawChunkState) (i : ℕ) (p : Bytes) (s' : RawChunkState)
    → add s i p ≡ ok s'
    → Added s i p s'
unfolding add
add_inv s i p s' e = elim (Bool-cases (is_some (payload_at i s.packets))) [
  | inl t ↦ ground arith
  | inr t ↦
      let fresh = is_some-none _ t in
      record {
        filled = ground arith;
        fresh = fresh;
        room = ground arith;
        fits = ground arith;
        packets_eq = ground arith;
        size_eq = ground arith;
      }
]

-- `add` keeps the state valid: at most three non-empty chunks under distinct indexes, their sizes
-- counted and within the packet limit.
pub add-IsValid :
    (s : RawChunkState) (i : ℕ) (p : Bytes) (s' : RawChunkState)
    → IsValid s
    → 1 ≤ i
    → i ≤ max_packet_index
    → add s i p ≡ ok s'
    → IsValid s'
add-IsValid s i p s' v lo hi e =
    let a = add_inv s i p s' e in
    record {
      few = rw a.packets_eq (omega (arith, length-append s.packets ((i, p) ∷ []), a.room));
      filled = rw a.packets_eq (All-append _ s.packets _ v.filled (a.filled, tt));
      indexed = rw a.packets_eq (All-append _ s.packets _ v.indexed ((lo, hi), tt));
      distinct = rw a.packets_eq (snoc-AreDistinct s.packets i p v.distinct a.fresh);
      counted = rw (a.packets_eq, a.size_eq) (omega (arith, total-snoc s.packets i p, v.counted));
      bounded = rw a.size_eq (omega (arith, a.fits, v.bounded));
    }

-- After an `add` the chunk is found under its index, and every other index is as before.
pub payload_at-add :
    (s : RawChunkState) (i : ℕ) (p : Bytes) (s' : RawChunkState) (k : ℕ)
    → add s i p ≡ ok s'
    → payload_at k s'.packets ≡ (if i == k then some p else payload_at k s.packets)
payload_at-add s i p s' k e =
    let a = add_inv s i p s' e in
    rw a.packets_eq
      (rw (payload_at-snoc k s.packets i p) (found (i == k) refl (payload_at k s.packets) refl))
  where
    found :
        (b : Bool)
        → (i == k) ≡ b
        → (o : Option Bytes) → payload_at k s.packets ≡ o
        → (elim o [ some q ↦ some q | none ↦ if b then some p else none ])
          ≡ (if b then some p else o)
    found false e' o q = ground arith
    found true e' none q = refl
    found true e' (some r) q = ground (arith, (add_inv s i p s' e).fresh)
