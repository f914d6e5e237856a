-- ===== src/Protocol/Packet/Laws.antt =====
-- protocol/packet.go: the canonical names, and the accessors on reassembled packets.
use go_xpra.Prelude.{
  ℕ, ◌≡◌, refl, subst, ◌∙◌, get_elem?, Bool, true, false, List, [], ◌∷◌, none, some, All, arith,
  Bool-cases, Option-cases, inl, inr,
}
use go_xpra.Prelude.Int.{pos}
use go_xpra.Prelude.Bytes.{Bytes, bytes_eq}
use go_xpra.Prelude.Result.{ok}
use go_xpra.Rencode.Value.{Value}
use go_xpra.Protocol.Chunks.{RawChunkState, payload_at, apply}
use go_xpra.Protocol.Chunks.Laws.{IsValid}
use go_xpra.Protocol.Chunks.Apply.{apply_lem, with_chunk}
use go_xpra.Protocol.Packet.{
  Packet, at, or_nil, bytes, as_bytes, name_of, canonical, canonical_names,
}

-- A name that a table gives has the property that all its names have.
name_of-All :
    (P : Bytes → Type 0) (l : List (Bytes × Bytes)) (t modern : Bytes)
    → All (λ p. P p.1) l
    → name_of l t ≡ some modern
    → P modern
unfolding name_of
name_of-All P [] t modern h e = cc
name_of-All P ((a, b) ∷ l) t modern h e = elim (Bool-cases (bytes_eq a t)) [
  | inl q ↦ let same : b ≡ modern = ground arith in subst P same h.0
  | inr q ↦ name_of-All P l t modern h.1 (rw q at e)
]

modern_names : All (λ p. name_of canonical_names p.1 ≡ none) canonical_names
unfolding name_of bytes_eq
modern_names = (
  refl,
  (refl, (refl, (refl, (refl, (refl, (refl, (refl, (refl, (refl, (refl, (refl, tt))))))))))),
)

canonical_known :
    (t modern : Bytes) → name_of canonical_names t ≡ some modern → canonical true t ≡ modern
canonical_known t modern e = unfold canonical in rw (e, canonical)

canonical_unknown : (t : Bytes) → name_of canonical_names t ≡ none → canonical true t ≡ t
canonical_unknown t e = unfold canonical in rw (e, canonical)

-- A canonical name is canonical: no modern name is itself a legacy one, so that a name is never
-- translated twice.
pub canonical_idem :
    (compatible : Bool) (t : Bytes)
    → canonical compatible (canonical compatible t) ≡ canonical compatible t
canonical_idem false t = unfold canonical in refl
canonical_idem true t = elim (Option-cases (name_of canonical_names t)) [
  | inl e ↦ rw (canonical_unknown t e) (canonical_unknown t e)
  | inr (modern, e) ↦ rw (canonical_known t modern e) (
      canonical_unknown modern (
        name_of-All (λ n. name_of canonical_names n ≡ none) canonical_names t modern modern_names
          e))
]

-- The packet that leaves reassembly answers every raw chunk under its index.
pub bytes-apply :
    (s : RawChunkState) (packet : Packet) (main_size : ℕ) (packet' : Packet) (s' : RawChunkState)
    (i : ℕ) (payload : Bytes)
    → IsValid s
    → apply s packet main_size ≡ ok (packet', s')
    → payload_at i s.packets ≡ some payload
    → bytes packet' (pos i) ≡ some payload
bytes-apply s packet main_size packet' s' i payload v e found =
    let placed = (apply_lem s packet main_size packet' s' v e).1 i in
    let here : get_elem? packet' i ≡ some (Value.binary payload) =
      placed ∙ rw (found, with_chunk) in
    unfold bytes at in rw here (unfold or_nil as_bytes in refl)
