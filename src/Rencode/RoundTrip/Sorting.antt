-- ===== src/Rencode/RoundTrip/Sorting.antt =====
-- rencodeplus/: the sorted keys of maps.
use go_xpra.Prelude.{◌≡◌, refl, ap, Bool, List, [], ◌∷◌, map, All, Bool-cases, inl, inr}
use go_xpra.Rencode.Encode.{sort_keys, insert_key}

module _ {K A B : Type 0} (lt : K → K → Bool) (f : A → B) where
  abbrev pub second : K × A → K × B
  second (k, a) = (k, f a)

  insert_key-map :
      (k : K) (a : A) (l : List (K × A))
      → insert_key lt k (f a) (map second l) ≡ map second (insert_key lt k a l)
  unfolding insert_key
  insert_key-map k a [] = refl
  insert_key-map k a ((j, b) ∷ l) = elim (Bool-cases (lt j k)) [
    | inl e ↦ rw e (ap (λ t. (j, f b) ∷ t) (insert_key-map k a l))
    | inr e ↦ rw e
  ]

  pub sort_keys-map : (l : List (K × A)) → sort_keys lt (map second l) ≡ map second (sort_keys lt l)
  unfolding sort_keys
  sort_keys-map [] = refl
  sort_keys-map ((k, a) ∷ l) = rw (sort_keys-map l) (insert_key-map k a (sort_keys lt l))

module _ {K A : Type 0} (lt : K → K → Bool) (P : K → Type 0) where
  insert_key-All :
      (k : K) (a : A) (l : List (K × A))
      → P k
      → All (λ p. P p.0) l
      → All (λ p. P p.0) (insert_key lt k a l)
  unfolding insert_key
  insert_key-All k a [] h hs = (h, tt)
  insert_key-All k a ((j, b) ∷ l) h hs = elim (Bool-cases (lt j k)) [
    | inl e ↦ rw e (hs.0, insert_key-All k a l h hs.1)
    | inr e ↦ rw e (h, hs)
  ]

  pub sort_keys-All : (l : List (K × A)) → All (λ p. P p.0) l → All (λ p. P p.0) (sort_keys lt l)
  unfolding sort_keys
  sort_keys-All [] h = tt
  sort_keys-All ((k, a) ∷ l) h = insert_key-All k a (sort_keys lt l) h.0 (sort_keys-All l h.1)
