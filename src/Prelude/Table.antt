-- ===== src/Prelude/Table.antt =====
-- Go's maps as lists of entries: lookup, assignment, `delete`, for keys with an equality test.
use Prim.Native.Nat.{ℕ}
use mathlib.Core.Path.{◌≡◌, refl, sym, subst, ◌∙◌}
use mathlib.Core.Logic.{◌≢◌, ◌↔◌, ◌⊎◌, inl, inr}
use mathlib.Core.Bool.{Bool, true, false}
use mathlib.Core.List.{List, [], ◌∷◌}
use mathlib.Core.Option.{Option, none, some}
use native.Mathlib.Omega.{arith}
use go_xpra.Prelude.Tests.{◌==◌, ==_iff, if◌then◌else◌, Bool-cases}
use go_xpra.Prelude.Bytes.{Bytes, bytes_eq, bytes_eq→eq, bytes_eq_refl}
use go_xpra.Prelude.Int.{ℤ, eqb_ℤ, eq_of_parts}

pub record Key {ℓ} (K : Type ℓ) : Type ℓ where
  pub same : K → K → Bool
  pub same_iff : (a b : K) → (same a b ≡ true) ↔ (a ≡ b)

instance abbrev pub nat_key : Key ℕ
nat_key = record { same = λ a b. a == b; same_iff = ==_iff }

pub eqb_ℤ_iff : (a b : ℤ) → (eqb_ℤ a b ≡ true) ↔ (a ≡ b)
eqb_ℤ_iff a b = (λ h. eq_of_parts a b (ground arith), λ e. rw e (ground arith))

instance abbrev pub int_key : Key ℤ
int_key = record { same = eqb_ℤ; same_iff = eqb_ℤ_iff }

instance abbrev pub bytes_key : Key Bytes
bytes_key = record {
  same = bytes_eq;
  same_iff = λ a b. (bytes_eq→eq a b, λ e. subst (λ c. bytes_eq a c ≡ true) e (bytes_eq_refl a));
}

abbrev pub Table {ℓ κ} : Type ℓ → Type κ → Type (ℓ ⊔ κ)
Table K A = List (K × A)

module _ {ℓ} {K : Type ℓ} ⦃key : Key K⦄ where
  pub same_self : (k : K) → key.same k k ≡ true
  same_self k = (key.same_iff k k).1 refl

  pub same_ne : (j k : K) → j ≢ k → key.same j k ≡ false
  same_ne j k n = elim (Bool-cases (key.same j k)) [
    | inl e ↦ absurd (n ((key.same_iff j k).0 e))
    | inr e ↦ e
  ]

  pub same→eq : (j k : K) → key.same j k ≡ true → j ≡ k
  same→eq j k e = (key.same_iff j k).0 e

  -- To split on two keys being the same.
  pub Key-cases : (j k : K) → (j ≡ k) ⊎ (j ≢ k)
  Key-cases j k = elim (Bool-cases (key.same j k)) [
    | inl e ↦ inl (same→eq j k e)
    | inr e ↦ inr (λ q. true-neq (sym ((key.same_iff j k).1 q) ∙ e))
  ]
    where
      true-neq : true ≢ false
      true-neq q = cc

module _ {ℓ κ} {K : Type ℓ} {A : Type κ} ⦃key : Key K⦄ where
  unfoldable pub lookup : Table K A → K → Option A
  lookup [] k = none
  lookup ((j, v) ∷ t) k = let rest = lookup t k in if key.same j k then some v else rest

  -- Assignment replaces in place, or appends.
  unfoldable pub insert : K → A → Table K A → Table K A
  insert k v [] = (k, v) ∷ []
  insert k v ((j, w) ∷ t) =
      let rest = insert k v t in if key.same j k then (j, v) ∷ t else (j, w) ∷ rest

  unfoldable pub delete : K → Table K A → Table K A
  delete k [] = []
  delete k ((j, w) ∷ t) = let rest = delete k t in if key.same j k then rest else (j, w) ∷ rest

  pub lookup-insert_self : (k : K) (v : A) (t : Table K A) → lookup (insert k v t) k ≡ some v
  unfolding lookup insert
  lookup-insert_self k v [] = rw (same_self k) refl
  lookup-insert_self k v ((j, w) ∷ t) = elim (Bool-cases (key.same j k)) [
    | inl e ↦ rw (e, e) refl
    | inr e ↦ rw (e, e) (lookup-insert_self k v t)
  ]

  pub lookup-insert_ne :
      (k : K) (v : A) (t : Table K A) (l : K) → k ≢ l → lookup (insert k v t) l ≡ lookup t l
  unfolding lookup insert
  lookup-insert_ne k v [] l n = rw (same_ne k l n) refl
  lookup-insert_ne k v ((j, w) ∷ t) l n = elim (Bool-cases (key.same j k)) [
    | inl e ↦ rw (e, same_ne j l (λ q. n (sym (same→eq j k e) ∙ q))) refl
    | inr e ↦ rw (e, lookup-insert_ne k v t l n) refl
  ]

  pub lookup-delete_self : (k : K) (t : Table K A) → lookup (delete k t) k ≡ none
  unfolding lookup delete
  lookup-delete_self k [] = refl
  lookup-delete_self k ((j, w) ∷ t) = elim (Bool-cases (key.same j k)) [
    | inl e ↦ rw e (lookup-delete_self k t)
    | inr e ↦ rw (e, e) (lookup-delete_self k t)
  ]

  pub lookup-delete_ne :
      (k : K) (t : Table K A) (l : K) → k ≢ l → lookup (delete k t) l ≡ lookup t l
  unfolding lookup delete
  lookup-delete_ne k [] l n = refl
  lookup-delete_ne k ((j, w) ∷ t) l n = elim (Bool-cases (key.same j k)) [
    | inl e ↦ rw (e, same_ne j l (λ q. n (sym (same→eq j k e) ∙ q))) (lookup-delete_ne k t l n)
    | inr e ↦ rw (e, lookup-delete_ne k t l n) refl
  ]

module _ {ℓ κ} {K : Type ℓ} {A : Type κ} ⦃key : Key K⦄ where
  -- What an entry that is found after a change was before it.
  pub lookup-delete_inv :
      (k : K) (t : Table K A) (l : K) (v : A)
      → lookup (delete k t) l ≡ some v
      → (k ≢ l) × (lookup t l ≡ some v)
  lookup-delete_inv k t l v e = elim (Key-cases k l) [
    | inl q ↦
        let gone : lookup (delete k t) l ≡ none =
          subst (λ j. lookup (delete k t) j ≡ none) q (lookup-delete_self k t) in
        absurd cc
    | inr n ↦ (n, sym (lookup-delete_ne k t l n) ∙ e)
  ]

  pub lookup-insert_inv :
      (k : K) (v : A) (t : Table K A) (l : K) (u : A)
      → lookup (insert k v t) l ≡ some u
      → ((k ≡ l) × (v ≡ u)) ⊎ ((k ≢ l) × (lookup t l ≡ some u))
  lookup-insert_inv k v t l u e = elim (Key-cases k l) [
    | inl q ↦
        let there : lookup (insert k v t) l ≡ some v =
          subst (λ j. lookup (insert k v t) j ≡ some v) q (lookup-insert_self k v t) in
        inl (q, cc)
    | inr n ↦ inr (n, sym (lookup-insert_ne k v t l n) ∙ e)
  ]
