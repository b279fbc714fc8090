-- ===== src/ItemList/Find.antt =====
-- The search loop of common/list.c against membership in the list.
use psd_ims.Prelude.{
  ◌⊎◌, inl, inr, ℕ, zero, suc, ◌<◌, length, is_some, ◌≡◌, refl, Bool, true, false, Option, none,
  some, List, [], ◌∷◌, arith, get_elem?,
}
use psd_ims.ItemList.{find_node, Status, ok, failed}

-- The first element that passes a test.
unfoldable pub find {ℓ} : {A : Type ℓ} → (A → Bool) → List A → Option A
find p [] = none
find p (x ∷ xs) = elim (p x) [ true ↦ some x | false ↦ find p xs ]

pub Status-cases : (s : Status) → (s ≡ ok) ⊎ (s ≡ failed)
Status-cases ok = inl refl
Status-cases failed = inr refl

module _ {A : Type 0} (p : A → Bool) where
  pub get_elem?-find_node :
      (xs : List A) → (elim (find_node p xs) [ none ↦ none | some i ↦ get_elem? xs i ]) ≡ find p xs
  unfolding find_node find
  get_elem?-find_node [] = refl
  get_elem?-find_node (x ∷ xs) = ground (arith, get_elem?-find_node xs)

  pub is_some-find_node : (xs : List A) → is_some (find_node p xs) ≡ is_some (find p xs)
  unfolding find_node find
  is_some-find_node [] = refl
  is_some-find_node (x ∷ xs) = ground (arith, is_some-find_node xs)

  pub find_node-lt : (xs : List A) (i : ℕ) → find_node p xs ≡ some i → i < length xs
  unfolding find_node
  find_node-lt [] i h = ground arith
  find_node-lt (x ∷ xs) zero h = omega arith
  find_node-lt (x ∷ xs) (suc i) h = ground (arith, find_node-lt xs i)
