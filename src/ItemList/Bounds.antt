-- ===== src/ItemList/Bounds.antt =====
-- The invariant of a list of common/list.c, and what each operation does to it.
use psd_ims.Prelude.{
  refl, drop, ℕ, zero, suc, ◌-◌, ◌≤◌, ◌<◌, ◌≡◌, Bool, false, Option, none, some, List, [], ◌∷◌,
  ◌++◌, arith, length, erase_idx, All, length-append,
}
use psd_ims.ItemList.{
  ItemList, find_node, list_add_item, list_delete_node, list_delete_first, list_delete_last,
}

-- No element compares equal to a later one.
abbrev pub Distinct : {A : Type 0} → (A → A → Bool) → List A → Type 0
Distinct eq [] = Unit
Distinct eq (x ∷ xs) = All (λ y. eq x y ≡ false) xs × Distinct eq xs

-- The counter is right, the bound is kept, and no two items compare equal.
pub record IsValid {A V I : Type 0} (eq : A → A → Bool) (l : ItemList A V I) : Type 0 where
  pub compares : l.item_comp ≡ some eq
  pub counted : l.n_elems ≡ length l.items
  pub bounded : length l.items ≤ l.max_elems
  pub distinct : Distinct eq l.items

module _ {A : Type 0} where
  pub All-append_one :
      (P : A → Type 0) (xs : List A) (x : A) → All P xs → P x → All P (xs ++ x ∷ [])
  All-append_one P [] x h p = (p, tt)
  All-append_one P (y ∷ ys) x h p = (h.0, All-append_one P ys x h.1 p)

  pub All-erase_idx : (P : A → Type 0) (xs : List A) (i : ℕ) → All P xs → All P (erase_idx xs i)
  All-erase_idx P [] i h = tt
  All-erase_idx P (x ∷ xs) zero h = h.1
  All-erase_idx P (x ∷ xs) (suc i) h = (h.0, All-erase_idx P xs i h.1)

  pub length-erase_idx :
      (xs : List A) (i : ℕ) → i < length xs → length (erase_idx xs i) ≡ length xs - 1
  length-erase_idx [] i h = absurd (omega arith)
  length-erase_idx (x ∷ xs) zero h = omega arith
  length-erase_idx (x ∷ xs) (suc i) h = omega (arith, length-erase_idx xs i)

module _ {A : Type 0} (eq : A → A → Bool) where
  pub Distinct-append_one :
      (xs : List A) (x : A)
      → Distinct eq xs
      → find_node (λ y. eq y x) xs ≡ none
      → Distinct eq (xs ++ x ∷ [])
  unfolding find_node
  Distinct-append_one [] x d h = (tt, tt)
  Distinct-append_one (y ∷ ys) x d h =
      (All-append_one _ ys x d.0 (ground arith), Distinct-append_one ys x d.1 (ground arith))

  pub Distinct-erase_idx : (xs : List A) (i : ℕ) → Distinct eq xs → Distinct eq (erase_idx xs i)
  Distinct-erase_idx [] i d = tt
  Distinct-erase_idx (x ∷ xs) zero d = d.1
  Distinct-erase_idx (x ∷ xs) (suc i) d = (All-erase_idx _ xs i d.0, Distinct-erase_idx xs i d.1)

module _ {A : Type 0} where
  pub Distinct-drop :
      (eq : A → A → Bool) (n : ℕ) (xs : List A) → Distinct eq xs → Distinct eq (drop n xs)
  Distinct-drop eq zero xs d = d
  Distinct-drop eq (suc n) [] d = tt
  Distinct-drop eq (suc n) (x ∷ xs) d = Distinct-drop eq n xs d.1

  pub All-middle : (P : A → Type 0) (xs : List A) (y : A) (ys : List A) → All P (xs ++ y ∷ ys) → P y
  All-middle P [] y ys h = h.0
  All-middle P (x ∷ xs) y ys h = All-middle P xs y ys h.1

  -- In a list of distinct items nothing before an item compares equal to it.
  pub find_node-Distinct :
      (eq : A → A → Bool) (xs : List A) (y : A) (ys : List A)
      → Distinct eq (xs ++ y ∷ ys)
      → find_node (λ z. eq z y) xs ≡ none
  unfolding find_node
  find_node-Distinct eq [] y ys d = refl
  find_node-Distinct eq (x ∷ xs) y ys d =
      ground
        (arith, All-middle (λ z. eq x z ≡ false) xs y ys d.0, find_node-Distinct eq xs y ys d.1)

module _ {A V I : Type 0} (eq : A → A → Bool) where
  -- An item is added or refused; either way the list stays valid.
  pub list_add_item-IsValid :
      (l : ItemList A V I) (item : Option A) (granted : Bool)
      → IsValid eq l
      → IsValid eq (list_add_item l item granted).0
  unfolding list_add_item
  list_add_item-IsValid l none granted v = v
  list_add_item-IsValid l (some x) granted v =
      ground (arith, length-append l.items (x ∷ []), Distinct-append_one eq l.items x v.distinct)

  pub list_delete_node-IsValid :
      (l : ItemList A V I) (i : ℕ)
      → i < length l.items
      → IsValid eq l
      → IsValid eq (list_delete_node l i)
  unfolding list_delete_node
  list_delete_node-IsValid l i h v =
      ground (arith, length-erase_idx l.items i h, Distinct-erase_idx eq l.items i v.distinct)

  -- Deleting any number of items from the front keeps a list valid.
  pub list_delete_first-IsValid :
      (l : ItemList A V I) (n : ℕ) → IsValid eq l → IsValid eq (list_delete_first l n)
  unfolding list_delete_first
  list_delete_first-IsValid l zero v = v
  list_delete_first-IsValid l (suc n) v =
      ground
        (arith, list_delete_node-IsValid l 0, list_delete_first-IsValid (list_delete_node l 0) n)

  -- Deleting any number of items from the end keeps a list valid.
  pub list_delete_last-IsValid :
      (l : ItemList A V I) (n : ℕ) → IsValid eq l → IsValid eq (list_delete_last l n)
  unfolding list_delete_last
  list_delete_last-IsValid l zero v = v
  list_delete_last-IsValid l (suc n) v = ground (
    arith,
    list_delete_node-IsValid l (length l.items - 1),
    list_delete_last-IsValid (list_delete_node l (length l.items - 1)) n,
  )
