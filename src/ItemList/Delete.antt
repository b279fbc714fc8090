-- ===== src/ItemList/Delete.antt =====
-- The deleting loops of common/list.c against `take` and `drop`.
use mathlib.Core.List.{append_assoc, append-nil}
use psd_ims.Prelude.{
  ℕ, zero, suc, ◌-◌, ◌≤◌, ◌≡◌, refl, sym, ap, ◌∙◌, List, [], ◌∷◌, ◌++◌, arith, length, erase_idx,
  take, drop, take_all, length-take,
}
use psd_ims.ItemList.{
  ItemList, list_delete_node, list_delete_first, list_delete_last, list_free, freed_at,
}

module _ {A : Type 0} where
  erase_idx-last : (xs : List A) → erase_idx xs (length xs - 1) ≡ take (length xs - 1) xs
  erase_idx-last [] = refl
  erase_idx-last (x ∷ []) = refl
  erase_idx-last (x ∷ y ∷ xs) = ground (arith, erase_idx-last (y ∷ xs))

  take-take : (m n : ℕ) (xs : List A) → m ≤ n → take m (take n xs) ≡ take m xs
  take-take zero n xs h = refl
  take-take (suc m) zero xs h = absurd (omega arith)
  take-take (suc m) (suc n) [] h = refl
  take-take (suc m) (suc n) (x ∷ xs) h = ap (λ r. x ∷ r) (take-take m n xs (omega arith))

module _ {A V I : Type 0} where
  -- Deleting the first `n` items leaves the list from the `n`-th on, and hands the others to
  -- `item_free` in their order, each once; a list with fewer items ends empty.
  pub list_delete_first-drop :
      (l : ItemList A V I) (n : ℕ)
      → ((list_delete_first l n).items ≡ drop n l.items)
        × ((list_delete_first l n).freed ≡ l.freed ++ take n l.items)
  unfolding list_delete_first list_delete_node
  list_delete_first-drop l zero = (refl, rw append-nil)
  list_delete_first-drop l (suc n) = ground (
    arith,
    list_delete_first-drop (list_delete_node l 0) n,
    append_assoc l.freed (freed_at l.items 0) (take n (erase_idx l.items 0)),
    append-nil l.freed,
  )

  pub list_delete_first-max_elems :
      (l : ItemList A V I) (n : ℕ) → (list_delete_first l n).max_elems ≡ l.max_elems
  unfolding list_delete_first list_delete_node
  list_delete_first-max_elems l zero = refl
  list_delete_first-max_elems l (suc n) =
      ground (arith, list_delete_first-max_elems (list_delete_node l 0) n)

  -- Deleting the last `n` items leaves the first ones, all but `n` of them.
  pub list_delete_last-take :
      (l : ItemList A V I) (n : ℕ)
      → (list_delete_last l n).items ≡ take (length l.items - n) l.items
  unfolding list_delete_last list_delete_node
  list_delete_last-take l zero = sym (take_all (length l.items - 0) l.items (omega arith))
  list_delete_last-take l (suc n) = ground (
    arith,
    list_delete_last-take (list_delete_node l (length l.items - 1)) n,
    erase_idx-last l.items,
    length-take (length l.items - 1) l.items,
    take-take (length l.items - suc n) (length l.items - 1) l.items,
  )

  -- Freeing a list hands every item to `item_free`, in order and once.
  pub list_free-append : (l : ItemList A V I) → list_free l ≡ l.freed ++ l.items
  unfolding list_free
  list_free-append l =
      (list_delete_first-drop l (length l.items)).1
      ∙ ap (λ r. l.freed ++ r) (take_all (length l.items) l.items (omega arith))
