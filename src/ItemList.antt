-- ===== src/ItemList.antt =====
-- common/list.c: the bounded list on which the client's collections stand.
pub mod Find
pub mod Bounds
pub mod Delete
pub mod Lookup
pub mod Ring
use psd_ims.Prelude.{
  ℕ, zero, suc, ◌+◌, ◌-◌, Bool, true, false, not, ◌&&◌, Option, none, some, List, [], ◌∷◌, ◌++◌,
  leb, if◌then◌else◌, is_some, length, get_elem?, erase_idx,
}

-- What a call that returns 0 or -1 returns.
pub data Status : Type 0 where
  ok failed : Status

-- `struct linked_list`: `items` are the nodes behind the ghost node, in the order of `next`. The two
-- comparators are `none` where the pointer is not set, and say whether the C function returns 0.
-- `freed` records the items handed to `item_free`, oldest first.
pub record ItemList (A V I : Type 0) : Type 0 where
  pub items : List A
  pub list_info : I
  pub n_elems : ℕ
  pub max_elems : ℕ
  pub item_comp : Option (A → A → Bool)
  pub item_value_comp : Option (A → V → Bool)
  pub freed : List A

-- The position of the first node that passes `comp(node->item, comp_val) == 0`.
unfoldable pub find_node {ℓ} : {A : Type ℓ} → (A → Bool) → List A → Option ℕ
find_node comp [] = none
find_node comp (x ∷ xs) =
    if comp x then some 0 else elim (find_node comp xs) [ none ↦ none | some i ↦ some (suc i) ]

module _ {ℓ} {A : Type ℓ} where
  -- What `item_free` gets when the node at a position is deleted.
  abbrev pub freed_at : List A → ℕ → List A
  freed_at xs i = elim (get_elem? xs i) [ none ↦ [] | some x ↦ x ∷ [] ]

  abbrev pub is_empty : List A → Bool
  is_empty [] = true
  is_empty (x ∷ xs) = false

module _ {A V I : Type 0} where
  abbrev pub list_full : ItemList A V I → Bool
  list_full l = leb l.max_elems l.n_elems

  -- `list_new`; the last arguments say whether the two free functions are given and whether
  -- `malloc` grants the two blocks. The comparators are for the caller to set.
  unfoldable pub list_new : I → ℕ → (info_free item_free granted : Bool) → Option (ItemList A V I)
  list_new info max info_free item_free granted =
      if info_free && item_free && granted
      then some (record {
        items = [];
        list_info = info;
        n_elems = 0;
        max_elems = max;
        item_comp = none;
        item_value_comp = none;
        freed = [];
      })
      else none

  unfoldable pub list_find_node : ItemList A V I → V → Option ℕ
  list_find_node l v = elim l.item_value_comp [
    | none ↦ none
    | some comp ↦ find_node (λ x. comp x v) l.items
  ]

  unfoldable pub list_find_item : ItemList A V I → V → Option A
  list_find_item l v = elim l.item_value_comp [
    | none ↦ none
    | some comp ↦ elim (find_node (λ x. comp x v) l.items) [
      | none ↦ none
      | some i ↦ get_elem? l.items i
    ]
  ]

  -- `_node_add`: links the item before the ghost node, behind the last one.
  abbrev pub node_add : ItemList A V I → A → ItemList A V I
  node_add l x = record l { items = l.items ++ x ∷ []; n_elems = l.n_elems + 1 }

  -- `item` is `none` for a NULL pointer, `granted` says whether `malloc` grants the node.
  unfoldable pub list_add_item :
      ItemList A V I → Option A → (granted : Bool) → ItemList A V I × Status
  list_add_item l none granted = (l, failed)
  list_add_item l (some x) granted = elim l.item_comp [
    | none ↦ (l, failed)
    | some comp ↦
        if list_full l
        then (l, failed)
        else if is_some (find_node (λ y. comp y x) l.items)
        then (l, failed)
        else if granted
        then (node_add l x, ok)
        else (l, failed)
  ]

  -- The node is given by its position.
  unfoldable pub list_delete_node : ItemList A V I → ℕ → ItemList A V I
  list_delete_node l i = record l {
    items = erase_idx l.items i;
    n_elems = l.n_elems - 1;
    freed = l.freed ++ freed_at l.items i;
  }

  unfoldable pub list_delete_first : ItemList A V I → ℕ → ItemList A V I
  unfolding list_delete_node
  list_delete_first l zero = l
  list_delete_first l (suc n) =
      let rest = list_delete_first (list_delete_node l 0) n in if is_empty l.items then l else rest

  unfoldable pub list_delete_last : ItemList A V I → ℕ → ItemList A V I
  unfolding list_delete_node
  list_delete_last l zero = l
  list_delete_last l (suc n) =
      let rest = list_delete_last (list_delete_node l (length l.items - 1)) n in
      if is_empty l.items then l else rest

  -- `list_free`: the loop deletes the first node until the ghost node stands alone; what `item_free`
  -- has got then. Every list has its free functions, since `list_new` refuses one without.
  unfoldable pub list_free : ItemList A V I → List A
  unfolding list_delete_first
  list_free l = (list_delete_first l (length l.items)).freed
