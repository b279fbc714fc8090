-- ===== src/ItemList/Lookup.antt =====
-- A valid list of common/list.c as a map from keys to items.
use psd_ims.Prelude.{
  ◌<◌, ◌↔◌, ℕ, zero, suc, ◌≡◌, refl, Bool, true, false, none, some, List, [], ◌∷◌, ◌++◌, arith,
  if◌then◌else◌, erase_idx, All,
}
use psd_ims.ItemList.{
  node_add, list_delete_node, ok, Option, list_find_node, ItemList, list_find_item, list_add_item,
  find_node,
}
use psd_ims.ItemList.Find.{find_node-lt, is_some-find_node, get_elem?-find_node, find}
use psd_ims.ItemList.Bounds.{list_delete_node-IsValid, list_add_item-IsValid, IsValid, Distinct}

-- The items are told apart by a key, which the two comparators compare.
pub record Keyed (A V : Type 0) : Type 0 where
  pub key : A → V
  pub same : V → V → Bool
  pub same_refl : (v : V) → same v v ≡ true
  pub same_sound : (v w : V) → same v w ≡ true → v ≡ w

module _ {A V : Type 0} (k : Keyed A V) where
  abbrev pub same_key : A → A → Bool
  same_key x y = k.same (k.key x) (k.key y)

  abbrev pub has_key : A → V → Bool
  has_key x v = k.same (k.key x) v

  same_sym : (v w : V) → k.same v w ≡ false → k.same w v ≡ false
  same_sym v w h = ground (arith, k.same_sound w v, k.same_refl w)

  find-none_of_All :
      (x : A) (xs : List A)
      → All (λ y. same_key x y ≡ false) xs
      → find (λ y. has_key y (k.key x)) xs ≡ none
  unfolding find
  find-none_of_All x [] h = refl
  find-none_of_All x (y ∷ ys) h =
      ground (arith, same_sym (k.key x) (k.key y), find-none_of_All x ys)

  find-append_one :
      (xs : List A) (x : A) (v : V)
      → find (λ y. same_key y x) xs ≡ none
      → find (λ y. has_key y v) (xs ++ x ∷ [])
        ≡ (if has_key x v then some x else find (λ y. has_key y v) xs)
  unfolding find
  find-append_one [] x v h = ground arith
  find-append_one (y ∷ ys) x v h = ground (
    arith,
    find-append_one ys x v,
    k.same_sound (k.key x) v,
    k.same_sound (k.key y) v,
    k.same_refl v,
  )

  find-erase_idx :
      (xs : List A) (i : ℕ) (v w : V)
      → Distinct same_key xs
      → find_node (λ y. has_key y v) xs ≡ some i
      → find (λ y. has_key y w) (erase_idx xs i)
        ≡ (if k.same v w then none else find (λ y. has_key y w) xs)
  unfolding find find_node
  find-erase_idx [] i v w d h = ground arith
  find-erase_idx (x ∷ xs) zero v w d h = ground (
    arith,
    k.same_sound (k.key x) v,
    k.same_sound v w,
    k.same_sound (k.key x) w,
    k.same_refl w,
    find-none_of_All x xs,
  )
  find-erase_idx (x ∷ xs) (suc i) v w d h = ground (
    arith,
    find-erase_idx xs i v w d.1,
    k.same_sound (k.key x) w,
    k.same_sound v w,
    k.same_refl v,
    k.same_refl w,
  )

-- A valid list whose comparators both go by the key.
pub record IsMap {A V I : Type 0} (k : Keyed A V) (l : ItemList A V I) : Type 0 where
  pub valid : IsValid (same_key k) l
  pub compares_key : l.item_value_comp ≡ some (has_key k)

module _ {A V I : Type 0} (k : Keyed A V) where
  pub list_find_item-find :
      (l : ItemList A V I) (v : V)
      → l.item_value_comp ≡ some (has_key k)
      → list_find_item l v ≡ find (λ y. has_key k y v) l.items
  unfolding list_find_item
  list_find_item-find l v e = rw e (get_elem?-find_node (λ y. has_key k y v) l.items)

  -- To a valid list an item is added exactly when there is room, memory, and no item with its key.
  pub list_add_item-ok_iff :
      (l : ItemList A V I) (x : A) (granted : Bool)
      → IsMap k l
      → ((list_add_item l (some x) granted).1 ≡ ok)
        ↔ ((l.n_elems < l.max_elems) × (granted ≡ true) × (list_find_item l (k.key x) ≡ none))
  unfolding list_add_item
  list_add_item-ok_iff l x granted m = ground (
    arith,
    m.valid.compares,
    m.compares_key,
    list_find_item-find l (k.key x),
    is_some-find_node (λ y. same_key k y x) l.items,
  )

  -- After a successful addition to a valid list the new item is found under its key, and every other
  -- key as before.
  pub list_find_item-list_add_item :
      (l : ItemList A V I) (x : A) (granted : Bool) (v : V)
      → IsMap k l
      → (list_add_item l (some x) granted).1 ≡ ok
      → list_find_item (list_add_item l (some x) granted).0 v
        ≡ (if k.same (k.key x) v then some x else list_find_item l v)
  unfolding list_add_item
  list_find_item-list_add_item l x granted v m h = ground (
    arith,
    m.valid.compares,
    m.compares_key,
    list_find_item-find l v,
    list_find_item-find (node_add l x) v,
    is_some-find_node (λ y. same_key k y x) l.items,
    find-append_one k l.items x v,
  )

  -- An addition leaves a valid list valid, whether it succeeds or not: the counter is right, the bound
  -- is kept, no two items have the same key, and the comparators still go by the key.
  pub list_add_item-IsMap :
      (l : ItemList A V I) (item : Option A) (granted : Bool)
      → IsMap k l
      → IsMap k (list_add_item l item granted).0
  unfolding list_add_item
  list_add_item-IsMap l none granted m = m
  list_add_item-IsMap l (some x) granted m = record {
    valid = list_add_item-IsValid (same_key k) l (some x) granted m.valid;
    compares_key = ground (arith, m.compares_key);
  }

  -- Deleting the node that was found for a key leaves a valid list valid.
  pub list_delete_node-IsMap :
      (l : ItemList A V I) (i : ℕ) (v : V)
      → IsMap k l
      → list_find_node l v ≡ some i
      → IsMap k (list_delete_node l i)
  unfolding list_find_node
  list_delete_node-IsMap l i v m h = record {
    valid =
        list_delete_node-IsValid (same_key k) l i
          (find_node-lt (λ x. has_key k x v) l.items i (ground (arith, m.compares_key))) m.valid;
    compares_key = unfold list_delete_node in m.compares_key;
  }

  -- Deleting the node found for a key in a valid list removes that key and no other.
  pub list_find_item-list_delete_node :
      (l : ItemList A V I) (i : ℕ) (v w : V)
      → IsMap k l
      → list_find_node l v ≡ some i
      → list_find_item (list_delete_node l i) w ≡ (if k.same v w then none else list_find_item l w)
  unfolding list_find_item list_find_node list_delete_node
  list_find_item-list_delete_node l i v w m h = ground (
    arith,
    m.compares_key,
    get_elem?-find_node (λ y. has_key k y w) l.items,
    get_elem?-find_node (λ y. has_key k y w) (erase_idx l.items i),
    find-erase_idx k l.items i v w m.valid.distinct,
  )
