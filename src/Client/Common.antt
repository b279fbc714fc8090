-- ===== src/Client/Common.antt =====
-- What the client's collections share: the info block of a list, the setting of the comparators after
-- `list_new`, deletion by value, and the keys by which items are told apart.
use psd_ims.Prelude.{
  inr, inl, is_some, arith, Option-cases, ◌↔◌, if◌then◌else◌, ◌≡◌, Bool, true, Option, none, some,
  same_text, same_text_refl, same_text_sound, Text,
}
use psd_ims.Prelude.Int.{ℤ, same_int, same_int_refl, same_int_sound}
use psd_ims.ItemList.{
  ItemList, Status, ok, failed, list_find_node, list_find_item, list_delete_node,
}
use psd_ims.ItemList.Find.{is_some-find_node, get_elem?-find_node}
use psd_ims.ItemList.Lookup.{
  Keyed, IsMap, has_key, list_find_item-list_delete_node, list_delete_node-IsMap,
}

-- `struct friend_list_info` and its like.
pub record ListInfo : Type 0 where
  pub timestamp : ℤ

module _ {A V I : Type 0} where
  -- The two assignments that follow each call of `list_new`.
  abbrev pub set_comparators :
      Option (ItemList A V I) → (A → V → Bool) → (A → A → Bool) → Option (ItemList A V I)
  set_comparators none value_comp comp = none
  set_comparators (some l) value_comp comp =
      some (record l { item_value_comp = some value_comp; item_comp = some comp })

  -- The body of `fri_del_friend`, `req_del_request`, `members_del_member` and `cha_del_chat`.
  unfoldable pub delete_value : ItemList A V I → V → ItemList A V I × Status
  delete_value l v = elim (list_find_node l v) [
    | none ↦ (l, failed)
    | some i ↦ (list_delete_node l i, ok)
  ]

-- A macro such as `fri_set_timestamp`.
abbrev pub set_timestamp : {A V : Type 0} → ItemList A V ListInfo → ℤ → ItemList A V ListInfo
set_timestamp l t = record l { list_info = record { timestamp = t } }

-- Items that are told apart by a name, and items that are told apart by a number.
abbrev pub by_name : {A : Type 0} → (A → Text) → Keyed A Text
by_name name = record {
  key = name;
  same = same_text;
  same_refl = same_text_refl;
  same_sound = same_text_sound;
}

abbrev pub by_number : {A : Type 0} → (A → ℤ) → Keyed A ℤ
by_number number = record {
  key = number;
  same = same_int;
  same_refl = same_int_refl;
  same_sound = same_int_sound;
}

module _ {A V I : Type 0} (k : Keyed A V) where
  pub delete_value-IsMap : (l : ItemList A V I) (v : V) → IsMap k l → IsMap k (delete_value l v).0
  unfolding delete_value
  delete_value-IsMap l v m = elim (Option-cases (list_find_node l v)) [
    | inl e ↦ rw (e, delete_value) m
    | inr (i, e) ↦ rw (e, delete_value) (list_delete_node-IsMap k l i v m e)
  ]

  find_item-none :
      (l : ItemList A V I) (v : V) → list_find_node l v ≡ none → list_find_item l v ≡ none
  unfolding list_find_node list_find_item
  find_item-none l v h = elim (Option-cases l.item_value_comp) [
    | inl e ↦ rw (e, list_find_item)
    | inr (comp, e) ↦ rw (e, list_find_item) (ground (arith, e))
  ]

  -- Deleting by a key, as `fri_del_friend` and its like do, removes that key from a valid list and no
  -- other key, whether the key was there or not.
  pub list_find_item-delete_value :
      (l : ItemList A V I) (v w : V)
      → IsMap k l
      → list_find_item (delete_value l v).0 w ≡ (if k.same v w then none else list_find_item l w)
  unfolding delete_value
  list_find_item-delete_value l v w m = elim (Option-cases (list_find_node l v)) [
    | inl e ↦ rw (e, delete_value) (ground (arith, find_item-none l v e, k.same_sound v w))
    | inr (i, e) ↦ rw (e, delete_value) (list_find_item-list_delete_node k l i v w m e)
  ]

  -- Deleting by a key from a valid list returns 0 exactly when an item with that key is found.
  pub delete_value-ok_iff :
      (l : ItemList A V I) (v : V)
      → IsMap k l
      → ((delete_value l v).1 ≡ ok) ↔ (is_some (list_find_item l v) ≡ true)
  unfolding delete_value list_find_node list_find_item
  delete_value-ok_iff l v m = ground (
    arith,
    m.compares_key,
    get_elem?-find_node (λ x. has_key k x v) l.items,
    is_some-find_node (λ x. has_key k x v) l.items,
  )
