-- ===== src/ItemList/Ring/Refine.antt =====
-- Each operation on a ring of nodes against the operation of the same name on `ItemList`.
use psd_ims.Prelude.{
  ℕ, ◌+◌, ◌-◌, ◌<◌, ◌≡◌, refl, Bool, true, false, Option, none, some, List, [], ◌∷◌, ◌++◌, arith,
  length, Bool-cases, Option-cases, inl, inr,
}
use psd_ims.ItemList
use psd_ims.ItemList.{
  ItemList, Status, ok, failed, list_full, node_add as list_node_add, find_node as find_index,
}
use psd_ims.ItemList.Ring.{has, Heap, ListHead, list_add_item, list_find_node, list_delete_node}
use psd_ims.ItemList.Ring.Chain.{Chain-last, last_of}
use psd_ims.ItemList.Ring.Represents.{At-lt, Items-length, Represents, last_of-All}
use psd_ims.ItemList.Ring.Nodes.{node_delete-Unlinks, linked, node_add_heap, linked-Ring}
use psd_ims.ItemList.Find.{find_node-lt}
use psd_ims.ItemList.Ring.Find.{address_of, find_node_lem}

-- An operation does not fault, and leaves a head and a heap that stand for the given list.
pub record Gives {A V I X : Type 0} (r : Option (X × Heap A)) (head : X → ListHead A V I)
    (l : ItemList A V I) : Type 0 where
  pub value : X
  pub heap : Heap A
  pub nodes : List ℕ
  pub runs : r ≡ some (value, heap)
  pub stands : Represents heap (head value) nodes l

module _ {A V I : Type 0} where
  -- The node at the position that `list_delete_node` of `ItemList` is given.
  pub list_delete_node-Gives :
      (h : Heap A) (s : ListHead A V I) (qs : List ℕ) (p : ℕ) (rs : List ℕ) (l : ItemList A V I)
      → Represents h s (qs ++ p ∷ rs) l
      → Gives (list_delete_node s p h) (λ s. s) (ItemList.list_delete_node l (length qs))
  unfolding list_delete_node ItemList.list_delete_node
  list_delete_node-Gives h s qs p rs l r =
      let u = node_delete-Unlinks h s.ghost_item qs p rs l.items r.ring in
      record {
        value = record s { n_elems = s.n_elems - 1 };
        heap = u.heap;
        nodes = qs ++ rs;
        runs = ground (arith, u.runs);
        stands = record {
          ring = u.ring;
          same_info = r.same_info;
          same_n = ground (arith, r.same_n);
          same_max = r.same_max;
          same_comp = r.same_comp;
          same_value_comp = r.same_value_comp;
          same_freed = ground (arith, u.freed, u.was, r.same_freed);
        };
      }

  pub list_find_node-Represents :
      (allocate : List ℕ → ℕ) (rounds : ℕ) (h : Heap A) (s : ListHead A V I) (ps : List ℕ)
      (l : ItemList A V I) (v : V)
      → length ps < rounds
      → Represents h s ps l
      → list_find_node allocate rounds s v h ≡ some (address_of ps (ItemList.list_find_node l v), h)
  unfolding list_find_node ItemList.list_find_node
  list_find_node-Represents allocate rounds h s ps l v b r = elim (Option-cases l.item_value_comp) [
    | inl e ↦ ground (arith, r.same_value_comp, e)
    | inr (comp, e) ↦ ground (
      arith,
      r.same_value_comp,
      e,
      find_node_lem rounds (λ x. comp x v) h s.ghost_item ps l.items b r.ring,
    )
  ]

-- The same of `list_add_item`, which returns a status too.
pub record Adds {A V I : Type 0} (r : Option ((ListHead A V I × Status) × Heap A))
    (spec : ItemList A V I × Status) : Type 0 where
  pub gives : Gives r (λ v. v.0) spec.0
  pub status : gives.value.1 ≡ spec.1

module _ {A V I : Type 0} (allocate : List ℕ → ℕ)
    (fresh : (used : List ℕ) → has (allocate used) used ≡ false) (rounds : ℕ) where
  unchanged :
      (h : Heap A) (s : ListHead A V I) (ps : List ℕ) (l : ItemList A V I) (item : Option A)
      (granted : Bool)
      → Represents h s ps l
      → list_add_item allocate rounds s item granted h ≡ some ((s, failed), h)
      → ItemList.list_add_item l item granted ≡ (l, failed)
      → Adds
          (list_add_item allocate rounds s item granted h)
          (ItemList.list_add_item l item granted)
  unchanged h s ps l item granted r e f =
      rw (e, f)
        (record {
          gives = record { value = (s, failed); heap = h; nodes = ps; runs = refl; stands = r };
          status = refl;
        })

  added :
      (h : Heap A) (s : ListHead A V I) (ps : List ℕ) (l : ItemList A V I) (x : A)
      → Represents h s ps l
      → list_add_item allocate rounds s (some x) true h
        ≡ some (
          (record s { n_elems = s.n_elems + 1 }, ok),
          linked h s.ghost_item (allocate h.used) (last_of s.ghost_item ps) x,
        )
      → ItemList.list_add_item l (some x) true ≡ (list_node_add l x, ok)
      → Adds
          (list_add_item allocate rounds s (some x) true h)
          (ItemList.list_add_item l (some x) true)
  added h s ps l x r e f =
      let n : Represents (linked h s.ghost_item (allocate h.used) (last_of s.ghost_item ps) x)
          (record s { n_elems = s.n_elems + 1 }) (ps ++ allocate h.used ∷ []) (list_node_add l x) =
        record {
          ring = linked-Ring h s.ghost_item ps (allocate h.used) l.items x r.ring (fresh h.used);
          same_info = r.same_info;
          same_n = ground (arith, r.same_n);
          same_max = r.same_max;
          same_comp = r.same_comp;
          same_value_comp = r.same_value_comp;
          same_freed = r.same_freed;
        } in
      rw (e, f)
        (record {
          gives = record {
            value = (record s { n_elems = s.n_elems + 1 }, ok);
            heap = linked h s.ghost_item (allocate h.used) (last_of s.ghost_item ps) x;
            nodes = ps ++ allocate h.used ∷ [];
            runs = refl;
            stands = n;
          };
          status = refl;
        })

  pub list_add_item-Adds :
      (h : Heap A) (s : ListHead A V I) (ps : List ℕ) (l : ItemList A V I) (item : Option A)
      (granted : Bool)
      → length ps < rounds
      → Represents h s ps l
      → Adds
          (list_add_item allocate rounds s item granted h)
          (ItemList.list_add_item l item granted)
  unfolding list_add_item ItemList.list_add_item
  list_add_item-Adds h s ps l none granted b r = unchanged h s ps l none granted r refl refl
  list_add_item-Adds h s ps l (some x) granted b r = elim (Option-cases l.item_comp) [
    | inl e ↦
        unchanged h s ps l (some x) granted r (ground (arith, r.same_comp, e)) (ground (arith, e))
    | inr (comp, e) ↦ elim (Bool-cases (list_full l)) [
      | inl full ↦
          unchanged h s ps l (some x) granted r
            (ground (arith, r.same_comp, r.same_n, r.same_max, e, full)) (ground (arith, e, full))
      | inr room ↦
          let found = find_node_lem rounds (λ y. comp y x) h s.ghost_item ps l.items b r.ring in
          elim (Option-cases (find_index (λ y. comp y x) l.items)) [
            | inr (i, there) ↦
                let n = Items-length h.item ps l.items r.ring.items in
                let a =
                  At-lt ps i (omega (arith, n, find_node-lt (λ y. comp y x) l.items i there)) in
                unchanged h s ps l (some x) granted r
                  (ground
                    (arith, r.same_comp, r.same_n, r.same_max, e, room, found, there, a.found))
                  (ground (arith, e, room, there))
            | inl absent ↦
                elim granted
                  as (λ b.
                    Adds (list_add_item allocate rounds s (some x) b h)
                      (ItemList.list_add_item l (some x) b)) [
                        | false ↦
                            unchanged h s ps l (some x) false r
                              (ground
                                (arith, r.same_comp, r.same_n, r.same_max, e, room, found, absent))
                              (ground (arith, e, room, absent))
                        | true ↦
                            added h s ps l x r
                              (ground (
                                arith,
                                r.same_comp,
                                r.same_n,
                                r.same_max,
                                e,
                                room,
                                found,
                                absent,
                                node_add_heap h s.ghost_item (allocate h.used)
                                    (last_of s.ghost_item ps) x (fresh h.used) r.ring.ghost_used
                                    (last_of-All (λ q. has q h.used ≡ true) s.ghost_item ps
                                      r.ring.ghost_used r.ring.used)
                                    (Chain-last h.next h.prev s.ghost_item ps s.ghost_item
                                      r.ring.chain),
                              ))
                              (ground (arith, e, room, absent))
                      ]
          ]
    ]
  ]
