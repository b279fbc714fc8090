-- ===== src/ItemList/Ring/Life.antt =====
-- A list of common/list.c from `list_new` on.
use psd_ims.Prelude.{ℕ, ◌<◌, ◌≡◌, refl, true, false, Option, none, some, List, [], ◌∷◌, arith}
use psd_ims.ItemList.{ItemList}
use psd_ims.ItemList.Lookup.{Keyed, IsMap, same_key, has_key}
use psd_ims.ItemList.Ring.{has, Heap, M, ListHead, update, list_new}
use psd_ims.ItemList.Ring.Represents.{Represents}
use psd_ims.ItemList.Ring.Runs.{Op, calls, ring_calls, calls-IsMap, ring_calls-Gives}

module _ {A V I : Type 0} (k : Keyed A V) where
  -- An empty list that goes by the key.
  abbrev pub empty_list : I → ℕ → ItemList A V I
  empty_list info max = record {
    items = [];
    list_info = info;
    n_elems = 0;
    max_elems = max;
    item_comp = some (same_key k);
    item_value_comp = some (has_key k);
    freed = [];
  }

  pub empty_list-IsMap : (info : I) (max : ℕ) → IsMap k (empty_list info max)
  empty_list-IsMap info max = record {
    valid = record { compares = refl; counted = refl; bounded = omega arith; distinct = tt };
    compares_key = refl;
  }

  -- `list_new` and a sequence of calls; the result is `none` for NULL.
  abbrev pub life :
      (allocate : List ℕ → ℕ) (rounds : ℕ) → I → ℕ → List (Op A V) → M A (Option (ListHead A V I))
  life allocate rounds info max ops h =
      elim (list_new allocate rounds info max (same_key k) (has_key k) true true true h) [
        | none ↦ none
        | some (none, h2) ↦ some (none, h2)
        | some (some s, h2) ↦ elim (ring_calls allocate rounds ops s h2) [
          | none ↦ none
          | some (s2, h3) ↦ some (some s2, h3)
        ]
      ]

  -- What such a life comes to.
  pub record Lives (r : Option (Option (ListHead A V I) × Heap A)) (l : ItemList A V I)
      : Type 0 where
    pub head : ListHead A V I
    pub heap : Heap A
    pub nodes : List ℕ
    pub runs : r ≡ some (some head, heap)
    pub stands : Represents heap head nodes l
    pub map : IsMap k l

new_heap : {A : Type 0} → (List ℕ → ℕ) → Heap A → Heap A
new_heap allocate h = record h {
  used = allocate h.used ∷ h.used;
  item = update h.item (allocate h.used) none;
  next = update h.next (allocate h.used) (allocate h.used);
  prev = update h.prev (allocate h.used) (allocate h.used);
}

module _ {A V I : Type 0} (k : Keyed A V) (allocate : List ℕ → ℕ)
    (fresh : (used : List ℕ) → has (allocate used) used ≡ false) (rounds : ℕ) where
  new_head : I → ℕ → Heap A → ListHead A V I
  new_head info max h = record {
    ghost_item = allocate h.used;
    list_info = info;
    n_elems = 0;
    max_elems = max;
    item_comp = some (same_key k);
    item_value_comp = some (has_key k);
  }

  list_new_lem :
      (info : I) (max : ℕ) (h : Heap A)
      → list_new allocate rounds info max (same_key k) (has_key k) true true true h
        ≡ some (some (new_head info max h), new_heap allocate h)
  unfolding list_new new_head new_heap
  list_new_lem info max h = ground arith

  new-Represents :
      (info : I) (max : ℕ) (h : Heap A)
      → h.freed ≡ []
      → Represents (new_heap allocate h) (new_head info max h) [] (empty_list k info max)
  unfolding new_head new_heap
  new-Represents info max h e = record {
    ring = record {
      ghost_used = ground arith;
      used = tt;
      apart = refl;
      distinct = tt;
      chain = ground arith;
      items = tt;
    };
    same_info = refl;
    same_n = refl;
    same_max = refl;
    same_comp = refl;
    same_value_comp = refl;
    same_freed = e;
  }

  -- Refinement: a list that `list_new` makes, where `malloc` grants its blocks and before anything has been
  -- freed, goes through any sequence of additions and deletions without a fault; the ring of nodes then
  -- stands for the list that the same calls make of an empty `ItemList`, and that is a valid map. `malloc`
  -- gives addresses that are not in use, and the search has more rounds than the list has room for items.
  pub life-Lives :
      (info : I) (max : ℕ) (ops : List (Op A V)) (h : Heap A)
      → max < rounds
      → h.freed ≡ []
      → Lives k (life k allocate rounds info max ops h) (calls ops (empty_list k info max))
  life-Lives info max ops h b e =
      let g =
        ring_calls-Gives k allocate fresh rounds ops (new_heap allocate h) (new_head info max h) []
          (empty_list k info max) (empty_list-IsMap k info max) b (new-Represents info max h e) in
      record {
        head = g.value;
        heap = g.heap;
        nodes = g.nodes;
        runs = ground (arith, list_new_lem info max h, g.runs);
        stands = g.stands;
        map = calls-IsMap k ops (empty_list k info max) (empty_list-IsMap k info max);
      }
