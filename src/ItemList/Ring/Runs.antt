-- ===== src/ItemList/Ring/Runs.antt =====
-- Whole runs of a list of common/list.c: every sequence of calls on the ring against the same calls on
-- `ItemList`.
use mathlib.Core.Path.{subst}
use psd_ims.Prelude.{
  ℕ, zero, suc, ◌-◌, ◌<◌, ◌≡◌, refl, ◌∙◌, Bool, false, Option, none, some, List, [], ◌∷◌, arith,
  length, Option-cases, inl, inr,
}
use psd_ims.ItemList
use psd_ims.ItemList.{ItemList, Status, ok, failed}
use psd_ims.ItemList.Find.{find_node-lt}
use psd_ims.ItemList.Bounds.{list_delete_first-IsValid, list_delete_last-IsValid}
use psd_ims.ItemList.Delete.{list_delete_first-max_elems}
use psd_ims.ItemList.Lookup.{
  Keyed, IsMap, same_key, has_key, list_add_item-IsMap, list_delete_node-IsMap,
}
use psd_ims.ItemList.Ring.{
  has, Heap, M, ListHead, ◌>>=◌, pure, list_add_item, list_find_node, list_delete_node,
  list_delete_first, list_delete_last,
}
use psd_ims.ItemList.Ring.Represents.{At-lt, Items-length, Represents}
use psd_ims.ItemList.Ring.Refine.{
  Gives, list_add_item-Adds, list_delete_node-Gives, list_find_node-Represents,
}
use psd_ims.ItemList.Ring.Loops.{list_delete_first-Gives, list_delete_last-Gives}

-- The calls that change a list: `list_add_item`, a deletion by value as the client's collections make
-- it, `list_delete_first` and `list_delete_last`.
pub data Op (A V : Type 0) : Type 0 where
  add : Option A → (granted : Bool) → Op A V
  delete : V → Op A V
  delete_first : ℕ → Op A V
  delete_last : ℕ → Op A V

module _ {A V I : Type 0} where
  unfoldable pub call : Op A V → ItemList A V I → ItemList A V I
  call (add x granted) l = (ItemList.list_add_item l x granted).0
  call (delete v) l = elim (ItemList.list_find_node l v) [
    | none ↦ l
    | some i ↦ ItemList.list_delete_node l i
  ]
  call (delete_first n) l = ItemList.list_delete_first l n
  call (delete_last n) l = ItemList.list_delete_last l n

  unfoldable pub calls : List (Op A V) → ItemList A V I → ItemList A V I
  calls [] l = l
  calls (op ∷ ops) l = calls ops (call op l)

module _ {A V I : Type 0} (allocate : List ℕ → ℕ) (rounds : ℕ) where
  unfoldable pub ring_call : Op A V → ListHead A V I → M A (ListHead A V I)
  ring_call (add x granted) s = do (s2, status) ← list_add_item allocate rounds s x granted; pure s2
  ring_call (delete v) s = do
    found ← list_find_node allocate rounds s v
    elim found [ none ↦ pure s | some p ↦ list_delete_node s p ]
  ring_call (delete_first n) s = list_delete_first s n
  ring_call (delete_last n) s = list_delete_last s n

  unfoldable pub ring_calls : List (Op A V) → ListHead A V I → M A (ListHead A V I)
  ring_calls [] s h = some (s, h)
  ring_calls (op ∷ ops) s h = elim (ring_call op s h) [
    | none ↦ none
    | some (s2, h2) ↦ ring_calls ops s2 h2
  ]

module _ {A V I : Type 0} where
  first_value_comp :
      (l : ItemList A V I) (n : ℕ)
      → (ItemList.list_delete_first l n).item_value_comp ≡ l.item_value_comp
  unfolding ItemList.list_delete_first ItemList.list_delete_node
  first_value_comp l zero = refl
  first_value_comp l (suc n) = ground (arith, first_value_comp (ItemList.list_delete_node l 0) n)

  last_value_comp :
      (l : ItemList A V I) (n : ℕ)
      → (ItemList.list_delete_last l n).item_value_comp ≡ l.item_value_comp
  unfolding ItemList.list_delete_last ItemList.list_delete_node
  last_value_comp l zero = refl
  last_value_comp l (suc n) =
      ground (arith, last_value_comp (ItemList.list_delete_node l (length l.items - 1)) n)

  last_max_elems :
      (l : ItemList A V I) (n : ℕ) → (ItemList.list_delete_last l n).max_elems ≡ l.max_elems
  unfolding ItemList.list_delete_last ItemList.list_delete_node
  last_max_elems l zero = refl
  last_max_elems l (suc n) =
      ground (arith, last_max_elems (ItemList.list_delete_node l (length l.items - 1)) n)

  call-max_elems : (op : Op A V) (l : ItemList A V I) → (call op l).max_elems ≡ l.max_elems
  unfolding call ItemList.list_add_item ItemList.list_delete_node
  call-max_elems (add none granted) l = refl
  call-max_elems (add (some x) granted) l = ground arith
  call-max_elems (delete v) l = ground arith
  call-max_elems (delete_first n) l = list_delete_first-max_elems l n
  call-max_elems (delete_last n) l = last_max_elems l n

module _ {A V I : Type 0} (k : Keyed A V) where
  pub call-IsMap : (op : Op A V) (l : ItemList A V I) → IsMap k l → IsMap k (call op l)
  unfolding call
  call-IsMap (add x granted) l m = list_add_item-IsMap k l x granted m
  call-IsMap (delete v) l m = elim (Option-cases (ItemList.list_find_node l v)) [
    | inl e ↦ rw (e, call) m
    | inr (i, e) ↦ rw (e, call) (list_delete_node-IsMap k l i v m e)
  ]
  call-IsMap (delete_first n) l m = record {
    valid = list_delete_first-IsValid (same_key k) l n m.valid;
    compares_key = first_value_comp l n ∙ m.compares_key;
  }
  call-IsMap (delete_last n) l m = record {
    valid = list_delete_last-IsValid (same_key k) l n m.valid;
    compares_key = last_value_comp l n ∙ m.compares_key;
  }

  pub calls-IsMap : (ops : List (Op A V)) (l : ItemList A V I) → IsMap k l → IsMap k (calls ops l)
  unfolding calls
  calls-IsMap [] l m = m
  calls-IsMap (op ∷ ops) l m = calls-IsMap ops (call op l) (call-IsMap op l m)

module _ {A V I : Type 0} (k : Keyed A V) (allocate : List ℕ → ℕ)
    (fresh : (used : List ℕ) → has (allocate used) used ≡ false) (rounds : ℕ) where
  Represents-length :
      (h : Heap A) (s : ListHead A V I) (ps : List ℕ) (l : ItemList A V I)
      → IsMap k l
      → l.max_elems < rounds
      → Represents h s ps l
      → length ps < rounds
  Represents-length h s ps l m b r =
      omega (arith, Items-length h.item ps l.items r.ring.items, m.valid.bounded)

  delete-Gives :
      (v : V) (h : Heap A) (s : ListHead A V I) (ps : List ℕ) (l : ItemList A V I)
      → length ps < rounds
      → Represents h s ps l
      → (o : Option ℕ) → ItemList.list_find_node l v ≡ o
      → ((i : ℕ) → o ≡ some i → i < length ps)
      → Gives (ring_call allocate rounds (delete v) s h) (λ s. s) (call (delete v) l)
  unfolding ring_call call
  delete-Gives v h s ps l b r none e i =
      let f = list_find_node-Represents allocate rounds h s ps l v b r in
      record {
        value = s;
        heap = h;
        nodes = ps;
        runs = ground (arith, f, e);
        stands = rw (e, call) r;
      }
  delete-Gives v h s ps l b r (some j) e i =
      let f = list_find_node-Represents allocate rounds h s ps l v b r in
      let a = At-lt ps j (i j refl) in
      let d =
        list_delete_node-Gives h s a.before a.node a.after l
          (subst (λ x. Represents h s x l) a.parts r) in
      record {
        value = d.value;
        heap = d.heap;
        nodes = d.nodes;
        runs = ground (arith, f, e, a.found, d.runs);
        stands =
            rw (e, call)
              (subst (λ n. Represents d.heap d.value d.nodes (ItemList.list_delete_node l n))
                a.count d.stands);
      }

  found_lt :
      (l : ItemList A V I) (v : V) (i : ℕ)
      → IsMap k l
      → ItemList.list_find_node l v ≡ some i
      → i < length l.items
  unfolding ItemList.list_find_node
  found_lt l v i m e =
      find_node-lt (λ x. has_key k x v) l.items i (ground (arith, m.compares_key, e))

  ring_call-Gives :
      (op : Op A V) (h : Heap A) (s : ListHead A V I) (ps : List ℕ) (l : ItemList A V I)
      → IsMap k l
      → l.max_elems < rounds
      → Represents h s ps l
      → Gives (ring_call allocate rounds op s h) (λ s. s) (call op l)
  unfolding ring_call call
  ring_call-Gives (add x granted) h s ps l m b r =
      let a =
        list_add_item-Adds allocate fresh rounds h s ps l x granted
          (Represents-length h s ps l m b r) r in
      record {
        value = a.gives.value.0;
        heap = a.gives.heap;
        nodes = a.gives.nodes;
        runs = ground (arith, a.gives.runs);
        stands = a.gives.stands;
      }
  ring_call-Gives (delete v) h s ps l m b r =
      delete-Gives v h s ps l (Represents-length h s ps l m b r) r (ItemList.list_find_node l v)
        refl (λ i e. omega (arith, found_lt l v i m e, Items-length h.item ps l.items r.ring.items))
  ring_call-Gives (delete_first n) h s ps l m b r = list_delete_first-Gives n h s ps l r
  ring_call-Gives (delete_last n) h s ps l m b r = list_delete_last-Gives n h s ps l r

  -- Refinement: a ring that stands for a valid list goes through any sequence of additions and deletions
  -- without a fault, where `malloc` gives addresses that are not in use and the search has more rounds
  -- than the list has room for items; it then stands for what the same calls on `ItemList` give.
  pub ring_calls-Gives :
      (ops : List (Op A V)) (h : Heap A) (s : ListHead A V I) (ps : List ℕ) (l : ItemList A V I)
      → IsMap k l
      → l.max_elems < rounds
      → Represents h s ps l
      → Gives (ring_calls allocate rounds ops s h) (λ s. s) (calls ops l)
  unfolding ring_calls calls
  ring_calls-Gives [] h s ps l m b r = record {
    value = s;
    heap = h;
    nodes = ps;
    runs = refl;
    stands = r;
  }
  ring_calls-Gives (op ∷ ops) h s ps l m b r =
      let g = ring_call-Gives op h s ps l m b r in
      let later =
        ring_calls-Gives ops g.heap g.value g.nodes (call op l) (call-IsMap k op l m)
          (rw (call-max_elems op l) b) g.stands in
      record {
        value = later.value;
        heap = later.heap;
        nodes = later.nodes;
        runs = ground (arith, g.runs, later.runs);
        stands = later.stands;
      }
