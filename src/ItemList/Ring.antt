-- ===== src/ItemList/Ring.antt =====
-- common/list.c on the heap: the ring of nodes around the ghost node, with its pointers. The functions
-- have the names of those on `ItemList`, which forgets the pointers.
pub mod Chain
pub mod Represents
pub mod Nodes
pub mod Find
pub mod Refine
pub mod Loops
pub mod Runs
pub mod Life
use psd_ims.Prelude.{
  ◌&&◌, ℕ, zero, suc, ◌+◌, ◌-◌, Bool, true, false, ◌||◌, Option, none, some, List, [], ◌∷◌, ◌++◌,
  ◌==◌, leb, if◌then◌else◌, is_some,
}
use psd_ims.ItemList.{Status, ok, failed}

-- Whether an address is in a list, and a list without it.
abbrev pub has : ℕ → List ℕ → Bool
has p [] = false
has p (q ∷ qs) = (p == q) || has p qs

unfoldable pub remove : ℕ → List ℕ → List ℕ
remove p [] = []
remove p (q ∷ qs) = if p == q then remove p qs else q ∷ remove p qs

-- The nodes in memory: `used` are the addresses of those that have been allocated and not freed. The
-- other three fields are those of `struct list_node`. `freed` records what `item_free` has got.
pub record Heap (A : Type 0) : Type 0 where
  pub used : List ℕ
  pub item : ℕ → Option A
  pub next : ℕ → ℕ
  pub prev : ℕ → ℕ
  pub freed : List A

-- `none` is a fault, such as a read through a dangling pointer, or a loop that has used up its rounds.
abbrev pub M : Type 0 → Type 0 → Type 0
M A X = Heap A → Option (X × Heap A)

abbrev pub update : {B : Type 0} → (ℕ → B) → ℕ → B → ℕ → B
update f p v q = if p == q then v else f q

module _ {A : Type 0} where
  abbrev pub pure : {X : Type 0} → X → M A X
  pure x h = some (x, h)

  infixl 5 ◌>>=◌ ◌>>◌
  abbrev pub ◌>>=◌ : {X Y : Type 0} → M A X → (X → M A Y) → M A Y
  ◌>>=◌ m f h = elim (m h) [ none ↦ none | some (x, h') ↦ f x h' ]

  abbrev pub ◌>>◌ : {Y : Type 0} → M A (Unit {0}) → M A Y → M A Y
  m >> k = m >>= λ _. k

  -- Reads and writes through a pointer.
  abbrev pub get_next : ℕ → M A ℕ
  get_next p h = elim (has p h.used) [ true ↦ some (h.next p, h) | false ↦ none ]

  abbrev pub get_prev : ℕ → M A ℕ
  get_prev p h = elim (has p h.used) [ true ↦ some (h.prev p, h) | false ↦ none ]

  -- `node->item`, which is not NULL but in the ghost node.
  abbrev pub get_item : ℕ → M A A
  get_item p h = elim (has p h.used) [
    | true ↦ elim (h.item p) [ none ↦ none | some x ↦ some (x, h) ]
    | false ↦ none
  ]

  abbrev pub set_next : ℕ → ℕ → M A (Unit {0})
  set_next p q h = elim (has p h.used) [
    | true ↦ some (tt, record h { next = update h.next p q })
    | false ↦ none
  ]

  abbrev pub set_prev : ℕ → ℕ → M A (Unit {0})
  set_prev p q h = elim (has p h.used) [
    | true ↦ some (tt, record h { prev = update h.prev p q })
    | false ↦ none
  ]

  abbrev pub set_item : ℕ → Option A → M A (Unit {0})
  set_item p x h = elim (has p h.used) [
    | true ↦ some (tt, record h { item = update h.item p x })
    | false ↦ none
  ]

  abbrev pub item_free : A → M A (Unit {0})
  item_free x h = some (tt, record h { freed = h.freed ++ x ∷ [] })

  -- `free` of a node; of an address that is not in use it is a fault.
  abbrev pub free : ℕ → M A (Unit {0})
  free p h = elim (has p h.used) [
    | true ↦ some (tt, record h { used = remove p h.used })
    | false ↦ none
  ]

  unfoldable pub node_delete : ℕ → M A (Unit {0})
  node_delete node = do
    before ← get_prev node
    after ← get_next node
    set_next before after
    after2 ← get_next node
    before2 ← get_prev node
    set_prev after2 before2
    x ← get_item node
    item_free x
    free node

  unfoldable pub node_add : (ghost node : ℕ) → M A (Unit {0})
  node_add ghost node = do
    set_next node ghost
    last ← get_prev ghost
    set_prev node last
    last2 ← get_prev ghost
    set_next last2 node
    set_prev ghost node

  -- The loop of `_find_node`, from a node on; the result is `none` for NULL.
  unfoldable pub find_from : (rounds ghost : ℕ) → (A → Bool) → (node : ℕ) → M A (Option ℕ)
  find_from zero ghost comp node h = none
  find_from (suc rounds) ghost comp node h = elim (node == ghost) [
    | true ↦ some (none, h)
    | false ↦ elim (get_item node h) [
      | none ↦ none
      | some (x, h1) ↦ elim (comp x) [
        | true ↦ some (some node, h1)
        | false ↦ elim (get_next node h1) [
          | none ↦ none
          | some (n, h2) ↦ find_from rounds ghost comp n h2
        ]
      ]
    ]
  ]

  unfoldable pub find_node : (rounds ghost : ℕ) → (A → Bool) → M A (Option ℕ)
  unfolding find_from
  find_node rounds ghost comp = do node ← get_next ghost; find_from rounds ghost comp node

  -- `malloc(sizeof(list_node))`, `none` for NULL; the address that it gives may depend on those in
  -- use.
  abbrev pub malloc : (allocate : List ℕ → ℕ) (granted : Bool) → M A (Option ℕ)
  malloc allocate granted h =
      if granted
      then some (some (allocate h.used), record h { used = allocate h.used ∷ h.used })
      else some (none, h)

  -- The loop of `list_free`, which leaves `n_elems` alone, and the `free` of the ghost node.
  unfoldable pub free_nodes : (rounds ghost : ℕ) → M A (Unit {0})
  unfolding node_delete
  free_nodes zero ghost h = none
  free_nodes (suc rounds) ghost h = elim (get_next ghost h) [
    | none ↦ none
    | some (p, h1) ↦ elim (ghost == p) [
      | true ↦ free ghost h1
      | false ↦ elim (node_delete p h1) [ none ↦ none | some (u, h2) ↦ free_nodes rounds ghost h2 ]
    ]
  ]

-- `struct linked_list` itself.
pub record ListHead (A V I : Type 0) : Type 0 where
  pub ghost_item : ℕ
  pub list_info : I
  pub n_elems : ℕ
  pub max_elems : ℕ
  pub item_comp : Option (A → A → Bool)
  pub item_value_comp : Option (A → V → Bool)

-- `allocate` is how `malloc` chooses an address, `rounds` bounds the loop of `_find_node`.
module _ {A V I : Type 0} (allocate : List ℕ → ℕ) (rounds : ℕ) where
  unfoldable pub list_add_item :
      ListHead A V I → Option A → (granted : Bool) → M A (ListHead A V I × Status)
  unfolding find_node node_add
  list_add_item l none granted = pure (l, failed)
  list_add_item l (some x) granted = elim l.item_comp [
    | none ↦ pure (l, failed)
    | some comp ↦ λ h.
        if leb l.max_elems l.n_elems
        then some ((l, failed), h)
        else (do
          found ← find_node rounds l.ghost_item (λ y. comp y x)
          elim found [
            | some p ↦ pure (l, failed)
            | none ↦ do
              node ← malloc allocate granted
              elim node [
                | none ↦ pure (l, failed)
                | some p ↦ do
                  set_item p (some x)
                  node_add l.ghost_item p
                  pure (record l { n_elems = l.n_elems + 1 }, ok)
              ]
          ])
            h
  ]

  -- The comparators are set by the caller, to those given here; `malloc` grants both blocks or not.
  unfoldable pub list_new :
      I
      → (max : ℕ) → (item_comp : A → A → Bool) → (item_value_comp : A → V → Bool)
      → (info_free item_free granted : Bool) → M A (Option (ListHead A V I))
  list_new info max item_comp item_value_comp info_free item_free granted =
      if info_free && item_free
      then (do
        node ← malloc allocate granted
        elim node [
          | none ↦ pure none
          | some ghost ↦ do
            set_item ghost none
            set_next ghost ghost
            set_prev ghost ghost
            pure (
                some (record {
                  ghost_item = ghost;
                  list_info = info;
                  n_elems = 0;
                  max_elems = max;
                  item_comp = some item_comp;
                  item_value_comp = some item_value_comp;
                }))
        ])
      else pure none

  unfoldable pub list_find_node : ListHead A V I → V → M A (Option ℕ)
  unfolding find_node
  list_find_node l v = elim l.item_value_comp [
    | none ↦ pure none
    | some comp ↦ find_node rounds l.ghost_item (λ x. comp x v)
  ]

  unfoldable pub list_find_item : ListHead A V I → V → M A (Option A)
  unfolding find_node
  list_find_item l v = elim l.item_value_comp [
    | none ↦ pure none
    | some comp ↦ do
      found ← find_node rounds l.ghost_item (λ x. comp x v)
      elim found [ none ↦ pure none | some p ↦ do x ← get_item p; pure (some x) ]
  ]

module _ {A V I : Type 0} where
  unfoldable pub list_delete_node : ListHead A V I → ℕ → M A (ListHead A V I)
  unfolding node_delete
  list_delete_node l node = do node_delete node; pure (record l { n_elems = l.n_elems - 1 })

  unfoldable pub list_delete_first : ListHead A V I → ℕ → M A (ListHead A V I)
  unfolding list_delete_node
  list_delete_first l zero h = some (l, h)
  list_delete_first l (suc n) h = elim (get_next l.ghost_item h) [
    | none ↦ none
    | some (p, h1) ↦ elim (p == l.ghost_item) [
      | true ↦ some (l, h1)
      | false ↦ elim (list_delete_node l p h1) [
        | none ↦ none
        | some (l2, h2) ↦ list_delete_first l2 n h2
      ]
    ]
  ]

  unfoldable pub list_delete_last : ListHead A V I → ℕ → M A (ListHead A V I)
  unfolding list_delete_node
  list_delete_last l zero h = some (l, h)
  list_delete_last l (suc n) h = elim (get_prev l.ghost_item h) [
    | none ↦ none
    | some (p, h1) ↦ elim (p == l.ghost_item) [
      | true ↦ some (l, h1)
      | false ↦ elim (list_delete_node l p h1) [
        | none ↦ none
        | some (l2, h2) ↦ list_delete_last l2 n h2
      ]
    ]
  ]

  unfoldable pub list_free : (rounds : ℕ) → ListHead A V I → M A (Unit {0})
  unfolding free_nodes
  list_free rounds l = free_nodes rounds l.ghost_item
