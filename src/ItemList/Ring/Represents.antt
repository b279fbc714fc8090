-- ===== src/ItemList/Ring/Represents.antt =====
-- What it means that a ring of nodes stands for an `ItemList`, and the two operations on nodes.
use psd_ims.Prelude.{
  ◌<◌, ℕ, zero, suc, ◌≡◌, refl, ap, true, false, Option, some, List, [], ◌∷◌, ◌++◌, arith, ◌==◌,
  if◌then◌else◌, All, length, erase_idx, get_elem?,
}
use psd_ims.ItemList.{ItemList}
use psd_ims.ItemList.Ring.{has, remove, Heap, update, node_delete, ListHead}
use psd_ims.ItemList.Ring.Chain.{Nodup, Chain, last_of, head_of}

-- The nodes `ps` hold the items `xs`, in order.
abbrev pub Items : {A : Type 0} → (ℕ → Option A) → List ℕ → List A → Type 0
Items item [] [] = Unit
Items item [] (x ∷ xs) = ⊥
Items item (p ∷ ps) [] = ⊥
Items item (p ∷ ps) (x ∷ xs) = (item p ≡ some x) × Items item ps xs

-- A ring around the ghost node `g` with the nodes `ps`, all in use.
pub record Ring {A : Type 0} (h : Heap A) (g : ℕ) (ps : List ℕ) (xs : List A) : Type 0 where
  pub ghost_used : has g h.used ≡ true
  pub used : All (λ p. has p h.used ≡ true) ps
  pub apart : has g ps ≡ false
  pub distinct : Nodup ps
  pub chain : Chain h.next h.prev g ps g
  pub items : Items h.item ps xs

-- The head and the heap stand for a list whose nodes are `ps`.
pub record Represents {A V I : Type 0} (h : Heap A) (s : ListHead A V I) (ps : List ℕ)
    (l : ItemList A V I) : Type 0 where
  pub ring : Ring h s.ghost_item ps l.items
  pub same_info : s.list_info ≡ l.list_info
  pub same_n : s.n_elems ≡ l.n_elems
  pub same_max : s.max_elems ≡ l.max_elems
  pub same_comp : s.item_comp ≡ l.item_comp
  pub same_value_comp : s.item_value_comp ≡ l.item_value_comp
  pub same_freed : h.freed ≡ l.freed

pub has-remove :
    (p q : ℕ) (used : List ℕ) → has q (remove p used) ≡ (if p == q then false else has q used)
unfolding remove
has-remove p q [] = ground arith
has-remove p q (u ∷ used) = ground (arith, has-remove p q used)

pub All-append : (P : ℕ → Type 0) (ps qs : List ℕ) → All P (ps ++ qs) → All P ps × All P qs
All-append P [] qs h = (tt, h)
All-append P (p ∷ ps) qs h = let r = All-append P ps qs h.1 in ((h.0, r.0), r.1)

pub append-All : (P : ℕ → Type 0) (ps qs : List ℕ) → All P ps → All P qs → All P (ps ++ qs)
append-All P [] qs h k = k
append-All P (p ∷ ps) qs h k = (h.0, append-All P ps qs h.1 k)

pub last_of-All : (P : ℕ → Type 0) (q : ℕ) (ps : List ℕ) → P q → All P ps → P (last_of q ps)
last_of-All P q [] h k = h
last_of-All P q (p ∷ ps) h k = last_of-All P p ps k.0 k.1

pub head_of-All : (P : ℕ → Type 0) (ps : List ℕ) (r : ℕ) → P r → All P ps → P (head_of ps r)
head_of-All P [] r h k = h
head_of-All P (p ∷ ps) r h k = k.0

module _ {A : Type 0} where
  pub Items-append :
      (item : ℕ → Option A) (ps : List ℕ) (xs : List A) (p : ℕ) (x : A)
      → Items item ps xs
      → has p ps ≡ false
      → Items (update item p (some x)) (ps ++ p ∷ []) (xs ++ x ∷ [])
  Items-append item [] [] p x i h = ground arith
  Items-append item [] (y ∷ xs) p x i h = absurd i
  Items-append item (q ∷ ps) [] p x i h = absurd i
  Items-append item (q ∷ ps) (y ∷ xs) p x i h =
      (ground (arith, i.0), Items-append item ps xs p x i.1 (ground arith))

  pub Items-erase :
      (item : ℕ → Option A) (qs : List ℕ) (p : ℕ) (rs : List ℕ) (xs : List A)
      → Items item (qs ++ p ∷ rs) xs
      → Items item (qs ++ rs) (erase_idx xs (length qs))
  Items-erase item [] p rs [] i = absurd i
  Items-erase item [] p rs (y ∷ xs) i = i.1
  Items-erase item (q ∷ qs) p rs [] i = absurd i
  Items-erase item (q ∷ qs) p rs (y ∷ xs) i = (i.0, Items-erase item qs p rs xs i.1)

  pub Items-get :
      (item : ℕ → Option A) (qs : List ℕ) (p : ℕ) (rs : List ℕ) (xs : List A)
      → Items item (qs ++ p ∷ rs) xs
      → (x : A) × (item p ≡ some x) × (get_elem? xs (length qs) ≡ some x)
  Items-get item [] p rs [] i = absurd i
  Items-get item [] p rs (y ∷ xs) i = (y, i.0, refl)
  Items-get item (q ∷ qs) p rs [] i = absurd i
  Items-get item (q ∷ qs) p rs (y ∷ xs) i = Items-get item qs p rs xs i.1

  -- The heap after `_node_delete`.
  abbrev pub unlinked : Heap A → (p before after : ℕ) → A → Heap A
  unlinked h p before after x = record h {
    used = remove p h.used;
    next = update h.next before after;
    prev = update h.prev after before;
    freed = h.freed ++ x ∷ [];
  }

  pub node_delete_heap :
      (h : Heap A) (p before after : ℕ) (x : A)
      → has p h.used ≡ true
      → has before h.used ≡ true
      → has after h.used ≡ true
      → h.prev p ≡ before
      → h.next p ≡ after
      → h.item p ≡ some x
      → (before == p) ≡ false
      → node_delete p h ≡ some (tt, unlinked h p before after x)
  unfolding node_delete
  node_delete_heap h p before after x hp hb ha e f i n = ground (arith, hp, hb, ha, e, f, i, n)

  pub Items-length :
      (item : ℕ → Option A) (ps : List ℕ) (xs : List A) → Items item ps xs → length ps ≡ length xs
  Items-length item [] [] i = refl
  Items-length item [] (x ∷ xs) i = absurd i
  Items-length item (p ∷ ps) [] i = absurd i
  Items-length item (p ∷ ps) (x ∷ xs) i = omega (arith, Items-length item ps xs i.1)

-- The parts of a list before and behind a position.
pub record At (ps : List ℕ) (i : ℕ) : Type 0 where
  pub before : List ℕ
  pub node : ℕ
  pub after : List ℕ
  pub parts : ps ≡ before ++ node ∷ after
  pub count : length before ≡ i
  pub found : get_elem? ps i ≡ some node

pub At-lt : (ps : List ℕ) (i : ℕ) → i < length ps → At ps i
At-lt [] i h = absurd (omega arith)
At-lt (p ∷ ps) zero h = record {
  before = [];
  node = p;
  after = ps;
  parts = refl;
  count = refl;
  found = refl;
}
At-lt (p ∷ ps) (suc i) h =
    let r = At-lt ps i (omega arith) in
    record {
      before = p ∷ r.before;
      node = r.node;
      after = r.after;
      parts = ap (λ qs. p ∷ qs) r.parts;
      count = omega (arith, r.count);
      found = r.found;
    }
