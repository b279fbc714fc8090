-- ===== src/ItemList/Ring/Loops.antt =====
-- The deleting loops of common/list.c on a ring of nodes.
use mathlib.Core.Path.{subst}
use mathlib.Core.List.{append_assoc, append-nil}
use psd_ims.Prelude.{
  length-append, not, ◌&&◌, ℕ, zero, suc, ◌<◌, ◌≡◌, refl, ◌∙◌, sym, ap, Option, some, List, [], ◌∷◌,
  ◌++◌, arith, length,
}
use psd_ims.ItemList
use psd_ims.ItemList.{ItemList}
use psd_ims.ItemList.Ring.{
  has, remove, Heap, ListHead, list_delete_first, list_delete_last, free_nodes, list_free,
}
use psd_ims.ItemList.Ring.Chain.{has-append, Chain-last, last_of}
use psd_ims.ItemList.Ring.Represents.{has-remove, Items-length, Ring, Represents}
use psd_ims.ItemList.Ring.Nodes.{node_delete-Unlinks}
use psd_ims.ItemList.Delete.{list_free-append}
use psd_ims.ItemList.Ring.Refine.{Gives, list_delete_node-Gives}

module _ {A V I : Type 0} where
  -- A result that is the same as another gives the same.
  Gives-eq :
      {r s : Option (ListHead A V I × Heap A)} {l m : ItemList A V I}
      → r ≡ s
      → l ≡ m
      → Gives s (λ v. v) m
      → Gives r (λ v. v) l
  Gives-eq e f g = rw (e, f) g

  here :
      (h : Heap A) (s : ListHead A V I) (ps : List ℕ) (l : ItemList A V I)
      → Represents h s ps l
      → Gives (some (s, h)) (λ v. v) l
  here h s ps l r = record { value = s; heap = h; nodes = ps; runs = refl; stands = r }

  empty_first :
      (l : ItemList A V I) (n : ℕ) → length l.items ≡ 0 → ItemList.list_delete_first l (suc n) ≡ l
  unfolding ItemList.list_delete_first
  empty_first l n e = ground (arith, e)

  full_first :
      (l : ItemList A V I) (n : ℕ)
      → 0 < length l.items
      → ItemList.list_delete_first l (suc n)
        ≡ ItemList.list_delete_first (ItemList.list_delete_node l 0) n
  unfolding ItemList.list_delete_first
  full_first l n e = ground (arith, e)

  empty_last :
      (l : ItemList A V I) (n : ℕ) → length l.items ≡ 0 → ItemList.list_delete_last l (suc n) ≡ l
  unfolding ItemList.list_delete_last
  empty_last l n e = ground (arith, e)

  full_last :
      (l : ItemList A V I) (n k : ℕ)
      → length l.items ≡ suc k
      → ItemList.list_delete_last l (suc n)
        ≡ ItemList.list_delete_last (ItemList.list_delete_node l k) n
  unfolding ItemList.list_delete_last
  full_last l n k e = ground (arith, e)

  pub list_delete_first-Gives :
      (n : ℕ) (h : Heap A) (s : ListHead A V I) (ps : List ℕ) (l : ItemList A V I)
      → Represents h s ps l
      → Gives (list_delete_first s n h) (λ v. v) (ItemList.list_delete_first l n)
  unfolding list_delete_first ItemList.list_delete_first
  list_delete_first-Gives zero h s ps l r = here h s ps l r
  list_delete_first-Gives (suc n) h s [] l r =
      let e = Items-length h.item [] l.items r.ring.items in
      Gives-eq (ground (arith, r.ring.ghost_used, r.ring.chain.0)) (empty_first l n (sym e))
        (here h s [] l r)
  list_delete_first-Gives (suc n) h s (p ∷ ps) l r =
      let d = list_delete_node-Gives h s [] p ps l r in
      let e = Items-length h.item (p ∷ ps) l.items r.ring.items in
      Gives-eq (ground (arith, r.ring.ghost_used, r.ring.chain.0, r.ring.apart, d.runs))
        (full_first l n (omega (arith, e)))
        (list_delete_first-Gives n d.heap d.value d.nodes (ItemList.list_delete_node l 0) d.stands)

-- A list that is not empty, seen from its end.
data FromEnd : List ℕ → Type 0 where
  from_end : {ps : List ℕ} (qs : List ℕ) (p : ℕ) → ps ≡ qs ++ p ∷ [] → FromEnd ps

to_end : (p : ℕ) (ps : List ℕ) → FromEnd (p ∷ ps)
to_end p [] = from_end [] p refl
to_end p (q ∷ ps) = step (to_end q ps)
  where
    step : FromEnd (q ∷ ps) → FromEnd (p ∷ q ∷ ps)
    step (from_end qs r e) = from_end (p ∷ qs) r (ap (λ xs. p ∷ xs) e)

last_of-append_one : (g : ℕ) (qs : List ℕ) (p : ℕ) → last_of g (qs ++ p ∷ []) ≡ p
last_of-append_one g [] p = refl
last_of-append_one g (q ∷ qs) p = last_of-append_one q qs p

module _ {A V I : Type 0} where
  last_step :
      (n : ℕ) (h : Heap A) (s : ListHead A V I) (qs : List ℕ) (p : ℕ) (l : ItemList A V I)
      → Represents h s (qs ++ p ∷ []) l
      → ((h2 : Heap A) (s2 : ListHead A V I) (ps : List ℕ) (l2 : ItemList A V I)
          → Represents h2 s2 ps l2
          → Gives (list_delete_last s2 n h2) (λ v. v) (ItemList.list_delete_last l2 n))
      → Gives (list_delete_last s (suc n) h) (λ v. v) (ItemList.list_delete_last l (suc n))
  unfolding list_delete_last
  last_step n h s qs p l r later =
      let d = list_delete_node-Gives h s qs p [] l r in
      let e = Items-length h.item (qs ++ p ∷ []) l.items r.ring.items in
      let c = Chain-last h.next h.prev s.ghost_item (qs ++ p ∷ []) s.ghost_item r.ring.chain in
      Gives-eq
        (ground (
          arith,
          r.ring.ghost_used,
          c,
          last_of-append_one s.ghost_item qs p,
          has-append s.ghost_item qs (p ∷ []),
          r.ring.apart,
          d.runs,
        ))
        (full_last l n (length qs) (omega (arith, e, length-append qs (p ∷ []))))
        (later d.heap d.value d.nodes (ItemList.list_delete_node l (length qs)) d.stands)

  pub list_delete_last-Gives :
      (n : ℕ) (h : Heap A) (s : ListHead A V I) (ps : List ℕ) (l : ItemList A V I)
      → Represents h s ps l
      → Gives (list_delete_last s n h) (λ v. v) (ItemList.list_delete_last l n)
  unfolding list_delete_last ItemList.list_delete_last
  list_delete_last-Gives zero h s ps l r = here h s ps l r
  list_delete_last-Gives (suc n) h s [] l r =
      let e = Items-length h.item [] l.items r.ring.items in
      Gives-eq (ground (arith, r.ring.ghost_used, r.ring.chain.1)) (empty_last l n (sym e))
        (here h s [] l r)
  list_delete_last-Gives (suc n) h s (p ∷ ps) l r = elim (to_end p ps) [
    | from_end qs q e ↦
        last_step n h s qs q l (subst (λ x. Represents h s x l) e r) (list_delete_last-Gives n)
  ]

-- What the loop of `list_free` leaves: no node of the list is in use, all others are as before, and every
-- item has been freed once, in order.
pub record Frees {A : Type 0} (h : Heap A) (r : Option (Unit {0} × Heap A)) (g : ℕ) (ps : List ℕ)
    (xs : List A) : Type 0 where
  pub heap : Heap A
  pub runs : r ≡ some (tt, heap)
  pub freed : heap.freed ≡ h.freed ++ xs
  pub released : (q : ℕ) → has q heap.used ≡ (has q h.used && not (has q (g ∷ ps)))

free_nodes-Frees :
    {A : Type 0} (rounds : ℕ) (h : Heap A) (g : ℕ) (ps : List ℕ) (xs : List A)
    → length ps < rounds
    → Ring h g ps xs
    → Frees h (free_nodes rounds g h) g ps xs
unfolding free_nodes
free_nodes-Frees zero h g ps xs b r = absurd (omega arith)
free_nodes-Frees (suc rounds) h g [] [] b r = record {
  heap = record h { used = remove g h.used };
  runs = ground (arith, r.ghost_used, r.chain.0);
  freed = ground (arith, append-nil h.freed);
  released = λ q. ground (arith, has-remove g q h.used);
}
free_nodes-Frees (suc rounds) h g [] (x ∷ xs) b r = absurd r.items
free_nodes-Frees (suc rounds) h g (p ∷ ps) [] b r = absurd r.items
free_nodes-Frees (suc rounds) h g (p ∷ ps) (x ∷ xs) b r =
    let u = node_delete-Unlinks h g [] p ps (x ∷ xs) r in
    let f = free_nodes-Frees rounds u.heap g ps xs (omega arith) u.ring in
    record {
      heap = f.heap;
      runs = ground (arith, r.ghost_used, r.chain.0, r.apart, u.runs, f.runs);
      freed = ground (arith, f.freed, u.freed, u.was, append_assoc h.freed (x ∷ []) xs);
      released = λ q. ground (arith, f.released q, u.used, has-remove p q h.used);
    }

-- `list_free` on a ring that stands for a list, with more rounds than it has nodes, does not fault: it
-- frees the items that `list_free` of `ItemList` frees, in their order, each once, and the ghost node
-- and the nodes of the list, and no other node.
pub list_free-Frees :
    {A V I : Type 0} (rounds : ℕ) (h : Heap A) (s : ListHead A V I) (ps : List ℕ)
    (l : ItemList A V I)
    → length ps < rounds
    → Represents h s ps l
    → (f : Frees h (list_free rounds s h) s.ghost_item ps l.items) × (f.heap.freed
        ≡ ItemList.list_free l)
unfolding list_free
list_free-Frees rounds h s ps l b r =
    let f = free_nodes-Frees rounds h s.ghost_item ps l.items b r.ring in
    (f, f.freed ∙ rw (r.same_freed, list_free-append l) refl)
