-- ===== src/ItemList/Ring/Find.antt =====
-- `_find_node` on a ring.
use psd_ims.Prelude.{
  ℕ, zero, suc, ◌<◌, ◌≡◌, Bool, true, false, Option, none, some, List, [], ◌∷◌, arith, All, length,
  get_elem?,
}
use psd_ims.ItemList.{find_node as find_index}
use psd_ims.ItemList.Ring.{has, Heap, find_from, find_node}
use psd_ims.ItemList.Ring.Chain.{Chain, Chain-head, head_of}
use psd_ims.ItemList.Ring.Represents.{Items, Ring}

-- The address of the node at a position that has been found.
abbrev pub address_of : List ℕ → Option ℕ → Option ℕ
address_of ps none = none
address_of ps (some i) = get_elem? ps i

module _ {A : Type 0} where
  find_from_lem :
      (rounds : ℕ) (comp : A → Bool) (h : Heap A) (g q : ℕ) (ps : List ℕ) (xs : List A)
      → length ps < rounds
      → All (λ p. has p h.used ≡ true) ps
      → has g ps ≡ false
      → Chain h.next h.prev q ps g
      → Items h.item ps xs
      → find_from rounds g comp (head_of ps g) h ≡ some (address_of ps (find_index comp xs), h)
  unfolding find_from find_index
  find_from_lem zero comp h g q ps xs l u a c i = absurd (omega arith)
  find_from_lem (suc rounds) comp h g q [] [] l u a c i = ground arith
  find_from_lem (suc rounds) comp h g q [] (x ∷ xs) l u a c i = absurd i
  find_from_lem (suc rounds) comp h g q (p ∷ ps) [] l u a c i = absurd i
  find_from_lem (suc rounds) comp h g q (p ∷ ps) (x ∷ xs) l u a c i = ground (
    arith,
    u.0,
    i.0,
    Chain-head h.next h.prev p ps g c.2,
    find_from_lem rounds comp h g p ps xs (omega arith) u.1 (ground arith) c.2 i.1,
  )

  -- The search ends, with as many rounds as there are nodes and one more, and finds the first item that
  -- passes the test.
  pub find_node_lem :
      (rounds : ℕ) (comp : A → Bool) (h : Heap A) (g : ℕ) (ps : List ℕ) (xs : List A)
      → length ps < rounds
      → Ring h g ps xs
      → find_node rounds g comp h ≡ some (address_of ps (find_index comp xs), h)
  unfolding find_node
  find_node_lem rounds comp h g ps xs l r = ground (
    arith,
    r.ghost_used,
    Chain-head h.next h.prev g ps g r.chain,
    find_from_lem rounds comp h g g ps xs l r.used r.apart r.chain r.items,
  )
