-- ===== src/ItemList/Ring/Chain.antt =====
-- The links of a ring of nodes, and what adding and removing a node does to them.
use psd_ims.Prelude.{ℕ, ◌≡◌, refl, false, ◌||◌, List, [], ◌∷◌, ◌++◌, arith, ◌==◌}
use psd_ims.ItemList.Ring.{has, update}

-- No address twice.
abbrev pub Nodup : List ℕ → Type 0
Nodup [] = Unit
Nodup (p ∷ ps) = (has p ps ≡ false) × Nodup ps

-- From `q` the `next` pointers lead through `ps` to `r`, and the `prev` pointers back.
abbrev pub Chain : (next prev : ℕ → ℕ) → ℕ → List ℕ → ℕ → Type 0
Chain next prev q [] r = (next q ≡ r) × (prev r ≡ q)
Chain next prev q (p ∷ ps) r = (next q ≡ p) × (prev p ≡ q) × Chain next prev p ps r

-- The last node of a chain before its end, and the first one behind its start.
abbrev pub last_of : ℕ → List ℕ → ℕ
last_of q [] = q
last_of q (p ∷ ps) = last_of p ps

abbrev pub head_of : List ℕ → ℕ → ℕ
head_of [] r = r
head_of (p ∷ ps) r = p

pub has-append : (u : ℕ) (ps qs : List ℕ) → has u (ps ++ qs) ≡ (has u ps || has u qs)
has-append u [] qs = refl
has-append u (p ∷ ps) qs = ground (arith, has-append u ps qs)

pub last_ne :
    (u q : ℕ) (ps : List ℕ) → (u == q) ≡ false → has u ps ≡ false → (u == last_of q ps) ≡ false
last_ne u q [] e h = e
last_ne u q (p ∷ ps) e h = last_ne u p ps (ground arith) (ground arith)

pub head_ne :
    (u : ℕ) (ps : List ℕ) (r : ℕ)
    → (u == r) ≡ false
    → has u ps ≡ false
    → (u == head_of ps r) ≡ false
head_ne u [] r e h = e
head_ne u (p ∷ ps) r e h = ground arith

pub Nodup-append : (ps qs : List ℕ) → Nodup (ps ++ qs) → Nodup qs
Nodup-append [] qs d = d
Nodup-append (p ∷ ps) qs d = Nodup-append ps qs d.1

-- The ends of a chain.
pub Chain-last :
    (next prev : ℕ → ℕ) (q : ℕ) (ps : List ℕ) (r : ℕ)
    → Chain next prev q ps r
    → prev r ≡ last_of q ps
Chain-last next prev q [] r c = c.1
Chain-last next prev q (p ∷ ps) r c = Chain-last next prev p ps r c.2

pub Chain-head :
    (next prev : ℕ → ℕ) (q : ℕ) (ps : List ℕ) (r : ℕ)
    → Chain next prev q ps r
    → next q ≡ head_of ps r
Chain-head next prev q [] r c = c.0
Chain-head next prev q (p ∷ ps) r c = c.0

pub Chain-middle :
    (next prev : ℕ → ℕ) (q : ℕ) (ps : List ℕ) (p : ℕ) (qs : List ℕ) (r : ℕ)
    → Chain next prev q (ps ++ p ∷ qs) r
    → (prev p ≡ last_of q ps) × (next p ≡ head_of qs r)
Chain-middle next prev q [] p qs r c = (c.1, Chain-head next prev p qs r c.2)
Chain-middle next prev q (x ∷ ps) p qs r c = Chain-middle next prev x ps p qs r c.2

-- A chain survives a write of the `next` of a node that is none of its own, and of the `prev` of one
-- that is neither its end nor its own.
pub Chain-frame :
    (next prev : ℕ → ℕ) (a b v w : ℕ) (q : ℕ) (ps : List ℕ) (r : ℕ)
    → Chain next prev q ps r
    → (a == q) ≡ false
    → has a ps ≡ false
    → (b == r) ≡ false
    → has b ps ≡ false
    → Chain (update next a v) (update prev b w) q ps r
Chain-frame next prev a b v w q [] r c aq ap br bp = ground (arith, c.0, c.1)
Chain-frame next prev a b v w q (p ∷ ps) r c aq ap br bp = (
  ground (arith, c.0),
  ground (arith, c.1),
  Chain-frame next prev a b v w p ps r c.2 (ground arith) (ground arith) br (ground arith),
)

-- Taking the node `p` out.
pub Chain-unlink :
    (next prev : ℕ → ℕ) (q : ℕ) (ps : List ℕ) (p : ℕ) (qs : List ℕ) (r : ℕ)
    → Chain next prev q (ps ++ p ∷ qs) r
    → has q (ps ++ p ∷ qs) ≡ false
    → has r (ps ++ p ∷ qs) ≡ false
    → Nodup (ps ++ p ∷ qs)
    → Chain
        (update next (last_of q ps) (head_of qs r))
        (update prev (head_of qs r) (last_of q ps))
        q
        (ps ++ qs)
        r
Chain-unlink next prev q [] p [] r c hq hr d = ground arith
Chain-unlink next prev q [] p (b ∷ qs) r c hq hr d = (
  ground arith,
  ground arith,
  Chain-frame next prev q b b q b qs r c.2.2 (ground arith) (ground arith) (ground arith)
      (ground (arith, d.1)),
)
Chain-unlink next prev q (x ∷ ps) p qs r c hq hr d =
    let e = has-append q ps (p ∷ qs) in
    let f = has-append x ps (p ∷ qs) in
    let g = has-append r ps (p ∷ qs) in
    (
      ground (arith, c.0, e, last_ne q x ps),
      ground (arith, c.1, f, g, head_ne x qs r),
      Chain-unlink next prev x ps p qs r c.2 d.0 (ground arith) d.1,
    )

-- Putting a new node `p` in before the end.
pub Chain-link :
    (next prev : ℕ → ℕ) (q : ℕ) (ps : List ℕ) (p r : ℕ)
    → Chain next prev q ps r
    → has q ps ≡ false
    → has r ps ≡ false
    → Nodup ps
    → has p ps ≡ false
    → (p == q) ≡ false
    → (p == r) ≡ false
    → Chain
        (update (update next p r) (last_of q ps) p)
        (update (update prev p (last_of q ps)) r p)
        q
        (ps ++ p ∷ [])
        r
Chain-link next prev q [] p r c hq hr d hp pq pr = ground arith
Chain-link next prev q (x ∷ ps) p r c hq hr d hp pq pr = (
  ground (arith, c.0, last_ne q x ps),
  ground (arith, c.1),
  Chain-link next prev x ps p r c.2 d.0 (ground arith) d.1 (ground arith) (ground arith) pr,
)
