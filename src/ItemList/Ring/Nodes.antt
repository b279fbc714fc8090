-- ===== src/ItemList/Ring/Nodes.antt =====
-- `_node_delete` and `_node_add` on a ring.
use psd_ims.Prelude.{
  Bool-cases, inl, inr, ℕ, ◌≡◌, refl, ap, true, false, some, List, [], ◌∷◌, ◌++◌, arith, ◌==◌, All,
  length, erase_idx, get_elem?,
}
use psd_ims.ItemList.Ring.{has, remove, Heap, update, node_add, node_delete}
use psd_ims.ItemList.Ring.Chain.{
  Nodup, Chain-link, Chain-unlink, Chain-middle, last_of, head_of, has-append, last_ne,
}
use psd_ims.ItemList.Ring.Represents.{
  Ring, Items-append, Items-erase, Items-get, All-append, append-All, last_of-All, head_of-All,
  unlinked, node_delete_heap, has-remove,
}

Nodup-middle :
    (qs : List ℕ) (p : ℕ) (rs : List ℕ)
    → Nodup (qs ++ p ∷ rs)
    → (has p qs ≡ false) × (has p rs ≡ false)
Nodup-middle [] p rs d = (refl, d.0)
Nodup-middle (q ∷ qs) p rs d =
    let r = Nodup-middle qs p rs d.1 in (ground (arith, r.0, d.0, has-append q qs (p ∷ rs)), r.1)

Nodup-erase : (qs : List ℕ) (p : ℕ) (rs : List ℕ) → Nodup (qs ++ p ∷ rs) → Nodup (qs ++ rs)
Nodup-erase [] p rs d = d.1
Nodup-erase (q ∷ qs) p rs d =
    (ground (arith, d.0, has-append q qs (p ∷ rs), has-append q qs rs), Nodup-erase qs p rs d.1)

All-remove :
    (p : ℕ) (used ps : List ℕ)
    → All (λ q. has q used ≡ true) ps
    → has p ps ≡ false
    → All (λ q. has q (remove p used) ≡ true) ps
All-remove p used [] h k = tt
All-remove p used (q ∷ ps) h k =
    (ground (arith, h.0, has-remove p q used), All-remove p used ps h.1 (ground arith))

All-more :
    (p : ℕ) (used ps : List ℕ)
    → All (λ q. has q used ≡ true) ps
    → All (λ q. has q (p ∷ used) ≡ true) ps
All-more p used [] h = tt
All-more p used (q ∷ ps) h = (ground (arith, h.0), All-more p used ps h.1)

Nodup-append_one : (ps : List ℕ) (p : ℕ) → Nodup ps → has p ps ≡ false → Nodup (ps ++ p ∷ [])
Nodup-append_one [] p d h = (refl, tt)
Nodup-append_one (q ∷ ps) p d h =
    (ground (arith, d.0, has-append q ps (p ∷ [])), Nodup-append_one ps p d.1 (ground arith))

ne_of_has : (p q : ℕ) (used : List ℕ) → has p used ≡ false → has q used ≡ true → (p == q) ≡ false
ne_of_has p q used f h = elim (Bool-cases (p == q)) [
  | inl e ↦ let d : p ≡ q = ground (arith, e) in cc (ap (λ u. has u used) d)
  | inr e ↦ e
]

has_of_fresh :
    (p : ℕ) (used ps : List ℕ)
    → has p used ≡ false
    → All (λ q. has q used ≡ true) ps
    → has p ps ≡ false
has_of_fresh p used [] f h = refl
has_of_fresh p used (q ∷ ps) f h =
    ground (arith, ne_of_has p q used f h.0, has_of_fresh p used ps f h.1)

module _ {A : Type 0} where
  -- What `_node_delete` does to a ring.
  pub record Unlinks (h : Heap A) (g : ℕ) (qs : List ℕ) (p : ℕ) (rs : List ℕ) (xs : List A)
      : Type 0 where
    pub heap : Heap A
    pub value : A
    pub runs : node_delete p h ≡ some (tt, heap)
    pub was : get_elem? xs (length qs) ≡ some value
    pub used : heap.used ≡ remove p h.used
    pub freed : heap.freed ≡ h.freed ++ value ∷ []
    pub ring : Ring heap g (qs ++ rs) (erase_idx xs (length qs))

  unlinked-Ring :
      (h : Heap A) (g : ℕ) (qs : List ℕ) (p : ℕ) (rs : List ℕ) (xs : List A) (x : A)
      → Ring h g (qs ++ p ∷ rs) xs
      → Ring (unlinked h p (last_of g qs) (head_of rs g) x) g (qs ++ rs) (erase_idx xs (length qs))
  unlinked-Ring h g qs p rs xs x r =
      let m = Nodup-middle qs p rs r.distinct in
      let u = All-append (λ q. has q h.used ≡ true) qs (p ∷ rs) r.used in
      let e = has-append g qs (p ∷ rs) in
      record {
        ghost_used = ground (arith, has-remove p g h.used, e, r.apart, r.ghost_used);
        used =
            append-All (λ q. has q (remove p h.used) ≡ true) qs rs (All-remove p h.used qs u.0 m.0)
              (All-remove p h.used rs u.1.1 m.1);
        apart = ground (arith, e, has-append g qs rs, r.apart);
        distinct = Nodup-erase qs p rs r.distinct;
        chain = Chain-unlink h.next h.prev g qs p rs g r.chain r.apart r.apart r.distinct;
        items = Items-erase h.item qs p rs xs r.items;
      }

  pub node_delete-Unlinks :
      (h : Heap A) (g : ℕ) (qs : List ℕ) (p : ℕ) (rs : List ℕ) (xs : List A)
      → Ring h g (qs ++ p ∷ rs) xs
      → Unlinks h g qs p rs xs
  node_delete-Unlinks h g qs p rs xs r =
      let m = Nodup-middle qs p rs r.distinct in
      let u = All-append (λ q. has q h.used ≡ true) qs (p ∷ rs) r.used in
      let c = Chain-middle h.next h.prev g qs p rs g r.chain in
      let e = has-append g qs (p ∷ rs) in
      let (x, i, w) = Items-get h.item qs p rs xs r.items in
      let ne : (p == g) ≡ false = ground (arith, e, r.apart) in
      let lne = last_ne p g qs ne m.0 in
      record {
        heap = unlinked h p (last_of g qs) (head_of rs g) x;
        value = x;
        runs =
            node_delete_heap h p (last_of g qs) (head_of rs g) x u.1.0
              (last_of-All (λ q. has q h.used ≡ true) g qs r.ghost_used u.0)
              (head_of-All (λ q. has q h.used ≡ true) rs g r.ghost_used u.1.1) c.0 c.1 i
              (ground (arith, lne));
        was = w;
        used = refl;
        freed = refl;
        ring = unlinked-Ring h g qs p rs xs x r;
      }

  -- The heap after `malloc`, the write of the item and `_node_add`.
  abbrev pub linked : Heap A → (g p last : ℕ) → A → Heap A
  linked h g p last x = record h {
    used = p ∷ h.used;
    item = update h.item p (some x);
    next = update (update h.next p g) last p;
    prev = update (update h.prev p last) g p;
  }

  pub node_add_heap :
      (h : Heap A) (g p last : ℕ) (x : A)
      → has p h.used ≡ false
      → has g h.used ≡ true
      → has last h.used ≡ true
      → h.prev g ≡ last
      → node_add g p (record h { used = p ∷ h.used; item = update h.item p (some x) })
        ≡ some (tt, linked h g p last x)
  unfolding node_add
  node_add_heap h g p last x hp hg hl e = ground (arith, hp, hg, hl, e)

  pub linked-Ring :
      (h : Heap A) (g : ℕ) (ps : List ℕ) (p : ℕ) (xs : List A) (x : A)
      → Ring h g ps xs
      → has p h.used ≡ false
      → Ring (linked h g p (last_of g ps) x) g (ps ++ p ∷ []) (xs ++ x ∷ [])
  linked-Ring h g ps p xs x r f =
      let ne = ne_of_has p g h.used f r.ghost_used in
      let np = has_of_fresh p h.used ps f r.used in
      record {
        ghost_used = ground (arith, r.ghost_used);
        used =
            append-All (λ q. has q (p ∷ h.used) ≡ true) ps (p ∷ []) (All-more p h.used ps r.used)
              (ground arith, tt);
        apart = ground (arith, has-append g ps (p ∷ []), r.apart, ne);
        distinct = Nodup-append_one ps p r.distinct np;
        chain = Chain-link h.next h.prev g ps p g r.chain r.apart r.apart r.distinct np ne ne;
        items = Items-append h.item ps xs p x r.items np;
      }
