-- ===== src/Client/Session/Restore.antt =====
-- `psd_recv_friends` of client/psd_ims_client.c where it fails.
use psd_ims.ItemList.Find.{Status-cases}
use mathlib.Core.Path.{subst}
use psd_ims.Prelude.{
  WhenSome-map, Option-cases, WhenSome, inr, inl, Bool-cases, ℕ, suc, ◌≡◌, refl, ap, ◌∙◌, sym, Bool,
  true, Option, none, some, List, [], ◌∷◌, ◌++◌, length, Text, same_text, arith, erase_idx,
  get_elem?,
}
use psd_ims.Prelude.Int.{ℤ}
use psd_ims.ItemList.{
  ok, failed, find_node, list_add_item, list_find_node, list_delete_node, node_add,
}
use psd_ims.ItemList.Lookup.{Keyed, IsMap, list_add_item-IsMap}
use psd_ims.Client.Common.{by_name, delete_value}
use psd_ims.Client.Friends.{FriendInfo, Friends, fri_add_friend, fri_del_friend}
use psd_ims.Client.Session.{
  whole, ReceivedUser, Added, add_friends, restore, psd_recv_friends, ReceivedFriends, minus_one,
}

abbrev pub by_friend : Keyed FriendInfo Text
by_friend = by_name (λ f. f.name)

module _ {A : Type 0} where
  find_node-append_one :
      (p : A → Bool) (xs : List A) (x : A)
      → find_node p xs ≡ none
      → p x ≡ true
      → find_node p (xs ++ x ∷ []) ≡ some (length xs)
  unfolding find_node
  find_node-append_one p [] x h k = ground (arith, k)
  find_node-append_one p (y ∷ ys) x h k = ground (arith, h, find_node-append_one p ys x)

  erase_idx-append_one : (xs : List A) (x : A) → erase_idx (xs ++ x ∷ []) (length xs) ≡ xs
  erase_idx-append_one [] x = refl
  erase_idx-append_one (y ∷ ys) x = ground (arith, erase_idx-append_one ys x)

  get_elem?-append_one : (xs : List A) (x : A) → get_elem? (xs ++ x ∷ []) (length xs) ≡ some x
  get_elem?-append_one [] x = refl
  get_elem?-append_one (y ∷ ys) x = ground (arith, get_elem?-append_one ys x)

-- What a successful addition did.
record AddedOne (l : Friends) (f : FriendInfo) (after : Friends) : Type 0 where
  pub list : after ≡ node_add l f
  pub absent : find_node (λ x. same_text x.name f.name) l.items ≡ none

fri_add_friend_cases :
    (l : Friends) (f : FriendInfo) (granted : Bool)
    → IsMap by_friend l
    → (fri_add_friend l f.name f.information granted).1 ≡ ok
    → AddedOne l f (fri_add_friend l f.name f.information granted).0
unfolding fri_add_friend list_add_item
fri_add_friend_cases l f granted m h = record {
  list = ground (arith, h, m.valid.compares);
  absent = ground (arith, h, m.valid.compares);
}

added-IsMap :
    (l : Friends) (f : FriendInfo) (granted : Bool)
    → IsMap by_friend l
    → (fri_add_friend l f.name f.information granted).1 ≡ ok
    → IsMap by_friend (node_add l f)
unfolding fri_add_friend
added-IsMap l f granted m h =
    subst (IsMap by_friend) (fri_add_friend_cases l f granted m h).list
      (ground (arith, h, m, list_add_item-IsMap by_friend l (some f) granted m))

fri_add_friend_failed :
    (l : Friends) (f : FriendInfo) (granted : Bool)
    → (fri_add_friend l f.name f.information granted).1 ≡ failed
    → (fri_add_friend l f.name f.information granted).0 ≡ l
unfolding fri_add_friend list_add_item
fri_add_friend_failed l f granted h = ground (arith, h)

fri_del_friend-node_add :
    (l : Friends) (f : FriendInfo)
    → IsMap by_friend l
    → find_node (λ x. same_text x.name f.name) l.items ≡ none
    → fri_del_friend (node_add l f) f.name ≡ (record l { freed = l.freed ++ f ∷ [] }, ok)
unfolding fri_del_friend delete_value list_find_node list_delete_node
fri_del_friend-node_add l f m h = ground (
  arith,
  m.compares_key,
  find_node-append_one (λ x. same_text x.name f.name) l.items f h (by_friend.same_refl f.name),
  erase_idx-append_one l.items f,
  get_elem?-append_one l.items f,
)

-- Taking out what a loop has added ends as taking out what was added before, but for the record of what has
-- been freed.
record Undone (l : Friends) (done : List ReceivedUser) (r : Added) : Type 0 where
  pub freed : List FriendInfo
  pub undone : restore r.friends r.added ≡ restore (record l { freed = freed }) done

freed-IsMap :
    (l : Friends) (freed : List FriendInfo)
    → IsMap by_friend l
    → IsMap by_friend (record l { freed = freed })
freed-IsMap l freed m = record {
  valid = record {
    compares = m.valid.compares;
    counted = m.valid.counted;
    bounded = m.valid.bounded;
    distinct = m.valid.distinct;
  };
  compares_key = m.compares_key;
}

restore-node_add :
    (l : Friends) (u : ReceivedUser) (f : FriendInfo) (done : List ReceivedUser)
    (freed : List FriendInfo)
    → whole u ≡ some f
    → IsMap by_friend l
    → find_node (λ x. same_text x.name f.name) l.items ≡ none
    → restore (record (node_add l f) { freed = freed }) (u ∷ done)
      ≡ restore (record l { freed = freed ++ f ∷ [] }) done
unfolding restore
restore-node_add l u f done freed e m h =
    ground
      (arith, e, fri_del_friend-node_add (record l { freed = freed }) f (freed-IsMap l freed m) h)

-- One round of the loop, in which a friend is added.
round-Undone :
    (l after : Friends) (u : ReceivedUser) (f : FriendInfo) (done : List ReceivedUser) (r : Added)
    → whole u ≡ some f
    → IsMap by_friend l
    → find_node (λ x. same_text x.name f.name) l.items ≡ none
    → after ≡ node_add l f
    → Undone after (u ∷ done) r
    → Undone l done r
round-Undone l after u f done r e m n a d = record {
  freed = d.freed ++ f ∷ [];
  undone =
      d.undone
      ∙ ap (λ x. restore (record x { freed = d.freed }) (u ∷ done)) a
      ∙ restore-node_add l u f done d.freed e m n;
}

add_friends-Undone :
    (l : Friends) (us done : List ReceivedUser) (granted : ℕ → Bool) (i : ℕ)
    → IsMap by_friend l
    → WhenSome (Undone l done) (add_friends l us done granted i)
unfolding add_friends
add_friends-Undone l [] done granted i m = record { freed = l.freed; undone = refl }
add_friends-Undone l (u ∷ us) done granted i m = elim (Option-cases (whole u)) [
  | inl e ↦ elim (Bool-cases (granted i)) [
    | inl t ↦ rw (e, t, add_friends) tt
    | inr t ↦ rw (e, t, add_friends) (record { freed = l.freed; undone = refl })
  ]
  | inr (f, e) ↦ elim (Status-cases (fri_add_friend l f.name f.information (granted i)).1) [
    | inr s ↦
        rw (e, s, add_friends)
          (record {
            freed = l.freed;
            undone = ap (λ x. restore x done) (fri_add_friend_failed l f (granted i) s);
          })
    | inl s ↦
        let a = fri_add_friend_cases l f (granted i) m s in
        let k = subst (IsMap by_friend) (sym a.list) (added-IsMap l f (granted i) m s) in
        rw (e, s, add_friends)
          (WhenSome-map (Undone (fri_add_friend l f.name f.information (granted i)).0 (u ∷ done))
            (Undone l done) _
            (add_friends-Undone (fri_add_friend l f.name f.information (granted i)).0 us (u ∷ done)
              granted (suc i) k)
            (λ r d. round-Undone l _ u f done r e m a.absent a.list d))
  ]
]

-- Nothing has changed but the record of what has been freed.
pub record Restored (l after : Friends) : Type 0 where
  pub freed : List FriendInfo
  pub same : after ≡ record l { freed = freed }

-- Where `psd_recv_friends` fails, be it in the network or half-way through the friends that it has
-- received, a valid friend list is as before, in its items, its counter and its timestamp; only
-- `item_free` may have been called.
pub psd_recv_friends-Restored :
    (net : (timestamp : ℤ) → Option ReceivedFriends) (granted : ℕ → Bool) (l after : Friends)
    → IsMap by_friend l
    → psd_recv_friends net granted l ≡ some (after, minus_one)
    → Restored l after
unfolding psd_recv_friends
psd_recv_friends-Restored net granted l after m h =
    elim (Option-cases (net l.list_info.timestamp)) [
      | inl e ↦ record { freed = l.freed; same = ground (arith, h, e) }
      | inr (received, e) ↦
          go received e (add_friends l received.user [] granted 0) refl
            (add_friends-Undone l received.user [] granted 0 m)
    ]
  where
    go :
        (received : ReceivedFriends)
        → net l.list_info.timestamp ≡ some received
        → (o : Option Added) → add_friends l received.user [] granted 0 ≡ o
        → WhenSome (Undone l []) o
        → Restored l after
    go received e none q d = absurd (ground (arith, h, e, q))
    go received e (some r) q d = elim (Bool-cases r.all) [
      | inl t ↦ absurd (ground (arith, h, e, q, t))
      | inr t ↦
          let a : (restore r.friends r.added).0 ≡ after = ground (arith, h, e, q, t) in
          record {
            freed = d.freed;
            same = sym a ∙ ap (λ x. x.0) d.undone ∙ (unfold restore in refl);
          }
    ]
