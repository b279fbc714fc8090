-- ===== src/Tests/Ring.antt =====
-- Runs of common/list.c on the heap.
use psd_ims.Prelude.{
  ◌==◌, if◌then◌else◌, ℕ, ◌+◌, ◌≡◌, refl, true, false, none, some, List, [], ◌∷◌, arith, codes,
  Text,
}
use psd_ims.ItemList
use psd_ims.Prelude.Int.{pos}
use psd_ims.Client.Friends.{Friends}
use psd_ims.ItemList.Ring.{has, Heap, ListHead, list_free}
use psd_ims.ItemList.Ring.Represents.{Represents}
use psd_ims.ItemList.Ring.Loops.{Frees, list_free-Frees}
use psd_ims.ItemList.Ring.Runs.{Op, add, delete, delete_first, delete_last, calls}
use psd_ims.ItemList.Ring.Life.{life, Lives, life-Lives, empty_list}
use psd_ims.Client.Session.Restore.{by_friend}
use psd_ims.Client.Common.{ListInfo}
use psd_ims.Client.Friends.{FriendInfo}
use psd_ims.Tests.Client.{bob, carol, two_friends}

-- An allocator that goes above every address in use.
abbrev top : List ℕ → ℕ
top [] = 0
top (p ∷ ps) = p + 1 + top ps

top-beyond : (used : List ℕ) (p : ℕ) → has (p + top used) used ≡ false
top-beyond [] p = refl
top-beyond (q ∷ used) p = ground (arith, top-beyond used (p + q + 1))

top-fresh : (used : List ℕ) → has (top used) used ≡ false
top-fresh used = ground (arith, top-beyond used 0)

abbrev no_nodes : Heap FriendInfo
no_nodes = record { used = 7 ∷ []; item = λ p. none; next = λ p. 0; prev = λ p. 0; freed = [] }

-- A second addition of a friend, deletions of one that is there and of one that is not, and deletions at
-- both ends.
abbrev some_calls : List (Op FriendInfo Text)
some_calls =
    add (some bob) true
    ∷ add (some bob) true
    ∷ add (some carol) true
    ∷ delete (codes "bob")
    ∷ delete (codes "dave")
    ∷ add (some bob) false
    ∷ add (some bob) true
    ∷ delete_last 1
    ∷ add (some bob) true
    ∷ delete_first 1
    ∷ []

abbrev zero_info : ListInfo
zero_info = record { timestamp = pos 0 }

life-Lives_example :
    Lives by_friend
      (life by_friend top 4 zero_info 3 some_calls no_nodes)
      (calls some_calls (empty_list by_friend zero_info 3))
life-Lives_example =
    life-Lives by_friend top top-fresh 4 zero_info 3 some_calls no_nodes (omega arith) refl

-- The nodes 3 and 1 around the ghost node 2.
abbrev two_nodes : Heap FriendInfo
two_nodes = record {
  used = 7 ∷ 2 ∷ 3 ∷ 1 ∷ [];
  item = λ p. if p == 3 then some carol else if p == 1 then some bob else none;
  next = λ p. if p == 2 then 3 else if p == 3 then 1 else 2;
  prev = λ p. if p == 2 then 1 else if p == 1 then 3 else 2;
  freed = [];
}

abbrev carol_and_bob : Friends
carol_and_bob = record two_friends { items = carol ∷ bob ∷ [] }

abbrev two_head : ListHead FriendInfo Text ListInfo
two_head = record {
  ghost_item = 2;
  list_info = zero_info;
  n_elems = 2;
  max_elems = 3;
  item_comp = carol_and_bob.item_comp;
  item_value_comp = carol_and_bob.item_value_comp;
}

two_nodes-Represents : Represents two_nodes two_head (3 ∷ 1 ∷ []) carol_and_bob
two_nodes-Represents = record {
  ring = record {
    ghost_used = refl;
    used = (refl, (refl, tt));
    apart = refl;
    distinct = ground arith;
    chain = ground arith;
    items = (refl, (refl, tt));
  };
  same_info = refl;
  same_n = refl;
  same_max = refl;
  same_comp = refl;
  same_value_comp = refl;
  same_freed = refl;
}

list_free-Frees_example :
    (f : Frees two_nodes (list_free 3 two_head two_nodes) 2 (3 ∷ 1 ∷ []) (carol ∷ bob ∷ []))
    × (f.heap.freed ≡ ItemList.list_free carol_and_bob)
list_free-Frees_example =
    list_free-Frees 3 two_nodes two_head (3 ∷ 1 ∷ []) carol_and_bob (omega arith)
      two_nodes-Represents
