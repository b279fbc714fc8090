-- ===== src/Client/Session/FetchedMessages.antt =====
-- The calls of client/psd_ims_client.c that fetch friends and messages keep the client's invariant.
use psd_ims.ItemList.{failed, ok}
use psd_ims.Client.Network.Sound.{text_at}
use psd_ims.Prelude.{
  none, ◌≡◌, WhenSome-next, WhenSome, ℕ, suc, Bool, true, false, Option, List, [], ◌∷◌, map, inl,
  inr, Bool-cases, Option-cases, if◌then◌else◌, ltb,
}
use psd_ims.Prelude.Int.{ℤ, pos, ltb_ℤ}
use psd_ims.ItemList.Find.{Status-cases}
use psd_ims.ItemList.Lookup.{IsMap}
use psd_ims.Client.Common.{delete_value-IsMap}
use psd_ims.Client.Friends.{Friends, fri_del_friend}
use psd_ims.Client.Chats.{Incoming, cha_add_messages, ChatInfo, cha_find_chat}
use psd_ims.Client.Chats.Hold.{by_time, ChatHolds, cha_find_chat-ChatHolds, write_chat-ChatsHold}
use psd_ims.Client.Chats.Kept.{cha_add_messages-ChatHolds}
use psd_ims.Client.Network.{pure, Stubs}
use psd_ims.Client.Network.Calls.{net_recv_pending_messages, net_get_friend_list}
use psd_ims.Client.Session.{
  add_received_user, some, keep_incoming, Status, ReceivedUser, ReceivedMessages, ReceivedFriends,
  psd_recv_friends, add_friends, restore,
}
use psd_ims.Client.Session.Receive.{recv_messages-When, recv_messages_id}
use psd_ims.Client.Session.Restore.{by_friend}
use psd_ims.Client.Session.State.{PsdImsClient}
use psd_ims.Client.Session.Fetching.{MessageGrants, fetch_each, fetch_messages, keep_messages}
use psd_ims.Client.Session.Holds.{add_received_user-IsMap, Holds, set_timestamp-IsMap, with_chats}
use psd_ims.Client.Session.Rounds.{After-lift, After, After-bind, After-next, HoldsFirst}
use psd_ims.Client.Session.Fetching.{
  fetch_chat, fetch_pending, fetch_friends, psd_recv_all_messages, psd_recv_all_pending_messages,
}

keep_incoming-ChatHolds :
    (list : ReceivedMessages) (ms : List Incoming) (granted : ℕ → Bool) (c : ChatInfo)
    → ChatHolds c
    → ChatHolds (keep_incoming list ms granted c).0
keep_incoming-ChatHolds list ms granted c h =
    let k = cha_add_messages-ChatHolds c ms granted h in
    elim (Status-cases (cha_add_messages c ms granted).1) [
      | inr f ↦ rw (f, keep_incoming) k
      | inl f ↦
          rw (f, keep_incoming)
            (record {
              members = k.members;
              messages = set_timestamp-IsMap by_time _ list.last_timestamp k.messages;
            })
    ]

keep_messages-Holds :
    (c : PsdImsClient) (chat : ChatInfo) (r : Option (ChatInfo × ℤ))
    → Holds c
    → WhenSome (λ x. ChatHolds x.0) r
    → WhenSome (λ x. x.0.id ≡ chat.id) r
    → WhenSome (λ x. Holds x.0) (keep_messages c chat.id r)
keep_messages-Holds c chat none h k e = tt
keep_messages-Holds c chat (some (after, value)) h k e =
    with_chats c _ h (write_chat-ChatsHold c.chats chat.id after h.chats e k)

restore-IsMap :
    (l : Friends) (us : List ReceivedUser) → IsMap by_friend l → IsMap by_friend (restore l us).0
unfolding restore fri_del_friend
restore-IsMap l [] m = m
restore-IsMap l (u ∷ us) m = elim (Option-cases u.name) [
  | inl n ↦ rw (n, restore) m
  | inr (name, n) ↦
      let k = delete_value-IsMap by_friend l name m in
      elim (Status-cases (fri_del_friend l name).1) [
        | inl e ↦ rw (n, e, restore) (restore-IsMap (fri_del_friend l name).0 us k)
        | inr e ↦ rw (n, e, restore) k
      ]
]

add_friends-IsMap :
    (l : Friends) (us done : List ReceivedUser) (granted : ℕ → Bool) (i : ℕ)
    → IsMap by_friend l
    → WhenSome (λ r. IsMap by_friend r.friends) (add_friends l us done granted i)
unfolding add_friends
add_friends-IsMap l [] done granted i m = m
add_friends-IsMap l (u ∷ us) done granted i m =
    go (add_received_user l u (granted i)) (add_received_user-IsMap l u (granted i) m)
      (λ after k. add_friends-IsMap after us (u ∷ done) granted (suc i) k)
  where
    go :
        (o : Option (Friends × Status))
        → WhenSome (λ x. IsMap by_friend x.0) o
        → ((after : Friends)
            → IsMap by_friend after
            → WhenSome
                (λ r. IsMap by_friend r.friends)
                (add_friends after us (u ∷ done) granted (suc i)))
        → WhenSome
            (λ r. IsMap by_friend r.friends)
            (elim o [
              | none ↦ none
              | some (after, ok) ↦ add_friends after us (u ∷ done) granted (suc i)
              | some (after, failed) ↦ some (record { friends = after; added = done; all = false })
            ])
    go none k rest = tt
    go (some (after, ok)) k rest = rest after k
    go (some (after, failed)) k rest = k

psd_recv_friends-IsMap :
    (net : (timestamp : ℤ) → Option ReceivedFriends) (granted : ℕ → Bool) (l : Friends)
    → IsMap by_friend l
    → WhenSome (λ x. IsMap by_friend x.0) (psd_recv_friends net granted l)
unfolding psd_recv_friends
psd_recv_friends-IsMap net granted l m = elim (Option-cases (net l.list_info.timestamp)) [
  | inl e ↦ rw (e, psd_recv_friends) m
  | inr (received, e) ↦
      rw (e, psd_recv_friends)
        (WhenSome-next (λ r. IsMap by_friend r.friends) (λ x. IsMap by_friend x.0)
          (add_friends l received.user [] granted 0) _
          (add_friends-IsMap l received.user [] granted 0 m)
          (λ r k. elim (Bool-cases r.all) [
            | inl t ↦ rw (t) (set_timestamp-IsMap by_friend _ received.last_timestamp k)
            | inr t ↦ rw (t) (restore-IsMap r.friends r.added k)
          ]))
]

module _ {W : Type 0} (stubs : Stubs W) where
  fetch_messages-Holds :
      (c : PsdImsClient) (chat : ChatInfo) (g : MessageGrants) (w : W)
      → Holds c
      → ChatHolds chat
      → After HoldsFirst (fetch_messages stubs c chat g w)
  unfolding fetch_messages
  fetch_messages-Holds c chat g w h k =
      After-bind HoldsFirst
        (net_recv_pending_messages stubs c.network chat.id chat.messages.list_info.timestamp
          g.answer w)
        _
        (λ answer w2. After-lift HoldsFirst _ w2 (
          keep_messages-Holds c chat _ h
            (recv_messages-When ChatHolds (text_at c.user_name) (λ id timestamp. answer) g.arrays
              g.messages chat k (λ list ms. keep_incoming-ChatHolds list ms g.messages chat k))
            (recv_messages_id (text_at c.user_name) (λ id timestamp. answer) g.arrays g.messages
              chat)))

  pub fetch_chat-Holds :
      (c : PsdImsClient) (chat_id : ℤ) (g : MessageGrants) (w : W)
      → Holds c
      → After HoldsFirst (fetch_chat stubs c chat_id g w)
  unfolding fetch_chat
  fetch_chat-Holds c chat_id g w h = elim (Option-cases (cha_find_chat c.chats chat_id)) [
    | inl e ↦ rw (e, fetch_chat) h
    | inr (chat, e) ↦
        rw (e, fetch_chat)
          (fetch_messages-Holds c chat g w h
            (cha_find_chat-ChatHolds c.chats chat_id chat h.chats e))
  ]

  pub fetch_pending-Holds :
      (c : PsdImsClient) (chat_id : ℤ) (g : MessageGrants) (w : W)
      → Holds c
      → After HoldsFirst (fetch_pending stubs c chat_id g w)
  unfolding fetch_pending
  fetch_pending-Holds c chat_id g w h = elim (Option-cases (cha_find_chat c.chats chat_id)) [
    | inl e ↦ rw (e, fetch_pending) h
    | inr (chat, e) ↦ elim (Bool-cases (ltb 0 chat.pending_messages)) [
      | inl t ↦
          rw (e, t, fetch_pending)
            (fetch_messages-Holds c chat g w h
              (cha_find_chat-ChatHolds c.chats chat_id chat h.chats e))
      | inr f ↦ rw (e, f, fetch_pending) h
    ]
  ]

  fetch_each-Holds :
      (only_pending : Bool) (c : PsdImsClient) (ids : List ℤ) (g : ℕ → MessageGrants) (i : ℕ)
      (value : ℤ) (w : W)
      → Holds c
      → After HoldsFirst (fetch_each stubs only_pending c ids g i value w)
  unfolding fetch_each
  fetch_each-Holds only_pending c [] g i value w h = h
  fetch_each-Holds true c (id ∷ ids) g i value w h =
      After-next HoldsFirst HoldsFirst (fetch_pending stubs c id (g i) w) _
        (fetch_pending-Holds c id (g i) w h)
        (λ r w2 k.
          fetch_each-Holds true r.0 ids g (suc i) (if ltb_ℤ r.1 (pos 0) then r.1 else value) w2 k)
  fetch_each-Holds false c (id ∷ ids) g i value w h =
      After-next HoldsFirst HoldsFirst (fetch_chat stubs c id (g i) w) _
        (fetch_chat-Holds c id (g i) w h)
        (λ r w2 k.
          fetch_each-Holds false r.0 ids g (suc i) (if ltb_ℤ r.1 (pos 0) then r.1 else value) w2 k)

  pub psd_recv_all_messages-Holds :
      (c : PsdImsClient) (g : ℕ → MessageGrants) (w : W)
      → Holds c
      → After HoldsFirst (psd_recv_all_messages stubs c g w)
  unfolding psd_recv_all_messages
  psd_recv_all_messages-Holds c g w h =
      fetch_each-Holds false c (map (λ chat. chat.id) c.chats.items) g 0 (pos 0) w h

  pub psd_recv_all_pending_messages-Holds :
      (c : PsdImsClient) (g : ℕ → MessageGrants) (w : W)
      → Holds c
      → After HoldsFirst (psd_recv_all_pending_messages stubs c g w)
  unfolding psd_recv_all_pending_messages
  psd_recv_all_pending_messages-Holds c g w h =
      fetch_each-Holds true c (map (λ chat. chat.id) c.chats.items) g 0 (pos 0) w h

  pub fetch_friends-Holds :
      (c : PsdImsClient) (answer : Bool) (granted : ℕ → Bool) (w : W)
      → Holds c
      → After HoldsFirst (fetch_friends stubs c answer granted w)
  unfolding fetch_friends
  fetch_friends-Holds c answer granted w h =
      After-bind HoldsFirst
        (net_get_friend_list stubs c.network c.friends.list_info.timestamp answer w) _
        (λ received w2.
          After-next (λ x. IsMap by_friend x.0) HoldsFirst _
            (λ x. pure (record c { friends = x.0 }, x.1))
            (After-lift (λ x. IsMap by_friend x.0)
              (psd_recv_friends (λ timestamp. received) granted c.friends) w2
              (psd_recv_friends-IsMap (λ timestamp. received) granted c.friends h.friends))
            (λ x w3 k. record {
              friends = k;
              requests = h.requests;
              chats = h.chats;
              network = h.network;
            }))
