-- ===== src/Client/Session/SafeNews.antt =====
-- The notifications that client/psd_ims_client.c takes in without a fault.
use psd_ims.Client.Session.Restore.{by_friend}
use psd_ims.ItemList.Lookup.{IsMap}
use psd_ims.Prelude.{
  All, WhenSome, ℕ, suc, ◌≡◌, refl, Bool, true, Option, none, some, List, [], ◌∷◌, arith, inl, inr,
  Option-cases, Bool-cases, is_some,
}
use psd_ims.Prelude.Int.{ℤ}
use psd_ims.Client.Friends.{Friends}
use psd_ims.Client.Chats.{Chats, ChatInfo, cha_find_chat}
use psd_ims.Client.Network.{
  lift, NotifMemberInfo, NotifChatInfo, Network, Run, Stubs, ReceivedNotifications, pure, ◌>>=◌,
}
use psd_ims.Client.Network.Calls.{net_recv_notifications}
use psd_ims.Client.Session.State.{PsdImsClient}
use psd_ims.Client.Session.Notifications.{
  synced, add_requests, add_new_friends, chat_loops, Change, RoundGrants, change_chat,
  fetch_missing, for_chats, has_messages, keep_notifications, lost_member, new_admin, new_member,
  psd_recv_notifications, read_by_all,
}
use psd_ims.Client.Session.Holds.{
  add_new_friends-IsMap, add_requests-IsMap, by_request, Holds, KeepsChat, change_chat-Holds,
}
use psd_ims.Client.Session.Rounds.{
  before_loops, After-lift, before_loops-Holds, After, fetch_missing-Holds, for_chats-Holds,
  new_member-Keeps, lost_member-Keeps, new_admin-Keeps, has_messages-Keeps, read_by_all-Keeps,
}
use psd_ims.Client.Session.Whole.{
  Ends, WholeNews, Complete, add_requests-Ends, add_new_friends-Ends,
}
use psd_ims.Client.Session.Safe.{
  Ends-bind, Ends-next, Ends-lift, asked-Ends, asked-After, fetch_missing-Ends,
}

-- The three changes that read a name.
new_member-Ends :
    (friends : Friends) (chat : ChatInfo) (e : NotifMemberInfo) (granted : Bool)
    → is_some e.name ≡ true
    → Ends (new_member friends chat e granted)
new_member-Ends friends chat e granted h = elim (Option-cases e.name) [
  | inl n ↦ absurd (ground (arith, h, n))
  | inr (name, n) ↦ rw (n, new_member) refl
]

lost_member-Ends :
    (friends : Friends) (chat : ChatInfo) (e : NotifMemberInfo) (granted : Bool)
    → is_some e.name ≡ true
    → Ends (lost_member friends chat e granted)
lost_member-Ends friends chat e granted h = elim (Option-cases e.name) [
  | inl n ↦ absurd (ground (arith, h, n))
  | inr (name, n) ↦ rw (n, lost_member) refl
]

new_admin-Ends :
    (friends : Friends) (chat : ChatInfo) (e : NotifMemberInfo) (granted : Bool)
    → is_some e.name ≡ true
    → Ends (new_admin friends chat e granted)
new_admin-Ends friends chat e granted h = elim (Option-cases e.name) [
  | inl n ↦ absurd (ground (arith, h, n))
  | inr (name, n) ↦ rw (n, new_admin) refl
]

All-Unit : {A : Type 0} (xs : List A) → All (λ x. Unit {0}) xs
All-Unit [] = tt
All-Unit (x ∷ xs) = (tt, All-Unit xs)

synced-Ends : (l : Chats) → Ends (synced l true)
synced-Ends l = go l.items refl
  where
    go : (cs : List ChatInfo) → l.items ≡ cs → Ends (synced l true)
    go [] e = rw (e, synced) refl
    go (c ∷ cs) e = rw (e, synced) refl

Ends-option :
    {X Y : Type 0} (P : X → Type 0) (o : Option X) (f : X → Option Y)
    → Ends o
    → WhenSome P o
    → ((x : X) → P x → Ends (f x))
    → Ends (elim o [ none ↦ none | some x ↦ f x ])
Ends-option P none f e p h = e
Ends-option P (some x) f e p h = h x p

module _ {W : Type 0} (stubs : Stubs W) (whole_stubs : Complete stubs) where
  change_chat-Ends :
      (c : PsdImsClient) (id : ℤ) (f : ChatInfo → Option ChatInfo)
      → ((chat : ChatInfo) → Ends (f chat))
      → Ends (change_chat c id f)
  change_chat-Ends c id f h = elim (Option-cases (cha_find_chat c.chats id)) [
    | inl e ↦ rw (e, change_chat) refl
    | inr (chat, e) ↦ elim (Option-cases (f chat)) [
      | inl n ↦ absurd (ground (arith, n, h chat))
      | inr (after, n) ↦ rw (e, n, change_chat) refl
    ]
  ]

  for_chats-Ends :
      {E : Type 0} (Q : E → Type 0) (id : E → ℤ) (f : Change E) (c : PsdImsClient) (es : List E)
      (g : ℕ → RoundGrants) (i : ℕ) (w : W)
      → Holds c
      → ((friends : Friends) (e : E) (granted : Bool)
          → KeepsChat (λ chat. f friends chat e granted))
      → ((friends : Friends) (chat : ChatInfo) (e : E) (granted : Bool)
          → Q e
          → Ends (f friends chat e granted))
      → All Q es
      → Ends (for_chats stubs id f c es g i w)
  unfolding for_chats
  for_chats-Ends Q id f c [] g i w h k q a = refl
  for_chats-Ends Q id f c (e ∷ es) g i w h k q a =
      Ends-next Holds (fetch_missing stubs c (id e) (g i).fetch w) _
        (fetch_missing-Ends stubs whole_stubs c (id e) (g i).fetch w h)
        (fetch_missing-Holds stubs c (id e) (g i).fetch w h)
        (λ after w2 h2.
          let change : ChatInfo → Option ChatInfo = λ chat. f after.friends chat e (g i).entry in
          Ends-option Holds (change_chat after (id e) change)
            (λ next. for_chats stubs id f next es g (suc i) w2)
            (change_chat-Ends after (id e) change (λ chat. q after.friends chat e (g i).entry a.0))
            (change_chat-Holds after (id e) change h2 (k after.friends e (g i).entry))
            (λ next h3. for_chats-Ends Q id f next es g (suc i) w2 h3 k q a.1))

  -- One of the loops, and what follows it.
  loop-Ends :
      {E Y : Type 0} (Q : E → Type 0) (id : E → ℤ) (f : Change E) (c : PsdImsClient) (es : List E)
      (g : ℕ → RoundGrants) (w : W) (next : PsdImsClient → Run W Y)
      → Holds c
      → ((friends : Friends) (e : E) (granted : Bool)
          → KeepsChat (λ chat. f friends chat e granted))
      → ((friends : Friends) (chat : ChatInfo) (e : E) (granted : Bool)
          → Q e
          → Ends (f friends chat e granted))
      → All Q es
      → ((c2 : PsdImsClient) (w2 : W) → Holds c2 → Ends (next c2 w2))
      → Ends (elim (for_chats stubs id f c es g 0 w) [ none ↦ none | some (c2, w2) ↦ next c2 w2 ])
  loop-Ends Q id f c es g w next h k q a n =
      Ends-next Holds (for_chats stubs id f c es g 0 w) next
        (for_chats-Ends Q id f c es g 0 w h k q a) (for_chats-Holds stubs id f c es g 0 w h k) n

  loops-Ends :
      (c : PsdImsClient) (n : ReceivedNotifications) (g : ℕ → ℕ → RoundGrants) (w : W)
      → Holds c
      → WholeNews n
      → Ends (chat_loops stubs c n g w)
  unfolding chat_loops
  loops-Ends c n g w h k =
      loop-Ends (λ e. is_some e.name ≡ true) (λ e. e.chat_id) new_member c n.chat_members (g 0) w _
        h new_member-Keeps new_member-Ends k.members
        (λ c2 w2 h2.
          loop-Ends (λ e. is_some e.name ≡ true) (λ e. e.chat_id) lost_member c2 n.rem_chat_members
            (g 1) w2 _ h2 lost_member-Keeps lost_member-Ends k.rem_members
            (λ c3 w3 h3.
              loop-Ends (λ e. is_some e.name ≡ true) (λ e. e.chat_id) new_admin c3 n.chat_admins
                (g 2) w3 _ h3 new_admin-Keeps new_admin-Ends k.admins
                (λ c4 w4 h4.
                  loop-Ends (λ e. Unit) (λ e. e.chat_id) has_messages c4 n.chats_with_messages (g 3)
                    w4 _ h4 has_messages-Keeps (λ friends chat e granted q. refl)
                    (All-Unit n.chats_with_messages)
                    (λ c5 w5 h5.
                      loop-Ends (λ e. Unit) (λ e. e.chat_id) read_by_all c5 n.chats_read_times (g 4)
                        w5 _ h5 read_by_all-Keeps (λ friends chat e granted q. refl)
                        (All-Unit n.chats_read_times) (λ c6 w6 h6. refl)))))

  pub keep_notifications-Ends :
      (c : PsdImsClient) (n : ReceivedNotifications) (requests friends : ℕ → Bool)
      (g : ℕ → ℕ → RoundGrants) (w : W)
      → Holds c
      → WholeNews n
      → Ends (keep_notifications stubs c n requests friends g w)
  unfolding keep_notifications
  keep_notifications-Ends c n requests friends g w h k =
      let rs = add_requests c.requests n.friend_request requests 0 in
      let us = add_new_friends c.friends n.new_friends friends 0 in
      Ends-next (IsMap by_request) (lift rs w) _
        (Ends-lift rs w (add_requests-Ends c.requests n.friend_request requests 0 k.requests))
        (After-lift (IsMap by_request) rs w
          (add_requests-IsMap c.requests n.friend_request requests 0 h.requests))
        (λ r v1 hr.
          Ends-next (IsMap by_friend) (lift us v1) _
            (Ends-lift us v1 (add_new_friends-Ends c.friends n.new_friends friends 0 k.friends))
            (After-lift (IsMap by_friend) us v1
              (add_new_friends-IsMap c.friends n.new_friends friends 0 h.friends))
            (λ f v2 hf.
              loops-Ends (before_loops c n r f) n g v2 (before_loops-Holds c n r f h hr hf) k))

  net_recv_notifications-Ends :
      (c : PsdImsClient) (sent : List NotifChatInfo) (answer sync : Bool) (w : W)
      → Holds c
      → Ends (net_recv_notifications stubs c.network c.last_notif_timestamp sent answer sync w)
  unfolding net_recv_notifications
  net_recv_notifications-Ends c sent answer sync w h = elim (Bool-cases answer) [
    | inl t ↦
        rw (t, net_recv_notifications)
          (asked-Ends stubs whole_stubs c.network
            (stubs.call_get_pending_notifications c.last_notif_timestamp sent) sync w h.network)
    | inr f ↦ ground (arith, f)
  ]

  pub net_recv_notifications-After :
      (net : Network) (t : ℤ) (sent : List NotifChatInfo) (answer sync : Bool) (w : W)
      → After (WhenSome WholeNews) (net_recv_notifications stubs net t sent answer sync w)
  unfolding net_recv_notifications
  net_recv_notifications-After net t sent answer sync w = elim (Bool-cases answer) [
    | inl e ↦
        rw (e, net_recv_notifications)
          (asked-After stubs whole_stubs WholeNews net (stubs.call_get_pending_notifications t sent)
            sync w (whole_stubs.news t sent))
    | inr e ↦ elim (Bool-cases net.logged) [
      | inl l ↦ rw (e, l, net_recv_notifications) tt
      | inr l ↦ rw (e, l, net_recv_notifications) tt
    ]
  ]

  pub psd_recv_notifications-Ends :
      (c : PsdImsClient) (answer sync : Bool) (requests friends : ℕ → Bool)
      (g : ℕ → ℕ → RoundGrants) (w : W)
      → Holds c
      → Ends (psd_recv_notifications stubs c true answer sync requests friends g w)
  unfolding psd_recv_notifications
  psd_recv_notifications-Ends c answer sync requests friends g w h =
      Ends-bind (lift (synced c.chats true) w) _
        (Ends-lift (synced c.chats true) w (synced-Ends c.chats))
        (λ sent w1.
          Ends-next (WhenSome WholeNews)
            (net_recv_notifications stubs c.network c.last_notif_timestamp sent answer sync w1) _
            (net_recv_notifications-Ends c sent answer sync w1 h)
            (net_recv_notifications-After c.network c.last_notif_timestamp sent answer sync w1) go)
    where
      go :
          (received : Option ReceivedNotifications) (w2 : W)
          → WhenSome WholeNews received
          → Ends (
              (elim received as (λ r. Run W (PsdImsClient × Option ℕ)) [
                | none ↦ pure (c, none)
                | some n ↦ do
                  (after, total) ← keep_notifications stubs c n requests friends g
                  pure (after, some total)
              ])
                w2)
      go none w2 k = refl
      go (some n) w2 k =
          Ends-bind (keep_notifications stubs c n requests friends g w2) _
            (keep_notifications-Ends c n requests friends g w2 h k) (λ r w3. refl)
