-- ===== src/Client/Session/Rounds.antt =====
-- The notifications of client/psd_ims_client.c keep the client's invariant.
use psd_ims.Client.Session.Restore.{by_friend}
use psd_ims.Client.Members.{MemberInfo}
use psd_ims.Client.Requests.{FriendRequests}
use psd_ims.ItemList.Lookup.{IsMap}
use psd_ims.Prelude.{
  true, false, true, WhenSome, ◌≡◌, ℕ, suc, refl, Bool, Option, none, some, List, [], ◌∷◌, arith,
  inl, inr, Option-cases,
}
use psd_ims.Prelude.Int.{ℤ}
use psd_ims.Client.Friends.{FriendInfo, fri_find_friend, Friends}
use psd_ims.Client.Chats.{ChatInfo, cha_add_member, cha_change_admin, cha_del_member, cha_find_chat}
use psd_ims.Client.Chats.Hold.{
  ChatHolds, cha_add_member-ChatHolds, cha_change_admin-ChatHolds, cha_del_member-ChatHolds,
}
use psd_ims.Client.Network.{lift, NotifMemberInfo, NotifChatInfo, Run, Stubs, ReceivedNotifications}
use psd_ims.Client.Network.Calls.{net_get_chat_list}
use psd_ims.Client.Session.State.{PsdImsClient}
use psd_ims.Client.Session.Notifications.{
  keep_chats, chat_loops, add_new_friends, add_requests, Change, Grants, RoundGrants, change_chat,
  fetch_missing, for_chats, has_messages, keep_notifications, lost_member, new_admin, new_member,
  psd_recv_chats, read_by_all,
}
use psd_ims.Client.Session.Holds.{
  by_request, Holds, KeepsChat, add_new_friends-IsMap, add_requests-IsMap, change_chat-Holds,
  keep_chats-Holds,
}

-- What holds of the result, if there is one.
abbrev pub After : {W X : Type 0} → (X → Type 0) → Option (X × W) → Type 0
After P none = Unit
After P (some (x, w)) = P x

module _ {W : Type 0} where
  pub After-bind :
      {X Y : Type 0} (P : Y → Type 0) (r : Option (X × W)) (f : X → Run W Y)
      → ((x : X) (w : W) → After P (f x w))
      → After P (elim r [ none ↦ none | some (x, w) ↦ f x w ])
  After-bind P none f h = tt
  After-bind P (some (x, w)) f h = h x w

  -- The same where something is known of the first result.
  pub After-next :
      {X Y : Type 0} (P : X → Type 0) (Q : Y → Type 0) (r : Option (X × W)) (f : X → Run W Y)
      → After P r
      → ((x : X) (w : W) → P x → After Q (f x w))
      → After Q (elim r [ none ↦ none | some (x, w) ↦ f x w ])
  After-next P Q none f h k = tt
  After-next P Q (some (x, w)) f h k = k x w h

  pub After-option :
      {X Y : Type 0} (P : Y → Type 0) (o : Option X) (f : X → Run W Y) (w : W)
      → ((x : X) → After P (f x w))
      → After P (elim o [ none ↦ none | some x ↦ f x w ])
  After-option P none f w h = tt
  After-option P (some x) f w h = h x

  pub After-option-next :
      {X Y : Type 0} (P : X → Type 0) (Q : Y → Type 0) (o : Option X) (f : X → Run W Y) (w : W)
      → WhenSome P o
      → ((x : X) → P x → After Q (f x w))
      → After Q (elim o [ none ↦ none | some x ↦ f x w ])
  After-option-next P Q none f w h k = tt
  After-option-next P Q (some x) f w h k = k x h

  pub After-lift :
      {X : Type 0} (P : X → Type 0) (o : Option X) (w : W)
      → WhenSome P o
      → After P (lift {W = W} o w)
  After-lift P none w h = tt
  After-lift P (some x) w h = h

  -- For `first` and `keeping`.
  pub first-After :
      {X : Type 0} (P : PsdImsClient → Type 0) (r : Option ((PsdImsClient × X) × W))
      → After (λ x. P x.0) r
      → After P (elim r [ none ↦ none | some ((c, x), w2) ↦ some (c, w2) ])
  first-After P none h = tt
  first-After P (some ((c, x), w2)) h = h

  pub keeping-After :
      {X : Type 0} (P : PsdImsClient → Type 0) (c : PsdImsClient) (r : Option (X × W))
      → P c
      → After P (elim r [ none ↦ none | some (x, w2) ↦ some (c, w2) ])
  keeping-After P c none h = tt
  keeping-After P c (some (x, w2)) h = h

-- The invariant of a client that comes with a value.
abbrev pub HoldsFirst : {X : Type 0} → PsdImsClient × X → Type 0
HoldsFirst r = Holds r.0

pub new_member-Keeps :
    (friends : Friends) (e : NotifMemberInfo) (granted : Bool)
    → KeepsChat (λ chat. new_member friends chat e granted)
unfolding cha_add_member
new_member-Keeps friends e granted = elim (Option-cases e.name) [
  | inr (name, q) ↦ record {
    id = λ c. rw (q, new_member) refl;
    holds = λ c h.
        rw (q, new_member)
          (cha_add_member-ChatHolds c (fri_find_friend friends name) name granted h);
  }
  | inl q ↦ go friends.items refl q granted
]
  where
    go :
        (fs : List FriendInfo)
        → friends.items ≡ fs
        → e.name ≡ none
        → (b : Bool) → KeepsChat (λ chat. new_member friends chat e b)
    go [] p q true = record {
      id = λ c. rw (q, p, new_member) tt;
      holds = λ c h. rw (q, p, new_member) tt;
    }
    go [] p q false = record {
      id = λ c. rw (q, p, new_member) refl;
      holds = λ c h. rw (q, p, new_member) h;
    }
    go (f ∷ fs) p q b = record {
      id = λ c. rw (q, p, new_member) tt;
      holds = λ c h. rw (q, p, new_member) tt;
    }

-- What the two other changes do where the name is NULL.
abbrev null_compared : ChatInfo → Option ChatInfo
null_compared chat = elim chat.members.items [ [] ↦ some chat | member ∷ rest ↦ none ]

null_compared-When : (P : ChatInfo → Type 0) (c : ChatInfo) → P c → WhenSome P (null_compared c)
null_compared-When P c h = go c.members.items
  where
    go : (ms : List MemberInfo) → WhenSome P (elim ms [ [] ↦ some c | member ∷ rest ↦ none ])
    go [] = h
    go (m ∷ ms) = tt

pub lost_member-Keeps :
    (friends : Friends) (e : NotifMemberInfo) (granted : Bool)
    → KeepsChat (λ chat. lost_member friends chat e granted)
unfolding cha_del_member
lost_member-Keeps friends e granted = elim (Option-cases e.name) [
  | inr (name, q) ↦ record {
    id = λ c. rw (q, lost_member) refl;
    holds = λ c h. rw (q, lost_member) (cha_del_member-ChatHolds c name h);
  }
  | inl q ↦ record {
    id = λ c. rw (q, lost_member) (null_compared-When (λ d. d.id ≡ c.id) c refl);
    holds = λ c h. rw (q, lost_member) (null_compared-When ChatHolds c h);
  }
]

pub new_admin-Keeps :
    (friends : Friends) (e : NotifMemberInfo) (granted : Bool)
    → KeepsChat (λ chat. new_admin friends chat e granted)
unfolding cha_change_admin
new_admin-Keeps friends e granted = elim (Option-cases e.name) [
  | inr (name, q) ↦ record {
    id = λ c. rw (q, new_admin) (ground arith);
    holds = λ c h. rw (q, new_admin) (cha_change_admin-ChatHolds c name granted h);
  }
  | inl q ↦ record {
    id = λ c. rw (q, new_admin) (null_compared-When (λ d. d.id ≡ c.id) c refl);
    holds = λ c h. rw (q, new_admin) (null_compared-When ChatHolds c h);
  }
]

pub has_messages-Keeps :
    (friends : Friends) (e : NotifChatInfo) (granted : Bool)
    → KeepsChat (λ chat. has_messages friends chat e granted)
has_messages-Keeps friends e granted = record {
  id = λ c. refl;
  holds = λ c h. record { members = h.members; messages = h.messages };
}

pub read_by_all-Keeps :
    (friends : Friends) (e : NotifChatInfo) (granted : Bool)
    → KeepsChat (λ chat. read_by_all friends chat e granted)
read_by_all-Keeps friends e granted = record {
  id = λ c. refl;
  holds = λ c h. record { members = h.members; messages = h.messages };
}

-- The state before the five loops.
abbrev pub before_loops :
    PsdImsClient → ReceivedNotifications → FriendRequests → Friends → PsdImsClient
before_loops c n new_requests new_friends = record c {
  last_notif_timestamp = n.last_timestamp;
  requests = new_requests;
  friends = new_friends;
}

pub before_loops-Holds :
    (c : PsdImsClient) (n : ReceivedNotifications) (new_requests : FriendRequests)
    (new_friends : Friends)
    → Holds c
    → IsMap by_request new_requests
    → IsMap by_friend new_friends
    → Holds (before_loops c n new_requests new_friends)
before_loops-Holds c n new_requests new_friends h r f = record {
  friends = f;
  requests = r;
  chats = h.chats;
  network = h.network;
}

module _ {W : Type 0} (stubs : Stubs W) where
  pub psd_recv_chats-Holds :
      (c : PsdImsClient) (g : Grants) (w : W)
      → Holds c
      → After HoldsFirst (psd_recv_chats stubs c g w)
  unfolding psd_recv_chats
  psd_recv_chats-Holds c g w h =
      After-bind HoldsFirst
        (net_get_chat_list stubs c.network c.chats.list_info.timestamp g.answer w) _
        (λ answer w2.
          After-lift HoldsFirst (keep_chats c answer g) w2 (keep_chats-Holds c answer g h))

  pub fetch_missing-Holds :
      (c : PsdImsClient) (id : ℤ) (g : Grants) (w : W)
      → Holds c
      → After Holds (fetch_missing stubs c id g w)
  unfolding fetch_missing
  fetch_missing-Holds c id g w h = elim (Option-cases (cha_find_chat c.chats id)) [
    | inr (chat, e) ↦ rw (e, fetch_missing) h
    | inl e ↦
        rw (e, fetch_missing)
          (After-next HoldsFirst Holds (psd_recv_chats stubs c g w) (λ r w2. some (r.0, w2))
            (psd_recv_chats-Holds c g w h) (λ x w2 k. k))
  ]

  pub for_chats-Holds :
      {E : Type 0} (id : E → ℤ) (f : Change E) (c : PsdImsClient) (es : List E)
      (g : ℕ → RoundGrants) (i : ℕ) (w : W)
      → Holds c
      → ((friends : Friends) (e : E) (granted : Bool)
          → KeepsChat (λ chat. f friends chat e granted))
      → After Holds (for_chats stubs id f c es g i w)
  unfolding for_chats
  for_chats-Holds id f c [] g i w h k = h
  for_chats-Holds id f c (e ∷ es) g i w h k =
      After-next Holds Holds (fetch_missing stubs c (id e) (g i).fetch w) _
        (fetch_missing-Holds c (id e) (g i).fetch w h)
        (λ after w2 h2.
          After-option-next Holds Holds
            (change_chat after (id e) (λ chat. f after.friends chat e (g i).entry))
            (λ next. for_chats stubs id f next es g (suc i)) w2
            (change_chat-Holds after (id e) (λ chat. f after.friends chat e (g i).entry) h2
              (k after.friends e (g i).entry))
            (λ next h3. for_chats-Holds id f next es g (suc i) w2 h3 k))

  loops-Holds :
      (c : PsdImsClient) (n : ReceivedNotifications) (g : ℕ → ℕ → RoundGrants) (w : W)
      → Holds c
      → After HoldsFirst (chat_loops stubs c n g w)
  unfolding chat_loops
  loops-Holds c n g w h =
      After-next Holds HoldsFirst _ _
        (for_chats-Holds (λ e. e.chat_id) new_member c n.chat_members (g 0) 0 w h new_member-Keeps)
        (λ c2 w2 h2.
          After-next Holds HoldsFirst _ _
            (for_chats-Holds (λ e. e.chat_id) lost_member c2 n.rem_chat_members (g 1) 0 w2 h2
              lost_member-Keeps)
            (λ c3 w3 h3.
              After-next Holds HoldsFirst _ _
                (for_chats-Holds (λ e. e.chat_id) new_admin c3 n.chat_admins (g 2) 0 w3 h3
                  new_admin-Keeps)
                (λ c4 w4 h4.
                  After-next Holds HoldsFirst _ _
                    (for_chats-Holds (λ e. e.chat_id) has_messages c4 n.chats_with_messages (g 3) 0
                      w4 h4 has_messages-Keeps)
                    (λ c5 w5 h5.
                      After-next Holds HoldsFirst _ _
                        (for_chats-Holds (λ e. e.chat_id) read_by_all c5 n.chats_read_times (g 4) 0
                          w5 h5 read_by_all-Keeps)
                        (λ c6 w6 h6. h6)))))

  pub keep_notifications-Holds :
      (c : PsdImsClient) (n : ReceivedNotifications) (requests friends : ℕ → Bool)
      (g : ℕ → ℕ → RoundGrants) (w : W)
      → Holds c
      → After HoldsFirst (keep_notifications stubs c n requests friends g w)
  unfolding keep_notifications
  keep_notifications-Holds c n requests friends g w h =
      After-next (IsMap by_request) HoldsFirst _ _
        (After-lift (IsMap by_request) (add_requests c.requests n.friend_request requests 0) w
          (add_requests-IsMap c.requests n.friend_request requests 0 h.requests))
        (λ rs v1 hr.
          After-next (IsMap by_friend) HoldsFirst _ _
            (After-lift (IsMap by_friend) (add_new_friends c.friends n.new_friends friends 0) v1
              (add_new_friends-IsMap c.friends n.new_friends friends 0 h.friends))
            (λ fs v2 hf.
              loops-Holds (before_loops c n rs fs) n g v2 (before_loops-Holds c n rs fs h hr hf)))
