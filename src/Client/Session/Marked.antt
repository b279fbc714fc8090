-- ===== src/Client/Session/Marked.antt =====
-- What the notifications of client/psd_ims_client.c do to the chats that the client knows.
use psd_ims.Client.Session.Restore.{by_friend}
use psd_ims.ItemList.Lookup.{IsMap}
use mathlib.Core.Path.{subst}
use psd_ims.Prelude.{
  ◌∙◌, map, if◌then◌else◌, WhenSome, ℕ, suc, ◌+◌, ◌≡◌, refl, sym, ap, Bool, true, Option, none,
  some, List, [], ◌∷◌, length, arith, inl, inr, Option-cases, Bool-cases, is_some,
}
use psd_ims.Prelude.Int.{ℤ, same_int, same_int_sound}
use psd_ims.ItemList.{find_node}
use psd_ims.Client.Friends.{Friends}
use psd_ims.Client.Chats.{Chats, ChatInfo, cha_find_chat}
use psd_ims.Client.Network.Calls.{net_get_chat_list, net_recv_notifications}
use psd_ims.Client.Network.{lift}
use psd_ims.Client.Session.Whole.{WholeNews, Complete}
use psd_ims.Client.Session.SafeNews.{net_recv_notifications-After, keep_notifications-Ends}
use psd_ims.Client.Session.Notifications.{
  keep_chats, add_new_friends, synced, chat_loops, add_requests, sync_of, psd_recv_notifications,
}
use psd_ims.Client.Network.{ReceivedNotifications, NotifChatInfo, Run, Stubs}
use psd_ims.Client.Session.State.{PsdImsClient}
use psd_ims.Client.Session.Notifications.{
  new_member, lost_member, new_admin, read_by_all, Change, Grants, RoundGrants, change_chat,
  fetch_missing, for_chats, has_messages, keep_notifications, psd_recv_chats,
}
use psd_ims.Client.Session.Holds.{
  add_new_friends-IsMap, add_requests-IsMap, by_request, keep_chats-Holds, Holds, KeepsChat,
  change_chat-Holds,
}
use psd_ims.Client.Session.Rounds.{
  After-lift, After-option-next, keep_notifications-Holds, new_member-Keeps, lost_member-Keeps,
  new_admin-Keeps, has_messages-Keeps, read_by_all-Keeps, before_loops, before_loops-Holds, After,
  After-bind, After-next,
}
use psd_ims.Client.Session.Shown.{
  shown, known, pending, change_chat-shown, change_chat-shows, keep_chats-shown,
}

-- The client is as it should be, and a chat shows what it has shown.
abbrev pub Shows : (ChatInfo → Bool) → ℤ → PsdImsClient → Type 0
Shows p id c = Holds c × (shown p id c.chats ≡ true)

-- The number that `psd_recv_notifications` returns.
abbrev pub counted : ReceivedNotifications → ℕ
counted n =
    length n.friend_request
    + length n.new_friends
    + length n.chat_admins
    + length n.chats_read_times

-- What notifications that come in do to the client.
pub record Notified {W : Type 0} (c : PsdImsClient) (n : ReceivedNotifications)
    (r : Option ((PsdImsClient × Option ℕ) × W)) : Type 0 where
  pub after : PsdImsClient
  pub world : W
  pub runs : r ≡ some ((after, some (counted n)), world)
  pub holds : Holds after
  pub marks :
      (id : ℤ)
      → shown known id c.chats ≡ true
      → is_some (find_node (λ e. same_int e.chat_id id) n.chats_with_messages) ≡ true
      → shown pending id after.chats ≡ true

WhenSome-both :
    {A : Type 0} (P Q : A → Type 0) (o : Option A)
    → WhenSome P o
    → WhenSome Q o
    → WhenSome (λ x. P x × Q x) o
WhenSome-both P Q none h k = tt
WhenSome-both P Q (some x) h k = (h, k)

module _ {W : Type 0} (stubs : Stubs W) where
  fetch_missing-Shows :
      (p : ChatInfo → Bool) (other : ℤ) (c : PsdImsClient) (id : ℤ) (g : Grants) (w : W)
      → Shows p other c
      → After (Shows p other) (fetch_missing stubs c id g w)
  unfolding fetch_missing psd_recv_chats
  fetch_missing-Shows p other c id g w s = elim (Option-cases (cha_find_chat c.chats id)) [
    | inr (chat, e) ↦ rw (e, fetch_missing) s
    | inl e ↦
        rw (e, fetch_missing)
          (After-next (λ r. Shows p other r.0) (Shows p other) (psd_recv_chats stubs c g w)
            (λ r w2. some (r.0, w2))
            (After-bind (λ r. Shows p other r.0)
              (net_get_chat_list stubs c.network c.chats.list_info.timestamp g.answer w) _
              (λ answer w2.
                After-lift (λ r. Shows p other r.0) (keep_chats c answer g) w2
                  (WhenSome-both (λ r. Holds r.0) (λ r. shown p other r.0.chats ≡ true) _
                    (keep_chats-Holds c answer g s.0)
                    (keep_chats-shown p c answer g other s.0 s.1))))
            (λ r w2 k. k))
  ]

  -- A loop keeps what is shown, if its change does.
  for_chats-Shows :
      {E : Type 0} (p : ChatInfo → Bool) (other : ℤ) (id : E → ℤ) (f : Change E) (c : PsdImsClient)
      (es : List E) (g : ℕ → RoundGrants) (i : ℕ) (w : W)
      → Shows p other c
      → ((friends : Friends) (e : E) (granted : Bool)
          → KeepsChat (λ chat. f friends chat e granted))
      → ((friends : Friends) (e : E) (granted : Bool) (chat : ChatInfo)
          → p chat ≡ true
          → WhenSome (λ d. p d ≡ true) (f friends chat e granted))
      → After (Shows p other) (for_chats stubs id f c es g i w)
  unfolding for_chats
  for_chats-Shows p other id f c [] g i w s k q = s
  for_chats-Shows p other id f c (e ∷ es) g i w s k q =
      After-next (Shows p other) (Shows p other) (fetch_missing stubs c (id e) (g i).fetch w) _
        (fetch_missing-Shows p other c (id e) (g i).fetch w s)
        (λ after w2 s2.
          let f2 : ChatInfo → Option ChatInfo = λ chat. f after.friends chat e (g i).entry in
          let k2 = k after.friends e (g i).entry in
          After-option-next (Shows p other) (Shows p other) (change_chat after (id e) f2)
            (λ next. for_chats stubs id f next es g (suc i)) w2
            (WhenSome-both Holds (λ d. shown p other d.chats ≡ true) _
              (change_chat-Holds after (id e) f2 s2.0 k2)
              (change_chat-shown p after (id e) other f2 s2.0 k2 (q after.friends e (g i).entry)
                s2.1))
            (λ next s3. for_chats-Shows p other id f next es g (suc i) w2 s3 k q))

  -- What is known before the loop over the chats with messages is marked by it.
  marks :
      (c : PsdImsClient) (es : List NotifChatInfo) (g : ℕ → RoundGrants) (i : ℕ) (w : W) (id : ℤ)
      → Shows known id c
      → is_some (find_node (λ e. same_int e.chat_id id) es) ≡ true
      → After (Shows pending id) (for_chats stubs (λ e. e.chat_id) has_messages c es g i w)
  unfolding for_chats find_node
  marks c [] g i w id s m = absurd (ground (arith, m))
  marks c (e ∷ es) g i w id s m =
      After-next (Shows known id) (Shows pending id) (fetch_missing stubs c e.chat_id (g i).fetch w)
        _ (fetch_missing-Shows known id c e.chat_id (g i).fetch w s)
        (λ after w2 s2.
          let f : ChatInfo → Option ChatInfo =
            λ chat. has_messages after.friends chat e (g i).entry in
          let k = has_messages-Keeps after.friends e (g i).entry in
          let h = change_chat-Holds after e.chat_id f s2.0 k in
          let rest : PsdImsClient → Run W PsdImsClient =
            λ next. for_chats stubs (λ x. x.chat_id) has_messages next es g (suc i) in
          elim (Bool-cases (same_int e.chat_id id)) [
            | inl t ↦
                After-option-next (Shows pending id) (Shows pending id)
                  (change_chat after e.chat_id f) rest w2
                  (WhenSome-both Holds (λ d. shown pending id d.chats ≡ true) _ h
                    (subst
                      (λ x.
                        WhenSome (λ d. shown pending x d.chats ≡ true)
                          (change_chat after e.chat_id f))
                      (same_int_sound e.chat_id id t)
                      (change_chat-shows pending after e.chat_id f s2.0 k (λ chat. refl)
                        (subst (λ x. shown known x after.chats ≡ true)
                          (sym (same_int_sound e.chat_id id t)) s2.1))))
                  (λ next s3.
                    for_chats-Shows pending id (λ x. x.chat_id) has_messages next es g (suc i) w2 s3
                      has_messages-Keeps (λ friends x granted chat q. refl))
            | inr t ↦
                After-option-next (Shows known id) (Shows pending id)
                  (change_chat after e.chat_id f) rest w2
                  (WhenSome-both Holds (λ d. shown known id d.chats ≡ true) _ h
                    (change_chat-shown known after e.chat_id id f s2.0 k (λ chat q. refl) s2.1))
                  (λ next s3. marks next es g (suc i) w2 id s3 (ground (arith, m, t)))
          ])

  known_kept :
      {E : Type 0} (f : Change E) (friends : Friends) (e : E) (granted : Bool) (chat : ChatInfo)
      → known chat ≡ true
      → WhenSome (λ d. known d ≡ true) (f friends chat e granted)
  known_kept f friends e granted chat q = elim (Option-cases (f friends chat e granted)) [
    | inl n ↦ rw (n) tt
    | inr (d, n) ↦ rw (n) refl
  ]

  loops-Shows :
      (c : PsdImsClient) (n : ReceivedNotifications) (g : ℕ → ℕ → RoundGrants) (w : W) (id : ℤ)
      → Shows known id c
      → is_some (find_node (λ e. same_int e.chat_id id) n.chats_with_messages) ≡ true
      → After (λ r. Shows pending id r.0) (chat_loops stubs c n g w)
  unfolding chat_loops
  loops-Shows c n g w id s m =
      let P : PsdImsClient × ℕ → Type 0 = λ r. Shows pending id r.0 in
      After-next (Shows known id) P _ _
        (for_chats-Shows known id (λ e. e.chat_id) new_member c n.chat_members (g 0) 0 w s
          new_member-Keeps (known_kept new_member))
        (λ c2 w2 s2.
          After-next (Shows known id) P _ _
            (for_chats-Shows known id (λ e. e.chat_id) lost_member c2 n.rem_chat_members (g 1) 0 w2
              s2 lost_member-Keeps (known_kept lost_member))
            (λ c3 w3 s3.
              After-next (Shows known id) P _ _
                (for_chats-Shows known id (λ e. e.chat_id) new_admin c3 n.chat_admins (g 2) 0 w3 s3
                  new_admin-Keeps (known_kept new_admin))
                (λ c4 w4 s4.
                  After-next (Shows pending id) P _ _
                    (marks c4 n.chats_with_messages (g 3) 0 w4 id s4 m)
                    (λ c5 w5 s5.
                      After-next (Shows pending id) P _ _
                        (for_chats-Shows pending id (λ e. e.chat_id) read_by_all c5
                          n.chats_read_times (g 4) 0 w5 s5 read_by_all-Keeps (λ fs e b chat q. q))
                        (λ c6 w6 s6. s6)))))

  loops-total :
      (c : PsdImsClient) (n : ReceivedNotifications) (g : ℕ → ℕ → RoundGrants) (w : W)
      → After (λ r. r.1 ≡ counted n) (chat_loops stubs c n g w)
  unfolding chat_loops
  loops-total c n g w =
      let P : PsdImsClient × ℕ → Type 0 = λ r. r.1 ≡ counted n in
      After-bind P (for_chats stubs (λ e. e.chat_id) new_member c n.chat_members (g 0) 0 w) _
        (λ c2 w2.
          After-bind P
            (for_chats stubs (λ e. e.chat_id) lost_member c2 n.rem_chat_members (g 1) 0 w2) _
            (λ c3 w3.
              After-bind P (for_chats stubs (λ e. e.chat_id) new_admin c3 n.chat_admins (g 2) 0 w3)
                _
                (λ c4 w4.
                  After-bind P
                    (for_chats stubs (λ e. e.chat_id) has_messages c4 n.chats_with_messages (g 3) 0
                      w4)
                    _
                    (λ c5 w5.
                      After-bind P
                        (for_chats stubs (λ e. e.chat_id) read_by_all c5 n.chats_read_times (g 4) 0
                          w5)
                        _ (λ c6 w6. refl)))))

  keep_notifications-Shows :
      (c : PsdImsClient) (n : ReceivedNotifications) (requests friends : ℕ → Bool)
      (g : ℕ → ℕ → RoundGrants) (w : W) (id : ℤ)
      → Shows known id c
      → is_some (find_node (λ e. same_int e.chat_id id) n.chats_with_messages) ≡ true
      → After (λ r. Shows pending id r.0) (keep_notifications stubs c n requests friends g w)
  unfolding keep_notifications
  keep_notifications-Shows c n requests friends g w id s m =
      let P : PsdImsClient × ℕ → Type 0 = λ r. Shows pending id r.0 in
      let rs = add_requests c.requests n.friend_request requests 0 in
      let us = add_new_friends c.friends n.new_friends friends 0 in
      After-next (IsMap by_request) P (lift rs w) _
        (After-lift (IsMap by_request) rs w
          (add_requests-IsMap c.requests n.friend_request requests 0 s.0.requests))
        (λ r v1 hr.
          After-next (IsMap by_friend) P (lift us v1) _
            (After-lift (IsMap by_friend) us v1
              (add_new_friends-IsMap c.friends n.new_friends friends 0 s.0.friends))
            (λ f v2 hf.
              loops-Shows (before_loops c n r f) n g v2 id
                (before_loops-Holds c n r f s.0 hr hf, s.1) m))

  keep_notifications-total :
      (c : PsdImsClient) (n : ReceivedNotifications) (requests friends : ℕ → Bool)
      (g : ℕ → ℕ → RoundGrants) (w : W)
      → After (λ r. r.1 ≡ counted n) (keep_notifications stubs c n requests friends g w)
  unfolding keep_notifications
  keep_notifications-total c n requests friends g w =
      let P : PsdImsClient × ℕ → Type 0 = λ r. r.1 ≡ counted n in
      After-bind P (lift (add_requests c.requests n.friend_request requests 0) w) _ (λ r v1.
        After-bind P (lift (add_new_friends c.friends n.new_friends friends 0) v1) _
          (λ f v2. loops-total (before_loops c n r f) n g v2))

  kept-Notified :
      (c : PsdImsClient) (n : ReceivedNotifications) (r : Option ((PsdImsClient × ℕ) × W))
      → is_some r ≡ true
      → After (λ x. Holds x.0) r
      → After (λ x. x.1 ≡ counted n) r
      → ((id : ℤ)
          → shown known id c.chats ≡ true
          → is_some (find_node (λ e. same_int e.chat_id id) n.chats_with_messages) ≡ true
          → After (λ x. Shows pending id x.0) r)
      → Notified c n (elim r [ none ↦ none | some (x, w2) ↦ some ((x.0, some x.1), w2) ])
  kept-Notified c n none e h t m = absurd (ground (arith, e))
  kept-Notified c n (some ((after, total), w2)) e h t m = record {
    after = after;
    world = w2;
    runs = ground (arith, t);
    holds = h;
    marks = λ id k l. (m id k l).1;
  }

  Notified-bind :
      {X Y : Type 0} (o : Option (X × W)) (f : X → Run W Y) (x : X) (w : W)
      → o ≡ some (x, w)
      → elim o as (λ q. Option (Y × W)) [ none ↦ none | some (y, w2) ↦ f y w2 ] ≡ f x w
  Notified-bind {Y = Y} o f x w e =
      ap (λ q. elim q as (λ z. Option (Y × W)) [ none ↦ none | some (y, w2) ↦ f y w2 ]) e

  pub synced_lem : (l : Chats) (w : W) → lift {W = W} (synced l true) w ≡ some (sync_of l, w)
  synced_lem l w = go l.items
    where
      entry : ChatInfo → NotifChatInfo
      entry chat = record { chat_id = chat.id; timestamp = chat.read_timestamp }

      go :
          (cs : List ChatInfo)
          → lift {W = W}
              (elim cs as (λ x. Option (List NotifChatInfo)) [
                | [] ↦ some []
                | chat ∷ chats ↦ if true then some (map entry cs) else none
              ])
              w
            ≡ some (map entry cs, w)
      go [] = refl
      go (c ∷ cs) = refl

  -- A client that is as it should be and gets notifications from a server whose answers hold no NULL that the
  -- client reads takes them all in without a fault, where `malloc` grants the two temporary arrays, and after
  -- a call that fails the block in which its fault is printed. It returns the number of friend requests, new
  -- friends, new admins and read times among them; every chat of which the server says that it has messages,
  -- and which the client has known before, is pending then, whatever else the notifications bring and whatever
  -- of it fails; and the client is again as it should be.
  pub psd_recv_notifications-Notified :
      (c : PsdImsClient) (answer sync : Bool) (requests friends : ℕ → Bool)
      (g : ℕ → ℕ → RoundGrants) (w w1 : W) (n : ReceivedNotifications)
      → Complete stubs
      → Holds c
      → net_recv_notifications stubs c.network c.last_notif_timestamp
          (sync_of c.chats)
          answer
          sync
          w
        ≡ some (some n, w1)
      → Notified c n (psd_recv_notifications stubs c true answer sync requests friends g w)
  unfolding psd_recv_notifications
  psd_recv_notifications-Notified c answer sync requests friends g w w1 n m h e =
      let news = subst (After (WhenSome WholeNews)) e (
        net_recv_notifications-After stubs m c.network c.last_notif_timestamp (sync_of c.chats)
          answer sync w) in
      subst (Notified c n)
        (sym (
          Notified-bind (lift (synced c.chats true) w) _ (sync_of c.chats) w (synced_lem c.chats w)
          ∙ Notified-bind
              (net_recv_notifications stubs c.network c.last_notif_timestamp (sync_of c.chats)
                answer sync w)
              _ (some n) w1 e))
        (kept-Notified c n (keep_notifications stubs c n requests friends g w1)
          (keep_notifications-Ends stubs m c n requests friends g w1 h news)
          (keep_notifications-Holds stubs c n requests friends g w1 h)
          (keep_notifications-total c n requests friends g w1)
          (λ id k l. keep_notifications-Shows c n requests friends g w1 id (h, k) l))
