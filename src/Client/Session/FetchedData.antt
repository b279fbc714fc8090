-- ===== src/Client/Session/FetchedData.antt =====
-- `psd_recv_all_data` of client/psd_ims_client.c keeps the client's invariant.
use psd_ims.ItemList.Lookup.{IsMap}
use psd_ims.Prelude.{
  WhenSome-next, WhenSome, ℕ, suc, Bool, true, false, Option, none, some, List, [], ◌∷◌, inl, inr,
  Bool-cases,
}
use psd_ims.ItemList.{Status, ok, failed}
use psd_ims.Client.Common.{set_timestamp}
use psd_ims.Client.Friends.{Friends}
use psd_ims.Client.Chats.{Chats}
use psd_ims.Client.Chats.Hold.{ChatsHold, set_timestamp-ChatsHold}
use psd_ims.Client.Network.{lift, pure, ReceivedChats, Run, Stubs, ReceivedData, ReceivedChat}
use psd_ims.Client.Network.Calls.{net_recv_all_data}
use psd_ims.Client.Session.Restore.{by_friend}
use psd_ims.Client.Session.State.{PsdImsClient}
use psd_ims.Client.Session.Notifications.{add_requests, add_new_friends, Grants, add_received_chat}
use psd_ims.Client.Session.Fetching.{keep_chat_data, add_all_chats, keep_all_data}
use psd_ims.Client.Session.Holds.{
  by_request, Holds, add_chat-ChatsHold, add_new_friends-IsMap, add_requests-IsMap,
  set_timestamp-IsMap, with_chats,
}
use psd_ims.Client.Session.Rounds.{After-lift, After, After-bind, HoldsFirst}
use psd_ims.Client.Session.Fetching.{psd_recv_all_data}

add_all_chats-ChatsHold :
    (friends : Friends) (l : Chats) (rs : List ReceivedChat) (g : Grants) (i : ℕ)
    → ChatsHold l
    → WhenSome (λ x. ChatsHold x.0) (add_all_chats friends l rs g i)
unfolding add_all_chats
add_all_chats-ChatsHold friends l [] g i h = h
add_all_chats-ChatsHold friends l (r ∷ rs) g i h = elim (Bool-cases (g.arrays i)) [
  | inr e ↦ rw (e, add_all_chats) h
  | inl e ↦
      rw (e, add_all_chats)
        (go (add_received_chat friends l r (g.blocks i))
          (add_chat-ChatsHold friends l r (g.blocks i) h)
          (λ after k. add_all_chats-ChatsHold friends after rs g (suc i) k))
]
  where
    go :
        (o : Option (Chats × Status))
        → WhenSome (λ x. ChatsHold x.0) o
        → ((after : Chats)
            → ChatsHold after
            → WhenSome (λ x. ChatsHold x.0) (add_all_chats friends after rs g (suc i)))
        → WhenSome
            (λ x. ChatsHold x.0)
            (elim o [
              | none ↦ none
              | some (after, failed) ↦ none
              | some (after, ok) ↦ add_all_chats friends after rs g (suc i)
            ])
    go none k rest = tt
    go (some (after, failed)) k rest = tt
    go (some (after, ok)) k rest = rest after k

keep_chat_data-Holds :
    (c : PsdImsClient) (received : ReceivedChats) (r : Option (Chats × Bool))
    → Holds c
    → WhenSome (λ x. ChatsHold x.0) r
    → WhenSome (λ x. Holds x.0) (keep_chat_data c received r)
keep_chat_data-Holds c received none h k = tt
keep_chat_data-Holds c received (some (chats, false)) h k = with_chats c chats h k
keep_chat_data-Holds c received (some (chats, true)) h k =
    with_chats c _ h (set_timestamp-ChatsHold chats received.last_timestamp k)

keep_all_data-Holds :
    (c : PsdImsClient) (received : ReceivedData) (requests friends : ℕ → Bool) (g : Grants)
    → Holds c
    → WhenSome (λ x. Holds x.0) (keep_all_data c received requests friends g)
unfolding keep_all_data
keep_all_data-Holds c received requests friends g h =
    WhenSome-next (IsMap by_request) (λ x. Holds x.0)
      (add_requests c.requests received.friend_requests requests 0) _
      (add_requests-IsMap c.requests received.friend_requests requests 0 h.requests)
      (λ new_requests r.
        WhenSome-next (IsMap by_friend) (λ x. Holds x.0)
          (add_new_friends c.friends received.friends friends 0) _
          (add_new_friends-IsMap c.friends received.friends friends 0 h.friends)
          (λ new_friends f.
            let t = received.timestamp in
            keep_chat_data-Holds
              (record c {
                last_notif_timestamp = t;
                requests = set_timestamp new_requests t;
                friends = set_timestamp new_friends t;
              })
              received.chats _
              (record {
                friends = set_timestamp-IsMap by_friend _ t f;
                requests = set_timestamp-IsMap by_request _ t r;
                chats = h.chats;
                network = h.network;
              })
              (add_all_chats-ChatsHold (set_timestamp new_friends t) c.chats
                received.chats.chat_info g 0 h.chats)))

module _ {W : Type 0} (stubs : Stubs W) where
  pub psd_recv_all_data-Holds :
      (c : PsdImsClient) (requests friends : ℕ → Bool) (g : Grants) (w : W)
      → Holds c
      → After HoldsFirst (psd_recv_all_data stubs c requests friends g w)
  unfolding psd_recv_all_data
  psd_recv_all_data-Holds c requests friends g w h =
      After-bind HoldsFirst (net_recv_all_data stubs c.network g.answer w) _
        (λ answer w2. go answer w2)
    where
      go :
          (answer : Option ReceivedData) (w2 : W)
          → After HoldsFirst (
              (elim answer as (λ a. Run W (PsdImsClient × Status)) [
                | none ↦ pure (c, failed)
                | some received ↦ lift (keep_all_data c received requests friends g)
              ])
                w2)
      go none w2 = h
      go (some received) w2 =
          After-lift HoldsFirst (keep_all_data c received requests friends g) w2
            (keep_all_data-Holds c received requests friends g h)
