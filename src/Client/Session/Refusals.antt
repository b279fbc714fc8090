-- ===== src/Client/Session/Refusals.antt =====
-- What the calls of client/psd_ims_client.c do when the client is not logged in.
use psd_ims.Client.Chats.Hold.{by_id}
use psd_ims.ItemList.Lookup.{list_find_item-find, IsMap}
use psd_ims.Client.Chats.{Chats, write_chat, cha_find_chat}
use psd_ims.ItemList.Find.{find}
use psd_ims.Prelude.Int.{same_int, ltb_ℤ}
use mathlib.Core.Path.{subst}
use psd_ims.Prelude.{
  refl, ◌∙◌, sym, inl, inr, suc, zero, List, [], ◌∷◌, map, ltb, Option-cases, Bool-cases, set, ℕ,
  ap, ◌≡◌, Bool, true, false, Option, none, some, arith, if◌then◌else◌,
}
use psd_ims.ItemList.{list_find_node, find_node, failed}
use psd_ims.Client.Network.{NotifChatInfo, Network, Run, Stubs}
use psd_ims.Client.Network.Calls.{
  net_recv_pending_messages, net_recv_notifications, net_get_chat_list, net_get_friend_list,
  net_send_friend_request, net_send_request_accept, net_send_request_decline,
}
use psd_ims.Client.Session.{
  ChatInfo, pos, cha_find_chat, recv_messages, write_chat, ℤ, psd_recv_friends, minus_one,
}
use psd_ims.Client.Session.State.{PsdImsClient}
use psd_ims.Client.Session.Sending.{
  psd_send_friend_request, psd_send_request_accept, psd_send_request_decline,
}
use psd_ims.Client.Session.Notifications.{
  synced, psd_recv_chats, psd_recv_notifications, keep_chats,
}
use psd_ims.Client.Session.Fetching.{
  MessageGrants, psd_recv_all_pending_messages, fetch_messages, fetch_chat, fetch_pending,
  fetch_each, psd_recv_all_messages, fetch_friends,
}
use psd_ims.Client.Session.Notifications.{sync_of, RoundGrants}
use psd_ims.Client.Session.Holds.{Holds}
use psd_ims.Client.Session.Receive.{find_node_of, find_chat_id}
use psd_ims.Client.Session.Marked.{synced_lem}
use psd_ims.Client.Network.{lift}
use psd_ims.Client.Session.Acts
use psd_ims.Client.Session.Acts.{Act, act, safe}

-- The calls that ask whether the client is logged in before they send anything. `psd_recv_notifications` fills
-- two arrays first, which `malloc` may have refused.
abbrev pub asks_first : Act → Bool
asks_first (Acts.recv_notifications arrays answer sync requests friends g) = arrays
asks_first (Acts.recv_messages chat_id g) = true
asks_first (Acts.recv_pending_messages chat_id g) = true
asks_first (Acts.recv_all_messages g) = true
asks_first (Acts.recv_all_pending_messages g) = true
asks_first (Acts.recv_chats g) = true
asks_first (Acts.recv_friends answer granted) = true
asks_first (Acts.friend_request user) = true
asks_first (Acts.accept user) = true
asks_first (Acts.decline user) = true
asks_first a = false

set-same :
    (p : ChatInfo → Bool) (cs : List ChatInfo) (i : ℕ) (c : ChatInfo)
    → find_node p cs ≡ some i
    → find p cs ≡ some c
    → set cs i c ≡ cs
unfolding find_node find
set-same p [] i c h k = absurd (ground (arith, h))
set-same p (x ∷ xs) zero c h k = ground (arith, h, k)
set-same p (x ∷ xs) (suc i) c h k = ground (arith, h, k, set-same p xs i c)

-- Writing a chat back that has not changed.
write_chat-same :
    (l : Chats) (id : ℤ) (c : ChatInfo)
    → IsMap by_id l
    → cha_find_chat l id ≡ some c
    → write_chat l c.id c ≡ l
unfolding write_chat cha_find_chat
write_chat-same l id c m e =
    subst (λ x. write_chat l x c ≡ l) (sym (find_chat_id l id c m e))
      (elim (Option-cases (list_find_node l id)) [
        | inl n ↦ rw (n, write_chat) refl
        | inr (i, n) ↦
            rw (n, write_chat)
              (ap (λ x. record l { items = x })
                (set-same (λ x. same_int x.id id) l.items i c (find_node_of l id i m.compares_key n)
                  (sym (list_find_item-find by_id l id m.compares_key) ∙ e)))
      ])

-- A call that comes back with the client and the world as they were.
abbrev Quiet : {W : Type 0} → PsdImsClient → W → Option ((PsdImsClient × ℤ) × W) → Type 0
Quiet c w r = (value : ℤ) × (r ≡ some ((c, value), w))

module _ {W : Type 0} (stubs : Stubs W) where
  bind-eq :
      {X Y : Type 0} (r : Option (X × W)) (f : X → Run W Y) (x : X) (w : W)
      → r ≡ some (x, w)
      → elim r as (λ q. Option (Y × W)) [ none ↦ none | some (y, w2) ↦ f y w2 ] ≡ f x w
  bind-eq {Y = Y} r f x w e =
      ap (λ q. elim q as (λ z. Option (Y × W)) [ none ↦ none | some (y, w2) ↦ f y w2 ]) e

  first-eq :
      {X : Type 0} (r : Option ((PsdImsClient × X) × W)) (c : PsdImsClient) (x : X) (w : W)
      → r ≡ some ((c, x), w)
      → elim r as (λ q. Option (PsdImsClient × W)) [
        | none ↦ none
        | some ((d, y), w2) ↦ some (d, w2)
      ]
        ≡ some (c, w)
  first-eq r c x w e =
      ap
        (λ q. elim q as (λ z. Option (PsdImsClient × W)) [
          | none ↦ none
          | some ((d, y), w2) ↦ some (d, w2)
        ])
        e

  keeping-eq :
      {X : Type 0} (c : PsdImsClient) (r : Option (X × W)) (x : X) (w : W)
      → r ≡ some (x, w)
      → elim r as (λ q. Option (PsdImsClient × W)) [ none ↦ none | some (y, w2) ↦ some (c, w2) ]
        ≡ some (c, w)
  keeping-eq c r x w e =
      ap
        (λ q. elim q as (λ z. Option (PsdImsClient × W)) [
          | none ↦ none
          | some (y, w2) ↦ some (c, w2)
        ])
        e

  off :
      {A : Type 0} (net : Network) (r : Option (Option A × W)) (w : W)
      → net.logged ≡ false
      → (if net.logged then r else some (none, w)) ≡ some (none, w)
  off net r w l = ground (arith, l)

  not_asked :
      (net : Network) (t : ℤ) (sent : List NotifChatInfo) (answer sync : Bool) (w : W)
      → net.logged ≡ false
      → net_recv_notifications stubs net t sent answer sync w ≡ some (none, w)
  unfolding net_recv_notifications
  not_asked net t sent answer sync w l = ground (arith, l)

  not_notified :
      (c : PsdImsClient) (answer sync : Bool) (requests friends : ℕ → Bool)
      (g : ℕ → ℕ → RoundGrants) (w : W)
      → c.network.logged ≡ false
      → psd_recv_notifications stubs c true answer sync requests friends g w ≡ some ((c, none), w)
  unfolding psd_recv_notifications
  not_notified c answer sync requests friends g w l =
      bind-eq (lift (synced c.chats true) w) _ (sync_of c.chats) w (synced_lem stubs c.chats w)
      ∙ bind-eq
          (net_recv_notifications stubs c.network c.last_notif_timestamp (sync_of c.chats) answer
            sync w)
          _ none w (not_asked c.network c.last_notif_timestamp (sync_of c.chats) answer sync w l)

  not_fetched :
      (c : PsdImsClient) (chat_id : ℤ) (chat : ChatInfo) (g : MessageGrants) (w : W)
      → Holds c
      → cha_find_chat c.chats chat_id ≡ some chat
      → c.network.logged ≡ false
      → fetch_messages stubs c chat g w ≡ some ((c, minus_one), w)
  unfolding fetch_messages recv_messages net_recv_pending_messages
  not_fetched c chat_id chat g w h e l =
      bind-eq
        (net_recv_pending_messages stubs c.network chat.id chat.messages.list_info.timestamp
          g.answer w)
        _ none w (off c.network _ w l)
      ∙ ap (λ x. some ((record c { chats = x }, minus_one), w))
          (write_chat-same c.chats chat_id chat h.chats.map e)

  fetch_chat-Quiet :
      (c : PsdImsClient) (chat_id : ℤ) (g : MessageGrants) (w : W)
      → Holds c
      → c.network.logged ≡ false
      → Quiet c w (fetch_chat stubs c chat_id g w)
  unfolding fetch_chat
  fetch_chat-Quiet c chat_id g w h l = elim (Option-cases (cha_find_chat c.chats chat_id)) [
    | inl e ↦ rw (e, fetch_chat) (minus_one, refl)
    | inr (chat, e) ↦ rw (e, fetch_chat) (minus_one, not_fetched c chat_id chat g w h e l)
  ]

  fetch_pending-Quiet :
      (c : PsdImsClient) (chat_id : ℤ) (g : MessageGrants) (w : W)
      → Holds c
      → c.network.logged ≡ false
      → Quiet c w (fetch_pending stubs c chat_id g w)
  unfolding fetch_pending
  fetch_pending-Quiet c chat_id g w h l = elim (Option-cases (cha_find_chat c.chats chat_id)) [
    | inl e ↦ rw (e, fetch_pending) (minus_one, refl)
    | inr (chat, e) ↦ elim (Bool-cases (ltb 0 chat.pending_messages)) [
      | inl t ↦ rw (e, t, fetch_pending) (minus_one, not_fetched c chat_id chat g w h e l)
      | inr t ↦ rw (e, t, fetch_pending) (pos 0, refl)
    ]
  ]

  fetch_each-Quiet :
      (only_pending : Bool) (c : PsdImsClient) (ids : List ℤ) (g : ℕ → MessageGrants) (i : ℕ)
      (value : ℤ) (w : W)
      → Holds c
      → c.network.logged ≡ false
      → Quiet c w (fetch_each stubs only_pending c ids g i value w)
  unfolding fetch_each
  fetch_each-Quiet only_pending c [] g i value w h l = (value, refl)
  fetch_each-Quiet true c (id ∷ ids) g i value w h l =
      let q = fetch_pending-Quiet c id (g i) w h l in
      let k =
        fetch_each-Quiet true c ids g (suc i) (if ltb_ℤ q.0 (pos 0) then q.0 else value) w h l in
      (k.0, bind-eq (fetch_pending stubs c id (g i) w) _ (c, q.0) w q.1 ∙ k.1)
  fetch_each-Quiet false c (id ∷ ids) g i value w h l =
      let q = fetch_chat-Quiet c id (g i) w h l in
      let k =
        fetch_each-Quiet false c ids g (suc i) (if ltb_ℤ q.0 (pos 0) then q.0 else value) w h l in
      (k.0, bind-eq (fetch_chat stubs c id (g i) w) _ (c, q.0) w q.1 ∙ k.1)

  -- Where the client is not logged in, none of the ten calls that ask for it changes the client or the world:
  -- nothing is sent to the server. The client is as it should be, and `psd_recv_notifications` gets the two
  -- arrays that it fills first.
  pub act-not_logged :
      (a : Act) (c : PsdImsClient) (w : W)
      → Holds c
      → asks_first a ≡ true
      → c.network.logged ≡ false
      → act stubs a c w ≡ some (c, w)
  unfolding act psd_recv_chats net_get_chat_list keep_chats fetch_friends net_get_friend_list
      psd_recv_friends psd_recv_all_messages psd_recv_all_pending_messages psd_send_friend_request
      net_send_friend_request psd_send_request_accept net_send_request_accept
      psd_send_request_decline net_send_request_decline
  act-not_logged (Acts.recv_messages chat_id g) c w h a l =
      let q = fetch_chat-Quiet c chat_id g w h l in first-eq _ c q.0 w q.1
  act-not_logged (Acts.recv_pending_messages chat_id g) c w h a l =
      let q = fetch_pending-Quiet c chat_id g w h l in first-eq _ c q.0 w q.1
  act-not_logged (Acts.recv_all_messages g) c w h a l =
      let q = fetch_each-Quiet false c (map (λ chat. chat.id) c.chats.items) g 0 (pos 0) w h l in
      first-eq _ c q.0 w q.1
  act-not_logged (Acts.recv_all_pending_messages g) c w h a l =
      let q = fetch_each-Quiet true c (map (λ chat. chat.id) c.chats.items) g 0 (pos 0) w h l in
      first-eq _ c q.0 w q.1
  act-not_logged (Acts.recv_notifications false answer sync requests friends g) c w h a l =
      absurd (ground (arith, a))
  act-not_logged (Acts.recv_notifications true answer sync requests friends g) c w h a l =
      first-eq _ c none w (not_notified c answer sync requests friends g w l)
  act-not_logged (Acts.recv_chats g) c w h a l = first-eq _ c none w (
      bind-eq (net_get_chat_list stubs c.network c.chats.list_info.timestamp g.answer w) _ none w
        (off c.network _ w l))
  act-not_logged (Acts.recv_friends answer granted) c w h a l = first-eq _ c minus_one w (
      bind-eq (net_get_friend_list stubs c.network c.friends.list_info.timestamp answer w) _ none w
        (off c.network _ w l))
  act-not_logged (Acts.friend_request user) c w h a l =
      keeping-eq c _ failed w
        (bind-eq (net_send_friend_request stubs c.network user w) _ none w (off c.network _ w l))
  act-not_logged (Acts.accept user) c w h a l =
      first-eq _ c failed w
        (bind-eq (net_send_request_accept stubs c.network user w) _ none w (off c.network _ w l))
  act-not_logged (Acts.decline user) c w h a l =
      first-eq _ c failed w
        (bind-eq (net_send_request_decline stubs c.network user w) _ none w (off c.network _ w l))
  act-not_logged (Acts.set_name name granted) c w h a l = absurd (ground (arith, a))
  act-not_logged (Acts.set_pass pass granted) c w h a l = absurd (ground (arith, a))
  act-not_logged (Acts.bind_network url granted) c w h a l = absurd (ground (arith, a))
  act-not_logged (Acts.login name password net_granted granted) c w h a l =
      absurd (ground (arith, a))
  act-not_logged (Acts.logout granted) c w h a l = absurd (ground (arith, a))
  act-not_logged (Acts.register name password information) c w h a l = absurd (ground (arith, a))
  act-not_logged (Acts.unregister name password) c w h a l = absurd (ground (arith, a))
  act-not_logged (Acts.recv_all_data requests friends g) c w h a l = absurd (ground (arith, a))
  act-not_logged (Acts.make_chat description member) c w h a l = absurd (ground (arith, a))
  act-not_logged (Acts.add_member member chat_id) c w h a l = absurd (ground (arith, a))
  act-not_logged (Acts.del_member member chat_id) c w h a l = absurd (ground (arith, a))
  act-not_logged (Acts.quit chat_id) c w h a l = absurd (ground (arith, a))
  act-not_logged (Acts.remove_chat chat_id) c w h a l = absurd (ground (arith, a))
