-- ===== src/Client/Session/SafeCalls.antt =====
-- The calls of client/psd_ims_client.c that are safe to make, one by one.
use psd_ims.Client.Session.{ReceivedUser}
use psd_ims.Prelude.{
  WhenSome, ℕ, suc, ◌≡◌, refl, Bool, true, false, Option, none, some, List, [], ◌∷◌, Text, arith,
  inl, inr, Option-cases, Bool-cases, is_some, ltb, if◌then◌else◌,
}
use psd_ims.Prelude.Int.{ℤ, pos, ltb_ℤ}
use psd_ims.Client.Friends.{fri_new, fri_find_friend}
use psd_ims.Client.Chats.{cha_new, ChatInfo, cha_find_chat}
use psd_ims.Client.Network.{Credentials, log_in, printed, Network, Stubs, read, pure, net_login}
use psd_ims.Client.Network.Calls.{net_recv_pending_messages, net_create_chat}
use psd_ims.Client.Network.Sound.{Sound, text_at, read_lem, net_logout_lem, free_lem}
use psd_ims.Client.Session.State.{keep_login, new_lists, PsdImsClient, psd_logout, psd_login}
use psd_ims.Client.Session.Sending.{psd_create_chat}
use psd_ims.Client.Session.Fetching.{
  keep_messages, MessageGrants, fetch_each, fetch_messages, fetch_chat, fetch_pending,
}
use psd_ims.Client.Session.Holds.{Holds}
use psd_ims.Client.Session.Rounds.{After-next, After-lift, After, HoldsFirst}
use psd_ims.ItemList.{list_new}
use psd_ims.Client.Requests.{req_new}
use psd_ims.Client.Session.Acts
use psd_ims.Client.Session.Acts.{all_arrays, Act, Reaches, act, safe, first, keeping}
use psd_ims.Client.Session.FetchedMessages.{fetch_chat-Holds, fetch_pending-Holds}
use psd_ims.Client.Session.Rounds.{After-bind}
use psd_ims.Client.Session.Whole.{Complete, Ends}
use psd_ims.Client.Session.Safe.{
  printed-After, printed-Ends, Ends-lift, Ends-bind, Ends-next, request-Ends, fetch_chat-Ends,
  fetch_pending-Ends,
}

module _ {W : Type 0} where
  After-both :
      {X : Type 0} (P Q : X → Type 0) (r : Option (X × W))
      → After P r
      → After Q r
      → After (λ x. P x × Q x) r
  After-both P Q none h k = tt
  After-both P Q (some (x, w)) h k = (h, k)

  pub first-Ends :
      {X : Type 0} (r : Option ((PsdImsClient × X) × W))
      → Ends r
      → Ends {X = PsdImsClient × W} (elim r [ none ↦ none | some ((c, x), w2) ↦ some (c, w2) ])
  first-Ends none h = h
  first-Ends (some ((c, x), w2)) h = refl

  pub keeping-Ends :
      {X : Type 0} (c : PsdImsClient) (r : Option (X × W))
      → Ends r
      → Ends {X = PsdImsClient × W} (elim r [ none ↦ none | some (x, w2) ↦ some (c, w2) ])
  keeping-Ends c none h = h
  keeping-Ends c (some (x, w2)) h = refl

new_lists_lem : is_some (new_lists true true true) ≡ true
unfolding fri_new req_new cha_new list_new
new_lists_lem = refl

-- The user's name is as before.
abbrev pub SameName : {X : Type 0} → PsdImsClient → PsdImsClient × X → Type 0
SameName c r = (r.0).user_name ≡ c.user_name

keep_messages-name :
    (c : PsdImsClient) (id : ℤ) (r : Option (ChatInfo × ℤ))
    → WhenSome (SameName c) (keep_messages c id r)
keep_messages-name c id none = tt
keep_messages-name c id (some (after, value)) = refl

module _ {W : Type 0} (stubs : Stubs W) (whole_stubs : Complete stubs) where
  fetch_messages-name :
      (c : PsdImsClient) (chat : ChatInfo) (g : MessageGrants) (w : W)
      → After (SameName c) (fetch_messages stubs c chat g w)
  unfolding fetch_messages
  fetch_messages-name c chat g w =
      After-bind (SameName c)
        (net_recv_pending_messages stubs c.network chat.id chat.messages.list_info.timestamp
          g.answer w)
        _ (λ answer w2. After-lift (SameName c) _ w2 (keep_messages-name c chat.id _))

  fetch_chat-name :
      (c : PsdImsClient) (chat_id : ℤ) (g : MessageGrants) (w : W)
      → After (SameName c) (fetch_chat stubs c chat_id g w)
  unfolding fetch_chat
  fetch_chat-name c chat_id g w = elim (Option-cases (cha_find_chat c.chats chat_id)) [
    | inl e ↦ rw (e, fetch_chat) refl
    | inr (chat, e) ↦ rw (e, fetch_chat) (fetch_messages-name c chat g w)
  ]

  fetch_pending-name :
      (c : PsdImsClient) (chat_id : ℤ) (g : MessageGrants) (w : W)
      → After (SameName c) (fetch_pending stubs c chat_id g w)
  unfolding fetch_pending
  fetch_pending-name c chat_id g w = elim (Option-cases (cha_find_chat c.chats chat_id)) [
    | inl e ↦ rw (e, fetch_pending) refl
    | inr (chat, e) ↦ elim (Bool-cases (ltb 0 chat.pending_messages)) [
      | inl t ↦ rw (e, t, fetch_pending) (fetch_messages-name c chat g w)
      | inr f ↦ rw (e, f, fetch_pending) refl
    ]
  ]

  pub fetch_each-Ends :
      (only_pending : Bool) (c : PsdImsClient) (ids : List ℤ) (g : ℕ → MessageGrants) (i : ℕ)
      (value : ℤ) (w : W)
      → Holds c
      → is_some (text_at c.user_name) ≡ true
      → all_arrays ids g i ≡ true
      → Ends (fetch_each stubs only_pending c ids g i value w)
  unfolding fetch_each all_arrays
  fetch_each-Ends only_pending c [] g i value w h n a = refl
  fetch_each-Ends true c (id ∷ ids) g i value w h n a =
      Ends-next (λ r. HoldsFirst r × SameName c r) (fetch_pending stubs c id (g i) w) _
        (fetch_pending-Ends stubs whole_stubs c id (g i) w h n (ground (arith, a)))
        (After-both HoldsFirst (SameName c) _ (fetch_pending-Holds stubs c id (g i) w h)
          (fetch_pending-name c id (g i) w))
        (λ r w2 k.
          fetch_each-Ends true r.0 ids g (suc i) (if ltb_ℤ r.1 (pos 0) then r.1 else value) w2 k.0
            (ground (arith, k.1, n)) (ground (arith, a)))
  fetch_each-Ends false c (id ∷ ids) g i value w h n a =
      Ends-next (λ r. HoldsFirst r × SameName c r) (fetch_chat stubs c id (g i) w) _
        (fetch_chat-Ends stubs whole_stubs c id (g i) w h n (ground (arith, a)))
        (After-both HoldsFirst (SameName c) _ (fetch_chat-Holds stubs c id (g i) w h)
          (fetch_chat-name c id (g i) w))
        (λ r w2 k.
          fetch_each-Ends false r.0 ids g (suc i) (if ltb_ℤ r.1 (pos 0) then r.1 else value) w2 k.0
            (ground (arith, k.1, n)) (ground (arith, a)))

  pub read-Ends : (net : Network) (w : W) → Sound net → Ends (read net.server_url w)
  read-Ends net w s = ground (arith, read_lem net.server_url w s.server_url)

  pub logout-Ends :
      (c : PsdImsClient) (granted : ℕ → Bool) (w : W)
      → safe (Acts.logout granted) c ≡ true
      → Ends (psd_logout c granted w)
  unfolding psd_logout
  logout-Ends c granted w s = ground (
    arith,
    s,
    net_logout_lem c.network w,
    free_lem c.user_name w,
    free_lem c.user_pass w,
    free_lem c.user_info w,
    new_lists_lem,
  )

  log_in-Whole :
      (net : Network) (name password : Text) (granted : ℕ → Bool) (answer : Option ReceivedUser)
      → WhenSome (λ u. is_some u.information ≡ true) answer
      → WhenSome (λ u. is_some u.information ≡ true) (log_in net name password granted answer).1
  unfolding log_in
  log_in-Whole net name password granted none h = tt
  log_in-Whole net name password granted (some u) h = elim (Bool-cases (granted 1)) [
    | inr e ↦ rw (e, log_in) tt
    | inl e ↦ elim (Bool-cases (granted 2)) [
      | inr f ↦ rw (e, f, log_in) tt
      | inl f ↦ rw (e, f, log_in) h
    ]
  ]

  keep_login-Ends :
      (c : PsdImsClient) (name password : Text) (granted : ℕ → Bool) (answer : Option ReceivedUser)
      → WhenSome (λ u. is_some u.information ≡ true) answer
      → Ends (keep_login c name password granted answer)
  unfolding keep_login
  keep_login-Ends c name password granted none h = refl
  keep_login-Ends c name password granted (some u) h = elim (Option-cases u.information) [
    | inl e ↦ absurd (ground (arith, h, e))
    | inr (information, e) ↦ ground (arith, e)
  ]

  net_login-Ends :
      (net : Network) (name password : Text) (granted : ℕ → Bool) (w : W)
      → Sound net
      → Ends (net_login stubs net name password granted w)
  unfolding net_login
  net_login-Ends net name password granted w s = elim (Bool-cases (granted 0)) [
    | inr e ↦ rw (e, net_login) refl
    | inl e ↦
        rw (e, net_login)
          (Ends-bind (read net.server_url w) _ (read-Ends net w s) (λ url w2.
            let r =
              stubs.call_get_user url (record { name = some name; password = some password }) w2 in
            Ends-bind (printed stubs.error_granted r)
              (λ answer. pure (log_in net name password granted answer))
              (printed-Ends stubs.error_granted r whole_stubs.errors) (λ answer w3. refl)))
  ]

  net_login-Whole :
      (net : Network) (name password : Text) (granted : ℕ → Bool) (w : W)
      → After
          (λ r. WhenSome (λ u. is_some u.information ≡ true) r.1)
          (net_login stubs net name password granted w)
  unfolding net_login
  net_login-Whole net name password granted w =
      let P : ReceivedUser → Type 0 = λ u. is_some u.information ≡ true in
      let Q : Network × Option ReceivedUser → Type 0 = λ r. WhenSome P r.1 in
      elim (Bool-cases (granted 0)) [
        | inr e ↦ rw (e, net_login) tt
        | inl e ↦
            rw (e, net_login)
              (After-bind Q (read net.server_url w) _ (λ url w2.
                let login : Credentials = record { name = some name; password = some password } in
                After-next (WhenSome P) Q
                  (printed stubs.error_granted (stubs.call_get_user url login w2))
                  (λ answer. pure (log_in net name password granted answer))
                  (printed-After P stubs.error_granted _ (whole_stubs.users url login w2))
                  (λ answer w3 k. log_in-Whole net name password granted answer k)))
      ]

  pub login-Ends :
      (c : PsdImsClient) (name password : Text) (net_granted granted : ℕ → Bool) (w : W)
      → Holds c
      → Ends (psd_login stubs c name password net_granted granted w)
  unfolding psd_login
  login-Ends c name password net_granted granted w h =
      Ends-next (λ r. WhenSome (λ u. is_some u.information ≡ true) r.1)
        (net_login stubs c.network name password net_granted w) _
        (net_login-Ends c.network name password net_granted w h.network)
        (net_login-Whole c.network name password net_granted w)
        (λ r w2 k.
          Ends-lift _ w2 (keep_login-Ends (record c { network = r.0 }) name password granted r.1 k))

  pub create_chat-Ends :
      (c : PsdImsClient) (description : Text) (member : Option Text) (w : W)
      → Holds c
      → c.network.logged ≡ true
      → Ends (psd_create_chat stubs c description member w)
  unfolding psd_create_chat net_create_chat
  create_chat-Ends c description none w h s =
      request-Ends stubs whole_stubs c.network
        (stubs.call_create_chat (record { description = description; member = none })) w h.network s
  create_chat-Ends c description (some member) w h s =
      elim (Option-cases (fri_find_friend c.friends member)) [
        | inl e ↦ ground (arith, e)
        | inr (friend, e) ↦
            rw (e, psd_create_chat)
              (request-Ends stubs whole_stubs c.network
                (stubs.call_create_chat
                  (record { description = description; member = some member }))
                w h.network s)
      ]
