-- ===== src/Client/Session/Safe.antt =====
-- Which calls of client/psd_ims_client.c use no pointer that is not fit for it.
use psd_ims.Client.Session.{ReceivedMessages}
use psd_ims.Prelude.{
  All, Text, WhenSome, ◌≡◌, refl, Bool, true, Option, none, some, arith, inl, inr, Option-cases,
  Bool-cases, is_some, ltb,
}
use psd_ims.Prelude.Int.{ℤ}
use psd_ims.Client.Chats.{ChatInfo, cha_find_chat}
use psd_ims.Client.Network.{
  read, Credentials, lift, printed, Network, Run, Stub, Stubs, when_logged, when_granted, request,
}
use psd_ims.Client.Network.Calls.{net_get_chat_list, net_recv_pending_messages}
use psd_ims.Client.Network.Sound.{Sound, text_at, request_lem}
use psd_ims.Client.Session.State.{PsdImsClient}
use psd_ims.Client.Session.Notifications.{keep_chats, Grants, fetch_missing, psd_recv_chats}
use psd_ims.Client.Session.Fetching.{
  keep_messages, MessageGrants, fetch_messages, fetch_chat, fetch_pending,
}
use psd_ims.Client.Session.Holds.{Holds}
use psd_ims.Client.Session.Rounds.{After-bind, After}
use psd_ims.Client.Session.Whole.{Ends, WholeChat, Complete, keep_chats-Ends, recv_messages-Ends}

module _ {W : Type 0} where
  pub Ends-bind :
      {X Y : Type 0} (r : Option (X × W)) (f : X → Run W Y)
      → Ends r
      → ((x : X) (w : W) → Ends (f x w))
      → Ends (elim r [ none ↦ none | some (x, w) ↦ f x w ])
  Ends-bind none f e h = e
  Ends-bind (some (x, w)) f e h = h x w

  pub Ends-next :
      {X Y : Type 0} (P : X → Type 0) (r : Option (X × W)) (f : X → Run W Y)
      → Ends r
      → After P r
      → ((x : X) (w : W) → P x → Ends (f x w))
      → Ends (elim r [ none ↦ none | some (x, w) ↦ f x w ])
  Ends-next P none f e p h = e
  Ends-next P (some (x, w)) f e p h = h x w p

  pub Ends-lift : {X : Type 0} (o : Option X) (w : W) → Ends o → Ends (lift {W = W} o w)
  Ends-lift none w h = h
  Ends-lift (some x) w h = refl

  pub printed-Ends :
      {A : Type 0} (error_granted : W → Bool) (r : Option A × W)
      → ((w : W) → error_granted w ≡ true)
      → Ends (printed error_granted r)
  printed-Ends error_granted (none, w) h = rw (h w) refl
  printed-Ends error_granted (some x, w) h = refl

  pub printed-After :
      {A : Type 0} (P : A → Type 0) (error_granted : W → Bool) (r : Option A × W)
      → WhenSome P r.0
      → After (WhenSome P) (printed error_granted r)
  printed-After P error_granted (none, w) h = elim (Bool-cases (error_granted w)) [
    | inl e ↦ rw (e) tt
    | inr e ↦ rw (e) tt
  ]
  printed-After P error_granted (some x, w) h = h

keep_messages-Ends :
    (c : PsdImsClient) (id : ℤ) (r : Option (ChatInfo × ℤ)) → Ends r → Ends (keep_messages c id r)
keep_messages-Ends c id none h = h
keep_messages-Ends c id (some (after, value)) h = refl

module _ {W : Type 0} (stubs : Stubs W) (whole_stubs : Complete stubs) where
  pub request-Ends :
      {A : Type 0} (net : Network) (stub : Stub W A) (w : W)
      → Sound net
      → net.logged ≡ true
      → Ends (request stubs.error_granted net stub w)
  request-Ends net stub w s h =
      rw (request_lem stubs.error_granted net stub w s h)
        (printed-Ends stubs.error_granted _ whole_stubs.errors)

  -- The calls that test whether the client is logged in do not fault.
  pub asked-Ends :
      {A : Type 0} (net : Network) (stub : Stub W A) (granted : Bool) (w : W)
      → Sound net
      → Ends (when_logged net (when_granted granted (request stubs.error_granted net stub)) w)
  asked-Ends net stub granted w s = elim (Bool-cases net.logged) [
    | inr h ↦ ground (arith, h)
    | inl h ↦ elim (Bool-cases granted) [
      | inr g ↦ ground (arith, h, g)
      | inl g ↦ ground (arith, h, g, request-Ends net stub w s h)
    ]
  ]

  pub sent-Ends :
      {A : Type 0} (net : Network) (stub : Stub W A) (w : W)
      → Sound net
      → Ends (when_logged net (request stubs.error_granted net stub) w)
  sent-Ends net stub w s = asked-Ends net stub true w s

  -- What holds of all answers of a stub holds of the answer that a call gets.
  pub asked-After :
      {A : Type 0} (P : A → Type 0) (net : Network) (stub : Stub W A) (granted : Bool) (w : W)
      → ((url : Option Text) (login : Credentials) (w2 : W) → WhenSome P (stub url login w2).0)
      → After
          (WhenSome P)
          (when_logged net (when_granted granted (request stubs.error_granted net stub)) w)
  asked-After P net stub granted w h = elim (Bool-cases net.logged) [
    | inr l ↦ rw (l) tt
    | inl l ↦ elim (Bool-cases granted) [
      | inr g ↦ rw (l, g) tt
      | inl g ↦
          rw (l, g)
            (After-bind (WhenSome P) (read net.server_url w) _ (λ url w2.
              After-bind (WhenSome P) (read net.name w2) _ (λ name w3.
                After-bind (WhenSome P) (read net.password w3) _
                  (λ password w4. printed-After P stubs.error_granted _ (h url _ w4)))))
    ]
  ]

  pub psd_recv_chats-Ends :
      (c : PsdImsClient) (g : Grants) (w : W) → Holds c → Ends (psd_recv_chats stubs c g w)
  unfolding psd_recv_chats net_get_chat_list
  psd_recv_chats-Ends c g w h =
      let t = c.chats.list_info.timestamp in
      Ends-next (WhenSome (λ r. All WholeChat r.chat_info))
        (net_get_chat_list stubs c.network t g.answer w) _
        (asked-Ends c.network (stubs.call_get_chats t) g.answer w h.network)
        (asked-After (λ r. All WholeChat r.chat_info) c.network (stubs.call_get_chats t) g.answer w
          (whole_stubs.chats t))
        (λ answer w2 k. Ends-lift (keep_chats c answer g) w2 (keep_chats-Ends c answer g k))

  pub fetch_missing-Ends :
      (c : PsdImsClient) (id : ℤ) (g : Grants) (w : W)
      → Holds c
      → Ends (fetch_missing stubs c id g w)
  unfolding fetch_missing
  fetch_missing-Ends c id g w h = elim (Option-cases (cha_find_chat c.chats id)) [
    | inr (chat, e) ↦ ground (arith, e)
    | inl e ↦
        rw (e, fetch_missing)
          (Ends-bind (psd_recv_chats stubs c g w) (λ r w2. some (r.0, w2))
            (psd_recv_chats-Ends c g w h) (λ r w2. refl))
  ]

  fetch_messages-Ends :
      (c : PsdImsClient) (chat : ChatInfo) (g : MessageGrants) (w : W)
      → Holds c
      → is_some (text_at c.user_name) ≡ true
      → g.arrays ≡ true
      → Ends (fetch_messages stubs c chat g w)
  unfolding fetch_messages net_recv_pending_messages
  fetch_messages-Ends c chat g w h n a =
      let t = chat.messages.list_info.timestamp in
      let P : ReceivedMessages → Type 0 = λ r. All (λ m. is_some m.user ≡ true) r.messages in
      Ends-next (WhenSome P) (net_recv_pending_messages stubs c.network chat.id t g.answer w) _
        (asked-Ends c.network (stubs.call_get_chat_messages chat.id t) g.answer w h.network)
        (asked-After P c.network (stubs.call_get_chat_messages chat.id t) g.answer w
          (whole_stubs.messages chat.id t))
        (λ answer w2 k. elim (Option-cases (text_at c.user_name)) [
          | inl e ↦ absurd (ground (arith, n, e))
          | inr (own, e) ↦ Ends-lift _ w2 (
              keep_messages-Ends c chat.id _
                (rw (e, a) (recv_messages-Ends own answer g.messages chat k)))
        ])

  pub fetch_chat-Ends :
      (c : PsdImsClient) (chat_id : ℤ) (g : MessageGrants) (w : W)
      → Holds c
      → is_some (text_at c.user_name) ≡ true
      → g.arrays ≡ true
      → Ends (fetch_chat stubs c chat_id g w)
  unfolding fetch_chat
  fetch_chat-Ends c chat_id g w h n a = elim (Option-cases (cha_find_chat c.chats chat_id)) [
    | inl e ↦ ground (arith, e)
    | inr (chat, e) ↦ rw (e, fetch_chat) (fetch_messages-Ends c chat g w h n a)
  ]

  pub fetch_pending-Ends :
      (c : PsdImsClient) (chat_id : ℤ) (g : MessageGrants) (w : W)
      → Holds c
      → is_some (text_at c.user_name) ≡ true
      → g.arrays ≡ true
      → Ends (fetch_pending stubs c chat_id g w)
  unfolding fetch_pending
  fetch_pending-Ends c chat_id g w h n a = elim (Option-cases (cha_find_chat c.chats chat_id)) [
    | inl e ↦ ground (arith, e)
    | inr (chat, e) ↦ elim (Bool-cases (ltb 0 chat.pending_messages)) [
      | inl t ↦ rw (e, t, fetch_pending) (fetch_messages-Ends c chat g w h n a)
      | inr f ↦ rw (e, f, fetch_pending) refl
    ]
  ]
