-- ===== src/Client/Session/Answers.antt =====
-- What becomes of a friend request that the user answers (client/psd_ims_client.c).
use psd_ims.Prelude.{
  inr, inl, Bool-cases, ◌||◌, ◌∙◌, Bool, ◌≡◌, refl, ap, ◌↔◌, true, Option, none, some, Text, arith,
  if◌then◌else◌, is_some, same_text,
}
use psd_ims.Prelude.Int.{ℤ}
use psd_ims.ItemList.{ok, Status}
use psd_ims.Client.Common.{list_find_item-delete_value, delete_value-ok_iff}
use psd_ims.Client.Requests.{req_del_request, req_find_request}
use psd_ims.Client.Network.{printed, Stub, Stubs, ◌>>=◌, pure, request, when_logged}
use psd_ims.Client.Network.Calls.{net_send_request_accept, net_send_request_decline}
use psd_ims.Client.Network.Sound.{credentials, text_at, request_lem}
use psd_ims.Client.Session.State.{PsdImsClient}
use psd_ims.Client.Session.Sending.{
  forget_request, psd_send_request_accept, psd_send_request_decline,
}
use psd_ims.Client.Session.Holds.{Holds, by_request}

-- What the answer to a request comes to, where the server's own answer is `answer`. Where the server has not
-- taken it, `malloc` has to grant the block in which the fault is printed.
pub record Answered {W : Type 0} (c : PsdImsClient) (user : Text) (error_granted : W → Bool)
    (answer : Option ℤ × W) (r : Option ((PsdImsClient × Status) × W)) : Type 0 where
  pub after : PsdImsClient
  pub status : Status
  pub runs : r ≡ (
      if is_some answer.0 || error_granted answer.1 then some ((after, status), answer.1) else none)
  pub returns_ok :
      (status ≡ ok)
      ↔ ((is_some answer.0 ≡ true) × (is_some (req_find_request c.requests user) ≡ true))
  pub finds :
      (other : Text)
      → req_find_request after.requests other ≡ (
          if is_some answer.0
          then if same_text user other then none else req_find_request c.requests other
          else req_find_request c.requests other)

module _ {W : Type 0} (stubs : Stubs W) where
  forget_ok :
      (c : PsdImsClient) (user : Text) (answer : Option ℤ)
      → Holds c
      → ((forget_request stubs c user answer).1 ≡ ok)
        ↔ ((is_some answer ≡ true) × (is_some (req_find_request c.requests user) ≡ true))
  unfolding req_del_request req_find_request
  forget_ok c user none h = ground arith
  forget_ok c user (some date) h =
      ground (arith, delete_value-ok_iff by_request c.requests user h.requests)

  forget_finds :
      (c : PsdImsClient) (user : Text) (answer : Option ℤ) (other : Text)
      → Holds c
      → req_find_request (forget_request stubs c user answer).0.requests other ≡ (
          if is_some answer
          then if same_text user other then none else req_find_request c.requests other
          else req_find_request c.requests other)
  unfolding req_del_request req_find_request
  forget_finds c user none other h = refl
  forget_finds c user (some date) other h =
      list_find_item-delete_value by_request c.requests user other h.requests

  forgets :
      (c : PsdImsClient) (user : Text) (a : Option ℤ × W)
      → elim (printed stubs.error_granted a) as (λ z. Option ((PsdImsClient × Status) × W)) [
        | none ↦ none
        | some (x, w2) ↦ some (forget_request stubs c user x, w2)
      ]
        ≡ (if is_some a.0 || stubs.error_granted a.1
            then some (forget_request stubs c user a.0, a.1)
            else none)
  forgets c user (some date, w) = refl
  forgets c user (none, w) = elim (Bool-cases (stubs.error_granted w)) [
    | inl e ↦ rw (e) refl
    | inr e ↦ rw (e) refl
  ]

  answer_lem :
      (c : PsdImsClient) (user : Text) (stub : Stub W ℤ) (w : W)
      → Holds c
      → c.network.logged ≡ true
      → Answered c user stubs.error_granted
          (stub (text_at c.network.server_url) (credentials c.network) w)
          ((when_logged c.network (request stubs.error_granted c.network stub) >>= λ answer.
              pure (forget_request stubs c user answer))
            w)
  answer_lem c user stub w h l =
      let a = stub (text_at c.network.server_url) (credentials c.network) w in
      let e : when_logged c.network (request stubs.error_granted c.network stub) w
          ≡ printed stubs.error_granted a =
        rw (l, when_logged) (request_lem stubs.error_granted c.network stub w h.network l) in
      record {
        after = (forget_request stubs c user a.0).0;
        status = (forget_request stubs c user a.0).1;
        runs =
            ap
              (λ q. elim q as (λ z. Option ((PsdImsClient × Status) × W)) [
                | none ↦ none
                | some (x, w2) ↦ some (forget_request stubs c user x, w2)
              ])
              e
            ∙ forgets c user a;
        returns_ok = forget_ok c user a.0 h;
        finds = λ other. forget_finds c user a.0 other h;
      }

  -- A client that is logged in and accepts a request sends that to the server once, with its credentials.
  -- Where the server takes it, the request of that user is gone from the local list and no other one;
  -- where it does not, the list is as before. The result is 0 exactly when the server has taken it and the
  -- request was in the list. It does not fault, but where the server refuses and `malloc` does not grant the
  -- block in which the fault of the call is printed.
  pub psd_send_request_accept-Answered :
      (c : PsdImsClient) (user : Text) (w : W)
      → Holds c
      → c.network.logged ≡ true
      → Answered c user stubs.error_granted
          (stubs.call_accept_request user (text_at c.network.server_url) (credentials c.network) w)
          (psd_send_request_accept stubs c user w)
  unfolding psd_send_request_accept net_send_request_accept
  psd_send_request_accept-Answered c user w h l =
      answer_lem c user (stubs.call_accept_request user) w h l

  -- The same of a request that is declined.
  pub psd_send_request_decline-Answered :
      (c : PsdImsClient) (user : Text) (w : W)
      → Holds c
      → c.network.logged ≡ true
      → Answered c user stubs.error_granted
          (stubs.call_decline_request user (text_at c.network.server_url) (credentials c.network) w)
          (psd_send_request_decline stubs c user w)
  unfolding psd_send_request_decline net_send_request_decline
  psd_send_request_decline-Answered c user w h l =
      answer_lem c user (stubs.call_decline_request user) w h l
