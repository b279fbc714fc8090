-- ===== src/Client/Session/Logins.antt =====
-- Logins and logouts of client/psd_ims_client.c.
use mathlib.Core.Path.{subst}
use psd_ims.Client.Session.Rounds.{After-lift, After, After-bind, After-next}
use psd_ims.Prelude.{
  WhenSome, Option-cases, ℕ, ap, sym, ◌≡◌, refl, ◌∙◌, Bool, true, false, ◌&&◌, Option, none, some,
  [], Text, arith, inl, inr, Bool-cases,
}
use psd_ims.Prelude.Int.{pos}
use psd_ims.ItemList.{Status, ok}
use psd_ims.Client.Session.{ReceivedUser}
use psd_ims.Client.Network.{
  pure, printed, after_free, Network, Pointer, null, wild, blank, points, Stubs, net_login, log_in,
  read,
}
use psd_ims.Client.Network.Sound.{credentials}
use psd_ims.Client.Session.State.{PsdImsClient, keep_login, psd_login}
use psd_ims.Client.Session.Holds.{by_request}
use psd_ims.ItemList.Ring.Life.{empty_list}
use psd_ims.Client.Common.{ListInfo}
use psd_ims.Client.Session.Restore.{by_friend}
use psd_ims.Client.Session.State.{max_friends, max_chats, max_friend_requests}
use psd_ims.Client.Chats.Hold.{by_id}
use psd_ims.Client.Session.Acts
use psd_ims.Client.Session.Acts.{Act, act, safe}

-- What a successful login leaves.
pub record LoggedIn (c : PsdImsClient) (name password : Text) : Type 0 where
  pub logged : c.network.logged ≡ true
  pub sends : credentials c.network ≡ record { name = some name; password = some password }
  pub user_name : c.user_name ≡ points name
  pub can_log_out :
      (granted : ℕ → Bool) → safe (Acts.logout granted) c ≡ (granted 0 && granted 1 && granted 2)

-- What a logout leaves.
pub record LoggedOut (c : PsdImsClient) : Type 0 where
  pub logged : c.network.logged ≡ false
  pub user_name : c.user_name ≡ null
  pub user_pass : c.user_pass ≡ null
  pub user_info : c.user_info ≡ null
  pub last_notif_timestamp : c.last_notif_timestamp ≡ pos 0
  pub friends : c.friends.items ≡ []
  pub requests : c.requests.items ≡ []
  pub chats : c.chats.items ≡ []

log_in-some :
    (net : Network) (name password : Text) (granted : ℕ → Bool) (answer : Option ReceivedUser)
    (u : ReceivedUser)
    → (log_in net name password granted answer).1 ≡ some u
    → (log_in net name password granted answer).0
      ≡ record net { name = points name; password = points password; logged = true }
unfolding log_in
log_in-some net name password granted none u e = absurd (ground (arith, e))
log_in-some net name password granted (some v) u e = ground (arith, e)

keep_login-ok :
    (c : PsdImsClient) (name password : Text) (granted : ℕ → Bool) (u : ReceivedUser)
    (after : PsdImsClient)
    → keep_login c name password granted (some u) ≡ some (after, ok)
    → (information : Text) × (after ≡ record c {
      user_name = points name;
      user_pass = points password;
      user_info = points information;
    })
unfolding keep_login
keep_login-ok c name password granted u after e = elim (Option-cases u.information) [
  | inl n ↦ absurd (ground (arith, e, n))
  | inr (information, n) ↦ (information, ground (arith, e, n))
]

logged_in :
    (c : PsdImsClient) (net : Network) (information name password : Text)
    → LoggedIn
        (record c {
          network = record net { name = points name; password = points password; logged = true };
          user_name = points name;
          user_pass = points password;
          user_info = points information;
        })
        name
        password
logged_in c net information name password = record {
  logged = refl;
  sends = refl;
  user_name = refl;
  can_log_out = λ granted. refl;
}

-- The answer of the server, and what the client makes of it.
keep_login-LoggedIn :
    (c : PsdImsClient) (net : Network) (name password : Text) (net_granted granted : ℕ → Bool)
    (answer : Option ReceivedUser) (r : Network × Option ReceivedUser) (after : PsdImsClient)
    → log_in net name password net_granted answer ≡ r
    → keep_login (record c { network = r.0 }) name password granted r.1 ≡ some (after, ok)
    → LoggedIn after name password
keep_login-LoggedIn c net name password net_granted granted answer (network, none) after e h =
    absurd (unfold keep_login in ground (arith, h))
keep_login-LoggedIn c net name password net_granted granted answer (network, some u) after e h =
    let n = log_in-some net name password net_granted answer u (ap (λ x. x.1) e) in
    let k = keep_login-ok (record c { network = network }) name password granted u after h in
    subst (λ x. LoggedIn x name password) (sym k.1)
      (subst
        (λ x.
          LoggedIn
            (record c {
              network = x;
              user_name = points name;
              user_pass = points password;
              user_info = points k.0;
            })
            name password)
        (sym n ∙ ap (λ x. x.0) e) (logged_in c net k.0 name password))

keep_login-When :
    (c : PsdImsClient) (name password : Text) (granted : ℕ → Bool) (answer : Option ReceivedUser)
    (Q : PsdImsClient × Status → Type 0)
    → ((x : PsdImsClient × Status) → keep_login c name password granted answer ≡ some x → Q x)
    → WhenSome Q (keep_login c name password granted answer)
keep_login-When c name password granted answer Q h =
    go (keep_login c name password granted answer) h
  where
    go :
        (o : Option (PsdImsClient × Status))
        → ((x : PsdImsClient × Status) → o ≡ some x → Q x)
        → WhenSome Q o
    go none k = tt
    go (some x) k = k x refl

module _ {W : Type 0} (stubs : Stubs W) where
  net_login-log_in :
      (net : Network) (name password : Text) (granted : ℕ → Bool) (w : W)
      → After
          (λ r. (a : Option ReceivedUser) × (log_in net name password granted a ≡ r))
          (net_login stubs net name password granted w)
  unfolding net_login
  net_login-log_in net name password granted w = elim (Bool-cases (granted 0)) [
    | inr e ↦ rw (e, net_login) (none, unfold log_in in refl)
    | inl e ↦
        rw (e, net_login)
          (After-bind (λ r. (a : Option ReceivedUser) × (log_in net name password granted a ≡ r))
            (read net.server_url w) _
            (λ url w2.
              After-bind (λ r. (a : Option ReceivedUser) × (log_in net name password granted a ≡ r))
                (printed stubs.error_granted (
                  stubs.call_get_user url (record { name = some name; password = some password })
                    w2))
                (λ answer. pure (log_in net name password granted answer))
                (λ answer w3. (answer, refl))))
  ]

  -- A login that succeeds leaves the client logged in, with the given name and password as the credentials of
  -- its network and the given name as its user's; a logout is then safe exactly where `malloc` grants the new
  -- lists.
  pub psd_login-LoggedIn :
      (c after : PsdImsClient) (name password : Text) (net_granted granted : ℕ → Bool) (w w2 : W)
      → psd_login stubs c name password net_granted granted w ≡ some ((after, ok), w2)
      → LoggedIn after name password
  unfolding psd_login
  psd_login-LoggedIn c after name password net_granted granted w w2 e =
      let Q : PsdImsClient × Status → Type 0 = λ r. r.1 ≡ ok → LoggedIn r.0 name password in
      subst (After Q) e
        (After-next
          (λ r. (a : Option ReceivedUser) × (log_in c.network name password net_granted a ≡ r)) Q
          (net_login stubs c.network name password net_granted w) _
          (net_login-log_in c.network name password net_granted w)
          (λ r w3 k. After-lift Q _ w3 (
            keep_login-When (record c { network = r.0 }) name password granted r.1 Q
              (λ x h t.
                keep_login-LoggedIn c c.network name password net_granted granted k.0 r x.0 k.1
                  (h ∙ ap (λ s. some (x.0, s)) t)))))
        refl

abbrev zero_info : ListInfo
zero_info = record { timestamp = pos 0 }

-- The client after a logout.
abbrev logged_out : PsdImsClient → PsdImsClient
logged_out c = record {
  user_name = null;
  user_pass = null;
  user_info = null;
  last_connection = pos 0;
  last_notif_timestamp = pos 0;
  network = record c.network {
    logged = false;
    name = after_free c.network.name;
    password = after_free c.network.password;
  };
  friends = empty_list by_friend zero_info max_friends;
  requests = empty_list by_request zero_info max_friend_requests;
  chats = empty_list by_id zero_info max_chats;
}

abbrev pub is_null_pointer : Pointer → Bool
is_null_pointer null = true
is_null_pointer wild = false
is_null_pointer blank = false
is_null_pointer (points t) = false
