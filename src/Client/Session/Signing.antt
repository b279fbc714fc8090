-- ===== src/Client/Session/Signing.antt =====
-- Logins, logouts and notifications keep the invariant of the client of client/psd_ims_client.c.
use psd_ims.Client.Session.{ReceivedUser}
use psd_ims.Prelude.{
  Option-cases, WhenSome, ℕ, Bool, true, false, Option, none, some, Text, arith, inl, inr,
  Bool-cases,
}
use psd_ims.Prelude.Int.{pos}
use psd_ims.ItemList.{list_new}
use psd_ims.ItemList.Lookup.{IsMap}
use psd_ims.Client.Network.{log_in, lift, printed, ◌>>=◌, pure}
use psd_ims.ItemList.Ring.Life.{empty_list-IsMap}
use psd_ims.Client.Common.{ListInfo}
use psd_ims.Client.Friends.{Friends, fri_new}
use psd_ims.Client.Requests.{FriendRequests, req_new}
use psd_ims.Client.Chats.{Chats, cha_new}
use psd_ims.Client.Chats.Hold.{ChatsHold, by_id}
use psd_ims.Client.Network.{
  points, blank, pure, Pointer, null, ReceivedNotifications, Network, Run, Stubs, net_login,
  net_logout, free, read,
}
use psd_ims.Client.Network.Calls.{net_recv_notifications}
use psd_ims.Client.Network.Sound.{Sound, log_in-Sound}
use psd_ims.Client.Session.Restore.{by_friend}
use psd_ims.Client.Session.State.{
  PsdImsClient, keep_login, max_chats, max_friend_requests, max_friends, new_lists, psd_login,
  psd_logout,
}
use psd_ims.Client.Session.Notifications.{
  synced, RoundGrants, psd_recv_notifications, keep_notifications,
}
use psd_ims.Client.Session.Holds.{Holds, by_request}
use psd_ims.Client.Session.Rounds.{
  After-lift, After, After-bind, After-next, HoldsFirst, keep_notifications-Holds,
}

-- New lists are empty, and valid maps.
pub record NewLists (friends : Friends) (requests : FriendRequests) (chats : Chats) : Type 0 where
  pub friends_map : IsMap by_friend friends
  pub requests_map : IsMap by_request requests
  pub chats_hold : ChatsHold chats

abbrev zero_info : ListInfo
zero_info = record { timestamp = pos 0 }

abbrev pub AllNew : Option (Friends × FriendRequests × Chats) → Type 0
AllNew none = Unit
AllNew (some (friends, requests, chats)) = NewLists friends requests chats

pub new_lists-AllNew :
    (granted1 granted2 granted3 : Bool) → AllNew (new_lists granted1 granted2 granted3)
unfolding fri_new req_new cha_new list_new
new_lists-AllNew false granted2 granted3 = tt
new_lists-AllNew true false granted3 = tt
new_lists-AllNew true true false = tt
new_lists-AllNew true true true = record {
  friends_map = empty_list-IsMap by_friend zero_info max_friends;
  requests_map = empty_list-IsMap by_request zero_info max_friend_requests;
  chats_hold = record { map = empty_list-IsMap by_id zero_info max_chats; each = tt };
}

-- Another client with the same lists and network.
pub same_lists :
    (c : PsdImsClient) (user_name user_pass user_info : Pointer)
    → Holds c
    → Holds (record c { user_name = user_name; user_pass = user_pass; user_info = user_info })
same_lists c user_name user_pass user_info h = record {
  friends = h.friends;
  requests = h.requests;
  chats = h.chats;
  network = h.network;
}

keep_login-Holds :
    (c : PsdImsClient) (name password : Text) (granted : ℕ → Bool) (answer : Option ReceivedUser)
    → Holds c
    → WhenSome HoldsFirst (keep_login c name password granted answer)
unfolding keep_login
keep_login-Holds c name password granted none h = h
keep_login-Holds c name password granted (some u) h = elim (Bool-cases (granted 0)) [
  | inr e ↦ rw (e, keep_login) (same_lists c null c.user_pass c.user_info h)
  | inl e ↦ elim (Bool-cases (granted 1)) [
    | inr f ↦ rw (e, f, keep_login) (same_lists c blank null c.user_info h)
    | inl f ↦ elim (Option-cases u.information) [
      | inl n ↦ rw (e, f, n, keep_login) tt
      | inr (information, n) ↦ elim (Bool-cases (granted 2)) [
        | inr g ↦ rw (e, f, n, g, keep_login) (same_lists c blank blank null h)
        | inl g ↦
            rw (e, f, n, g, keep_login)
              (same_lists c (points name) (points password) (points information) h)
      ]
    ]
  ]
]

module _ {W : Type 0} (stubs : Stubs W) where
  pub psd_recv_notifications-Holds :
      (c : PsdImsClient) (arrays answer sync : Bool) (requests friends : ℕ → Bool)
      (g : ℕ → ℕ → RoundGrants) (w : W)
      → Holds c
      → After HoldsFirst (psd_recv_notifications stubs c arrays answer sync requests friends g w)
  unfolding psd_recv_notifications
  psd_recv_notifications-Holds c arrays answer sync requests friends g w h =
      After-bind HoldsFirst (lift (synced c.chats arrays) w) _ (λ sent w1.
        After-bind HoldsFirst
          (net_recv_notifications stubs c.network c.last_notif_timestamp sent answer sync w1) _
          (λ received w2. go received w2))
    where
      go :
          (received : Option ReceivedNotifications) (w2 : W)
          → After HoldsFirst (
              (elim received as (λ r. Run W (PsdImsClient × Option ℕ)) [
                | none ↦ pure (c, none)
                | some n ↦ do
                  (after, total) ← keep_notifications stubs c n requests friends g
                  pure (after, some total)
              ])
                w2)
      go none w2 = h
      go (some n) w2 =
          After-next HoldsFirst HoldsFirst (keep_notifications stubs c n requests friends g w2) _
            (keep_notifications-Holds stubs c n requests friends g w2 h) (λ r w3 k. k)

  net_login-Sound :
      (net : Network) (name password : Text) (granted : ℕ → Bool) (w : W)
      → Sound net
      → After (λ r. Sound r.0) (net_login stubs net name password granted w)
  unfolding net_login
  net_login-Sound net name password granted w s = elim (Bool-cases (granted 0)) [
    | inr e ↦ rw (e, net_login) s
    | inl e ↦
        rw (e, net_login)
          (After-bind (λ r. Sound r.0) (read net.server_url w) _
            (λ url w2.
              After-bind (λ r. Sound r.0)
                (printed stubs.error_granted (
                  stubs.call_get_user url (record { name = some name; password = some password })
                    w2))
                (λ answer. pure (log_in net name password granted answer))
                (λ answer w3. log_in-Sound net name password granted answer s)))
  ]

  net_logout-Sound : (net : Network) (w : W) → Sound net → After Sound (net_logout net w)
  unfolding net_logout
  net_logout-Sound net w s = After-bind Sound (free net.name w) _ (λ n w2.
      After-bind Sound (free net.password w2) _ (λ p w3. record {
        server_url = s.server_url;
        name = λ h. absurd (ground (arith, h));
        password = λ h. absurd (ground (arith, h));
      }))

  pub psd_login-Holds :
      (c : PsdImsClient) (name password : Text) (net_granted granted : ℕ → Bool) (w : W)
      → Holds c
      → After HoldsFirst (psd_login stubs c name password net_granted granted w)
  unfolding psd_login net_login
  psd_login-Holds c name password net_granted granted w h =
      After-next (λ r. Sound r.0) HoldsFirst (net_login stubs c.network name password net_granted w)
        _ (net_login-Sound c.network name password net_granted w h.network)
        (λ r w2 s. After-lift HoldsFirst _ w2 (
          keep_login-Holds (record c { network = r.0 }) name password granted r.1
            (record { friends = h.friends; requests = h.requests; chats = h.chats; network = s })))

  pub psd_logout-Holds :
      (c : PsdImsClient) (granted : ℕ → Bool) (w : W)
      → Holds c
      → After Holds (psd_logout c granted w)
  unfolding psd_logout net_logout
  psd_logout-Holds c granted w h =
      After-next Sound Holds (net_logout c.network w) _ (net_logout-Sound c.network w h.network)
        (λ network w2 s. After-bind Holds (free c.user_name w2) _ (λ n w3.
          After-bind Holds (free c.user_pass w3) _ (λ p w4.
            After-bind Holds (free c.user_info w4) _ (λ i w5.
              go network s w5 (new_lists (granted 0) (granted 1) (granted 2))
                (new_lists-AllNew (granted 0) (granted 1) (granted 2))))))
    where
      go :
          (net : Network)
          → Sound net
          → (w5 : W) (r : Option (Friends × FriendRequests × Chats)) → AllNew r
          → After Holds (elim r [
            | none ↦ none
            | some (friends, requests, chats) ↦ some (
              record {
                user_name = null;
                user_pass = null;
                user_info = null;
                last_connection = pos 0;
                last_notif_timestamp = pos 0;
                network = net;
                friends = friends;
                requests = requests;
                chats = chats;
              },
              w5,
            )
          ])
      go net s w5 none k = tt
      go net s w5 (some (friends, requests, chats)) k = record {
        friends = k.friends_map;
        requests = k.requests_map;
        chats = k.chats_hold;
        network = s;
      }
