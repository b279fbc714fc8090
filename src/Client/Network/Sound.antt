-- ===== src/Client/Network/Sound.antt =====
-- The pointers of client/network.c: when a call can read them.
use psd_ims.Prelude.{ℕ, ◌≡◌, refl, Bool, true, false, Option, none, some, Text, arith}
use psd_ims.Client.Session.{ReceivedUser}
use psd_ims.Client.Network.{
  printed, after_free, Credentials, Network, Pointer, null, wild, blank, points, read, free, Stub,
  request, log_in, net_bind_network, net_logout,
}

abbrev pub can_read : Pointer → Bool
can_read null = true
can_read wild = false
can_read blank = false
can_read (points t) = true

abbrev pub can_free : Pointer → Bool
can_free null = true
can_free wild = false
can_free blank = true
can_free (points t) = true

-- The string at a pointer that can be read.
abbrev pub text_at : Pointer → Option Text
text_at null = none
text_at wild = none
text_at blank = none
text_at (points t) = some t

abbrev pub credentials : Network → Credentials
credentials net = record { name = text_at net.name; password = text_at net.password }

-- The address can be read at all times, and the credentials as long as the network says that it is logged in.
pub record Sound (net : Network) : Type 0 where
  pub server_url : can_read net.server_url ≡ true
  pub name : net.logged ≡ true → can_read net.name ≡ true
  pub password : net.logged ≡ true → can_read net.password ≡ true

module _ {W : Type 0} where
  pub read_lem : (p : Pointer) (w : W) → can_read p ≡ true → read p w ≡ some (text_at p, w)
  read_lem null w h = refl
  read_lem wild w h = absurd (ground (arith, h))
  read_lem blank w h = absurd (ground (arith, h))
  read_lem (points t) w h = refl

  pub free_lem : (p : Pointer) (w : W) → can_free p ≡ true → free p w ≡ some (tt, w)
  free_lem null w h = refl
  free_lem wild w h = absurd (ground (arith, h))
  free_lem blank w h = refl
  free_lem (points t) w h = refl

  -- In a sound network that is logged in a stub gets the address and the credentials.
  pub request_lem :
      {A : Type 0} (error_granted : W → Bool) (net : Network) (stub : Stub W A) (w : W)
      → Sound net
      → net.logged ≡ true
      → request error_granted net stub w
        ≡ printed error_granted (stub (text_at net.server_url) (credentials net) w)
  request_lem error_granted net stub w s h = ground (
    arith,
    read_lem net.server_url w s.server_url,
    read_lem net.name w (s.name h),
    read_lem net.password w (s.password h),
  )

  pub net_logout_lem :
      (net : Network) (w : W)
      → can_free net.name ≡ true
      → can_free net.password ≡ true
      → net_logout net w
        ≡ some (
          record net {
            logged = false;
            name = after_free net.name;
            password = after_free net.password;
          },
          w,
        )
  unfolding net_logout
  net_logout_lem net w n p = ground (arith, free_lem net.name w n, free_lem net.password w p)

pub log_in-Sound :
    (net : Network) (name password : Text) (granted : ℕ → Bool) (answer : Option ReceivedUser)
    → Sound net
    → Sound (log_in net name password granted answer).0
unfolding log_in
log_in-Sound net name password granted none s = s
log_in-Sound net name password granted (some u) s = record {
  server_url = ground (arith, s.server_url);
  name = λ h. ground (arith, h);
  password = λ h. ground (arith, h, s.password);
}

pub net_bind_network-Sound :
    (net : Network) (url : Text) (granted : Bool)
    → Sound net
    → Sound (net_bind_network net url granted).0
unfolding net_bind_network
net_bind_network-Sound net url granted s = record {
  server_url = ground arith;
  name = λ h. ground (arith, h, s.name);
  password = λ h. ground (arith, h, s.password);
}
