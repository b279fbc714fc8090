-- ===== src/Server/Safety.antt =====
-- `check_login` of server/psd_ims_server.c, and the handlers where it refuses the login.
use mathlib.Core.Path.{subst}
use psd_ims.Server.Gives.{
  Holds, Gives, Gives-return_if, Gives-return_if_null, Gives-send, Gives-rows, Gives-bind,
  Gives-pure,
}
use psd_ims.Prelude.{
  Bool-cases, if◌then◌else◌, codes, ◌+◌, same_text_sound, inr, ◌⊎◌, inl, same_text, ℕ, ◌≡◌, refl,
  Bool, false, Option, none, some, List, [], ◌∷◌, arith, Text, leb, length,
}
use psd_ims.Prelude.Int.{ℤ, pos, negsuc}
use psd_ims.Server.Run.{minus_one, pure, Run, M, Conn, done, crash, Row, column, nth_column}
use psd_ims.Server.Reads.{
  OnlyReads-refl, Reading-rows, Reading-if, Reading, RunReads, Reading-pure, Reading-crash,
  Reading-return_if, Reading-return_if_null, Reading-bind, Reading-send,
}
use psd_ims.Server.Persistence.Users.{
  select_pass, max_query_chars, get_user_id, get_user_pass, id_of_rows,
}
use psd_ims.Server.Handlers.Account.{user_unregister}
use psd_ims.Server.Handlers.Friendship.{send_friend_request, accept_request, decline_request}
use psd_ims.Server.Handlers.Membership.{
  NewChat, create_chat, add_member, remove_member, quit_from_chat,
}
use psd_ims.Server.Handlers.Messaging.{send_message, get_pending_notifications}
use psd_ims.Server.Persistence.MessageTable.{OutMessage}
use psd_ims.Server.Persistence.Notifications.{ChatTime}
use psd_ims.Server.Login.{LoginInfo, Env, check_named, check_login, with_login}

Reading-column : (r : Row) (i : ℕ) → Reading (column r i)
Reading-column r i = go (nth_column r i)
  where
    go : (o : Option Text) → Reading {A = Text} (λ c. elim o [ none ↦ crash | some t ↦ done t c ])
    go none = Reading-crash
    go (some t) = Reading-pure t

id_of_rows-Reading : (rows : List Row) (id : ℤ) → Reading (id_of_rows rows id)
id_of_rows-Reading [] id = Reading-pure _
id_of_rows-Reading (r ∷ rs) id =
    Reading-bind (column r 0) _ (Reading-column r 0) (λ t. Reading-pure _)

get_user_id-Reading : (name : Text) → Reading (get_user_id name)
unfolding get_user_id
get_user_id-Reading name =
    Reading-return_if_null _ _
      (Reading-return_if _ _ _ (Reading-send _ _ _ _ _ refl id_of_rows-Reading))

get_user_pass-Reading :
    (name buff : Text) (max_chars : ℕ) → Reading (get_user_pass name buff max_chars)
unfolding get_user_pass
get_user_pass-Reading name buff max_chars = Reading-return_if_null _ _ (
    Reading-return_if _ _ _ (
      Reading-send _ _ _ _ _ refl (λ rows id.
        Reading-rows _ _ (Reading-pure _)
          (λ r rs. Reading-bind (column r 0) _ (Reading-column r 0) (λ pass.
            Reading-if (leb max_chars (length pass)) _ _ (Reading-pure _) (Reading-pure _)))
          rows)))

check_named-Reading : (garbage name password : Text) → Reading (check_named garbage name password)
unfolding check_named
check_named-Reading garbage name password =
    Reading-bind (get_user_id name) _ (get_user_id-Reading name) λ id. Reading-return_if _ _ _ (
      Reading-bind (get_user_pass name garbage 50) _ (get_user_pass-Reading name garbage 50)
        λ (code, pass). Reading-if (same_text password pass) _ _ (Reading-pure _) (Reading-pure _))

-- Whatever the MySQL server answers, `check_login` sends it nothing but queries that begin as a `SELECT`, where
-- it does not crash.
pub check_login-Reading :
    (garbage : Text) (login : Option LoginInfo) → Reading (check_login garbage login)
unfolding check_login
check_login-Reading garbage none = Reading-pure _
check_login-Reading garbage (some login) = go login.name login.password
  where
    go :
        (name password : Option Text)
        → Reading {A = ℤ} (elim name [
          | none ↦ pure minus_one
          | some n ↦ elim password [ none ↦ pure minus_one | some p ↦ check_named garbage n p ]
        ])
    go none password = Reading-pure _
    go (some n) none = Reading-pure _
    go (some n) (some p) = check_named-Reading garbage n p

-- The array is left alone where `get_user_pass` fails.
abbrev Settles : Text → ℤ × Text → Type 0
Settles garbage r = (r.0 ≡ pos 0) ⊎ ((r.0 ≡ minus_one) × (r.1 ≡ garbage))

get_user_pass-Settles :
    (name garbage : Text) (max_chars : ℕ)
    → Gives (Settles garbage) (get_user_pass name garbage max_chars)
unfolding get_user_pass
get_user_pass-Settles name garbage max_chars =
    let P = Settles garbage in
    let no : P (minus_one, garbage) = inr (refl, refl) in
    Gives-return_if_null P (minus_one, garbage) _ no
      (Gives-return_if P (leb max_query_chars (length name + length select_pass + 2))
        (minus_one, garbage) _ no
        (Gives-send P max_query_chars select_pass (name ∷ codes "') and (VALID = 1));" ∷ [])
          (minus_one, garbage) _ no
          (λ rows id.
            Gives-rows P (pure (minus_one, garbage)) _ (Gives-pure P (minus_one, garbage) no)
              (λ r rs.
                Gives-bind P (column r 0)
                  (λ pass.
                    if leb max_chars (length pass)
                    then pure (minus_one, garbage)
                    else pure (pos 0, pass))
                  (λ pass. elim (Bool-cases (leb max_chars (length pass))) [
                    | inl t ↦ rw (t) (Gives-pure P (minus_one, garbage) no)
                    | inr t ↦ rw (t) (Gives-pure P (pos 0, pass) (inl refl))
                  ]))
              rows)))

-- What an accepted login has behind it.
pub record Accepted (garbage : Text) (login : Option LoginInfo) (c c' : Conn) (id : ℕ)
    : Type 0 where
  pub name : Text
  pub password : Text
  pub between : Conn
  pub code : ℤ
  pub given : login ≡ some (record { name = some name; password = some password })
  pub known : get_user_id name c ≡ done (pos id) between
  pub matches : get_user_pass name garbage 50 between ≡ done (code, password) c'
  pub settled : (code ≡ pos 0) ⊎ ((code ≡ minus_one) × (password ≡ garbage))

Run-cases {ℓ} : {A : Type ℓ} (r : Run A) → ((a : A) × (c : Conn) × (r ≡ done a c)) ⊎ (r ≡ crash)
Run-cases (done a c) = inl (a, c, refl)
Run-cases crash = inr refl

check_named_sound :
    (garbage name password : Text) (c c' : Conn) (id : ℕ)
    → check_named garbage name password c ≡ done (pos id) c'
    → Accepted garbage (some (record { name = some name; password = some password })) c c' id
unfolding check_named
check_named_sound garbage name password c c' id h = elim (Run-cases (get_user_id name c)) [
  | inr e ↦ absurd (ground (arith, e))
  | inl (i, d, e) ↦ elim (Run-cases (get_user_pass name garbage 50 d)) [
    | inr f ↦ absurd (ground (arith, e, f))
    | inl (p, d', f) ↦ record {
      name = name;
      password = password;
      between = d;
      code = p.0;
      given = refl;
      known = ground (arith, e, f);
      matches = ground (arith, e, f, same_text_sound password p.1);
      settled =
          subst (λ x. (p.0 ≡ pos 0) ⊎ ((p.0 ≡ minus_one) × (x ≡ garbage)))
            (ground (arith, h, e, f, same_text_sound password p.1))
            (subst (Holds (Settles garbage)) f ((get_user_pass-Settles name garbage 50).run d));
    }
  ]
]

-- A login that is accepted gave the name of a user: its id is the one that the database has for the name. Its
-- password is the one that `get_user_pass` has put into the array with the code 0, or `get_user_pass` has failed
-- and the password is the text that the array happened to hold, which is not initialised.
pub check_login_sound :
    (garbage : Text) (login : Option LoginInfo) (c c' : Conn) (id : ℕ)
    → check_login garbage login c ≡ done (pos id) c'
    → Accepted garbage login c c' id
unfolding check_login
check_login_sound garbage none c c' id h = absurd (ground arith)
check_login_sound garbage (some login) c c' id h = go login.name login.password refl refl
  where
    go :
        (n p : Option Text)
        → login.name ≡ n
        → login.password ≡ p
        → Accepted garbage (some login) c c' id
    go none p en ep = absurd (ground (arith, en))
    go (some n) none en ep = absurd (ground (arith, en, ep))
    go (some n) (some p) en ep =
        let a = check_named_sound garbage n p c c' id (ground (arith, en, ep)) in
        record {
          name = a.name;
          password = a.password;
          between = a.between;
          code = a.code;
          given = ground (arith, a.given, en, ep);
          known = a.known;
          matches = a.matches;
          settled = a.settled;
        }

-- The beginning of a handler, where the login is refused.
with_login_refused {ℓ} :
    {A : Type ℓ} (env : Env) (arguments_null : Bool) (login : Option LoginInfo) (error : A)
    (body : ℤ → M A) (c c' : Conn) (n : ℕ)
    → check_login env.garbage login c ≡ done (negsuc n) c'
    → (with_login env arguments_null login error body c ≡ done error c)
      ⊎ (with_login env arguments_null login error body c ≡ done error c')
unfolding with_login
with_login_refused env arguments_null login error body c c' n h = ground (arith, h)

refused-RunReads {ℓ} :
    {A : Type ℓ} (env : Env) (arguments_null : Bool) (login : Option LoginInfo) (error : A)
    (body : ℤ → M A) (c c' : Conn) (n : ℕ)
    → check_login env.garbage login c ≡ done (negsuc n) c'
    → RunReads c (with_login env arguments_null login error body c)
refused-RunReads env arguments_null login error body c c' n h =
    elim (with_login_refused env arguments_null login error body c c' n h) [
      | inl e ↦ rw e (OnlyReads-refl c)
      | inr e ↦ rw e (rw h at ((check_login-Reading env.garbage login).run c))
    ]

-- Where `check_login` refuses the login, none of these ten handlers, which change the database for an
-- accepted one, sends anything but `SELECT` queries.
pub refused_login_no_write :
    (env : Env) (null : Bool) (login : Option LoginInfo) (name : Option Text)
    (chat : Option NewChat) (message : Option OutMessage) (chat_id timestamp : ℤ)
    (sync : List ChatTime) (rounds : ℕ) (clock : ℕ → ℤ) (c c' : Conn) (n : ℕ)
    → check_login env.garbage login c ≡ done (negsuc n) c'
    → RunReads c (user_unregister env login c)
      × RunReads c (send_friend_request env null login name c)
      × RunReads c (accept_request env null login name c)
      × RunReads c (decline_request env null login name c)
      × RunReads c (create_chat env null login chat c)
      × RunReads c (add_member env login name chat_id c)
      × RunReads c (remove_member env login name chat_id c)
      × RunReads c (quit_from_chat env login chat_id c)
      × RunReads c (send_message rounds clock env null login chat_id message c)
      × RunReads c (get_pending_notifications env null login timestamp sync c)
unfolding user_unregister send_friend_request accept_request decline_request create_chat add_member
    remove_member quit_from_chat send_message get_pending_notifications
refused_login_no_write env null login name chat message chat_id timestamp sync rounds clock c c' n
      h =
    (
      refused-RunReads env _ login _ _ c c' n h,
      elim name as (λ o. RunReads c (send_friend_request env null login o c)) [
        | none ↦ OnlyReads-refl c
        | some x ↦ refused-RunReads env null login _ _ c c' n h
      ],
      elim name as (λ o. RunReads c (accept_request env null login o c)) [
        | none ↦ OnlyReads-refl c
        | some x ↦ refused-RunReads env null login _ _ c c' n h
      ],
      elim name as (λ o. RunReads c (decline_request env null login o c)) [
        | none ↦ OnlyReads-refl c
        | some x ↦ refused-RunReads env null login _ _ c c' n h
      ],
      elim chat as (λ o. RunReads c (create_chat env null login o c)) [
        | none ↦ OnlyReads-refl c
        | some x ↦ refused-RunReads env null login _ _ c c' n h
      ],
      elim name as (λ o. RunReads c (add_member env login o chat_id c)) [
        | none ↦ OnlyReads-refl c
        | some x ↦ refused-RunReads env false login _ _ c c' n h
      ],
      elim name as (λ o. RunReads c (remove_member env login o chat_id c)) [
        | none ↦ OnlyReads-refl c
        | some x ↦ refused-RunReads env false login _ _ c c' n h
      ],
      refused-RunReads env false login _ _ c c' n h,
      elim message as (λ o. RunReads c (send_message rounds clock env null login chat_id o c)) [
        | none ↦ OnlyReads-refl c
        | some x ↦ refused-RunReads env null login _ _ c c' n h
      ],
      refused-RunReads env null login _ _ c c' n h,
    )
