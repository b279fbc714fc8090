-- ===== src/Server/Reads.antt =====
-- Which queries of server/persistence.c only read.
use mathlib.Core.List.{append_assoc, append-nil}
use psd_ims.Prelude.{
  ◌+◌, length, leb, ℕ, ◌≡◌, refl, sym, ◌∙◌, Bool, true, false, ◌||◌, List, [], ◌∷◌, ◌++◌, arith,
  Text, All, ◌==◌, if◌then◌else◌,
}
use psd_ims.Prelude.Int.{ℤ}
use psd_ims.Server.Run.{
  mysql_query, return_if, return_if_null, write_text, Run, M, Conn, done, crash, pure, ◌>>=◌, Reply,
  refused, stored, Row, strcats, send,
}

-- A query that begins with `S` or `s` is a `SELECT`; the others here are `INSERT`, `UPDATE`, `DELETE`.
abbrev pub is_select : Text → Bool
is_select [] = false
is_select (x ∷ xs) = (x == b'S') || (x == b's')

-- From one connection to a later one only such queries have gone out.
pub data OnlyReads (c : Conn) : Conn → Type 0 where
  reads :
      {d : Conn} (qs : List Text)
      → d.sent ≡ c.sent ++ qs
      → All (λ q. is_select q ≡ true) qs
      → OnlyReads c d

-- The same of a run; nothing is claimed of one that crashes.
abbrev pub RunReads {ℓ} : {A : Type ℓ} → Conn → Run A → Type 0
RunReads c (done a d) = OnlyReads c d
RunReads c crash = Unit

pub record Reading {ℓ} {A : Type ℓ} (m : M A) : Type 0 where
  pub run : (c : Conn) → RunReads c (m c)

All-append : (P : Text → Type 0) (xs ys : List Text) → All P xs → All P ys → All P (xs ++ ys)
All-append P [] ys h k = k
All-append P (x ∷ xs) ys h k = (h.0, All-append P xs ys h.1 k)

pub OnlyReads-refl : (c : Conn) → OnlyReads c c
OnlyReads-refl c = reads [] (sym (append-nil c.sent)) tt

OnlyReads-trans : {c d e : Conn} → OnlyReads c d → OnlyReads d e → OnlyReads c e
OnlyReads-trans {c} {d} {e} (reads ps p h) (reads qs q k) =
    reads (ps ++ qs) (q ∙ rw p (append_assoc c.sent ps qs)) (All-append _ ps qs h k)

RunReads-trans {ℓ} :
    {A : Type ℓ} {c d : Conn} (r : Run A) → OnlyReads c d → RunReads d r → RunReads c r
RunReads-trans (done a e) h k = OnlyReads-trans h k
RunReads-trans crash h k = tt

module _ {ℓ} {A : Type ℓ} where
  pub Reading-pure : (a : A) → Reading (pure a)
  Reading-pure a = record { run = λ c. OnlyReads-refl c }

  pub Reading-crash : Reading {A = A} (λ c. crash)
  Reading-crash = record { run = λ c. tt }

  pub Reading-return_if : (b : Bool) (a : A) (m : M A) → Reading m → Reading (return_if b a m)
  Reading-return_if true a m h = Reading-pure a
  Reading-return_if false a m h = h

  pub Reading-if : (b : Bool) (m n : M A) → Reading m → Reading n → Reading (if b then m else n)
  Reading-if true m n h k = h
  Reading-if false m n h k = k

  pub Reading-rows :
      (k : M A) (f : Row → List Row → M A)
      → Reading k
      → ((r : Row) (rs : List Row) → Reading (f r rs))
      → (rows : List Row) → Reading {A = A} (elim rows [ [] ↦ k | r ∷ rs ↦ f r rs ])
  Reading-rows k f h g [] = h
  Reading-rows k f h g (r ∷ rs) = g r rs

  RunReads-if :
      (c : Conn) (b : Bool) (r s : Run A)
      → RunReads c r
      → RunReads c s
      → RunReads c (if b then r else s)
  RunReads-if c true r s h k = h
  RunReads-if c false r s h k = k

  pub Reading-return_if_null : (a : A) (m : M A) → Reading m → Reading (return_if_null a m)
  Reading-return_if_null a m h = record {
    run = λ c. RunReads-if c c.mysql_null (done a c) (m c) (OnlyReads-refl c) (h.run c);
  }

module _ {ℓ κ} {A : Type ℓ} {B : Type κ} where
  RunReads-bind :
      (c : Conn) (r : Run A) (f : A → M B)
      → RunReads c r
      → ((a : A) → Reading (f a))
      → RunReads c (elim r [ done a c' ↦ f a c' | crash ↦ crash ])
  RunReads-bind c (done a d) f p k = RunReads-trans (f a d) p ((k a).run d)
  RunReads-bind c crash f p k = tt

  pub Reading-bind :
      (m : M A) (f : A → M B) → Reading m → ((a : A) → Reading (f a)) → Reading (m >>= f)
  Reading-bind m f h k = record { run = λ c. RunReads-bind c (m c) f (h.run c) k }

pub Reading-write_text : (size : ℕ) (t : Text) → Reading (write_text size t)
Reading-write_text size t = record {
  run = λ c. RunReads-if c (leb (length t + 1) size) (done t c) crash (OnlyReads-refl c) tt;
}

-- The text that the calls of `strcat` build begins as the array did, and nothing is sent.
data Builds (c : Conn) (start : Text) : Run Text → Type 0 where
  built : (rest t : Text) → t ≡ start ++ rest → Builds c start (done t c)
  crashed : Builds c start crash

Builds-more :
    (c : Conn) (start piece : Text) {r : Run Text} → Builds c (start ++ piece) r → Builds c start r
Builds-more c start piece (built rest t e) =
    built (piece ++ rest) t (e ∙ append_assoc start piece rest)
Builds-more c start piece crashed = crashed

Builds-if :
    (c : Conn) (start : Text) (b : Bool) {r : Run Text}
    → Builds c start r
    → Builds c start (if b then r else crash)
Builds-if c start true h = h
Builds-if c start false h = crashed

strcats-Builds :
    (size : ℕ) (start : Text) (ps : List Text) (c : Conn) → Builds c start (strcats size start ps c)
unfolding strcats
strcats-Builds size start [] c = built [] start (sym (append-nil start))
strcats-Builds size start (p ∷ ps) c =
    Builds-if c start (leb (length (start ++ p) + 1) size)
      (Builds-more c start p (strcats-Builds size (start ++ p) ps c))

is_select-append : (s t : Text) → is_select s ≡ true → is_select (s ++ t) ≡ true
is_select-append [] t h = ground arith
is_select-append (x ∷ xs) t h = h

-- After the query has been sent.
RunReads-query {ℓ} :
    {A : Type ℓ} (c : Conn) (q : Text) (r : Run A)
    → is_select q ≡ true
    → RunReads (record c { sent = c.sent ++ q ∷ [] }) r
    → RunReads c r
RunReads-query c q r h k = RunReads-trans r (reads (q ∷ []) refl (h, tt)) k

module _ {ℓ} {A : Type ℓ} where
  pub Reading-query :
      (q : Text) (k : Reply → M A)
      → is_select q ≡ true
      → ((reply : Reply) → Reading (k reply))
      → Reading (mysql_query q >>= k)
  Reading-query q k h r = record { run = λ c. RunReads-query c q _ h ((r _).run _) }

  RunReads-built :
      (c : Conn) (start : Text) {r : Run Text} (k : Text → M A)
      → Builds c start r
      → is_select start ≡ true
      → ((q : Text) → is_select q ≡ true → Reading (k q))
      → RunReads c (elim r [ done t c' ↦ k t c' | crash ↦ crash ])
  RunReads-built c start k (built rest t e) h f = (f t (rw e (is_select-append start rest h))).run c
  RunReads-built c start k crashed h f = tt

  pub Reading-strcats :
      (size : ℕ) (start : Text) (ps : List Text) (k : Text → M A)
      → is_select start ≡ true
      → ((q : Text) → is_select q ≡ true → Reading (k q))
      → Reading (strcats size start ps >>= k)
  Reading-strcats size start ps k h f = record {
    run = λ c. RunReads-built c start k (strcats-Builds size start ps c) h f;
  }

  Reading-reply :
      (a : A) (k : List Row → ℤ → M A)
      → ((rows : List Row) (id : ℤ) → Reading (k rows id))
      → (reply : Reply)
      → Reading {A = A} (elim reply [ refused ↦ pure a | stored rows id ↦ k rows id ])
  Reading-reply a k h refused = Reading-pure a
  Reading-reply a k h (stored rows id) = h rows id

  pub Reading-send :
      (size : ℕ) (start : Text) (ps : List Text) (a : A) (k : List Row → ℤ → M A)
      → is_select start ≡ true
      → ((rows : List Row) (id : ℤ) → Reading (k rows id))
      → Reading (send size start ps a k)
  unfolding send
  Reading-send size start ps a k h r =
      Reading-strcats size start ps _ h (λ q s. Reading-query q _ s (Reading-reply a k r))
