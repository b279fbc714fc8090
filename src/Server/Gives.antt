-- ===== src/Server/Gives.antt =====
-- What holds of the value that a run of the server's code gives, whatever MySQL answers.
use psd_ims.Prelude.{[], ◌∷◌, ℕ, Bool, true, false, Text, List, if◌then◌else◌}
use psd_ims.Prelude.Int.{ℤ}
use psd_ims.Server.Run.{
  Run, M, Conn, done, crash, pure, ◌>>=◌, Reply, refused, stored, Row, strcats, mysql_query, send,
  return_if, return_if_null,
}

abbrev pub Holds {ℓ} : {A : Type ℓ} → (A → Type 0) → Run A → Type 0
Holds P (done a c) = P a
Holds P crash = Unit

pub record Gives {ℓ} {A : Type ℓ} (P : A → Type 0) (m : M A) : Type 0 where
  pub run : (c : Conn) → Holds P (m c)

Holds-if {ℓ} :
    {A : Type ℓ} (P : A → Type 0) (b : Bool) (r s : Run A)
    → Holds P r
    → Holds P s
    → Holds P (if b then r else s)
Holds-if P true r s h k = h
Holds-if P false r s h k = k

Holds-bind {ℓ κ} :
    {A : Type ℓ} {B : Type κ} (P : A → Type 0) (Q : B → Type 0) (r : Run A) (f : A → M B)
    → Holds P r
    → ((a : A) → P a → Gives Q (f a))
    → Holds Q (elim r [ done a c' ↦ f a c' | crash ↦ crash ])
Holds-bind P Q (done a c) f h k = (k a h).run c
Holds-bind P Q crash f h k = tt

anything {ℓ} : {A : Type ℓ} (r : Run A) → Holds (λ _. Unit) r
anything (done a c) = tt
anything crash = tt

module _ {ℓ} {A : Type ℓ} (P : A → Type 0) where
  pub Gives-pure : (a : A) → P a → Gives P (pure a)
  Gives-pure a h = record { run = λ c. h }

  pub Gives-crash : Gives {A = A} P (λ c. crash)
  Gives-crash = record { run = λ c. tt }

  pub Gives-if :
      (b : Bool) (m n : M A) → Gives P m → Gives P n → Gives P (λ c. if b then m c else n c)
  Gives-if b m n h k = record { run = λ c. Holds-if P b (m c) (n c) (h.run c) (k.run c) }

  pub Gives-rows :
      (m : M A) (f : Row → List Row → M A)
      → Gives P m
      → ((r : Row) (rs : List Row) → Gives P (f r rs))
      → (rows : List Row) → Gives {A = A} P (elim rows [ [] ↦ m | r ∷ rs ↦ f r rs ])
  Gives-rows m f h g [] = h
  Gives-rows m f h g (r ∷ rs) = g r rs

  pub Gives-return_if : (b : Bool) (a : A) (m : M A) → P a → Gives P m → Gives P (return_if b a m)
  Gives-return_if b a m h k = record { run = λ c. Holds-if P b (done a c) (m c) h (k.run c) }

  pub Gives-return_if_null : (a : A) (m : M A) → P a → Gives P m → Gives P (return_if_null a m)
  Gives-return_if_null a m h k = record {
    run = λ c. Holds-if P c.mysql_null (done a c) (m c) h (k.run c);
  }

  pub Gives-bind {κ} :
      {B : Type κ} (m : M B) (f : B → M A) → ((b : B) → Gives P (f b)) → Gives P (m >>= f)
  Gives-bind m f k = record {
    run = λ c. Holds-bind (λ _. Unit) P (m c) f (anything (m c)) (λ b _. k b);
  }

  pub Gives-bind_with {κ} :
      {B : Type κ} (Q : B → Type 0) (m : M B) (f : B → M A)
      → Gives Q m
      → ((b : B) → Q b → Gives P (f b))
      → Gives P (m >>= f)
  Gives-bind_with Q m f h k = record { run = λ c. Holds-bind Q P (m c) f (h.run c) k }

  Gives-reply :
      (a : A) (k : List Row → ℤ → M A)
      → P a
      → ((rows : List Row) (id : ℤ) → Gives P (k rows id))
      → (reply : Reply)
      → Gives {A = A} P (elim reply [ refused ↦ pure a | stored rows id ↦ k rows id ])
  Gives-reply a k h f refused = Gives-pure a h
  Gives-reply a k h f (stored rows id) = f rows id

  pub Gives-send :
      (size : ℕ) (start : Text) (ps : List Text) (a : A) (k : List Row → ℤ → M A)
      → P a
      → ((rows : List Row) (id : ℤ) → Gives P (k rows id))
      → Gives P (send size start ps a k)
  unfolding send
  Gives-send size start ps a k h f =
      Gives-bind (strcats size start ps) _ (λ q. Gives-bind (mysql_query q) _ (Gives-reply a k h f))
