-- ===== src/Server/Strings.antt =====
-- When the `strcat` calls of server/persistence.c stay within their array.
use mathlib.Core.List.{append_assoc, append-nil}
use psd_ims.Prelude.{
  ℕ, ◌+◌, ◌≤◌, ◌<◌, ◌≡◌, refl, List, [], ◌∷◌, ◌++◌, arith, length, length-append, Text,
}
use psd_ims.Prelude.Int.{ℤ}
use psd_ims.Server.Run.{M, Conn, done, crash, strcats, Row, Reply, refused, stored, send}

-- The pieces behind one another.
abbrev pub joined : List Text → Text
joined [] = []
joined (p ∷ ps) = p ++ joined ps

abbrev pub total : List Text → ℕ
total [] = 0
total (p ∷ ps) = length p + total ps

pub length-joined : (ps : List Text) → length (joined ps) ≡ total ps
length-joined [] = refl
length-joined (p ∷ ps) = omega (arith, length-append p (joined ps), length-joined ps)

-- The calls end well exactly when the whole text fits with its NUL.
pub strcats_fits :
    (size : ℕ) (buff : Text) (ps : List Text) (c : Conn)
    → length buff + total ps < size
    → strcats size buff ps c ≡ done (buff ++ joined ps) c
unfolding strcats
strcats_fits size buff [] c h = rw append-nil
strcats_fits size buff (p ∷ ps) c h = ground (
  arith,
  strcats_fits size (buff ++ p) ps c,
  length-append buff p,
  append_assoc buff p (joined ps),
)

pub strcats_overruns :
    (size : ℕ) (buff : Text) (ps : List Text) (c : Conn)
    → length buff < size
    → size ≤ length buff + total ps
    → strcats size buff ps c ≡ crash
unfolding strcats
strcats_overruns size buff [] c b h = absurd (omega arith)
strcats_overruns size buff (p ∷ ps) c b h =
    ground (arith, strcats_overruns size (buff ++ p) ps c, length-append buff p)

-- The connection when one more query is out.
abbrev pub sent_text : Conn → Text → Conn
sent_text c q = record c { sent = c.sent ++ q ∷ [] }

module _ {ℓ} {A : Type ℓ} where
  -- What becomes of the run once the query is out.
  abbrev pub on_reply : Reply → A → (List Row → ℤ → M A) → M A
  on_reply refused a k c = done a c
  on_reply (stored rows id) a k c = k rows id c

  pub send_fits :
      (size : ℕ) (start : Text) (ps : List Text) (a : A) (k : List Row → ℤ → M A) (c : Conn)
      → length start + total ps < size
      → send size start ps a k c
        ≡ on_reply
            (c.answer (c.sent ++ (start ++ joined ps) ∷ []))
            a
            k
            (sent_text c (start ++ joined ps))
  unfolding send
  send_fits size start ps a k c h = ground (arith, strcats_fits size start ps c h)

  pub send_overruns :
      (size : ℕ) (start : Text) (ps : List Text) (a : A) (k : List Row → ℤ → M A) (c : Conn)
      → length start < size
      → size ≤ length start + total ps
      → send size start ps a k c ≡ crash
  unfolding send
  send_overruns size start ps a k c b h = ground (arith, strcats_overruns size start ps c b h)
