-- ===== src/Server/Waiting.antt =====
-- The loop of `psdims__send_message` that waits for a second without a message.
use mathlib.Core.Path.{subst}
use psd_ims.Prelude.{
  ℕ, zero, suc, ◌+◌, ◌<◌, ◌≡◌, refl, Option, none, some, List, [], ◌∷◌, ◌++◌, arith, length, Text,
  codes,
}
use psd_ims.Prelude.Int.{ℤ, pos}
use psd_ims.Server.Run.{Run, Conn, pure, done, Reply, refused, stored, show_int, minus_one}
use psd_ims.Server.Digits.{IsInt32, length-show_int32}
use psd_ims.Server.Strings.{send_fits, joined, on_reply, sent_text}
use psd_ims.Server.Persistence.MessageTable.{exist_timestamp_in_messages}
use psd_ims.Server.Handlers.Messaging.{wait_for_time}

abbrev select_time : Text
select_time = codes "SELECT CREATION_TIME from messages where ((ID_CHAT = "

abbrev time_pieces : (chat_id t : ℤ) → List Text
time_pieces chat_id t =
    show_int chat_id ∷ codes ") and (CREATION_TIME = " ∷ show_int t ∷ codes "));" ∷ []

-- The query whether a chat has a message of a second.
abbrev pub time_query : (chat_id t : ℤ) → Text
time_query chat_id t = select_time ++ joined (time_pieces chat_id t)

exist_timestamp_fits :
    (chat_id t : ℤ) (c : Conn)
    → IsInt32 chat_id
    → IsInt32 t
    → exist_timestamp_in_messages chat_id t c
      ≡ on_reply
          (c.answer (c.sent ++ time_query chat_id t ∷ []))
          minus_one
          (λ rows id. pure (pos (length rows)))
          (sent_text c (time_query chat_id t))
unfolding exist_timestamp_in_messages
exist_timestamp_fits chat_id t c hc ht =
    let lc = length-show_int32 chat_id hc in
    let lt = length-show_int32 t ht in
    ground (
      arith,
      send_fits 200 select_time (time_pieces chat_id t) minus_one
          (λ rows id. pure (pos (length rows))) c,
    )

-- The waiting loop came to an end with a time.
pub record Ends (r : Run (Option ℤ)) : Type 0 where
  pub time : ℤ
  pub conn : Conn
  pub ends : r ≡ done (some time) conn

-- MySQL answers the query for the time `t` with no row, whatever has been sent before.
abbrev pub Free : (answer : List Text → Reply) → (chat_id id t : ℤ) → Type 0
Free answer chat_id id t =
    (before : List Text) → answer (before ++ time_query chat_id t ∷ []) ≡ stored [] id

waits_on :
    (rounds : ℕ) (clock : ℕ → ℤ) (i : ℕ) (chat_id : ℤ) (c : Conn)
    → IsInt32 chat_id
    → IsInt32 (clock i)
    → Ends (wait_for_time rounds clock (suc i) chat_id (sent_text c (time_query chat_id (clock i))))
    → Ends (wait_for_time (suc rounds) clock i chat_id c)
unfolding wait_for_time
waits_on rounds clock i chat_id c hc hi rest =
    go (c.answer (c.sent ++ time_query chat_id (clock i) ∷ [])) refl
  where
    go :
        (r : Reply)
        → c.answer (c.sent ++ time_query chat_id (clock i) ∷ []) ≡ r
        → Ends (wait_for_time (suc rounds) clock i chat_id c)
    go (stored [] id) e = record {
      time = clock i;
      conn = sent_text c (time_query chat_id (clock i));
      ends = ground (arith, exist_timestamp_fits chat_id (clock i) c hc hi, e);
    }
    go (stored (row ∷ rows) id) e = record {
      time = rest.time;
      conn = rest.conn;
      ends = ground (arith, exist_timestamp_fits chat_id (clock i) c hc hi, e, rest.ends);
    }
    go refused e = record {
      time = rest.time;
      conn = rest.conn;
      ends = ground (arith, exist_timestamp_fits chat_id (clock i) c hc hi, e, rest.ends);
    }

stops_on :
    (rounds : ℕ) (clock : ℕ → ℤ) (i : ℕ) (chat_id id : ℤ) (c : Conn)
    → IsInt32 chat_id
    → IsInt32 (clock i)
    → Free c.answer chat_id id (clock i)
    → Ends (wait_for_time (suc rounds) clock i chat_id c)
unfolding wait_for_time
stops_on rounds clock i chat_id id c hc hi free = record {
  time = clock i;
  conn = sent_text c (time_query chat_id (clock i));
  ends = ground (arith, exist_timestamp_fits chat_id (clock i) c hc hi, free c.sent);
}

-- The loop ends: if MySQL answers the query for the time of round `i + k` with no row, whatever has
-- been sent before, then any number of rounds above `k` is enough. Ids and times are of 32 bits.
pub wait_for_time-Ends :
    (k rounds : ℕ) (clock : ℕ → ℤ) (i : ℕ) (chat_id id : ℤ) (c : Conn)
    → k < rounds
    → IsInt32 chat_id
    → ((j : ℕ) → IsInt32 (clock j))
    → Free c.answer chat_id id (clock (i + k))
    → Ends (wait_for_time rounds clock i chat_id c)
wait_for_time-Ends k zero clock i chat_id id c h hc hj free = absurd (omega arith)
wait_for_time-Ends zero (suc rounds) clock i chat_id id c h hc hj free =
    stops_on rounds clock i chat_id id c hc (hj i)
      (subst (λ n. Free c.answer chat_id id (clock n)) (omega arith) free)
wait_for_time-Ends (suc k) (suc rounds) clock i chat_id id c h hc hj free =
    waits_on rounds clock i chat_id c hc (hj i) (
      wait_for_time-Ends k rounds clock (suc i) chat_id id
        (sent_text c (time_query chat_id (clock i))) (omega arith) hc hj
        (subst (λ n. Free c.answer chat_id id (clock n)) (omega arith) free))

-- Where MySQL refuses every query, the loop does not end: no number of rounds is enough. The id and
-- the times are of 32 bits.
pub wait_for_time_refused :
    (rounds : ℕ) (clock : ℕ → ℤ) (i : ℕ) (chat_id : ℤ) (c : Conn)
    → IsInt32 chat_id
    → ((j : ℕ) → IsInt32 (clock j))
    → ((queries : List Text) → c.answer queries ≡ refused)
    → (d : Conn) × (wait_for_time rounds clock i chat_id c ≡ done none d)
unfolding wait_for_time
wait_for_time_refused zero clock i chat_id c hc hj r = (c, refl)
wait_for_time_refused (suc rounds) clock i chat_id c hc hj r =
    let q = time_query chat_id (clock i) in
    let rest = wait_for_time_refused rounds clock (suc i) chat_id (sent_text c q) hc hj r in
    (
      rest.0,
      ground
          (arith, exist_timestamp_fits chat_id (clock i) c hc (hj i), r (c.sent ++ q ∷ []), rest.1),
    )
