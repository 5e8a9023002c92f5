-- ===== src/Storage/Queue/Refinement.antt =====
-- A queue as a list of texts, and the queues in Redis against it.
use ttn.Base.{
  ℕ, ◌≡◌, refl, ap, ap₂, ◌∙◌, List, [], ◌∷◌, ◌++◌, map, Result, ok, err, length, drop, reverse,
}
use ttn.Base.Int.{ℤ}
use ttn.Storage.Redis.{Text, Client, full_key, delete}
use ttn.Storage.Redis.Laws.{Lists, update, IsRedis}
use ttn.Storage.Queue.Effects.{
  front, back, first, Gives, add_front_lem, add_end_lem, next_lem, delete_lem, get_lem,
  queue_length_lem, trim_lem, get_front_lem, get_end_lem,
}
use ttn.Storage.Queue.{get, queue_length, add_front, get_front, add_end, get_end, next, trim}

pub data QueueOp : Type 0 where
  push_front push_end : Text → Text → List Text → QueueOp
  pop remove all count : Text → QueueOp
  cut some_front some_end : Text → ℤ → QueueOp

pub data Answer : Type 0 where
  nothing : Answer
  text : Text → Answer
  texts : List Text → Answer
  number : ℕ → Answer

module _ (prefix : Text) where
  -- One operation on the abstract queues.
  pub replay : QueueOp → Lists → Answer × Lists
  replay (QueueOp.push_front key v vs) q =
      let k = full_key prefix key in (Answer.nothing, update q k (reverse (v ∷ vs) ++ q k))
  replay (QueueOp.push_end key v vs) q =
      let k = full_key prefix key in (Answer.nothing, update q k (q k ++ (v ∷ vs)))
  replay (QueueOp.pop key) q =
      let k = full_key prefix key in (Answer.text (first (q k)), update q k (drop 1 (q k)))
  replay (QueueOp.remove key) q = (Answer.nothing, update q (full_key prefix key) [])
  replay (QueueOp.all key) q = (Answer.texts (q (full_key prefix key)), q)
  replay (QueueOp.count key) q = (Answer.number (length (q (full_key prefix key))), q)
  replay (QueueOp.cut key n) q =
      let k = full_key prefix key in (Answer.nothing, update q k (front n (q k)))
  replay (QueueOp.some_front key n) q = (Answer.texts (front n (q (full_key prefix key))), q)
  replay (QueueOp.some_end key n) q = (Answer.texts (back n (q (full_key prefix key))), q)

  pub replay_all : List QueueOp → Lists → List Answer × Lists
  replay_all [] q = ([], q)
  replay_all (op ∷ ops) q =
      let (answer, after) = replay op q in
      let (answers, last) = replay_all ops after in (answer ∷ answers, last)

abbrev to_answer : {A : Type 0} → (A → Answer) → Result A → Result Answer
to_answer f (ok a) = ok (f a)
to_answer f (err e) = err e

abbrev and_answer : {A S : Type 0} → (A → Answer) → Result A × S → Result Answer × S
and_answer f (r, s) = (to_answer f r, s)

module _ (client : Client) (prefix : Text) where
  -- One operation of the store.
  pub perform : QueueOp → client.Server → Result Answer × client.Server
  perform (QueueOp.push_front key v vs) s =
      and_answer (λ _. Answer.nothing) (add_front client prefix s key (v ∷ vs))
  perform (QueueOp.push_end key v vs) s =
      and_answer (λ _. Answer.nothing) (add_end client prefix s key (v ∷ vs))
  perform (QueueOp.pop key) s = and_answer Answer.text (next client prefix s key)
  perform (QueueOp.remove key) s = and_answer (λ _. Answer.nothing) (delete client prefix s key)
  perform (QueueOp.all key) s = (to_answer Answer.texts (get client prefix s key), s)
  perform (QueueOp.count key) s = (to_answer Answer.number (queue_length client prefix s key), s)
  perform (QueueOp.cut key n) s = and_answer (λ _. Answer.nothing) (trim client prefix s key n)
  perform (QueueOp.some_front key n) s =
      (to_answer Answer.texts (get_front client prefix s key n), s)
  perform (QueueOp.some_end key n) s = (to_answer Answer.texts (get_end client prefix s key n), s)

  pub perform_all : List QueueOp → client.Server → List (Result Answer) × client.Server
  perform_all [] s = ([], s)
  perform_all (op ∷ ops) s =
      let (answer, after) = perform op s in
      let (answers, last) = perform_all ops after in (answer ∷ answers, last)

module _ (client : Client) (redis : IsRedis client) (prefix : Text) where
  answered :
      {A : Type 0} (f : A → Answer) (done : Result A × client.Server) (a : A) (after : Lists)
      → Gives client redis done a after
      → ((and_answer f done).0 ≡ ok (f a)) × (redis.lists (and_answer f done).1 ≡ after)
  answered f done a after (e, l) = (ap (to_answer f) e, l)

  -- What one operation does to the lists is what it does to the abstract queues.
  perform-replay :
      (op : QueueOp) (s : client.Server)
      → ((perform client prefix op s).0 ≡ ok (replay prefix op (redis.lists s)).0)
        × (redis.lists (perform client prefix op s).1 ≡ (replay prefix op (redis.lists s)).1)
  unfolding perform replay
  perform-replay (QueueOp.push_front key v vs) s =
      answered (λ _. Answer.nothing) _ tt _ (add_front_lem client redis prefix s key v vs)
  perform-replay (QueueOp.push_end key v vs) s =
      answered (λ _. Answer.nothing) _ tt _ (add_end_lem client redis prefix s key v vs)
  perform-replay (QueueOp.pop key) s =
      answered Answer.text _ _ _ (next_lem client redis prefix s key)
  perform-replay (QueueOp.remove key) s =
      answered (λ _. Answer.nothing) _ tt _ (delete_lem client redis prefix s key)
  perform-replay (QueueOp.all key) s =
      (ap (to_answer Answer.texts) (get_lem client redis prefix s key), refl)
  perform-replay (QueueOp.count key) s =
      (ap (to_answer Answer.number) (queue_length_lem client redis prefix s key), refl)
  perform-replay (QueueOp.cut key n) s =
      answered (λ _. Answer.nothing) _ tt _ (trim_lem client redis prefix s key n)
  perform-replay (QueueOp.some_front key n) s =
      (ap (to_answer Answer.texts) (get_front_lem client redis prefix s key n), refl)
  perform-replay (QueueOp.some_end key n) s =
      (ap (to_answer Answer.texts) (get_end_lem client redis prefix s key n), refl)

  -- On a Redis that answers, any sequence of queue operations succeeds, and gives the answers and
  -- leaves the lists of the abstract queues, where each key has a list of texts: new values come
  -- in at the front or the end, Next takes the first one, GetFront, GetEnd and Trim with the length
  -- 0 mean the whole queue, and with a negative one they leave out that many elements at the other
  -- end.
  pub queue_refines :
      (ops : List QueueOp) (s : client.Server)
      → ((perform_all client prefix ops s).0 ≡ map ok (replay_all prefix ops (redis.lists s)).0)
        × (redis.lists (perform_all client prefix ops s).1
            ≡ (replay_all prefix ops (redis.lists s)).1)
  unfolding perform_all replay_all
  queue_refines [] s = (refl, refl)
  queue_refines (op ∷ ops) s =
      let (answer, lists) = perform-replay op s in
      let (answers, last) = queue_refines ops (perform client prefix op s).1 in
      (
        ap₂ (λ a l. a ∷ l) answer (answers ∙ ap (λ q. map ok (replay_all prefix ops q).0) lists),
        last ∙ ap (λ q. (replay_all prefix ops q).1) lists,
      )
