-- ===== src/Handler/Queue/Refinement.antt =====
-- The queue of a device as a list of messages, and the one in Redis against it.
use ttn.Base.{
  ℕ, suc, ◌≡◌, ◌≢◌, refl, sym, ap, ap₂, ◌∙◌, List, [], ◌∷◌, ◌++◌, map, Option, none, some, String,
  Result, ok, err, same_codes_iff, length, drop,
}
use ttn.Storage.Redis.{Text, Client, full_key, delete}
use ttn.Storage.Redis.Laws.{Lists, update, IsRedis}
use ttn.Storage.Queue.{next}
use ttn.Storage.Queue.Effects.{
  first, Gives, add_front_lem, add_end_lem, next_lem, delete_lem, queue_length_lem,
}
use ttn.Handler.Types.{AppDownlink}
use ttn.Handler.Queue.{
  Json, queue_key, waiting, take_next, push_first, push_last, replace, push_text_first,
  push_text_last, replace_deleted, read_next, read_message,
}

-- Every message has a text, which is not empty, and is read as a message.
pub record IsJson (json : Json) : Type 0 where
  pub text : AppDownlink → Text
  pub read : AppDownlink → AppDownlink
  pub marshal_lem : (m : AppDownlink) → json.marshal m ≡ ok (text m)
  pub text_nonempty : (m : AppDownlink) → text m ≢ []
  pub unmarshal_lem : (m : AppDownlink) → json.unmarshal (text m) ≡ ok (read m)

pub data DownlinkOp : Type 0 where
  in_front at_end alone : AppDownlink → DownlinkOp
  take count : DownlinkOp

pub data Answer : Type 0 where
  nothing : Answer
  message : Option AppDownlink → Answer
  number : ℕ → Answer

abbrev head : (AppDownlink → AppDownlink) → List AppDownlink → Option AppDownlink
head f [] = none
head f (m ∷ ms) = some (f m)

-- The abstract queue: a message is put in front, put at the end, put in place of all others, or the
-- first one is taken.
pub replay : (AppDownlink → AppDownlink) → DownlinkOp → List AppDownlink → Answer × List AppDownlink
replay f (DownlinkOp.in_front m) ms = (Answer.nothing, m ∷ ms)
replay f (DownlinkOp.at_end m) ms = (Answer.nothing, ms ++ (m ∷ []))
replay f (DownlinkOp.alone m) ms = (Answer.nothing, m ∷ [])
replay f DownlinkOp.take ms = (Answer.message (head f ms), drop 1 ms)
replay f DownlinkOp.count ms = (Answer.number (length ms), ms)

pub replay_all :
    (AppDownlink → AppDownlink)
    → List DownlinkOp
    → List AppDownlink
    → List Answer × List AppDownlink
replay_all f [] ms = ([], ms)
replay_all f (op ∷ ops) ms =
    let (answer, after) = replay f op ms in
    let (answers, end) = replay_all f ops after in (answer ∷ answers, end)

abbrev to_answer : {A : Type 0} → (A → Answer) → Result A → Result Answer
to_answer f (ok a) = ok (f a)
to_answer f (err e) = err e

abbrev and_answer : {A S : Type 0} → (A → Answer) → Result A × S → Result Answer × S
and_answer f (r, s) = (to_answer f r, s)

module _ (client : Client) (json : Json) (prefix : Text) (app_id dev_id : String) where
  pub perform : DownlinkOp → client.Server → Result Answer × client.Server
  perform (DownlinkOp.in_front m) s =
      and_answer (λ _. Answer.nothing) (push_first client json prefix app_id dev_id s m)
  perform (DownlinkOp.at_end m) s =
      and_answer (λ _. Answer.nothing) (push_last client json prefix app_id dev_id s m)
  perform (DownlinkOp.alone m) s =
      and_answer (λ _. Answer.nothing) (replace client json prefix app_id dev_id s m)
  perform DownlinkOp.take s =
      and_answer Answer.message (take_next client json prefix app_id dev_id s)
  perform DownlinkOp.count s =
      (to_answer Answer.number (waiting client json prefix app_id dev_id s), s)

  pub perform_all : List DownlinkOp → client.Server → List (Result Answer) × client.Server
  perform_all [] s = ([], s)
  perform_all (op ∷ ops) s =
      let (answer, after) = perform op s in
      let (answers, end) = perform_all ops after in (answer ∷ answers, end)

map-append : {A B : Type 0} (f : A → B) (xs ys : List A) → map f (xs ++ ys) ≡ map f xs ++ map f ys
map-append f [] ys = refl
map-append f (x ∷ xs) ys = ap (λ zs. f x ∷ zs) (map-append f xs ys)

length-map : {A B : Type 0} (f : A → B) (xs : List A) → length (map f xs) ≡ length xs
length-map f [] = refl
length-map f (x ∷ xs) = ap suc (length-map f xs)

drop-map : {A B : Type 0} (f : A → B) (xs : List A) → drop 1 (map f xs) ≡ map f (drop 1 xs)
drop-map f [] = refl
drop-map f (x ∷ xs) = refl

update_self : (lists : Lists) (k : Text) (vs : List Text) → update lists k vs k ≡ vs
update_self lists k vs = rw ((same_codes_iff k k).1 refl) refl

module _ (client : Client) (redis : IsRedis client) (json : Json) (laws : IsJson json)
    (prefix : Text) (app_id dev_id : String) where
  abbrev key : Text
  key = full_key prefix (queue_key app_id dev_id)

  -- The list of the device holds the texts of the messages.
  abbrev pub Holds : client.Server → List AppDownlink → Type 0
  Holds s ms = redis.lists s key ≡ map laws.text ms

  -- A store operation that leaves `vs` under the key of the device, in place of its list.
  after_update :
      {A : Type 0} (s : client.Server) (done : Result A × client.Server) (a : A) (vs : List Text)
      (ms : List AppDownlink)
      → Gives client redis done a (update (redis.lists s) key vs)
      → vs ≡ map laws.text ms
      → (done.0 ≡ ok a) × Holds done.1 ms
  after_update s done a vs ms (e, l) h =
      (e, ap (λ q. q key) l ∙ update_self (redis.lists s) key vs ∙ h)

  pub push_first-Holds :
      (s : client.Server) (m : AppDownlink) (ms : List AppDownlink)
      → Holds s ms
      → ((push_first client json prefix app_id dev_id s m).0 ≡ ok tt)
        × Holds (push_first client json prefix app_id dev_id s m).1 (m ∷ ms)
  unfolding push_first push_text_first
  push_first-Holds s m ms h = rw (laws.marshal_lem m) (
      after_update s _ tt _ (m ∷ ms)
        (add_front_lem client redis prefix s (queue_key app_id dev_id) (laws.text m) [])
        (ap (λ q. laws.text m ∷ q) h))

  pub push_last-Holds :
      (s : client.Server) (m : AppDownlink) (ms : List AppDownlink)
      → Holds s ms
      → ((push_last client json prefix app_id dev_id s m).0 ≡ ok tt)
        × Holds (push_last client json prefix app_id dev_id s m).1 (ms ++ (m ∷ []))
  unfolding push_last push_text_last
  push_last-Holds s m ms h = rw (laws.marshal_lem m) (
      after_update s _ tt _ (ms ++ (m ∷ []))
        (add_end_lem client redis prefix s (queue_key app_id dev_id) (laws.text m) [])
        (ap (λ q. q ++ (laws.text m ∷ [])) h ∙ sym (map-append laws.text ms (m ∷ []))))

  replace_deleted-Holds :
      (done : Result (Unit {0}) × client.Server) (m : AppDownlink)
      → done.0 ≡ ok tt
      → Holds done.1 []
      → ((replace_deleted client json prefix app_id dev_id done m).0 ≡ ok tt)
        × Holds (replace_deleted client json prefix app_id dev_id done m).1 (m ∷ [])
  unfolding replace_deleted
  replace_deleted-Holds (ok _, t) m e h = push_first-Holds t m [] h
  replace_deleted-Holds (err x, t) m e h = cc

  pub replace-Holds :
      (s : client.Server) (m : AppDownlink)
      → ((replace client json prefix app_id dev_id s m).0 ≡ ok tt)
        × Holds (replace client json prefix app_id dev_id s m).1 (m ∷ [])
  unfolding replace
  replace-Holds s m =
      let (e, h) =
        after_update s (delete client prefix s (queue_key app_id dev_id)) tt [] []
          (delete_lem client redis prefix s (queue_key app_id dev_id)) refl in
      replace_deleted-Holds _ m e h

  read_text :
      (t : Text) (m : AppDownlink)
      → t ≢ []
      → json.unmarshal t ≡ ok m
      → read_message client json prefix app_id dev_id t ≡ ok (some m)
  unfolding read_message
  read_text [] m n e = absurd (n refl)
  read_text (c ∷ t) m n e = rw (e, read_message) refl

  read_first :
      (ms : List AppDownlink)
      → read_next client json prefix app_id dev_id (ok (first (map laws.text ms)))
        ≡ ok (head laws.read ms)
  unfolding read_next read_message
  read_first [] = refl
  read_first (m ∷ ms) =
      read_text (laws.text m) (laws.read m) (laws.text_nonempty m) (laws.unmarshal_lem m)

  take_next-Holds :
      (s : client.Server) (ms : List AppDownlink)
      → Holds s ms
      → ((take_next client json prefix app_id dev_id s).0 ≡ ok (head laws.read ms))
        × Holds (take_next client json prefix app_id dev_id s).1 (drop 1 ms)
  unfolding take_next
  take_next-Holds s ms h =
      let (e, held) =
        after_update s (next client prefix s (queue_key app_id dev_id)) _ _ (drop 1 ms)
          (next_lem client redis prefix s (queue_key app_id dev_id))
          (ap (drop 1) h ∙ drop-map laws.text ms) in
      (
        ap (read_next client json prefix app_id dev_id) (e ∙ ap (λ q. ok (first q)) h)
            ∙ read_first ms,
        held,
      )

  answered :
      {A : Type 0} (f : A → Answer) (done : Result A × client.Server) (a : A)
      (ms : List AppDownlink)
      → (done.0 ≡ ok a) × Holds done.1 ms
      → ((and_answer f done).0 ≡ ok (f a)) × Holds (and_answer f done).1 ms
  answered f done a ms (e, h) = (ap (to_answer f) e, h)

  perform-replay :
      (op : DownlinkOp) (s : client.Server) (ms : List AppDownlink)
      → Holds s ms
      → ((perform client json prefix app_id dev_id op s).0 ≡ ok (replay laws.read op ms).0)
        × Holds (perform client json prefix app_id dev_id op s).1 (replay laws.read op ms).1
  unfolding perform replay waiting
  perform-replay (DownlinkOp.in_front m) s ms h =
      answered (λ _. Answer.nothing) _ tt (m ∷ ms) (push_first-Holds s m ms h)
  perform-replay (DownlinkOp.at_end m) s ms h =
      answered (λ _. Answer.nothing) _ tt (ms ++ (m ∷ [])) (push_last-Holds s m ms h)
  perform-replay (DownlinkOp.alone m) s ms h =
      answered (λ _. Answer.nothing) _ tt (m ∷ []) (replace-Holds s m)
  perform-replay DownlinkOp.take s ms h =
      answered Answer.message _ _ (drop 1 ms) (take_next-Holds s ms h)
  perform-replay DownlinkOp.count s ms h = (
    ap (to_answer Answer.number) (
        queue_length_lem client redis prefix s (queue_key app_id dev_id)
        ∙ ap (λ q. ok (length q)) h
        ∙ ap ok (length-map laws.text ms)),
    h,
  )

  -- Where the list of a device holds the texts of the messages `ms`, any sequence of PushFirst,
  -- PushLast, Replace, Next and Length on its queue succeeds, with the answers of the same sequence
  -- on the list `ms`, and leaves the texts of the messages that this leaves; a message that is taken
  -- is the one that its text is read as.
  pub downlink_queue_refines :
      (ops : List DownlinkOp) (s : client.Server) (ms : List AppDownlink)
      → Holds s ms
      → ((perform_all client json prefix app_id dev_id ops s).0
          ≡ map ok (replay_all laws.read ops ms).0)
        × Holds
            (perform_all client json prefix app_id dev_id ops s).1
            (replay_all laws.read ops ms).1
  unfolding perform_all replay_all
  downlink_queue_refines [] s ms h = (refl, h)
  downlink_queue_refines (op ∷ ops) s ms h =
      let (answer, held) = perform-replay op s ms h in
      let (answers, last) =
        downlink_queue_refines ops (perform client json prefix app_id dev_id op s).1
          (replay laws.read op ms).1 held in
      (ap₂ (λ a l. a ∷ l) answer answers, last)
