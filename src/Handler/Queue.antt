-- ===== src/Handler/Queue.antt =====
-- core/handler/device/downlink_queue.go: the messages that wait for a device.
pub mod Refinement
use ttn.Base.{ℕ, List, [], ◌∷◌, ◌++◌, Option, none, some, String, Result, ok, err, Error, codes}
use ttn.Storage.Redis.{Text, Client, delete}
use ttn.Storage.Queue.{add_front, add_end, queue_length, next}
use ttn.Handler.Types.{AppDownlink}

-- encoding/json on a message. Unmarshaling gives none for the text "null", and none of the errors
-- of marshaling are met with the types of these fields.
pub record Json : Type 0 where
  pub marshal : AppDownlink → Result Text
  pub unmarshal : Text → Result AppDownlink

-- "<appID>:<devID>".
unfoldable pub queue_key : String → String → Text
queue_key app_id dev_id = codes app_id ++ (b':' ∷ codes dev_id)

module _ (client : Client) (json : Json) (prefix : Text) (app_id dev_id : String) where
  -- A stored text as the message that it stands for; the empty text stands for no message.
  read_message : Text → Result (Option AppDownlink)
  read_message [] = ok none
  read_message (c ∷ s) = elim (json.unmarshal (c ∷ s)) [ ok m ↦ ok (some m) | err e ↦ err e ]

  read_next : Result Text → Result (Option AppDownlink)
  unfolding read_message
  read_next (err e) = err e
  read_next (ok text) = read_message text

  -- Length.
  unfoldable pub waiting : client.Server → Result ℕ
  unfolding queue_key
  waiting server = queue_length client prefix server (queue_key app_id dev_id)

  -- Next.
  pub take_next : client.Server → Result (Option AppDownlink) × client.Server
  unfolding queue_key read_next
  take_next server =
      let (result, after) = next client prefix server (queue_key app_id dev_id) in
      (read_next result, after)

  push_text_first : client.Server → Result Text → Result (Unit {0}) × client.Server
  unfolding queue_key
  push_text_first server (err e) = (err e, server)
  push_text_first server (ok text) =
      add_front client prefix server (queue_key app_id dev_id) (text ∷ [])

  push_text_last : client.Server → Result Text → Result (Unit {0}) × client.Server
  unfolding queue_key
  push_text_last server (err e) = (err e, server)
  push_text_last server (ok text) =
      add_end client prefix server (queue_key app_id dev_id) (text ∷ [])

  pub push_first : client.Server → AppDownlink → Result (Unit {0}) × client.Server
  unfolding push_text_first
  push_first server message = push_text_first server (json.marshal message)

  pub push_last : client.Server → AppDownlink → Result (Unit {0}) × client.Server
  unfolding push_text_last
  push_last server message = push_text_last server (json.marshal message)

  replace_deleted :
      Result (Unit {0}) × client.Server → AppDownlink → Result (Unit {0}) × client.Server
  unfolding push_first
  replace_deleted (err e, server) message = (err e, server)
  replace_deleted (ok _, server) message = push_first server message

  pub replace : client.Server → AppDownlink → Result (Unit {0}) × client.Server
  unfolding replace_deleted
  replace server message =
      replace_deleted (delete client prefix server (queue_key app_id dev_id)) message
