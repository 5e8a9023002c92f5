-- ===== src/Storage/Queue.antt =====
-- core/storage/redis_queue_store.go: queues, each a list in Redis.
pub mod Refinement
pub mod Effects
use ttn.Base.{ℕ, ◌-◌, ◌+◌, List, [], Result, ok, err, ◌>>=◌}
use ttn.Base.Int.{ℤ, pos, ◌-ℤ◌}
use ttn.Storage.Redis.{Text, Reply, Client, full_key, as_error}

-- Where redis.Nil is no error but the empty result.
or_empty : {A : Type 0} → A → Reply A → Result A
or_empty empty (Reply.value a) = ok a
or_empty empty Reply.nil = ok empty
or_empty empty (Reply.fails e) = err e

module _ (client : Client) (prefix : Text) where
  pub get : client.Server → Text → Result (List Text)
  unfolding or_empty
  get server key = or_empty [] (client.l_range server (full_key prefix key) (pos 0) (ℤ.negsuc 0))

  pub queue_length : client.Server → Text → Result ℕ
  unfolding or_empty
  queue_length server key = or_empty 0 (client.l_len server (full_key prefix key))

  pub add_front : client.Server → Text → List Text → Result (Unit {0}) × client.Server
  add_front server key values =
      let (reply, after) = client.l_push server (full_key prefix key) values in
      (as_error reply (λ u. u), after)

  -- The length is an int, which may be negative; `stop` is length-1, which is -1 for the length 0: the
  -- last place of the list.
  pub get_front : client.Server → Text → ℤ → Result (List Text)
  unfolding or_empty
  get_front server key length =
      or_empty [] (client.l_range server (full_key prefix key) (pos 0) (length -ℤ pos 1))

  pub add_end : client.Server → Text → List Text → Result (Unit {0}) × client.Server
  add_end server key values =
      let (reply, after) = client.r_push server (full_key prefix key) values in
      (as_error reply (λ u. u), after)

  pub get_end : client.Server → Text → ℤ → Result (List Text)
  unfolding or_empty
  get_end server key length =
      or_empty [] (client.l_range server (full_key prefix key) (pos 0 -ℤ length) (ℤ.negsuc 0))

  -- The first element, which is removed; the empty text, if there is none.
  pub next : client.Server → Text → Result Text × client.Server
  unfolding or_empty
  next server key =
      let (reply, after) = client.l_pop server (full_key prefix key) in (or_empty [] reply, after)

  pub trim : client.Server → Text → ℤ → Result (Unit {0}) × client.Server
  unfolding or_empty
  trim server key length =
      let (reply, after) = client.l_trim server (full_key prefix key) (pos 0) (length -ℤ pos 1) in
      (or_empty tt reply, after)
