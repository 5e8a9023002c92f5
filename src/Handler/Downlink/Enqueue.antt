-- ===== src/Handler/Downlink/Enqueue.antt =====
-- What EnqueueDownlink does to the queue of a device.
use ttn.Base.{◌≡◌, refl, List, [], ◌∷◌, ◌++◌, none, some, Result, ok, err, Error}
use ttn.Handler.Types.{AppDownlink, Device, EventData}
use ttn.Storage.Redis.{Text, Client}
use ttn.Storage.Redis.Laws.{IsRedis}
use ttn.Storage.Map.{Hashes, Coder}
use ttn.Storage.Map.Laws.{IsHashes}
use ttn.Handler.Queue.{Json}
use ttn.Handler.Queue.Refinement.{IsJson, Holds}
use ttn.Handler.RedisStore.{downlink_prefix, redis_env}
use ttn.Handler.RedisStore.Laws.{IsCoder, redis_device_store-Queues}
use ttn.Handler.Stores.{Queues}
use ttn.Handler.World.{Env, World}
use ttn.Handler.Downlink.{
  Place, place_of, enqueue_failed, enqueue_saved, enqueue_pushed, enqueue_at, enqueue_queued,
  enqueue_found, enqueue_downlink,
}

-- The message as it is stored.
abbrev pub stored : AppDownlink → AppDownlink
stored down = record down { app_id = ""; dev_id = ""; schedule = "" }

-- The queue after a message, where its schedule type is known.
abbrev pub queue_after : Place → AppDownlink → List AppDownlink → List AppDownlink
queue_after Place.alone m q = m ∷ []
queue_after Place.in_front m q = m ∷ q
queue_after Place.at_end m q = q ++ (m ∷ [])
queue_after Place.nowhere m q = q

-- A message in place of all others is in place of the current one too.
abbrev pub device_after : Place → Device → Device
device_after Place.alone dev = record dev { current_downlink = none }
device_after place dev = dev

abbrev pub event_after : Place → AppDownlink → EventData
event_after Place.nowhere m =
    EventData.downlink_error (Error.invalid_argument "ScheduleType" "unknown") (some m)
event_after place m = EventData.downlink_scheduled m

abbrev pub result_after : Place → Result (Unit {0})
result_after Place.nowhere = err (Error.invalid_argument "ScheduleType" "unknown")
result_after place = ok tt

-- The device is the last that is passed to Set, unless the schedule type is unknown.
abbrev pub Saves : (env : Env) → Device → Place → (before after : World env) → Type 0
Saves env dev Place.nowhere before after = after.state ≡ before.state
Saves env dev place before after =
    (s : env.store.State) × (env.store.set s dev (device_after place dev) ≡ (ok tt, after.state))

-- What a call leaves: its result, the queue `q` before it and the one after it, its event, and the
-- device that it passes to Set last.
pub record Enqueued (env : Env) (Holds : env.store.State → List AppDownlink → Type 0)
    (down : AppDownlink) (dev : Device) (place : Place) (q : List AppDownlink) (before : World env)
    (result : Result (Unit {0}) × World env) : Type 0 where
  pub ends : result.0 ≡ result_after place
  pub is_queued : Holds result.1.state (queue_after place (stored down) q)
  pub is_saved : Saves env dev place before result.1
  pub tells :
      result.1.events
      ≡ before.events
        ++ (record {
          app_id = down.app_id;
          dev_id = down.dev_id;
          data_of = event_after place (stored down);
        }
            ∷ [])
  pub keeps_up : result.1.up ≡ before.up
  pub keeps_sent : result.1.sent ≡ before.sent

module _ (env : Env) (down : AppDownlink) (Holds : env.store.State → List AppDownlink → Type 0)
    (queues : Queues env.store down.app_id down.dev_id Holds) (world : World env) where
  -- After the message has been put into the queue, which is then `q`.
  pushed :
      (old dev : Device) (done : Result (Unit {0}) × env.store.State)
      (saved : Result (Unit {0}) × env.store.State) (q : List AppDownlink)
      → done.0 ≡ ok tt
      → env.store.set done.1 old dev ≡ saved
      → (saved.0 ≡ ok tt) × Holds saved.1 q
      → let result = enqueue_pushed env down.app_id down.dev_id world (stored down) old dev done in
        (result.0 ≡ ok tt)
        × Holds result.1.state q
        × ((s : env.store.State) × (env.store.set s old dev ≡ (ok tt, result.1.state)))
        × (result.1.events
            ≡ world.events
              ++ (record {
                app_id = down.app_id;
                dev_id = down.dev_id;
                data_of = EventData.downlink_scheduled (stored down);
              }
                  ∷ []))
        × (result.1.up ≡ world.up)
        × (result.1.sent ≡ world.sent)
  unfolding enqueue_pushed enqueue_saved
  pushed old dev (err e, state) saved q d s (o, h) = cc
  pushed old dev (ok _, state) (err e, last) q d s (o, h) = cc
  pushed old dev (ok _, state) (ok _, last) q d s (o, h) =
      rw s (refl, h, (state, s), refl, refl, refl)

  nowhere_lem :
      (dev : Device) (q : List AppDownlink)
      → Holds world.state q
      → Enqueued env Holds down dev Place.nowhere q world (
          enqueue_failed env down.app_id down.dev_id world
            (stored down)
            (Error.invalid_argument "ScheduleType" "unknown"))
  unfolding enqueue_failed
  nowhere_lem dev q h = record {
    ends = refl;
    is_queued = h;
    is_saved = refl;
    tells = refl;
    keeps_up = refl;
    keeps_sent = refl;
  }

  enqueue_at-Enqueued :
      (dev : Device) (place : Place) (q : List AppDownlink)
      → Holds world.state q
      → Enqueued env Holds down dev place q world
          (enqueue_at env down.app_id down.dev_id world (stored down) dev place)
  unfolding enqueue_at
  enqueue_at-Enqueued dev Place.alone q h =
      let (d, k) = queues.replace-Holds world.state (stored down) q h in
      let after = device_after Place.alone dev in
      let (e, f, g, t, u, n) = pushed dev after _ _ _ d refl (queues.set-Holds _ dev after _ k) in
      record { ends = e; is_queued = f; is_saved = g; tells = t; keeps_up = u; keeps_sent = n }
  enqueue_at-Enqueued dev Place.in_front q h =
      let (d, k) = queues.push_first-Holds world.state (stored down) q h in
      let (e, f, g, t, u, n) = pushed dev dev _ _ _ d refl (queues.set-Holds _ dev dev _ k) in
      record { ends = e; is_queued = f; is_saved = g; tells = t; keeps_up = u; keeps_sent = n }
  enqueue_at-Enqueued dev Place.at_end q h =
      let (d, k) = queues.push_last-Holds world.state (stored down) q h in
      let (e, f, g, t, u, n) = pushed dev dev _ _ _ d refl (queues.set-Holds _ dev dev _ k) in
      record { ends = e; is_queued = f; is_saved = g; tells = t; keeps_up = u; keeps_sent = n }
  enqueue_at-Enqueued dev Place.nowhere q h = nowhere_lem dev q h

  enqueue_queued-Enqueued :
      (dev : Device) (queue : Result (Unit {0})) (q : List AppDownlink)
      → Holds world.state q
      → queue ≡ ok tt
      → Enqueued env Holds down dev (place_of down.schedule) q world (
          enqueue_queued env down.app_id down.dev_id world
            (record down { app_id = ""; dev_id = "" })
            dev
            queue)
  unfolding enqueue_queued
  enqueue_queued-Enqueued dev (err e) q h t = cc
  enqueue_queued-Enqueued dev (ok _) q h t = enqueue_at-Enqueued dev (place_of down.schedule) q h

  pub enqueue_downlink_lem :
      (dev : Device) (q : List AppDownlink)
      → env.store.get world.state down.app_id down.dev_id ≡ ok dev
      → Holds world.state q
      → Enqueued env Holds down dev
          (place_of down.schedule)
          q
          world
          (enqueue_downlink env world down)
  unfolding enqueue_downlink enqueue_found
  enqueue_downlink_lem dev q k h = rw k (
      enqueue_queued-Enqueued dev (env.store.has_queue world.state down.app_id down.dev_id) q h
        (queues.has_queue_ok world.state))

-- On the store of devices in Redis, a message for a device that is known is put, without its
-- identifiers and its schedule type, in front of the queue, at its end, or in place of all others and
-- of the current message, by its schedule type, the device is passed to Set, and an event tells that
-- the message is scheduled. For a type that is unknown the call fails with an event, and the state of
-- the store stays as it is. The queue is the list of messages whose texts its list in Redis holds.
pub enqueue_downlink-Enqueued :
    (base : Env) (client : Client) (redis : IsRedis client) (hashes : Hashes client)
    (laws : IsHashes client redis hashes) (json : Json) (is_json : IsJson json)
    (coder : Coder Device) (is_coder : IsCoder coder) (prefix : Text) (down : AppDownlink)
    (world : World (redis_env client hashes json coder prefix base)) (dev : Device)
    (q : List AppDownlink)
    → (redis_env client hashes json coder prefix base).store.get world.state down.app_id down.dev_id
      ≡ ok dev
    → Holds client redis json is_json (downlink_prefix prefix) down.app_id down.dev_id world.state q
    → Enqueued
        (redis_env client hashes json coder prefix base)
        (Holds client redis json is_json (downlink_prefix prefix) down.app_id down.dev_id)
        down
        dev
        (place_of down.schedule)
        q
        world
        (enqueue_downlink (redis_env client hashes json coder prefix base) world down)
enqueue_downlink-Enqueued base client redis hashes laws json is_json coder is_coder prefix down
      world dev q k h =
    enqueue_downlink_lem (redis_env client hashes json coder prefix base) down
      (Holds client redis json is_json (downlink_prefix prefix) down.app_id down.dev_id)
      (redis_device_store-Queues client redis hashes laws json coder is_coder prefix is_json
        down.app_id down.dev_id)
      world dev q k h
