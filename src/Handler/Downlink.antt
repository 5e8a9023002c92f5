-- ===== src/Handler/Downlink.antt =====
-- core/handler/downlink.go: downlinks are put in the queue of a device, and sent to it.
pub mod Laws
pub mod Enqueue
use ttn.Base.{
  Bool, true, false, ◌||◌, List, [], ◌∷◌, ◌++◌, Option, none, some, String, Result, ok, err, Error,
  Outcome, done, fails, panics, blocks, str_eq, if◌then◌else◌,
}
use ttn.Messages.{DownlinkMessage, DownlinkOption}
use ttn.Handler.Types.{AppDownlink, Device, EventData, Store, Verdict}
use ttn.Handler.ConvertFields.{convert_fields_down}
use ttn.Handler.ConvertLorawan.Downlinks.{convert_to_lorawan}
use ttn.Handler.World.{Env, World, emit, with_state, waiting_now, with_content}

-- The place in the queue that a schedule type asks for; "replace" is the default.
pub data Place : Type 0 where
  alone in_front at_end nowhere : Place

pub place_of : String → Place
place_of schedule =
    if str_eq schedule "replace" || str_eq schedule ""
    then Place.alone
    else if str_eq schedule "first"
    then Place.in_front
    else if str_eq schedule "last"
    then Place.at_end
    else Place.nowhere

module _ (env : Env) (app_id dev_id : String) where
  enqueue_failed : World env → AppDownlink → Error → Result (Unit {0}) × World env
  enqueue_failed world down e =
      (err e, emit env world app_id dev_id (EventData.downlink_error e (some down)))

  -- Set, and the event.
  enqueue_saved :
      World env → AppDownlink → Result (Unit {0}) × env.store.State → Result (Unit {0}) × World env
  unfolding enqueue_failed
  enqueue_saved world down (err e, state) = enqueue_failed (with_state env world state) down e
  enqueue_saved world down (ok _, state) = (
    ok tt,
    emit env (with_state env world state) app_id dev_id (EventData.downlink_scheduled down),
  )

  enqueue_pushed :
      World env
      → AppDownlink
      → Device
      → Device
      → Result (Unit {0}) × env.store.State
      → Result (Unit {0}) × World env
  unfolding enqueue_failed enqueue_saved
  enqueue_pushed world down old dev (err e, state) =
      enqueue_failed (with_state env world state) down e
  enqueue_pushed world down old dev (ok _, state) =
      enqueue_saved (with_state env world state) down (env.store.set state old dev)

  enqueue_at : World env → AppDownlink → Device → Place → Result (Unit {0}) × World env
  unfolding enqueue_failed enqueue_pushed
  enqueue_at world down dev Place.alone =
      enqueue_pushed world down dev (record dev { current_downlink = none })
        (env.store.queue_replace world.state app_id dev_id down)
  enqueue_at world down dev Place.in_front =
      enqueue_pushed world down dev dev (env.store.queue_push_first world.state app_id dev_id down)
  enqueue_at world down dev Place.at_end =
      enqueue_pushed world down dev dev (env.store.queue_push_last world.state app_id dev_id down)
  enqueue_at world down dev Place.nowhere =
      enqueue_failed world down (Error.invalid_argument "ScheduleType" "unknown")

  enqueue_queued :
      World env → AppDownlink → Device → Result (Unit {0}) → Result (Unit {0}) × World env
  unfolding enqueue_failed enqueue_at place_of
  enqueue_queued world down dev (err e) = enqueue_failed world down e
  enqueue_queued world down dev (ok _) =
      enqueue_at world (record down { schedule = "" }) dev (place_of down.schedule)

  enqueue_found : World env → AppDownlink → Result Device → Result (Unit {0}) × World env
  unfolding enqueue_queued
  enqueue_found world down (err e) = (err e, world)
  enqueue_found world down (ok dev) =
      enqueue_queued world (record down { app_id = ""; dev_id = "" }) dev
        (env.store.has_queue world.state app_id dev_id)

-- EnqueueDownlink.
pub enqueue_downlink : (env : Env) → World env → AppDownlink → Result (Unit {0}) × World env
unfolding enqueue_found
enqueue_downlink env world down =
    enqueue_found env down.app_id down.dev_id world down
      (env.store.get world.state down.app_id down.dev_id)

module _ (env : Env) (app_id dev_id : String) where
  downlink_failed : World env → AppDownlink → Error → Outcome (Unit {0}) × World env
  downlink_failed world down e =
      (fails e, emit env world app_id dev_id (EventData.downlink_error e (some down)))

  -- The deferred Set of the device, which does not change, whose error counts if there is no other.
  closing_saved :
      World env
      → AppDownlink
      → Outcome (Unit {0})
      → Result (Unit {0}) × env.store.State
      → Outcome (Unit {0}) × World env
  unfolding downlink_failed
  closing_saved world down (done _) (ok _, state) = (done tt, with_state env world state)
  closing_saved world down (done _) (err e, state) =
      downlink_failed (with_state env world state) down e
  closing_saved world down (fails e) (_, state) =
      downlink_failed (with_state env world state) down e
  closing_saved world down panics (_, state) = (panics, with_state env world state)
  closing_saved world down blocks (_, state) = (blocks, with_state env world state)

  closing : World env → AppDownlink → Device → Outcome (Unit {0}) → Outcome (Unit {0}) × World env
  unfolding closing_saved
  closing world down dev end = closing_saved world down end (env.store.set world.state dev dev)

  -- The option of the message that has been sent is read, and must be there.
  on_option :
      World env
      → AppDownlink
      → Device
      → DownlinkMessage
      → Option DownlinkOption
      → Outcome (Unit {0}) × World env
  unfolding closing
  on_option world down dev out none = closing world down dev panics
  on_option world down dev out (some option) =
      closing (emit env world down.app_id down.dev_id (EventData.downlink_sent down out.payload))
        down dev (done tt)

  -- After the processors.
  sending : World env → AppDownlink → Device → DownlinkMessage → Outcome (Unit {0}) × World env
  unfolding on_option
  sending world down dev message =
      let out = with_content env message in
      on_option (record world { sent = world.sent ++ (out ∷ []) }) down dev out out.downlink_option

  on_frame :
      World env → AppDownlink → Device → Verdict × DownlinkMessage → Outcome (Unit {0}) × World env
  unfolding closing sending
  on_frame world down dev (Verdict.goes_on, message) = sending world down dev message
  on_frame world down dev (Verdict.not_needed, message) = closing world down dev (done tt)
  on_frame world down dev (Verdict.fails e, message) = closing world down dev (fails e)
  on_frame world down dev (Verdict.panics, message) = closing world down dev panics

  on_fields :
      World env → DownlinkMessage → Device → Verdict × AppDownlink → Outcome (Unit {0}) × World env
  unfolding closing on_frame
  on_fields world message dev (Verdict.goes_on, down) =
      on_frame world down dev (
        convert_to_lorawan env.codec dev (waiting_now env world dev.app_id dev.dev_id) down message)
  on_fields world message dev (Verdict.not_needed, down) = closing world down dev (done tt)
  on_fields world message dev (Verdict.fails e, down) = closing world down dev (fails e)
  on_fields world message dev (Verdict.panics, down) = closing world down dev panics

  on_device :
      World env → AppDownlink → DownlinkMessage → Result Device → Outcome (Unit {0}) × World env
  unfolding downlink_failed on_fields
  on_device world down message (err e) = downlink_failed world down e
  on_device world down message (ok dev) =
      on_fields world message dev (convert_fields_down env.vm (env.applications app_id) down)

-- HandleDownlink.
pub handle_downlink :
    (env : Env) → World env → AppDownlink → DownlinkMessage → Outcome (Unit {0}) × World env
unfolding on_device
handle_downlink env world down message =
    on_device env down.app_id down.dev_id world down message
      (env.store.get world.state down.app_id down.dev_id)
