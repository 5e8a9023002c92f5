-- ===== src/Handler/Uplink.antt =====
-- core/handler/uplink.go: an uplink that the broker forwards, and the downlink that answers it.
pub mod Laws
use ttn.Base.{
  Bool, true, false, List, [], ◌∷◌, ◌++◌, Option, none, some, String, Result, ok, err, Error,
  Outcome, done, fails, panics, blocks, ltb, if◌then◌else◌,
}
use ttn.Messages.{DownlinkMessage, DeduplicatedUplinkMessage}
use ttn.Handler.Types.{AppDownlink, AppUplink, Device, EventData, DeviceEvent, Store, Verdict}
use ttn.Handler.ConvertFields.{convert_fields_up}
use ttn.Handler.ConvertLorawan.{FromLorawan, convert_from_lorawan}
use ttn.Handler.World.{Env, World, emit, emit_all, with_state, publish, waiting}
use ttn.Handler.Downlink.{handle_downlink}

abbrev pub no_gateways : EventData
no_gateways = EventData.downlink_error (Error.other "No gateways available for downlink") none

abbrev pub new_uplink : String → String → AppUplink
new_uplink app_id dev_id = record {
  app_id = app_id;
  dev_id = dev_id;
  hardware_serial = 0;
  f_port = 0;
  f_cnt = 0;
  confirmed = false;
  is_retry = false;
  payload_raw = [];
  payload_fields = [];
}

-- The message that is sent to the device: the current one, if there is one.
abbrev pub prepared : String → String → Option AppDownlink → AppDownlink
prepared app_id dev_id none = record {
  app_id = app_id;
  dev_id = dev_id;
  f_port = 0;
  confirmed = false;
  schedule = "";
  payload_raw = none;
  payload_fields = [];
}
prepared app_id dev_id (some down) = record down { app_id = app_id; dev_id = dev_id }

module _ (env : Env) (uplink : DeduplicatedUplinkMessage) where
  uplink_failed : World env → Error → Outcome (Unit {0}) × World env
  uplink_failed world e =
      (fails e, emit env world uplink.app_id uplink.dev_id (EventData.uplink_error e))

  -- The error of the answer is the error of the uplink.
  answered : Outcome (Unit {0}) × World env → Outcome (Unit {0}) × World env
  unfolding uplink_failed
  answered (done _, world) = (done tt, world)
  answered (fails e, world) = uplink_failed world e
  answered (panics, world) = (panics, world)
  answered (blocks, world) = (blocks, world)

  respond :
      World env
      → Device
      → DownlinkMessage
      → Result (Unit {0}) × env.store.State
      → Outcome (Unit {0}) × World env
  unfolding uplink_failed answered
  respond world dev template (err e, state) = uplink_failed (with_state env world state) e
  respond world dev template (ok _, state) = answered (
      handle_downlink env (with_state env world state)
        (prepared uplink.app_id uplink.dev_id dev.current_downlink) template)

  -- No router offered a transmission.
  without_template : World env → Option AppDownlink → Outcome (Unit {0}) × World env
  without_template world none = (done tt, world)
  without_template world (some _) =
      (done tt, emit env world uplink.app_id uplink.dev_id no_gateways)

  -- The answer, or the event that there is no gateway to send it.
  prepare_downlink :
      World env → Device → Device → Option DownlinkMessage → Outcome (Unit {0}) × World env
  unfolding respond without_template
  prepare_downlink world old dev none = without_template world dev.current_downlink
  prepare_downlink world old dev (some template) =
      respond world dev template (env.store.set world.state old dev)

  -- The message that Next takes is the current one.
  with_next :
      World env
      → Device
      → DownlinkMessage
      → Result (Option AppDownlink) × env.store.State
      → Outcome (Unit {0}) × World env
  unfolding uplink_failed prepare_downlink
  with_next world dev template (err e, state) = uplink_failed (with_state env world state) e
  with_next world dev template (ok next, state) =
      prepare_downlink (with_state env world state) dev (record dev { current_downlink = next })
        (some template)

  -- Something waits in the queue.
  from_queue : World env → Device → Option DownlinkMessage → Outcome (Unit {0}) × World env
  unfolding with_next
  from_queue world dev none = (done tt, emit env world uplink.app_id uplink.dev_id no_gateways)
  from_queue world dev (some template) =
      with_next world dev template (env.store.queue_next world.state uplink.app_id uplink.dev_id)

  look_in_queue : World env → Device → Result (Unit {0}) → Outcome (Unit {0}) × World env
  unfolding uplink_failed from_queue prepare_downlink
  look_in_queue world dev (err e) = uplink_failed world e
  look_in_queue world dev (ok _) =
      if waiting env world uplink.app_id uplink.dev_id
      then from_queue world dev uplink.response_template
      else prepare_downlink world dev dev uplink.response_template

  after_publish : World env → Device → Option AppDownlink → Outcome (Unit {0}) × World env
  unfolding look_in_queue prepare_downlink
  after_publish world dev none =
      look_in_queue world dev (env.store.has_queue world.state uplink.app_id uplink.dev_id)
  after_publish world dev (some _) = prepare_downlink world dev dev uplink.response_template

  after_set :
      World env
      → AppUplink
      → Device
      → Result (Unit {0}) × env.store.State
      → Outcome (Unit {0}) × World env
  unfolding uplink_failed after_publish
  after_set world up dev (err e, state) = uplink_failed (with_state env world state) e
  after_set world up dev (ok _, state) =
      after_publish (publish env (with_state env world state) up) dev dev.current_downlink

  -- After the last processor.
  on_fields :
      World env
      → Device
      → Device
      → Verdict × AppUplink × List DeviceEvent
      → Outcome (Unit {0}) × World env
  unfolding uplink_failed after_set
  on_fields world old dev (Verdict.goes_on, up, events) =
      let emitted = emit_all env world events in
      after_set emitted up dev (env.store.set emitted.state old dev)
  on_fields world old dev (Verdict.not_needed, up, events) = (done tt, emit_all env world events)
  on_fields world old dev (Verdict.fails e, up, events) =
      uplink_failed (emit_all env world events) e
  on_fields world old dev (Verdict.panics, up, events) = (panics, emit_all env world events)

  -- After ConvertFromLoRaWAN. ConvertMetadata, which is next, only fills the metadata of the message
  -- and has no error.
  on_lorawan : World env → Device → FromLorawan → Verdict → Outcome (Unit {0}) × World env
  unfolding uplink_failed on_fields
  on_lorawan world old from Verdict.goes_on =
      on_fields (emit_all env world from.events) old from.dev
        (convert_fields_up env.vm (env.applications from.up.app_id) from.up)
  on_lorawan world old from Verdict.not_needed = (done tt, emit_all env world from.events)
  on_lorawan world old from (Verdict.fails e) = uplink_failed (emit_all env world from.events) e
  on_lorawan world old from Verdict.panics = (panics, emit_all env world from.events)

  on_device : World env → Result Device → Outcome (Unit {0}) × World env
  unfolding uplink_failed on_lorawan
  on_device world (err e) = uplink_failed world e
  on_device world (ok dev) =
      let from =
        convert_from_lorawan env.codec uplink (new_uplink uplink.app_id uplink.dev_id) dev in
      on_lorawan world dev from from.verdict

-- HandleUplink.
pub handle_uplink :
    (env : Env) → World env → DeduplicatedUplinkMessage → Outcome (Unit {0}) × World env
unfolding on_device
handle_uplink env world uplink =
    on_device env uplink world (env.store.get world.state uplink.app_id uplink.dev_id)
