-- ===== src/Handler/Downlink/Laws.antt =====
-- What HandleDownlink sends.
use ttn.Base.{
  ◌≡◌, refl, ◌⊎◌, inl, inr, [], ◌∷◌, ◌++◌, Option, none, some, String, Result, ok, err, Outcome,
  done, fails, panics, blocks,
}
use ttn.Messages.{DownlinkMessage, DownlinkOption}
use ttn.Handler.Types.{AppDownlink, Device, EventData, Verdict}
use ttn.Handler.ConvertFields.{convert_fields_down}
use ttn.Handler.ConvertLorawan.Downlinks.{convert_to_lorawan}
use ttn.Handler.ConvertLorawan.Frames.{Framed, convert_to_lorawan-Framed}
use ttn.Handler.World.{Env, World, emit, waiting_now, with_content}
use ttn.Handler.Downlink.{
  downlink_failed, closing_saved, closing, on_option, sending, on_frame, on_fields, on_device,
  handle_downlink,
}

-- No message to an application or to the broker.
pub record Keeps {env : Env} (before after : World env) : Type 0 where
  pub up : after.up ≡ before.up
  pub amqp_up : after.amqp_up ≡ before.amqp_up
  pub sent : after.sent ≡ before.sent

-- No message to an application, and at most one to the broker: what the message becomes for a device
-- that the store has.
pub record SendsOne (env : Env) (app_id dev_id : String) (given : AppDownlink)
    (message : DownlinkMessage) (before after : World env) : Type 0 where
  pub up : after.up ≡ before.up
  pub amqp_up : after.amqp_up ≡ before.amqp_up
  pub dev : Device
  pub down : AppDownlink
  pub out : DownlinkMessage
  pub is_known : env.store.get before.state app_id dev_id ≡ ok dev
  pub is_filled :
      convert_fields_down env.vm (env.applications app_id) given ≡ (Verdict.goes_on, down)
  pub is_framed :
      Framed env.codec dev (waiting_now env before dev.app_id dev.dev_id) down message out
  pub sent : after.sent ≡ before.sent ++ (with_content env out ∷ [])

module _ (env : Env) (app_id dev_id : String) where
  closing_saved-Keeps :
      (world : World env) (down : AppDownlink) (end : Outcome (Unit {0}))
      (saved : Result (Unit {0}) × env.store.State)
      → Keeps world (closing_saved env app_id dev_id world down end saved).1
  unfolding closing_saved downlink_failed
  closing_saved-Keeps world down (done _) (ok _, state) = record {
    up = refl;
    amqp_up = refl;
    sent = refl;
  }
  closing_saved-Keeps world down (done _) (err e, state) = record {
    up = refl;
    amqp_up = refl;
    sent = refl;
  }
  closing_saved-Keeps world down (fails e) saved = record { up = refl; amqp_up = refl; sent = refl }
  closing_saved-Keeps world down panics saved = record { up = refl; amqp_up = refl; sent = refl }
  closing_saved-Keeps world down blocks saved = record { up = refl; amqp_up = refl; sent = refl }

  closing-Keeps :
      (world : World env) (down : AppDownlink) (dev : Device) (end : Outcome (Unit {0}))
      → Keeps world (closing env app_id dev_id world down dev end).1
  unfolding closing
  closing-Keeps world down dev end =
      closing_saved-Keeps world down end (env.store.set world.state dev dev)

  abbrev Ends : AppDownlink → DownlinkMessage → World env → World env → Type 0
  Ends given message before after =
      Keeps before after ⊎ SendsOne env app_id dev_id given message before after

  abbrev Fills : AppDownlink → AppDownlink → Type 0
  Fills given down =
      convert_fields_down env.vm (env.applications app_id) given ≡ (Verdict.goes_on, down)

  on_option-Keeps :
      (world : World env) (down : AppDownlink) (dev : Device) (out : DownlinkMessage)
      (option : Option DownlinkOption)
      → Keeps world (on_option env app_id dev_id world down dev out option).1
  unfolding on_option
  on_option-Keeps world down dev out none = closing-Keeps world down dev panics
  on_option-Keeps world down dev out (some option) =
      let k =
        closing-Keeps
          (emit env world down.app_id down.dev_id (EventData.downlink_sent down out.payload)) down
          dev (done tt) in
      record { up = k.up; amqp_up = k.amqp_up; sent = k.sent }

  sending-SendsOne :
      (world : World env) (given down : AppDownlink) (dev : Device) (message out : DownlinkMessage)
      → env.store.get world.state app_id dev_id ≡ ok dev
      → Fills given down
      → Framed env.codec dev (waiting_now env world dev.app_id dev.dev_id) down message out
      → SendsOne env app_id dev_id given message world
          (sending env app_id dev_id world down dev out).1
  unfolding sending
  sending-SendsOne world given down dev message out known fills framed =
      let content = with_content env out in
      let k = on_option-Keeps _ down dev content content.downlink_option in
      record {
        up = k.up;
        amqp_up = k.amqp_up;
        dev = dev;
        down = down;
        out = out;
        is_known = known;
        is_filled = fills;
        is_framed = framed;
        sent = k.sent;
      }

  on_frame-Ends :
      (world : World env) (given down : AppDownlink) (dev : Device) (message : DownlinkMessage)
      (r : Verdict × DownlinkMessage)
      → env.store.get world.state app_id dev_id ≡ ok dev
      → Fills given down
      → convert_to_lorawan env.codec dev (waiting_now env world dev.app_id dev.dev_id) down message
        ≡ r
      → Ends given message world (on_frame env app_id dev_id world down dev r).1
  unfolding on_frame
  on_frame-Ends world given down dev message (Verdict.goes_on, out) known fills framed = inr (
      sending-SendsOne world given down dev message out known fills (
        convert_to_lorawan-Framed env.codec dev (waiting_now env world dev.app_id dev.dev_id) down
          message out framed))
  on_frame-Ends world given down dev message (Verdict.not_needed, out) known fills framed =
      inl (closing-Keeps world down dev (done tt))
  on_frame-Ends world given down dev message (Verdict.fails e, out) known fills framed =
      inl (closing-Keeps world down dev (fails e))
  on_frame-Ends world given down dev message (Verdict.panics, out) known fills framed =
      inl (closing-Keeps world down dev panics)

  on_fields-Ends :
      (world : World env) (given : AppDownlink) (dev : Device) (message : DownlinkMessage)
      (r : Verdict × AppDownlink)
      → env.store.get world.state app_id dev_id ≡ ok dev
      → convert_fields_down env.vm (env.applications app_id) given ≡ r
      → Ends given message world (on_fields env app_id dev_id world message dev r).1
  unfolding on_fields
  on_fields-Ends world given dev message (Verdict.goes_on, down) known fills =
      on_frame-Ends world given down dev message _ known fills refl
  on_fields-Ends world given dev message (Verdict.not_needed, down) known fills =
      inl (closing-Keeps world down dev (done tt))
  on_fields-Ends world given dev message (Verdict.fails e, down) known fills =
      inl (closing-Keeps world down dev (fails e))
  on_fields-Ends world given dev message (Verdict.panics, down) known fills =
      inl (closing-Keeps world down dev panics)

  on_device-Ends :
      (world : World env) (down : AppDownlink) (message : DownlinkMessage) (r : Result Device)
      → env.store.get world.state app_id dev_id ≡ r
      → Ends down message world (on_device env app_id dev_id world down message r).1
  unfolding on_device downlink_failed
  on_device-Ends world down message (err e) known =
      inl (record { up = refl; amqp_up = refl; sent = refl })
  on_device-Ends world down message (ok dev) known =
      on_fields-Ends world down dev message _ known refl

-- HandleDownlink sends nothing to an application, and at most one message to the broker: the frame
-- that ConvertToLoRaWAN makes of the message for a device that the store has under its identifiers.
pub handle_downlink-Ends :
    (env : Env) (world : World env) (down : AppDownlink) (message : DownlinkMessage)
    → Keeps world (handle_downlink env world down message).1
      ⊎ SendsOne env down.app_id down.dev_id down message world
          (handle_downlink env world down message).1
unfolding handle_downlink
handle_downlink-Ends env world down message =
    on_device-Ends env down.app_id down.dev_id world down message _ refl
