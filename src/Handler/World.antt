-- ===== src/Handler/World.antt =====
-- core/handler/handler.go: what the handler works with, and what it leaves.
use ttn.Base.{
  ℕ, Bool, false, Option, none, some, List, [], ◌∷◌, ◌++◌, String, Result, ok, err, ltb,
  if◌then◌else◌,
}
use ttn.Lorawan.{Codec}
use ttn.Messages.{Content, DownlinkOption, DownlinkMessage}
use ttn.NetworkServer.Handlers.{set_f_cnt}
use ttn.Handler.Types.{AppUplink, EventData, DeviceEvent, Store}
use ttn.Handler.ConvertFields.{Vm, Application}

-- `read` reads the message of a payload, with package brocaar/lorawan.
pub record Env : Type 1 where
  pub store : Store
  pub codec : Codec
  pub vm : Vm
  pub applications : String → Result Application
  pub amqp_enabled : Bool
  pub read : List ℕ → Result Content

-- What is left where the error of UnmarshalPayload is ignored: no message.
content_or_missing : ℕ → Result Content → Content
content_or_missing f_cnt (ok content) = set_f_cnt f_cnt content
content_or_missing f_cnt (err e) = Content.missing

-- By the counter of the LoRaWAN configuration, if there is one.
content_for : Env → List ℕ → Option ℕ → Content
unfolding content_or_missing
content_for env payload none = Content.missing
content_for env payload (some f_cnt) = content_or_missing f_cnt (env.read payload)

counter_of : Option DownlinkOption → Option ℕ
counter_of none = none
counter_of (some option) = option.lorawan_f_cnt

-- The message is reset, and read from the payload: UnmarshalPayload of package api/broker.
pub with_content : Env → DownlinkMessage → DownlinkMessage
unfolding content_for counter_of
with_content env message = record message {
  message = content_for env message.payload (counter_of message.downlink_option);
}

-- The state of the store, and what has been sent to the channels of the handler, in order.
pub record World (env : Env) : Type 0 where
  pub state : env.store.State
  pub events : List DeviceEvent
  pub up : List AppUplink
  pub amqp_up : List AppUplink
  pub sent : List DownlinkMessage

module _ (env : Env) where
  abbrev pub emit_all : World env → List DeviceEvent → World env
  emit_all world events = record world { events = world.events ++ events }

  abbrev pub emit : World env → String → String → EventData → World env
  emit world app_id dev_id data_of =
      emit_all world (record { app_id = app_id; dev_id = dev_id; data_of = data_of } ∷ [])

  abbrev pub with_state : World env → env.store.State → World env
  with_state world state = record world { state = state }

  abbrev pub publish : World env → AppUplink → World env
  publish world message = record world {
    up = world.up ++ (message ∷ []);
    amqp_up = if env.amqp_enabled then world.amqp_up ++ (message ∷ []) else world.amqp_up;
  }

  -- Whether messages wait; an error of Length counts as none.
  pub waiting : World env → String → String → Bool
  waiting world app_id dev_id = elim (env.store.queue_length world.state app_id dev_id) [
    | ok n ↦ ltb 0 n
    | err e ↦ false
  ]

  pub waiting_now : World env → String → String → Bool
  unfolding waiting
  waiting_now world app_id dev_id = elim (env.store.has_queue world.state app_id dev_id) [
    | ok _ ↦ waiting world app_id dev_id
    | err e ↦ false
  ]
