-- ===== src/Handler/Types.antt =====
-- The handler's data: core/types (uplink_message.go, downlink_message.go, event.go, metadata.go) and
-- core/handler/device/device.go, and the interfaces that the handler calls.
use ttn.Base.{ℕ, Bool, List, Option, String, Result, Error}

-- A map[string]interface{}: its keys with their values, which are opaque texts. A nil map and an empty
-- one are the same to the code.
abbrev pub Fields : Type 0
Fields = List (String × List ℕ)

-- types.DownlinkMessage. The payload may be nil.
pub record AppDownlink : Type 0 where
  pub app_id : String
  pub dev_id : String
  pub f_port : ℕ
  pub confirmed : Bool
  pub schedule : String
  pub payload_raw : Option (List ℕ)
  pub payload_fields : Fields

-- types.UplinkMessage without its metadata, which ConvertMetadata fills. The number of the EUI stands for
-- its text, the hardware serial.
pub record AppUplink : Type 0 where
  pub app_id : String
  pub dev_id : String
  pub hardware_serial : ℕ
  pub f_port : ℕ
  pub f_cnt : ℕ
  pub confirmed : Bool
  pub is_retry : Bool
  pub payload_raw : List ℕ
  pub payload_fields : Fields

-- device.Device, with the fields that the handling of messages reads or writes. A nonce is a number.
pub record Device : Type 0 where
  pub dev_eui : ℕ
  pub app_id : String
  pub dev_id : String
  pub app_key : ℕ
  pub used_dev_nonces : List ℕ
  pub used_app_nonces : List ℕ
  pub dev_addr : ℕ
  pub nwk_s_key : ℕ
  pub app_s_key : ℕ
  pub f_cnt_up : ℕ
  pub current_downlink : Option AppDownlink

-- What a types.DeviceEvent says, by its type and its data: errors; the message of a downlink, and its frame
-- where it was sent, without the gateway and its configuration; the address of an activation, without
-- the EUIs and the metadata that it repeats.
pub data EventData : Type 0 where
  uplink_error activation_error : Error → EventData
  downlink_error : Error → Option AppDownlink → EventData
  downlink_scheduled downlink_ack : AppDownlink → EventData
  downlink_sent : AppDownlink → List ℕ → EventData
  activation : ℕ → EventData

pub record DeviceEvent : Type 0 where
  pub app_id : String
  pub dev_id : String
  pub data_of : EventData

-- The interface device.Store, with the queues that it gives; Handler/RedisStore.antt has the store of
-- the program. Set takes the device before StartUpdate, and the device.
pub record Store : Type 1 where
  pub State : Type 0
  pub get : State → String → String → Result Device
  pub set : State → Device → Device → Result (Unit {0}) × State
  pub has_queue : State → String → String → Result (Unit {0})
  pub queue_length : State → String → String → Result ℕ
  pub queue_next : State → String → String → Result (Option AppDownlink) × State
  pub queue_replace : State → String → String → AppDownlink → Result (Unit {0}) × State
  pub queue_push_first : State → String → String → AppDownlink → Result (Unit {0}) × State
  pub queue_push_last : State → String → String → AppDownlink → Result (Unit {0}) × State

-- How a processor ends: without error, with ErrNotNeeded, with another error, or in a panic.
pub data Verdict : Type 0 where
  goes_on not_needed panics : Verdict
  fails : Error → Verdict
