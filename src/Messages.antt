-- ===== src/Messages.antt =====
-- api/broker and api/protocol/lorawan: the messages between the components, with the fields that
-- the modelled code reads or writes. EUIs, keys and addresses are numbers.
use ttn.Base.{ℕ, Bool, List, Option, String}
use ttn.Base.Int.{ℤ}

-- LoRaWAN metadata of an uplink.
pub record Metadata : Type 0 where
  pub data_rate : List ℕ
  pub frequency_plan : String
  pub f_cnt : ℕ

-- The signal-to-noise ratio is in quarters of a decibel.
pub record GatewayMetadata : Type 0 where
  pub gateway_id : String
  pub snr : ℤ

-- A transmission that a router offers; `lorawan_f_cnt` is the frame counter of its LoRaWAN
-- configuration, if it has one.
pub record DownlinkOption : Type 0 where
  pub identifier : String
  pub gateway_id : String
  pub score : ℕ
  pub lorawan_f_cnt : Option ℕ

pub record UplinkMessage : Type 0 where
  pub payload : List ℕ
  pub lorawan : Option Metadata
  pub gateway_metadata : GatewayMetadata
  pub downlink_options : List DownlinkOption

-- A LoRaWAN device as the network server hands it to the broker.
pub record Device : Type 0 where
  pub app_eui : ℕ
  pub dev_eui : ℕ
  pub app_id : String
  pub dev_id : String
  pub nwk_s_key : ℕ
  pub f_cnt_up : ℕ
  pub uses_32_bit_f_cnt : Bool
  pub disable_f_cnt_check : Bool

-- A MAC command: its identifier and its payload.
pub record MacCommand : Type 0 where
  pub cid : ℕ
  pub payload : List ℕ

-- pb_lorawan.MACPayload.
pub record MacMessage : Type 0 where
  pub dev_addr : ℕ
  pub f_cnt : ℕ
  pub f_port : ℕ
  pub ack : Bool
  pub adr : Bool
  pub adr_ack_req : Bool
  pub f_opts : List MacCommand

-- The content of a message: not unmarshaled, without a MAC payload, or a MAC payload, with whether it
-- is confirmed.
pub data Content : Type 0 where
  missing other : Content
  mac : MacMessage → Bool → Content

pub record DownlinkMessage : Type 0 where
  pub payload : List ℕ
  pub message : Content
  pub app_eui : ℕ
  pub dev_eui : ℕ
  pub app_id : String
  pub dev_id : String
  pub downlink_option : Option DownlinkOption

pub record DeduplicatedUplinkMessage : Type 0 where
  pub payload : List ℕ
  pub message : Content
  pub lorawan : Option Metadata
  pub gateway_metadata : List GatewayMetadata
  pub app_eui : ℕ
  pub dev_eui : ℕ
  pub app_id : String
  pub dev_id : String
  pub response_template : Option DownlinkMessage
