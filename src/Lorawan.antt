-- ===== src/Lorawan.antt =====
-- The LoRaWAN messages as the components see them: the fields of package brocaar/lorawan that the
-- code reads or writes, and the package's functions on them, which are a parameter.
use ttn.Base.{ℕ, Bool, List, Option, Result}

pub data MType : Type 0 where
  join_request join_accept unconfirmed_data_up unconfirmed_data_down : MType
  confirmed_data_up confirmed_data_down rfu proprietary : MType

-- A frame payload: decrypted or opaque bytes, or what was read as MAC commands.
pub data Payload : Type 0 where
  bytes : List ℕ → Payload
  commands : Payload

pub record MacPayload : Type 0 where
  pub dev_addr : ℕ
  pub f_cnt : ℕ
  pub ack : Bool
  pub f_pending : Bool
  pub f_opts : List ℕ
  pub f_port : Option ℕ
  pub frm_payload : List Payload

pub record JoinRequest : Type 0 where
  pub app_eui : ℕ
  pub dev_eui : ℕ
  pub dev_nonce : ℕ

pub record JoinAccept : Type 0 where
  pub app_nonce : ℕ
  pub net_id : ℕ
  pub dev_addr : ℕ

-- The payload of a message, by the type that the code tests for.
pub data Body : Type 0 where
  mac : MacPayload → Body
  join_request : JoinRequest → Body
  join_accept : JoinAccept → Body
  encrypted : List ℕ → Body

pub record PhyPayload : Type 0 where
  pub m_type : MType
  pub body : Body
  pub mic : ℕ

-- The package's functions. A key is a number of 128 bits.
pub record Codec : Type 0 where
  pub unmarshal : List ℕ → Result PhyPayload
  pub marshal : PhyPayload → Result (List ℕ)
  pub validate_mic : PhyPayload → ℕ → Result Bool
  pub set_mic : PhyPayload → ℕ → Result PhyPayload
  pub encrypt_frm_payload : PhyPayload → ℕ → Result PhyPayload
  pub decrypt_frm_payload : PhyPayload → ℕ → Result PhyPayload
  pub unmarshal_join_accept : List ℕ → Result JoinAccept
  pub encrypt_join_accept : PhyPayload → ℕ → Result PhyPayload
