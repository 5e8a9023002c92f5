-- ===== src/Broker/Uplink/Tests.antt =====
-- A concrete broker.
use ttn.Base.{
  ℕ, ◌%◌, ◌^◌, ◌≡◌, ◌↔◌, refl, Bool, true, false, [], ◌∷◌, none, some, Result, ok, err, Error,
  arith, codes, ◌==◌,
}
use ttn.Base.Int.{pos}
use ttn.Fcnt.{get_full}
use ttn.Errors.{Grpc}
use ttn.Lorawan.{MType, MacPayload, Body, PhyPayload, Codec}
use ttn.Messages.{UplinkMessage, Device, DeduplicatedUplinkMessage}
use ttn.Broker.Uplink.{
  Services, check_f_cnt, find_device, deduplicated, handle_uplink, mac_payload, remote,
  some_devices, first_device, with_f_cnt, one_handler, only_handler,
}
use ttn.Broker.Uplink.FrameCounter.{IsFresh, check_f_cnt_iff}
use ttn.Broker.Uplink.Mic.{find_device_stale}
use ttn.Broker.Uplink.Forward.{Forwarded, handle_uplink-Forwarded}

abbrev device : ℕ → Bool → Device
device key wide = record {
  app_eui = 1;
  dev_eui = 2;
  app_id = "app";
  dev_id = "dev";
  nwk_s_key = key;
  f_cnt_up = 70000;
  uses_32_bit_f_cnt = wide;
  disable_f_cnt_check = false;
}

abbrev payload : ℕ → MacPayload
payload f_cnt = record {
  dev_addr = 99;
  f_cnt = f_cnt;
  ack = false;
  f_pending = false;
  f_opts = [];
  f_port = some 1;
  frm_payload = [];
}

abbrev phy : ℕ → PhyPayload
phy f_cnt = record { m_type = MType.unconfirmed_data_up; body = Body.mac (payload f_cnt); mic = 0 }

-- A codec whose MIC is right where the key is the frame counter.
abbrev by_key : PhyPayload → ℕ → Result Bool
by_key p key = elim p.body [ Body.mac m ↦ ok (m.f_cnt == key) | _ ↦ ok false ]

abbrev codec : Codec
codec = record {
  unmarshal = λ b. ok (phy 4470);
  marshal = λ p. ok [];
  validate_mic = by_key;
  set_mic = λ p k. ok p;
  encrypt_frm_payload = λ p k. ok p;
  decrypt_frm_payload = λ p k. ok p;
  unmarshal_join_accept = λ b. err Error.eof;
  encrypt_join_accept = λ p k. ok p;
}

check_f_cnt_iff_example :
    (check_f_cnt (device 7 false) MType.unconfirmed_data_up 70006 ≡ ok tt)
    ↔ IsFresh (device 7 false) MType.unconfirmed_data_up 70006
check_f_cnt_iff_example =
    check_f_cnt_iff (device 7 false) MType.unconfirmed_data_up 70006 (omega arith) (omega arith)

find_device_stale_example :
    find_device codec (phy 4470) (payload 4470) 4470 4470 (device 7 true ∷ device 4470 false ∷ [])
    ≡ ok (record { device = none; f_cnt = get_full 70000 (4470 % 2 ^ 16) })
unfolding find_device with_f_cnt get_full
find_device_stale_example =
    find_device_stale codec (phy 4470) (payload 4470) 4470 (device 7 true) (device 4470 false) refl
      (λ e. absurd (ground arith)) refl refl refl refl refl

abbrev services : Services
services = record {
  sort_devices = λ ds. ds;
  sort_options = λ os. os;
  ns_get_devices = λ a f. ok (device 70006 true ∷ []);
  ns_uplink = λ m. ok m;
  handlers_for_app_id = λ a. ok ("handler" ∷ []);
  handler_is_active = λ h. true;
}

abbrev grpc : Grpc
grpc = record { text = λ c s. s; sprintf = λ s. s; code_name = λ c. "Unknown" }

abbrev uplink : UplinkMessage
uplink = record {
  payload = 1 ∷ [];
  lorawan = some (record { data_rate = codes "SF7BW125"; frequency_plan = "EU"; f_cnt = 0 });
  gateway_metadata = record { gateway_id = "g"; snr = pos 20 };
  downlink_options =
      record { identifier = "i"; gateway_id = "g"; score = 3; lorawan_f_cnt = some 0 } ∷ [];
}

abbrev forwarded : DeduplicatedUplinkMessage
forwarded =
    deduplicated services uplink (uplink ∷ [])
      (record { data_rate = codes "SF7BW125"; frequency_plan = "EU"; f_cnt = 0 })
      (device 70006 true) 70006

handle_uplink-Forwarded_example : Forwarded codec services uplink [] "handler" forwarded
unfolding handle_uplink mac_payload remote some_devices first_device find_device with_f_cnt get_full
    check_f_cnt one_handler only_handler
handle_uplink-Forwarded_example =
    handle_uplink-Forwarded codec grpc services uplink [] "handler" forwarded refl
