-- ===== src/NetworkServer/Tests.antt =====
-- A concrete network server.
use ttn.Base.{
  ℕ, ◌+◌, ◌%◌, ◌^◌, ◌≡◌, refl, Bool, true, false, List, [], ◌∷◌, Option, none, some, ok, err, Error,
  IsIn, codes,
}
use ttn.Base.Int.{pos}
use ttn.Messages
use ttn.Messages.{
  Metadata, MacCommand, MacMessage, Content, DownlinkOption, DownlinkMessage,
  DeduplicatedUplinkMessage,
}
use ttn.NetworkServer.Device.{Device, Faults, Frame, clear}
use ttn.NetworkServer.Mac.{
  MacCodec, handle_uplink_mac, handle_uplink_adr, handle_commands, avoid_port_0, clear_adr,
  with_adr, reset_adr,
}
use ttn.NetworkServer.Adr.{handle_downlink_adr}
use ttn.NetworkServer.Adr.Laws.{Asks, handle_downlink_adr-Asks}
use ttn.NetworkServer.Handlers.{
  Env, ActivationMetadata, handle_downlink, handle_uplink, handle_activate, unmarshal_downlink,
  unmarshal_uplink, set_f_cnt, uplink_of, start_session, prepared_answer, template_of, activated,
}
use ttn.NetworkServer.Handlers.Laws.{Sent, handle_downlink-Sent, handle_downlink_twice}
use ttn.NetworkServer.Handlers.Answers.{Answered, handle_uplink-Answered}
use ttn.NetworkServer.Handlers.Activations.{Activated, handle_activate-Activated}
use ttn.NetworkServer.Devices.{
  to_lorawan, is_candidate, select, handle_get_devices, IsCandidate, handle_get_devices_iff,
}
use ttn.NetworkServer.Prefixes.{get_prefixes_for, Suits, get_prefixes_for_iff}
use ttn.Types.DevAddr.{DevAddrPrefix}

abbrev device : ℕ → Device
device down = record {
  dev_eui = 2;
  app_eui = 1;
  app_id = "app";
  dev_id = "dev";
  dev_addr = 99;
  nwk_s_key = 7;
  f_cnt_up = 10;
  f_cnt_down = down;
  options = record {
    activation_constraints = "";
    disable_f_cnt_check = false;
    uses_32_bit_f_cnt = true;
  };
  adr = record {
    band = "";
    margin = pos 0;
    send_req = false;
    failed = 0;
    data_rate = [];
    tx_power = pos 0;
    nb_trans = 0;
  };
}

abbrev no_faults : Faults
no_faults = record { add = none; trim = none; get = none; clear = none }

abbrev mac_codec : MacCodec
mac_codec = record {
  link_check_req = 2;
  link_check_ans = 2;
  link_adr_req = 3;
  link_adr_ans = 3;
  link_check_ans_payload = λ a b. a ∷ b ∷ [];
  read_link_adr_ans = λ p. ok (true, true, true);
  link_adr_req_payload = λ a b c d. a ∷ b ∷ c ∷ [];
  to_uint8 = λ x. 0;
  sort_by_snr = λ gs. gs;
}

abbrev mac_of : ℕ → List MacCommand → MacMessage
mac_of f_cnt commands = record {
  dev_addr = 99;
  f_cnt = f_cnt;
  f_port = 0;
  ack = false;
  adr = false;
  adr_ack_req = false;
  f_opts = commands;
}

abbrev env : ℕ → Env
env down = record {
  device = λ a d. ok (device down);
  set_error = λ d. none;
  history = λ a d. [];
  faults = no_faults;
  mac_codec = mac_codec;
  percent = λ a b. 0;
  get_plan = λ b. err Error.eof;
  read = λ p. ok (Content.mac (mac_of 11 []) false);
  write_down = λ m. ok (m.f_cnt ∷ []);
  sign = λ m c k. ok (m.f_cnt ∷ k ∷ []);
}

abbrev downlink : Content → List ℕ → DownlinkMessage
downlink content payload = record {
  payload = payload;
  message = content;
  app_eui = 1;
  dev_eui = 2;
  app_id = "app";
  dev_id = "dev";
  downlink_option =
      some (record { identifier = "i"; gateway_id = "g"; score = 0; lorawan_f_cnt = some 0 });
}

abbrev sent : ℕ → DownlinkMessage
sent down = downlink (Content.mac (mac_of down []) false) (down ∷ 7 ∷ [])

handle_downlink-Sent_example :
    Sent
      (env 5)
      (downlink Content.missing (1 ∷ []))
      (sent 5)
      (handle_downlink (env 5) (downlink Content.missing (1 ∷ []))).saved
unfolding handle_downlink unmarshal_downlink set_f_cnt handle_downlink_adr
handle_downlink-Sent_example =
    handle_downlink-Sent (env 5) (downlink Content.missing (1 ∷ [])) (sent 5) refl

handle_downlink_twice_example :
    (mac mac' : MacMessage) × (confirmed confirmed' : Bool) × ((sent 5).message
      ≡ Content.mac mac confirmed)
    × ((sent 6).message ≡ Content.mac mac' confirmed')
    × ((env 5).sign mac confirmed (device 5).nwk_s_key ≡ ok (sent 5).payload)
    × ((env 6).sign mac' confirmed' (device 6).nwk_s_key ≡ ok (sent 6).payload)
    × (mac'.f_cnt ≡ (mac.f_cnt + 1) % 2 ^ 32)
unfolding handle_downlink unmarshal_downlink set_f_cnt handle_downlink_adr
handle_downlink_twice_example =
    handle_downlink_twice (env 5) (env 6) (downlink Content.missing (1 ∷ []))
      (downlink Content.missing (2 ∷ [])) (sent 5) (sent 6) (device 5) (device 6) [] refl refl refl
      refl refl

abbrev uplink : Content → List ℕ → Option DownlinkMessage → DeduplicatedUplinkMessage
uplink content payload template = record {
  payload = payload;
  message = content;
  lorawan = some (record { data_rate = codes "SF7BW125"; frequency_plan = "EU"; f_cnt = 11 });
  gateway_metadata = [];
  app_eui = 1;
  dev_eui = 2;
  app_id = "app";
  dev_id = "dev";
  response_template = template;
}

abbrev template : List ℕ → ℕ → Content → DownlinkMessage
template payload f_cnt content = record {
  payload = payload;
  message = content;
  app_eui = 1;
  dev_eui = 2;
  app_id = "app";
  dev_id = "dev";
  downlink_option =
      some (record { identifier = "i"; gateway_id = "g"; score = 0; lorawan_f_cnt = some f_cnt });
}

abbrev answered : DownlinkMessage
answered = template (5 ∷ []) 5 (Content.mac (mac_of 5 []) false)

handle_uplink-Answered_example :
    Answered
      (env 5)
      (uplink Content.missing (1 ∷ []) (some (template [] 0 Content.missing)))
      (uplink (Content.mac (mac_of 11 []) false) (1 ∷ []) (some answered))
      answered
      (handle_uplink
        (env 5)
        (uplink Content.missing (1 ∷ []) (some (template [] 0 Content.missing)))).saved
unfolding handle_uplink unmarshal_uplink set_f_cnt uplink_of start_session prepared_answer
    template_of handle_uplink_mac handle_uplink_adr handle_commands avoid_port_0 clear clear_adr
    with_adr reset_adr
handle_uplink-Answered_example =
    handle_uplink-Answered (env 5)
      (uplink Content.missing (1 ∷ []) (some (template [] 0 Content.missing)))
      (uplink (Content.mac (mac_of 11 []) false) (1 ∷ []) (some answered)) answered refl refl

abbrev activation : ActivationMetadata
activation = record {
  app_eui = 1;
  dev_eui = 2;
  dev_addr = 100;
  nwk_s_key = 8;
  frequency_plan = "EU";
}

handle_activate-Activated_example :
    Activated (env 5) activation (handle_activate (env 5) (some (some activation))).saved
unfolding handle_activate activated clear
handle_activate-Activated_example = handle_activate-Activated (env 5) activation refl

handle_downlink_adr-Asks_example : Asks mac_codec (mac_of 5 []) (
    handle_downlink_adr mac_codec
      (λ a b. 0)
      (λ b. err Error.eof)
      no_faults
      []
      (device 5)
      (mac_of 5 []))
handle_downlink_adr-Asks_example =
    handle_downlink_adr-Asks mac_codec (λ a b. 0) (λ b. err Error.eof) no_faults [] (device 5)
      (mac_of 5 [])

handle_get_devices_iff_example :
    ((d : Device)
      → IsIn (some d) (some (device 5) ∷ [])
      → IsCandidate 12 d
      → IsIn (to_lorawan d) (to_lorawan (device 5) ∷ []))
    × ((d : ttn.Messages.Device)
        → IsIn d (to_lorawan (device 5) ∷ [])
        → (found : Device) × IsIn (some found) (some (device 5) ∷ [])
          × IsCandidate 12 found
          × (d ≡ to_lorawan found))
unfolding handle_get_devices select is_candidate
handle_get_devices_iff_example =
    handle_get_devices_iff (λ a. ok (some (device 5) ∷ [])) 99 12 (some (device 5) ∷ [])
      (to_lorawan (device 5) ∷ []) refl refl

abbrev prefix : DevAddrPrefix
prefix = record { dev_addr = 38 ∷ 0 ∷ 0 ∷ 0 ∷ []; length = 7 }

get_prefixes_for_iff_example :
    (IsIn prefix (get_prefixes_for ((prefix, "otaa" ∷ []) ∷ []) ("otaa" ∷ []))
      → Suits ((prefix, "otaa" ∷ []) ∷ []) ("otaa" ∷ []) prefix)
    × (Suits ((prefix, "otaa" ∷ []) ∷ []) ("otaa" ∷ []) prefix
        → IsIn prefix (get_prefixes_for ((prefix, "otaa" ∷ []) ∷ []) ("otaa" ∷ [])))
get_prefixes_for_iff_example =
    get_prefixes_for_iff ((prefix, "otaa" ∷ []) ∷ []) ("otaa" ∷ []) prefix (((tt, tt), tt))

abbrev frame : ℕ → Frame
frame f_cnt = record { f_cnt = f_cnt; snr = pos 0; gateway_count = 1 }
