-- ===== src/NetworkServer/Mac.antt =====
-- core/networkserver/mac.go, uplink_mac.go and the uplink half of adr.go: the MAC layer of an uplink.
pub mod Laws
use ttn.Base.{
  ℕ, suc, ◌+◌, ◌%◌, ◌^◌, Bool, true, false, not, ◌&&◌, ◌||◌, List, [], ◌∷◌, ◌++◌, Option, none,
  some, String, Result, ok, err, Error, ◌==◌, if◌then◌else◌, length, same_codes, str_eq, ◌≡◌, refl,
}
use ttn.Base.Int.{ℤ, pos, ltb_ℤ}
use ttn.Band.{link_margin}
use ttn.Messages.{GatewayMetadata, MacCommand, MacMessage}
use ttn.NetworkServer.Device.{Device, Frame, AdrSettings, Faults, push, clear}

-- The identifiers of the MAC commands, their encodings in package brocaar/lorawan, the conversion
-- of a float32 to uint8, and sort.Sort by the SNR.
pub record MacCodec : Type 0 where
  pub link_check_req : ℕ
  pub link_check_ans : ℕ
  pub link_adr_req : ℕ
  pub link_adr_ans : ℕ
  pub link_check_ans_payload : ℕ → ℕ → List ℕ
  pub read_link_adr_ans : List ℕ → Result (Bool × Bool × Bool)
  pub link_adr_req_payload : ℕ → ℕ → ℕ → List Bool → List ℕ
  pub to_uint8 : ℤ → ℕ
  pub sort_by_snr : List GatewayMetadata → List GatewayMetadata

last_snr : List GatewayMetadata → ℤ
last_snr [] = pos 0
last_snr (g ∷ []) = g.snr
last_snr (g ∷ h ∷ gs) = last_snr (h ∷ gs)

pub by_snr : GatewayMetadata → GatewayMetadata → Bool
by_snr a b = ltb_ℤ a.snr b.snr

-- bestSNR: the sort is in place, so that the order of the metadata changes too.
pub best_snr : MacCodec → List GatewayMetadata → ℤ × List GatewayMetadata
unfolding last_snr
best_snr codec [] = (pos 0, [])
best_snr codec (g ∷ gs) = let sorted = codec.sort_by_snr (g ∷ gs) in (last_snr sorted, sorted)

-- What an uplink says: its MAC payload, its data rate and its frequency plan.
pub record Uplink : Type 0 where
  pub mac : MacMessage
  pub is_confirmed : Bool
  pub data_rate : List ℕ
  pub frequency_plan : String

-- What the handlers change: the device, its history, the MAC payload of the answer, and the order
-- of the gateways in the message.
pub record Session : Type 0 where
  pub device : Device
  pub history : List Frame
  pub answer : MacMessage
  pub gateways : List GatewayMetadata

unfoldable pub with_adr : Session → AdrSettings → Session
with_adr s adr = record s { device = record s.device { adr = adr } }

pub set_ack : Session → Session
set_ack s = record s { answer = record s.answer { ack = true } }

-- The new frame; an error of the push is only logged.
pub push_frame : MacCodec → Faults → Uplink → Session → Session
push_frame codec faults uplink s =
    let (snr, gateways) = best_snr codec s.gateways in
    let frame : Frame = record {
      f_cnt = uplink.mac.f_cnt;
      snr = snr;
      gateway_count = length s.gateways;
    } in
    let (history, result) = push faults s.history frame in
    record s { history = history; gateways = gateways }

-- The band, if the device has none.
pub set_band : Uplink → AdrSettings → AdrSettings
set_band uplink adr =
    if str_eq adr.band "" then record adr { band = uplink.frequency_plan } else adr

-- A new data rate asks for a LinkADRReq.
pub set_data_rate : Uplink → AdrSettings → AdrSettings
set_data_rate uplink adr =
    if same_codes adr.data_rate uplink.data_rate
    then adr
    else record adr { data_rate = uplink.data_rate; send_req = true }

-- The request of an acknowledgement asks for one too, and forces an answer.
pub answer_adr_ack : Uplink → Session → Session
answer_adr_ack uplink s =
    if uplink.mac.adr_ack_req
    then set_ack (with_adr s (record s.device.adr { send_req = true }))
    else s

unfoldable pub reset_adr : AdrSettings → AdrSettings
reset_adr adr = record adr { send_req = false; data_rate = []; tx_power = pos 0; nb_trans = 0 }

-- The branch without ADR.
cleared : Session → Result (Unit {0}) → Session × Result (Unit {0})
cleared s (err e) = (s, err e)
cleared s (ok _) = (with_adr s (reset_adr s.device.adr), ok tt)

unfoldable pub clear_adr : Faults → Session → Session × Result (Unit {0})
unfolding cleared
clear_adr faults s =
    let (history, result) = clear faults s.history in
    cleared (record s { history = history }) result

unfoldable pub handle_uplink_adr :
    MacCodec → Faults → Uplink → Session → Session × Result (Unit {0})
handle_uplink_adr codec faults uplink s =
    let pushed = push_frame codec faults uplink s in
    let adr = set_data_rate uplink (set_band uplink s.device.adr) in
    if uplink.mac.adr
    then (answer_adr_ack uplink (with_adr pushed adr), ok tt)
    else clear_adr faults s

append_command : MacCommand → Session → Session
append_command command s = record s {
  answer = record s.answer { f_opts = s.answer.f_opts ++ (command ∷ []) };
}

-- LinkCheckReq: the margin, cut to a byte, and the number of gateways, modulo 2^8.
answer_link_check : MacCodec → Uplink → Session → Session
answer_link_check codec uplink s =
    let (snr, gateways) = best_snr codec s.gateways in
    let payload =
      codec.link_check_ans_payload (codec.to_uint8 (link_margin uplink.data_rate snr))
        (length s.gateways % 2 ^ 8) in
    append_command (record { cid = codec.link_check_ans; payload = payload })
      (record s { gateways = gateways })

-- LinkADRAns.
pub note_adr_answer : Bool × Bool × Bool → AdrSettings → AdrSettings
note_adr_answer (data_rate, power, mask) adr =
    if data_rate && power && mask
    then record adr { failed = 0; send_req = false }
    else record adr { failed = suc adr.failed }

-- An answer that cannot be read is passed over.
take_adr_answer : Session → Result (Bool × Bool × Bool) → Session
take_adr_answer s (err e) = s
take_adr_answer s (ok answer) = with_adr s (note_adr_answer answer s.device.adr)

pub handle_command : MacCodec → Uplink → Session → MacCommand → Session
unfolding answer_link_check take_adr_answer append_command
handle_command codec uplink s command =
    if command.cid == codec.link_check_req
    then answer_link_check codec uplink s
    else if command.cid == codec.link_adr_ans
    then take_adr_answer s (codec.read_link_adr_ans command.payload)
    else s

-- The loop over the MAC commands of the uplink.
unfoldable pub handle_commands : MacCodec → Uplink → Session → List MacCommand → Session
handle_commands codec uplink s [] = s
handle_commands codec uplink s (command ∷ commands) =
    handle_commands codec uplink (handle_command codec uplink s command) commands

-- MAC commands are not sent on port 0, but on port 1.
unfoldable pub avoid_port_0 : MacMessage → MacMessage
avoid_port_0 answer = elim answer.f_opts [
  | [] ↦ answer
  | _ ∷ _ ↦ if answer.f_port == 0 then record answer { f_port = 1 } else answer
]

acknowledge : Uplink → Session → Session
acknowledge uplink s = if uplink.is_confirmed then set_ack s else s

finish_mac : MacCodec → Uplink → Session → Result (Unit {0}) → Session × Result (Unit {0})
finish_mac codec uplink s (err e) = (s, err e)
finish_mac codec uplink s (ok _) =
    let handled = handle_commands codec uplink s uplink.mac.f_opts in
    (record handled { answer = avoid_port_0 handled.answer }, ok tt)

unfoldable pub handle_uplink_mac :
    MacCodec → Faults → Uplink → Session → Session × Result (Unit {0})
unfolding finish_mac acknowledge
handle_uplink_mac codec faults uplink s =
    let (s', result) = handle_uplink_adr codec faults uplink (acknowledge uplink s) in
    finish_mac codec uplink s' result
