-- ===== src/Broker/Uplink.antt =====
-- core/broker/uplink.go: an uplink that several gateways received, from its duplicates to the handler.
pub mod FrameCounter
pub mod Mic
pub mod Forward
mod Tests
use ttn.Base.{
  ℕ, suc, ◌+◌, ◌-◌, ◌*◌, ◌%◌, ◌^◌, Bool, true, false, ◌&&◌, List, [], ◌∷◌, ◌++◌, map, Option, none,
  some, String, Result, ok, err, Error, ◌>>=◌, ◌>>◌, or_fail, ltb, leb, ◌==◌, if◌then◌else◌,
}
use ttn.Fcnt.{get_full}
use ttn.Errors.{Grpc, from_grpc_error}
use ttn.Errors.Texts.{append}
use ttn.Lorawan.{MType, MacPayload, Body, PhyPayload, Codec}
use ttn.Messages.{
  Metadata, DownlinkOption, UplinkMessage, Device, DownlinkMessage, DeduplicatedUplinkMessage,
  Content,
}

abbrev pub max_f_cnt_gap : ℕ
max_f_cnt_gap = 16384

-- The order of the MIC checks; the counters are compared as 64-bit integers.
pub by_f_cnt_up : Device → Device → Bool
by_f_cnt_up a b =
    if a.disable_f_cnt_check
    then ltb (2 * a.f_cnt_up + 100) b.f_cnt_up
    else ltb a.f_cnt_up b.f_cnt_up

pub by_score : DownlinkOption → DownlinkOption → Bool
by_score a b = ltb a.score b.score

abbrev confirmed : MType → Bool
confirmed MType.confirmed_data_up = true
confirmed _ = false

-- The switch on the frame counter, its cases in order; the difference is taken in uint32.
pub check_f_cnt : Device → MType → ℕ → Result (Unit {0})
check_f_cnt device m_type f_cnt =
    let too_low = Error.invalid_argument "FCnt" "not high enough" in
    let gap = (f_cnt + 2 ^ 32 - device.f_cnt_up) % 2 ^ 32 in
    if ltb device.f_cnt_up f_cnt && leb gap max_f_cnt_gap
    then ok tt
    else if device.disable_f_cnt_check
    then ok tt
    else if device.f_cnt_up == 0
    then ok tt
    else if f_cnt == device.f_cnt_up
    then (if confirmed m_type then ok tt else err too_low)
    else if leb f_cnt device.f_cnt_up
    then err too_low
    else if ltb max_f_cnt_gap gap
    then err (Error.invalid_argument "FCnt" "too high")
    else err (Error.internal "FCnt check failed")

-- A write to macPayload.FHDR.FCnt, through the pointer that the payload holds.
unfoldable pub with_f_cnt : PhyPayload → MacPayload → ℕ → PhyPayload
with_f_cnt phy payload f_cnt = record phy { body = Body.mac (record payload { f_cnt = f_cnt }) }

-- What the loop over the candidates leaves: the device that was found, and the frame counter that
-- stands in the payload.
pub record Found : Type 0 where
  pub device : Option Device
  pub f_cnt : ℕ

module _ (codec : Codec) where
  -- The loop over the candidates. `current` is the counter that stands in the payload: it is not
  -- set back between two candidates.
  pub find_device : PhyPayload → MacPayload → ℕ → ℕ → List Device → Result Found
  find_device phy payload original current [] = ok (record { device = none; f_cnt = current })
  find_device phy payload original current (candidate ∷ rest) =
      let full = get_full candidate.f_cnt_up (original % 2 ^ 16) in
      let next = if candidate.uses_32_bit_f_cnt then full else current in
      let others = find_device phy payload original next rest in
      let first = codec.validate_mic (with_f_cnt phy payload current) candidate.nwk_s_key in
      let second = codec.validate_mic (with_f_cnt phy payload full) candidate.nwk_s_key in
      elim first [
        | err e ↦ err e
        | ok true ↦ ok (record { device = some candidate; f_cnt = current })
        | ok false ↦
            if candidate.uses_32_bit_f_cnt
            then (if full == original then others else elim second [
              | err e ↦ err e
              | ok true ↦ ok (record { device = some candidate; f_cnt = full })
              | ok false ↦ others
            ])
            else others
      ]

-- The gateways and the options of all duplicates, in their order.
pub all_options : List UplinkMessage → List DownlinkOption
all_options [] = []
all_options (u ∷ us) = u.downlink_options ++ all_options us

-- What the broker calls: sort.Sort with the two orders, the network server over gRPC, the handlers
-- that discovery knows for an application, and the channels of the handlers that are connected.
pub record Services : Type 0 where
  pub sort_devices : List Device → List Device
  pub sort_options : List DownlinkOption → List DownlinkOption
  pub ns_get_devices : ℕ → ℕ → Result (List Device)
  pub ns_uplink : DeduplicatedUplinkMessage → Result DeduplicatedUplinkMessage
  pub handlers_for_app_id : String → Result (List String)
  pub handler_is_active : String → Bool

-- options[0] of the sorted list: of an empty list it would panic, and no caller passes one.
pub select_best_downlink : Services → List DownlinkOption → Option DownlinkOption
select_best_downlink services options = elim (services.sort_options options) [
  | [] ↦ none
  | best ∷ _ ↦ some best
]

-- An error of a call over gRPC, as the broker annotates it.
remote {ℓ} : {A : Type ℓ} → Grpc → String → Result A → Result A
remote grpc text (ok a) = ok a
remote grpc text (err e) = err (Error.wrapped text (from_grpc_error grpc e))

first_device : Result Found → Result (Device × ℕ)
first_device (err e) = err e
first_device (ok found) = elim found.device [
  | none ↦ err (Error.not_found "device that validates MIC")
  | some device ↦ ok (device, found.f_cnt)
]

mac_payload : String → PhyPayload → Result MacPayload
mac_payload what phy = elim phy.body [
  | Body.mac payload ↦ ok payload
  | _ ↦ err (Error.invalid_argument what "does not contain a MAC payload")
]

only_handler : Services → String → List String → Result String
only_handler services app_id [] = err (Error.not_found (append "Handler for AppID " app_id))
only_handler services app_id (id ∷ []) =
    if services.handler_is_active id
    then ok id
    else err (Error.internal (append "Handler " (append id " not active")))
only_handler services app_id (_ ∷ _ ∷ _) =
    err (Error.internal (append "Multiple Handlers for AppID " app_id))

-- The one handler of an application, which must be connected.
one_handler : Services → String → Result String
one_handler services app_id = do
  ids ← services.handlers_for_app_id app_id
  only_handler services app_id ids

-- The answer that is prepared for the device, if a router offered a transmission.
response_template : Services → Device → List DownlinkOption → Option DownlinkMessage
response_template services device options = elim options [
  | [] ↦ none
  | o ∷ os ↦ some (record {
    payload = [];
    message = Content.missing;
    app_eui = device.app_eui;
    dev_eui = device.dev_eui;
    app_id = device.app_id;
    dev_id = device.dev_id;
    downlink_option = select_best_downlink services (o ∷ os);
  })
]

-- What the message becomes for a device and the frame counter that was found.
pub deduplicated :
    Services
    → UplinkMessage
    → List UplinkMessage
    → Metadata
    → Device
    → ℕ
    → DeduplicatedUplinkMessage
unfolding response_template
deduplicated services first duplicates metadata device f_cnt = record {
  payload = first.payload;
  message = Content.missing;
  lorawan = some (record metadata { f_cnt = f_cnt });
  gateway_metadata = map (λ u. u.gateway_metadata) duplicates;
  app_eui = device.app_eui;
  dev_eui = device.dev_eui;
  app_id = device.app_id;
  dev_id = device.dev_id;
  response_template = response_template services device (all_options duplicates);
}

-- The text of this error also names the address and the counter.
some_devices : List Device → Result (List Device)
some_devices [] = err (Error.not_found "Device with DevAddr and FCnt")
some_devices (d ∷ ds) = ok (d ∷ ds)

module _ (codec : Codec) (grpc : Grpc) (services : Services) where
  -- HandleUplink after the deduplication: `none` if another call has the duplicates, and otherwise
  -- the handler and the message that goes to its channel.
  pub handle_uplink : List UplinkMessage → Result (Option (String × DeduplicatedUplinkMessage))
  handle_uplink [] = ok none
  handle_uplink (first ∷ others) = do
    metadata ←
        or_fail first.lorawan (Error.invalid_argument "Uplink" "does not contain LoRaWAN metadata")
    phy ← codec.unmarshal first.payload
    payload ← mac_payload "Uplink" phy
    devices ←
        remote grpc "NetworkServer did not return devices"
          (services.ns_get_devices payload.dev_addr payload.f_cnt)
    candidates ← some_devices devices
    (device, f_cnt) ← first_device (
        find_device codec phy payload payload.f_cnt payload.f_cnt
          (services.sort_devices candidates))
    check_f_cnt device phy.m_type f_cnt
    let message = deduplicated services first (first ∷ others) metadata device f_cnt
    handled ← remote grpc "NetworkServer did not handle uplink" (services.ns_uplink message)
    handler ← one_handler services device.app_id
    ok (some (handler, handled))
