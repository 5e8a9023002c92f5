-- ===== src/Broker/Activation.antt =====
-- core/broker/activation.go: the join of a device, from its duplicates to the handler that knows the
-- device's key, which the handlers prove by their answers to a challenge.
pub mod Laws
mod Tests
use ttn.Base.{
  ℕ, ◌≡◌, Bool, true, false, List, [], ◌∷◌, ◌++◌, Option, none, some, String, Result, ok, err,
  Error, ◌>>=◌, ◌==◌, if◌then◌else◌,
}
use ttn.Errors.{Grpc, from_grpc_error}
use ttn.Errors.Texts.{append}
use ttn.Lorawan.{PhyPayload, Codec}
use ttn.Messages.{DownlinkOption}

-- pb.DeviceActivationRequest.
pub record JoinUplink : Type 0 where
  pub payload : List ℕ
  pub app_eui : ℕ
  pub dev_eui : ℕ
  pub downlink_options : List DownlinkOption

-- pb.DeviceActivationResponse, from the handler and to the router.
pub record JoinResponse : Type 0 where
  pub payload : List ℕ
  pub downlink_option : Option DownlinkOption

-- pb.DeduplicatedDeviceActivationRequest.
pub record JoinRequest : Type 0 where
  pub payload : List ℕ
  pub app_eui : ℕ
  pub dev_eui : ℕ
  pub app_id : String
  pub dev_id : String
  pub response_template : Option JoinResponse

pub record Challenge : Type 0 where
  pub payload : List ℕ
  pub app_id : String
  pub dev_id : String
  pub app_eui : ℕ
  pub dev_eui : ℕ

-- What the broker calls: the network server, discovery, and the handlers by their identifiers.
-- `answers` gives the answers to a challenge that arrive from these handlers, in the order of
-- their arrival: a handler that cannot be dialed or has an error gives none.
pub record Services : Type 0 where
  pub select_best : List DownlinkOption → Option DownlinkOption
  pub ns_prepare : JoinRequest → Result JoinRequest
  pub ns_activate : JoinResponse → Result JoinResponse
  pub handlers_for_app_id : String → Result (List String)
  pub answers : Challenge → List String → List (String × List ℕ)
  pub activate : String → JoinRequest → Result JoinResponse

-- An error of a call over gRPC, as the broker annotates it.
remote {ℓ} : {A : Type ℓ} → Grpc → String → Result A → Result A
remote grpc text (ok a) = ok a
remote grpc text (err e) = err (Error.wrapped text (from_grpc_error grpc e))

all_options : List JoinUplink → List DownlinkOption
all_options [] = []
all_options (u ∷ us) = u.downlink_options ++ all_options us

template_of : Services → List DownlinkOption → Option JoinResponse
template_of services [] = none
template_of services (o ∷ os) =
    some (record { payload = []; downlink_option = services.select_best (o ∷ os) })

-- The message for the network server, of the first duplicate and the options of all.
pub deduplicated : Services → JoinUplink → List JoinUplink → JoinRequest
unfolding all_options template_of
deduplicated services first others = record {
  payload = first.payload;
  app_eui = first.app_eui;
  dev_eui = first.dev_eui;
  app_id = "";
  dev_id = "";
  response_template = template_of services (all_options (first ∷ others));
}

some_handlers : String → List String → Result (List String)
some_handlers app_id [] = err (Error.not_found (append "Handler for AppID " app_id))
some_handlers app_id (h ∷ hs) = ok (h ∷ hs)

abbrev without_mic : PhyPayload → PhyPayload
without_mic phy = record phy { mic = 0 }

abbrev challenge_of : JoinRequest → List ℕ → Challenge
challenge_of request payload = record {
  payload = payload;
  app_id = request.app_id;
  dev_id = request.dev_id;
  app_eui = request.app_eui;
  dev_eui = request.dev_eui;
}

not_accepted : Error
not_accepted = Error.other "Activation not accepted by any Handler"

module _ (codec : Codec) where
  has_mic : ℕ → Result PhyPayload → Bool
  has_mic mic (err e) = false
  has_mic mic (ok phy) = phy.mic == mic

  -- The loop over the answers: the first with the MIC of the device counts.
  pub first_correct : ℕ → List (String × List ℕ) → Option String
  unfolding has_mic
  first_correct mic [] = none
  first_correct mic ((handler, payload) ∷ rest) =
      let later = first_correct mic rest in
      if has_mic mic (codec.unmarshal payload) then some handler else later

  chosen : Option String → Result String
  unfolding not_accepted
  chosen none = err not_accepted
  chosen (some handler) = ok handler

  module _ (grpc : Grpc) (services : Services) where
    -- HandleActivation after the deduplication: `none` if another call has the duplicates, which
    -- the router is told by an error of its own.
    pub handle_activation : List JoinUplink → Result (Option JoinResponse)
    unfolding remote some_handlers first_correct chosen
    handle_activation [] = ok none
    handle_activation (first ∷ others) = do
      request ←
          remote grpc "NetworkServer refused to prepare activation"
            (services.ns_prepare (deduplicated services first others))
      ids ← services.handlers_for_app_id request.app_id
      handlers ← some_handlers request.app_id ids
      phy ← codec.unmarshal request.payload
      stripped ← codec.marshal (without_mic phy)
      handler ←
          chosen (first_correct phy.mic (services.answers (challenge_of request stripped) handlers))
      accepted ← remote grpc "Handler refused activation" (services.activate handler request)
      activated ← remote grpc "NetworkServer refused activation" (services.ns_activate accepted)
      ok (some activated)
