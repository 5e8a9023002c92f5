-- ===== src/Handler/Activation.antt =====
-- core/handler/activation.go: a device joins the network.
pub mod Nonces
pub mod Joined
pub mod Laws
pub mod Distinct
pub mod Replay
mod Tests
use ttn.Base.{
  ℕ, zero, suc, ◌+◌, Bool, true, false, List, [], ◌∷◌, ◌++◌, Option, none, some, String, Result, ok,
  err, Error, Outcome, done, fails, panics, blocks, ◌==◌, if◌then◌else◌,
}
use ttn.Errors.Texts.{append}
use ttn.Lorawan.{JoinRequest, JoinAccept, Body, PhyPayload, Codec}
use ttn.Messages.{DownlinkOption}
use ttn.Otaa.{Aes, calculate_session_keys}
use ttn.Handler.Types.{Device, EventData, Store}
use ttn.Handler.World.{Env, World, emit, with_state}

pub record ActivationTemplate : Type 0 where
  pub payload : List ℕ
  pub downlink_option : Option DownlinkOption

-- pb_broker.DeduplicatedDeviceActivationRequest. Its EUIs, which the events repeat, are there.
pub record ActivationRequest : Type 0 where
  pub payload : List ℕ
  pub app_id : String
  pub dev_id : String
  pub has_lorawan : Bool
  pub response_template : Option ActivationTemplate

-- pb.DeviceActivationResponse, with what it writes to the LoRaWAN metadata of the activation.
pub record ActivationResponse : Type 0 where
  pub payload : List ℕ
  pub downlink_option : Option DownlinkOption
  pub nwk_s_key : ℕ
  pub dev_addr : ℕ

-- The loop over the nonces that are used.
unfoldable pub is_used : List ℕ → ℕ → Bool
is_used [] nonce = false
is_used (used ∷ rest) nonce = if used == nonce then true else is_used rest nonce

-- Random nonces are drawn until one is not used; `position` counts the draws.
unfoldable pub draw_nonce : List ℕ → (ℕ → ℕ) → ℕ → ℕ → Option ℕ
unfolding is_used
draw_nonce used random position zero = none
draw_nonce used random position (suc fuel) =
    let later = draw_nonce used random (suc position) fuel in
    if is_used used (random position) then later else some (random position)

no_app_key : String → Error
no_app_key dev_id = Error.not_found (append "AppKey for device " dev_id)

-- HandleActivationChallenge.
module _ (codec : Codec) where
  challenge_signed : Result PhyPayload → Result (List ℕ)
  challenge_signed (err e) = err (Error.not_found "Could not set MIC")
  challenge_signed (ok phy) = codec.marshal phy

  challenge_read : Device → Result PhyPayload → Result (List ℕ)
  unfolding challenge_signed
  challenge_read dev (err e) = err e
  challenge_read dev (ok phy) = challenge_signed (codec.set_mic phy dev.app_key)

  challenge_device : String → List ℕ → Result Device → Result (List ℕ)
  unfolding no_app_key challenge_read
  challenge_device dev_id payload (err e) = err e
  challenge_device dev_id payload (ok dev) =
      if dev.app_key == 0
      then err (no_app_key dev_id)
      else challenge_read dev (codec.unmarshal payload)

pub handle_activation_challenge :
    (env : Env) → World env → String → String → List ℕ → Result (List ℕ)
unfolding challenge_device
handle_activation_challenge env world app_id dev_id payload =
    challenge_device env.codec dev_id payload (env.store.get world.state app_id dev_id)

-- The device after the join: its frame counter and its current downlink stay.
pub joined : Device → ℕ → ℕ → ℕ → ℕ × ℕ → Device
joined dev dev_nonce app_nonce dev_addr (app_s_key, nwk_s_key) = record dev {
  dev_addr = dev_addr;
  app_s_key = app_s_key;
  nwk_s_key = nwk_s_key;
  used_app_nonces = dev.used_app_nonces ++ (app_nonce ∷ []);
  used_dev_nonces = dev.used_dev_nonces ++ (dev_nonce ∷ []);
}

module _ (env : Env) (aes : Aes) (activation : ActivationRequest) where
  abbrev End : Type 0
  End = Outcome ActivationResponse × World env

  activation_failed : World env → Error → End
  activation_failed world e =
      (fails e, emit env world activation.app_id activation.dev_id (EventData.activation_error e))

  on_marshal : World env → Device → ActivationTemplate → Result (List ℕ) → End
  unfolding activation_failed
  on_marshal world dev template (err e) = activation_failed world e
  on_marshal world dev template (ok bytes) = (
    done (record {
      payload = bytes;
      downlink_option = template.downlink_option;
      nwk_s_key = dev.nwk_s_key;
      dev_addr = dev.dev_addr;
    }),
    world,
  )

  on_encrypted : World env → Device → ActivationTemplate → Result PhyPayload → End
  unfolding activation_failed on_marshal
  on_encrypted world dev template (err e) = activation_failed world e
  on_encrypted world dev template (ok phy) = on_marshal world dev template (env.codec.marshal phy)

  on_mic : World env → Device → ActivationTemplate → Result PhyPayload → End
  unfolding activation_failed on_encrypted
  on_mic world dev template (err e) = activation_failed world e
  on_mic world dev template (ok phy) =
      on_encrypted world dev template (env.codec.encrypt_join_accept phy dev.app_key)

  on_saved :
      World env
      → Device
      → ActivationTemplate
      → PhyPayload
      → Result (Unit {0}) × env.store.State
      → End
  unfolding activation_failed on_mic
  on_saved world dev template phy (err e, state) = activation_failed (with_state env world state) e
  on_saved world dev template phy (ok _, state) =
      on_mic (with_state env world state) dev template (env.codec.set_mic phy dev.app_key)

  -- With the nonce that is drawn.
  on_nonce : World env → Device → ActivationTemplate → ℕ → PhyPayload → JoinAccept → Option ℕ → End
  unfolding on_saved joined
  on_nonce world dev template dev_nonce phy accept none = (blocks, world)
  on_nonce world dev template dev_nonce phy accept (some nonce) =
      let keys = calculate_session_keys aes dev.app_key nonce accept.net_id dev_nonce in
      let after = joined dev dev_nonce nonce accept.dev_addr keys in
      let response = record phy { body = Body.join_accept (record accept { app_nonce = nonce }) } in
      on_saved world after template response (env.store.set world.state dev after)

  module _ (random : ℕ → ℕ) (fuel : ℕ) where
    on_accept : World env → Device → ActivationTemplate → ℕ → PhyPayload → Result JoinAccept → End
    unfolding activation_failed on_nonce
    on_accept world dev template dev_nonce phy (err e) = activation_failed world e
    on_accept world dev template dev_nonce phy (ok accept) =
        on_nonce
          (emit env world activation.app_id activation.dev_id
            (EventData.activation accept.dev_addr))
          dev template dev_nonce phy accept (draw_nonce dev.used_app_nonces random 0 fuel)

    on_response_body : World env → Device → ActivationTemplate → ℕ → PhyPayload → Body → End
    unfolding activation_failed on_accept
    on_response_body world dev template dev_nonce phy (Body.encrypted bytes) =
        on_accept world dev template dev_nonce phy (env.codec.unmarshal_join_accept bytes)
    on_response_body world dev template dev_nonce phy _ =
        activation_failed world
          (Error.invalid_argument "Activation ResponseTemplate" "MACPayload must be a *DataPayload")

    on_response : World env → Device → ActivationTemplate → ℕ → Result PhyPayload → End
    unfolding activation_failed on_response_body
    on_response world dev template dev_nonce (err e) = activation_failed world e
    on_response world dev template dev_nonce (ok phy) =
        on_response_body world dev template dev_nonce phy phy.body

    on_dev_nonce : World env → Device → ActivationTemplate → ℕ → Bool → End
    unfolding activation_failed on_response
    on_dev_nonce world dev template dev_nonce true =
        activation_failed world (Error.invalid_argument "Activation DevNonce" "already used")
    on_dev_nonce world dev template dev_nonce false =
        on_response world dev template dev_nonce (env.codec.unmarshal template.payload)

    on_request_mic : World env → Device → ActivationTemplate → JoinRequest → Result Bool → End
    unfolding activation_failed on_dev_nonce
    on_request_mic world dev template request (ok true) =
        on_dev_nonce world dev template request.dev_nonce
          (is_used dev.used_dev_nonces request.dev_nonce)
    on_request_mic world dev template request _ =
        activation_failed world (Error.not_found "MIC does not match device")

    on_request_body : World env → Device → ActivationTemplate → PhyPayload → Body → End
    unfolding activation_failed on_request_mic
    on_request_body world dev template phy (Body.join_request request) =
        on_request_mic world dev template request (env.codec.validate_mic phy dev.app_key)
    on_request_body world dev template phy _ =
        activation_failed world
          (Error.invalid_argument "Activation" "does not contain a JoinRequestPayload")

    on_request : World env → Device → ActivationTemplate → Result PhyPayload → End
    unfolding activation_failed on_request_body
    on_request world dev template (err e) = activation_failed world e
    on_request world dev template (ok phy) = on_request_body world dev template phy phy.body

    -- By whether the device has no key, and whether there is LoRaWAN metadata.
    on_checks : World env → Device → ActivationTemplate → Bool → Bool → End
    unfolding activation_failed on_request no_app_key
    on_checks world dev template true has_lorawan =
        activation_failed world (no_app_key activation.dev_id)
    on_checks world dev template false false =
        activation_failed world
          (Error.invalid_argument "Activation" "does not contain LoRaWAN metadata")
    on_checks world dev template false true =
        on_request world dev template (env.codec.unmarshal activation.payload)

    on_device : World env → ActivationTemplate → Result Device → End
    unfolding activation_failed on_checks
    on_device world template (err e) = activation_failed world e
    on_device world template (ok dev) =
        on_checks world dev template (dev.app_key == 0) activation.has_lorawan

    on_template : World env → Option ActivationTemplate → End
    unfolding activation_failed on_device
    on_template world none =
        activation_failed world
          (Error.invalid_argument "Activation" "No gateways available for downlink")
    on_template world (some template) =
        on_device world template (env.store.get world.state activation.app_id activation.dev_id)

-- HandleActivation, with the random nonces and a bound on how many are drawn: where that is reached,
-- the call has not ended.
pub handle_activation :
    (env : Env)
    → Aes
    → (ℕ → ℕ)
    → ℕ
    → World env
    → ActivationRequest
    → Outcome ActivationResponse × World env
unfolding on_template
handle_activation env aes random fuel world activation =
    on_template env aes activation random fuel world activation.response_template
