-- ===== src/Handler/Activation/Joined.antt =====
-- A device that has joined, and what an activation that is answered has checked.
use ttn.Base.{ℕ, ◌≡◌, ◌≢◌, refl, ap, true, false, [], ◌∷◌, ◌++◌, some, ok}
use ttn.Lorawan.{JoinRequest, JoinAccept, Body, PhyPayload}
use ttn.Otaa.{Aes, calculate_session_keys, key_block, calculate_session_keys_lem}
use ttn.Handler.Types.{Device}
use ttn.Handler.World.{Env, World}
use ttn.Handler.Activation.{
  ActivationTemplate, ActivationRequest, ActivationResponse, is_used, joined,
}

-- The device after a join: the session keys are the encryptions of the two blocks of the join under
-- the application key, both nonces are added to those that are used, and the rest stays.
pub record IsJoined (aes : Aes) (dev : Device) (dev_nonce app_nonce : ℕ) (accept : JoinAccept)
    (after : Device) : Type 0 where
  pub has_app_s_key :
      after.app_s_key ≡ aes dev.app_key (key_block 2 app_nonce accept.net_id dev_nonce)
  pub has_nwk_s_key :
      after.nwk_s_key ≡ aes dev.app_key (key_block 1 app_nonce accept.net_id dev_nonce)
  pub has_address : after.dev_addr ≡ accept.dev_addr
  pub uses_dev_nonce : after.used_dev_nonces ≡ dev.used_dev_nonces ++ (dev_nonce ∷ [])
  pub uses_app_nonce : after.used_app_nonces ≡ dev.used_app_nonces ++ (app_nonce ∷ [])
  pub keeps_app_id : after.app_id ≡ dev.app_id
  pub keeps_dev_id : after.dev_id ≡ dev.dev_id
  pub keeps_dev_eui : after.dev_eui ≡ dev.dev_eui
  pub keeps_app_key : after.app_key ≡ dev.app_key
  pub keeps_f_cnt_up : after.f_cnt_up ≡ dev.f_cnt_up
  pub keeps_downlink : after.current_downlink ≡ dev.current_downlink

pub joined-IsJoined :
    (aes : Aes) (dev : Device) (dev_nonce app_nonce : ℕ) (accept : JoinAccept)
    → IsJoined aes dev dev_nonce app_nonce accept (
        joined dev dev_nonce app_nonce accept.dev_addr
          (calculate_session_keys aes dev.app_key app_nonce accept.net_id dev_nonce))
unfolding joined
joined-IsJoined aes dev dev_nonce app_nonce accept =
    let keys = calculate_session_keys_lem aes dev.app_key app_nonce accept.net_id dev_nonce in
    record {
      has_app_s_key = ap (λ k. k.0) keys;
      has_nwk_s_key = ap (λ k. k.1) keys;
      has_address = refl;
      uses_dev_nonce = refl;
      uses_app_nonce = refl;
      keeps_app_id = refl;
      keeps_dev_id = refl;
      keeps_dev_eui = refl;
      keeps_app_key = refl;
      keeps_f_cnt_up = refl;
      keeps_downlink = refl;
    }

-- The join that an answer accepts: the device that is saved, and the frame of the answer.
pub record Accepted (env : Env) (aes : Aes) (template : ActivationTemplate) (dev_nonce : ℕ)
    (dev : Device) (before : World env) (response : ActivationResponse) (after : World env)
    : Type 0 where
  pub app_nonce : ℕ
  pub accept : JoinAccept
  pub saved : Device
  pub is_fresh : is_used dev.used_app_nonces app_nonce ≡ false
  pub is_joined : IsJoined aes dev dev_nonce app_nonce accept saved
  pub is_saved : env.store.set before.state dev saved ≡ (ok tt, after.state)
  pub tells_key : response.nwk_s_key ≡ saved.nwk_s_key
  pub tells_address : response.dev_addr ≡ accept.dev_addr

-- What holds of an activation that is answered.
pub record Joins (env : Env) (aes : Aes) (activation : ActivationRequest) (before : World env)
    (response : ActivationResponse) (after : World env) : Type 0 where
  pub dev : Device
  pub template : ActivationTemplate
  pub phy : PhyPayload
  pub request : JoinRequest
  pub has_template : activation.response_template ≡ some template
  pub is_known : env.store.get before.state activation.app_id activation.dev_id ≡ ok dev
  pub has_key : dev.app_key ≢ 0
  pub is_read : env.codec.unmarshal activation.payload ≡ ok phy
  pub is_request : phy.body ≡ Body.join_request request
  pub is_authentic : env.codec.validate_mic phy dev.app_key ≡ ok true
  pub is_new : is_used dev.used_dev_nonces request.dev_nonce ≡ false
  pub is_accepted : Accepted env aes template request.dev_nonce dev before response after
