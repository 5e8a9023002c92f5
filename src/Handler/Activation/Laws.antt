-- ===== src/Handler/Activation/Laws.antt =====
-- What an activation that is answered has checked, and what it leaves.
use ttn.Base.{
  ℕ, ◌≡◌, ◌≢◌, refl, sym, ap, ◌∙◌, Bool, true, false, List, Option, none, some, Result, ok, err,
  Outcome, done, ◌==◌, arith, done_inj,
}
use ttn.Lorawan.{JoinRequest, JoinAccept, Body, PhyPayload}
use ttn.Otaa.{Aes, calculate_session_keys}
use ttn.Handler.Types.{Device}
use ttn.Handler.World.{Env, World, with_state}
use ttn.Handler.Activation.{
  ActivationTemplate, ActivationRequest, ActivationResponse, is_used, draw_nonce, joined,
  activation_failed, on_marshal, on_encrypted, on_mic, on_saved, on_nonce, on_accept,
  on_response_body, on_response, on_dev_nonce, on_request_mic, on_request_body, on_request,
  on_checks, on_device, on_template, handle_activation,
}
use ttn.Handler.Activation.Nonces.{draw_nonce-eq_some}
use ttn.Handler.Activation.Joined.{joined-IsJoined, Accepted, Joins}

module _ (env : Env) (aes : Aes) (activation : ActivationRequest)
    (response : ActivationResponse) where
  -- The call ends with the response, in the world `after`.
  abbrev Gives : Outcome ActivationResponse × World env → World env → Type 0
  Gives end after = end ≡ (done response, after)

  abbrev Told : Device → World env → World env → Type 0
  Told dev before after =
      (response.nwk_s_key ≡ dev.nwk_s_key)
      × (response.dev_addr ≡ dev.dev_addr)
      × (after.state ≡ before.state)

  on_marshal-Told :
      (world after : World env) (dev : Device) (template : ActivationTemplate) (r : Result (List ℕ))
      → Gives (on_marshal env aes activation world dev template r) after
      → Told dev world after
  unfolding on_marshal activation_failed
  on_marshal-Told world after dev template (err e) h = cc
  on_marshal-Told world after dev template (ok bytes) h =
      let same = done_inj (ap (λ p. p.0) h) in
      (
        ap (λ (r : ActivationResponse). r.nwk_s_key) (sym same),
        ap (λ (r : ActivationResponse). r.dev_addr) (sym same),
        ap (λ (p : Outcome ActivationResponse × World env). p.1.state) (sym h),
      )

  on_encrypted-Told :
      (world after : World env) (dev : Device) (template : ActivationTemplate)
      (r : Result PhyPayload)
      → Gives (on_encrypted env aes activation world dev template r) after
      → Told dev world after
  unfolding on_encrypted activation_failed
  on_encrypted-Told world after dev template (err e) h = cc
  on_encrypted-Told world after dev template (ok phy) h =
      on_marshal-Told world after dev template (env.codec.marshal phy) h

  on_mic-Told :
      (world after : World env) (dev : Device) (template : ActivationTemplate)
      (r : Result PhyPayload)
      → Gives (on_mic env aes activation world dev template r) after
      → Told dev world after
  unfolding on_mic activation_failed
  on_mic-Told world after dev template (err e) h = cc
  on_mic-Told world after dev template (ok phy) h =
      on_encrypted-Told world after dev template (env.codec.encrypt_join_accept phy dev.app_key) h

  on_saved-Told :
      (world after : World env) (dev : Device) (template : ActivationTemplate) (phy : PhyPayload)
      (r : Result (Unit {0}) × env.store.State)
      → Gives (on_saved env aes activation world dev template phy r) after
      → (r ≡ (ok tt, after.state))
        × (response.nwk_s_key ≡ dev.nwk_s_key)
        × (response.dev_addr ≡ dev.dev_addr)
  unfolding on_saved activation_failed
  on_saved-Told world after dev template phy (err e, state) h = cc
  on_saved-Told world after dev template phy (ok _, state) h =
      let (k, a, s) =
        on_mic-Told (with_state env world state) after dev template
          (env.codec.set_mic phy dev.app_key) h in
      (ap (λ x. (ok tt, x)) (sym s), k, a)

  on_nonce-Accepted :
      (before world after : World env) (dev : Device) (template : ActivationTemplate)
      (dev_nonce : ℕ) (phy : PhyPayload) (accept : JoinAccept) (drawn : Option ℕ)
      → world.state ≡ before.state
      → ((n : ℕ) → drawn ≡ some n → is_used dev.used_app_nonces n ≡ false)
      → Gives (on_nonce env aes activation world dev template dev_nonce phy accept drawn) after
      → Accepted env aes template dev_nonce dev before response after
  unfolding on_nonce
  on_nonce-Accepted before world after dev template dev_nonce phy accept none s u h = cc
  on_nonce-Accepted before world after dev template dev_nonce phy accept (some nonce) s u h =
      let keys = calculate_session_keys aes dev.app_key nonce accept.net_id dev_nonce in
      let saved = joined dev dev_nonce nonce accept.dev_addr keys in
      let (stored, k, a) =
        on_saved-Told world after saved template
          (record phy { body = Body.join_accept (record accept { app_nonce = nonce }) })
          (env.store.set world.state dev saved) h in
      record {
        app_nonce = nonce;
        accept = accept;
        saved = saved;
        is_fresh = u nonce refl;
        is_joined = joined-IsJoined aes dev dev_nonce nonce accept;
        is_saved = ap (λ t. env.store.set t dev saved) (sym s) ∙ stored;
        tells_key = k;
        tells_address = a ∙ (joined-IsJoined aes dev dev_nonce nonce accept).has_address;
      }

  module _ (random : ℕ → ℕ) (fuel : ℕ) (before after : World env) where
    on_accept-Accepted :
        (dev : Device) (template : ActivationTemplate) (dev_nonce : ℕ) (phy : PhyPayload)
        (r : Result JoinAccept)
        → Gives (on_accept env aes activation random fuel before dev template dev_nonce phy r) after
        → Accepted env aes template dev_nonce dev before response after
    unfolding on_accept activation_failed
    on_accept-Accepted dev template dev_nonce phy (err e) h = cc
    on_accept-Accepted dev template dev_nonce phy (ok accept) h =
        on_nonce-Accepted before _ after dev template dev_nonce phy accept
          (draw_nonce dev.used_app_nonces random 0 fuel) refl
          (λ n d. draw_nonce-eq_some dev.used_app_nonces random 0 fuel d) h

    on_response_body-Accepted :
        (dev : Device) (template : ActivationTemplate) (dev_nonce : ℕ) (phy : PhyPayload)
        (body : Body)
        → Gives
            (on_response_body env aes activation random fuel before dev template dev_nonce phy body)
            after
        → Accepted env aes template dev_nonce dev before response after
    unfolding on_response_body activation_failed
    on_response_body-Accepted dev template dev_nonce phy (Body.encrypted bytes) h =
        on_accept-Accepted dev template dev_nonce phy (env.codec.unmarshal_join_accept bytes) h
    on_response_body-Accepted dev template dev_nonce phy (Body.mac x) h = cc
    on_response_body-Accepted dev template dev_nonce phy (Body.join_request x) h = cc
    on_response_body-Accepted dev template dev_nonce phy (Body.join_accept x) h = cc

    on_response-Accepted :
        (dev : Device) (template : ActivationTemplate) (dev_nonce : ℕ) (r : Result PhyPayload)
        → Gives (on_response env aes activation random fuel before dev template dev_nonce r) after
        → Accepted env aes template dev_nonce dev before response after
    unfolding on_response activation_failed
    on_response-Accepted dev template dev_nonce (err e) h = cc
    on_response-Accepted dev template dev_nonce (ok phy) h =
        on_response_body-Accepted dev template dev_nonce phy phy.body h

    on_dev_nonce-Accepted :
        (dev : Device) (template : ActivationTemplate) (dev_nonce : ℕ) (used : Bool)
        → Gives
            (on_dev_nonce env aes activation random fuel before dev template dev_nonce used)
            after
        → (used ≡ false) × Accepted env aes template dev_nonce dev before response after
    unfolding on_dev_nonce activation_failed
    on_dev_nonce-Accepted dev template dev_nonce true h = cc
    on_dev_nonce-Accepted dev template dev_nonce false h =
        (refl, on_response-Accepted dev template dev_nonce (env.codec.unmarshal template.payload) h)

    on_request_mic-Accepted :
        (dev : Device) (template : ActivationTemplate) (request : JoinRequest) (r : Result Bool)
        → Gives (on_request_mic env aes activation random fuel before dev template request r) after
        → (r ≡ ok true)
          × (is_used dev.used_dev_nonces request.dev_nonce ≡ false)
          × Accepted env aes template request.dev_nonce dev before response after
    unfolding on_request_mic activation_failed
    on_request_mic-Accepted dev template request (err e) h = cc
    on_request_mic-Accepted dev template request (ok false) h = cc
    on_request_mic-Accepted dev template request (ok true) h =
        let (u, a) =
          on_dev_nonce-Accepted dev template request.dev_nonce
            (is_used dev.used_dev_nonces request.dev_nonce) h in
        (refl, u, a)

    -- The part of a join that begins with the device and the template.
    abbrev Begins : ActivationTemplate → Device → Type 0
    Begins template dev =
        (activation.response_template ≡ some template)
        × (env.store.get before.state activation.app_id activation.dev_id ≡ ok dev)

    on_request_body-Joins :
        (dev : Device) (template : ActivationTemplate) (phy : PhyPayload) (body : Body)
        → Begins template dev
        → dev.app_key ≢ 0
        → env.codec.unmarshal activation.payload ≡ ok phy
        → phy.body ≡ body
        → Gives (on_request_body env aes activation random fuel before dev template phy body) after
        → Joins env aes activation before response after
    unfolding on_request_body activation_failed
    on_request_body-Joins dev template phy (Body.join_request request) (t, k) n u b h =
        let (valid, fresh, a) =
          on_request_mic-Accepted dev template request (env.codec.validate_mic phy dev.app_key) h in
        record {
          dev = dev;
          template = template;
          phy = phy;
          request = request;
          has_template = t;
          is_known = k;
          has_key = n;
          is_read = u;
          is_request = b;
          is_authentic = valid;
          is_new = fresh;
          is_accepted = a;
        }
    on_request_body-Joins dev template phy (Body.mac x) begins n u b h = cc
    on_request_body-Joins dev template phy (Body.join_accept x) begins n u b h = cc
    on_request_body-Joins dev template phy (Body.encrypted x) begins n u b h = cc

    on_request-Joins :
        (dev : Device) (template : ActivationTemplate) (r : Result PhyPayload)
        → Begins template dev
        → dev.app_key ≢ 0
        → env.codec.unmarshal activation.payload ≡ r
        → Gives (on_request env aes activation random fuel before dev template r) after
        → Joins env aes activation before response after
    unfolding on_request activation_failed
    on_request-Joins dev template (err e) begins n u h = cc
    on_request-Joins dev template (ok phy) begins n u h =
        on_request_body-Joins dev template phy phy.body begins n u refl h

    on_checks-Joins :
        (dev : Device) (template : ActivationTemplate) (no_key has_lorawan : Bool)
        → (dev.app_key == 0) ≡ no_key
        → Begins template dev
        → Gives
            (on_checks env aes activation random fuel before dev template no_key has_lorawan)
            after
        → Joins env aes activation before response after
    unfolding on_checks activation_failed
    on_checks-Joins dev template true l e begins h = cc
    on_checks-Joins dev template false false e begins h = cc
    on_checks-Joins dev template false true e begins h =
        on_request-Joins dev template (env.codec.unmarshal activation.payload) begins
          (λ z. absurd (ground arith)) refl h

    on_device-Joins :
        (template : ActivationTemplate) (r : Result Device)
        → activation.response_template ≡ some template
        → env.store.get before.state activation.app_id activation.dev_id ≡ r
        → Gives (on_device env aes activation random fuel before template r) after
        → Joins env aes activation before response after
    unfolding on_device activation_failed
    on_device-Joins template (err e) t k h = cc
    on_device-Joins template (ok dev) t k h =
        on_checks-Joins dev template (dev.app_key == 0) activation.has_lorawan refl (t, k) h

    on_template-Joins :
        (template : Option ActivationTemplate)
        → activation.response_template ≡ template
        → Gives (on_template env aes activation random fuel before template) after
        → Joins env aes activation before response after
    unfolding on_template activation_failed
    on_template-Joins none t h = cc
    on_template-Joins (some template) t h =
        on_device-Joins template (env.store.get before.state activation.app_id activation.dev_id) t
          refl h

pub handle_activation-Joins :
    (env : Env) (aes : Aes) (random : ℕ → ℕ) (fuel : ℕ) (world after : World env)
    (activation : ActivationRequest) (response : ActivationResponse)
    → handle_activation env aes random fuel world activation ≡ (done response, after)
    → Joins env aes activation world response after
unfolding handle_activation
handle_activation-Joins env aes random fuel world after activation response h =
    on_template-Joins env aes activation response random fuel world after
      activation.response_template refl h
