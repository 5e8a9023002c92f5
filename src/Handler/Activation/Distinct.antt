-- ===== src/Handler/Activation/Distinct.antt =====
-- The nonces that a device has used, over its joins.
use ttn.Base.{ℕ, ◌≡◌, sym, ap, subst, ◌∙◌, [], ◌∷◌, ◌++◌, ok, done, ok_inj}
use ttn.Otaa.{Aes}
use ttn.Handler.Types.{Device}
use ttn.Handler.World.{Env, World}
use ttn.Handler.Activation.{ActivationRequest, ActivationResponse, is_used, handle_activation}
use ttn.Handler.Activation.Nonces.{IsDistinct, append-IsDistinct}
use ttn.Handler.Activation.Laws.{handle_activation-Joins}

-- A device is saved with one more nonce in each list, in which none stands twice.
pub record SavesDistinct (env : Env) (dev : Device) (before after : World env) : Type 0 where
  pub saved : Device
  pub is_saved : env.store.set before.state dev saved ≡ (ok tt, after.state)
  pub dev_nonce : ℕ
  pub app_nonce : ℕ
  pub adds_dev_nonce : saved.used_dev_nonces ≡ dev.used_dev_nonces ++ (dev_nonce ∷ [])
  pub adds_app_nonce : saved.used_app_nonces ≡ dev.used_app_nonces ++ (app_nonce ∷ [])
  pub dev_nonces : IsDistinct saved.used_dev_nonces
  pub app_nonces : IsDistinct saved.used_app_nonces

-- Where no nonce stands twice in the two lists of the device that is read, an activation that is
-- answered saves the device with one more nonce in each list, and again none stands twice.
pub handle_activation-SavesDistinct :
    (env : Env) (aes : Aes) (random : ℕ → ℕ) (fuel : ℕ) (world after : World env)
    (activation : ActivationRequest) (response : ActivationResponse) (dev : Device)
    → handle_activation env aes random fuel world activation ≡ (done response, after)
    → env.store.get world.state activation.app_id activation.dev_id ≡ ok dev
    → IsDistinct dev.used_dev_nonces
    → IsDistinct dev.used_app_nonces
    → SavesDistinct env dev world after
handle_activation-SavesDistinct env aes random fuel world after activation response dev h g d a =
    let one = handle_activation-Joins env aes random fuel world after activation response h in
    let two = one.is_accepted in
    let same = ok_inj (sym one.is_known ∙ g) in
    let dev_list =
      two.is_joined.uses_dev_nonce
      ∙ ap (λ (x : Device). x.used_dev_nonces ++ (one.request.dev_nonce ∷ [])) same in
    let app_list =
      two.is_joined.uses_app_nonce
      ∙ ap (λ (x : Device). x.used_app_nonces ++ (two.app_nonce ∷ [])) same in
    let new_dev =
      ap (λ (x : Device). is_used x.used_dev_nonces one.request.dev_nonce) (sym same)
      ∙ one.is_new in
    let new_app =
      ap (λ (x : Device). is_used x.used_app_nonces two.app_nonce) (sym same) ∙ two.is_fresh in
    record {
      saved = two.saved;
      is_saved =
          subst (λ x. env.store.set world.state x two.saved ≡ (ok tt, after.state)) same
            two.is_saved;
      dev_nonce = one.request.dev_nonce;
      app_nonce = two.app_nonce;
      adds_dev_nonce = dev_list;
      adds_app_nonce = app_list;
      dev_nonces =
          subst IsDistinct (sym dev_list)
            (append-IsDistinct dev.used_dev_nonces one.request.dev_nonce d new_dev);
      app_nonces =
          subst IsDistinct (sym app_list)
            (append-IsDistinct dev.used_app_nonces two.app_nonce a new_app);
    }
