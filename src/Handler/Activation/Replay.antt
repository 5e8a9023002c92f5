-- ===== src/Handler/Activation/Replay.antt =====
-- A join that is sent a second time.
use ttn.Base.{
  ℕ, ◌≡◌, ◌≢◌, refl, sym, ap, ap₂, ◌∙◌, true, false, List, [], ◌∷◌, ◌++◌, String, Result, ok, done,
  ok_inj, same_codes, arith,
}
use ttn.Lorawan.{JoinRequest, Body, PhyPayload}
use ttn.Otaa.{Aes}
use ttn.Storage.Redis.{Text, Client, has_prefix}
use ttn.Storage.Redis.Laws.{IsRedis}
use ttn.Storage.Map.{Hashes, Coder}
use ttn.Storage.Map.Laws.{IsHashes}
use ttn.Handler.Types.{Device}
use ttn.Handler.World.{Env, World}
use ttn.Handler.Queue.{Json, queue_key}
use ttn.Handler.RedisStore.{device_prefix, redis_env}
use ttn.Handler.RedisStore.Laws.{IsCoder, get_device-set_device}
use ttn.Handler.Activation.{ActivationRequest, ActivationResponse, is_used, handle_activation}
use ttn.Handler.Activation.Nonces.{is_used_last}
use ttn.Handler.Activation.Laws.{handle_activation-Joins}

join_request_inj : {a b : JoinRequest} → Body.join_request a ≡ Body.join_request b → a ≡ b
join_request_inj e = cc

false≢true : false ≢ true
false≢true e = cc

append_nonempty : (ns : List ℕ) (n : ℕ) → ns ++ (n ∷ []) ≢ []
append_nonempty [] n e = cc
append_nonempty (x ∷ ns) n e = cc

append_differs : (ns : List ℕ) (n : ℕ) → same_codes (ns ++ (n ∷ [])) ns ≡ false
unfolding same_codes
append_differs [] n = refl
append_differs (x ∷ ns) n = ground (arith, append_differs ns n)

module _ (base : Env) (client : Client) (redis : IsRedis client) (hashes : Hashes client)
    (laws : IsHashes client redis hashes) (json : Json) (coder : Coder Device)
    (is_coder : IsCoder coder) (prefix : Text) where
  abbrev env : Env
  env = redis_env client hashes json coder prefix base

  -- Set of a device with one more used nonce leaves a device with this nonce.
  keeps_nonce :
      (s t : client.Server) (old new : Device) (app_id dev_id : String) (n : ℕ)
      → has_prefix (device_prefix prefix) (queue_key app_id dev_id) ≡ false
      → new.app_id ≡ app_id
      → new.dev_id ≡ dev_id
      → new.used_dev_nonces ≡ old.used_dev_nonces ++ (n ∷ [])
      → env.store.get s app_id dev_id ≡ ok old
      → env.store.set s old new ≡ (ok tt, t)
      → (dev : Device) × (env.store.get t app_id dev_id ≡ ok dev)
        × (is_used dev.used_dev_nonces n ≡ true)
  keeps_nonce s t old new app_id dev_id n p a d u g w =
      let key = ap₂ queue_key a d in
      let (dev, found, same) =
        get_device-set_device client redis hashes laws json coder is_coder prefix s old new
          (ap (has_prefix (device_prefix prefix)) key ∙ p) (ap₂ (env.store.get s) a d ∙ g)
          (λ e. append_nonempty old.used_dev_nonces n (sym u ∙ e))
          (ap (λ x. same_codes x old.used_dev_nonces) u ∙ append_differs old.used_dev_nonces n) in
      (
        dev,
        ap₂ (env.store.get t) (sym a) (sym d)
            ∙ ap
                (λ (r : Result (Unit {0}) × client.Server). env.store.get r.1 new.app_id new.dev_id)
                (sym w)
            ∙ found,
        ap (λ x. is_used x n) (same ∙ u) ∙ is_used_last old.used_dev_nonces n,
      )

-- On the store of devices in Redis, where the identifiers of the activation do not begin with the
-- prefix of the keys and the device that is read under them has these identifiers: a join that was
-- answered is not answered again right after it, whatever nonces are drawn.
pub handle_activation-replay :
    (base : Env) (client : Client) (redis : IsRedis client) (hashes : Hashes client)
    (laws : IsHashes client redis hashes) (json : Json) (coder : Coder Device)
    (is_coder : IsCoder coder) (prefix : Text) (aes : Aes) (random next : ℕ → ℕ) (fuel more : ℕ)
    (world after last : World (redis_env client hashes json coder prefix base))
    (activation : ActivationRequest) (response again : ActivationResponse) (dev : Device)
    → has_prefix (device_prefix prefix) (queue_key activation.app_id activation.dev_id) ≡ false
    → (redis_env client hashes json coder prefix base).store.get world.state activation.app_id
        activation.dev_id
      ≡ ok dev
    → dev.app_id ≡ activation.app_id
    → dev.dev_id ≡ activation.dev_id
    → handle_activation
        (redis_env client hashes json coder prefix base)
        aes
        random
        fuel
        world
        activation
      ≡ (done response, after)
    → handle_activation
        (redis_env client hashes json coder prefix base)
        aes
        next
        more
        after
        activation
      ≢ (done again, last)
handle_activation-replay base client redis hashes laws json coder is_coder prefix aes random next
      fuel more world after last activation response again dev p k i j h g =
    let env = redis_env client hashes json coder prefix base in
    let one = handle_activation-Joins env aes random fuel world after activation response h in
    let two = handle_activation-Joins env aes next more after last activation again g in
    let a = one.is_accepted in
    let same : one.dev ≡ dev = ok_inj (sym one.is_known ∙ k) in
    let (kept, found, used) =
      keeps_nonce base client redis hashes laws json coder is_coder prefix world.state after.state
        one.dev a.saved activation.app_id activation.dev_id one.request.dev_nonce p
        (a.is_joined.keeps_app_id ∙ ap (λ (x : Device). x.app_id) same ∙ i)
        (a.is_joined.keeps_dev_id ∙ ap (λ (x : Device). x.dev_id) same ∙ j)
        a.is_joined.uses_dev_nonce one.is_known a.is_saved in
    let second : two.dev ≡ kept = ok_inj (sym two.is_known ∙ found) in
    let phy = ok_inj (sym two.is_read ∙ one.is_read) in
    let request =
      join_request_inj
        (sym two.is_request ∙ ap (λ (x : PhyPayload). x.body) phy ∙ one.is_request) in
    false≢true (
      sym two.is_new
      ∙ ap₂ (λ (d : Device) (r : JoinRequest). is_used d.used_dev_nonces r.dev_nonce) second request
      ∙ used)
