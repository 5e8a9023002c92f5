-- ===== src/NetworkServer/Handlers/Activations.antt =====
-- What an activation leaves of a device.
use ttn.Base.{Bool, ◌≡◌, ap, refl, ◌∙◌, List, [], Option, none, some, Result, ok, err, Error, done}
use ttn.NetworkServer.Device.{Device, Frame, clear, clear-eq_ok}
use ttn.NetworkServer.Handlers.{
  Env, ActivationMetadata, activated, store_activated, store_cleared, handle_activate,
  activate_found, failed,
}

-- What holds after an activation.
pub record Activated (env : Env) (meta : ActivationMetadata) (saved : Option (Device × List Frame))
    : Type 0 where
  pub dev : Device
  pub is_known : env.device meta.app_eui meta.dev_eui ≡ ok dev
  pub after : Device
  pub is_saved : saved ≡ some (after, [])
  pub is_stored : env.set_error after ≡ none
  pub restarts_up : after.f_cnt_up ≡ 0
  pub restarts_down : after.f_cnt_down ≡ 0
  pub has_address : after.dev_addr ≡ meta.dev_addr
  pub has_key : after.nwk_s_key ≡ meta.nwk_s_key
  pub asks_nothing : (after.adr.send_req ≡ Bool.false) × (after.adr.failed ≡ 0)
  pub keeps_margin : after.adr.margin ≡ dev.adr.margin

module _ (env : Env) (meta : ActivationMetadata) (dev : Device) where
  store_cleared-saved :
      (after : Device) (history : List Frame) (r : Result (Unit {0}))
      → (store_cleared after (history, r)).end ≡ done tt
      → (r ≡ ok tt) × ((store_cleared after (history, r)).saved ≡ some (after, history))
  unfolding store_cleared
  store_cleared-saved after history (err e) h = cc
  store_cleared-saved after history (ok _) h = (refl, refl)

  store_activated-Activated :
      (fault : Option Error)
      → env.device meta.app_eui meta.dev_eui ≡ ok dev
      → env.set_error (activated meta dev) ≡ fault
      → (store_activated env (activated meta dev) fault).end ≡ done tt
      → Activated env meta (store_activated env (activated meta dev) fault).saved
  unfolding store_activated activated
  store_activated-Activated (some e) k f h = cc
  store_activated-Activated none k f h =
      let (history, r) = clear env.faults (env.history dev.app_eui dev.dev_eui) in
      let (is_ok, is_saved) = store_cleared-saved (activated meta dev) history r h in
      let empty = clear-eq_ok env.faults (env.history dev.app_eui dev.dev_eui) is_ok in
      record {
        dev = dev;
        is_known = k;
        after = activated meta dev;
        is_saved = is_saved ∙ ap (λ p. some (activated meta dev, p.0)) empty;
        is_stored = f;
        restarts_up = refl;
        restarts_down = refl;
        has_address = refl;
        has_key = refl;
        asks_nothing = (refl, refl);
        keeps_margin = refl;
      }

activate_found-Activated :
    (env : Env) (meta : ActivationMetadata) (found : Result Device)
    → env.device meta.app_eui meta.dev_eui ≡ found
    → (activate_found env meta found).end ≡ done tt
    → Activated env meta (activate_found env meta found).saved
unfolding activate_found failed
activate_found-Activated env meta (err e) k h = cc
activate_found-Activated env meta (ok dev) k h = store_activated-Activated env meta dev _ k refl h

-- An activation that succeeds has stored the device with the new address and key, with both counters and
-- the history of its frames back at the start, and keeps the margin of ADR.
pub handle_activate-Activated :
    (env : Env) (meta : ActivationMetadata)
    → (handle_activate env (some (some meta))).end ≡ done tt
    → Activated env meta (handle_activate env (some (some meta))).saved
unfolding handle_activate
handle_activate-Activated env meta h = activate_found-Activated env meta _ refl h
