-- ===== src/NetworkServer/Handlers/Laws.antt =====
-- What the handlers do to a device and to a message.
use ttn.Base.{
  ℕ, ◌+◌, ◌%◌, ◌^◌, ◌≡◌, ap, refl, sym, ◌∙◌, inl, inr, Bool, List, Option, some, Result, ok, err,
  Outcome, done, fails, panics, blocks, Bool-cases, str_eq, str_eq_iff, ◌==◌, ==_iff, ok_inj,
  done_inj,
}
use ttn.Base.Options.{some_inj}
use ttn.Messages.{MacMessage, Content, DownlinkMessage}
use ttn.NetworkServer.Device.{Device, Frame}
use ttn.NetworkServer.Mac.{MacCodec}
use ttn.NetworkServer.Adr.{Adapted, handle_downlink_adr}
use ttn.NetworkServer.Adr.Laws.{handle_downlink_adr-Asks, Asks}
use ttn.NetworkServer.Handlers.{
  Env, Handled, signed, finish_downlink, to_device, with_downlink_content, handle_downlink,
  with_adapted, with_found_device, failed,
}

-- What holds of a downlink that is returned.
pub record Sent (env : Env) (message sent : DownlinkMessage) (saved : Option (Device × List Frame))
    : Type 0 where
  pub dev : Device
  pub is_known : env.device message.app_eui message.dev_eui ≡ ok dev
  pub is_for_app : dev.app_id ≡ message.app_id
  pub is_for_dev : dev.dev_id ≡ message.dev_id
  pub mac : MacMessage
  pub confirmed : Bool
  pub is_content : sent.message ≡ Content.mac mac confirmed
  pub is_for_address : mac.dev_addr ≡ dev.dev_addr
  pub is_counted : mac.f_cnt ≡ dev.f_cnt_down
  pub is_signed : env.sign mac confirmed dev.nwk_s_key ≡ ok sent.payload
  pub after : Device
  pub is_saved : saved ≡ some (after, env.history dev.app_eui dev.dev_eui)
  pub is_next : after.f_cnt_down ≡ (dev.f_cnt_down + 1) % 2 ^ 32

Asks-dev_addr :
    (codec : MacCodec) (mac : MacMessage) (adapted : Adapted)
    → Asks codec mac adapted
    → adapted.mac.dev_addr ≡ mac.dev_addr
Asks-dev_addr codec mac adapted (inl e) = ap (λ m. m.dev_addr) e
Asks-dev_addr codec mac adapted (inr (e, _, _)) = ap (λ m. m.dev_addr) e

signed-eq_done :
    (message sent : DownlinkMessage) (mac : MacMessage) (confirmed : Bool) (r : Result (List ℕ))
    → signed message mac confirmed r ≡ done sent
    → (r ≡ ok sent.payload) × (sent.message ≡ Content.mac mac confirmed)
unfolding signed
signed-eq_done message sent mac confirmed (err e) h = cc
signed-eq_done message sent mac confirmed (ok payload) h =
    let same = done_inj h in
    (
      ap (λ (m : DownlinkMessage). ok m.payload) same,
      ap (λ (m : DownlinkMessage). m.message) (sym same),
    )

-- The end and the saved device of a handler, as two results.
abbrev Ends : DownlinkMessage → Handled DownlinkMessage → Type 0
Ends sent handled = handled.end ≡ done sent

module _ (env : Env) (message sent : DownlinkMessage) where
  finish_downlink-Sent :
      (confirmed : Bool) (dev : Device) (adr : _) (mac : MacMessage) (end : Outcome (Unit {0}))
      → env.device message.app_eui message.dev_eui ≡ ok dev
      → dev.app_id ≡ message.app_id
      → dev.dev_id ≡ message.dev_id
      → mac.dev_addr ≡ dev.dev_addr
      → Ends sent (finish_downlink env message confirmed dev adr mac end)
      → Sent env message sent (finish_downlink env message confirmed dev adr mac end).saved
  unfolding finish_downlink
  finish_downlink-Sent confirmed dev adr mac (fails e) k a d l h = cc
  finish_downlink-Sent confirmed dev adr mac panics k a d l h = cc
  finish_downlink-Sent confirmed dev adr mac blocks k a d l h = cc
  finish_downlink-Sent confirmed dev adr mac (done _) k a d l h =
      let (is_signed, is_content) = signed-eq_done message sent _ confirmed _ h in
      record {
        dev = dev;
        is_known = k;
        is_for_app = a;
        is_for_dev = d;
        mac = record mac { f_cnt = dev.f_cnt_down };
        confirmed = confirmed;
        is_content = is_content;
        is_for_address = l;
        is_counted = refl;
        is_signed = is_signed;
        after = record dev { adr = adr; f_cnt_down = (dev.f_cnt_down + 1) % 2 ^ 32 };
        is_saved = refl;
        is_next = refl;
      }

  to_device-Sent :
      (mac : MacMessage) (confirmed : Bool) (dev : Device)
      → env.device message.app_eui message.dev_eui ≡ ok dev
      → Ends sent (to_device env message mac confirmed dev)
      → Sent env message sent (to_device env message mac confirmed dev).saved
  unfolding to_device failed with_adapted
  to_device-Sent mac confirmed dev k h =
      let adapted =
        handle_downlink_adr env.mac_codec env.percent env.get_plan env.faults
          (env.history dev.app_eui dev.dev_eui) dev mac in
      let same_addr = Asks-dev_addr env.mac_codec mac adapted (
        handle_downlink_adr-Asks env.mac_codec env.percent env.get_plan env.faults
          (env.history dev.app_eui dev.dev_eui) dev mac) in
      elim (Bool-cases (str_eq dev.app_id message.app_id)) [
        | inr a ↦ let x : Ends sent (failed _) = rw (to_device, a) at h in cc
        | inl a ↦ elim (Bool-cases (str_eq dev.dev_id message.dev_id)) [
          | inr d ↦ let x : Ends sent (failed _) = rw (to_device, a, d) at h in cc
          | inl d ↦ elim (Bool-cases (mac.dev_addr == dev.dev_addr)) [
            | inr l ↦ let x = rw (to_device, a, d, l) at h in cc
            | inl l ↦
                rw (a, d, l)
                  (finish_downlink-Sent confirmed dev adapted.adr adapted.mac adapted.end k
                    ((str_eq_iff _ _).0 a) ((str_eq_iff _ _).0 d) (same_addr ∙ (==_iff _ _).0 l)
                    (rw (to_device, a, d, l) at h))
          ]
        ]
      ]

  with_found_device-Sent :
      (mac : MacMessage) (confirmed : Bool) (found : Result Device)
      → env.device message.app_eui message.dev_eui ≡ found
      → Ends sent (with_found_device env message mac confirmed found)
      → Sent env message sent (with_found_device env message mac confirmed found).saved
  unfolding with_found_device failed
  with_found_device-Sent mac confirmed (err e) k h = cc
  with_found_device-Sent mac confirmed (ok dev) k h = to_device-Sent mac confirmed dev k h

  with_downlink_content-Sent :
      (content : Result Content)
      → Ends sent (with_downlink_content env message content)
      → Sent env message sent (with_downlink_content env message content).saved
  unfolding with_downlink_content failed
  with_downlink_content-Sent (err e) h = cc
  with_downlink_content-Sent (ok Content.missing) h = cc
  with_downlink_content-Sent (ok Content.other) h = cc
  with_downlink_content-Sent (ok (Content.mac mac confirmed)) h =
      with_found_device-Sent mac confirmed _ refl h

-- A downlink that is returned is for the application, the device and the address that are stored, is
-- signed with the device's key under its downlink counter, and leaves a device whose counter is the next
-- one, modulo 2^32.
pub handle_downlink-Sent :
    (env : Env) (message sent : DownlinkMessage)
    → (handle_downlink env message).end ≡ done sent
    → Sent env message sent (handle_downlink env message).saved
unfolding handle_downlink
handle_downlink-Sent env message sent h = with_downlink_content-Sent env message sent _ h

-- Two downlinks in a row, the second with the device that the first has stored: what is sent is the
-- signature of the two messages, each under the network session key of the device that was read for
-- it, and the counter of the second message follows that of the first, modulo 2^32.
pub handle_downlink_twice :
    (env env' : Env) (message message' sent sent' : DownlinkMessage) (first_dev dev : Device)
    (history : List Frame)
    → env.device message.app_eui message.dev_eui ≡ ok first_dev
    → (handle_downlink env message).end ≡ done sent
    → (handle_downlink env message).saved ≡ some (dev, history)
    → env'.device message'.app_eui message'.dev_eui ≡ ok dev
    → (handle_downlink env' message').end ≡ done sent'
    → (mac mac' : MacMessage) × (confirmed confirmed' : Bool) × (sent.message
        ≡ Content.mac mac confirmed)
      × (sent'.message ≡ Content.mac mac' confirmed')
      × (env.sign mac confirmed first_dev.nwk_s_key ≡ ok sent.payload)
      × (env'.sign mac' confirmed' dev.nwk_s_key ≡ ok sent'.payload)
      × (mac'.f_cnt ≡ (mac.f_cnt + 1) % 2 ^ 32)
handle_downlink_twice env env' message message' sent sent' first_dev dev history k h s d h' =
    let first = handle_downlink-Sent env message sent h in
    let second = handle_downlink-Sent env' message' sent' h' in
    let stored : first.after ≡ dev = ap (λ p. p.0) (some_inj (sym first.is_saved ∙ s)) in
    let found : dev ≡ second.dev = ok_inj (sym d ∙ second.is_known) in
    (
      first.mac,
      second.mac,
      first.confirmed,
      second.confirmed,
      first.is_content,
      second.is_content,
      ap (λ (x : Device). env.sign first.mac first.confirmed x.nwk_s_key)
            (ok_inj (sym k ∙ first.is_known))
          ∙ first.is_signed,
      ap (λ (x : Device). env'.sign second.mac second.confirmed x.nwk_s_key) found
          ∙ second.is_signed,
      second.is_counted
          ∙ ap (λ (x : Device). x.f_cnt_down) (sym (stored ∙ found))
          ∙ first.is_next
          ∙ ap (λ n. (n + 1) % 2 ^ 32) (sym first.is_counted),
    )
