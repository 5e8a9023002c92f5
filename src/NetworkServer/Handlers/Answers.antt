-- ===== src/NetworkServer/Handlers/Answers.antt =====
-- What an uplink leaves: the answer that is prepared, and the device.
use ttn.Base.{
  ℕ, ◌≡◌, ◌≢◌, ap, refl, sym, ◌∙◌, ◌⊎◌, Bool, true, false, List, [], Option, none, some, Result, ok,
  err, done, done_inj,
}
use ttn.Base.Options.{some_inj}
use ttn.Messages.{MacMessage, Content, DownlinkOption, DownlinkMessage, DeduplicatedUplinkMessage}
use ttn.NetworkServer.Device.{Device, Frame}
use ttn.NetworkServer.Mac.{Session}
use ttn.NetworkServer.Mac.Laws.{Answers, handle_uplink_mac-Answers}
use ttn.NetworkServer.Handlers.{
  Env, start_session, uplink_of, template_of, template_with, prepared_answer, marshaled,
  finish_uplink, with_device, to_session, with_uplink_content, handle_uplink, failed,
}

-- What holds of an uplink that is returned with an answer.
pub record Answered (env : Env) (message handled : DeduplicatedUplinkMessage)
    (template : DownlinkMessage) (saved : Option (Device × List Frame)) : Type 0 where
  pub dev : Device
  pub is_known : env.device message.app_eui message.dev_eui ≡ ok dev
  pub mac : MacMessage
  pub confirmed : Bool
  pub is_content : handled.message ≡ Content.mac mac confirmed
  pub answer : MacMessage
  pub is_answer : template.message ≡ Content.mac answer false
  pub is_written : env.write_down answer ≡ ok template.payload
  pub is_counted : answer.f_cnt ≡ dev.f_cnt_down
  pub is_for_address : answer.dev_addr ≡ mac.dev_addr
  pub is_acked : confirmed ≡ true → answer.ack ≡ true
  pub is_on_port : (answer.f_opts ≡ []) ⊎ (answer.f_port ≢ 0)
  pub after : Device
  pub history : List Frame
  pub is_saved : saved ≡ some (after, history)
  pub takes_counter : after.f_cnt_up ≡ mac.f_cnt
  pub keeps_counter : after.f_cnt_down ≡ dev.f_cnt_down

template_with_lem :
    (message : DeduplicatedUplinkMessage) (answer : MacMessage) (payload : List ℕ)
    (option : Option DownlinkOption) (template : DownlinkMessage)
    → template_with message answer payload option ≡ some template
    → (template.message ≡ Content.mac answer false) × (payload ≡ template.payload)
unfolding template_with
template_with_lem message answer payload none template h = cc
template_with_lem message answer payload (some option) template h =
    let same = some_inj h in
    (
      ap (λ (t : DownlinkMessage). t.message) (sym same),
      ap (λ (t : DownlinkMessage). t.payload) same,
    )

module _ (env : Env) (message handled : DeduplicatedUplinkMessage)
    (template : DownlinkMessage) where
  marshaled-eq_done :
      (mac : MacMessage) (confirmed : Bool) (dev : Device) (s : Session) (r : Result (List ℕ))
      → marshaled message mac confirmed dev s r ≡ done handled
      → handled.response_template ≡ some template
      → (handled.message ≡ Content.mac mac confirmed)
        × (template.message ≡ Content.mac s.answer false)
        × (r ≡ ok template.payload)
  unfolding marshaled template_of
  marshaled-eq_done mac confirmed dev s (err e) h t = cc
  marshaled-eq_done mac confirmed dev s (ok payload) h t =
      let same = done_inj h in
      let (content, bytes) =
        template_with_lem message s.answer payload _ template
          (ap (λ (m : DeduplicatedUplinkMessage). m.response_template) same ∙ t) in
      (ap (λ (m : DeduplicatedUplinkMessage). m.message) (sym same), content, ap ok bytes)

  finish_uplink-Answered :
      (mac : MacMessage) (confirmed : Bool) (dev : Device) (t : Session) (r : Result (Unit {0}))
      → env.device message.app_eui message.dev_eui ≡ ok dev
      → (r ≡ ok tt
          → Answers (uplink_of message mac confirmed) (start_session env message mac dev) t)
      → finish_uplink env message mac confirmed dev t r ≡ done handled
      → handled.response_template ≡ some template
      → Answered env message handled template (some (t.device, t.history))
  unfolding finish_uplink start_session prepared_answer uplink_of
  finish_uplink-Answered mac confirmed dev t (err e) k a h l = cc
  finish_uplink-Answered mac confirmed dev t (ok _) k a h l =
      let (content, answer, bytes) = marshaled-eq_done mac confirmed dev t _ h l in
      let holds = a refl in
      record {
        dev = dev;
        is_known = k;
        mac = mac;
        confirmed = confirmed;
        is_content = content;
        answer = t.answer;
        is_answer = answer;
        is_written = bytes;
        is_counted = holds.keeps.f_cnt;
        is_for_address = holds.keeps.dev_addr;
        is_acked = holds.acks;
        is_on_port = holds.port;
        after = t.device;
        history = t.history;
        is_saved = refl;
        takes_counter = holds.keeps.f_cnt_up;
        keeps_counter = holds.keeps.f_cnt_down;
      }

  to_session-Answered :
      (mac : MacMessage) (confirmed : Bool) (found : Result Device)
      → env.device message.app_eui message.dev_eui ≡ found
      → (to_session env message mac confirmed found).end ≡ done handled
      → handled.response_template ≡ some template
      → Answered env message handled template (to_session env message mac confirmed found).saved
  unfolding to_session with_device failed
  to_session-Answered mac confirmed (err e) k h l = cc
  to_session-Answered mac confirmed (ok dev) k h l =
      finish_uplink-Answered mac confirmed dev _ _ k
        (handle_uplink_mac-Answers env.mac_codec env.faults (uplink_of message mac confirmed)
          (start_session env message mac dev))
        h l

  with_uplink_content-Answered :
      (content : Result Content)
      → (with_uplink_content env message content).end ≡ done handled
      → handled.response_template ≡ some template
      → Answered env message handled template (with_uplink_content env message content).saved
  unfolding with_uplink_content failed
  with_uplink_content-Answered (err e) h l = cc
  with_uplink_content-Answered (ok Content.missing) h l = cc
  with_uplink_content-Answered (ok Content.other) h l = cc
  with_uplink_content-Answered (ok (Content.mac mac confirmed)) h l =
      to_session-Answered mac confirmed _ refl h l

-- An uplink that is returned with an answer leaves the device with the uplink's counter and with its own
-- downlink counter as it was; the answer is for the same address and carries that downlink counter,
-- acknowledges a confirmed uplink, has no MAC commands on port 0, and is the payload that was marshaled.
pub handle_uplink-Answered :
    (env : Env) (message handled : DeduplicatedUplinkMessage) (template : DownlinkMessage)
    → (handle_uplink env message).end ≡ done handled
    → handled.response_template ≡ some template
    → Answered env message handled template (handle_uplink env message).saved
unfolding handle_uplink
handle_uplink-Answered env message handled template h l =
    with_uplink_content-Answered env message handled template _ h l
