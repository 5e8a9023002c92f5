-- ===== src/Handler/Uplink/Laws.antt =====
-- What HandleUplink publishes and sends.
use ttn.Base.{
  ◌≡◌, refl, ◌∙◌, ◌⊎◌, inl, inr, List, [], ◌∷◌, ◌++◌, Option, none, some, String, Result, ok, err,
  Outcome, done, fails, panics, blocks, if◌then◌else◌, if_case,
}
use ttn.Messages.{DownlinkMessage, DeduplicatedUplinkMessage}
use ttn.Handler.Types.{AppDownlink, AppUplink, Device, DeviceEvent, Verdict}
use ttn.Handler.ConvertFields.{convert_fields_up}
use ttn.Handler.ConvertLorawan.{FromLorawan, convert_from_lorawan}
use ttn.Handler.ConvertLorawan.Uplinks.{Converted, convert_from_lorawan-Converted}
use ttn.Handler.World.{Env, World, emit_all, with_state, publish, waiting, with_content}
use ttn.Handler.Downlink.{handle_downlink}
use ttn.Handler.Downlink.Laws.{Keeps, SendsOne, handle_downlink-Ends}
use ttn.Handler.Uplink.{
  new_uplink, prepared, uplink_failed, answered, respond, without_template, prepare_downlink,
  with_next, from_queue, look_in_queue, after_publish, after_set, on_fields, on_lorawan, on_device,
  handle_uplink,
}

-- At most one message to the broker, which answers the uplink with its template.
pub record Answers {env : Env} (uplink : DeduplicatedUplinkMessage) (before after : World env)
    : Type 0 where
  pub up : after.up ≡ before.up
  pub amqp_up : after.amqp_up ≡ before.amqp_up
  pub sent :
      (after.sent ≡ before.sent)
      ⊎ ((template out : DownlinkMessage) × (uplink.response_template ≡ some template)
          × (after.sent ≡ before.sent ++ (out ∷ [])))

-- One message to the application: of an uplink that is authentic for the device that the store has,
-- with the fields of the application, after the device has been saved.
pub record Publishes (env : Env) (uplink : DeduplicatedUplinkMessage) (before after : World env)
    : Type 0 where
  pub dev : Device
  pub up : AppUplink
  pub events : List DeviceEvent
  pub state : env.store.State
  pub is_known : env.store.get before.state uplink.app_id uplink.dev_id ≡ ok dev
  pub is_converted :
      Converted env.codec uplink
        (new_uplink uplink.app_id uplink.dev_id)
        dev
        (convert_from_lorawan env.codec uplink (new_uplink uplink.app_id uplink.dev_id) dev)
  pub is_filled :
      let from =
        convert_from_lorawan env.codec uplink (new_uplink uplink.app_id uplink.dev_id) dev in
      convert_fields_up env.vm (env.applications from.up.app_id) from.up
      ≡ (Verdict.goes_on, up, events)
  pub is_saved :
      env.store.set before.state dev
        (convert_from_lorawan env.codec uplink (new_uplink uplink.app_id uplink.dev_id) dev).dev
      ≡ (ok tt, state)
  pub is_published : after.up ≡ before.up ++ (up ∷ [])
  pub is_published_amqp :
      after.amqp_up ≡ (if env.amqp_enabled then before.amqp_up ++ (up ∷ []) else before.amqp_up)
  pub is_answered :
      (after.sent ≡ before.sent)
      ⊎ ((template out : DownlinkMessage) × (uplink.response_template ≡ some template)
          × (after.sent ≡ before.sent ++ (out ∷ [])))

module _ (env : Env) (uplink : DeduplicatedUplinkMessage) where
  quiet : {before after : World env} → Keeps before after → Answers uplink before after
  quiet k = record { up = k.up; amqp_up = k.amqp_up; sent = inl k.sent }

  nothing_more : (world : World env) → Answers uplink world world
  nothing_more world = record { up = refl; amqp_up = refl; sent = inl refl }

  answered-Keeps : (r : Outcome (Unit {0}) × World env) → Keeps r.1 (answered env uplink r).1
  unfolding answered uplink_failed
  answered-Keeps (done _, world) = record { up = refl; amqp_up = refl; sent = refl }
  answered-Keeps (fails e, world) = record { up = refl; amqp_up = refl; sent = refl }
  answered-Keeps (panics, world) = record { up = refl; amqp_up = refl; sent = refl }
  answered-Keeps (blocks, world) = record { up = refl; amqp_up = refl; sent = refl }

  sends :
      {app_id dev_id : String} {given : AppDownlink} {template : DownlinkMessage}
      {before middle after : World env}
      → uplink.response_template ≡ some template
      → (Keeps before middle) ⊎ (SendsOne env app_id dev_id given template before middle)
      → Keeps middle after
      → Answers uplink before after
  sends t (inl k) l = record {
    up = l.up ∙ k.up;
    amqp_up = l.amqp_up ∙ k.amqp_up;
    sent = inl (l.sent ∙ k.sent);
  }
  sends {template = template} t (inr s) l = record {
    up = l.up ∙ s.up;
    amqp_up = l.amqp_up ∙ s.amqp_up;
    sent = inr (template, with_content env s.out, t, l.sent ∙ s.sent);
  }

  respond-Answers :
      (world : World env) (dev : Device) (template : DownlinkMessage)
      (saved : Result (Unit {0}) × env.store.State)
      → uplink.response_template ≡ some template
      → Answers uplink world (respond env uplink world dev template saved).1
  unfolding respond uplink_failed
  respond-Answers world dev template (err e, state) t = record {
    up = refl;
    amqp_up = refl;
    sent = inl refl;
  }
  respond-Answers world dev template (ok _, state) t =
      let saved = with_state env world state in
      let down = prepared uplink.app_id uplink.dev_id dev.current_downlink in
      let a =
        sends t (handle_downlink-Ends env saved down template)
          (answered-Keeps (handle_downlink env saved down template)) in
      record { up = a.up; amqp_up = a.amqp_up; sent = a.sent }

  without_template-Answers :
      (world : World env) (current : Option AppDownlink)
      → Answers uplink world (without_template env uplink world current).1
  unfolding without_template
  without_template-Answers world none = nothing_more world
  without_template-Answers world (some down) = record { up = refl; amqp_up = refl; sent = inl refl }

  prepare_downlink-Answers :
      (world : World env) (old dev : Device) (template : Option DownlinkMessage)
      → uplink.response_template ≡ template
      → Answers uplink world (prepare_downlink env uplink world old dev template).1
  unfolding prepare_downlink
  prepare_downlink-Answers world old dev none t =
      without_template-Answers world dev.current_downlink
  prepare_downlink-Answers world old dev (some template) t =
      respond-Answers world dev template (env.store.set world.state old dev) t

  with_next-Answers :
      (world : World env) (dev : Device) (template : DownlinkMessage)
      (next : Result (Option AppDownlink) × env.store.State)
      → uplink.response_template ≡ some template
      → Answers uplink world (with_next env uplink world dev template next).1
  unfolding with_next uplink_failed
  with_next-Answers world dev template (err e, state) t = record {
    up = refl;
    amqp_up = refl;
    sent = inl refl;
  }
  with_next-Answers world dev template (ok next, state) t =
      let a =
        prepare_downlink-Answers (with_state env world state) dev
          (record dev { current_downlink = next }) (some template) t in
      record { up = a.up; amqp_up = a.amqp_up; sent = a.sent }

  from_queue-Answers :
      (world : World env) (dev : Device) (template : Option DownlinkMessage)
      → uplink.response_template ≡ template
      → Answers uplink world (from_queue env uplink world dev template).1
  unfolding from_queue
  from_queue-Answers world dev none t = record { up = refl; amqp_up = refl; sent = inl refl }
  from_queue-Answers world dev (some template) t =
      with_next-Answers world dev template
        (env.store.queue_next world.state uplink.app_id uplink.dev_id) t

  look_in_queue-Answers :
      (world : World env) (dev : Device) (queue : Result (Unit {0}))
      → Answers uplink world (look_in_queue env uplink world dev queue).1
  unfolding look_in_queue uplink_failed
  look_in_queue-Answers world dev (err e) = record { up = refl; amqp_up = refl; sent = inl refl }
  look_in_queue-Answers world dev (ok _) =
      if_case (λ (r : Outcome (Unit {0}) × World env). Answers uplink world r.1)
        (waiting env world uplink.app_id uplink.dev_id)
        (from_queue-Answers world dev uplink.response_template refl)
        (prepare_downlink-Answers world dev dev uplink.response_template refl)

  after_publish-Answers :
      (world : World env) (dev : Device) (current : Option AppDownlink)
      → Answers uplink world (after_publish env uplink world dev current).1
  unfolding after_publish
  after_publish-Answers world dev none = look_in_queue-Answers world dev _
  after_publish-Answers world dev (some down) =
      prepare_downlink-Answers world dev dev uplink.response_template refl

  -- What ConvertFromLoRaWAN gives for a device.
  abbrev from_of : Device → FromLorawan
  from_of dev = convert_from_lorawan env.codec uplink (new_uplink uplink.app_id uplink.dev_id) dev

  -- The world keeps its messages, or one is published.
  abbrev Ends : World env → World env → Type 0
  Ends before after = Keeps before after ⊎ Publishes env uplink before after

  after_set-Ends :
      (before : World env) (dev : Device) (up : AppUplink) (events : List DeviceEvent)
      (saved : Result (Unit {0}) × env.store.State)
      → env.store.get before.state uplink.app_id uplink.dev_id ≡ ok dev
      → (from_of dev).verdict ≡ Verdict.goes_on
      → convert_fields_up env.vm (env.applications (from_of dev).up.app_id) (from_of dev).up
        ≡ (Verdict.goes_on, up, events)
      → env.store.set before.state dev (from_of dev).dev ≡ saved
      → Ends before
          (after_set env uplink
            (emit_all env (emit_all env before (from_of dev).events) events)
            up
            (from_of dev).dev
            saved).1
  unfolding after_set uplink_failed
  after_set-Ends before dev up events (err e, state) k v f s =
      inl (record { up = refl; amqp_up = refl; sent = refl })
  after_set-Ends before dev up events (ok _, state) k v f s =
      let emitted = emit_all env (emit_all env before (from_of dev).events) events in
      let published = publish env (with_state env emitted state) up in
      let a =
        after_publish-Answers published (from_of dev).dev (from_of dev).dev.current_downlink in
      inr (record {
        dev = dev;
        up = up;
        events = events;
        state = state;
        is_known = k;
        is_converted =
            convert_from_lorawan-Converted env.codec uplink (new_uplink uplink.app_id uplink.dev_id)
              dev v;
        is_filled = f;
        is_saved = s;
        is_published = a.up;
        is_published_amqp = a.amqp_up;
        is_answered = a.sent;
      })

  on_fields-Ends :
      (before : World env) (dev : Device) (r : Verdict × AppUplink × List DeviceEvent)
      → env.store.get before.state uplink.app_id uplink.dev_id ≡ ok dev
      → (from_of dev).verdict ≡ Verdict.goes_on
      → convert_fields_up env.vm (env.applications (from_of dev).up.app_id) (from_of dev).up ≡ r
      → Ends before
          (on_fields env uplink
            (emit_all env before (from_of dev).events)
            dev
            (from_of dev).dev
            r).1
  unfolding on_fields uplink_failed
  on_fields-Ends before dev (Verdict.goes_on, up, events) k v f =
      after_set-Ends before dev up events _ k v f refl
  on_fields-Ends before dev (Verdict.not_needed, up, events) k v f =
      inl (record { up = refl; amqp_up = refl; sent = refl })
  on_fields-Ends before dev (Verdict.fails e, up, events) k v f =
      inl (record { up = refl; amqp_up = refl; sent = refl })
  on_fields-Ends before dev (Verdict.panics, up, events) k v f =
      inl (record { up = refl; amqp_up = refl; sent = refl })

  on_lorawan-Ends :
      (before : World env) (dev : Device) (verdict : Verdict)
      → env.store.get before.state uplink.app_id uplink.dev_id ≡ ok dev
      → (from_of dev).verdict ≡ verdict
      → Ends before (on_lorawan env uplink before dev (from_of dev) verdict).1
  unfolding on_lorawan uplink_failed
  on_lorawan-Ends before dev Verdict.goes_on k v = on_fields-Ends before dev _ k v refl
  on_lorawan-Ends before dev Verdict.not_needed k v =
      inl (record { up = refl; amqp_up = refl; sent = refl })
  on_lorawan-Ends before dev (Verdict.fails e) k v =
      inl (record { up = refl; amqp_up = refl; sent = refl })
  on_lorawan-Ends before dev Verdict.panics k v =
      inl (record { up = refl; amqp_up = refl; sent = refl })

  on_device-Ends :
      (before : World env) (r : Result Device)
      → env.store.get before.state uplink.app_id uplink.dev_id ≡ r
      → Ends before (on_device env uplink before r).1
  unfolding on_device uplink_failed
  on_device-Ends before (err e) k = inl (record { up = refl; amqp_up = refl; sent = refl })
  on_device-Ends before (ok dev) k = on_lorawan-Ends before dev (from_of dev).verdict k refl

-- HandleUplink publishes nothing and sends nothing, or publishes one message: of an uplink that is
-- authentic for the device that the store has under its identifiers, with the fields that the
-- application's functions give and that its validator did not refuse, after the device has been
-- saved. It goes to AMQP too if that is enabled, and at most one message is then sent to the broker,
-- only if the uplink has a response template.
pub handle_uplink-Ends :
    (env : Env) (uplink : DeduplicatedUplinkMessage) (world : World env)
    → Keeps world (handle_uplink env world uplink).1
      ⊎ Publishes env uplink world (handle_uplink env world uplink).1
unfolding handle_uplink
handle_uplink-Ends env uplink world = on_device-Ends env uplink world _ refl
