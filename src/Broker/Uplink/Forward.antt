-- ===== src/Broker/Uplink/Forward.antt =====
-- What the broker forwards: the whole of HandleUplink.
use ttn.Base.{
  ℕ, ◌≡◌, sym, ap, ◌∙◌, true, List, [], ◌∷◌, some, String, Result, ok, err, arith, IsIn, ok_inj,
  from_bind, or_fail-eq_ok, or_fail,
}
use ttn.Base.Options.{some_inj}
use ttn.Errors.{Grpc}
use ttn.Lorawan.{MacPayload, Body, PhyPayload, Codec}
use ttn.Messages.{Metadata, UplinkMessage, Device, DeduplicatedUplinkMessage}
use ttn.Broker.Uplink.{
  Found, check_f_cnt, Services, remote, first_device, mac_payload, only_handler, one_handler,
  some_devices, deduplicated, handle_uplink,
}
use ttn.Broker.Uplink.Mic.{IsAuthentic, find_device_sound}

module _ (grpc : Grpc) (text : String) where
  remote-eq_ok : {A : Type 0} (r : Result A) {a : A} → remote grpc text r ≡ ok a → r ≡ ok a
  unfolding remote
  remote-eq_ok (ok b) e = e
  remote-eq_ok (err x) e = cc

mac_payload-eq_ok :
    (what : String) (phy : PhyPayload) (m : MacPayload)
    → mac_payload what phy ≡ ok m
    → phy.body ≡ Body.mac m
unfolding mac_payload
mac_payload-eq_ok what phy m e = ground arith

some_devices-eq_ok : (ds : List Device) {r : List Device} → some_devices ds ≡ ok r → ds ≡ r
unfolding some_devices
some_devices-eq_ok [] e = cc
some_devices-eq_ok (d ∷ ds) e = cc

first_device-eq_ok :
    (r : Result Found) (device : Device) (f_cnt : ℕ)
    → first_device r ≡ ok (device, f_cnt)
    → r ≡ ok (record { device = some device; f_cnt = f_cnt })
unfolding first_device
first_device-eq_ok (err x) device f_cnt e = cc
first_device-eq_ok (ok found) device f_cnt e = ground arith

one_handler-eq_ok :
    (services : Services) (app_id id : String)
    → one_handler services app_id ≡ ok id
    → (services.handlers_for_app_id app_id ≡ ok (id ∷ [])) × (services.handler_is_active id ≡ true)
unfolding one_handler only_handler
one_handler-eq_ok services app_id id e = ground arith

-- What holds of a message that is forwarded to a handler.
pub record Forwarded (codec : Codec) (services : Services) (first : UplinkMessage)
    (others : List UplinkMessage) (handler : String) (message : DeduplicatedUplinkMessage)
    : Type 0 where
  pub metadata : Metadata
  pub phy : PhyPayload
  pub payload : MacPayload
  pub candidates : List Device
  pub device : Device
  pub f_cnt : ℕ
  pub has_metadata : first.lorawan ≡ some metadata
  pub is_read : codec.unmarshal first.payload ≡ ok phy
  pub is_mac : phy.body ≡ Body.mac payload
  pub is_known : services.ns_get_devices payload.dev_addr payload.f_cnt ≡ ok candidates
  pub is_candidate : IsIn device (services.sort_devices candidates)
  pub is_authentic : IsAuthentic codec phy payload device f_cnt
  pub is_accepted : check_f_cnt device phy.m_type f_cnt ≡ ok tt
  pub is_handled :
      services.ns_uplink (deduplicated services first (first ∷ others) metadata device f_cnt)
      ≡ ok message
  pub is_sole : services.handlers_for_app_id device.app_id ≡ ok (handler ∷ [])
  pub is_active : services.handler_is_active handler ≡ true

-- A message goes to a handler only if one of the candidates validates it under a counter that is
-- accepted; it is then what the network server made of it, and goes to the only handler of the
-- device's application.
pub handle_uplink-Forwarded :
    (codec : Codec) (grpc : Grpc) (services : Services) (first : UplinkMessage)
    (others : List UplinkMessage) (handler : String) (message : DeduplicatedUplinkMessage)
    → handle_uplink codec grpc services (first ∷ others) ≡ ok (some (handler, message))
    → Forwarded codec services first others handler message
unfolding handle_uplink
handle_uplink-Forwarded codec grpc services first others handler message e =
    from_bind (or_fail first.lorawan _) _ e λ metadata e1 r1.
      from_bind (codec.unmarshal first.payload) _ r1 λ phy e2 r2.
        from_bind (mac_payload "Uplink" phy) _ r2 λ payload e3 r3.
          from_bind (remote grpc _ _) _ r3 λ devices e4 r4.
            from_bind (some_devices devices) _ r4 λ candidates e5 r5.
              from_bind (first_device _) _ r5 λ (device, f_cnt) e6 r6.
                from_bind (check_f_cnt device phy.m_type f_cnt) _ r6 λ unit e7 r7.
                  from_bind (remote grpc _ _) _ r7 λ handled e8 r8.
                    from_bind (one_handler services device.app_id) _ r8 λ id e9 r9.
                      let found =
                        find_device_sound codec phy payload payload.f_cnt payload.f_cnt _ device
                          f_cnt (first_device-eq_ok _ device f_cnt e6) in
                      let same = some_inj (ok_inj r9) in
                      let (sole, active) = one_handler-eq_ok services device.app_id id e9 in
                      record {
                        metadata = metadata;
                        phy = phy;
                        payload = payload;
                        candidates = candidates;
                        device = device;
                        f_cnt = f_cnt;
                        has_metadata = or_fail-eq_ok first.lorawan _ e1;
                        is_read = e2;
                        is_mac = mac_payload-eq_ok "Uplink" phy payload e3;
                        is_known = remote-eq_ok grpc _ _ e4 ∙ ap ok (some_devices-eq_ok devices e5);
                        is_candidate = found.0;
                        is_authentic = found.1;
                        is_accepted = e7;
                        is_handled = remote-eq_ok grpc _ _ e8 ∙ ap (λ p. ok (p.1)) same;
                        is_sole = sole ∙ ap (λ p. ok (p.0 ∷ [])) same;
                        is_active = ap (λ p. services.handler_is_active p.0) (sym same) ∙ active;
                      }
