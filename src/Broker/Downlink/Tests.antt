-- ===== src/Broker/Downlink/Tests.antt =====
-- A router with the identifier "r1", and an option of its schedule.
use ttn.Base.{◌≡◌, ◌↔◌, refl, [], ◌∷◌, none, some, Error, ok, err, done, fails, codes, arith}
use ttn.Errors.{Grpc}
use ttn.Messages.{Content, DownlinkOption, DownlinkMessage}
use ttn.Broker.Downlink.{
  Services, IsPlain, router_of, with_router, without_router, router_of-with_router, handle_downlink,
  handle_downlink_iff,
}

r1_IsPlain : IsPlain (codes "r1")
r1_IsPlain = ((λ e. absurd (omega arith)), ((λ e. absurd (omega arith)), tt))

id_IsPlain : IsPlain (codes "ab")
id_IsPlain = ((λ e. absurd (omega arith)), ((λ e. absurd (omega arith)), tt))

router_of-with_router_example :
    (router_of (with_router (codes "r1") (codes "ab")) ≡ ok (codes "r1"))
    × (without_router (some (codes "r1")) (with_router (codes "r1") (codes "ab")) ≡ codes "ab")
router_of-with_router_example =
    router_of-with_router (codes "r1") (codes "ab") r1_IsPlain id_IsPlain

abbrev option : DownlinkOption
option = record { identifier = "r1:ab"; gateway_id = "g"; score = 3; lorawan_f_cnt = none }

abbrev message : DownlinkMessage
message = record {
  payload = 1 ∷ [];
  message = Content.missing;
  app_eui = 1;
  dev_eui = 5;
  app_id = "app";
  dev_id = "dev";
  downlink_option = some option;
}

abbrev services : Services
services = record { ns_downlink = λ m. ok m; router_channel = λ id. ok 4; codes_of = codes }

abbrev grpc : Grpc
grpc = record { text = λ c s. s; sprintf = λ s. s; code_name = λ c. "Unknown" }

handle_downlink_iff_example :
    ((handle_downlink grpc services message ≡ done (4, message))
      ↔ (services.router_channel (codes "r1") ≡ ok 4))
    × ((e : Error)
        → (handle_downlink grpc services message ≡ fails e)
          ↔ (services.router_channel (codes "r1") ≡ err e))
unfolding with_router
handle_downlink_iff_example =
    handle_downlink_iff grpc services message message option (codes "r1") (codes "ab") 4 r1_IsPlain
      id_IsPlain refl refl refl
