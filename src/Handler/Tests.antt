-- ===== src/Handler/Tests.antt =====
-- A handler with one device and a store in memory.
use ttn.Base.{
  ℕ, ◌≡◌, ◌≢◌, ◌↔◌, ◌⊎◌, refl, Bool, true, false, ◌&&◌, List, [], ◌∷◌, ◌++◌, map, Option, none,
  some, String, Result, ok, err, Error, codes, arith, length, drop, str_eq, strip_prefix,
  same_codes, if◌then◌else◌, ◌==◌,
}
use ttn.Base.Int.{pos}
use ttn.Lorawan.{MType, MacPayload, Payload, Body, PhyPayload, Codec}
use ttn.Messages.{Content, DownlinkMessage, DeduplicatedUplinkMessage}
use ttn.Storage.Redis.{Text}
use ttn.Storage.Redis.Laws.{Lists}
use ttn.Storage.Redis.Example.{memory, memory-IsRedis}
use ttn.Handler.Types.{AppDownlink, Device, Store}
use ttn.Handler.Queue.{Json}
use ttn.Handler.Queue.Refinement.{
  IsJson, DownlinkOp, replay_all, perform_all, Holds, downlink_queue_refines,
}
use ttn.Handler.ConvertLorawan.{convert_from_lorawan}
use ttn.Handler.ConvertLorawan.Uplinks.{Converted, convert_from_lorawan-Converted}
use ttn.Handler.ConvertLorawan.Downlinks.{convert_to_lorawan}
use ttn.Handler.ConvertLorawan.Frames.{Framed, convert_to_lorawan-Framed}
use ttn.Handler.ConvertFields.{Element, Application, Vm, encode_elements}
use ttn.Handler.ConvertFields.Laws.{IsEncoded, encode_elements_iff}
use ttn.Storage.Redis.{full_key, has_prefix}
use ttn.Storage.Redis.Laws.{update}
use ttn.Storage.Map.{get_record, decoded}
use ttn.Storage.Map.Example.{server, server-IsRedis, server_hashes, server-IsHashes, write_at}
use ttn.Handler.Queue.{queue_key}
use ttn.Handler.RedisStore.{get_device, redis_env}
use ttn.Handler.RedisStore.Example.{nonces_name, device_with, coder, coder-IsCoder}
use ttn.Handler.World.{Env, World}
use ttn.Handler.Downlink.{place_of, enqueue_downlink, handle_downlink}
use ttn.Handler.Downlink.Laws.{Keeps, SendsOne, handle_downlink-Ends}
use ttn.Handler.Downlink.Enqueue.{Enqueued, enqueue_downlink-Enqueued}
use ttn.Handler.Uplink.{new_uplink, handle_uplink}
use ttn.Handler.Uplink.Laws.{Publishes, handle_uplink-Ends}

abbrev down : String → List ℕ → AppDownlink
down schedule payload = record {
  app_id = "app";
  dev_id = "dev";
  f_port = 0;
  confirmed = true;
  schedule = schedule;
  payload_raw = some payload;
  payload_fields = [];
}

-- A text with the payload of a message.
abbrev json_text : AppDownlink → Text
json_text m = b'm' ∷ (elim m.payload_raw [ none ↦ [] | some bytes ↦ bytes ])

abbrev read_text : Text → Result AppDownlink
read_text [] = err Error.eof
read_text (c ∷ bytes) = ok (down "" bytes)

abbrev json : Json
json = record { marshal = λ m. ok (json_text m); unmarshal = read_text }

text_nonempty : (m : AppDownlink) → json_text m ≢ []
text_nonempty m e = cc

abbrev json-IsJson : IsJson json
json-IsJson = record {
  text = json_text;
  read = λ m. down "" (elim m.payload_raw [ none ↦ [] | some bytes ↦ bytes ]);
  marshal_lem = λ m. refl;
  text_nonempty = text_nonempty;
  unmarshal_lem = λ m. refl;
}

abbrev downlink_ops : List DownlinkOp
downlink_ops =
    DownlinkOp.in_front (down "" (1 ∷ []))
    ∷ DownlinkOp.at_end (down "" (2 ∷ []))
    ∷ DownlinkOp.take
    ∷ DownlinkOp.count
    ∷ DownlinkOp.alone (down "" (3 ∷ []))
    ∷ []

abbrev empty_redis : Lists
empty_redis key = []

downlink_queue_refines_example :
    ((perform_all memory json (codes "q:") "app" "dev" downlink_ops empty_redis).0
      ≡ map ok (replay_all json-IsJson.read downlink_ops []).0)
    × Holds memory memory-IsRedis json json-IsJson
        (codes "q:")
        "app"
        "dev"
        (perform_all memory json (codes "q:") "app" "dev" downlink_ops empty_redis).1
        (replay_all json-IsJson.read downlink_ops []).1
downlink_queue_refines_example =
    downlink_queue_refines memory memory-IsRedis json json-IsJson (codes "q:") "app" "dev"
      downlink_ops empty_redis [] refl

abbrev device : Device
device = record {
  dev_eui = 5;
  app_id = "app";
  dev_id = "dev";
  app_key = 7;
  used_dev_nonces = [];
  used_app_nonces = 0 ∷ 1 ∷ [];
  dev_addr = 99;
  nwk_s_key = 8;
  app_s_key = 9;
  f_cnt_up = 3;
  current_downlink = some (down "" (4 ∷ []));
}

abbrev payload : Bool → MacPayload
payload ack = record {
  dev_addr = 99;
  f_cnt = 4;
  ack = ack;
  f_pending = false;
  f_opts = [];
  f_port = some 1;
  frm_payload = Payload.bytes (1 ∷ 2 ∷ []) ∷ [];
}

abbrev frame : PhyPayload
frame = record { m_type = MType.confirmed_data_up; body = Body.mac (payload true); mic = 0 }

-- A codec whose MIC is the network session key of the device.
abbrev codec : Codec
codec = record {
  unmarshal = λ b. ok frame;
  marshal = λ p. ok (1 ∷ 2 ∷ []);
  validate_mic = λ p key. ok (key == 8);
  set_mic = λ p k. ok p;
  encrypt_frm_payload = λ p k. ok p;
  decrypt_frm_payload = λ p k. ok p;
  unmarshal_join_accept = λ b. err Error.eof;
  encrypt_join_accept = λ p k. ok p;
}

abbrev template : DownlinkMessage
template = record {
  payload = 1 ∷ [];
  message = Content.missing;
  app_eui = 1;
  dev_eui = 5;
  app_id = "app";
  dev_id = "dev";
  downlink_option =
      some (record { identifier = "i"; gateway_id = "g"; score = 3; lorawan_f_cnt = some 12 });
}

abbrev uplink : DeduplicatedUplinkMessage
uplink = record {
  payload = 1 ∷ [];
  message = Content.missing;
  lorawan = some (record { data_rate = codes "SF7BW125"; frequency_plan = "EU"; f_cnt = 70000 });
  gateway_metadata = [];
  app_eui = 1;
  dev_eui = 5;
  app_id = "app";
  dev_id = "dev";
  response_template = some template;
}

convert_from_lorawan-Converted_example :
    Converted codec uplink
      (new_uplink "app" "dev")
      device
      (convert_from_lorawan codec uplink (new_uplink "app" "dev") device)
unfolding convert_from_lorawan
convert_from_lorawan-Converted_example =
    convert_from_lorawan-Converted codec uplink (new_uplink "app" "dev") device refl

convert_to_lorawan-Framed_example :
    Framed codec device true (down "" (4 ∷ [])) template (record template { payload = 1 ∷ 2 ∷ [] })
unfolding convert_to_lorawan
convert_to_lorawan-Framed_example =
    convert_to_lorawan-Framed codec device true (down "" (4 ∷ [])) template
      (record template { payload = 1 ∷ 2 ∷ [] }) refl

abbrev elements : List Element
elements = Element.integer (pos 7) ∷ Element.floating (pos 255) true ∷ Element.unsigned_64 0 ∷ []

encode_elements_iff_example :
    (encode_elements elements ≡ ok (7 ∷ 255 ∷ 0 ∷ [])) ↔ IsEncoded elements (7 ∷ 255 ∷ 0 ∷ [])
encode_elements_iff_example =
    encode_elements_iff elements (7 ∷ 255 ∷ 0 ∷ []) (tt, (tt, (omega arith, tt)))

abbrev vm : Vm
vm name code variables = ok (record {
  is_object = false;
  is_boolean = true;
  exported = err Error.eof;
  to_boolean = ok false;
})

abbrev application : Application
application = record { decoder = ""; converter = ""; validator = "v"; encoder = "" }

abbrev first_of : List AppDownlink → Option AppDownlink
first_of [] = none
first_of (m ∷ ms) = some m

-- One device, and one queue.
abbrev State : Type 0
State = Option Device × List AppDownlink

abbrev look_up : State → String → String → Result Device
look_up (none, q) app_id dev_id = err (Error.not_found "device")
look_up (some dev, q) app_id dev_id =
    if str_eq dev.app_id app_id && str_eq dev.dev_id dev_id
    then ok dev
    else err (Error.not_found "device")

abbrev store : Store
store = record {
  State = State;
  get = look_up;
  set = λ s old dev. (ok tt, (some dev, s.1));
  has_queue = λ s a d. ok tt;
  queue_length = λ s a d. ok (length s.1);
  queue_next = λ s a d. (ok (first_of s.1), (s.0, drop 1 s.1));
  queue_replace = λ s a d m. (ok tt, (s.0, m ∷ []));
  queue_push_first = λ s a d m. (ok tt, (s.0, m ∷ s.1));
  queue_push_last = λ s a d m. (ok tt, (s.0, s.1 ++ (m ∷ [])));
}

abbrev env : Env
env = record {
  store = store;
  codec = codec;
  vm = vm;
  applications = λ id. err (Error.not_found "application");
  amqp_enabled = true;
  read = λ b. err Error.eof;
}

abbrev world : World env
world = record {
  state = (some device, down "" (6 ∷ []) ∷ []);
  events = [];
  up = [];
  amqp_up = [];
  sent = [];
}

handle_downlink-Ends_example :
    Keeps world (handle_downlink env world (down "" (4 ∷ [])) template).1
    ⊎ SendsOne env "app" "dev"
        (down "" (4 ∷ []))
        template
        world
        (handle_downlink env world (down "" (4 ∷ [])) template).1
handle_downlink-Ends_example = handle_downlink-Ends env world (down "" (4 ∷ [])) template

handle_uplink-Ends_example :
    Keeps world (handle_uplink env world uplink).1
    ⊎ Publishes env uplink world (handle_uplink env world uplink).1
handle_uplink-Ends_example = handle_uplink-Ends env uplink world

-- The store in Redis.
abbrev redis_world : World (redis_env server server_hashes json coder (codes "h") env)
redis_world = record {
  state = (
    update empty_redis (codes "h:downlink:app:dev") (json_text (down "" (6 ∷ [])) ∷ []),
    write_at (codes "h:device:app:dev") ((nonces_name, 3 ∷ []) ∷ []) (λ k. []),
  );
  events = [];
  up = [];
  amqp_up = [];
  sent = [];
}

is_there :
    get_device server server_hashes json coder (codes "h") redis_world.state "app" "dev"
    ≡ ok (device_with (3 ∷ []))
unfolding get_device get_record decoded full_key has_prefix strip_prefix queue_key same_codes
is_there = refl

holds :
    Holds server server-IsRedis json json-IsJson
      (codes "h:downlink:")
      "app"
      "dev"
      redis_world.state
      (down "" (6 ∷ []) ∷ [])
unfolding full_key has_prefix strip_prefix queue_key same_codes
holds = refl

enqueue_downlink-Enqueued_example :
    Enqueued
      (redis_env server server_hashes json coder (codes "h") env)
      (Holds server server-IsRedis json json-IsJson (codes "h:downlink:") "app" "dev")
      (down "last" (8 ∷ []))
      (device_with (3 ∷ []))
      (place_of "last")
      (down "" (6 ∷ []) ∷ [])
      redis_world
      (enqueue_downlink
        (redis_env server server_hashes json coder (codes "h") env)
        redis_world
        (down "last" (8 ∷ [])))
enqueue_downlink-Enqueued_example =
    enqueue_downlink-Enqueued env server server-IsRedis server_hashes server-IsHashes json
      json-IsJson coder coder-IsCoder (codes "h") (down "last" (8 ∷ [])) redis_world
      (device_with (3 ∷ [])) (down "" (6 ∷ []) ∷ []) is_there holds
