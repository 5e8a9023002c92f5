-- ===== src/Handler/Activation/Tests.antt =====
-- A device that joins, its store holding one device.
use ttn.Base.{
  ℕ, ◌+◌, ◌≤◌, ◌≡◌, ◌≢◌, refl, true, false, ◌&&◌, List, [], ◌∷◌, ◌++◌, Option, none, some, String,
  Result, ok, err, Error, done, arith, length, drop, str_eq, strip_prefix, same_codes, codes,
  if◌then◌else◌, ◌==◌,
}
use ttn.Lorawan.{MType, Body, PhyPayload, Codec}
use ttn.Otaa.{Aes, calculate_session_keys}
use ttn.Handler.Types.{AppDownlink, Device, EventData, Store}
use ttn.Storage.Redis.{Text, full_key, has_prefix}
use ttn.Storage.Map.{get_record, set_record, decoded, write_hash, prepared_key}
use ttn.Storage.Map.Example.{server, server-IsRedis, server_hashes, server-IsHashes, write_at}
use ttn.Handler.Queue.{Json, queue_key}
use ttn.Handler.RedisStore.{
  get_device, set_device, redis_env, changed_fields, named_changes, session_changes, with_update,
  unless_same,
}
use ttn.Handler.RedisStore.Example.{nonces_name, device_with, coder, coder-IsCoder}
use ttn.Handler.Activation.Distinct.{SavesDistinct, handle_activation-SavesDistinct}
use ttn.Handler.World.{Env, World, emit}
use ttn.Handler.Activation.{
  ActivationRequest, ActivationResponse, is_used, draw_nonce, joined, handle_activation,
}
use ttn.Handler.Activation.Nonces.{draw_nonce_terminates}
use ttn.Handler.Activation.Replay.{handle_activation-replay}

abbrev device : Device
device = record {
  dev_eui = 5;
  app_id = "app";
  dev_id = "dev";
  app_key = 7;
  used_dev_nonces = 3 ∷ [];
  used_app_nonces = 0 ∷ 1 ∷ [];
  dev_addr = 0;
  nwk_s_key = 0;
  app_s_key = 0;
  f_cnt_up = 3;
  current_downlink = none;
}

abbrev random : ℕ → ℕ
random i = i

draw_nonce_terminates_example :
    (n j : ℕ) × (draw_nonce (0 ∷ 1 ∷ []) random 0 3 ≡ some n)
    × (is_used (0 ∷ 1 ∷ []) n ≡ false)
    × (n ≡ random (0 + j))
    × (j ≤ 2)
unfolding is_used
draw_nonce_terminates_example = draw_nonce_terminates (0 ∷ 1 ∷ []) random 0 3 2 (omega arith) refl

abbrev request : PhyPayload
request = record {
  m_type = MType.join_request;
  body = Body.join_request (record { app_eui = 1; dev_eui = 5; dev_nonce = 4 });
  mic = 0;
}

abbrev answer : PhyPayload
answer = record { m_type = MType.join_accept; body = Body.encrypted (2 ∷ []); mic = 0 }

abbrev codec : Codec
codec = record {
  unmarshal = λ b. elim b [ [] ↦ err Error.eof | x ∷ _ ↦ if x == 1 then ok request else ok answer ];
  marshal = λ p. ok (9 ∷ []);
  validate_mic = λ p key. ok (key == 7);
  set_mic = λ p k. ok p;
  encrypt_frm_payload = λ p k. ok p;
  decrypt_frm_payload = λ p k. ok p;
  unmarshal_join_accept = λ b. ok (record { app_nonce = 0; net_id = 19; dev_addr = 99 });
  encrypt_join_accept = λ p k. ok p;
}

abbrev first_of : List AppDownlink → Option AppDownlink
first_of [] = none
first_of (m ∷ ms) = some m

-- The device under its identifiers.
abbrev look_up : Device → String → String → Result Device
look_up dev app_id dev_id =
    if str_eq dev.app_id app_id && str_eq dev.dev_id dev_id
    then ok dev
    else err (Error.not_found "device")

abbrev store : Store
store = record {
  State = Device × List AppDownlink;
  get = λ s a d. look_up s.0 a d;
  set = λ s old dev. (ok tt, (dev, s.1));
  has_queue = λ s a d. ok tt;
  queue_length = λ s a d. ok (length s.1);
  queue_next = λ s a d. (ok (first_of s.1), (s.0, drop 1 s.1));
  queue_replace = λ s a d m. (ok tt, (s.0, m ∷ []));
  queue_push_first = λ s a d m. (ok tt, (s.0, m ∷ s.1));
  queue_push_last = λ s a d m. (ok tt, (s.0, s.1 ++ (m ∷ [])));
}

abbrev env : Env
env = record {
  store = store;
  codec = codec;
  vm = λ name code variables. err Error.eof;
  applications = λ id. err (Error.not_found "application");
  amqp_enabled = false;
  read = λ b. err Error.eof;
}

abbrev world : World env
world = record { state = (device, []); events = []; up = []; amqp_up = []; sent = [] }

abbrev activation : ActivationRequest
activation = record {
  payload = 1 ∷ [];
  app_id = "app";
  dev_id = "dev";
  has_lorawan = true;
  response_template = some (record { payload = 2 ∷ []; downlink_option = none });
}

abbrev aes : Aes
aes key block = elim block [ [] ↦ 0 | kind ∷ _ ↦ kind + 100 ]

abbrev after : World env
after = record (emit env world "app" "dev" (EventData.activation 99)) {
  state = (joined device 4 2 99 (calculate_session_keys aes 7 2 19 4), []);
}

abbrev response : ActivationResponse
response = record {
  payload = 9 ∷ [];
  downlink_option = none;
  nwk_s_key = (joined device 4 2 99 (calculate_session_keys aes 7 2 19 4)).nwk_s_key;
  dev_addr = 99;
}

answers : handle_activation env aes random 3 world activation ≡ (done response, after)
unfolding handle_activation joined is_used draw_nonce
answers = refl

handle_activation-SavesDistinct_example : SavesDistinct env device world after
unfolding is_used
handle_activation-SavesDistinct_example =
    handle_activation-SavesDistinct env aes random 3 world after activation response device answers
      refl (refl, tt) (refl, (refl, tt))

-- The store in Redis.
abbrev json : Json
json = record { marshal = λ m. ok []; unmarshal = λ t. err Error.eof }

abbrev redis : Env
redis = redis_env server server_hashes json coder (codes "h") env

abbrev key : Text
key = codes "h:device:app:dev"

abbrev stored : World redis
stored = record {
  state = ((λ k. []), write_at key ((nonces_name, 3 ∷ []) ∷ []) (λ k. []));
  events = [];
  up = [];
  amqp_up = [];
  sent = [];
}

abbrev next_state : World redis
next_state = (handle_activation redis aes random 3 stored activation).1

is_there :
    get_device server server_hashes json coder (codes "h") stored.state "app" "dev"
    ≡ ok (device_with (3 ∷ []))
unfolding get_device get_record decoded full_key has_prefix strip_prefix queue_key same_codes
is_there = refl

no_prefix : has_prefix (codes "h:device:") (queue_key "app" "dev") ≡ false
unfolding has_prefix strip_prefix queue_key
no_prefix = refl

answers_redis : handle_activation redis aes random 3 stored activation ≡ (done response, next_state)
unfolding handle_activation joined is_used draw_nonce get_device set_device get_record set_record
    decoded write_hash prepared_key full_key has_prefix strip_prefix queue_key same_codes
    changed_fields named_changes session_changes with_update unless_same
answers_redis = refl

handle_activation-replay_example :
    handle_activation redis aes random 9 next_state activation ≢ (done response, next_state)
handle_activation-replay_example =
    handle_activation-replay env server server-IsRedis server_hashes server-IsHashes json coder
      coder-IsCoder (codes "h") aes random random 3 9 stored next_state next_state activation
      response response (device_with (3 ∷ [])) no_prefix is_there refl refl answers_redis
