-- ===== src/Handler/RedisStore.antt =====
-- core/handler/device/store.go: the devices and their queues in Redis, behind the interface of the
-- handler; and ChangedFields of device.go.
pub mod Laws
pub mod Example
use ttn.Base.{
  ℕ, Bool, true, false, ◌&&◌, List, [], ◌∷◌, ◌++◌, Option, none, some, String, Result, ok, codes,
  str_eq, ◌==◌, same_codes,
}
use ttn.Storage.Redis.{Text, Client}
use ttn.Storage.Map.{Hashes, Coder, get_record, set_record}
use ttn.Handler.Types.{Fields, AppDownlink, Device, Store}
use ttn.Handler.Queue.{Json, queue_key, waiting, take_next, push_first, push_last, replace}
use ttn.Handler.World.{Env}

same_bool : Bool → Bool → Bool
same_bool true b = b
same_bool false true = false
same_bool false false = true

same_bytes : Option (List ℕ) → Option (List ℕ) → Bool
same_bytes none none = true
same_bytes (some a) (some b) = same_codes a b
same_bytes a b = false

same_fields : Fields → Fields → Bool
same_fields [] [] = true
same_fields ((name, a) ∷ rest) ((other, b) ∷ others) =
    str_eq name other && (same_codes a b && same_fields rest others)
same_fields a b = false

-- reflect.DeepEqual of the messages behind two pointers.
same_message : Option AppDownlink → Option AppDownlink → Bool
unfolding same_bool same_bytes same_fields
same_message none none = true
same_message (some a) (some b) =
    str_eq a.app_id b.app_id
    && (str_eq a.dev_id b.dev_id
        && (a.f_port == b.f_port
            && (same_bool a.confirmed b.confirmed
                && (str_eq a.schedule b.schedule
                    && (same_bytes a.payload_raw b.payload_raw
                        && same_fields a.payload_fields b.payload_fields)))))
same_message a b = false

-- The name of a field whose values are not the same.
unfoldable pub unless_same : String → Bool → List Text
unless_same name true = []
unless_same name false = codes name ∷ []

-- The time of the update is always a new one; alone, it does not count.
unfoldable pub with_update : List Text → List Text
with_update [] = []
with_update (name ∷ names) = (name ∷ names) ++ (codes "UpdatedAt" ∷ [])

-- The part of ChangedFields from the used nonces on.
unfoldable pub session_changes : Device → Device → List Text
unfolding same_message unless_same
session_changes old new =
    unless_same "UsedDevNonces" (same_codes new.used_dev_nonces old.used_dev_nonces)
    ++ (unless_same "UsedAppNonces" (same_codes new.used_app_nonces old.used_app_nonces)
        ++ (unless_same "DevAddr" (new.dev_addr == old.dev_addr)
            ++ (unless_same "NwkSKey" (new.nwk_s_key == old.nwk_s_key)
                ++ (unless_same "AppSKey" (new.app_s_key == old.app_s_key)
                    ++ (unless_same "FCntUp" (new.f_cnt_up == old.f_cnt_up)
                        ++ unless_same "CurrentDownlink"
                            (same_message new.current_downlink old.current_downlink))))))

unfoldable pub named_changes : Device → Device → List Text
unfolding unless_same session_changes
named_changes old new =
    unless_same "DevEUI" (new.dev_eui == old.dev_eui)
    ++ (unless_same "AppID" (str_eq new.app_id old.app_id)
        ++ (unless_same "DevID" (str_eq new.dev_id old.dev_id)
            ++ (unless_same "AppKey" (new.app_key == old.app_key) ++ session_changes old new)))

-- ChangedFields, with the fields of the model.
unfoldable pub changed_fields : Device → Device → List Text
unfolding named_changes with_update
changed_fields old new = with_update (named_changes old new)

abbrev pub device_prefix : Text → Text
device_prefix prefix = prefix ++ codes ":device:"

abbrev pub downlink_prefix : Text → Text
downlink_prefix prefix = prefix ++ codes ":downlink:"

-- NewRedisDeviceStore: Get, Set and DownlinkQueue, which gives the queue without an error.
module _ (client : Client) (hashes : Hashes client) (json : Json) (coder : Coder Device)
    (prefix : Text) where
  unfoldable pub get_device : client.Server → String → String → Result Device
  get_device server app_id dev_id =
      get_record client hashes coder (device_prefix prefix) server (queue_key app_id dev_id)

  unfoldable pub set_device : client.Server → Device → Device → Result (Unit {0}) × client.Server
  unfolding changed_fields
  set_device server old new =
      set_record client hashes coder (device_prefix prefix) server (queue_key new.app_id new.dev_id)
        new (changed_fields old new)

  abbrev pub redis_device_store : Store
  redis_device_store = record {
    State = client.Server;
    get = get_device;
    set = set_device;
    has_queue = λ s a d. ok tt;
    queue_length = λ s a d. waiting client json (downlink_prefix prefix) a d s;
    queue_next = λ s a d. take_next client json (downlink_prefix prefix) a d s;
    queue_replace = λ s a d m. replace client json (downlink_prefix prefix) a d s m;
    queue_push_first = λ s a d m. push_first client json (downlink_prefix prefix) a d s m;
    queue_push_last = λ s a d m. push_last client json (downlink_prefix prefix) a d s m;
  }

  -- NewRedisHandler: the handler with this store.
  abbrev pub redis_env : Env → Env
  redis_env env = record env { store = redis_device_store }
