-- ===== src/Handler/RedisStore/Laws.antt =====
-- What the store of devices keeps of a device, and of its queue.
use ttn.Base.{
  ◌≡◌, ◌≢◌, refl, ap, ◌∙◌, Bool, true, false, ◌||◌, List, [], ◌∷◌, ◌++◌, String, ok, codes,
  same_codes, same_codes_iff, arith, str_eq, ◌==◌,
}
use ttn.Storage.Redis.{Text, Client, has_prefix, full_key}
use ttn.Storage.Redis.Laws.{IsRedis}
use ttn.Storage.Map.{Hash, Hashes, Coder, get_record, set_record}
use ttn.Storage.Map.Laws.{
  IsHashes, merge, set_record-lists, get_record-eq_ok, get_record-set_record,
}
use ttn.Handler.Types.{Device}
use ttn.Handler.Stores.{Queues}
use ttn.Handler.Queue.{Json, queue_key}
use ttn.Handler.Queue.Refinement.{IsJson, Holds, replace-Holds, push_first-Holds, push_last-Holds}
use ttn.Handler.RedisStore.{
  unless_same, with_update, session_changes, named_changes, changed_fields, device_prefix,
  downlink_prefix, get_device, set_device, redis_device_store,
}

-- A name is in a list of names.
abbrev pub mentions : Text → List Text → Bool
mentions name [] = false
mentions name (other ∷ names) = same_codes name other || mentions name names

-- A device has a hash, whatever properties are named; and where the list of used nonces is named and not
-- empty, a hash with these fields written into it has the nonces of the device.
pub record IsCoder (coder : Coder Device) : Type 0 where
  pub encode_ok :
      (dev : Device) (names : List Text) → (fields : Hash) × (coder.encode dev names ≡ ok fields)
  pub decode-merge :
      (dev old : Device) (names : List Text) (fields : Hash)
      → mentions (codes "UsedDevNonces") names ≡ true
      → dev.used_dev_nonces ≢ []
      → coder.encode dev names ≡ ok fields
      → (hash : Hash) → coder.decode hash ≡ ok old
      → (new : Device) × (coder.decode (merge hash fields) ≡ ok new)
        × (new.used_dev_nonces ≡ dev.used_dev_nonces)

mentions-unless_same :
    (name : Text) (other : String) (b : Bool) (names : List Text)
    → mentions name names ≡ true
    → mentions name (unless_same other b ++ names) ≡ true
unfolding unless_same
mentions-unless_same name other true names h = h
mentions-unless_same name other false names h = ground arith

mentions-append :
    (name : Text) (names more : List Text)
    → mentions name names ≡ true
    → mentions name (names ++ more) ≡ true
mentions-append name [] more h = cc
mentions-append name (other ∷ names) more h = ground (arith, mentions-append name names more)

mentions-with_update :
    (name : Text) (names : List Text)
    → mentions name names ≡ true
    → mentions name (with_update names) ≡ true
unfolding with_update
mentions-with_update name [] h = h
mentions-with_update name (other ∷ names) h =
    mentions-append name (other ∷ names) (codes "UpdatedAt" ∷ []) h

named_first :
    (name : String) (b : Bool) (names : List Text)
    → b ≡ false
    → mentions (codes name) (unless_same name b ++ names) ≡ true
unfolding unless_same
named_first name true names e = cc
named_first name false names e = rw ((same_codes_iff (codes name) (codes name)).1 refl) refl

session_changes-mentions :
    (old new : Device)
    → same_codes new.used_dev_nonces old.used_dev_nonces ≡ false
    → mentions (codes "UsedDevNonces") (session_changes old new) ≡ true
unfolding session_changes
session_changes-mentions old new h =
    named_first "UsedDevNonces" (same_codes new.used_dev_nonces old.used_dev_nonces) _ h

named_changes-mentions :
    (name : Text) (old new : Device)
    → mentions name (session_changes old new) ≡ true
    → mentions name (named_changes old new) ≡ true
unfolding named_changes
named_changes-mentions name old new h =
    let fourth = mentions-unless_same name "AppKey" (new.app_key == old.app_key) _ h in
    let third = mentions-unless_same name "DevID" (str_eq new.dev_id old.dev_id) _ fourth in
    let second = mentions-unless_same name "AppID" (str_eq new.app_id old.app_id) _ third in
    mentions-unless_same name "DevEUI" (new.dev_eui == old.dev_eui) _ second

-- New nonces of a device are a changed field.
pub changed_fields-mentions :
    (old new : Device)
    → same_codes new.used_dev_nonces old.used_dev_nonces ≡ false
    → mentions (codes "UsedDevNonces") (changed_fields old new) ≡ true
unfolding changed_fields
changed_fields-mentions old new h =
    mentions-with_update (codes "UsedDevNonces") (named_changes old new)
      (named_changes-mentions (codes "UsedDevNonces") old new (session_changes-mentions old new h))

module _ (client : Client) (redis : IsRedis client) (hashes : Hashes client)
    (laws : IsHashes client redis hashes) (json : Json) (coder : Coder Device)
    (is_coder : IsCoder coder) (prefix : Text) where
  -- With the names of the fields that are written.
  written :
      (s : client.Server) (old new : Device) (names : List Text)
      → has_prefix (device_prefix prefix) (queue_key new.app_id new.dev_id) ≡ false
      → get_record client hashes coder (device_prefix prefix) s (queue_key new.app_id new.dev_id)
        ≡ ok old
      → new.used_dev_nonces ≢ []
      → mentions (codes "UsedDevNonces") names ≡ true
      → (dev : Device) × (get_record client hashes coder
            (device_prefix prefix)
            (set_record client hashes coder
              (device_prefix prefix)
              s
              (queue_key new.app_id new.dev_id)
              new
              names).1
            (queue_key new.app_id new.dev_id)
          ≡ ok dev)
        × (dev.used_dev_nonces ≡ new.used_dev_nonces)
  written s old new [] p g n m = cc
  written s old new (name ∷ names) p g n m =
      let key = queue_key new.app_id new.dev_id in
      let (fields, e) = is_coder.encode_ok new (name ∷ names) in
      let (hash, o, found) =
        get_record-eq_ok client redis hashes laws coder (device_prefix prefix) s key g in
      let (dev, d, same) = is_coder.decode-merge new old (name ∷ names) fields m n e hash o in
      (
        dev,
        get_record-set_record client redis hashes laws coder (device_prefix prefix) s key name new
            dev names fields p e (found dev fields d),
        same,
      )

  -- Where a device is read, Set of a device with its identifiers, and with other used nonces, leaves
  -- a device with these nonces to read.
  pub get_device-set_device :
      (s : client.Server) (old new : Device)
      → has_prefix (device_prefix prefix) (queue_key new.app_id new.dev_id) ≡ false
      → get_device client hashes json coder prefix s new.app_id new.dev_id ≡ ok old
      → new.used_dev_nonces ≢ []
      → same_codes new.used_dev_nonces old.used_dev_nonces ≡ false
      → (dev : Device) × (get_device client hashes json coder prefix
            (set_device client hashes json coder prefix s old new).1
            new.app_id
            new.dev_id
          ≡ ok dev)
        × (dev.used_dev_nonces ≡ new.used_dev_nonces)
  unfolding get_device set_device
  get_device-set_device s old new p g n c =
      written s old new (changed_fields old new) p g n (changed_fields-mentions old new c)

  -- The store serves the queue of any device.
  pub redis_device_store-Queues :
      (is_json : IsJson json) (app_id dev_id : String)
      → Queues
          (redis_device_store client hashes json coder prefix)
          app_id
          dev_id
          (Holds client redis json is_json (downlink_prefix prefix) app_id dev_id)
  unfolding set_device
  redis_device_store-Queues is_json app_id dev_id = record {
    has_queue_ok = λ s. refl;
    set-Holds = λ s old dev q h.
        let (o, l) =
          set_record-lists client redis hashes laws coder (device_prefix prefix) s
            (queue_key dev.app_id dev.dev_id) dev (changed_fields old dev)
            (is_coder.encode_ok dev (changed_fields old dev)) in
        (o, ap (λ f. f (full_key (downlink_prefix prefix) (queue_key app_id dev_id))) l ∙ h);
    replace-Holds = λ s m q h.
        replace-Holds client redis json is_json (downlink_prefix prefix) app_id dev_id s m;
    push_first-Holds = λ s m q h.
        push_first-Holds client redis json is_json (downlink_prefix prefix) app_id dev_id s m q h;
    push_last-Holds = λ s m q h.
        push_last-Holds client redis json is_json (downlink_prefix prefix) app_id dev_id s m q h;
  }
