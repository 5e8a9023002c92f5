-- ===== src/Storage/Map.antt =====
-- core/storage/redis_map_store.go: records, each a hash in Redis, for records that no migration changes.
pub mod Laws
pub mod Example
use ttn.Base.{Bool, true, false, List, [], ◌∷◌, ◌++◌, String, Result, ok, err, Error, if◌then◌else◌}
use ttn.Storage.Redis.{Text, Reply, Client, has_prefix, full_key, as_error}

-- A map[string]string; its order is not read.
abbrev pub Hash : Type 0
Hash = List (Text × Text)

-- The commands of the client on hashes.
pub record Hashes (client : Client) : Type 0 where
  pub h_get_all : client.Server → Text → Reply Hash
  pub hm_set : client.Server → Text → Hash → Reply (Unit {0}) × client.Server

-- Package go-utils/encoding for one type: a record as a hash, with the properties that are named, and a
-- hash as a record. `string_of` is the string with these codes.
pub record Coder (A : Type 0) : Type 0 where
  pub encode : A → List Text → Result Hash
  pub decode : Hash → Result A
  pub string_of : Text → String

module _ (client : Client) (hashes : Hashes client) {A : Type 0} (coder : Coder A)
    (prefix : Text) where
  -- A hash without fields is a record that is not there.
  unfoldable pub decoded : Text → Reply Hash → Result A
  decoded key (Reply.value []) = err (Error.not_found (coder.string_of key))
  decoded key (Reply.value (field ∷ hash)) = coder.decode (field ∷ hash)
  decoded key Reply.nil = err (Error.not_found (coder.string_of key))
  decoded key (Reply.fails e) = err e

  -- Get.
  unfoldable pub get_record : client.Server → Text → Result A
  unfolding decoded
  get_record server key =
      decoded (full_key prefix key) (hashes.h_get_all server (full_key prefix key))

  -- The key that prepare gives: the empty one, where the prefix is there.
  unfoldable pub prepared_key : Text → Text
  prepared_key key = if has_prefix prefix key then [] else prefix ++ key

  unfoldable pub write_hash : client.Server → Text → Result Hash → Result (Unit {0}) × client.Server
  write_hash server key (err e) = (err e, server)
  write_hash server key (ok []) = (ok tt, server)
  write_hash server key (ok (field ∷ hash)) =
      let (reply, after) = hashes.hm_set server key (field ∷ hash) in
      (as_error reply (λ u. u), after)

  -- Set without properties, for a value with the fields `changed`.
  unfoldable pub set_record :
      client.Server → Text → A → List Text → Result (Unit {0}) × client.Server
  unfolding prepared_key write_hash
  set_record server key value [] = (ok tt, server)
  set_record server key value (name ∷ changed) =
      write_hash server (prepared_key key) (coder.encode value (name ∷ changed))
