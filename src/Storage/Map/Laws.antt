-- ===== src/Storage/Map/Laws.antt =====
-- What Redis documents of its commands on hashes, and what Set leaves there.
use ttn.Base.{
  ◌≡◌, ◌≢◌, refl, sym, ap, ◌∙◌, false, List, [], ◌∷◌, ok, if◌then◌else◌, same_codes, arith,
}
use ttn.Storage.Redis.{Text, Reply, Client, has_prefix, full_key}
use ttn.Storage.Redis.Laws.{IsRedis}
use ttn.Storage.Map.{Hash, Hashes, Coder, decoded, get_record, prepared_key, write_hash, set_record}

-- A field is written: in its place, or at the end.
abbrev pub put : Text → Text → Hash → Hash
put name value [] = (name, value) ∷ []
put name value ((other, old) ∷ hash) =
    let rest = put name value hash in
    if same_codes name other then (name, value) ∷ hash else (other, old) ∷ rest

abbrev pub merge : Hash → Hash → Hash
merge hash [] = hash
merge hash ((name, value) ∷ fields) = merge (put name value hash) fields

-- A server that answers, with the hashes it holds.
pub record IsHashes (client : Client) (redis : IsRedis client) (hashes : Hashes client)
    : Type 0 where
  pub hash : client.Server → Text → Hash
  pub h_get_all_lem : (s : client.Server) (k : Text) → hashes.h_get_all s k ≡ Reply.value (hash s k)
  pub hm_set_lem :
      (s : client.Server) (k : Text) (f : Text × Text) (m : Hash)
      → (hashes.hm_set s k (f ∷ m)).0 ≡ Reply.value tt
  pub hash-hm_set :
      (s : client.Server) (k : Text) (f : Text × Text) (m : Hash)
      → hash (hashes.hm_set s k (f ∷ m)).1 k ≡ merge (hash s k) (f ∷ m)
  pub lists-hm_set :
      (s : client.Server) (k : Text) (f : Text × Text) (m : Hash)
      → redis.lists (hashes.hm_set s k (f ∷ m)).1 ≡ redis.lists s

put_nonempty : (name value : Text) (hash : Hash) → put name value hash ≢ []
put_nonempty name value [] e = cc
put_nonempty name value (f ∷ hash) e = ground arith

merge_nonempty : (hash fields : Hash) → hash ≢ [] → merge hash fields ≢ []
merge_nonempty hash [] n = n
merge_nonempty hash ((name, value) ∷ fields) n =
    merge_nonempty (put name value hash) fields (put_nonempty name value hash)

module _ (client : Client) (redis : IsRedis client) (hashes : Hashes client)
    (laws : IsHashes client redis hashes) {A : Type 0} (coder : Coder A) (prefix : Text) where
  -- A hash that is a record.
  abbrev pub Reads : Hash → A → Type 0
  Reads hash a = (hash ≢ []) × (coder.decode hash ≡ ok a)

  decoded-eq_ok :
      (key : Text) (hash : Hash) {a : A}
      → decoded client hashes coder prefix key (Reply.value hash) ≡ ok a
      → (hash ≢ []) × (coder.decode hash ≡ ok a)
  unfolding decoded
  decoded-eq_ok key [] h = cc
  decoded-eq_ok key (f ∷ hash) h = ((λ e. cc), h)

  decoded_lem :
      (key : Text) (hash : Hash) {a : A}
      → hash ≢ []
      → coder.decode hash ≡ ok a
      → decoded client hashes coder prefix key (Reply.value hash) ≡ ok a
  unfolding decoded
  decoded_lem key [] n h = absurd (n refl)
  decoded_lem key (f ∷ hash) n h = h

  same_key :
      (key : Text)
      → has_prefix prefix key ≡ false
      → prepared_key client hashes coder prefix key ≡ full_key prefix key
  unfolding prepared_key full_key
  same_key key p = rw p refl

  write_hash-hash :
      (s : client.Server) (key : Text) (fields : Hash)
      → laws.hash (write_hash client hashes coder prefix s key (ok fields)).1 key
        ≡ merge (laws.hash s key) fields
  unfolding write_hash
  write_hash-hash s key [] = refl
  write_hash-hash s key (f ∷ fields) = laws.hash-hm_set s key f fields

  write_hash-lists :
      (s : client.Server) (key : Text) (fields : Hash)
      → ((write_hash client hashes coder prefix s key (ok fields)).0 ≡ ok tt)
        × (redis.lists (write_hash client hashes coder prefix s key (ok fields)).1 ≡ redis.lists s)
  unfolding write_hash
  write_hash-lists s key [] = (refl, refl)
  write_hash-lists s key (f ∷ fields) =
      (rw (laws.hm_set_lem s key f fields) refl, laws.lists-hm_set s key f fields)

  -- Set leaves the lists, if the value has a hash.
  pub set_record-lists :
      (s : client.Server) (key : Text) (value : A) (changed : List Text)
      → ((fields : Hash) × (coder.encode value changed ≡ ok fields))
      → ((set_record client hashes coder prefix s key value changed).0 ≡ ok tt)
        × (redis.lists (set_record client hashes coder prefix s key value changed).1
            ≡ redis.lists s)
  unfolding set_record
  set_record-lists s key value [] (fields, e) = (refl, refl)
  set_record-lists s key value (name ∷ changed) (fields, e) =
      rw e (write_hash-lists s (prepared_key client hashes coder prefix key) fields)

  -- A record that is read has a hash, and is still there with any fields that are written into it.
  pub get_record-eq_ok :
      (s : client.Server) (key : Text) {old : A}
      → get_record client hashes coder prefix s key ≡ ok old
      → (hash : Hash) × (coder.decode hash ≡ ok old)
        × ((new : A) (fields : Hash)
            → coder.decode (merge hash fields) ≡ ok new
            → Reads (merge (laws.hash s (full_key prefix key)) fields) new)
  unfolding get_record
  get_record-eq_ok s key g =
      let k = full_key prefix key in
      let (n, o) =
        decoded-eq_ok k (laws.hash s k)
          (ap (decoded client hashes coder prefix k) (sym (laws.h_get_all_lem s k)) ∙ g) in
      (laws.hash s k, o, (λ new fields d. (merge_nonempty (laws.hash s k) fields n, d)))

  -- After Set, Get decodes the hash with the fields that are written.
  pub get_record-set_record :
      (s : client.Server) (key name : Text) (value new : A) (changed : List Text) (fields : Hash)
      → has_prefix prefix key ≡ false
      → coder.encode value (name ∷ changed) ≡ ok fields
      → Reads (merge (laws.hash s (full_key prefix key)) fields) new
      → get_record client hashes coder prefix
          (set_record client hashes coder prefix s key value (name ∷ changed)).1
          key
        ≡ ok new
  unfolding get_record set_record
  get_record-set_record s key name value new changed fields p e (n, d) =
      let k = full_key prefix key in
      let t = (write_hash client hashes coder prefix s k (ok fields)).1 in
      let written : laws.hash t k ≡ merge (laws.hash s k) fields = write_hash-hash s k fields in
      rw (e, same_key key p)
        (ap (decoded client hashes coder prefix k) (laws.h_get_all_lem t k ∙ ap Reply.value written)
          ∙ decoded_lem k (merge (laws.hash s k) fields) n d)
