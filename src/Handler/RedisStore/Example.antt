-- ===== src/Handler/RedisStore/Example.antt =====
-- A package that encodes only the used nonces, which are their own text.
use ttn.Base.{
  ℕ, ◌≡◌, refl, sym, ap, ◌∙◌, true, List, [], ◌∷◌, none, ok, ok_inj, codes, if◌then◌else◌,
  same_codes, same_codes_iff, arith,
}
use ttn.Storage.Redis.{Text}
use ttn.Storage.Map.{Hash, Coder}
use ttn.Storage.Map.Laws.{put, merge}
use ttn.Handler.Types.{Device}
use ttn.Handler.RedisStore.Laws.{mentions, IsCoder}

abbrev pub nonces_name : Text
nonces_name = codes "used_dev_nonces"

-- A device with these used nonces.
abbrev pub device_with : List ℕ → Device
device_with nonces = record {
  dev_eui = 5;
  app_id = "app";
  dev_id = "dev";
  app_key = 7;
  used_dev_nonces = nonces;
  used_app_nonces = 0 ∷ 1 ∷ [];
  dev_addr = 99;
  nwk_s_key = 8;
  app_s_key = 9;
  f_cnt_up = 3;
  current_downlink = none;
}

abbrev pub field : Text → Hash → Text
field key [] = []
field key ((other, value) ∷ hash) =
    let rest = field key hash in if same_codes key other then value else rest

field-put : (key value : Text) (hash : Hash) → field key (put key value hash) ≡ value
field-put key value [] = rw ((same_codes_iff key key).1 refl) refl
field-put key value ((other, old) ∷ hash) =
    ground (arith, field-put key value hash, (same_codes_iff key key).1 refl)

abbrev pub coder : Coder Device
coder = record {
  encode = λ dev names. ok (
      if mentions (codes "UsedDevNonces") names
      then (nonces_name, dev.used_dev_nonces) ∷ []
      else []);
  decode = λ hash. ok (device_with (field nonces_name hash));
  string_of = λ t. "key";
}

pub decodes :
    (dev : Device) (names : List Text) (fields : Hash) (hash : Hash)
    → mentions (codes "UsedDevNonces") names ≡ true
    → coder.encode dev names ≡ ok fields
    → field nonces_name (merge hash fields) ≡ dev.used_dev_nonces
decodes dev names fields hash m e =
    let same : fields ≡ (nonces_name, dev.used_dev_nonces) ∷ [] = ok_inj (sym (rw m at e)) in
    ap (λ f. field nonces_name (merge hash f)) same ∙ field-put nonces_name dev.used_dev_nonces hash

abbrev pub coder-IsCoder : IsCoder coder
coder-IsCoder = record {
  encode_ok = λ dev names. (_, refl);
  decode-merge = λ dev old names fields m n e hash d. (
    device_with (field nonces_name (merge hash fields)),
    refl,
    decodes dev names fields hash m e,
  );
}
