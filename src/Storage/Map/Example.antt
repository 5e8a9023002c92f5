-- ===== src/Storage/Map/Example.antt =====
-- A Redis in memory with lists and hashes.
use ttn.Base.{
  ◌≡◌, refl, [], ◌∷◌, ◌++◌, reverse, drop, length, if◌then◌else◌, same_codes, same_codes_iff,
}
use ttn.Storage.Redis.{Text, Reply, Client}
use ttn.Storage.Redis.Laws.{Lists, update, range, first_of, IsRedis}
use ttn.Storage.Map.{Hash, Hashes}
use ttn.Storage.Map.Laws.{IsHashes, merge}

abbrev pub server : Client
server = record {
  Server = Lists × (Text → Hash);
  l_push = λ s k vs. (Reply.value tt, (update s.0 k (reverse vs ++ s.0 k), s.1));
  r_push = λ s k vs. (Reply.value tt, (update s.0 k (s.0 k ++ vs), s.1));
  l_pop = λ s k. (first_of (s.0 k), (update s.0 k (drop 1 (s.0 k)), s.1));
  l_len = λ s k. Reply.value (length (s.0 k));
  l_range = λ s k start stop. Reply.value (range start stop (s.0 k));
  l_trim = λ s k start stop. (Reply.value tt, (update s.0 k (range start stop (s.0 k)), s.1));
  del = λ s k. (Reply.value tt, (update s.0 k [], s.1));
}

abbrev pub server-IsRedis : IsRedis server
server-IsRedis = record {
  lists = λ s. s.0;
  l_push_lem = λ s k v vs. refl;
  lists-l_push = λ s k v vs. refl;
  r_push_lem = λ s k v vs. refl;
  lists-r_push = λ s k v vs. refl;
  l_pop_lem = λ s k. refl;
  lists-l_pop = λ s k. refl;
  l_len_lem = λ s k. refl;
  l_range_lem = λ s k start stop. refl;
  l_trim_lem = λ s k start stop. refl;
  lists-l_trim = λ s k start stop. refl;
  del_lem = λ s k. refl;
  lists-del = λ s k. refl;
}

abbrev pub write_at : Text → Hash → (Text → Hash) → Text → Hash
write_at key hash others other = if same_codes key other then hash else others other

abbrev pub server_hashes : Hashes server
server_hashes = record {
  h_get_all = λ s k. Reply.value (s.1 k);
  hm_set = λ s k m. (Reply.value tt, (s.0, write_at k (merge (s.1 k) m) s.1));
}

pub write_at_self : (k : Text) (h : Hash) (others : Text → Hash) → write_at k h others k ≡ h
write_at_self k h others = rw ((same_codes_iff k k).1 refl) refl

abbrev pub server-IsHashes : IsHashes server server-IsRedis server_hashes
server-IsHashes = record {
  hash = λ s k. s.1 k;
  h_get_all_lem = λ s k. refl;
  hm_set_lem = λ s k f m. refl;
  hash-hm_set = λ s k f m. write_at_self k (merge (s.1 k) (f ∷ m)) s.1;
  lists-hm_set = λ s k f m. refl;
}
