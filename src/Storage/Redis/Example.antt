-- ===== src/Storage/Redis/Example.antt =====
-- A Redis in memory.
use ttn.Base.{refl, [], ◌++◌, reverse, drop, length}
use ttn.Storage.Redis.{Reply, Client}
use ttn.Storage.Redis.Laws.{Lists, update, range, first_of, IsRedis}

abbrev pub memory : Client
memory = record {
  Server = Lists;
  l_push = λ s k vs. (Reply.value tt, update s k (reverse vs ++ s k));
  r_push = λ s k vs. (Reply.value tt, update s k (s k ++ vs));
  l_pop = λ s k. (first_of (s k), update s k (drop 1 (s k)));
  l_len = λ s k. Reply.value (length (s k));
  l_range = λ s k start stop. Reply.value (range start stop (s k));
  l_trim = λ s k start stop. (Reply.value tt, update s k (range start stop (s k)));
  del = λ s k. (Reply.value tt, update s k []);
}

abbrev pub memory-IsRedis : IsRedis memory
memory-IsRedis = record {
  lists = λ s. s;
  l_push_lem = λ s k v vs. refl;
  lists-l_push = λ s k v vs. refl;
  r_push_lem = λ s k v vs. refl;
  lists-r_push = λ s k v vs. refl;
  l_pop_lem = λ s k. refl;
  lists-l_pop = λ s k. refl;
  l_len_lem = λ s k. refl;
  l_range_lem = λ s k start stop. refl;
  l_trim_lem = λ s k start stop. refl;
  lists-l_trim = λ s k start stop. refl;
  del_lem = λ s k. refl;
  lists-del = λ s k. refl;
}
