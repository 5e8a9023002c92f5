-- ===== src/Storage/Redis/Laws.antt =====
-- What Redis documents of its commands on lists, as far as the queues rely on it.
use ttn.Base.{
  ℕ, ◌+◌, ◌-◌, ◌≡◌, List, [], ◌∷◌, ◌++◌, if◌then◌else◌, same_codes, length, take, drop, reverse,
}
use ttn.Base.Int.{ℤ, pos, negsuc}
use ttn.Storage.Redis.{Text, Reply, Client}

-- The lists of a server, one for each key; a missing key is an empty list.
abbrev pub Lists : Type 0
Lists = Text → List Text

abbrev pub update : Lists → Text → List Text → Lists
update lists key values other = if same_codes key other then values else lists other

-- The places of an LRANGE or LTRIM: how many elements are left out in front, and where the range
-- ends. A negative place counts from the end of the list.
abbrev pub range_start : ℕ → ℤ → ℕ
range_start n (pos i) = i
range_start n (negsuc i) = n - (i + 1)

abbrev pub range_end : ℕ → ℤ → ℕ
range_end n (pos i) = i + 1
range_end n (negsuc i) = n - i

abbrev pub range : ℤ → ℤ → List Text → List Text
range start stop xs = drop (range_start (length xs) start) (take (range_end (length xs) stop) xs)

abbrev pub first_of : List Text → Reply Text
first_of [] = Reply.nil
first_of (x ∷ xs) = Reply.value x

-- A server that answers, with the lists it holds. LPUSH and RPUSH need one value at least.
pub record IsRedis (client : Client) : Type 0 where
  pub lists : client.Server → Lists
  pub l_push_lem :
      (s : client.Server) (k v : Text) (vs : List Text)
      → (client.l_push s k (v ∷ vs)).0 ≡ Reply.value tt
  pub lists-l_push :
      (s : client.Server) (k v : Text) (vs : List Text)
      → lists (client.l_push s k (v ∷ vs)).1 ≡ update (lists s) k (reverse (v ∷ vs) ++ lists s k)
  pub r_push_lem :
      (s : client.Server) (k v : Text) (vs : List Text)
      → (client.r_push s k (v ∷ vs)).0 ≡ Reply.value tt
  pub lists-r_push :
      (s : client.Server) (k v : Text) (vs : List Text)
      → lists (client.r_push s k (v ∷ vs)).1 ≡ update (lists s) k (lists s k ++ (v ∷ vs))
  pub l_pop_lem : (s : client.Server) (k : Text) → (client.l_pop s k).0 ≡ first_of (lists s k)
  pub lists-l_pop :
      (s : client.Server) (k : Text)
      → lists (client.l_pop s k).1 ≡ update (lists s) k (drop 1 (lists s k))
  pub l_len_lem :
      (s : client.Server) (k : Text) → client.l_len s k ≡ Reply.value (length (lists s k))
  pub l_range_lem :
      (s : client.Server) (k : Text) (start stop : ℤ)
      → client.l_range s k start stop ≡ Reply.value (range start stop (lists s k))
  pub l_trim_lem :
      (s : client.Server) (k : Text) (start stop : ℤ)
      → (client.l_trim s k start stop).0 ≡ Reply.value tt
  pub lists-l_trim :
      (s : client.Server) (k : Text) (start stop : ℤ)
      → lists (client.l_trim s k start stop).1 ≡ update (lists s) k (range start stop (lists s k))
  pub del_lem : (s : client.Server) (k : Text) → (client.del s k).0 ≡ Reply.value tt
  pub lists-del : (s : client.Server) (k : Text) → lists (client.del s k).1 ≡ update (lists s) k []
