-- ===== src/Storage/Redis.antt =====
-- core/storage/redis_store.go: the client of package redis, which is a parameter, and the keys with
-- their prefix. Keys and values are lists of codes.
pub mod Laws
pub mod Example
use ttn.Base.{
  ℕ, Bool, true, false, List, ◌++◌, Option, none, some, Result, ok, err, Error, strip_prefix,
  if◌then◌else◌,
}
use ttn.Base.Int.{ℤ}

abbrev pub Text : Type 0
Text = List ℕ

-- The answer to a command. redis.Nil is an error of its own kind, which the stores test for.
pub data Reply (A : Type 0) : Type 0 where
  value : A → Reply A
  nil : Reply A
  fails : Error → Reply A

-- The commands of the client that the stores call. A server is what the commands change.
pub record Client : Type 1 where
  pub Server : Type 0
  pub l_push : Server → Text → List Text → Reply (Unit {0}) × Server
  pub r_push : Server → Text → List Text → Reply (Unit {0}) × Server
  pub l_pop : Server → Text → Reply Text × Server
  pub l_len : Server → Text → Reply ℕ
  pub l_range : Server → Text → ℤ → ℤ → Reply (List Text)
  pub l_trim : Server → Text → ℤ → ℤ → Reply (Unit {0}) × Server
  pub del : Server → Text → Reply (Unit {0}) × Server

-- strings.HasPrefix.
unfoldable pub has_prefix : Text → Text → Bool
has_prefix prefix key = elim (strip_prefix prefix key) [ none ↦ false | some _ ↦ true ]

-- The key of an operation: the prefix is put in front where it is not there.
unfoldable pub full_key : Text → Text → Text
unfolding has_prefix
full_key prefix key = if has_prefix prefix key then key else prefix ++ key

-- The error of an answer, redis.Nil being one.
abbrev pub redis_nil : Error
redis_nil = Error.other "redis: nil"

abbrev pub as_error {ℓ} : {A : Type 0} {B : Type ℓ} → Reply A → (A → B) → Result B
as_error (Reply.value a) f = ok (f a)
as_error Reply.nil f = err redis_nil
as_error (Reply.fails e) f = err e

-- Delete.
unfoldable pub delete :
    (client : Client) → Text → client.Server → Text → Result (Unit {0}) × client.Server
unfolding full_key
delete client prefix server key =
    let (reply, after) = client.del server (full_key prefix key) in (as_error reply (λ u. u), after)
