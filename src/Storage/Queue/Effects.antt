-- ===== src/Storage/Queue/Effects.antt =====
-- What each operation answers on a Redis that answers, and what it leaves.
use ttn.Base.{
  ℕ, zero, suc, ◌+◌, ◌-◌, ◌≡◌, refl, ap, ap₂, ◌∙◌, List, [], ◌∷◌, ◌++◌, Result, ok, arith, length,
  take, drop, reverse, take_all,
}
use ttn.Base.Int.{ℤ, pos, negsuc, ◌-ℤ◌, pos_part, neg_part, eq_of_parts, -ℤ_parts}
use ttn.Storage.Redis.{Text, Client, full_key, delete}
use ttn.Storage.Redis.Laws.{Lists, update, range, first_of, IsRedis}
use ttn.Storage.Queue.{
  or_empty, get, queue_length, add_front, get_front, add_end, get_end, next, trim,
}

-- The abstract queue. A length of 0 means the whole queue, and a negative one leaves elements out at
-- the other end.
abbrev pub front : ℤ → List Text → List Text
front (pos zero) q = q
front (pos (suc n)) q = take (suc n) q
front (negsuc n) q = take (length q - suc n) q

abbrev pub back : ℤ → List Text → List Text
back (pos zero) q = q
back (pos (suc n)) q = drop (length q - suc n) q
back (negsuc n) q = drop (suc n) q

abbrev pub first : List Text → Text
first [] = []
first (x ∷ xs) = x

sub_pos : (a b : ℕ) (c : ℤ) → a + neg_part c ≡ pos_part c + b → pos a -ℤ pos b ≡ c
sub_pos a b c h = eq_of_parts (pos a -ℤ pos b) c (omega (arith, -ℤ_parts (pos a) (pos b)))

range_all : (xs : List Text) → range (pos 0) (negsuc 0) xs ≡ xs
range_all xs = ap (λ n. take n xs) (omega arith) ∙ take_all xs

range-front : (n : ℤ) (xs : List Text) → range (pos 0) (n -ℤ pos 1) xs ≡ front n xs
range-front (pos zero) xs = rw (sub_pos 0 1 (negsuc 0) (omega arith)) (range_all xs)
range-front (pos (suc n)) xs =
    rw (sub_pos (suc n) 1 (pos n) (omega arith))
      (ap (λ k. take k xs) {x = n + 1} {y = suc n} (omega arith))
range-front (negsuc n) xs =
    rw
      (eq_of_parts (negsuc n -ℤ pos 1) (negsuc (suc n))
        (omega (arith, -ℤ_parts (negsuc n) (pos 1))))
      refl

range-back : (n : ℤ) (xs : List Text) → range (pos 0 -ℤ n) (negsuc 0) xs ≡ back n xs
range-back (pos zero) xs = rw (sub_pos 0 0 (pos 0) (omega arith)) (range_all xs)
range-back (pos (suc n)) xs =
    rw (sub_pos 0 (suc n) (negsuc n) (omega arith)) (ap₂ drop (omega arith) (range_all xs))
range-back (negsuc n) xs =
    rw (eq_of_parts (pos 0 -ℤ negsuc n) (pos (suc n)) (omega (arith, -ℤ_parts (pos 0) (negsuc n))))
      (ap (drop (suc n)) (range_all xs))

pop_first : (xs : List Text) → or_empty [] (first_of xs) ≡ ok (first xs)
unfolding or_empty
pop_first [] = refl
pop_first (x ∷ xs) = refl

module _ (client : Client) (redis : IsRedis client) where
  -- An operation that answers `a` and leaves the lists `after`.
  abbrev pub Gives : {A : Type 0} → Result A × client.Server → A → Lists → Type 0
  Gives (r, t) a after = (r ≡ ok a) × (redis.lists t ≡ after)

module _ (client : Client) (redis : IsRedis client) (prefix : Text) (s : client.Server)
    (key : Text) where
  abbrev k : Text
  k = full_key prefix key

  pub add_front_lem :
      (v : Text) (vs : List Text)
      → Gives client redis (add_front client prefix s key (v ∷ vs)) tt (
          update
            (redis.lists s)
            (full_key prefix key)
            (reverse (v ∷ vs) ++ redis.lists s (full_key prefix key)))
  unfolding add_front
  add_front_lem v vs = (rw (redis.l_push_lem s k v vs) refl, redis.lists-l_push s k v vs)

  pub add_end_lem :
      (v : Text) (vs : List Text)
      → Gives client redis (add_end client prefix s key (v ∷ vs)) tt (
          update
            (redis.lists s)
            (full_key prefix key)
            (redis.lists s (full_key prefix key) ++ (v ∷ vs)))
  unfolding add_end
  add_end_lem v vs = (rw (redis.r_push_lem s k v vs) refl, redis.lists-r_push s k v vs)

  pub next_lem :
      Gives client redis (next client prefix s key) (first (redis.lists s (full_key prefix key))) (
        update (redis.lists s) (full_key prefix key) (drop 1 (redis.lists s (full_key prefix key))))
  unfolding next
  next_lem = (rw (redis.l_pop_lem s k) (pop_first (redis.lists s k)), redis.lists-l_pop s k)

  pub delete_lem :
      Gives client redis
        (delete client prefix s key)
        tt
        (update (redis.lists s) (full_key prefix key) [])
  unfolding delete
  delete_lem = (rw (redis.del_lem s k) refl, redis.lists-del s k)

  pub get_lem : get client prefix s key ≡ ok (redis.lists s (full_key prefix key))
  unfolding get or_empty
  get_lem = rw (redis.l_range_lem s k (pos 0) (negsuc 0)) (ap ok (range_all (redis.lists s k)))

  pub queue_length_lem :
      queue_length client prefix s key ≡ ok (length (redis.lists s (full_key prefix key)))
  unfolding queue_length or_empty
  queue_length_lem = rw (redis.l_len_lem s k) refl

  pub trim_lem :
      (n : ℤ)
      → Gives client redis (trim client prefix s key n) tt (
          update
            (redis.lists s)
            (full_key prefix key)
            (front n (redis.lists s (full_key prefix key))))
  unfolding trim or_empty
  trim_lem n = (
    rw (redis.l_trim_lem s k (pos 0) (n -ℤ pos 1)) refl,
    redis.lists-l_trim s k (pos 0) (n -ℤ pos 1)
        ∙ ap (update (redis.lists s) k) (range-front n (redis.lists s k)),
  )

  pub get_front_lem :
      (n : ℤ) → get_front client prefix s key n ≡ ok (front n (redis.lists s (full_key prefix key)))
  unfolding get_front or_empty
  get_front_lem n =
      rw (redis.l_range_lem s k (pos 0) (n -ℤ pos 1)) (ap ok (range-front n (redis.lists s k)))

  pub get_end_lem :
      (n : ℤ) → get_end client prefix s key n ≡ ok (back n (redis.lists s (full_key prefix key)))
  unfolding get_end or_empty
  get_end_lem n =
      rw (redis.l_range_lem s k (pos 0 -ℤ n) (negsuc 0)) (ap ok (range-back n (redis.lists s k)))
