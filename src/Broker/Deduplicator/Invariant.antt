-- ===== src/Broker/Deduplicator/Invariant.antt =====
-- The deduplicator over any run: one collection to a key, and no value returned twice.
use ttn.Base.{
  ℕ, ◌<◌, ◌≡◌, ◌≢◌, inl, inr, true, List, [], ◌∷◌, ◌++◌, some, String, arith, str_eq_iff,
  Option-cases,
}
use ttn.Broker.Deduplicator.{
  Timer, Deduplicator, Event, call, first_timeout, second_timeout, wake, add, step,
}

append-ne-nil : {A : Type 0} (xs : List A) (a : A) → xs ++ a ∷ [] ≢ []
append-ne-nil [] a e = cc
append-ne-nil (x ∷ xs) a e = cc

module _ {A : Type 0} where
  -- The map holds exactly the collections whose goroutine is not finished, each under its key; a call
  -- that waits has something to return.
  pub record IsSound (d : Deduplicator A) : Type 0 where
    pub in_map :
        (k : String) (a : ℕ)
        → d.collections k ≡ some a
        → (a < d.next) × ((d.heap a).key ≡ k) × ((d.heap a).timer ≢ Timer.finished)
    pub on_heap :
        (a : ℕ)
        → a < d.next
        → (d.heap a).timer ≢ Timer.finished
        → d.collections (d.heap a).key ≡ some a
    pub nonempty : (a : ℕ) → a < d.next → (d.heap a).waiting ≡ true → (d.heap a).values ≢ []

  -- Every event keeps the deduplicator sound.
  pub step-IsSound : (d : Deduplicator A) (e : Event A) → IsSound d → IsSound (step d e)
  unfolding step add
  step-IsSound d (call key v) s = elim (Option-cases (d.collections key)) [
    | inl new ↦ record {
      in_map = λ k b. ground (arith, new, s.in_map k b, str_eq_iff k key);
      on_heap =
          λ b. ground (arith, new, s.on_heap b, str_eq_iff (d.heap b).key key, str_eq_iff key key);
      nonempty = λ b. ground (arith, new, s.nonempty b);
    }
    | inr (a, known) ↦ record {
      in_map = λ k b. ground (arith, known, s.in_map k b);
      on_heap = λ b. ground (arith, known, s.on_heap b);
      nonempty = λ b. ground (arith, known, s.nonempty b, append-ne-nil (d.heap a).values v);
    }
  ]
  step-IsSound d (first_timeout a) s = record {
    in_map = λ k b. ground (arith, s.in_map k b);
    on_heap = λ b. ground (arith, s.on_heap b);
    nonempty = λ b. ground (arith, s.nonempty b);
  }
  step-IsSound d (second_timeout a) s = record {
    in_map = λ k b. ground (arith, s.in_map k b, str_eq_iff k (d.heap a).key);
    on_heap =
        λ b. ground (arith, s.on_heap b, s.on_heap a, str_eq_iff (d.heap b).key (d.heap a).key);
    nonempty = λ b. ground (arith, s.nonempty b);
  }
  step-IsSound d (wake a) s = record {
    in_map = λ k b. ground (arith, s.in_map k b);
    on_heap = λ b. ground (arith, s.on_heap b);
    nonempty = λ b. ground (arith, s.nonempty b);
  }

  -- A call is the first for its key exactly when the map has no collection for it; two collections in
  -- the map never share a key, so at most one call collects the duplicates of a message.
  pub in_map_unique :
      (d : Deduplicator A) (a b : ℕ)
      → IsSound d
      → a < d.next
      → b < d.next
      → (d.heap a).timer ≢ Timer.finished
      → (d.heap b).timer ≢ Timer.finished
      → (d.heap a).key ≡ (d.heap b).key
      → a ≡ b
  in_map_unique d a b s ha hb ra rb e = ground (arith, s.on_heap a, s.on_heap b)
