-- ===== src/Broker/Deduplicator/Account.antt =====
-- The values that the calls bring to a collection, against those that its first call returns.
use ttn.Base.{
  ℕ, ◌+◌, ◌≤◌, ◌<◌, ◌≡◌, true, false, List, [], ◌∷◌, ◌++◌, Option, none, some, ◌==◌, if◌then◌else◌,
}
use ttn.Broker.Deduplicator.{Collection, Deduplicator, Event, call, wake, add, step, returned}
use ttn.Broker.Deduplicator.Invariant.{IsSound}

-- A run so far: the state, and for each collection what was given to it, what was returned of it, and
-- how often its first call has returned.
pub record Trace (A : Type 0) : Type 0 where
  pub state : Deduplicator A
  pub given : ℕ → List A
  pub out : ℕ → List A
  pub returns : ℕ → ℕ

module _ {A : Type 0} where
  -- No collection, and no call.
  pub empty : Collection A → Deduplicator A
  empty blank = record { collections = λ _. none; heap = λ _. blank; next = 0 }

  or_nothing : Option (List A) → List A
  or_nothing none = []
  or_nothing (some r) = r

  count_of : Option (List A) → ℕ
  count_of none = 0
  count_of (some r) = 1

  -- The books are kept from the calls and the returns alone.
  pub trace_step : Trace A → Event A → Trace A
  unfolding or_nothing count_of
  trace_step t (call key v) = record t {
    state = step t.state (call key v);
    given = λ a. if (add t.state key v).1.0 == a then t.given a ++ v ∷ [] else t.given a;
  }
  trace_step t (wake a) = record t {
    state = step t.state (wake a);
    out = λ b. if a == b then t.out b ++ or_nothing (returned t.state (wake a)) else t.out b;
    returns =
        λ b. if a == b then t.returns b + count_of (returned t.state (wake a)) else t.returns b;
  }
  trace_step t e = record t { state = step t.state e }

  pub run : Trace A → List (Event A) → Trace A
  run t [] = t
  run t (e ∷ es) = run (trace_step t e) es

  pub start : Collection A → Trace A
  unfolding empty
  start blank = record { state = empty blank; given = λ _. []; out = λ _. []; returns = λ _. 0 }

  -- After the first call of a collection has returned, nothing more is returned of it.
  abbrev pub IsFrozen : Trace A → Type 0
  IsFrozen t =
      (a : ℕ) (more : List (Event A))
      → a < t.state.next
      → (t.state.heap a).waiting ≡ false
      → ((run t more).out a ≡ t.out a) × ((run t more).returns a ≡ 1)

  -- What was given to a collection is what was returned of it, followed by what it still holds, and
  -- nothing was returned while its call waits.
  pub record IsAccounted (t : Trace A) : Type 0 where
    pub sound : IsSound t.state
    pub balance : (a : ℕ) → a < t.state.next → t.given a ≡ t.out a ++ (t.state.heap a).values
    pub fresh : (a : ℕ) → t.state.next ≤ a → (t.given a ≡ []) × (t.out a ≡ [])
    pub once : (a : ℕ) → a < t.state.next → (t.state.heap a).waiting ≡ true → t.out a ≡ []
    pub none_before : (a : ℕ) → t.state.next ≤ a → t.returns a ≡ 0
    pub none_yet : (a : ℕ) → a < t.state.next → (t.state.heap a).waiting ≡ true → t.returns a ≡ 0
    pub one_then : (a : ℕ) → a < t.state.next → (t.state.heap a).waiting ≡ false → t.returns a ≡ 1

  -- A collection that is there, and whose first call has returned.
  abbrev IsClosed : Trace A → ℕ → Type 0
  IsClosed t a = (a < t.state.next) × ((t.state.heap a).waiting ≡ false)
