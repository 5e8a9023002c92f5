-- ===== src/Broker/Deduplicator.antt =====
-- core/broker/deduplicator.go: the duplicates of a message, collected for the call that came first.
-- A collection lives on a heap under its address, since the map, the waiting call and the timer share
-- it. Each access holds a lock, so the accesses of all goroutines follow one another: a run is a list
-- of events.
pub mod Invariant
pub mod Account
mod Tests
use ttn.Base.{
  ℕ, zero, suc, ◌+◌, Bool, true, false, ◌&&◌, List, [], ◌∷◌, ◌++◌, Option, none, some, String, ltb,
  ◌==◌, str_eq, if◌then◌else◌,
}

-- The goroutine of a collection: before its first wait is over, before its second, and after.
pub data Timer : Type 0 where
  running half finished : Timer

-- `ready` is the channel with room for one value; `waiting` says that the first call has not returned.
pub record Collection (A : Type 0) : Type 0 where
  pub key : String
  pub values : List A
  pub ready : Bool
  pub waiting : Bool
  pub timer : Timer

pub record Deduplicator (A : Type 0) : Type 0 where
  pub collections : String → Option ℕ
  pub heap : ℕ → Collection A
  pub next : ℕ

pub data Event (A : Type 0) : Type 0 where
  -- Deduplicate is called
  call : String → A → Event A
  -- the first and the second wait of the goroutine of a collection are over
  first_timeout second_timeout : ℕ → Event A
  -- the waiting call is woken, and returns
  wake : ℕ → Event A

abbrev is_running : Timer → Bool
is_running Timer.running = true
is_running _ = false

abbrev is_half : Timer → Bool
is_half Timer.half = true
is_half _ = false

module _ {A : Type 0} where
  write : ℕ → Collection A → (ℕ → Collection A) → ℕ → Collection A
  write a c heap b = if a == b then c else heap b

  -- Add of a collection.
  add_value : Collection A → A → Collection A
  add_value c v = record c { values = c.values ++ v ∷ [] }

  -- add: the address of the collection, and whether the call is the first for its key.
  pub add : Deduplicator A → String → A → Deduplicator A × (ℕ × Bool)
  unfolding write add_value
  add d key v = elim (d.collections key) [
    | some a ↦ (record d { heap = write a (add_value (d.heap a) v) d.heap }, (a, false))
    | none ↦
        let c : Collection A = record {
          key = key;
          values = v ∷ [];
          ready = false;
          waiting = true;
          timer = Timer.running;
        } in
        (
          record {
            collections = λ k. if str_eq k key then some d.next else d.collections k;
            heap = write d.next c d.heap;
            next = suc d.next;
          },
          (d.next, true),
        )
  ]

  -- One event; an event that cannot happen changes nothing.
  pub step : Deduplicator A → Event A → Deduplicator A
  unfolding write
  step d (call key v) = (add d key v).0
  step d (first_timeout a) =
      if ltb a d.next && is_running (d.heap a).timer
      then record d {
        heap = write a (record (d.heap a) { ready = true; timer = Timer.half }) d.heap;
      }
      else d
  step d (second_timeout a) =
      if ltb a d.next && is_half (d.heap a).timer
      then record d {
        heap = write a (record (d.heap a) { timer = Timer.finished }) d.heap;
        collections = λ k. if str_eq k (d.heap a).key then none else d.collections k;
      }
      else d
  step d (wake a) =
      if ltb a d.next && ((d.heap a).ready && (d.heap a).waiting)
      then record d {
        heap = write a (record (d.heap a) { ready = false; waiting = false; values = [] }) d.heap;
      }
      else d

  -- What a call returns at an event: the first call its collection when it is woken, and every other
  -- call nothing at all.
  pub returned : Deduplicator A → Event A → Option (List A)
  returned d (call key v) = if (add d key v).1.1 then none else some []
  returned d (wake a) =
      if ltb a d.next && ((d.heap a).ready && (d.heap a).waiting)
      then some (d.heap a).values
      else none
  returned d e = none
