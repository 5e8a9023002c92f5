-- ===== src/Router/Schedule/Conflicts.antt =====
-- The conflicts that getConflicts counts, against the instants that the transmissions take up on the
-- gateway's 32-bit clock.
use ttn.Base.{
  ℕ, suc, ◌+◌, ◌-◌, ◌%◌, ◌^◌, ◌≤◌, ◌<◌, ◌≡◌, ◌↔◌, ◌⊎◌, inl, inr, ◌≢◌, true, false, List, [], ◌∷◌,
  none, String, arith, length,
}
use ttn.Router.Schedule.{Schedule, ScheduledItem, is_conflict, weight, conflicts_of, get_conflicts}

-- The instant `x` of the clock lies in the slot of `len` microseconds from `timestamp`.
abbrev pub Covers : ℕ → ℕ → ℕ → Type 0
Covers timestamp len x = (k : ℕ) × (k < len) × (x ≡ (timestamp + k) % 2 ^ 32)

-- Two slots take up an instant in common.
abbrev pub Shares : ℕ → ℕ → ScheduledItem → Type 0
Shares timestamp len item = (x : ℕ) × Covers timestamp len x × Covers item.timestamp item.length x

pub record IsSlot (timestamp len : ℕ) : Type 0 where
  pub in_range : timestamp < 2 ^ 32
  pub nonempty : 0 < len
  pub short : len < 2 ^ 32

abbrev pub IsItemSlot : ScheduledItem → Type 0
IsItemSlot item = IsSlot item.timestamp item.length

-- One slot begins inside the other, on the clock that has been unrolled once.
abbrev Meets : ℕ → ℕ → ScheduledItem → Type 0
Meets timestamp len item =
    ((timestamp ≤ item.timestamp) × (item.timestamp < timestamp + len))
    ⊎ ((item.timestamp ≤ timestamp) × (timestamp < item.timestamp + item.length))
    ⊎ (timestamp + 2 ^ 32 < item.timestamp + item.length)
    ⊎ (item.timestamp + 2 ^ 32 < timestamp + len)

Meets-Shares :
    (timestamp len : ℕ) (item : ScheduledItem)
    → IsSlot timestamp len
    → IsItemSlot item
    → Meets timestamp len item
    → Shares timestamp len item
Meets-Shares timestamp len item v w (inl h) = (
  item.timestamp,
  (item.timestamp - timestamp, omega arith, omega arith),
  (0, omega arith, omega arith),
)
Meets-Shares timestamp len item v w (inr (inl h)) = (
  timestamp,
  (0, omega arith, omega arith),
  (timestamp - item.timestamp, omega arith, omega arith),
)
Meets-Shares timestamp len item v w (inr (inr (inl h))) = (
  timestamp,
  (0, omega arith, omega arith),
  (timestamp + 2 ^ 32 - item.timestamp, omega arith, omega arith),
)
Meets-Shares timestamp len item v w (inr (inr (inr h))) = (
  item.timestamp,
  (item.timestamp + 2 ^ 32 - timestamp, omega arith, omega arith),
  (0, omega arith, omega arith),
)

is_conflict-Meets :
    (timestamp len : ℕ) (item : ScheduledItem)
    → IsSlot timestamp len
    → IsItemSlot item
    → is_conflict timestamp len item ≡ true
    → Meets timestamp len item
unfolding is_conflict
is_conflict-Meets timestamp len item v w e = ground arith

-- Every conflict that is counted is real: the two slots share an instant of the clock.
pub is_conflict_sound :
    (timestamp len : ℕ) (item : ScheduledItem)
    → IsSlot timestamp len
    → IsItemSlot item
    → is_conflict timestamp len item ≡ true
    → Shares timestamp len item
is_conflict_sound timestamp len item v w e =
    Meets-Shares timestamp len item v w (is_conflict-Meets timestamp len item v w e)

-- While neither slot passes the end of the clock, every shared instant is counted.
pub is_conflict_complete :
    (timestamp len : ℕ) (item : ScheduledItem)
    → IsSlot timestamp len
    → IsItemSlot item
    → timestamp + len ≤ 2 ^ 32
    → item.timestamp + item.length ≤ 2 ^ 32
    → Shares timestamp len item
    → is_conflict timestamp len item ≡ true
unfolding is_conflict
is_conflict_complete timestamp len item v w a b (x, (k, hk, ek), (j, hj, ej)) = ground arith

-- A slot that passes the end of the clock is not counted against a later one, though they overlap.
pub is_conflict_misses :
    (timestamp len : ℕ) (item : ScheduledItem)
    → IsSlot timestamp len
    → IsItemSlot item
    → 2 ^ 32 < item.timestamp + item.length
    → item.timestamp + item.length ≤ timestamp + 2 ^ 32
    → item.timestamp ≤ timestamp
    → timestamp + len ≤ 2 ^ 32
    → Shares timestamp len item × (is_conflict timestamp len item ≡ false)
unfolding is_conflict
is_conflict_misses timestamp len item v w a b c d =
    (Meets-Shares timestamp len item v w (inr (inl (omega arith))), ground arith)

-- An item that counts and that has its message already.
abbrev Blocks : ℕ → ℕ → ScheduledItem → Type 0
Blocks timestamp len item = (is_conflict timestamp len item ≡ true) × (item.payload ≢ none)

abbrev pub AnyBlocks : ℕ → ℕ → List (String × ScheduledItem) → Type 0
AnyBlocks timestamp len [] = ⊥
AnyBlocks timestamp len ((_, item) ∷ m) = Blocks timestamp len item ⊎ AnyBlocks timestamp len m

conflicts_of-AnyBlocks :
    (timestamp len : ℕ) (m : List (String × ScheduledItem)) (n : ℕ)
    → n + length m < 100
    → 100 ≤ n + conflicts_of timestamp len m
    → AnyBlocks timestamp len m
unfolding conflicts_of weight
conflicts_of-AnyBlocks timestamp len [] n h k = absurd (omega arith)
conflicts_of-AnyBlocks timestamp len ((_, item) ∷ m) n h k = ground (
  arith,
  conflicts_of-AnyBlocks timestamp len m n,
  conflicts_of-AnyBlocks timestamp len m (suc n),
)

AnyBlocks-conflicts_of :
    (timestamp len : ℕ) (m : List (String × ScheduledItem))
    → AnyBlocks timestamp len m
    → 100 ≤ conflicts_of timestamp len m
unfolding conflicts_of weight
AnyBlocks-conflicts_of timestamp len [] b = absurd b
AnyBlocks-conflicts_of timestamp len ((_, item) ∷ m) b =
    ground (arith, AnyBlocks-conflicts_of timestamp len m)

-- With fewer than a hundred items, a score of a hundred says exactly that a message is already
-- scheduled in a slot that conflicts.
pub get_conflicts_iff :
    (s : Schedule) (timestamp len : ℕ)
    → length s.items < 100
    → (100 ≤ get_conflicts s timestamp len) ↔ AnyBlocks timestamp len s.items
unfolding get_conflicts
get_conflicts_iff s timestamp len h = (
  (λ k. conflicts_of-AnyBlocks timestamp len s.items 0 (omega arith) (omega arith)),
  AnyBlocks-conflicts_of timestamp len s.items,
)
