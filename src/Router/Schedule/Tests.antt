-- ===== src/Router/Schedule/Tests.antt =====
-- A concrete schedule.
use ttn.Base.{ℕ, ◌^◌, ◌<◌, ◌≡◌, refl, true, false, [], ◌∷◌, none, arith}
use ttn.Base.Int.{pos}
use ttn.Router.Schedule.{Schedule, ScheduledItem, new_schedule, is_conflict}
use ttn.Router.Schedule.Conflicts.{IsSlot, Shares, is_conflict_sound, is_conflict_complete}
use ttn.Router.Schedule.Subscriptions.{IsConsistent}

abbrev item : ℕ → ScheduledItem
item timestamp = record {
  id = "a";
  deadline_at = pos 0;
  timestamp = timestamp;
  length = 50;
  score = 0;
  payload = none;
}

slot : (t : ℕ) → t < 2 ^ 32 → IsSlot t 50
slot t h = record { in_range = h; nonempty = omega arith; short = omega arith }

is_conflict_sound_example : Shares 120 50 (item 100)
unfolding is_conflict
is_conflict_sound_example =
    is_conflict_sound 120 50 (item 100) (slot 120 (omega arith)) (slot 100 (omega arith)) refl

is_conflict_complete_example : is_conflict 120 50 (item 100) ≡ true
is_conflict_complete_example =
    is_conflict_complete 120 50 (item 100) (slot 120 (omega arith)) (slot 100 (omega arith))
      (omega arith) (omega arith)
      (130, (10, omega arith, omega arith), (30, omega arith, omega arith))

abbrev scheduled : Schedule
scheduled = record {
  offset = pos 0;
  items = ("a", item 100) ∷ [];
  downlink = true;
  subscriptions_locked = false;
  downlink_subscriptions = "x" ∷ [];
}

scheduled-IsConsistent : IsConsistent scheduled
scheduled-IsConsistent = record { free = refl; open_iff = refl }

new_schedule-IsConsistent : IsConsistent new_schedule
unfolding new_schedule
new_schedule-IsConsistent = record { free = refl; open_iff = refl }
