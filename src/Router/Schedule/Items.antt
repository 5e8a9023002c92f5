-- ===== src/Router/Schedule/Items.antt =====
-- GetOption and Schedule: an option that is offered can be taken, and nothing else is touched.
use ttn.Base.{
  ◌≡◌, refl, ℕ, List, [], ◌∷◌, String, none, some, done, fails, arith, str_eq_iff, str_eq, Error,
  if◌then◌else◌,
}
use ttn.Base.Int.{ℤ, pos, ◌-ℤ◌, ltb_ℤ}
use ttn.Toa.{Float64}
use ttn.Router.Schedule.{
  Schedule, ScheduledItem, DownlinkMessage, after, at_once, lookup, insert, get_option,
  get_conflicts, realtime, deadline, schedule, new_length,
}

pub lookup-insert :
    (k j : String) (v : ScheduledItem) (m : List (String × ScheduledItem))
    → lookup j (insert k v m) ≡ (if str_eq k j then some v else lookup j m)
unfolding lookup insert
lookup-insert k j v [] = refl
lookup-insert k j v ((i, w) ∷ m) =
    ground (arith, str_eq_iff k j, str_eq_iff i k, str_eq_iff i j, lookup-insert k j v m)

-- The option that is offered is stored under its identifier, unscheduled, with the score that is
-- returned, and every other option stays as it was.
pub lookup-get_option :
    (s : Schedule) (now : ℤ) (id j : String) (timestamp len : ℕ)
    → let (t, (given, score)) = get_option s now id timestamp len in
      (given ≡ id)
      × (score ≡ get_conflicts s timestamp len)
      × (lookup j t.items ≡ (
          if str_eq id j
          then some (record {
            id = id;
            deadline_at = realtime s now timestamp -ℤ pos deadline;
            timestamp = timestamp;
            length = len;
            score = score;
            payload = none;
          })
          else lookup j s.items))
unfolding get_option
lookup-get_option s now id j timestamp len = (refl, refl, lookup-insert id j _ s.items)

module _ (float : Float64) where
  -- Schedule reports an identifier that it does not know, and changes nothing.
  pub schedule-not_found :
      (s : Schedule) (now : ℤ) (id : String) (m : DownlinkMessage)
      → lookup id s.items ≡ none
      → schedule float s now id m ≡ fails (Error.not_found id)
  unfolding schedule
  schedule-not_found s now id m e = rw (e, schedule)

  -- For an identifier that it knows, Schedule stores the message with its time on air in
  -- microseconds, touches no other option, and sends after the wait for the deadline, or at once if
  -- the deadline has passed.
  pub schedule-found :
      (s : Schedule) (now : ℤ) (id : String) (m : DownlinkMessage) (item : ScheduledItem) (len : ℕ)
      → lookup id s.items ≡ some item
      → new_length float item m ≡ done len
      → (t : Schedule) × (schedule float s now id m
          ≡ done (
            t,
            (if ltb_ℤ now item.deadline_at then after (item.deadline_at -ℤ now) else at_once),
          ))
        × ((j : String)
            → lookup j t.items ≡ (
                if str_eq id j
                then some (record item { payload = some m; length = len })
                else lookup j s.items))
        × (t.downlink ≡ s.downlink)
  unfolding schedule
  schedule-found s now id m item len found timed = (
    record s { items = insert id (record item { payload = some m; length = len }) s.items },
    rw (found, timed, schedule),
    (λ j. lookup-insert id j _ s.items),
    refl,
  )
