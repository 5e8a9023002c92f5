-- ===== src/Router/Schedule.antt =====
-- core/router/gateway/schedule.go: the transmission schedule of a gateway.
-- Times are nanoseconds since the epoch, timestamps microseconds of the gateway's 32-bit counter;
-- `now` is what time.Now() gives. A call holds the schedule's lock from its first access to its last,
-- so calls follow one another; the delayed sends of Schedule are calls of their own.
pub mod Conflicts
pub mod Clock
pub mod Items
pub mod Subscriptions
mod Tests
use ttn.Base.{
  ℕ, zero, suc, ◌+◌, ◌-◌, ◌*◌, ◌/◌, ◌%◌, ◌^◌, Bool, true, false, not, ◌||◌, List, [], ◌∷◌, Option,
  none, some, String, Result, ok, err, Error, Outcome, done, fails, panics, blocks, ltb, leb, ◌==◌,
  str_eq, if◌then◌else◌, length,
}
use ttn.Base.Int.{ℤ, pos, ◌+ℤ◌, ◌-ℤ◌, ltb_ℤ}
use ttn.Toa.{Float64, compute_lora, compute_fsk}

pub data Modulation : Type 0 where
  lora fsk : Modulation

pub record TxConfiguration : Type 0 where
  pub modulation : Modulation
  pub data_rate : List ℕ
  pub bit_rate : ℕ
  pub coding_rate : String

-- The message for the gateway: its payload, and its LoRaWAN configuration if it has one.
pub record DownlinkMessage : Type 0 where
  pub payload : List ℕ
  pub lorawan : Option TxConfiguration

pub record ScheduledItem : Type 0 where
  pub id : String
  pub deadline_at : ℤ
  pub timestamp : ℕ
  pub length : ℕ
  pub score : ℕ
  pub payload : Option DownlinkMessage

-- `downlink` says whether the channel is open, `subscriptions_locked` whether the lock of the
-- subscriptions is held by a call that has returned.
pub record Schedule : Type 0 where
  pub offset : ℤ
  pub items : List (String × ScheduledItem)
  pub downlink : Bool
  pub subscriptions_locked : Bool
  pub downlink_subscriptions : List String

pub new_schedule : Schedule
new_schedule = record {
  offset = pos 0;
  items = [];
  downlink = false;
  subscriptions_locked = false;
  downlink_subscriptions = [];
}

abbrev pub deadline : ℕ
deadline = 800_000_000

abbrev pub uint_max : ℕ
uint_max = 2 ^ 32

-- Subtraction of uint64 values.
abbrev sub64 : ℕ → ℕ → ℕ
sub64 a b = (a + 2 ^ 64 - b) % 2 ^ 64

-- The test of the loop of getConflicts for one item: `true` where the item is counted.
pub is_conflict : ℕ → ℕ → ScheduledItem → Bool
is_conflict timestamp len item =
    let scheduled_from = item.timestamp % uint_max in
    let scheduled_to = scheduled_from + item.length in
    let to = timestamp + len in
    if ltb uint_max scheduled_to || ltb uint_max to
    then not (leb (sub64 scheduled_to uint_max) timestamp || leb (sub64 to uint_max) scheduled_from)
    else not (leb scheduled_to timestamp || leb to scheduled_from)

-- What an item that is counted adds.
pub weight : ScheduledItem → ℕ
weight item = elim item.payload [ none ↦ 1 | some _ ↦ 100 ]

-- The sum is far below the range of uint.
pub conflicts_of : ℕ → ℕ → List (String × ScheduledItem) → ℕ
conflicts_of timestamp len [] = 0
conflicts_of timestamp len ((_, item) ∷ items) =
    (if is_conflict timestamp len item then weight item else 0) + conflicts_of timestamp len items

pub get_conflicts : Schedule → ℕ → ℕ → ℕ
get_conflicts s timestamp len = conflicts_of timestamp len s.items

pub realtime : Schedule → ℤ → ℕ → ℤ
realtime s now timestamp =
    let t = pos (timestamp * 1000) +ℤ s.offset in
    if ltb_ℤ t now then t +ℤ pos (2 ^ 32 * 1000) else t

pub sync : Schedule → ℤ → ℕ → Schedule
sync s now timestamp = record s { offset = now -ℤ pos (timestamp * 1000) }

-- The map of the items: the value of a key, a write, and a removal.
pub lookup : String → List (String × ScheduledItem) → Option ScheduledItem
lookup id [] = none
lookup id ((k, item) ∷ m) = if str_eq k id then some item else lookup id m

pub insert : String → ScheduledItem → List (String × ScheduledItem) → List (String × ScheduledItem)
insert id item [] = (id, item) ∷ []
insert id item ((k, old) ∷ m) = if str_eq k id then (k, item) ∷ m else (k, old) ∷ insert id item m

-- The identifier is the random string that the call draws.
pub get_option : Schedule → ℤ → String → ℕ → ℕ → Schedule × (String × ℕ)
get_option s now id timestamp len =
    let score = get_conflicts s timestamp len in
    let item : ScheduledItem = record {
      id = id;
      deadline_at = realtime s now timestamp -ℤ pos deadline;
      timestamp = timestamp;
      length = len;
      score = score;
      payload = none;
    } in
    (record s { items = insert id item s.items }, (id, score))

-- The cleaning round: what is more than two seconds past its deadline goes.
pub clean : ℤ → List (String × ScheduledItem) → List (String × ScheduledItem)
clean now [] = []
clean now ((k, item) ∷ m) =
    let rest = clean now m in
    if ltb_ℤ (item.deadline_at +ℤ pos 2_000_000_000) now then rest else (k, item) ∷ rest

pub cleanup : Schedule → ℤ → Schedule
cleanup s now = record s { items = clean now s.items }

-- When the goroutine of a scheduled item runs: after a wait, or at once.
pub data Send : Type 0 where
  after : ℤ → Send
  at_once : Send

module _ (float : Float64) where
  -- The time on air of the message, where it has a LoRaWAN configuration; an error gives zero.
  airtime : DownlinkMessage → TxConfiguration → Outcome ℕ
  airtime message lorawan = elim lorawan.modulation [
    | lora ↦
        elim (compute_lora float (length message.payload) lorawan.data_rate lorawan.coding_rate) [
          | ok t ↦ done t
          | err _ ↦ done 0
        ]
    | fsk ↦ compute_fsk (length message.payload) lorawan.bit_rate
  ]

  pub new_length : ScheduledItem → DownlinkMessage → Outcome ℕ
  new_length item message = elim message.lorawan [
    | none ↦ done item.length
    | some lorawan ↦ elim (airtime message lorawan) [
      | done t ↦ done (t / 1000 % 2 ^ 32)
      | fails e ↦ fails e
      | panics ↦ panics
      | blocks ↦ blocks
    ]
  ]

  pub schedule : Schedule → ℤ → String → DownlinkMessage → Outcome (Schedule × Send)
  schedule s now id message = elim (lookup id s.items) [
    | none ↦ fails (Error.not_found id)
    | some item ↦ elim (new_length item message) [
      | done len ↦
          let item' : ScheduledItem = record item { payload = some message; length = len } in
          done (
            record s { items = insert id item' s.items },
            (if ltb_ℤ now item.deadline_at then after (item.deadline_at -ℤ now) else at_once),
          )
      | fails e ↦ fails e
      | panics ↦ panics
      | blocks ↦ blocks
    ]
  ]

-- The goroutine of an item that waited for its deadline: the message that goes to the channel.
pub send_waited : Schedule → ScheduledItem → Option DownlinkMessage
send_waited s item = if s.downlink then item.payload else none

-- The goroutine of an item whose deadline had passed.
pub send_overdue : Schedule → ℤ → ScheduledItem → Option DownlinkMessage
send_overdue s now item =
    if s.downlink
    then (if ltb_ℤ (now -ℤ item.deadline_at) (pos deadline) then item.payload else none)
    else none

pub contains : String → List String → Bool
contains id [] = false
contains id (k ∷ ks) = str_eq k id || contains id ks

pub delete : String → List String → List String
delete id [] = []
delete id (k ∷ ks) = if str_eq k id then ks else k ∷ delete id ks

-- Stop: close of a nil channel panics, and the lock may be held for ever.
pub stop : Schedule → String → Outcome Schedule
stop s subscription =
    if s.subscriptions_locked
    then blocks
    else let rest = delete subscription s.downlink_subscriptions in
      elim rest [
        | [] ↦
            if s.downlink
            then done (record s { downlink_subscriptions = []; downlink = false })
            else panics
        | k ∷ ks ↦ done (record s { downlink_subscriptions = k ∷ ks })
      ]

-- Subscribe: `false` stands for the nil that the call returns for a subscription that exists. On
-- that path the lock of the subscriptions is not released.
pub subscribe : Schedule → String → Outcome (Schedule × Bool)
subscribe s subscription =
    if s.subscriptions_locked
    then blocks
    else if contains subscription s.downlink_subscriptions
    then done (record s { downlink = true; subscriptions_locked = true }, false)
    else done (
      record s {
        downlink = true;
        downlink_subscriptions = subscription ∷ s.downlink_subscriptions;
      },
      true,
    )

pub is_active : Schedule → Bool
is_active s = s.downlink
