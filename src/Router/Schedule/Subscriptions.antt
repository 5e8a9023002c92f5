-- ===== src/Router/Schedule/Subscriptions.antt =====
-- Subscribe and Stop: the subscriptions against the channel, and the two ways in which they fail.
use ttn.Base.{◌≡◌, refl, Bool, true, false, List, [], ◌∷◌, String, done, panics, blocks, arith}
use ttn.Router.Schedule.{Schedule, contains, delete, stop, subscribe, is_active}

abbrev some_left : List String → Bool
some_left [] = false
some_left (_ ∷ _) = true

-- The lock is free, and the channel is open exactly while somebody is subscribed.
pub record IsConsistent (s : Schedule) : Type 0 where
  pub free : s.subscriptions_locked ≡ false
  pub open_iff : s.downlink ≡ some_left s.downlink_subscriptions

-- A subscription of a new identifier succeeds, activates the schedule and keeps it consistent.
pub subscribe-IsConsistent :
    (s : Schedule) (id : String)
    → IsConsistent s
    → contains id s.downlink_subscriptions ≡ false
    → (t : Schedule) × (subscribe s id ≡ done (t, true))
      × IsConsistent t
      × (is_active t ≡ true)
      × (t.downlink_subscriptions ≡ id ∷ s.downlink_subscriptions)
      × (t.items ≡ s.items)
unfolding subscribe is_active
subscribe-IsConsistent s id v fresh = (
  record s { downlink = true; downlink_subscriptions = id ∷ s.downlink_subscriptions },
  ground arith,
  record { free = v.free; open_iff = refl },
  refl,
  refl,
  refl,
)

-- Stop on an active, consistent schedule succeeds, removes the identifier, and keeps it consistent:
-- the channel is closed with the last subscription.
pub stop-IsConsistent :
    (s : Schedule) (id : String)
    → IsConsistent s
    → is_active s ≡ true
    → (t : Schedule) × (stop s id ≡ done t)
      × IsConsistent t
      × (t.downlink_subscriptions ≡ delete id s.downlink_subscriptions)
      × (t.items ≡ s.items)
unfolding stop is_active
stop-IsConsistent s id v active = (
  record s { downlink_subscriptions = rest; downlink = some_left rest },
  ground arith,
  record { free = v.free; open_iff = refl },
  refl,
  refl,
)
  where
    rest : List String
    rest = delete id s.downlink_subscriptions

-- Stop on a consistent schedule that nobody is subscribed to panics: it closes a nil channel.
pub stop_panics :
    (s : Schedule) (id : String) → IsConsistent s → is_active s ≡ false → stop s id ≡ panics
unfolding stop is_active delete
stop_panics s id v inactive = ground arith

-- Subscribing an identifier again returns nil and keeps the lock: from then on every Subscribe and
-- every Stop blocks.
pub subscribe_again :
    (s : Schedule) (id : String)
    → IsConsistent s
    → contains id s.downlink_subscriptions ≡ true
    → (t : Schedule) × (subscribe s id ≡ done (t, false))
      × ((other : String) → (subscribe t other ≡ blocks) × (stop t other ≡ blocks))
unfolding subscribe stop
subscribe_again s id v known =
    (record s { downlink = true; subscriptions_locked = true }, ground arith, λ other. (refl, refl))
