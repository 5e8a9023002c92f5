-- ===== src/Broker/Registry.antt =====
-- core/broker/broker.go: the routers and the handlers that are connected, each with its channel.
-- A channel is a number that no earlier channel has. The calls hold a lock, so they follow one another.
pub mod Contract
mod Tests
use ttn.Base.{
  ℕ, suc, ◌+◌, ◌≤◌, ◌<◌, ◌≡◌, ◌≢◌, ◌⊎◌, inl, inr, refl, sym, ap, ◌∙◌, Bool, true, false, Option,
  none, some, String, Result, ok, err, Error, str_eq, str_eq_iff, if◌then◌else◌, arith,
  Option-cases, Bool-cases,
}
use ttn.Base.Options.{some_inj}
use ttn.Errors.Texts.{append}

-- The open channel of each identifier.
pub record Registry : Type 0 where
  pub channels : String → Option ℕ
  pub next : ℕ

write : String → Option ℕ → (String → Option ℕ) → String → Option ℕ
write id channel channels other = if str_eq other id then channel else channels other

pub already_active : String → String → Error
already_active kind id = Error.internal (append kind (append id " already active"))

pub not_active : String → String → Error
not_active kind id = Error.internal (append kind (append id " not active"))

open_channel : String → String → Registry → Option ℕ → Registry × Result ℕ
unfolding write already_active
open_channel kind id r (some c) = (r, err (already_active kind id))
open_channel kind id r none =
    (record { channels = write id (some r.next) r.channels; next = suc r.next }, ok r.next)

-- ActivateRouter and ActivateHandlerUplink, with "Router " or "Handler " for the kind. The first also
-- returns the channel that is open, next to its error.
pub activate : String → Registry → String → Registry × Result ℕ
unfolding open_channel
activate kind r id = open_channel kind id r (r.channels id)

close_channel : String → String → Registry → Option ℕ → Registry × Result (Unit {0})
unfolding write not_active
close_channel kind id r none = (r, err (not_active kind id))
close_channel kind id r (some c) = (record r { channels = write id none r.channels }, ok tt)

-- DeactivateRouter and DeactivateHandlerUplink.
pub deactivate : String → Registry → String → Registry × Result (Unit {0})
unfolding close_channel
deactivate kind r id = close_channel kind id r (r.channels id)

-- getRouter and getHandlerUplink.
pub get_channel : String → Registry → String → Result ℕ
unfolding not_active
get_channel kind r id = elim (r.channels id) [ none ↦ err (not_active kind id) | some c ↦ ok c ]

-- Every open channel is an earlier one, and belongs to one identifier only.
pub record IsSound (r : Registry) : Type 0 where
  pub earlier : (id : String) (c : ℕ) → r.channels id ≡ some c → c < r.next
  pub alone : (a b : String) (c : ℕ) → r.channels a ≡ some c → r.channels b ≡ some c → a ≡ b

write-other :
    (id other : String) (channel : Option ℕ) (channels : String → Option ℕ) (c : ℕ)
    → write id channel channels other ≡ some c
    → ((other ≡ id) × (channel ≡ some c)) ⊎ (channels other ≡ some c)
unfolding write
write-other id other channel channels c e = elim (Bool-cases (str_eq other id)) [
  | inl same ↦ inl ((str_eq_iff other id).0 same, rw (write, same) at e)
  | inr different ↦ inr (rw (write, different) at e)
]

open_channel-IsSound :
    (kind id : String) (r : Registry) (channel : Option ℕ)
    → IsSound r
    → IsSound (open_channel kind id r channel).0
unfolding open_channel
open_channel-IsSound kind id r (some c) s = s
open_channel-IsSound kind id r none s = record {
  earlier = λ other c e. elim (write-other id other (some r.next) r.channels c e) [
    | inl (_, new) ↦ let k = some_inj new in omega arith
    | inr old ↦ let k = s.earlier other c old in omega arith
  ];
  alone = λ a b c e f. elim (write-other id a (some r.next) r.channels c e) [
    | inl (x, new) ↦ elim (write-other id b (some r.next) r.channels c f) [
      | inl (y, _) ↦ x ∙ sym y
      | inr old ↦ let k = s.earlier b c old in let l = some_inj new in absurd (omega arith)
    ]
    | inr old ↦ elim (write-other id b (some r.next) r.channels c f) [
      | inl (y, new) ↦ let k = s.earlier a c old in let l = some_inj new in absurd (omega arith)
      | inr old' ↦ s.alone a b c old old'
    ]
  ];
}

closed :
    (id other : String) (channels : String → Option ℕ) (c : ℕ)
    → write id none channels other ≡ some c
    → channels other ≡ some c
closed id other channels c e = elim (write-other id other none channels c e) [
  | inl (_, missing) ↦ cc
  | inr old ↦ old
]

close_channel-IsSound :
    (kind id : String) (r : Registry) (channel : Option ℕ)
    → IsSound r
    → IsSound (close_channel kind id r channel).0
unfolding close_channel
close_channel-IsSound kind id r none s = s
close_channel-IsSound kind id r (some c) s = record {
  earlier = λ other d e. s.earlier other d (closed id other r.channels d e);
  alone = λ a b d e f. s.alone a b d (closed id a r.channels d e) (closed id b r.channels d f);
}

pub registry-IsSound :
    (kind id : String) (r : Registry)
    → IsSound r
    → IsSound (activate kind r id).0 × IsSound (deactivate kind r id).0
unfolding activate deactivate
registry-IsSound kind id r s = (
  open_channel-IsSound kind id r (r.channels id) s,
  close_channel-IsSound kind id r (r.channels id) s,
)
