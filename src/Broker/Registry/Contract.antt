-- ===== src/Broker/Registry/Contract.antt =====
-- What the broker relies on of its registry.
use ttn.Base.{◌≡◌, ◌≢◌, refl, ℕ, Option, none, some, String, Result, ok, err, arith, str_eq_iff}
use ttn.Broker.Registry.{
  Registry, IsSound, write, already_active, not_active, open_channel, close_channel, activate,
  deactivate, get_channel, registry-IsSound,
}

-- The other identifiers keep their channels.
abbrev pub Others : String → Registry → Registry → Type 0
Others id before after =
    (other : String) → other ≢ id → after.channels other ≡ before.channels other

-- Activation, by whether the identifier has a channel.
pub record Opens (kind id : String) (before : Registry) (result : Registry × Result ℕ)
    : Type 0 where
  pub refuses :
      (c : ℕ) → before.channels id ≡ some c → result ≡ (before, err (already_active kind id))
  pub opens :
      before.channels id ≡ none
      → (c : ℕ) × (result.1 ≡ ok c)
        × (get_channel kind result.0 id ≡ ok c)
        × ((other : String) → before.channels other ≢ some c)
        × Others id before result.0

-- Deactivation.
pub record Closes (kind id : String) (before : Registry) (result : Registry × Result (Unit {0}))
    : Type 0 where
  pub refuses : before.channels id ≡ none → result ≡ (before, err (not_active kind id))
  pub closes :
      (c : ℕ)
      → before.channels id ≡ some c
      → (result.1 ≡ ok tt)
        × (get_channel kind result.0 id ≡ err (not_active kind id))
        × Others id before result.0

write_self :
    (id : String) (channel : Option ℕ) (channels : String → Option ℕ)
    → write id channel channels id ≡ channel
unfolding write
write_self id channel channels = rw ((str_eq_iff id id).1 refl) refl

write_apart :
    (id other : String) (channel : Option ℕ) (channels : String → Option ℕ)
    → other ≢ id
    → write id channel channels other ≡ channels other
unfolding write
write_apart id other channel channels n = ground (arith, str_eq_iff other id)

activate-Opens :
    (kind id : String) (r : Registry) → IsSound r → Opens kind id r (activate kind r id)
unfolding activate open_channel get_channel
activate-Opens kind id r s = record {
  refuses = λ c e. rw (e, open_channel) refl;
  opens = λ e.
      rw (e, open_channel)
        (
          r.next,
          refl,
          rw (write_self id (some r.next) r.channels, get_channel) refl,
          (λ other f. let k = s.earlier other r.next f in absurd (omega arith)),
          (λ other n. write_apart id other (some r.next) r.channels n),
        );
}

deactivate-Closes : (kind id : String) (r : Registry) → Closes kind id r (deactivate kind r id)
unfolding deactivate close_channel get_channel
deactivate-Closes kind id r = record {
  refuses = λ e. rw (e, close_channel) refl;
  closes = λ c e.
      rw (e, close_channel)
        (
          refl,
          rw (write_self id none r.channels, get_channel) refl,
          (λ other n. write_apart id other none r.channels n),
        );
}

-- On a registry where the open channels are earlier ones and belong to one identifier each, an
-- identifier without a channel is activated with a channel that no identifier has, and then found
-- under it; one with a channel is deactivated, and then not found. Activating an identifier that has
-- a channel, or deactivating one that has none, is an error and changes nothing. The other
-- identifiers keep their channels, and the registry stays as it was assumed.
pub registry-Opens :
    (kind id : String) (r : Registry)
    → IsSound r
    → Opens kind id r (activate kind r id)
      × Closes kind id r (deactivate kind r id)
      × IsSound (activate kind r id).0
      × IsSound (deactivate kind r id).0
registry-Opens kind id r s =
    let (opened, closed) = registry-IsSound kind id r s in
    (activate-Opens kind id r s, deactivate-Closes kind id r, opened, closed)
