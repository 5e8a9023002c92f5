-- ===== src/Router/Schedule/Clock.antt =====
-- Sync and realtime: the gateway's 32-bit microsecond counter against the clock of the router.
use ttn.Base.{ℕ, ◌*◌, ◌^◌, ◌≡◌, Bool-cases, inl, inr}
use ttn.Base.Int.{ℤ, pos, ◌+ℤ◌, ◌-ℤ◌, ◌≤ℤ◌, ◌<ℤ◌, ltb_ℤ, ltb_ℤ_true, ltb_ℤ_false, int_laws}
use ttn.Router.Schedule.{Schedule, sync, realtime}

-- The nanoseconds of one turn of the counter.
abbrev pub turn : ℤ
turn = pos (2 ^ 32 * 1000)

-- Where the counter stands at `timestamp`, if it stood at `seen` at the time `at`.
abbrev pub expected : ℤ → ℕ → ℕ → ℤ
expected at seen timestamp = at +ℤ pos (timestamp * 1000) -ℤ pos (seen * 1000)

-- After a synchronization, realtime gives the time at which the counter reaches the timestamp; one
-- turn of the counter later where that time is past. It is never before now if it is at most a turn late.
pub realtime-sync :
    (s : Schedule) (at now : ℤ) (seen timestamp : ℕ)
    → let t = realtime (sync s at seen) now timestamp in
      let e = expected at seen timestamp in
      (now ≤ℤ e → t ≡ e) × (e <ℤ now → t ≡ e +ℤ turn) × (now ≤ℤ e +ℤ turn → now ≤ℤ t)
unfolding realtime sync
realtime-sync s at now seen timestamp =
    let t = pos (timestamp * 1000) +ℤ (at -ℤ pos (seen * 1000)) in
    elim (Bool-cases (ltb_ℤ t now)) [
      | inl late ↦
          let h : t <ℤ now = ltb_ℤ_true t now late in
          rw (late, realtime, sync)
            ((λ k. absurd (omega int_laws)), (λ k. omega int_laws), (λ k. omega int_laws))
      | inr early ↦
          let h : now ≤ℤ t = ltb_ℤ_false t now early in
          rw (early, realtime, sync)
            ((λ k. omega int_laws), (λ k. absurd (omega int_laws)), (λ k. omega int_laws))
    ]
