-- ===== src/NetworkServer/Adr/Laws.antt =====
-- What is asked of a device.
use ttn.Base.{
  ℕ, suc, ◌+◌, ◌≤◌, ◌≡◌, ap, ap₂, refl, ◌∙◌, ◌⊎◌, inl, inr, Bool, true, false, not, List, [], ◌∷◌,
  ◌++◌, String, Result, ok, err, arith, take, Bool-cases, ◌==◌, ==_iff,
}
use mathlib.Core.List.{append-nil}
use ttn.Base.Int.{ℤ}
use ttn.Band.{FrequencyPlan, AdrSettings as Chosen, settings, unavailable, panicked, failed}
use ttn.Messages.{MacCommand, MacMessage}
use ttn.NetworkServer.Device.{Device, Frame, AdrSettings, Faults, get, frames_history_size}
use ttn.NetworkServer.Mac.{MacCodec}
use ttn.NetworkServer.Adr.{
  next_nb_trans, without, Adapted, adapt, unchanged, failure, calculate, with_frames,
  choose_nb_trans, link_adr_req, request, is_settled, with_plan, default_margin,
  handle_downlink_adr,
}

next_nb_trans_bounds :
    (loss nb_trans : ℕ) → (1 ≤ next_nb_trans loss nb_trans) × (next_nb_trans loss nb_trans ≤ 3)
unfolding next_nb_trans
next_nb_trans_bounds loss nb_trans = ground arith

-- No command with the identifier is left.
pub count : ℕ → List MacCommand → ℕ
count cid [] = 0
count cid (c ∷ cs) =
    let rest = count cid cs in elim (c.cid == cid) [ true ↦ suc rest | false ↦ rest ]

count-without : (cid : ℕ) (cs : List MacCommand) → count cid (without cid cs) ≡ 0
unfolding count without
count-without cid [] = refl
count-without cid (c ∷ cs) = elim (Bool-cases (c.cid == cid)) [
  | inl e ↦ rw e (count-without cid cs)
  | inr e ↦ rw e (rw (count, e) (count-without cid cs))
]

count-append :
    (cid : ℕ) (cs ds : List MacCommand) → count cid (cs ++ ds) ≡ count cid cs + count cid ds
unfolding count
count-append cid [] ds = omega arith
count-append cid (c ∷ cs) ds = elim (Bool-cases (c.cid == cid)) [
  | inl e ↦ rw (count, e) (omega (arith, count-append cid cs ds))
  | inr e ↦ rw (count, e) (count-append cid cs ds)
]

without-append :
    (cid : ℕ) (cs ds : List MacCommand) → without cid (cs ++ ds) ≡ without cid cs ++ without cid ds
unfolding without
without-append cid [] ds = refl
without-append cid (c ∷ cs) ds = elim (Bool-cases (c.cid == cid)) [
  | inl e ↦ rw (without, e) (without-append cid cs ds)
  | inr e ↦ rw (without, e) (ap (λ (xs : List MacCommand). c ∷ xs) (without-append cid cs ds))
]

without_twice : (cid : ℕ) (cs : List MacCommand) → without cid (without cid cs) ≡ without cid cs
unfolding without
without_twice cid [] = refl
without_twice cid (c ∷ cs) = elim (Bool-cases (c.cid == cid)) [
  | inl e ↦ rw e (without_twice cid cs)
  | inr e ↦ rw e (rw (without, e) (ap (λ (xs : List MacCommand). c ∷ xs) (without_twice cid cs)))
]

-- Either nothing is asked and the answer stays as it is, or the answer has exactly one LinkADRReq, its
-- other commands are those it had, in their order, and nothing else of it has changed.
abbrev pub Asks : MacCodec → MacMessage → Adapted → Type 0
Asks codec mac adapted =
    (adapted.mac ≡ mac)
    ⊎ ((adapted.mac ≡ record mac { f_opts = adapted.mac.f_opts })
        × (count codec.link_adr_req adapted.mac.f_opts ≡ 1)
        × (without codec.link_adr_req adapted.mac.f_opts ≡ without codec.link_adr_req mac.f_opts))

module _ (codec : MacCodec) (percent : ℕ → ℕ → ℕ) where
  request-Asks :
      (plan : FrequencyPlan) (index : ℕ) (data_rate : List ℕ) (tx_power : ℤ) (nb_trans : ℕ)
      (adr : AdrSettings) (mac : MacMessage)
      → Asks codec mac (
          request codec
            (link_adr_req codec plan index tx_power nb_trans)
            data_rate
            tx_power
            nb_trans
            adr
            mac)
  unfolding request count without link_adr_req
  request-Asks plan index data_rate tx_power nb_trans adr mac =
      let cid = codec.link_adr_req in
      let self : (cid == cid) ≡ true = (==_iff cid cid).1 refl in
      let command = link_adr_req codec plan index tx_power nb_trans in
      let one : count cid (command ∷ []) ≡ 1 = rw (count, self) refl in
      let gone : without cid (command ∷ []) ≡ [] = rw (without, self) refl in
      inr (
        refl,
        count-append cid (without cid mac.f_opts) (command ∷ [])
            ∙ ap₂ (λ x y. x + y) (count-without cid mac.f_opts) one,
        without-append cid (without cid mac.f_opts) (command ∷ [])
            ∙ ap₂ (λ (x y : List MacCommand). x ++ y) (without_twice cid mac.f_opts) gone
            ∙ append-nil (without cid mac.f_opts),
      )

  adapt-Asks :
      (counts : Bool) (frames : List Frame) (plan : FrequencyPlan) (data_rate : List ℕ)
      (tx_power : ℤ) (adr : AdrSettings) (mac : MacMessage) (index : Result ℕ)
      → Asks codec mac (adapt codec percent counts frames plan data_rate tx_power adr mac index)
  unfolding adapt unchanged failure
  adapt-Asks counts frames plan data_rate tx_power adr mac (err e) = inl refl
  adapt-Asks counts frames plan data_rate tx_power adr mac (ok index) =
      let nb_trans = choose_nb_trans percent counts frames data_rate tx_power adr in
      elim (Bool-cases (is_settled data_rate tx_power nb_trans adr)) [
        | inl e ↦ rw e (inl refl)
        | inr e ↦ rw e (request-Asks plan index data_rate tx_power nb_trans adr mac)
      ]

  calculate-Asks :
      (counts : Bool) (frames : List Frame) (plan : FrequencyPlan) (adr : AdrSettings)
      (mac : MacMessage) (chosen : Chosen)
      → Asks codec mac (calculate codec percent counts frames plan adr mac chosen)
  unfolding calculate unchanged failure
  calculate-Asks counts frames plan adr mac unavailable = inl refl
  calculate-Asks counts frames plan adr mac panicked = inl refl
  calculate-Asks counts frames plan adr mac (failed e) = inl refl
  calculate-Asks counts frames plan adr mac (settings data_rate tx_power) =
      adapt-Asks counts frames plan data_rate tx_power adr mac _

  with_plan-Asks :
      (counts : Bool) (frames : List Frame) (adr : AdrSettings) (mac : MacMessage)
      (plan : Result FrequencyPlan)
      → Asks codec mac (with_plan codec percent counts frames adr mac plan)
  unfolding with_plan failure
  with_plan-Asks counts frames adr mac (err e) = inl refl
  with_plan-Asks counts frames adr mac (ok plan) = calculate-Asks counts frames plan _ mac _

  with_frames-Asks :
      (get_plan : String → Result FrequencyPlan) (counts : Bool) (adr : AdrSettings)
      (mac : MacMessage) (frames : Result (List Frame))
      → Asks codec mac (with_frames codec percent get_plan counts adr mac frames)
  unfolding with_frames failure unchanged
  with_frames-Asks get_plan counts adr mac (err e) = inl refl
  with_frames-Asks get_plan counts adr mac (ok frames) =
      let rest =
        with_plan-Asks counts (take frames_history_size frames) (default_margin adr) mac
          (get_plan adr.band) in
      ground (arith, rest)

-- A downlink is asked for new settings at most once: either its MAC payload stays as it is, or it has
-- exactly one LinkADRReq, its other commands are those it had, in their order, and nothing else of it has
-- changed.
pub handle_downlink_adr-Asks :
    (codec : MacCodec) (percent : ℕ → ℕ → ℕ) (get_plan : String → Result FrequencyPlan)
    (faults : Faults) (history : List Frame) (dev : Device) (mac : MacMessage)
    → Asks codec mac (handle_downlink_adr codec percent get_plan faults history dev mac)
unfolding handle_downlink_adr unchanged
handle_downlink_adr-Asks codec percent get_plan faults history dev mac =
    let rest =
      with_frames-Asks codec percent get_plan (not dev.options.disable_f_cnt_check) dev.adr mac
        (get faults history) in
    ground (arith, rest)
