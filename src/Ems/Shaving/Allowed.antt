-- ===== src/Ems/Shaving/Allowed.antt =====
-- What peak shaving may command (api/ems/controller.ts, evalPeakShaving).
use gateway_monitoring_platf.Prelude.{
  ◌≡◌, ◌⊎◌, inl, inr, refl, String, Option, none, some, Bool, true, false, arith, [], ◌∷◌, ◌++◌, ℤ,
  pos, ◌≤ℤ◌, ◌-ℤ◌, max_ℤ, min_ℤ, max_ℤ_lem, min_ℤ_lem, Bool-cases, leb_ℤ,
}
use gateway_monitoring_platf.Control.Types.{ControllableDef}
use gateway_monitoring_platf.Control.Execute.{Meter}
use gateway_monitoring_platf.Ems.Decide.{
  SocLimits, peak_start_power, peak_hold_power, peak_retrim_due, peak_min_move_kw, peak_stop_due,
}
use gateway_monitoring_platf.Ems.Tick.{Attempt, Process, TickReads, send, is_repeat, last_of}
use gateway_monitoring_platf.Ems.Shaving.{
  PeakConfig, PeakState, PeakRound, stops_discharge, selected, cut_to_idle, start_event, hold_event,
  step_known, cut_event, step_power, step_source, step_peak,
}

-- A round calls the control path not at all, or once with a value as `P` says.
abbrev pub Commands : (ℤ → Type 0) → Meter → Process → Process → Type 0
Commands P meter p q =
    (q.attempts ≡ p.attempts)
    ⊎ ((a : Attempt) × (q.attempts ≡ p.attempts ++ a ∷ []) × (a.meter_id ≡ meter.id) × P a.value)

send-Commands :
    (P : ℤ → Type 0) (reads : TickReads) (meter : Meter) (key : String) (value : ℤ) (p : Process)
    → P value
    → Commands P meter p (send reads meter key value p)
unfolding send
send-Commands P reads meter key value p h =
    elim (Bool-cases (is_repeat value p.world.now (last_of meter.id key p.last_cmd))) [
      | inl again ↦ rw (again, send) (inl refl)
      | inr new ↦
          rw (new, send)
            (inr (record { meter_id = meter.id; key = key; value = value }, refl, refl, h))
    ]

-- The values that a round may send: zero, or a discharge that no limit of a plan stops, decided on a
-- fresh reading of the import, within the configured power and within the excess.
pub data IsAllowed (reads : TickReads) (limits : Option SocLimits) (c : PeakConfig)
    : ℤ → Type 0 where
  idle_zero : IsAllowed reads limits c (pos 0)
  shaves :
      {v import_kw : ℤ}
      → stops_discharge reads c.bess_meter_id limits ≡ false
      → (reads.fresh_for_control c.source_meter_id).fresh ≡ true
      → (reads.fresh_for_control c.source_meter_id).active_power_kw ≡ some import_kw
      → pos 0 ≤ℤ v
      → v ≤ℤ c.max_discharge_kw
      → v ≤ℤ max_ℤ (import_kw -ℤ c.threshold_kw) (pos 0)
      → IsAllowed reads limits c v

start_bounds :
    (i t m r : ℤ)
    → (peak_start_power i t m r ≤ℤ m) × (peak_start_power i t m r ≤ℤ max_ℤ (i -ℤ t) (pos 0))
unfolding peak_start_power
start_bounds i t m r =
    let inner = min_ℤ_lem (i -ℤ t) m in
    let outer = min_ℤ_lem (min_ℤ (i -ℤ t) m) r in
    let top = max_ℤ_lem (i -ℤ t) (pos 0) in (omega arith, omega arith)

hold_bounds :
    (i t m r : ℤ)
    → pos 0 ≤ℤ m
    → pos 0 ≤ℤ r
    → (pos 0 ≤ℤ peak_hold_power i t m r)
      × (peak_hold_power i t m r ≤ℤ m)
      × (peak_hold_power i t m r ≤ℤ max_ℤ (i -ℤ t) (pos 0))
unfolding peak_hold_power
hold_bounds i t m r hm hr =
    let inner = min_ℤ_lem (max_ℤ (i -ℤ t) (pos 0)) m in
    let outer = min_ℤ_lem (min_ℤ (max_ℤ (i -ℤ t) (pos 0)) m) r in
    let top = max_ℤ_lem (i -ℤ t) (pos 0) in (ground arith, omega arith, omega arith)

-- The register that is selected for the battery takes a discharge.
abbrev pub Discharges : Option (String × ControllableDef) → Type 0
Discharges none = Unit
Discharges (some (key, def)) = pos 0 ≤ℤ def.max

module _ (reads : TickReads) (limits : Option SocLimits) (c : PeakConfig) (bess : Meter)
    (st : PeakState) (p : Process) where
  abbrev Bounded : Process → Type 0
  Bounded q = Commands (IsAllowed reads limits c) bess p q

  cut_to_idle-Bounded :
      (sel : Option (String × ControllableDef)) → Bounded (cut_to_idle reads bess sel p)
  unfolding cut_to_idle
  cut_to_idle-Bounded none = inl refl
  cut_to_idle-Bounded (some (key, def)) = send-Commands _ reads bess key (pos 0) p idle_zero

  module _ (clear : stops_discharge reads c.bess_meter_id limits ≡ false)
      (fresh : (reads.fresh_for_control c.source_meter_id).fresh ≡ true) (import_kw : ℤ)
      (known : (reads.fresh_for_control c.source_meter_id).active_power_kw ≡ some import_kw)
      (positive : pos 0 ≤ℤ c.max_discharge_kw) (range : Discharges (selected reads bess)) where
    start_event-Bounded :
        (sel : Option (String × ControllableDef))
        → Bounded (start_event reads c bess import_kw sel st p).process
    unfolding start_event
    start_event-Bounded none = inl refl
    start_event-Bounded (some (key, def)) =
        let power = peak_start_power import_kw c.threshold_kw c.max_discharge_kw def.max in
        let bounds = start_bounds import_kw c.threshold_kw c.max_discharge_kw def.max in
        elim (Bool-cases (leb_ℤ power (pos 0))) [
          | inl nothing ↦ rw (nothing, start_event) (inl refl)
          | inr some_power ↦
              rw (some_power, start_event)
                (send-Commands _ reads bess key power p
                  (shaves clear fresh known (ground arith) bounds.0 bounds.1))
        ]

    hold_event-Bounded :
        (sel : Option (String × ControllableDef))
        → Discharges sel
        → Bounded (hold_event reads c bess import_kw sel st p).process
    unfolding hold_event
    hold_event-Bounded none takes = inl refl
    hold_event-Bounded (some (key, def)) takes =
        let power = peak_hold_power import_kw c.threshold_kw c.max_discharge_kw def.max in
        let bounds =
          hold_bounds import_kw c.threshold_kw c.max_discharge_kw def.max positive takes in
        elim (Bool-cases
          (peak_retrim_due power st.last_sent (peak_min_move_kw c.max_discharge_kw))) [
            | inl due ↦
                rw (due, hold_event)
                  (send-Commands _ reads bess key power p
                    (shaves clear fresh known bounds.0 bounds.1 bounds.2))
            | inr still ↦ rw (still, hold_event) (inl refl)
          ]

    step_known-Bounded :
        (active : Bool) → Bounded (step_known reads c bess import_kw active st p).process
    unfolding step_known
    step_known-Bounded true =
        elim (Bool-cases (peak_stop_due import_kw c.threshold_kw c.hysteresis_kw)) [
          | inl stop ↦ rw (stop, step_known) (cut_to_idle-Bounded (selected reads bess))
          | inr go ↦ rw (go, step_known) (hold_event-Bounded (selected reads bess) range)
        ]
    step_known-Bounded false = elim (Bool-cases (leb_ℤ import_kw c.threshold_kw)) [
      | inl low ↦ rw (low, step_known) (inl refl)
      | inr high ↦ rw (high, step_known) (start_event-Bounded (selected reads bess))
    ]

  -- A cut: the event is over, and at most an explicit zero is sent.
  abbrev pub IsCut : PeakRound → Type 0
  IsCut r = (r.state.active ≡ false) × Commands (λ v. v ≡ pos 0) bess p r.process

  cut_to_idle-zero :
      (sel : Option (String × ControllableDef))
      → Commands (λ v. v ≡ pos 0) bess p (cut_to_idle reads bess sel p)
  unfolding cut_to_idle
  cut_to_idle-zero none = inl refl
  cut_to_idle-zero (some (key, def)) = send-Commands _ reads bess key (pos 0) p refl

  cut_event-IsCut :
      (active drove : Bool) → st.active ≡ active → IsCut (cut_event reads bess active drove st p)
  unfolding cut_event
  cut_event-IsCut true drove e = (refl, cut_to_idle-zero (selected reads bess))
  cut_event-IsCut false drove e = (e, inl refl)

  cut_event-Bounded :
      (active drove : Bool) → Bounded (cut_event reads bess active drove st p).process
  unfolding cut_event
  cut_event-Bounded true drove = cut_to_idle-Bounded (selected reads bess)
  cut_event-Bounded false drove = inl refl

  step_power-Bounded :
      pos 0 ≤ℤ c.max_discharge_kw
      → Discharges (selected reads bess)
      → stops_discharge reads c.bess_meter_id limits ≡ false
      → (reads.fresh_for_control c.source_meter_id).fresh ≡ true
      → (kw : Option ℤ) → (reads.fresh_for_control c.source_meter_id).active_power_kw ≡ kw
      → Bounded (step_power reads c bess kw st p).process
  unfolding step_power
  step_power-Bounded positive range clear fresh none e = inl refl
  step_power-Bounded positive range clear fresh (some kw) e =
      step_known-Bounded clear fresh kw e positive range st.active

  step_source-Bounded :
      pos 0 ≤ℤ c.max_discharge_kw
      → Discharges (selected reads bess)
      → stops_discharge reads c.bess_meter_id limits ≡ false
      → (fresh : Bool) → (reads.fresh_for_control c.source_meter_id).fresh ≡ fresh
      → (kw : Option ℤ) → (reads.fresh_for_control c.source_meter_id).active_power_kw ≡ kw
      → Bounded (step_source reads c bess fresh kw st p).process
  unfolding step_source
  step_source-Bounded positive range clear true fresh kw e =
      step_power-Bounded positive range clear fresh kw e
  step_source-Bounded positive range clear false stale kw e = cut_event-Bounded st.active _

  -- If a plan's limits stop the discharge, or the reading of the import is stale, then no event runs
  -- after the round, and at most an explicit zero has been sent.
  pub step_peak-IsCut :
      (stops_discharge reads c.bess_meter_id limits ≡ true)
        ⊎ ((reads.fresh_for_control c.source_meter_id).fresh ≡ false)
      → IsCut (step_peak reads limits c bess st p)
  unfolding step_peak step_source
  step_peak-IsCut (inl stop) = rw (stop, step_peak) (cut_event-IsCut st.active true refl)
  step_peak-IsCut (inr stale) = elim (Bool-cases (stops_discharge reads c.bess_meter_id limits)) [
    | inl stop ↦ rw (stop, step_peak) (cut_event-IsCut st.active true refl)
    | inr clear ↦ rw (clear, stale, step_peak) (cut_event-IsCut st.active _ refl)
  ]

  -- If the configured power is not negative and the register selected for the battery can discharge,
  -- a round calls the control path at most once, for its battery, with zero or with a discharge (never
  -- a charge) that no plan's limits stop, that is decided on a fresh reading of the import, and that
  -- exceeds neither the configured power nor the excess over the threshold.
  pub step_peak-IsAllowed :
      pos 0 ≤ℤ c.max_discharge_kw
      → Discharges (selected reads bess)
      → Commands (IsAllowed reads limits c) bess p (step_peak reads limits c bess st p).process
  unfolding step_peak
  step_peak-IsAllowed positive range =
      elim (Bool-cases (stops_discharge reads c.bess_meter_id limits)) [
        | inl stop ↦ rw (stop, step_peak) (cut_event-Bounded st.active true)
        | inr clear ↦ rw (clear, step_peak) (step_source-Bounded positive range clear _ refl _ refl)
      ]
