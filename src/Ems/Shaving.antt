-- ===== src/Ems/Shaving.antt =====
-- Peak shaving in a tick of the EMS controller (api/ems/controller.ts). A configuration that is not in
-- peakState is an inactive one.
pub mod Allowed
use gateway_monitoring_platf.Prelude.{
  ℕ, String, Option, none, some, Bool, true, false, not, ◌&&◌, ◌||◌, List, [], ◌∷◌, ◌++◌, ℤ, pos,
  leb_ℤ, ◌==◌, if◌then◌else◌, filter, find, is_some, sort_by,
}
use gateway_monitoring_platf.Control.Types.{ControllableDef}
use gateway_monitoring_platf.Control.Execute.{Meter, controllable_for_model}
use gateway_monitoring_platf.Ems.Decide.{
  EmsSchedule, SocLimits, discharge, pick_setpoint_key, soc_guard_decision, peak_start_power,
  peak_hold_power, peak_min_move_kw, peak_retrim_due, peak_stop_due,
}
use gateway_monitoring_platf.Ems.Tick.{
  TickReads, Process, PlanRow, FreshTelemetry, soc_of, send, covers_now, plan_before, drive_tick,
}

-- An enabled ems_peak_shaving row.
pub record PeakConfig : Type 0 where
  pub id : ℕ
  pub source_meter_id : ℕ
  pub bess_meter_id : ℕ
  pub threshold_kw : ℤ
  pub hysteresis_kw : ℤ
  pub max_discharge_kw : ℤ

pub record PeakState : Type 0 where
  pub active : Bool
  pub last_sent : Option ℤ

abbrev pub inactive : PeakState
inactive = record { active = false; last_sent = none }

-- What one round comes to: the process, the state of the configuration, whether it drove the battery.
pub record PeakRound : Type 0 where
  pub process : Process
  pub state : PeakState
  pub drove : Bool

abbrev pub round_of : Process → PeakState → Bool → PeakRound
round_of p st drove = record { process = p; state = st; drove = drove }

abbrev pub has_limits : PlanRow → Bool
has_limits plan = is_some plan.min_soc || is_some plan.max_soc

abbrev pub limits_of : Option PlanRow → Option SocLimits
limits_of none = none
limits_of (some plan) = some (record { min_soc = plan.min_soc; max_soc = plan.max_soc })

-- The limits of the latest active plan of a meter that carries some.
unfoldable pub active_plan_soc_limits : List PlanRow → ℕ → ℕ → Option SocLimits
active_plan_soc_limits plans now meter_id = limits_of (
    find (λ q. q.meter_id == meter_id)
      (sort_by plan_before (filter (λ q. covers_now now q && has_limits q) plans)))

abbrev pub stops_discharge : TickReads → ℕ → Option SocLimits → Bool
stops_discharge reads meter_id none = false
stops_discharge reads meter_id (some limits) =
    (soc_guard_decision discharge (soc_of (reads.fresh_for_control meter_id)) limits).blocked

abbrev pub selected : TickReads → Meter → Option (String × ControllableDef)
selected reads bess = pick_setpoint_key (controllable_for_model reads.db bess.model) discharge

-- The explicit 0 kW, where the model has a register for it.
unfoldable pub cut_to_idle :
    TickReads → Meter → Option (String × ControllableDef) → Process → Process
cut_to_idle reads bess none p = p
cut_to_idle reads bess (some (key, def)) p = send reads bess key (pos 0) p

unfoldable pub start_event :
    TickReads
    → PeakConfig
    → Meter
    → ℤ
    → Option (String × ControllableDef)
    → PeakState
    → Process
    → PeakRound
start_event reads c bess import_kw none st p = round_of p st false
start_event reads c bess import_kw (some (key, def)) st p =
    let power = peak_start_power import_kw c.threshold_kw c.max_discharge_kw def.max in
    if leb_ℤ power (pos 0)
    then round_of p st false
    else round_of (send reads bess key power p) (record { active = true; last_sent = some power })
        true

unfoldable pub hold_event :
    TickReads
    → PeakConfig
    → Meter
    → ℤ
    → Option (String × ControllableDef)
    → PeakState
    → Process
    → PeakRound
hold_event reads c bess import_kw none st p = round_of p st false
hold_event reads c bess import_kw (some (key, def)) st p =
    let power = peak_hold_power import_kw c.threshold_kw c.max_discharge_kw def.max in
    if peak_retrim_due power st.last_sent (peak_min_move_kw c.max_discharge_kw)
    then round_of (send reads bess key power p) (record st { last_sent = some power }) true
    else round_of p st true

-- A round that decides on the import, by whether an event runs.
unfoldable pub step_known :
    TickReads → PeakConfig → Meter → ℤ → Bool → PeakState → Process → PeakRound
step_known reads c bess import_kw false st p =
    if leb_ℤ import_kw c.threshold_kw
    then round_of p st false
    else start_event reads c bess import_kw (selected reads bess) st p
step_known reads c bess import_kw true st p =
    if peak_stop_due import_kw c.threshold_kw c.hysteresis_kw
    then round_of (cut_to_idle reads bess (selected reads bess) p) inactive true
    else hold_event reads c bess import_kw (selected reads bess) st p

unfoldable pub step_power :
    TickReads → PeakConfig → Meter → Option ℤ → PeakState → Process → PeakRound
step_power reads c bess none st p = round_of p st false
step_power reads c bess (some import_kw) st p = step_known reads c bess import_kw st.active st p

-- A round that ends a running event, and starts none.
unfoldable pub cut_event : TickReads → Meter → Bool → Bool → PeakState → Process → PeakRound
cut_event reads bess false drove st p = round_of p st false
cut_event reads bess true drove st p =
    round_of (cut_to_idle reads bess (selected reads bess) p) inactive drove

-- By whether the reading of the source meter is fresh.
unfoldable pub step_source :
    TickReads → PeakConfig → Meter → Bool → Option ℤ → PeakState → Process → PeakRound
step_source reads c bess false kw st p =
    cut_event reads bess st.active (is_some (selected reads bess)) st p
step_source reads c bess true kw st p = step_power reads c bess kw st p

-- One round for a configuration whose battery is there.
unfoldable pub step_peak :
    TickReads → Option SocLimits → PeakConfig → Meter → PeakState → Process → PeakRound
step_peak reads limits c bess st p =
    let t = reads.fresh_for_control c.source_meter_id in
    if stops_discharge reads c.bess_meter_id limits
    then cut_event reads bess st.active true st p
    else step_source reads c bess t.fresh t.active_power_kw st p

-- peakState
unfoldable pub state_of : ℕ → List (ℕ × PeakState) → PeakState
state_of id [] = inactive
state_of id ((j, st) ∷ states) = let rest = state_of id states in if j == id then st else rest

unfoldable pub set_state : ℕ → PeakState → List (ℕ × PeakState) → List (ℕ × PeakState)
set_state id st [] = (id, st) ∷ []
set_state id st ((j, old) ∷ states) =
    let rest = (j, old) ∷ set_state id st states in if j == id then (id, st) ∷ states else rest

pub record PeakRun : Type 0 where
  pub process : Process
  pub states : List (ℕ × PeakState)
  pub drove : List ℕ

unfoldable pub run_round :
    TickReads → List PlanRow → ℕ → PeakConfig → Option Meter → PeakRun → PeakRun
run_round reads plans now c none run = run
run_round reads plans now c (some bess) run =
    let r =
      step_peak reads (active_plan_soc_limits plans now c.bess_meter_id) c bess
        (state_of c.id run.states) run.process in
    record {
      process = r.process;
      states = set_state c.id r.state run.states;
      drove = if r.drove then c.bess_meter_id ∷ run.drove else run.drove;
    }

unfoldable pub eval_peak_shaving :
    TickReads → List PlanRow → ℕ → List PeakConfig → PeakRun → PeakRun
eval_peak_shaving reads plans now [] run = run
eval_peak_shaving reads plans now (c ∷ configs) run =
    eval_peak_shaving reads plans now configs
      (run_round reads plans now c (reads.meter c.bess_meter_id) run)

-- emsTick after the grid limits: peak shaving, plans, schedules.
unfoldable pub shave_and_drive :
    TickReads
    → List PeakConfig
    → List PlanRow
    → List EmsSchedule
    → ℕ
    → List ℕ
    → List (ℕ × PeakState)
    → Process
    → List (ℕ × PeakState) × Process
shave_and_drive reads configs plans schedules now grid_drove states p =
    let run =
      eval_peak_shaving reads plans now configs
        (record { process = p; states = states; drove = [] }) in
    (run.states, (drive_tick reads plans schedules now grid_drove run.drove run.process).1)
