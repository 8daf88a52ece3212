-- ===== src/Ems/Tick.antt =====
-- The plans and the schedules of a tick of the EMS controller (api/ems/controller.ts), down to the
-- control path. What the grid limits and peak shaving drove comes as an argument from the modules
-- that model them. A tick happens at one instant; the prefix that tags a plan's row in the audit
-- trail is not modelled.
pub mod Rounds
pub mod Once
pub mod Repeat
use gateway_monitoring_platf.Prelude.{
  ℕ, ◌+◌, ◌-◌, String, Option, none, some, Bool, true, false, not, ◌&&◌, ◌||◌, List, [], ◌∷◌, ◌++◌,
  ℤ, pos, ltb, leb, ◌==◌, abs, pos_part, neg_part, if◌then◌else◌, filter, is_some, str_eq, sort_by,
}
use gateway_monitoring_platf.Control.Types.{ControllableDef, ControllableMap, Num, finite}
use gateway_monitoring_platf.Control.Execute.{Db, Meter, controllable_for_model}
use gateway_monitoring_platf.Control.Perform.{Plant, World, Outcome, returns, rejects, throws}
use gateway_monitoring_platf.Control.Log.{execute_and_log}
use gateway_monitoring_platf.Ems.Decide.{
  EmsMode, EmsSchedule, PlanSetpoint, SocLimits, pick_setpoint_key, setpoint_value, schedule_due,
  soc_guard_decision, plan_kw_at, kw_to_mode,
}

abbrev pub ems_idempotency_ms : ℕ
ems_idempotency_ms = 300000

-- An entry of lastCmd: the meter, the key, the value and when it was sent.
pub record LastCmd : Type 0 where
  pub meter_id : ℕ
  pub key : String
  pub value : ℤ
  pub at : ℕ

-- A call of executeAndLog.
pub record Attempt : Type 0 where
  pub meter_id : ℕ
  pub key : String
  pub value : ℤ

-- The process: what the control path acts on, lastCmd, and the calls that were made, newest last.
pub record Process : Type 0 where
  pub world : World
  pub last_cmd : List LastCmd
  pub attempts : List Attempt

-- The row of freshForControl, as far as it is read.
pub record FreshTelemetry : Type 0 where
  pub fresh : Bool
  pub soc_percent : Option ℤ
  pub active_power_kw : Option ℤ

pub record PlanRow : Type 0 where
  pub id : ℕ
  pub meter_id : ℕ
  pub is_active : Bool
  pub valid_from : ℕ
  pub valid_to : ℕ
  pub created_at : ℕ
  pub setpoints : List PlanSetpoint
  pub min_soc : Option ℤ
  pub max_soc : Option ℤ

-- What a tick reads: the database and the plant of the control path, the meters, the clock of a
-- meter's site (none where the zone is refused), the telemetry and Date.parse.
pub record TickReads : Type 0 where
  pub db : Db
  pub plant : Plant
  pub meter : ℕ → Option Meter
  pub local_clock : Meter → Option (ℕ × ℕ)
  pub fresh_for_control : ℕ → FreshTelemetry
  pub date_parse : String → Option ℕ

abbrev pub eq_ℤ : ℤ → ℤ → Bool
eq_ℤ a b = pos_part a + neg_part b == pos_part b + neg_part a

abbrev pub is_entry : ℕ → String → LastCmd → Bool
is_entry meter_id key c = c.meter_id == meter_id && str_eq c.key key

unfoldable pub last_of : ℕ → String → List LastCmd → Option LastCmd
last_of meter_id key [] = none
last_of meter_id key (c ∷ cmds) =
    let rest = last_of meter_id key cmds in if is_entry meter_id key c then some c else rest

-- lastCmd.set
unfoldable pub set_last : LastCmd → List LastCmd → List LastCmd
set_last c [] = c ∷ []
set_last c (d ∷ cmds) =
    let rest = d ∷ set_last c cmds in if is_entry c.meter_id c.key d then c ∷ cmds else rest

abbrev pub is_repeat : ℤ → ℕ → Option LastCmd → Bool
is_repeat value now none = false
is_repeat value now (some c) = eq_ℤ c.value value && ltb (now - c.at) ems_idempotency_ms

-- A ControlError is remembered like a success; after any other error the next tick tries again.
abbrev pub is_settled {ℓ} : {A : Type ℓ} → Outcome A → Bool
is_settled (returns a) = true
is_settled (rejects r) = true
is_settled throws = false

unfoldable pub send : TickReads → Meter → String → ℤ → Process → Process
send reads meter key value p =
    let (outcome, world) =
      execute_and_log reads.db reads.plant meter key (finite value) none p.world in
    let attempt : Attempt = record { meter_id = meter.id; key = key; value = value } in
    let cmd : LastCmd = record { meter_id = meter.id; key = key; value = value; at = world.now } in
    if is_repeat value p.world.now (last_of meter.id key p.last_cmd) then p else record {
      world = world;
      last_cmd = if is_settled outcome then set_last cmd p.last_cmd else p.last_cmd;
      attempts = p.attempts ++ attempt ∷ [];
    }

-- `has_meter`, on the set of meters that are spoken for.
unfoldable pub has_meter : List ℕ → ℕ → Bool
has_meter [] id = false
has_meter (m ∷ ms) id = m == id || has_meter ms id

abbrev pub soc_of : FreshTelemetry → Option ℤ
soc_of t = if t.fresh then t.soc_percent else none

abbrev pub is_blocked : TickReads → ℕ → EmsMode → SocLimits → Bool
is_blocked reads meter_id mode limits =
    (soc_guard_decision mode (soc_of (reads.fresh_for_control meter_id)) limits).blocked

-- One limit for both ends; a schedule without a target has no guard.
abbrev pub schedule_blocked : TickReads → EmsSchedule → Bool
schedule_blocked reads s = elim (s.target_soc) [
  | none ↦ false
  | some t ↦ is_blocked reads s.meter_id s.mode (record { min_soc = some t; max_soc = some t })
]

-- A strategy's step for one meter: whether it has taken the meter for this tick, and the process.
unfoldable pub fire_schedule :
    TickReads → EmsSchedule → Meter → Option (String × ControllableDef) → Process → Bool × Process
fire_schedule reads s meter none p = (true, p)
fire_schedule reads s meter (some (key, def)) p =
    if schedule_blocked reads s
    then (true, p)
    else (true, send reads meter key (setpoint_value s.mode def s.target_kw) p)

unfoldable pub due_schedule :
    TickReads → EmsSchedule → Meter → Option (ℕ × ℕ) → Process → Bool × Process
due_schedule reads s meter none p = (false, p)
due_schedule reads s meter (some (dow, min)) p =
    if schedule_due s dow min
    then fire_schedule reads s meter
        (pick_setpoint_key (controllable_for_model reads.db meter.model) s.mode) p
    else (false, p)

unfoldable pub try_schedule : TickReads → EmsSchedule → Option Meter → Process → Bool × Process
try_schedule reads s none p = (false, p)
try_schedule reads s (some meter) p = due_schedule reads s meter (reads.local_clock meter) p

abbrev pub mark : Bool → ℕ → List ℕ → List ℕ
mark took id fired = if took then id ∷ fired else fired

-- One round: the meters to skip are in `fired` from the start, and are spoken for alike.
unfoldable pub step_schedule : TickReads → EmsSchedule → List ℕ → Process → List ℕ × Process
step_schedule reads s fired p =
    let (took, p') = try_schedule reads s (reads.meter s.meter_id) p in
    if has_meter fired s.meter_id then (fired, p) else (mark took s.meter_id fired, p')

-- The loop over the schedules in the order of their ids.
unfoldable pub eval_schedules : TickReads → List EmsSchedule → List ℕ → Process → List ℕ × Process
eval_schedules reads [] fired p = (fired, p)
eval_schedules reads (s ∷ schedules) fired p =
    let (fired', next) = step_schedule reads s fired p in eval_schedules reads schedules fired' next

abbrev pub plan_blocked : TickReads → PlanRow → EmsMode → Bool
plan_blocked reads plan mode =
    (is_some plan.min_soc || is_some plan.max_soc)
    && is_blocked reads plan.meter_id mode
        (record { min_soc = plan.min_soc; max_soc = plan.max_soc })

-- The value that a plan commands: a blocked setpoint becomes an explicit zero.
abbrev pub plan_value : TickReads → PlanRow → ℤ → ControllableDef → ℤ
plan_value reads plan kw def =
    if plan_blocked reads plan (kw_to_mode kw)
    then pos 0
    else setpoint_value (kw_to_mode kw) def (some (pos (abs kw)))

unfoldable pub fire_plan :
    TickReads → PlanRow → ℤ → Meter → Option (String × ControllableDef) → Process → Bool × Process
fire_plan reads plan kw meter none p = (true, p)
fire_plan reads plan kw meter (some (key, def)) p =
    (true, send reads meter key (plan_value reads plan kw def) p)

unfoldable pub due_plan : TickReads → PlanRow → Meter → Option ℤ → Process → Bool × Process
due_plan reads plan meter none p = (false, p)
due_plan reads plan meter (some kw) p =
    fire_plan reads plan kw meter
      (pick_setpoint_key (controllable_for_model reads.db meter.model) (kw_to_mode kw)) p

unfoldable pub try_plan : TickReads → PlanRow → ℕ → Option Meter → Process → Bool × Process
try_plan reads plan now none p = (false, p)
try_plan reads plan now (some meter) p =
    due_plan reads plan meter (plan_kw_at reads.date_parse plan.setpoints now) p

abbrev pub covers_now : ℕ → PlanRow → Bool
covers_now now plan = plan.is_active && leb plan.valid_from now && leb now plan.valid_to

-- order by meter_id, created_at desc, id desc
abbrev pub plan_before : PlanRow → PlanRow → Bool
plan_before a b =
    if a.meter_id == b.meter_id
    then if a.created_at == b.created_at then leb b.id a.id else ltb b.created_at a.created_at
    else ltb a.meter_id b.meter_id

-- byMeter: the first plan of each meter.
unfoldable pub first_of_each : List ℕ → List PlanRow → List PlanRow
first_of_each seen [] = []
first_of_each seen (plan ∷ plans) =
    let rest = first_of_each (plan.meter_id ∷ seen) plans in
    let skipped = first_of_each seen plans in
    elim (has_meter seen plan.meter_id) [ true ↦ skipped | false ↦ plan ∷ rest ]

unfoldable pub step_plan : TickReads → PlanRow → ℕ → List ℕ → List ℕ → Process → List ℕ × Process
step_plan reads plan now skip fired p =
    let (took, p') = try_plan reads plan now (reads.meter plan.meter_id) p in
    if has_meter skip plan.meter_id then (fired, p) else (mark took plan.meter_id fired, p')

-- The loop over byMeter, with the meters to skip and those that a plan took.
unfoldable pub run_plans :
    TickReads → List PlanRow → ℕ → List ℕ → List ℕ → Process → List ℕ × Process
run_plans reads [] now skip fired p = (fired, p)
run_plans reads (plan ∷ plans) now skip fired p =
    let (fired', next) = step_plan reads plan now skip fired p in
    run_plans reads plans now skip fired' next

unfoldable pub eval_plans : TickReads → List PlanRow → ℕ → List ℕ → Process → List ℕ × Process
eval_plans reads plans now skip p =
    run_plans reads (first_of_each [] (sort_by plan_before (filter (covers_now now) plans))) now
      skip [] p

-- emsTick after the grid limits and peak shaving: plans, then schedules.
unfoldable pub drive_tick :
    TickReads → List PlanRow → List EmsSchedule → ℕ → List ℕ → List ℕ → Process → List ℕ × Process
drive_tick reads plans schedules now grid_drove peak_drove p =
    let (plan_drove, p') = eval_plans reads plans now (grid_drove ++ peak_drove) p in
    eval_schedules reads schedules (grid_drove ++ peak_drove ++ plan_drove) p'
