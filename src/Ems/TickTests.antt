-- ===== src/Ems/TickTests.antt =====
-- A tick over two batteries (api/ems/controller.ts): a plan for the first, schedules for both.
use gateway_monitoring_platf.Prelude.{
  inl, ℕ, ◌+◌, ◌≡◌, ◌≤◌, ◌++◌, refl, none, some, true, false, [], ◌∷◌, pos, arith,
}
use gateway_monitoring_platf.Control.Types.{ControllableDef}
use gateway_monitoring_platf.Control.Execute.{
  Plan, check_key, check_verification, check_range, check_fc, check_register, register_value, Meter,
  Profile, VerificationStatus, Db, check_control, check_lock,
}
use gateway_monitoring_platf.Control.Perform.{not_connected, Plant, Publish, read_back}
use gateway_monitoring_platf.Ems.Decide.{
  pick_setpoint_key, SocLimits, soc_guard_decision, EmsSchedule, discharge,
}
use gateway_monitoring_platf.Ems.Tick.{TickReads, Process, PlanRow, drive_tick, has_meter}
use gateway_monitoring_platf.Ems.Tick.Rounds.{calls_of, one_if}
use gateway_monitoring_platf.Ems.Tick.Once.{drive_tick-once}
use gateway_monitoring_platf.Ems.Shaving.{PeakConfig, PeakState, step_peak}
use gateway_monitoring_platf.Ems.Shaving.Allowed.{
  Commands, IsAllowed, IsCut, step_peak-IsAllowed, step_peak-IsCut,
}
use gateway_monitoring_platf.Ems.GridLimit.{
  GridLimitRow, AssetRow, GridReads, GridRun, grid_kw_of, limit_site,
}
use gateway_monitoring_platf.Ems.GridLimit.Held.{Moves, SendsLimits, limit_site-Moves}
use gateway_monitoring_platf.Ems.Watchdog.{WatchdogConfig, watchdog_due}
use gateway_monitoring_platf.Ems.Refresh.{Refreshes, pet_of, refresh_one}
use gateway_monitoring_platf.Ems.Refresh.Unreachable.{refresh_one-unreachable}

abbrev power_def : ControllableDef
power_def = record { address = 40; fc = some 6; min = pos 0; max = pos 100_000_000; scale = none }

abbrev profile : Profile
profile = record {
  controllable = some (("dischargePowerKw", power_def) ∷ []);
  verification_status = VerificationStatus.field_verified;
  allow_unverified_control = false;
}

abbrev battery : ℕ → Meter
battery id = record {
  id = id;
  gateway_id = 2;
  model = "bess";
  host = some "10.0.0.7";
  port = none;
  unit_id = some id;
  modbus_address = 1;
  org_id = none;
}

-- The control path is locked, so every command is refused.
abbrev locked_db : Db
locked_db = record {
  control_lock = λ _. some (record { since = 5; by = some 1; reason = none });
  profile = λ _. some profile;
  gateway = λ _. none;
  accepts_insert = true;
}

abbrev reads : TickReads
reads = record {
  db = locked_db;
  plant = record { tcp = λ _ _ _ _ value. read_back (some value); publish = λ _ _. Publish.done };
  meter = λ id. some (battery id);
  local_clock = λ _. some (1, 600);
  fresh_for_control =
      λ _. record { fresh = true; soc_percent = some (pos 50_000_000); active_power_kw = none };
  date_parse = λ _. some 0;
}

abbrev start : Process
start = record {
  world = record {
    now = 1000;
    registry = [];
    commands = [];
    next_id = 1;
    writes = [];
    events = [];
  };
  last_cmd = [];
  attempts = [];
}

abbrev plan : PlanRow
plan = record {
  id = 1;
  meter_id = 7;
  is_active = true;
  valid_from = 0;
  valid_to = 5000;
  created_at = 0;
  setpoints = record { ts = "t0"; kw = pos 5_000_000 } ∷ [];
  min_soc = some (pos 20_000_000);
  max_soc = none;
}

abbrev schedule : ℕ → ℕ → EmsSchedule
schedule id meter_id = record {
  id = id;
  meter_id = meter_id;
  day_of_week_mask = 127;
  start_min = 0;
  end_min = 0;
  mode = discharge;
  target_kw = some (pos 2_000_000);
  target_soc = none;
}

drive_tick-once_example :
    let schedules = schedule 1 7 ∷ schedule 2 8 ∷ schedule 3 8 ∷ [] in
    let p' = (drive_tick reads (plan ∷ []) schedules 1000 [] (9 ∷ []) start).1 in
    calls_of 8 p'.attempts + one_if (has_meter ([] ++ 9 ∷ []) 8) ≤ 0 + 1
drive_tick-once_example =
    drive_tick-once reads (plan ∷ []) (schedule 1 7 ∷ schedule 2 8 ∷ schedule 3 8 ∷ []) 1000 8 []
      (9 ∷ []) start (λ id meter e. cc)

abbrev shaving : PeakConfig
shaving = record {
  id = 4;
  source_meter_id = 6;
  bess_meter_id = 7;
  threshold_kw = pos 50_000_000;
  hysteresis_kw = pos 5_000_000;
  max_discharge_kw = pos 30_000_000;
}

-- An event that runs.
abbrev riding : PeakState
riding = record { active = true; last_sent = some (pos 20_000_000) }

-- A plan that keeps more in the battery than it has.
abbrev reserve : SocLimits
reserve = record { min_soc = some (pos 60_000_000); max_soc = none }

-- The source meter reports an import of 70 kW.
abbrev peak_reads : TickReads
peak_reads = record reads {
  fresh_for_control = λ _. record {
    fresh = true;
    soc_percent = some (pos 50_000_000);
    active_power_kw = some (pos 70_000_000);
  };
}

step_peak-IsAllowed_example :
    Commands
      (IsAllowed peak_reads none shaving)
      (battery 7)
      start
      (step_peak peak_reads none shaving (battery 7) riding start).process
unfolding pick_setpoint_key
step_peak-IsAllowed_example =
    step_peak-IsAllowed peak_reads none shaving (battery 7) riding start (omega arith) (omega arith)

step_peak-IsCut_example :
    IsCut peak_reads
      (some reserve)
      shaving
      (battery 7)
      riding
      start
      (step_peak peak_reads (some reserve) shaving (battery 7) riding start)
unfolding soc_guard_decision
step_peak-IsCut_example =
    step_peak-IsCut peak_reads (some reserve) shaving (battery 7) riding start (inl refl)

abbrev limit_row : GridLimitRow
limit_row = record {
  id = 1;
  site_id = 3;
  pcc_meter_id = 6;
  limits = record {
    max_import_kw = none;
    max_export_kw = some (pos 10_000_000);
    deadband_kw = pos 1_000_000;
    max_step_kw = pos 5_000_000;
  };
  curtail_kw = pos 8_000_000;
}

abbrev inverter : AssetRow
inverter = record {
  site_id = 3;
  meter_id = 9;
  priority = 1;
  rated_kw = pos 50_000_000;
  enabled = true;
}

abbrev grid_reads : GridReads
grid_reads = record {
  curtailment_assets = inverter ∷ [];
  latest = λ _. some (record { ts = 900; active_power_kw = some (pos 40_000_000) });
  max_age_ms = 60_000;
}

abbrev idle_run : GridRun
idle_run = record { process = start; drove = [] }

limit_site-Moves_example :
    let (g', run') = limit_site peak_reads grid_reads limit_row (inverter ∷ []) idle_run in
    Moves limit_row.limits
      (grid_kw_of (peak_reads.fresh_for_control 6))
      limit_row.curtail_kw
      g'.curtail_kw
    × SendsLimits start run'.process
limit_site-Moves_example =
    limit_site-Moves peak_reads grid_reads limit_row inverter [] idle_run (omega arith)
      (omega arith)

abbrev open_db : Db
open_db = record locked_db { control_lock = λ _. none }

-- No device answers.
abbrev dark : Plant
dark = record { tcp = λ _ _ _ _ _. not_connected; publish = λ _ _. Publish.not_running }

abbrev watchdog : WatchdogConfig
watchdog = record {
  key = "dischargePowerKw";
  value = pos 1_000_000;
  interval_ms = pos 10_000;
  device_timeout_ms = pos 60_000;
}

abbrev pet_plan : Plan
pet_plan = record { def = power_def; register = 1; has_override = false }

abbrev refreshes : Refreshes
refreshes = record { world = start.world; last_pet = []; refreshed = 0 }

refresh_one-unreachable_example :
    let s' = refresh_one open_db dark (battery 7) (some watchdog) refreshes in
    (s'.world ≡ start.world) × (pet_of 7 s'.last_pet ≡ some 1000) × (s'.refreshed ≡ 0 + 1)
unfolding check_control check_lock check_key check_verification check_range check_fc check_register
    register_value pet_of watchdog_due
refresh_one-unreachable_example =
    refresh_one-unreachable open_db dark (battery 7) watchdog refreshes pet_plan "10.0.0.7" refl
      refl refl refl
