-- ===== src/Ems/Tests.antt =====
-- Runs of the controller's decisions (api/ems) on small inputs.
use mathlib.Core.List.{Perm}
use gateway_monitoring_platf.Prelude.{
  ℕ, ◌+◌, ◌*◌, ◌≡◌, ◌↔◌, ◌≤◌, min, String, Option, none, some, true, List, [], ◌∷◌, length, pos,
  negsuc, pos_part, IsOrdered, str_eq, if◌then◌else◌,
}
use gateway_monitoring_platf.Control.Types.{ControllableDef, ControllableMap, finite}
use gateway_monitoring_platf.Ems.Decide.{
  EmsMode, SocLimits, soc_guard_decision, EmsSchedule, PlanSetpoint,
}
use gateway_monitoring_platf.Ems.Decide.Soc.{MustBlock, soc_guard_decision_iff}
use gateway_monitoring_platf.Ems.Watchdog.{WatchdogConfig, RawFields}
use gateway_monitoring_platf.Ems.Curtail.{
  GridLimits, GridState, GridStatus, CurtailAsset, AssetShare, sort_assets, allocate_curtailment,
}
use gateway_monitoring_platf.Ems.Curtail.Shares.{
  IsBefore, IsGreedy, taken, total_available, allocate_curtailment_lem,
}

abbrev battery_def : ControllableDef
battery_def = record {
  address = 40;
  fc = some 6;
  min = negsuc 49_999_999;
  max = pos 50_000_000;
  scale = none;
}

abbrev battery_map : ControllableMap
battery_map = ("chargeDischargePowerKw", battery_def) ∷ []

abbrev soc_limits : SocLimits
soc_limits = record { min_soc = some (pos 20_000_000); max_soc = none }

soc_guard_decision_iff_example :
    ((soc_guard_decision EmsMode.discharge (some (pos 15_000_000)) soc_limits).blocked ≡ true)
    ↔ MustBlock EmsMode.discharge (some (pos 15_000_000)) soc_limits
soc_guard_decision_iff_example =
    soc_guard_decision_iff EmsMode.discharge (some (pos 15_000_000)) soc_limits

-- Weekday nights from 22:00 to 06:00.
abbrev nights : EmsSchedule
nights = record {
  id = 1;
  meter_id = 7;
  day_of_week_mask = 62;
  start_min = 1320;
  end_min = 360;
  mode = EmsMode.charge;
  target_kw = none;
  target_soc = none;
}

-- A plan of two steps; a clock that reads the texts "a" and "b" as 100 and 200.
abbrev clock : String → Option ℕ
clock t = if str_eq t "a" then some 100 else if str_eq t "b" then some 200 else none

abbrev day_plan : List PlanSetpoint
day_plan = record { ts = "a"; kw = pos 5_000_000 } ∷ record { ts = "b"; kw = negsuc 4_999_999 } ∷ []

abbrev watchdog : WatchdogConfig
watchdog = record {
  key = "heartbeat";
  value = pos 1_000_000;
  interval_ms = pos 20_000;
  device_timeout_ms = pos 30_000;
}

abbrev watchdog_json : RawFields
watchdog_json = record {
  key = some "heartbeat";
  value = some (finite (pos 1_000_000));
  interval_ms = some (pos 20_000);
  device_timeout_ms = some (pos 30_000);
}

abbrev hasty_watchdog : WatchdogConfig
hasty_watchdog = record watchdog { interval_ms = pos 400; device_timeout_ms = pos 900 }

abbrev grid_limits : GridLimits
grid_limits = record {
  max_import_kw = none;
  max_export_kw = some (pos 100_000_000);
  deadband_kw = pos 2_000_000;
  max_step_kw = pos 10_000_000;
}

abbrev over_limit : GridStatus
over_limit = record {
  state = GridState.over_export;
  excess_kw = pos 30_000_000;
  headroom_kw = pos 0;
}

abbrev assets : List CurtailAsset
assets =
    record {
      meter_id = 1;
      priority = 2;
      rated_kw = pos 50_000_000;
      output_kw = some (pos 40_000_000);
    }
    ∷ record {
      meter_id = 2;
      priority = 1;
      rated_kw = pos 50_000_000;
      output_kw = some (pos 10_000_000);
    }
    ∷ []

allocate_curtailment_lem_example :
    let ordered = sort_assets assets in
    let shares = allocate_curtailment (pos 15_000_000) assets in
    let asked = min (pos_part (pos 15_000_000)) (total_available ordered) in
    Perm ordered assets
    × IsOrdered IsBefore ordered
    × IsGreedy ordered shares
    × (taken shares ≤ asked + 500 * length ordered)
    × (asked ≤ taken shares + 500 * length ordered)
allocate_curtailment_lem_example = allocate_curtailment_lem (pos 15_000_000) assets

abbrev share : AssetShare
share = record { meter_id = 1; take_kw = 5_000_000; rated_kw = pos 50_000_000 }
