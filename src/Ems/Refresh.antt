-- ===== src/Ems/Refresh.antt =====
-- The watchdog refresh of the EMS controller (api/ems/controller.ts, watchdogForModel and
-- refreshWatchdogs). The warnings and the set that keeps them to one each are not modelled.
pub mod Unreachable
use gateway_monitoring_platf.Prelude.{
  ℕ, ◌+◌, String, Option, none, some, Bool, true, false, List, [], ◌∷◌, ℤ, pos, ◌==◌, if◌then◌else◌,
}
use gateway_monitoring_platf.Control.Types.{ControllableMap, Num, finite, not_finite}
use gateway_monitoring_platf.Control.Execute.{Db, Meter, controllable_for_model}
use gateway_monitoring_platf.Control.Perform.{
  Plant, World, Outcome, ControlResult, returns, rejects, throws, execute_control,
}
use gateway_monitoring_platf.Ems.Watchdog.{
  WatchdogConfig, RawFields, RawConfig, absent, not_object, fields, Problem, validate_watchdog,
  effective_interval_ms, watchdog_due,
}

-- lastPet, the process, and the count of the refreshes.
pub record Refreshes : Type 0 where
  pub world : World
  pub last_pet : List (ℕ × ℕ)
  pub refreshed : ℕ

unfoldable pub pet_of : ℕ → List (ℕ × ℕ) → Option ℕ
pet_of id [] = none
pet_of id ((j, at) ∷ pets) = let rest = pet_of id pets in if j == id then some at else rest

unfoldable pub set_pet : ℕ → ℕ → List (ℕ × ℕ) → List (ℕ × ℕ)
set_pet id at [] = (id, at) ∷ []
set_pet id at ((j, old) ∷ pets) =
    let rest = (j, old) ∷ set_pet id at pets in if j == id then (id, at) ∷ pets else rest

abbrev pub to_int : Option ℕ → Option ℤ
to_int none = none
to_int (some n) = some (pos n)

-- `raw as WatchdogConfig`, for a block that has passed its validation.
abbrev pub typed : Option String → Option Num → Option ℤ → Option ℤ → Option WatchdogConfig
typed (some key) (some (finite value)) (some interval) (some timeout) =
    some (record { key = key; value = value; interval_ms = interval; device_timeout_ms = timeout })
typed _ _ _ _ = none

abbrev pub config_of : RawConfig → Option WatchdogConfig
config_of absent = none
config_of not_object = none
config_of (fields c) = typed c.key c.value c.interval_ms c.device_timeout_ms

abbrev pub unless_problem : Option Problem → RawConfig → Option WatchdogConfig
unless_problem none raw = config_of raw
unless_problem (some problem) raw = none

-- `raw` is the watchdog column of the profile of a model.
unfoldable pub watchdog_for_model : Db → (String → RawConfig) → String → Option WatchdogConfig
watchdog_for_model db raw model =
    unless_problem (validate_watchdog (raw model) (controllable_for_model db model)) (raw model)

-- A call that returned counts as a refresh; one that threw does not.
unfoldable pub record_refresh : ℕ → Outcome ControlResult × World → Refreshes → Refreshes
record_refresh id (returns result, w) s = record {
  world = w;
  last_pet = set_pet id w.now s.last_pet;
  refreshed = s.refreshed + 1;
}
record_refresh id (rejects r, w) s = record s { world = w }
record_refresh id (throws, w) s = record s { world = w }

unfoldable pub refresh_one : Db → Plant → Meter → Option WatchdogConfig → Refreshes → Refreshes
unfolding record_refresh
refresh_one db plant meter none s = s
refresh_one db plant meter (some cfg) s =
    if watchdog_due (to_int (pet_of meter.id s.last_pet)) (pos s.world.now)
      (effective_interval_ms cfg)
    then record_refresh meter.id
        (execute_control db plant meter cfg.key (finite cfg.value) false s.world) s
    else s

unfoldable pub refresh_watchdogs :
    Db → Plant → (String → RawConfig) → List Meter → Refreshes → Refreshes
refresh_watchdogs db plant raw [] s = s
refresh_watchdogs db plant raw (meter ∷ meters) s =
    refresh_watchdogs db plant raw meters
      (refresh_one db plant meter (watchdog_for_model db raw meter.model) s)
