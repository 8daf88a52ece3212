-- ===== src/Ems/Watchdog.antt =====
-- The setpoint deadman of api/ems/watchdog.ts. Times are integer milliseconds.
pub mod Config
pub mod Timing
use gateway_monitoring_platf.Prelude.{
  ℕ, String, Option, none, some, Bool, true, false, ℤ, pos, ltb_ℤ, leb_ℤ, ◌-ℤ◌, min_ℤ, max_ℤ,
  div_floor, ◌||◌, if◌then◌else◌, str_eq,
}
use gateway_monitoring_platf.Control.Types.{
  ControllableDef, ControllableMap, get, Num, finite, not_finite,
}

pub record WatchdogConfig : Type 0 where
  pub key : String
  pub value : ℤ
  pub interval_ms : ℤ
  pub device_timeout_ms : ℤ

-- The JSON of a profile's `watchdog` column. A field is `none` where the JSON holds no value of
-- the type that the check asks for.
pub record RawFields : Type 0 where
  pub key : Option String
  pub value : Option Num
  pub interval_ms : Option ℤ
  pub device_timeout_ms : Option ℤ

pub data RawConfig : Type 0 where
  absent : RawConfig
  not_object : RawConfig
  fields : RawFields → RawConfig

-- The reasons that validateWatchdog returns as texts.
pub data Problem : Type 0 where
  must_be_object key_required key_not_controllable value_not_number value_out_of_range : Problem
  timeout_not_positive interval_not_positive interval_too_long : Problem

abbrev pub min_interval_ms : ℤ
min_interval_ms = pos 1000

abbrev pub refreshes_per_timeout : ℕ
refreshes_per_timeout = 3

-- The checks of the two times, the last ones of validateWatchdog.
unfoldable pub validate_times : Option ℤ → Option ℤ → Option Problem
validate_times none interval = some timeout_not_positive
validate_times (some timeout) none =
    if leb_ℤ timeout (pos 0) then some timeout_not_positive else some interval_not_positive
validate_times (some timeout) (some interval) =
    if leb_ℤ timeout (pos 0)
    then some timeout_not_positive
    else if leb_ℤ interval (pos 0)
    then some interval_not_positive
    else if leb_ℤ timeout interval
    then some interval_too_long
    else none

-- The checks of the value against the register's range, and those that follow.
unfoldable pub validate_value : Option Num → ControllableDef → RawFields → Option Problem
unfolding validate_times
validate_value (some (finite v)) def c =
    if ltb_ℤ v def.min || ltb_ℤ def.max v
    then some value_out_of_range
    else validate_times c.device_timeout_ms c.interval_ms
validate_value (some not_finite) def c = some value_not_number
validate_value none def c = some value_not_number

unfoldable pub validate_key : Option String → ControllableMap → RawFields → Option Problem
unfolding validate_value
validate_key none controllable c = some key_required
validate_key (some key) controllable c =
    if str_eq key "" then some key_required else elim (get key controllable) [
      | none ↦ some key_not_controllable
      | some def ↦ validate_value c.value def c
    ]

unfoldable pub validate_watchdog : RawConfig → ControllableMap → Option Problem
unfolding validate_key
validate_watchdog absent controllable = none
validate_watchdog not_object controllable = some must_be_object
validate_watchdog (fields c) controllable = validate_key c.key controllable c

unfoldable pub effective_interval_ms : WatchdogConfig → ℤ
unfolding min_ℤ max_ℤ div_floor
effective_interval_ms cfg =
    let safe = div_floor cfg.device_timeout_ms refreshes_per_timeout in
    max_ℤ min_interval_ms (min_ℤ cfg.interval_ms safe)

unfoldable pub watchdog_due : Option ℤ → ℤ → ℤ → Bool
unfolding ◌-ℤ◌
watchdog_due none now_ms interval_ms = true
watchdog_due (some last_at) now_ms interval_ms = leb_ℤ interval_ms (now_ms -ℤ last_at)

unfoldable pub tick_too_slow : WatchdogConfig → ℤ → Bool
unfolding effective_interval_ms
tick_too_slow cfg tick_ms = ltb_ℤ (effective_interval_ms cfg) tick_ms
