-- ===== src/Ems/Watchdog/Config.antt =====
-- Which watchdog blocks validateWatchdog accepts (api/ems/watchdog.ts).
use gateway_monitoring_platf.Prelude.{
  ◌≡◌, ◌≢◌, ◌↔◌, String, Option, none, some, ℤ, pos, ◌≤ℤ◌, ◌<ℤ◌, arith, eq_iff, Option-cases, inl,
  inr, refl,
}
use gateway_monitoring_platf.Control.Types.{
  ControllableDef, ControllableMap, get, Num, finite, not_finite,
}
use gateway_monitoring_platf.Ems.Watchdog.{
  WatchdogConfig, RawFields, fields, validate_watchdog, validate_key, validate_value,
  validate_times,
}

-- The block `c` reads as the configuration `w`.
pub record Reads (c : RawFields) (w : WatchdogConfig) : Type 0 where
  pub key : c.key ≡ some w.key
  pub value : c.value ≡ some (finite w.value)
  pub interval : c.interval_ms ≡ some w.interval_ms
  pub timeout : c.device_timeout_ms ≡ some w.device_timeout_ms

-- `w` can be used with the profile's registers: a named register that it declares, a value in the
-- register's range, positive times, and a refresh faster than the device gives up.
pub record IsUsable (controllable : ControllableMap) (w : WatchdogConfig) : Type 0 where
  pub named : w.key ≢ ""
  pub def : ControllableDef
  pub declared : get w.key controllable ≡ some def
  pub above_min : def.min ≤ℤ w.value
  pub below_max : w.value ≤ℤ def.max
  pub timeout_positive : pos 0 <ℤ w.device_timeout_ms
  pub interval_positive : pos 0 <ℤ w.interval_ms
  pub interval_shorter : w.interval_ms <ℤ w.device_timeout_ms

validate_times_lem :
    (timeout interval : Option ℤ)
    → validate_times timeout interval ≡ none
    → (t : ℤ) × (i : ℤ) × (timeout ≡ some t)
      × (interval ≡ some i)
      × (pos 0 <ℤ t)
      × (pos 0 <ℤ i)
      × (i <ℤ t)
unfolding validate_times
validate_times_lem none interval h = cc
validate_times_lem (some t) none h = absurd (ground arith)
validate_times_lem (some t) (some i) h =
    (t, i, refl, refl, ground arith, ground arith, ground arith)

validate_value_lem :
    (value : Option Num) (def : ControllableDef) (c : RawFields)
    → validate_value value def c ≡ none
    → (v : ℤ) × (value ≡ some (finite v))
      × (def.min ≤ℤ v)
      × (v ≤ℤ def.max)
      × (validate_times c.device_timeout_ms c.interval_ms ≡ none)
unfolding validate_value
validate_value_lem none def c h = cc
validate_value_lem (some not_finite) def c h = cc
validate_value_lem (some (finite v)) def c h = (v, refl, ground arith, ground arith, ground arith)

validate_key_lem :
    (key : Option String) (m : ControllableMap) (c : RawFields)
    → validate_key key m c ≡ none
    → (k : String) × (def : ControllableDef) × (key ≡ some k)
      × (k ≢ "")
      × (get k m ≡ some def)
      × (validate_value c.value def c ≡ none)
unfolding validate_key
validate_key_lem none m c h = cc
validate_key_lem (some k) m c h = elim (Option-cases (get k m)) [
  | inl e ↦ absurd (ground arith)
  | inr (def, e) ↦ (k, def, refl, ground (arith, eq_iff k ""), e, ground arith)
]

IsUsable-of_accepted :
    (c : RawFields) (m : ControllableMap)
    → validate_watchdog (fields c) m ≡ none
    → (w : WatchdogConfig) × Reads c w × IsUsable m w
unfolding validate_watchdog
IsUsable-of_accepted c m h =
    let (k, def, key, named, declared, hv) = validate_key_lem c.key m c h in
    let (v, value, low, high, ht) = validate_value_lem c.value def c hv in
    let (t, i, timeout, interval, pt, pi, lt) =
      validate_times_lem c.device_timeout_ms c.interval_ms ht in
    (
      record { key = k; value = v; interval_ms = i; device_timeout_ms = t },
      record { key = key; value = value; interval = interval; timeout = timeout },
      record {
        named = named;
        def = def;
        declared = declared;
        above_min = low;
        below_max = high;
        timeout_positive = pt;
        interval_positive = pi;
        interval_shorter = lt;
      },
    )

accepted_of_usable :
    (c : RawFields) (m : ControllableMap) (w : WatchdogConfig)
    → Reads c w
    → IsUsable m w
    → validate_watchdog (fields c) m ≡ none
unfolding validate_watchdog
accepted_of_usable c m w r u = ground (arith, eq_iff w.key "")

-- A watchdog block that is present passes the validation exactly when it reads as a configuration
-- that can be used with the profile's registers.
pub validate_watchdog_iff :
    (c : RawFields) (controllable : ControllableMap)
    → (validate_watchdog (fields c) controllable ≡ none)
      ↔ ((w : WatchdogConfig) × Reads c w × IsUsable controllable w)
validate_watchdog_iff c m = (IsUsable-of_accepted c m, λ (w, r, u). accepted_of_usable c m w r u)
