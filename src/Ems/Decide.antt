-- ===== src/Ems/Decide.antt =====
-- The pure decision functions of api/ems/decide.ts. Powers are integers in millionths of a kW.
pub mod Soc
pub mod Window
pub mod Setpoint
pub mod Peak
use gateway_monitoring_platf.Prelude.{
  ℕ, ◌+◌, ◌*◌, ◌/◌, ◌%◌, ◌^◌, String, Option, none, some, Bool, true, false, not, ◌&&◌, ◌||◌, List,
  [], ◌∷◌, ℤ, pos, ltb, leb, ◌==◌, ltb_ℤ, leb_ℤ, ◌-ℤ◌, neg, min_ℤ, max_ℤ, abs, if◌then◌else◌,
  is_some, or_else,
}
use gateway_monitoring_platf.Control.Types.{ControllableDef, ControllableMap, get}

pub data EmsMode : Type 0 where
  charge discharge idle : EmsMode

-- KEY_PREF
abbrev pub key_pref : EmsMode → List String
key_pref discharge = "dischargePowerKw" ∷ "chargeDischargePowerKw" ∷ "activePowerKw" ∷ []
key_pref charge = "chargePowerKw" ∷ "chargeDischargePowerKw" ∷ "activePowerKw" ∷ []
key_pref idle = "dischargePowerKw" ∷ "chargeDischargePowerKw" ∷ "activePowerKw" ∷ []

-- The loop over the preferred keys.
unfoldable pub first_preferred : ControllableMap → List String → Option (String × ControllableDef)
first_preferred m [] = none
first_preferred m (k ∷ ks) =
    let rest = first_preferred m ks in elim (get k m) [ none ↦ rest | some d ↦ some (k, d) ]

abbrev pub first_entry : ControllableMap → Option (String × ControllableDef)
first_entry [] = none
first_entry (e ∷ m) = some e

unfoldable pub pick_setpoint_key : ControllableMap → EmsMode → Option (String × ControllableDef)
unfolding first_preferred
pick_setpoint_key m mode = elim (first_preferred m (key_pref mode)) [
  | none ↦ first_entry m
  | some e ↦ some e
]

abbrev pub is_charge : EmsMode → Bool
is_charge charge = true
is_charge _ = false

unfoldable pub setpoint_value : EmsMode → ControllableDef → Option ℤ → ℤ
setpoint_value idle d target = pos 0
setpoint_value mode d target =
    let t = or_else target d.max in if is_charge mode && ltb_ℤ d.min (pos 0) then neg t else t

-- The columns of an ems_schedules row that the functions read.
pub record EmsSchedule : Type 0 where
  pub id : ℕ
  pub meter_id : ℕ
  pub day_of_week_mask : ℕ
  pub start_min : ℕ
  pub end_min : ℕ
  pub mode : EmsMode
  pub target_kw : Option ℤ
  pub target_soc : Option ℤ

-- (mask >> dow) & 1
abbrev pub day_bit : ℕ → ℕ → ℕ
day_bit mask dow = mask / 2 ^ dow % 2

unfoldable pub schedule_due : EmsSchedule → ℕ → ℕ → Bool
schedule_due s dow min =
    if day_bit s.day_of_week_mask dow == 0
    then false
    else if s.start_min == s.end_min
    then true
    else if ltb s.start_min s.end_min
    then leb s.start_min min && ltb min s.end_min
    else leb s.start_min min || ltb min s.end_min

pub record SocLimits : Type 0 where
  pub min_soc : Option ℤ
  pub max_soc : Option ℤ

-- The reason of a block; `blocked` is that there is one.
pub data SocReason : Type 0 where
  soc_unknown : SocReason
  at_or_below_min : ℤ → ℤ → SocReason
  at_or_above_max : ℤ → ℤ → SocReason

pub record SocGuardResult : Type 0 where
  pub blocked : Bool
  pub reason : Option SocReason

abbrev pub not_blocked : SocGuardResult
not_blocked = record { blocked = false; reason = none }

-- The last two tests of socGuardDecision, for a known SoC.
unfoldable pub soc_limit_decision : EmsMode → ℤ → SocLimits → SocGuardResult
soc_limit_decision discharge soc limits = elim limits.min_soc [
  | none ↦ not_blocked
  | some m ↦
      if leb_ℤ soc m
      then record { blocked = true; reason = some (at_or_below_min soc m) }
      else not_blocked
]
soc_limit_decision charge soc limits = elim limits.max_soc [
  | none ↦ not_blocked
  | some m ↦
      if leb_ℤ m soc
      then record { blocked = true; reason = some (at_or_above_max soc m) }
      else not_blocked
]
soc_limit_decision idle soc limits = not_blocked

abbrev pub is_idle : EmsMode → Bool
is_idle idle = true
is_idle _ = false

unfoldable pub soc_guard_decision : EmsMode → Option ℤ → SocLimits → SocGuardResult
unfolding soc_limit_decision
soc_guard_decision mode soc limits =
    if is_idle mode
    then not_blocked
    else if not (is_some limits.min_soc) && not (is_some limits.max_soc)
    then not_blocked
    else elim soc [
      | none ↦ record { blocked = true; reason = some soc_unknown }
      | some s ↦ soc_limit_decision mode s limits
    ]

unfoldable pub peak_stop_due : ℤ → ℤ → ℤ → Bool
peak_stop_due import_kw threshold_kw hysteresis_kw = ltb_ℤ import_kw (threshold_kw -ℤ hysteresis_kw)

unfoldable pub peak_start_power : ℤ → ℤ → ℤ → ℤ → ℤ
peak_start_power import_kw threshold_kw max_discharge_kw register_max =
    min_ℤ (min_ℤ (import_kw -ℤ threshold_kw) max_discharge_kw) register_max

unfoldable pub peak_hold_power : ℤ → ℤ → ℤ → ℤ → ℤ
peak_hold_power import_kw threshold_kw max_discharge_kw register_max =
    min_ℤ (min_ℤ (max_ℤ (import_kw -ℤ threshold_kw) (pos 0)) max_discharge_kw) register_max

-- max(1 kW, 10 % of maxDischargeKw), in tenths of a millionth, so that the tenth is exact.
unfoldable pub peak_min_move_kw : ℤ → ℤ
peak_min_move_kw max_discharge_kw = max_ℤ (pos 10_000_000) max_discharge_kw

-- `min_move` in tenths of a millionth, as `peak_min_move_kw` gives it.
unfoldable pub peak_retrim_due : ℤ → Option ℤ → ℤ → Bool
peak_retrim_due power none min_move = true
peak_retrim_due power (some last) min_move = leb_ℤ min_move (pos (10 * abs (power -ℤ last)))

pub record PlanSetpoint : Type 0 where
  pub ts : String
  pub kw : ℤ

-- t <= nowMs, where `none` stands for NaN.
abbrev pub is_past : Option ℕ → ℕ → Bool
is_past none now_ms = false
is_past (some t) now_ms = leb t now_ms

-- `date_parse` is Date.parse: epoch milliseconds, or `none` for NaN.
unfoldable pub plan_kw_from : (String → Option ℕ) → Option ℤ → List PlanSetpoint → ℕ → Option ℤ
plan_kw_from date_parse kw [] now_ms = kw
plan_kw_from date_parse kw (sp ∷ sps) now_ms =
    let rest = plan_kw_from date_parse (some sp.kw) sps now_ms in
    if is_past (date_parse sp.ts) now_ms then rest else kw

unfoldable pub plan_kw_at : (String → Option ℕ) → List PlanSetpoint → ℕ → Option ℤ
unfolding plan_kw_from
plan_kw_at date_parse setpoints now_ms = plan_kw_from date_parse none setpoints now_ms

unfoldable pub kw_to_mode : ℤ → EmsMode
kw_to_mode kw = if ltb_ℤ (pos 0) kw then discharge else if ltb_ℤ kw (pos 0) then charge else idle
