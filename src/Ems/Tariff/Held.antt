-- ===== src/Ems/Tariff/Held.antt =====
-- How the controller reads a plan of planArbitrage (api/ems/tariff.ts, and planKwAt of
-- api/ems/decide.ts): a setpoint holds until the next one.
use gateway_monitoring_platf.Prelude.{ℕ, ◌<◌, ◌≢◌, String, pos}
use gateway_monitoring_platf.Ems.Decide.{PlanSetpoint}
use gateway_monitoring_platf.Ems.Tariff.Plan.{BatteryLimits, per_hour, Setpoint, Plan}

-- A setpoint as it is stored: `iso` is Date.toISOString.
abbrev pub stored : (ℕ → String) → Setpoint → PlanSetpoint
stored iso s = record { ts = iso s.ts; kw = s.power }

module _ (l : BatteryLimits) (some_hour : 0 < per_hour l) where
  abbrev IsMoving : Setpoint → Type 0
  IsMoving s = s.power ≢ pos 0
