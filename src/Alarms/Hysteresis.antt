-- ===== src/Alarms/Hysteresis.antt =====
-- The pure decisions on one sample: api/alarms/hysteresis.ts and api/alarms/stuck.ts. Times are
-- integer milliseconds.
pub mod Duration
pub mod Stuck
use gateway_monitoring_platf.Prelude.{
  ℕ, ◌+◌, Option, none, some, Bool, true, false, not, ◌&&◌, List, [], ◌∷◌, ltb, leb, if◌then◌else◌,
  or_else,
}

pub record BreachRecord : Type 0 where
  pub breached : Bool
  pub since : Option ℕ
  pub raised_at : Option ℕ

pub data Action : Type 0 where
  none_due raise clear : Action

pub record AlarmAction : Type 0 where
  pub action : Action
  pub next : BreachRecord

abbrev pub cleared : BreachRecord
cleared = record { breached = false; since = none; raised_at = none }

-- `now - since >= durationMs`
abbrev pub has_lasted : ℕ → ℕ → ℕ → Bool
has_lasted since now duration = leb (since + duration) now

-- The two arms of alarmTransition, by whether an alarm is raised.
unfoldable pub on_breach : Option ℕ → ℕ → ℕ → ℕ → AlarmAction
on_breach (some at) since now duration = record {
  action = none_due;
  next = record { breached = true; since = some since; raised_at = some at };
}
on_breach none since now duration =
    if has_lasted since now duration
    then record {
      action = raise;
      next = record { breached = true; since = some since; raised_at = some now };
    }
    else record {
      action = none_due;
      next = record { breached = true; since = some since; raised_at = none };
    }

unfoldable pub on_recovery : Option ℕ → AlarmAction
on_recovery (some at) = record { action = clear; next = cleared }
on_recovery none = record { action = none_due; next = cleared }

unfoldable pub alarm_transition : BreachRecord → Bool → ℕ → ℕ → AlarmAction
unfolding on_breach on_recovery
alarm_transition rec breached now duration =
    if breached
    then on_breach rec.raised_at (or_else rec.since now) now duration
    else on_recovery rec.raised_at

-- A register that has frozen: `same` is Object.is on the values.
pub record StuckRecord {ℓ} (V : Type ℓ) : Type ℓ where
  pub value : V
  pub since : ℕ

pub data StuckKind : Type 0 where
  changed unchanged : StuckKind
  suspect : ℕ → StuckKind

pub record StuckStep {ℓ} (V : Type ℓ) : Type ℓ where
  pub kind : StuckKind
  pub next : StuckRecord V

-- What a repeated value is, for a run since `since`.
abbrev pub run_kind : ℕ → ℕ → ℕ → StuckKind
run_kind since now window =
    if ltb 0 window && has_lasted since now window then suspect window else unchanged

module _ {ℓ} {V : Type ℓ} where
  unfoldable pub stuck_step : (V → V → Bool) → Option (StuckRecord V) → V → ℕ → ℕ → StuckStep V
  stuck_step same none value now window = record {
    kind = changed;
    next = record { value = value; since = now };
  }
  stuck_step same (some prev) value now window =
      if not (same prev.value value)
      then record { kind = changed; next = record { value = value; since = now } }
      else record { kind = run_kind prev.since now window; next = prev }

  unfoldable pub confirm_stuck : StuckRecord V → Option ℕ → ℕ → ℕ → Bool × StuckRecord V
  confirm_stuck rec none now window = (true, rec)
  confirm_stuck rec (some changed_at) now window =
      (has_lasted changed_at now window, record rec { since = changed_at })
