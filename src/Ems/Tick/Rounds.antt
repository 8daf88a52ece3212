-- ===== src/Ems/Tick/Rounds.antt =====
-- What one round of a strategy calls (api/ems/controller.ts).
use mathlib.Core.Path.{subst}
use gateway_monitoring_platf.Prelude.{
  ℕ, ◌+◌, ◌≡◌, ◌≤◌, inl, inr, refl, String, Option, none, some, Bool, ◌||◌, arith, List, [], ◌∷◌,
  ◌++◌, ℤ, length, filter, Bool-cases, ◌==◌, if◌then◌else◌,
}
use gateway_monitoring_platf.Control.Types.{ControllableDef}
use gateway_monitoring_platf.Control.Execute.{Meter}
use gateway_monitoring_platf.Ems.Decide.{EmsSchedule, schedule_due, plan_kw_at}
use gateway_monitoring_platf.Ems.Tick.{
  Attempt, Process, TickReads, PlanRow, is_repeat, last_of, send, has_meter, schedule_blocked,
  fire_schedule, due_schedule, try_schedule, fire_plan, due_plan, try_plan, plan_value,
}

abbrev pub one_if : Bool → ℕ
one_if b = if b then 1 else 0

-- How often the control path was called for a meter.
abbrev pub calls_of : ℕ → List Attempt → ℕ
calls_of m attempts = length (filter (λ a. a.meter_id == m) attempts)

abbrev pub plans_of : ℕ → List PlanRow → ℕ
plans_of m plans = length (filter (λ p. p.meter_id == m) plans)

filter-append :
    (p : Attempt → Bool) (xs ys : List Attempt)
    → length (filter p (xs ++ ys)) ≡ length (filter p xs) + length (filter p ys)
filter-append p [] ys = omega arith
filter-append p (x ∷ xs) ys = ground (arith, filter-append p xs ys)

pub has_meter-append :
    (xs ys : List ℕ) (m : ℕ) → has_meter (xs ++ ys) m ≡ (has_meter xs m || has_meter ys m)
unfolding has_meter
has_meter-append [] ys m = refl
has_meter-append (x ∷ xs) ys m = ground (arith, has_meter-append xs ys m)

-- The numbers under which the meters are loaded are theirs.
abbrev pub IsKeyed : TickReads → Type 0
IsKeyed reads = (id : ℕ) (meter : Meter) → reads.meter id ≡ some meter → meter.id ≡ id

module _ (reads : TickReads) (m : ℕ) where
  calls_of-send :
      (meter : Meter) (key : String) (value : ℤ) (p : Process)
      → calls_of m (send reads meter key value p).attempts
        ≤ calls_of m p.attempts + one_if (meter.id == m)
  unfolding send
  calls_of-send meter key value p =
      elim (Bool-cases (is_repeat value p.world.now (last_of meter.id key p.last_cmd))) [
        | inl again ↦ rw again (omega arith)
        | inr new ↦ rw new (
            ground (
              arith,
              filter-append (λ a. a.meter_id == m) p.attempts
                  (record { meter_id = meter.id; key = key; value = value } ∷ []),
            ))
      ]

  -- What a step that may take a meter calls: at most once, only for that meter, only if it took it.
  abbrev pub Bounded : ℕ → Process → Bool × Process → Type 0
  Bounded id p r =
      calls_of m (r.1).attempts ≤ calls_of m p.attempts + (if r.0 then one_if (id == m) else 0)

  fire_schedule-Bounded :
      (s : EmsSchedule) (meter : Meter) (sel : Option (String × ControllableDef)) (p : Process)
      → Bounded meter.id p (fire_schedule reads s meter sel p)
  unfolding fire_schedule
  fire_schedule-Bounded s meter none p = omega arith
  fire_schedule-Bounded s meter (some (key, def)) p = elim (Bool-cases (schedule_blocked reads s)) [
    | inl blocked ↦ rw blocked (omega arith)
    | inr clear ↦ rw clear (calls_of-send meter key _ p)
  ]

  due_schedule-Bounded :
      (s : EmsSchedule) (meter : Meter) (clock : Option (ℕ × ℕ)) (p : Process)
      → Bounded meter.id p (due_schedule reads s meter clock p)
  unfolding due_schedule
  due_schedule-Bounded s meter none p = omega arith
  due_schedule-Bounded s meter (some (dow, min)) p = elim (Bool-cases (schedule_due s dow min)) [
    | inl due ↦ rw due (fire_schedule-Bounded s meter _ p)
    | inr idle ↦ rw idle (omega arith)
  ]

  pub try_schedule-Bounded :
      (s : EmsSchedule) (meter : Option Meter) (p : Process)
      → ((a : Meter) → meter ≡ some a → a.id ≡ s.meter_id)
      → Bounded s.meter_id p (try_schedule reads s meter p)
  unfolding try_schedule
  try_schedule-Bounded s none p keyed = omega arith
  try_schedule-Bounded s (some meter) p keyed =
      let r = due_schedule reads s meter (reads.local_clock meter) p in
      subst (λ id. Bounded id p r) (keyed meter refl)
        (due_schedule-Bounded s meter (reads.local_clock meter) p)

  due_plan-Bounded :
      (plan : PlanRow) (meter : Meter) (kw : Option ℤ) (p : Process)
      → Bounded meter.id p (due_plan reads plan meter kw p)
  unfolding due_plan fire_plan
  due_plan-Bounded plan meter none p = omega arith
  due_plan-Bounded plan meter (some kw) p = fire_plan-Bounded _
    where
      fire_plan-Bounded :
          (sel : Option (String × ControllableDef))
          → Bounded meter.id p (fire_plan reads plan kw meter sel p)
      fire_plan-Bounded none = omega arith
      fire_plan-Bounded (some (key, def)) = calls_of-send meter key (plan_value reads plan kw def) p

  pub try_plan-Bounded :
      (plan : PlanRow) (now : ℕ) (meter : Option Meter) (p : Process)
      → ((a : Meter) → meter ≡ some a → a.id ≡ plan.meter_id)
      → Bounded plan.meter_id p (try_plan reads plan now meter p)
  unfolding try_plan
  try_plan-Bounded plan now none p keyed = omega arith
  try_plan-Bounded plan now (some meter) p keyed =
      let kw = plan_kw_at reads.date_parse plan.setpoints now in
      subst (λ id. Bounded id p (due_plan reads plan meter kw p)) (keyed meter refl)
        (due_plan-Bounded plan meter kw p)
