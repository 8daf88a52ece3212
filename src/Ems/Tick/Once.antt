-- ===== src/Ems/Tick/Once.antt =====
-- How often a tick commands a meter (api/ems/controller.ts).
use mathlib.Core.Path.{subst}
use gateway_monitoring_platf.Prelude.{
  ℕ, suc, ◌+◌, ◌≡◌, ◌≤◌, inl, inr, Bool, true, false, ◌||◌, arith, List, [], ◌∷◌, ◌++◌, filter,
  Bool-cases, ◌==◌, if◌then◌else◌, sort_by,
}
use gateway_monitoring_platf.Ems.Decide.{EmsSchedule}
use gateway_monitoring_platf.Ems.Tick.{
  Process, TickReads, PlanRow, has_meter, try_schedule, step_schedule, eval_schedules, try_plan,
  first_of_each, step_plan, run_plans, eval_plans, drive_tick, covers_now, plan_before,
}
use gateway_monitoring_platf.Ems.Tick.Rounds.{
  one_if, calls_of, plans_of, IsKeyed, has_meter-append, try_schedule-Bounded, try_plan-Bounded,
}

took_lem :
    (m id : ℕ) (fired : List ℕ) (q p : Process)
    → (id ≡ m → has_meter fired m ≡ false)
    → calls_of m q.attempts ≤ calls_of m p.attempts + one_if (id == m)
    → calls_of m q.attempts + one_if (has_meter fired m)
      ≤ calls_of m p.attempts + one_if (has_meter (id ∷ fired) m)
unfolding has_meter
took_lem m id fired q p free h = elim (Bool-cases (id == m)) [
  | inl same ↦
      let new : has_meter fired m ≡ false = free (ground arith) in
      let k : calls_of m q.attempts ≤ calls_of m p.attempts + 1 = rw same at h in
      rw (same, new) (omega arith)
  | inr other ↦
      let k : calls_of m q.attempts ≤ calls_of m p.attempts + 0 = rw other at h in
      rw other (omega arith)
]

module _ (reads : TickReads) (keyed : IsKeyed reads) (m : ℕ) where
  step_schedule-once :
      (s : EmsSchedule) (fired : List ℕ) (p : Process)
      → let r = step_schedule reads s fired p in
        calls_of m (r.1).attempts + one_if (has_meter fired m)
        ≤ calls_of m p.attempts + one_if (has_meter (r.0) m)
  unfolding step_schedule
  step_schedule-once s fired p =
      let r = try_schedule reads s (reads.meter s.meter_id) p in
      let step = try_schedule-Bounded reads m s (reads.meter s.meter_id) p (keyed s.meter_id) in
      elim (Bool-cases (has_meter fired s.meter_id)) [
        | inl taken ↦ rw taken (omega arith)
        | inr free ↦ elim (Bool-cases (r.0)) [
          | inl took ↦
              rw (free, took)
                (took_lem m s.meter_id fired (r.1) p
                  (λ e. subst (λ n. has_meter fired n ≡ false) e free) (rw took at step))
          | inr missed ↦
              let still : calls_of m (r.1).attempts ≤ calls_of m p.attempts + 0 =
                rw missed at step in
              rw (free, missed) (omega arith)
        ]
      ]

  -- A meter that is spoken for is not commanded, any other at most once.
  eval_schedules-once :
      (schedules : List EmsSchedule) (fired : List ℕ) (p : Process)
      → calls_of m (eval_schedules reads schedules fired p).1.attempts + one_if (has_meter fired m)
        ≤ calls_of m p.attempts + 1
  unfolding eval_schedules
  eval_schedules-once [] fired p = ground arith
  eval_schedules-once (s ∷ schedules) fired p =
      let r = step_schedule reads s fired p in
      omega (arith, step_schedule-once s fired p, eval_schedules-once schedules (r.0) (r.1))

  step_plan-once :
      (plan : PlanRow) (now : ℕ) (skip fired : List ℕ) (p : Process)
      → (plan.meter_id ≡ m → has_meter fired m ≡ false)
      → let r = step_plan reads plan now skip fired p in
        calls_of m (r.1).attempts + one_if (has_meter fired m)
        ≤ calls_of m p.attempts + one_if (has_meter (r.0) m)
  unfolding step_plan
  step_plan-once plan now skip fired p free =
      let r = try_plan reads plan now (reads.meter plan.meter_id) p in
      let step =
        try_plan-Bounded reads m plan now (reads.meter plan.meter_id) p (keyed plan.meter_id) in
      elim (Bool-cases (has_meter skip plan.meter_id)) [
        | inl skipped ↦ rw skipped (omega arith)
        | inr open_meter ↦ elim (Bool-cases (r.0)) [
          | inl took ↦
              rw (open_meter, took) (took_lem m plan.meter_id fired (r.1) p free (rw took at step))
          | inr missed ↦
              let still : calls_of m (r.1).attempts ≤ calls_of m p.attempts + 0 =
                rw missed at step in
              rw (open_meter, missed) (omega arith)
        ]
      ]

  step_plan-fired :
      (plan : PlanRow) (now : ℕ) (skip fired : List ℕ) (p : Process)
      → one_if (has_meter (step_plan reads plan now skip fired p).0 m)
        ≤ one_if (plan.meter_id == m) + one_if (has_meter fired m)
  unfolding step_plan has_meter
  step_plan-fired plan now skip fired p = ground arith

  -- What is to be skipped is not commanded.
  step_plan-skip :
      (plan : PlanRow) (now : ℕ) (skip fired : List ℕ) (p : Process)
      → has_meter skip m ≡ true
      → calls_of m (step_plan reads plan now skip fired p).1.attempts ≤ calls_of m p.attempts
  unfolding step_plan
  step_plan-skip plan now skip fired p h =
      let r = try_plan reads plan now (reads.meter plan.meter_id) p in
      let step =
        try_plan-Bounded reads m plan now (reads.meter plan.meter_id) p (keyed plan.meter_id) in
      elim (Bool-cases (has_meter skip plan.meter_id)) [
        | inl skipped ↦ rw skipped (omega arith)
        | inr open_meter ↦
            let other : (plan.meter_id == m) ≡ false = elim (Bool-cases (plan.meter_id == m)) [
              | inl same ↦
                  let is_m : m ≡ plan.meter_id = ground arith in
                  absurd (let k = subst (λ n. has_meter skip n ≡ true) is_m h in cc)
              | inr o ↦ o
            ] in
            let k = rw other at step in rw open_meter (ground arith)
      ]

  run_plans-once :
      (plans : List PlanRow) (now : ℕ) (skip fired : List ℕ) (p : Process)
      → plans_of m plans + one_if (has_meter fired m) ≤ 1
      → let r = run_plans reads plans now skip fired p in
        calls_of m (r.1).attempts + one_if (has_meter fired m)
        ≤ calls_of m p.attempts + one_if (has_meter (r.0) m)
  unfolding run_plans
  run_plans-once [] now skip fired p h = omega arith
  run_plans-once (plan ∷ plans) now skip fired p h =
      let r = step_plan reads plan now skip fired p in
      let once = step_plan-once plan now skip fired p (λ e. ground arith) in
      let left : plans_of m plans + one_if (has_meter (r.0) m) ≤ 1 =
        ground (arith, step_plan-fired plan now skip fired p) in
      omega (arith, once, run_plans-once plans now skip (r.0) (r.1) left)

  run_plans-skip :
      (plans : List PlanRow) (now : ℕ) (skip fired : List ℕ) (p : Process)
      → has_meter skip m ≡ true
      → calls_of m (run_plans reads plans now skip fired p).1.attempts ≤ calls_of m p.attempts
  unfolding run_plans
  run_plans-skip [] now skip fired p h = omega arith
  run_plans-skip (plan ∷ plans) now skip fired p h =
      let r = step_plan reads plan now skip fired p in
      omega
        (arith, step_plan-skip plan now skip fired p h, run_plans-skip plans now skip (r.0) (r.1) h)

count_lem :
    (id m n : ℕ) (seen : Bool)
    → (id ≡ m → seen ≡ false)
    → n + one_if (id == m || seen) ≤ 1
    → (if id == m then suc n else n) + one_if seen ≤ 1
count_lem id m n seen fresh h = elim (Bool-cases (id == m)) [
  | inl same ↦ let new = fresh (ground arith) in ground arith
  | inr other ↦ ground arith
]

-- Of each meter one plan is left.
first_of_each-once :
    (m : ℕ) (seen : List ℕ) (plans : List PlanRow)
    → plans_of m (first_of_each seen plans) + one_if (has_meter seen m) ≤ 1
unfolding first_of_each has_meter
first_of_each-once m seen [] = ground arith
first_of_each-once m seen (plan ∷ plans) = elim (Bool-cases (has_meter seen plan.meter_id)) [
  | inl old ↦ rw (old, first_of_each) (first_of_each-once m seen plans)
  | inr new ↦
      let rest = first_of_each-once m (plan.meter_id ∷ seen) plans in
      let fresh : plan.meter_id ≡ m → has_meter seen m ≡ false =
        λ e. subst (λ n. has_meter seen n ≡ false) e new in
      let n = plans_of m (first_of_each (plan.meter_id ∷ seen) plans) in
      rw (new, first_of_each)
        (ground (arith, count_lem plan.meter_id m n (has_meter seen m) fresh rest))
]

-- The plans and the schedules of a tick together call the control path at most once for a meter, and
-- not at all for a meter that the grid limits or peak shaving drove in this tick, if the meters are
-- loaded under their own numbers.
pub drive_tick-once :
    (reads : TickReads) (plans : List PlanRow) (schedules : List EmsSchedule) (now m : ℕ)
    (grid_drove peak_drove : List ℕ) (p : Process)
    → IsKeyed reads
    → let p' = (drive_tick reads plans schedules now grid_drove peak_drove p).1 in
      calls_of m p'.attempts + one_if (has_meter (grid_drove ++ peak_drove) m)
      ≤ calls_of m p.attempts + 1
unfolding drive_tick eval_plans
drive_tick-once reads plans schedules now m grid_drove peak_drove p keyed =
    let skip = grid_drove ++ peak_drove in
    let chosen = first_of_each [] (sort_by plan_before (filter (covers_now now) plans)) in
    let r = run_plans reads chosen now skip [] p in
    let planned = run_plans-once reads keyed m chosen now skip [] p (first_of_each-once m [] _) in
    let scheduled = eval_schedules-once reads keyed m schedules (skip ++ r.0) (r.1) in
    elim (Bool-cases (has_meter skip m)) [
      | inl taken ↦
          let kept = run_plans-skip reads keyed m chosen now skip [] p taken in
          ground (arith, has_meter-append skip (r.0) m, kept, scheduled)
      | inr free ↦ ground (arith, has_meter-append skip (r.0) m, planned, scheduled)
    ]
