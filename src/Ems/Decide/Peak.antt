-- ===== src/Ems/Decide/Peak.antt =====
-- Peak shaving and plans (api/ems/decide.ts): hysteresis, bounds of the setpoint, the plan's step
-- function.
use gateway_monitoring_platf.Prelude.{
  ◌≡◌, ℕ, String, Option, none, some, List, [], ◌∷◌, ◌++◌, true, false, ℤ, pos, ◌≤ℤ◌, ◌<ℤ◌, ◌-ℤ◌,
  Bool-cases, ◌⊎◌, inl, inr, ◌<◌, min_ℤ, max_ℤ, -ℤ_parts, arith, All, refl, All-append,
  append_assoc, abs, ◌*◌,
}
use gateway_monitoring_platf.Ems.Decide.{
  peak_stop_due, peak_start_power, peak_hold_power, peak_min_move_kw, peak_retrim_due, PlanSetpoint,
  is_past, plan_kw_from, plan_kw_at,
}

-- A peak event starts above its threshold and stops below it by the hysteresis, so the reading
-- that starts one never stops it: at least the hysteresis lies between.
pub peak_start-not-stop :
    (import_kw threshold hysteresis : ℤ)
    → pos 0 ≤ℤ hysteresis
    → threshold ≤ℤ import_kw
    → peak_stop_due import_kw threshold hysteresis ≡ false
unfolding peak_stop_due
peak_start-not-stop i t h p q = ground (arith, -ℤ_parts t h)

-- While an event is held, the discharge is never negative and is at most the overshoot, the
-- configured maximum and the register's maximum; above the threshold it is the power of a start.
pub peak_hold_power_bounds :
    (import_kw threshold max_kw register_max : ℤ)
    → pos 0 ≤ℤ max_kw
    → pos 0 ≤ℤ register_max
    → (pos 0 ≤ℤ peak_hold_power import_kw threshold max_kw register_max)
      × (peak_hold_power import_kw threshold max_kw register_max ≤ℤ max_kw)
      × (peak_hold_power import_kw threshold max_kw register_max ≤ℤ register_max)
      × (threshold ≤ℤ import_kw
          → peak_hold_power import_kw threshold max_kw register_max
            ≡ peak_start_power import_kw threshold max_kw register_max)
      × (import_kw ≤ℤ threshold → peak_hold_power import_kw threshold max_kw register_max ≡ pos 0)
unfolding peak_hold_power peak_start_power min_ℤ max_ℤ
peak_hold_power_bounds i t m r hm hr = ground (arith, -ℤ_parts i t)

-- A re-trim that is not due leaves a setpoint within a tenth of the maximum discharge, or 1 kW.
pub peak_retrim_due-false :
    (power last max_kw : ℤ)
    → peak_retrim_due power (some last) (peak_min_move_kw max_kw) ≡ false
    → (10 * abs (power -ℤ last) < 10_000_000) ⊎ (pos (10 * abs (power -ℤ last)) <ℤ max_kw)
unfolding peak_retrim_due peak_min_move_kw max_ℤ
peak_retrim_due-false power last max_kw h = ground arith

-- A plan's step function: `kw` is that of the last setpoint that is due, in the list's order up to
-- the first that is not.
module _ (date_parse : String → Option ℕ) (now_ms : ℕ) where
  abbrev pub IsPast : PlanSetpoint → Type 0
  IsPast sp = is_past (date_parse sp.ts) now_ms ≡ true

  abbrev pub IsFuture : List PlanSetpoint → Type 0
  IsFuture [] = Unit
  IsFuture (sp ∷ sps) = is_past (date_parse sp.ts) now_ms ≡ false

  pub data IsStep : List PlanSetpoint → Option ℤ → Type 0 where
    none_due : {sps : List PlanSetpoint} → IsFuture sps → IsStep sps none
    last_due :
        {sps : List PlanSetpoint} (before : List PlanSetpoint) (sp : PlanSetpoint)
        (rest : List PlanSetpoint)
        → sps ≡ before ++ sp ∷ rest
        → All IsPast before
        → IsPast sp
        → IsFuture rest
        → IsStep sps (some sp.kw)

  plan_kw_from-last :
      (sps before : List PlanSetpoint) (sp : PlanSetpoint)
      → All IsPast before
      → IsPast sp
      → IsStep (before ++ sp ∷ sps) (plan_kw_from date_parse (some sp.kw) sps now_ms)
  unfolding plan_kw_from
  plan_kw_from-last [] before sp hb hs = last_due before sp [] refl hb hs tt
  plan_kw_from-last (next ∷ sps) before sp hb hs =
      elim (Bool-cases (is_past (date_parse next.ts) now_ms)) [
        | inl due ↦
            let step =
              plan_kw_from-last sps (before ++ sp ∷ []) next
                (All-append IsPast before (sp ∷ []) hb (hs, tt)) due in
            rw due (rw append_assoc at step)
        | inr future ↦ rw future (last_due before sp (next ∷ sps) refl hb hs future)
      ]

  -- The plan drives the setpoint of the last entry that is due, every entry before it being due and
  -- the next one not; before the first entry is due it drives none.
  pub plan_kw_at-IsStep : (sps : List PlanSetpoint) → IsStep sps (plan_kw_at date_parse sps now_ms)
  unfolding plan_kw_at plan_kw_from
  plan_kw_at-IsStep [] = none_due tt
  plan_kw_at-IsStep (sp ∷ sps) = elim (Bool-cases (is_past (date_parse sp.ts) now_ms)) [
    | inl due ↦ rw (due, plan_kw_at) (plan_kw_from-last sps [] sp tt due)
    | inr future ↦ rw (future, plan_kw_at) (none_due future)
  ]
