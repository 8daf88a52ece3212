-- ===== src/Control/Perform/DryRun.antt =====
-- Rehearsals: executeControl with `dryRun` (api/control/execute.ts).
use gateway_monitoring_platf.Prelude.{◌≡◌, ◌⊎◌, inl, inr, String, none, true, false, refl}
use gateway_monitoring_platf.Control.Types.{Num}
use gateway_monitoring_platf.Control.Execute.{Meter, Db, Refusal, check_control, check_lock}
use gateway_monitoring_platf.Control.Perform.{
  preview, Plant, World, returns, rejects, execute_control, ControlResult,
}
use gateway_monitoring_platf.Control.Execute.Check.{Checked-cases}

module _ (db : Db) (plant : Plant) (meter : Meter) (key : String) (value : Num) (w : World) where
  -- A dry run changes nothing, and it either is refused or returns a preview.
  pub dry_run_lem :
      let (outcome, w') = execute_control db plant meter key value true w in
      (w' ≡ w)
      × (((r : Refusal) × (outcome ≡ rejects r))
          ⊎ ((result : ControlResult) × (outcome ≡ returns result) × (result.status ≡ preview)))
  unfolding execute_control
  dry_run_lem = elim (Checked-cases (check_control db meter key value true)) [
    | inl (r, e) ↦ rw e (refl, inl (r, refl))
    | inr (plan, e) ↦ rw e (refl, inr (_, refl, refl))
  ]

  -- On a device that is not stopped, the checks of a dry run are those of the performance: both are
  -- refused for the same reason or plan the same write.
  pub dry_run_checks :
      db.control_lock meter.id ≡ none
      → check_control db meter key value true ≡ check_control db meter key value false
  unfolding check_control check_lock
  dry_run_checks h = rw h
