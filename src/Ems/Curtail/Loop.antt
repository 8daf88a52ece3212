-- ===== src/Ems/Curtail/Loop.antt =====
-- The closed loop of api/ems/curtail.ts: where the site stands, and one step of the curtailment.
use gateway_monitoring_platf.Prelude.{
  ◌≡◌, ◌≢◌, ◌↔◌, Option, none, some, ℤ, pos, neg, ◌≤ℤ◌, ◌<ℤ◌, ◌+ℤ◌, ◌-ℤ◌, +ℤ_parts, arith,
  max_ℤ_lem, int_laws, eq_of_parts, -ℤ_parts, max_ℤ, min_ℤ,
}
use gateway_monitoring_platf.Ems.Curtail.{
  GridLimits, GridState, ok, over_import, over_export, GridStatus, status_for, grid_status,
  step_curtailment, step_by,
}

-- The export `-grid_kw` is within its limit, and so is the import.
abbrev pub IsWithin : ℤ → Option ℤ → Type 0
IsWithin kw none = Unit
IsWithin kw (some limit) = kw ≤ℤ limit

abbrev pub IsBeyond : ℤ → Option ℤ → Type 0
IsBeyond kw none = ⊥
IsBeyond kw (some limit) = limit <ℤ kw

status_for_lem :
    (g : ℤ) (max_import max_export : Option ℤ) (deadband : ℤ)
    → let s = status_for g max_import max_export deadband in
      ((s.state ≡ over_export) ↔ IsBeyond (neg g) max_export)
      × ((s.state ≡ ok) ↔ (IsWithin (neg g) max_export × IsWithin g max_import))
      × (s.state ≢ ok → (pos 0 <ℤ s.excess_kw) × (s.headroom_kw ≡ pos 0))
      × (pos 0 ≤ℤ s.headroom_kw)
unfolding status_for
status_for_lem g none none d = ground (arith, max_ℤ_lem (pos 0) (pos 0))
status_for_lem g (some i) none d = ground (arith, max_ℤ_lem (pos 0) (i -ℤ g -ℤ d), -ℤ_parts g i)
status_for_lem g none (some e) d =
    ground (arith, max_ℤ_lem (pos 0) (e -ℤ neg g -ℤ d), -ℤ_parts (neg g) e)
status_for_lem g (some i) (some e) d = ground (
  arith,
  max_ℤ_lem (pos 0) (min_ℤ (e -ℤ neg g -ℤ d) (i -ℤ g -ℤ d)),
  -ℤ_parts (neg g) e,
  -ℤ_parts g i,
)

-- The state names the breach: over-export when the export is beyond its limit; else over-import
-- when the import is; and ok exactly when both are within. A breach has a positive excess and no
-- headroom, and the headroom is never negative.
pub grid_status_lem :
    (grid_kw : ℤ) (l : GridLimits)
    → let s = grid_status grid_kw l in
      ((s.state ≡ over_export) ↔ IsBeyond (neg grid_kw) l.max_export_kw)
      × ((s.state ≡ ok)
          ↔ (IsWithin (neg grid_kw) l.max_export_kw × IsWithin grid_kw l.max_import_kw))
      × (s.state ≢ ok → (pos 0 <ℤ s.excess_kw) × (s.headroom_kw ≡ pos 0))
      × (pos 0 ≤ℤ s.headroom_kw)
unfolding grid_status
grid_status_lem g l = status_for_lem g l.max_import_kw l.max_export_kw l.deadband_kw

-- Raising by a part of the step.
raise_lem :
    (c excess step : ℤ)
    → pos 0 ≤ℤ c
    → pos 0 ≤ℤ excess
    → pos 0 ≤ℤ step
    → (c ≤ℤ c +ℤ min_ℤ excess step) × (c +ℤ min_ℤ excess step ≤ℤ c +ℤ step)
raise_lem c e s hc he hs = omega int_laws

-- Lowering by a part of the step, down to 0.
lower_lem :
    (c room step : ℤ)
    → pos 0 ≤ℤ c
    → pos 0 ≤ℤ room
    → pos 0 ≤ℤ step
    → (pos 0 ≤ℤ max_ℤ (pos 0) (c -ℤ min_ℤ room step))
      × (max_ℤ (pos 0) (c -ℤ min_ℤ room step) ≤ℤ c)
      × (c ≤ℤ max_ℤ (pos 0) (c -ℤ min_ℤ room step) +ℤ step)
lower_lem c r s hc hr hs = omega int_laws

max_zero : (a : ℤ) → pos 0 ≤ℤ a → max_ℤ (pos 0) a ≡ a
max_zero a h = eq_of_parts (max_ℤ (pos 0) a) a (omega int_laws)

-- One tick moves the curtailment by at most the configured step, never below 0; a breach of the
-- export limit never lowers it, and otherwise it never rises.
pub step_curtailment_bounds :
    (current : ℤ) (s : GridStatus) (l : GridLimits)
    → pos 0 ≤ℤ current
    → pos 0 ≤ℤ s.excess_kw
    → pos 0 ≤ℤ s.headroom_kw
    → pos 0 ≤ℤ l.max_step_kw
    → let next = step_curtailment current s l in
      (pos 0 ≤ℤ next)
      × (next ≤ℤ current +ℤ l.max_step_kw)
      × (current ≤ℤ next +ℤ l.max_step_kw)
      × (s.state ≡ over_export → current ≤ℤ next)
      × (s.state ≢ over_export → next ≤ℤ current)
unfolding step_curtailment
step_curtailment_bounds c s l hc he hh hs = rw (max_zero l.max_step_kw hs) (by_state s.state)
  where
    by_state :
        (st : GridState)
        → let next = step_by st c s.excess_kw s.headroom_kw l.max_step_kw in
          (pos 0 ≤ℤ next)
          × (next ≤ℤ c +ℤ l.max_step_kw)
          × (c ≤ℤ next +ℤ l.max_step_kw)
          × (st ≡ over_export → c ≤ℤ next)
          × (st ≢ over_export → next ≤ℤ c)
    by_state over_export = ground (
      arith,
      raise_lem c s.excess_kw l.max_step_kw hc he hs,
      +ℤ_parts (c +ℤ min_ℤ s.excess_kw l.max_step_kw) l.max_step_kw,
    )
    by_state over_import =
        ground (arith, lower_lem c s.excess_kw l.max_step_kw hc he hs, +ℤ_parts c l.max_step_kw)
    by_state ok = ground (
      arith,
      lower_lem c s.headroom_kw l.max_step_kw hc hh hs,
      +ℤ_parts c l.max_step_kw,
      +ℤ_parts (pos 0) l.max_step_kw,
    )
