-- ===== src/Ems/Decide/Soc.antt =====
-- When the state-of-charge guard of api/ems/decide.ts blocks a setpoint.
use gateway_monitoring_platf.Prelude.{
  ◌≡◌, ◌↔◌, ◌⊎◌, inl, inr, Option, none, some, true, ℤ, ◌≤ℤ◌, arith, ◌≢◌, refl, is_some,
  Option-cases,
}
use gateway_monitoring_platf.Ems.Decide.{
  EmsMode, charge, discharge, idle, SocLimits, soc_guard_decision,
}

-- The rules of the guard, as reasons to block.
pub data MustBlock : EmsMode → Option ℤ → SocLimits → Type 0 where
  unknown_soc :
      {mode : EmsMode} {l : SocLimits}
      → mode ≢ idle
      → (l.min_soc ≢ none) ⊎ (l.max_soc ≢ none)
      → MustBlock mode none l
  too_low : {s m : ℤ} {l : SocLimits} → l.min_soc ≡ some m → s ≤ℤ m → MustBlock discharge (some s) l
  too_high : {s m : ℤ} {l : SocLimits} → l.max_soc ≡ some m → m ≤ℤ s → MustBlock charge (some s) l

blocks :
    (mode : EmsMode) (soc : Option ℤ) (l : SocLimits)
    → MustBlock mode soc l
    → (soc_guard_decision mode soc l).blocked ≡ true
unfolding soc_guard_decision
blocks idle none l (unknown_soc n c) = absurd (n refl)
blocks discharge none l (unknown_soc n c) = ground arith
blocks charge none l (unknown_soc n c) = ground arith
blocks discharge (some s) l (too_low e h) = ground arith
blocks charge (some s) l (too_high e h) = ground arith
blocks idle (some s) l h = elim h [ ]

below_min :
    (s : ℤ) (l : SocLimits)
    → (soc_guard_decision discharge (some s) l).blocked ≡ true
    → (m : ℤ) × (l.min_soc ≡ some m) × (s ≤ℤ m)
unfolding soc_guard_decision
below_min s l h = elim (Option-cases l.min_soc) [
  | inl e ↦ absurd (ground arith)
  | inr (m, e) ↦ (m, e, ground arith)
]

above_max :
    (s : ℤ) (l : SocLimits)
    → (soc_guard_decision charge (some s) l).blocked ≡ true
    → (m : ℤ) × (l.max_soc ≡ some m) × (m ≤ℤ s)
unfolding soc_guard_decision
above_max s l h = elim (Option-cases l.max_soc) [
  | inl e ↦ absurd (ground arith)
  | inr (m, e) ↦ (m, e, ground arith)
]

must_block :
    (mode : EmsMode) (soc : Option ℤ) (l : SocLimits)
    → (soc_guard_decision mode soc l).blocked ≡ true
    → MustBlock mode soc l
unfolding soc_guard_decision
must_block idle soc l h = cc
must_block discharge none l h = unknown_soc (λ e. cc) (ground arith)
must_block charge none l h = unknown_soc (λ e. cc) (ground arith)
must_block discharge (some s) l h = let (m, e, le) = below_min s l h in too_low e le
must_block charge (some s) l h = let (m, e, le) = above_max s l h in too_high e le

-- The guard blocks exactly when a rule says so: an active mode with some limit configured and an
-- unknown SoC, a discharge at or below the minimum, or a charge at or above the maximum.
pub soc_guard_decision_iff :
    (mode : EmsMode) (soc : Option ℤ) (l : SocLimits)
    → ((soc_guard_decision mode soc l).blocked ≡ true) ↔ MustBlock mode soc l
soc_guard_decision_iff mode soc l = (must_block mode soc l, blocks mode soc l)

-- A block has a reason, and a setpoint that is let through has none.
pub soc_guard_decision-reason :
    (mode : EmsMode) (soc : Option ℤ) (l : SocLimits)
    → is_some (soc_guard_decision mode soc l).reason ≡ (soc_guard_decision mode soc l).blocked
unfolding soc_guard_decision
soc_guard_decision-reason mode soc l = ground arith
