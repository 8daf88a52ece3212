-- ===== src/Modbus/Registers/Limits.antt =====
-- The bounds of a register, and the test for a value that is not plausible (api/modbus.ts).
use gateway_monitoring_platf.Prelude.{
  ◌≡◌, refl, Option, none, some, true, false, arith, Bool-cases, inl, inr, ℤ, ◌⊎◌, ◌≤ℤ◌, ◌<ℤ◌,
}
use gateway_monitoring_platf.Modbus.Registers.{RegisterDef, is_implausible, below, above}

abbrev pub AtLeast : Option ℤ → ℤ → Type 0
AtLeast none v = Unit
AtLeast (some m) v = m ≤ℤ v

abbrev pub AtMost : Option ℤ → ℤ → Type 0
AtMost none v = Unit
AtMost (some m) v = v ≤ℤ m

-- The bounds of a register, where it has some.
abbrev pub InBounds : RegisterDef → ℤ → Type 0
InBounds d v = AtLeast d.min v × AtMost d.max v

abbrev pub OutOfBounds : RegisterDef → ℤ → Type 0
OutOfBounds d v = ((m : ℤ) × (d.min ≡ some m) × (v <ℤ m)) ⊎ ((m : ℤ) × (d.max ≡ some m) × (m <ℤ v))

below-false : (v : ℤ) (o : Option ℤ) → below v o ≡ false → AtLeast o v
below-false v none h = tt
below-false v (some m) h = ground arith

above-false : (v : ℤ) (o : Option ℤ) → above v o ≡ false → AtMost o v
above-false v none h = tt
above-false v (some m) h = ground arith

below-true : (v : ℤ) (o : Option ℤ) → below v o ≡ true → (m : ℤ) × (o ≡ some m) × (v <ℤ m)
below-true v none h = absurd (cc)
below-true v (some m) h = (m, refl, ground arith)

above-true : (v : ℤ) (o : Option ℤ) → above v o ≡ true → (m : ℤ) × (o ≡ some m) × (m <ℤ v)
above-true v none h = absurd (cc)
above-true v (some m) h = (m, refl, ground arith)

pub is_implausible-InBounds : (d : RegisterDef) (v : ℤ) → is_implausible d v ≡ false → InBounds d v
unfolding is_implausible
is_implausible-InBounds d v h =
    (below-false v d.min (ground arith), above-false v d.max (ground arith))

pub is_implausible-OutOfBounds :
    (d : RegisterDef) (v : ℤ) → is_implausible d v ≡ true → OutOfBounds d v
unfolding is_implausible
is_implausible-OutOfBounds d v h = elim (Bool-cases (below v d.min)) [
  | inl low ↦ inl (below-true v d.min low)
  | inr fine ↦ inr (above-true v d.max (ground arith))
]
