-- ===== src/Ems/Tariff/Stored.antt =====
-- What the setpoints of a plan charge and discharge: planArbitrage (api/ems/tariff.ts).
use native.Mathlib.Nat.{add-mul, div-mul-le_self}
use gateway_monitoring_platf.Prelude.{
  total, total-append, total-sort_by, ℕ, zero, suc, neg_parts, ◌*◌, ◌/◌, ◌≤◌, ◌<◌, ◌≡◌, refl, ◌∙◌,
  max, Bool, true, false, List, [], ◌∷◌, ◌++◌, map, length, ltb, leb, if◌then◌else◌, pos, neg,
  pos_part, neg_part, arith, All,
}
use gateway_monitoring_platf.Ems.Tariff.Plan.{
  BatteryLimits, whole, efficiency, usable, per_hour, max_pairs, Pair, Setpoint, charge_at,
  discharge_at, setpoints_of,
}

-- What the setpoints that start before an instant charge and discharge in one hour each, in their unit
-- times an hour.
abbrev pub charged : ℕ → List Setpoint → ℕ
charged t sp = total (λ s. if ltb s.ts t then neg_part s.power else 0) sp

abbrev pub discharged : ℕ → List Setpoint → ℕ
discharged t sp = total (λ s. if ltb s.ts t then pos_part s.power else 0) sp

-- The pairs whose hour to charge, to discharge, starts before an instant.
abbrev pub bought : ℕ → List Pair → ℕ
bought t ps = total (λ p. if ltb p.buy.hour_start_ms t then 1 else 0) ps

abbrev pub sold : ℕ → List Pair → ℕ
sold t ps = total (λ p. if ltb p.sell.hour_start_ms t then 1 else 0) ps

abbrev pub IsForward : Pair → Type 0
IsForward p = p.buy.hour_start_ms < p.sell.hour_start_ms

pub sold-bought : (t : ℕ) (ps : List Pair) → All IsForward ps → sold t ps ≤ bought t ps
sold-bought t [] h = omega arith
sold-bought t (p ∷ ps) h = ground (arith, sold-bought t ps h.1)

pub bought-length : (t : ℕ) (ps : List Pair) → bought t ps ≤ length ps
bought-length t [] = omega arith
bought-length t (p ∷ ps) = ground (arith, bought-length t ps)

scaled-total :
    {R S : Type 0} (g : R → S) (f : S → ℕ) (c : R → ℕ) (x : ℕ)
    → ((r : R) → f (g r) ≡ c r * x)
    → (rs : List R) → total f (map g rs) ≡ total c rs * x
scaled-total g f c x each [] = omega arith
scaled-total g f c x each (r ∷ rs) =
    omega (arith, each r, scaled-total g f c x each rs, add-mul (c r) (total c rs) x)

count_if : (b : Bool) (n : ℕ) → (if b then n else 0) ≡ (if b then 1 else 0) * n
count_if true n = omega arith
count_if false n = omega arith

max-mul : (d p u : ℕ) → p ≤ u → d * p ≤ u → max 1 d * p ≤ u
max-mul zero p u one many = omega (arith, one)
max-mul (suc d) p u one many = let same : max 1 (suc d) ≡ suc d = omega arith in rw same many

module _ (l : BatteryLimits) where
  charged-bought :
      (t : ℕ) (ps : List Pair)
      → charged t (map (charge_at l) ps) ≡ bought t ps * (per_hour l * whole)
  charged-bought t ps =
      scaled-total (charge_at l) (λ s. if ltb s.ts t then neg_part s.power else 0)
        (λ p. if ltb p.buy.hour_start_ms t then 1 else 0) (per_hour l * whole)
        (λ p.
          rw ((neg_parts (pos (per_hour l * whole))).1)
            (count_if (ltb p.buy.hour_start_ms t) (per_hour l * whole)))
        ps

  discharged-sold :
      (t : ℕ) (ps : List Pair)
      → discharged t (map (discharge_at l) ps) ≡ sold t ps * (per_hour l * efficiency l)
  discharged-sold t ps =
      scaled-total (discharge_at l) (λ s. if ltb s.ts t then pos_part s.power else 0)
        (λ p. if ltb p.sell.hour_start_ms t then 1 else 0) (per_hour l * efficiency l)
        (λ p. count_if (ltb p.sell.hour_start_ms t) (per_hour l * efficiency l)) ps

  charged-sales : (t : ℕ) (ps : List Pair) → charged t (map (discharge_at l) ps) ≡ 0
  charged-sales t [] = refl
  charged-sales t (p ∷ ps) = ground (arith, charged-sales t ps)

  discharged-buys : (t : ℕ) (ps : List Pair) → discharged t (map (charge_at l) ps) ≡ 0
  unfolding neg
  discharged-buys t [] = refl
  discharged-buys t (p ∷ ps) = ground (arith, discharged-buys t ps)

  pub max_pairs-fits : max_pairs l * per_hour l ≤ usable l
  max_pairs-fits =
      max-mul (usable l / per_hour l) (per_hour l) (usable l) (omega arith)
        (div-mul-le_self (usable l) (per_hour l))

  pub charged_lem :
      (t : ℕ) (ps : List Pair) → charged t (setpoints_of l ps) ≡ bought t ps * (per_hour l * whole)
  unfolding setpoints_of
  charged_lem t ps =
      total-sort_by (λ s. if ltb s.ts t then neg_part s.power else 0) (λ a b. leb a.ts b.ts)
        (map (charge_at l) ps ++ map (discharge_at l) ps)
      ∙ omega (
        arith,
        total-append (λ s. if ltb s.ts t then neg_part s.power else 0) (map (charge_at l) ps)
            (map (discharge_at l) ps),
        charged-bought t ps,
        charged-sales t ps,
      )

  pub discharged_lem :
      (t : ℕ) (ps : List Pair)
      → discharged t (setpoints_of l ps) ≡ sold t ps * (per_hour l * efficiency l)
  unfolding setpoints_of
  discharged_lem t ps =
      total-sort_by (λ s. if ltb s.ts t then pos_part s.power else 0) (λ a b. leb a.ts b.ts)
        (map (charge_at l) ps ++ map (discharge_at l) ps)
      ∙ omega (
        arith,
        total-append (λ s. if ltb s.ts t then pos_part s.power else 0) (map (charge_at l) ps)
            (map (discharge_at l) ps),
        discharged-sold t ps,
        discharged-buys t ps,
      )
