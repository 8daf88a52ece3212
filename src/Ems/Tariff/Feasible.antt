-- ===== src/Ems/Tariff/Feasible.antt =====
-- That the battery can carry out a plan of planArbitrage (api/ems/tariff.ts).
use native.Mathlib.Nat.{mul_assoc, mul-le-mul_right}
use gateway_monitoring_platf.Prelude.{
  All-sort, ℕ, ◌*◌, ◌≤◌, ◌<◌, ◌≡◌, refl, sym, Option, none, some, Bool, true, false, not, ◌&&◌,
  ◌||◌, List, [], ◌∷◌, length, ltb, leb, ◌==◌, if◌then◌else◌, filter, leb_ℤ, arith, All, All-append,
  All-filter_test, All-map, Bool-cases, inl, inr, length-append,
}
use gateway_monitoring_platf.Ems.Tariff.Stored.{
  charged, discharged, IsForward, bought, sold-bought, bought-length, charged_lem, discharged_lem,
  max_pairs-fits,
}
use gateway_monitoring_platf.Ems.Tariff.{PriceHour, sell_price}
use gateway_monitoring_platf.Ems.Tariff.Plan.{
  BatteryLimits, whole, efficiency, usable, per_hour, max_pairs, Pair, is_used, head, best_sell,
  try_sell, clears, pair_up, pairs_of, PlanReason, Plan, PlanResult, empty, does_not_clear_wear,
  no_usable_energy, not_configured, too_few_hours, planned, setpoints_of, plan_of, if_worth, if_any,
  plan_arbitrage,
}

module _ (l : BatteryLimits) where
  -- The pairs that the loop makes.
  abbrev IsGood : List Pair → Type 0
  IsGood ps = All IsForward ps × (length ps ≤ max_pairs l)

  module _ (curve : List PriceHour) where
    head-All :
        (P : PriceHour → Type 0) (hs : List PriceHour) (h : PriceHour)
        → All P hs
        → head hs ≡ some h
        → P h
    head-All P [] h all e = cc
    head-All P (x ∷ xs) h all e = let same : h ≡ x = cc in rw same all.0

    best_sell-after :
        (ps : List Pair) (buy sell : PriceHour)
        → best_sell curve ps buy ≡ some sell
        → buy.hour_start_ms < sell.hour_start_ms
    unfolding best_sell
    best_sell-after ps buy sell e =
        let can = λ (h : PriceHour).
          not (is_used h.hour_start_ms ps) && ltb buy.hour_start_ms h.hour_start_ms in
        let After = λ (h : PriceHour). buy.hour_start_ms < h.hour_start_ms in
        head-All After _ sell
          (All-sort After (λ a b. leb_ℤ (sell_price b) (sell_price a)) (filter can curve)
            (All-map (λ h (k : can h ≡ true). ground arith) (filter can curve)
              (All-filter_test can curve)))
          e

    try_sell-IsGood :
        (o : Option PriceHour) (buy : PriceHour) (ps : List Pair)
        → ((sell : PriceHour) → o ≡ some sell → buy.hour_start_ms < sell.hour_start_ms)
        → All IsForward ps
        → length ps < max_pairs l
        → IsGood (try_sell l curve o buy ps)
    try_sell-IsGood none buy ps after all few = (all, omega (arith, few))
    try_sell-IsGood (some sell) buy ps after all few = elim (Bool-cases (clears l buy sell)) [
      | inl worth ↦ rw worth (
        All-append IsForward ps (record { buy = buy; sell = sell } ∷ []) all (after sell refl, tt),
        omega (arith, length-append ps (record { buy = buy; sell = sell } ∷ []), few),
      )
      | inr cheap ↦ rw cheap (all, omega (arith, few))
    ]

    next-IsGood :
        (buy : PriceHour) (ps : List Pair)
        → All IsForward ps
        → length ps < max_pairs l
        → IsGood (
            if is_used buy.hour_start_ms ps
            then ps
            else try_sell l curve (best_sell curve ps buy) buy ps)
    next-IsGood buy ps all few = elim (Bool-cases (is_used buy.hour_start_ms ps)) [
      | inl used ↦ rw used (all, omega (arith, few))
      | inr new ↦ rw new (
          try_sell-IsGood (best_sell curve ps buy) buy ps (λ sell e. best_sell-after ps buy sell e)
            all few)
    ]

    pair_up-IsGood :
        (hs : List PriceHour) (ps : List Pair) → IsGood ps → IsGood (pair_up l curve hs ps)
    unfolding pair_up
    pair_up-IsGood [] ps good = good
    pair_up-IsGood (buy ∷ rest) ps good = elim (Bool-cases (leb (max_pairs l) (length ps))) [
      | inl full ↦ rw full good
      | inr room ↦ rw room (pair_up-IsGood rest _ (next-IsGood buy ps good.0 (ground arith)))
    ]

    pairs_of-IsGood : IsGood (pairs_of l curve)
    unfolding pairs_of
    pairs_of-IsGood = pair_up-IsGood _ [] (tt, omega arith)

le_trans : {a b c : ℕ} → a ≤ b → b ≤ c → a ≤ c
le_trans h k = omega (arith, h, k)

swap_factors : (b p w e : ℕ) → b * (p * w) * e ≡ b * (p * e) * w
swap_factors b p w e = omega arith

module _ (l : BatteryLimits) (t : ℕ) (ps : List Pair) (good : IsGood l ps) where
  charged-fits : charged t (setpoints_of l ps) ≤ usable l * whole
  charged-fits =
      let few = bought-length t ps in
      let pairs = mul-le-mul_right (per_hour l) (le_trans few good.1) in
      let all = mul-le-mul_right whole (le_trans pairs (max_pairs-fits l)) in
      omega (arith, charged_lem l t ps, all, mul_assoc (bought t ps) (per_hour l) whole)

  discharged-stored :
      discharged t (setpoints_of l ps) * whole ≤ charged t (setpoints_of l ps) * efficiency l
  discharged-stored =
      let early = mul-le-mul_right (per_hour l * efficiency l) (sold-bought t ps good.0) in
      rw
        (
          charged_lem l t ps,
          discharged_lem l t ps,
          swap_factors (bought t ps) (per_hour l) whole (efficiency l),
        )
        (mul-le-mul_right whole early)

pub skip-if :
    (b : Bool) (r : PlanReason) (o : PlanResult) (p : Plan)
    → (if b then empty r else o) ≡ planned p
    → o ≡ planned p
skip-if true r o p h = cc
skip-if false r o p h = h

if_worth-planned :
    (l : BatteryLimits) (q p : Plan)
    → if_worth l q ≡ planned p
    → (q ≡ p) × (leb_ℤ q.gross_margin q.wear_cost ≡ false)
if_worth-planned l q p h = elim (Bool-cases (leb_ℤ q.gross_margin q.wear_cost)) [
  | inl loss ↦ let never : empty does_not_clear_wear ≡ planned p = rw loss at h in cc
  | inr gain ↦
      let kept : planned q ≡ planned p = rw gain at h in let same : q ≡ p = cc in (same, gain)
]

pub if_any-planned :
    (l : BatteryLimits) (ps : List Pair) (p : Plan)
    → if_any l ps ≡ planned p
    → let q = plan_of l ps in (q ≡ p) × (leb_ℤ q.gross_margin q.wear_cost ≡ false)
if_any-planned l [] p h = cc
if_any-planned l (x ∷ xs) p h = if_worth-planned l (plan_of l (x ∷ xs)) p h

-- The plan balances, counted as the planner counts: each setpoint for one hour, and from the lower SoC
-- limit. Where planArbitrage plans, then the setpoints that start before any instant charge, in their
-- hours together, no more than what the battery holds between its SoC limits; they discharge no more
-- than the efficiency leaves of what they charge, so no hour sells what no earlier hour has bought;
-- and the plan earns more than it wears.
pub plan_arbitrage-IsFeasible :
    (curve : List PriceHour) (l : BatteryLimits) (p : Plan) (t : ℕ)
    → plan_arbitrage curve l ≡ planned p
    → (charged t p.setpoints ≤ usable l * whole)
      × (discharged t p.setpoints * whole ≤ charged t p.setpoints * efficiency l)
      × (leb_ℤ p.gross_margin p.wear_cost ≡ false)
unfolding plan_arbitrage plan_of
plan_arbitrage-IsFeasible curve l p t h =
    let found = if_any-planned l (pairs_of l curve) p (
      skip-if (usable l == 0) no_usable_energy _ p (
        skip-if (l.capacity_wh == 0 || l.max_power_w == 0) not_configured _ p
          (skip-if (ltb (length curve) 2) too_few_hours _ p h))) in
    let good = pairs_of-IsGood l curve in
    rw (sym found.0) (
      charged-fits l t (pairs_of l curve) good,
      discharged-stored l t (pairs_of l curve) good,
      found.1,
    )
