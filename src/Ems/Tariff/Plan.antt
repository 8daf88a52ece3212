-- ===== src/Ems/Tariff/Plan.antt =====
-- The plan of a battery against a price curve, planArbitrage of api/ems/tariff.ts. The cost of a cycle
-- is in millionths of the currency, the efficiency in millionths, SoC limits in thousandths of a
-- percent, capacity and power in Wh and W; none is negative. Divisions are multiplied out, so that an
-- energy is in hundred-thousandths of a Wh where the source multiplies by a share of the capacity.
use gateway_monitoring_platf.Prelude.{
  ℕ, ◌-◌, ◌*◌, ◌/◌, min, max, Option, none, some, Bool, false, not, ◌&&◌, ◌||◌, List, [], ◌∷◌, ◌++◌,
  map, length, ltb, leb, ◌==◌, if◌then◌else◌, filter, ℤ, pos, neg, ◌+ℤ◌, ◌-ℤ◌, ◌*ℤ◌, ltb_ℤ, leb_ℤ,
  sort_by,
}
use gateway_monitoring_platf.Ems.Tariff.{PriceHour, sell_price}

pub record BatteryLimits : Type 0 where
  pub capacity_wh : ℕ
  pub max_power_w : ℕ
  pub round_trip_efficiency : ℕ
  pub min_soc_pct : ℕ
  pub max_soc_pct : ℕ
  pub cycle_cost : ℕ

-- 100 % as an SoC limit, and an efficiency of 1.
abbrev pub full : ℕ
full = 100_000

abbrev pub whole : ℕ
whole = 1_000_000

abbrev pub efficiency : BatteryLimits → ℕ
efficiency l = min whole (max 10_000 l.round_trip_efficiency)

abbrev pub usable : BatteryLimits → ℕ
usable l = l.capacity_wh * (min full l.max_soc_pct - l.min_soc_pct)

abbrev pub per_hour : BatteryLimits → ℕ
per_hour l = min (l.max_power_w * full) (usable l)

abbrev pub max_pairs : BatteryLimits → ℕ
max_pairs l = max 1 (usable l / per_hour l)

-- An hour to charge in and an hour to discharge in.
pub record Pair : Type 0 where
  pub buy : PriceHour
  pub sell : PriceHour

-- `used` holds the hours of the pairs.
abbrev pub is_used : ℕ → List Pair → Bool
is_used h [] = false
is_used h (p ∷ ps) = p.buy.hour_start_ms == h || p.sell.hour_start_ms == h || is_used h ps

abbrev pub head : List PriceHour → Option PriceHour
head [] = none
head (h ∷ hs) = some h

-- spread > minProfitableSpread, multiplied by the efficiency and the capacity. The cost of a cycle is
-- by the kWh.
unfoldable pub clears : BatteryLimits → PriceHour → PriceHour → Bool
unfolding ◌*ℤ◌ ◌+ℤ◌ ◌-ℤ◌
clears l buy sell =
    let eff = efficiency l in
    let price = buy.price.import_price in
    ltb_ℤ (price *ℤ pos ((whole - eff) * l.capacity_wh) +ℤ pos (l.cycle_cost * whole * 1000))
      ((sell_price sell -ℤ price) *ℤ pos (eff * l.capacity_wh))

unfoldable pub best_sell : List PriceHour → List Pair → PriceHour → Option PriceHour
unfolding sort_by
best_sell curve pairs buy = head (
    sort_by (λ a b. leb_ℤ (sell_price b) (sell_price a))
      (filter (λ h. not (is_used h.hour_start_ms pairs) && ltb buy.hour_start_ms h.hour_start_ms)
        curve))

module _ (l : BatteryLimits) (curve : List PriceHour) where
  abbrev pub try_sell : Option PriceHour → PriceHour → List Pair → List Pair
  try_sell none buy pairs = pairs
  try_sell (some sell) buy pairs =
      if clears l buy sell then pairs ++ record { buy = buy; sell = sell } ∷ [] else pairs

  -- The loop over the hours by price.
  unfoldable pub pair_up : List PriceHour → List Pair → List Pair
  unfolding clears best_sell
  pair_up [] pairs = pairs
  pair_up (buy ∷ rest) pairs =
      let next =
        if is_used buy.hour_start_ms pairs
        then pairs
        else try_sell (best_sell curve pairs buy) buy pairs in
      let done = pair_up rest next in if leb (max_pairs l) (length pairs) then pairs else done

  unfoldable pub pairs_of : List Pair
  unfolding pair_up sort_by
  pairs_of = pair_up (sort_by (λ a b. leb_ℤ a.price.import_price b.price.import_price) curve) []

-- Power in hundred-thousandths of a millionth of a W; charging is negative.
pub record Setpoint : Type 0 where
  pub ts : ℕ
  pub power : ℤ

pub data PlanReason : Type 0 where
  too_few_hours not_configured no_usable_energy no_pair_clears does_not_clear_wear : PlanReason

-- Both margins are multiplied by the capacity in Wh and by 10^14.
pub record Plan : Type 0 where
  pub setpoints : List Setpoint
  pub gross_margin : ℤ
  pub wear_cost : ℤ

pub data PlanResult : Type 0 where
  empty : PlanReason → PlanResult
  planned : Plan → PlanResult

module _ (l : BatteryLimits) where
  abbrev pub charge_at : Pair → Setpoint
  charge_at p = record { ts = p.buy.hour_start_ms; power = neg (pos (per_hour l * whole)) }

  abbrev pub discharge_at : Pair → Setpoint
  discharge_at p = record { ts = p.sell.hour_start_ms; power = pos (per_hour l * efficiency l) }

  unfoldable pub setpoints_of : List Pair → List Setpoint
  unfolding neg sort_by
  setpoints_of ps = sort_by (λ a b. leb a.ts b.ts) (map charge_at ps ++ map discharge_at ps)

  abbrev pub gross : List Pair → ℤ
  gross [] = pos 0
  gross (p ∷ ps) =
      (sell_price p.sell *ℤ pos (efficiency l) -ℤ p.buy.price.import_price *ℤ pos whole) +ℤ gross ps

  unfoldable pub plan_of : List Pair → Plan
  unfolding setpoints_of ◌*ℤ◌ ◌+ℤ◌ ◌-ℤ◌
  plan_of ps = record {
    setpoints = setpoints_of ps;
    gross_margin = gross ps *ℤ pos (per_hour l * l.capacity_wh);
    wear_cost = pos (length ps * per_hour l * l.cycle_cost * 1000 * whole);
  }

  abbrev pub if_worth : Plan → PlanResult
  if_worth p = if leb_ℤ p.gross_margin p.wear_cost then empty does_not_clear_wear else planned p

  abbrev pub if_any : List Pair → PlanResult
  if_any [] = empty no_pair_clears
  if_any (p ∷ ps) = if_worth (plan_of (p ∷ ps))

unfoldable pub plan_arbitrage : List PriceHour → BatteryLimits → PlanResult
unfolding pairs_of plan_of
plan_arbitrage curve l =
    if ltb (length curve) 2
    then empty too_few_hours
    else if l.capacity_wh == 0 || l.max_power_w == 0
    then empty not_configured
    else if usable l == 0
    then empty no_usable_energy
    else if_any l (pairs_of l curve)
