-- ===== src/Ems/TariffTests.antt =====
-- Runs of the tariff planner (api/ems/tariff.ts).
use gateway_monitoring_platf.Prelude.{
  String, str_eq, ◌==◌, if◌then◌else◌, ℕ, ◌*◌, ◌≡◌, refl, Option, none, some, List, [], ◌∷◌, pos,
  negsuc, sort_by,
}
use gateway_monitoring_platf.Ems.Tariff.{TariffPeriod, ExplicitPrice, PriceHour, price_curve, hour}
use gateway_monitoring_platf.Ems.Tariff.Pick.{TariffCandidate, pick_tariff}
use gateway_monitoring_platf.Ems.Tariff.Plan.{
  BatteryLimits, Plan, plan_arbitrage, no_pair_clears, empty,
}

-- A night rate until two, and an hour that was imported.
abbrev periods : List TariffPeriod
periods =
    record {
      day_of_week_mask = 127;
      start_min = 0;
      end_min = 0;
      import_price = pos 300_000;
      export_price = none;
    }
    ∷ record {
      day_of_week_mask = 127;
      start_min = 1320;
      end_min = 60;
      import_price = pos 50_000;
      export_price = none;
    }
    ∷ []

abbrev imported : List ExplicitPrice
imported =
    record { hour_start_ms = 2 * hour; import_price = pos 60_000; export_price = some (pos 20_000) }
    ∷ []

-- Intl for a zone that is UTC all year.
abbrev priced_day : List PriceHour
priced_day = price_curve (λ tz now. pos 0) periods imported "UTC" 1000 (4 * hour)

abbrev battery : BatteryLimits
battery = record {
  capacity_wh = 100_000;
  max_power_w = 30_000;
  round_trip_efficiency = 900_000;
  min_soc_pct = 10_000;
  max_soc_pct = 90_000;
  cycle_cost = 2_000_000;
}

abbrev day_plan : Plan
day_plan = record {
  setpoints =
      record { ts = 0; power = negsuc 2_999_999_999_999_999 }
      ∷ record { ts = hour; power = pos 2_700_000_000_000_000 }
      ∷ record { ts = 2 * hour; power = negsuc 2_999_999_999_999_999 }
      ∷ record { ts = 3 * hour; power = pos 2_700_000_000_000_000 }
      ∷ [];
  gross_margin = pos 129_000_000_000_000_000_000_000_000;
  wear_cost = pos 12_000_000_000_000_000_000_000_000;
}

-- A battery whose cycles cost more than the spread is left alone.
worn_out :
    plan_arbitrage priced_day (record battery { cycle_cost = 200_000_000 }) ≡ empty no_pair_clears
unfolding plan_arbitrage sort_by price_curve
worn_out = refl

-- Date.toISOString and Date.parse on the first hours of 1970.
abbrev iso : ℕ → String
iso t = if t == 0 then "1970-01-01T00:00:00.000Z" else "1970-01-01T01:00:00.000Z"

abbrev date_parse : String → Option ℕ
date_parse s = if str_eq s "1970-01-01T00:00:00.000Z" then some 0 else some hour

abbrev row : ℕ → Option ℕ → Option ℕ → TariffCandidate
row id site org = record { id = id; site_id = site; org_id = org }

abbrev rows : List TariffCandidate
rows = row 9 none none ∷ row 3 none (some 7) ∷ row 5 none (some 7) ∷ row 4 (some 2) none ∷ []

-- The newer default of the organization, where no tariff is bound to the site.
default_picked : pick_tariff (some 1) (some 7) rows ≡ some (row 5 none (some 7))
unfolding pick_tariff
default_picked = refl

site_picked : pick_tariff (some 2) (some 7) rows ≡ some (row 4 (some 2) none)
unfolding pick_tariff
site_picked = refl
