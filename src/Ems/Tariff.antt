-- ===== src/Ems/Tariff.antt =====
-- The prices of electricity by the hour (api/ems/tariff.ts), in millionths of the currency per kWh.
pub mod Plan
pub mod Stored
pub mod Pick
pub mod Feasible
pub mod Held
use gateway_monitoring_platf.Prelude.{
  ℕ, zero, suc, ◌+◌, ◌-◌, ◌*◌, ◌/◌, String, Option, none, some, Bool, true, false, ◌&&◌, ◌||◌, List,
  [], ◌∷◌, ltb, leb, ◌==◌, if◌then◌else◌, ℤ, ltb_ℤ,
}
use gateway_monitoring_platf.Ems.Decide.{day_bit}
use gateway_monitoring_platf.Alarms.Oncall.{local_clock}

pub record TariffPeriod : Type 0 where
  pub day_of_week_mask : ℕ
  pub start_min : ℕ
  pub end_min : ℕ
  pub import_price : ℤ
  pub export_price : Option ℤ

pub record ExplicitPrice : Type 0 where
  pub hour_start_ms : ℕ
  pub import_price : ℤ
  pub export_price : Option ℤ

pub data PriceSource : Type 0 where
  explicit schedule : PriceSource

pub record Price : Type 0 where
  pub import_price : ℤ
  pub export_price : Option ℤ
  pub source : PriceSource

unfoldable pub period_covers : TariffPeriod → ℕ → ℕ → Bool
period_covers p dow min =
    if day_bit p.day_of_week_mask dow == 0
    then false
    else if p.start_min == p.end_min
    then true
    else if ltb p.start_min p.end_min
    then leb p.start_min min && ltb min p.end_min
    else leb p.start_min min || ltb min p.end_min

abbrev pub hour : ℕ
hour = 3_600_000

abbrev pub hour_start : ℕ → ℕ
hour_start ts = ts / hour * hour

abbrev pub explicit_at : ℕ → List ExplicitPrice → Option ExplicitPrice
explicit_at start [] = none
explicit_at start (e ∷ es) = if e.hour_start_ms == start then some e else explicit_at start es

-- The last period that covers, `found` where none does.
unfoldable pub last_covering : ℕ → ℕ → Option TariffPeriod → List TariffPeriod → Option TariffPeriod
unfolding period_covers
last_covering dow min found [] = found
last_covering dow min found (p ∷ ps) =
    last_covering dow min (if period_covers p dow min then some p else found) ps

abbrev pub of_period : Option TariffPeriod → Option Price
of_period none = none
of_period (some p) =
    some record { import_price = p.import_price; export_price = p.export_price; source = schedule }

pub record PriceHour : Type 0 where
  pub hour_start_ms : ℕ
  pub price : Price

-- `tz_offset_ms` is what Intl says of a zone.
module _ (tz_offset_ms : String → ℕ → ℤ) (periods : List TariffPeriod) (prices : List ExplicitPrice)
    (timezone : String) where
  abbrev pub price_or : Option ExplicitPrice → ℕ → Option Price
  price_or (some e) ts =
      some
        record { import_price = e.import_price; export_price = e.export_price; source = explicit }
  price_or none ts =
      let (dow, min) = local_clock tz_offset_ms timezone ts in
      of_period (last_covering dow min none periods)

  unfoldable pub price_at : ℕ → Option Price
  unfolding last_covering local_clock
  price_at ts = price_or (explicit_at (hour_start ts) prices) ts

  abbrev pub priced : ℕ → Option Price → List PriceHour → List PriceHour
  priced h none rest = rest
  priced h (some price) rest = record { hour_start_ms = h; price = price } ∷ rest

  -- `n` hours from `h`.
  unfoldable pub curve_from : ℕ → ℕ → List PriceHour
  unfolding price_at
  curve_from zero h = []
  curve_from (suc n) h = priced h (price_at h) (curve_from n (h + hour))

  unfoldable pub price_curve : ℕ → ℕ → List PriceHour
  unfolding curve_from
  price_curve from to =
      let first = hour_start from in curve_from ((to - first + (hour - 1)) / hour) first

-- The price a discharged kWh earns.
abbrev pub better : ℤ → Option ℤ → ℤ
better buy none = buy
better buy (some sell) = if ltb_ℤ buy sell then sell else buy

abbrev pub sell_price : PriceHour → ℤ
sell_price h = better h.price.import_price h.price.export_price
