-- ===== src/Telemetry/Merge.antt =====
-- The merging of report rows from raw telemetry and from aggregates (api/telemetry/merge.ts).
-- Readings are integers in millionths of their unit, so `round` to some decimals is to a multiple of
-- a unit in millionths. A Map in insertion order is a list of rows with different keys.
pub mod Laws
pub mod Reports
use gateway_monitoring_platf.Prelude.{
  ℕ, ◌+◌, ◌*◌, String, Option, none, some, Bool, true, false, ◌&&◌, ◌||◌, List, [], ◌∷◌, ◌++◌, ltb,
  leb, ◌==◌, str_eq, if◌then◌else◌, ℤ, pos, ◌+ℤ◌, ◌*ℤ◌, max_ℤ, round_div, sort_by, not,
}

-- The list that `parts.flat()` and the nested loops run over.
abbrev pub flat {ℓ} : {A : Type ℓ} → List (List A) → List A
flat [] = []
flat (xs ∷ xss) = xs ++ flat xss

-- round of num / den, to a multiple of `step` millionths.
abbrev pub round : ℤ → ℕ → ℕ → ℤ
round num den step = round_div num (den * step) *ℤ pos step

-- Decimals, as multiples of a millionth.
abbrev pub dp_2 : ℕ
dp_2 = 10_000

abbrev pub dp_3 : ℕ
dp_3 = 1000

abbrev pub dp_4 : ℕ
dp_4 = 100

unfoldable pub weighted : Option ℤ → ℕ → Option ℤ → ℕ → ℕ → Option ℤ
unfolding round_div ◌*ℤ◌ ◌+ℤ◌
weighted none an b bn step = b
weighted (some a) an none bn step = some a
weighted (some a) an (some b) bn step = some (
    if an + bn == 0
    then round (a +ℤ b) 2 step
    else round (a *ℤ pos an +ℤ b *ℤ pos bn) (an + bn) step)

unfoldable pub sum_n : Option ℤ → Option ℤ → ℕ → Option ℤ
unfolding round_div ◌*ℤ◌ ◌+ℤ◌
sum_n none b step = b
sum_n (some a) none step = some a
sum_n (some a) (some b) step = some (round (a +ℤ b) 1 step)

-- The larger of two optional readings.
abbrev pub larger : Option ℤ → Option ℤ → Option ℤ
larger none b = b
larger (some a) none = some a
larger (some a) (some b) = some (max_ℤ a b)

module _ {ℓ} {R : Type ℓ} (same : R → R → Bool) (merge : R → R → R) where
  -- A row of a key that is there is merged into its row; another goes to the end.
  unfoldable pub put : R → List R → List R
  put r [] = r ∷ []
  put r (x ∷ xs) = let rest = x ∷ put r xs in if same x r then merge x r ∷ xs else rest

  unfoldable pub put_all : List R → List R → List R
  unfolding put
  put_all [] m = m
  put_all (r ∷ rs) m = put_all rs (put r m)

pub record DailyReportRow : Type 0 where
  pub day : String
  pub avg_power_factor : Option ℤ
  pub import_kwh : Option ℤ
  pub export_kwh : Option ℤ
  pub max_demand_kw : Option ℤ
  pub demand_derived : Bool
  pub counter_reset : Bool
  pub samples : ℕ

abbrev pub same_day : DailyReportRow → DailyReportRow → Bool
same_day x r = str_eq x.day r.day

unfoldable pub merge_day : DailyReportRow → DailyReportRow → DailyReportRow
unfolding weighted sum_n
merge_day ex r = record ex {
  avg_power_factor = weighted ex.avg_power_factor ex.samples r.avg_power_factor r.samples dp_3;
  import_kwh = sum_n ex.import_kwh r.import_kwh dp_2;
  export_kwh = sum_n ex.export_kwh r.export_kwh dp_2;
  max_demand_kw = larger ex.max_demand_kw r.max_demand_kw;
  demand_derived = ex.demand_derived && r.demand_derived;
  counter_reset = ex.counter_reset || r.counter_reset;
  samples = ex.samples + r.samples;
}

-- `lt` is `<` on texts.
unfoldable pub merge_day_rows :
    (String → String → Bool) → List (List DailyReportRow) → List DailyReportRow
unfolding put_all merge_day
merge_day_rows lt parts =
    sort_by (λ a b. lt a.day b.day) (put_all same_day merge_day (flat parts) [])

pub record EnergyIntervalBucket : Type 0 where
  pub bucket_start_sec : ℕ
  pub avg_power_kw : Option ℤ
  pub import_kwh : Option ℤ
  pub export_kwh : Option ℤ
  pub samples : ℕ
  pub estimated : Bool

abbrev pub same_bucket : EnergyIntervalBucket → EnergyIntervalBucket → Bool
same_bucket x r = x.bucket_start_sec == r.bucket_start_sec

unfoldable pub merge_bucket : EnergyIntervalBucket → EnergyIntervalBucket → EnergyIntervalBucket
unfolding weighted sum_n
merge_bucket ex b = record ex {
  avg_power_kw = weighted ex.avg_power_kw ex.samples b.avg_power_kw b.samples dp_3;
  import_kwh = sum_n ex.import_kwh b.import_kwh dp_3;
  export_kwh = sum_n ex.export_kwh b.export_kwh dp_3;
  samples = ex.samples + b.samples;
  estimated = ex.estimated || b.estimated;
}

unfoldable pub merge_energy_buckets : List (List EnergyIntervalBucket) → List EnergyIntervalBucket
unfolding put_all merge_bucket
merge_energy_buckets parts =
    sort_by (λ a b. leb a.bucket_start_sec b.bucket_start_sec)
      (put_all same_bucket merge_bucket (flat parts) [])

pub record HistoryPoint : Type 0 where
  pub ts : ℕ
  pub power_kw : Option ℤ
  pub active_power_kw : Option ℤ
  pub voltage_l1 : Option ℤ
  pub current_l1 : Option ℤ
  pub power_factor : Option ℤ
  pub frequency_hz : Option ℤ
  pub energy_import_kwh : Option ℤ
  pub samples : ℕ

abbrev pub same_ts : HistoryPoint → HistoryPoint → Bool
same_ts x r = x.ts == r.ts

unfoldable pub merge_point : HistoryPoint → HistoryPoint → HistoryPoint
unfolding weighted
merge_point ex p =
    let mean = λ (a b : Option ℤ). weighted a ex.samples b p.samples dp_4 in
    record ex {
      power_kw = mean ex.power_kw p.power_kw;
      active_power_kw = mean ex.active_power_kw p.active_power_kw;
      voltage_l1 = mean ex.voltage_l1 p.voltage_l1;
      current_l1 = mean ex.current_l1 p.current_l1;
      power_factor = mean ex.power_factor p.power_factor;
      frequency_hz = mean ex.frequency_hz p.frequency_hz;
      energy_import_kwh = larger ex.energy_import_kwh p.energy_import_kwh;
      samples = ex.samples + p.samples;
    }

unfoldable pub merge_history_points : List (List HistoryPoint) → List HistoryPoint
unfolding put_all merge_point
merge_history_points parts =
    sort_by (λ a b. leb a.ts b.ts) (put_all same_ts merge_point (flat parts) [])
