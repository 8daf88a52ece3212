-- ===== src/Telemetry/Tests.antt =====
-- Runs of the report merging (api/telemetry/merge.ts).
use gateway_monitoring_platf.Prelude.{
  ℕ, ◌≡◌, refl, String, none, some, Bool, true, false, List, [], ◌∷◌, pos, str_eq, sort_by, max_ℤ,
}
use gateway_monitoring_platf.Telemetry.Merge.{
  merge_energy_buckets, DailyReportRow, merge_day_rows, EnergyIntervalBucket, HistoryPoint,
  merge_history_points,
}

-- A day that straddles the cutoff, and the day after it.
abbrev rolled_up : DailyReportRow
rolled_up = record {
  day = "2026-03-01";
  avg_power_factor = some (pos 900_000);
  import_kwh = some (pos 12_340_000);
  export_kwh = none;
  max_demand_kw = some (pos 40_000_000);
  demand_derived = true;
  counter_reset = false;
  samples = 3600;
}

abbrev live : DailyReportRow
live = record rolled_up {
  avg_power_factor = some (pos 500_000);
  import_kwh = some (pos 1_110_000);
  max_demand_kw = some (pos 55_000_000);
  demand_derived = false;
  counter_reset = true;
  samples = 400;
}

abbrev next_day : DailyReportRow
next_day = record live { day = "2026-03-02" }

abbrev day_parts : List (List DailyReportRow)
day_parts = (next_day ∷ live ∷ []) ∷ (rolled_up ∷ []) ∷ []

abbrev first_day : String → String → Bool
first_day a b = str_eq a "2026-03-01"

-- The day is put together: its mean is weighted by the samples.
merged_days :
    merge_day_rows first_day day_parts
    ≡ record live {
      avg_power_factor = some (pos 860_000);
      import_kwh = some (pos 13_450_000);
      samples = 4000;
    }
      ∷ next_day
      ∷ []
unfolding merge_day_rows sort_by max_ℤ
merged_days = refl

abbrev bucket_at : ℕ → ℕ → Bool → EnergyIntervalBucket
bucket_at start samples estimated = record {
  bucket_start_sec = start;
  avg_power_kw = some (pos 2_000_000);
  import_kwh = some (pos 500_000);
  export_kwh = none;
  samples = samples;
  estimated = estimated;
}

abbrev bucket_parts : List (List EnergyIntervalBucket)
bucket_parts =
    (bucket_at 1800 3 false ∷ bucket_at 900 2 false ∷ []) ∷ (bucket_at 1800 0 true ∷ []) ∷ []

-- A bucket without samples takes part in the sum, and its mark stays.
merged_buckets :
    merge_energy_buckets bucket_parts
    ≡ bucket_at 900 2 false
      ∷ record (bucket_at 1800 3 true) { import_kwh = some (pos 1_000_000) }
      ∷ []
unfolding merge_energy_buckets sort_by
merged_buckets = refl

abbrev point : ℕ → ℕ → HistoryPoint
point time samples = record {
  ts = time;
  power_kw = some (pos 2_000_000);
  active_power_kw = none;
  voltage_l1 = none;
  current_l1 = none;
  power_factor = none;
  frequency_hz = none;
  energy_import_kwh = some (pos 7_000_000);
  samples = samples;
}

-- Points of one time are one point.
merged_points :
    merge_history_points ((point 60 1 ∷ []) ∷ (point 0 2 ∷ point 60 3 ∷ []) ∷ [])
    ≡ point 0 2 ∷ point 60 4 ∷ []
unfolding merge_history_points sort_by max_ℤ
merged_points = refl
