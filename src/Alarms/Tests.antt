-- ===== src/Alarms/Tests.antt =====
-- Runs of the alarm decisions (api/alarms) and of the rota (contracts/oncall.ts).
use gateway_monitoring_platf.Prelude.{ℕ, Option, some, Bool, true, false, List, [], ◌∷◌, ◌==◌}
use gateway_monitoring_platf.Alarms.Hysteresis.{cleared}
use gateway_monitoring_platf.Alarms.Hysteresis.Duration.{
  Sample, actions, TakeTurns, actions-TakeTurns,
}
use gateway_monitoring_platf.Alarms.Oncall.{
  SuppressionScope, SuppressionRow, AlarmSubject, ShiftRow,
}

abbrev samples : List Sample
samples = (2000, true) ∷ (61_000, true) ∷ (62_000, true) ∷ []

actions-TakeTurns_example : TakeTurns false (actions 60_000 cleared samples)
actions-TakeTurns_example = actions-TakeTurns 60_000 cleared samples

abbrev same : ℕ → ℕ → Bool
same a b = a == b

abbrev site_wide : SuppressionRow
site_wide = record {
  id = 1;
  scope = SuppressionScope.site;
  ref_id = 5;
  starts_at = 100;
  ends_at = 900;
}

abbrev one_rule : SuppressionRow
one_rule = record site_wide { id = 2; scope = SuppressionScope.rule; ref_id = 11 }

abbrev subject : AlarmSubject
subject = record { rule_id = some 11; meter_id = some 7; site_id = some 5 }

abbrev rows : List SuppressionRow
rows = site_wide ∷ one_rule ∷ []

-- Friday nights, 22:00 to 06:00.
abbrev friday_night : ShiftRow
friday_night = record {
  channel_id = 3;
  day_of_week_mask = 32;
  start_min = 1320;
  end_min = 360;
  timezone = "Europe/Skopje";
  enabled = true;
}

abbrev away : Option (List ℕ)
away = some (9 ∷ [])

abbrev channels : List ℕ
channels = 3 ∷ 4 ∷ []
