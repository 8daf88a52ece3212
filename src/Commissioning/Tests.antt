-- ===== src/Commissioning/Tests.antt =====
-- A small site that is commissioned (contracts/commissioning.ts, api/commissioning/evaluate.ts).
use gateway_monitoring_platf.Prelude.{refl, none, some, true, [], ◌∷◌}
use gateway_monitoring_platf.Commissioning.Checklist.{
  SiteFacts, checklist_summary, evaluate_checklist,
}
use gateway_monitoring_platf.Commissioning.Facts.{
  Tables, facts_of, site_facts, site_checklist, bench_verified, is_among,
}
use gateway_monitoring_platf.Commissioning.Facts.Evidence.{
  IsCommissioned, site_checklist-IsCommissioned,
}

-- A battery that inherits the site of its gateway.
abbrev tables : Tables
tables = record {
  sites =
      record { id = 3; name = "Depot"; timezone = some "Europe/Belgrade"; org_id = some 1 } ∷ [];
  gateways =
      record { id = 7; site_id = some 3; status = "online"; last_seen_at = some 1000000 } ∷ [];
  meters =
      record {
        id = 9;
        gateway_id = 7;
        site_id = none;
        model = "bess-x";
        device_type = "bess";
        last_seen_at = some 1000000;
      }
      ∷ [];
  device_profiles = record { model = "bess-x"; verification_status = bench_verified } ∷ [];
  alarm_rules = record { enabled = true; org_id = none; meter_id = none } ∷ [];
  notification_channels = record { enabled = 1; org_id = some 1 } ∷ [];
  battery_health = record { meter_id = 9; nameplate_kwh = some 200 } ∷ [];
  commands = record { kind = "control"; status = "ok"; meter_id = some 9 } ∷ [];
  commissioning_signoffs = record { site_id = 3; signed_by_name = "A. Fitter"; note = none } ∷ [];
}

abbrev facts : SiteFacts
facts = record {
  site_name = "Depot";
  has_timezone = true;
  gateway_count = 1;
  gateways_online = 1;
  device_count = 1;
  devices_reporting = 1;
  devices_with_draft_profile = 0;
  devices_without_profile = 0;
  enabled_rules_covering = 1;
  enabled_channels = 1;
  bess_count = 1;
  bess_with_nameplate = 1;
  proven_control_writes = 1;
  handover_signed_by = some "A. Fitter";
  handover_note = none;
}

site_checklist-IsCommissioned_example : IsCommissioned tables 1000000 3
unfolding site_checklist site_facts facts_of evaluate_checklist checklist_summary is_among
site_checklist-IsCommissioned_example =
    site_checklist-IsCommissioned tables 1000000 3 facts (evaluate_checklist facts) refl refl
