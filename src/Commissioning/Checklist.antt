-- ===== src/Commissioning/Checklist.antt =====
-- The commissioning checklist (contracts/commissioning.ts). A step's detail is a text for display
-- that nothing reads back, and is left out.
pub mod Complete
use gateway_monitoring_platf.Prelude.{
  ℕ, ◌+◌, String, Option, none, some, Bool, true, false, not, List, [], ◌∷◌, ltb, ◌==◌,
  if◌then◌else◌, length, filter, map, str_eq,
}

pub data CommissioningStep : Type 0 where
  site_configured gateway_registered gateway_online devices_present telemetry_flowing :
      CommissioningStep
  profiles_verified alarms_configured notifications_configured battery_nameplate : CommissioningStep
  control_proven handover_signed : CommissioningStep

abbrev pub manual_step : CommissioningStep
manual_step = handover_signed

pub data StepStatus : Type 0 where
  pass fail not_applicable pending : StepStatus

pub record StepResult : Type 0 where
  pub step : CommissioningStep
  pub status : StepStatus

pub record SiteFacts : Type 0 where
  pub site_name : String
  pub has_timezone : Bool
  pub gateway_count : ℕ
  pub gateways_online : ℕ
  pub device_count : ℕ
  pub devices_reporting : ℕ
  pub devices_with_draft_profile : ℕ
  pub devices_without_profile : ℕ
  pub enabled_rules_covering : ℕ
  pub enabled_channels : ℕ
  pub bess_count : ℕ
  pub bess_with_nameplate : ℕ
  pub proven_control_writes : ℕ
  pub handover_signed_by : Option String
  pub handover_note : Option String

abbrev pub result : CommissioningStep → Bool → StepResult
result s ok = record { step = s; status = if ok then pass else fail }

abbrev pub unless_empty : ℕ → CommissioningStep → Bool → StepResult
unless_empty count s ok =
    if count == 0 then record { step = s; status = not_applicable } else result s ok

-- The truth of a text or null: the empty text is false.
abbrev pub is_truthy : Option String → Bool
is_truthy none = false
is_truthy (some s) = not (str_eq s "")

unfoldable pub evaluate_checklist : SiteFacts → List StepResult
evaluate_checklist f =
    result site_configured f.has_timezone
    ∷ result gateway_registered (ltb 0 f.gateway_count)
    ∷ unless_empty f.gateway_count gateway_online (ltb 0 f.gateways_online)
    ∷ result devices_present (ltb 0 f.device_count)
    ∷ unless_empty f.device_count telemetry_flowing (f.devices_reporting == f.device_count)
    ∷ unless_empty f.device_count profiles_verified
        (f.devices_with_draft_profile + f.devices_without_profile == 0)
    ∷ result alarms_configured (ltb 0 f.enabled_rules_covering)
    ∷ result notifications_configured (ltb 0 f.enabled_channels)
    ∷ unless_empty f.bess_count battery_nameplate (f.bess_with_nameplate == f.bess_count)
    ∷ unless_empty f.device_count control_proven (ltb 0 f.proven_control_writes)
    ∷ record {
      step = manual_step;
      status = if is_truthy f.handover_signed_by then pass else pending;
    }
    ∷ []

pub record Summary : Type 0 where
  pub passed : ℕ
  pub applicable : ℕ
  pub blocking : List CommissioningStep
  pub complete : Bool

abbrev pub is_applicable : StepStatus → Bool
is_applicable not_applicable = false
is_applicable _ = true

abbrev pub is_pass : StepStatus → Bool
is_pass pass = true
is_pass _ = false

unfoldable pub checklist_summary : List StepResult → Summary
checklist_summary results =
    let applicable = filter (λ r. is_applicable r.status) results in
    let blocking = map (λ r. r.step) (filter (λ r. not (is_pass r.status)) applicable) in
    record {
      passed = length (filter (λ r. is_pass r.status) applicable);
      applicable = length applicable;
      blocking = blocking;
      complete = length blocking == 0;
    }
