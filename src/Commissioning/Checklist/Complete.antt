-- ===== src/Commissioning/Checklist/Complete.antt =====
-- When a site is commissioned (contracts/commissioning.ts, evaluateChecklist and checklistSummary).
use gateway_monitoring_platf.Prelude.{
  ◌+◌, ◌≡◌, refl, ◌⊎◌, ◌↔◌, ◌<◌, true, arith, List, [], ◌∷◌, All, length,
}
use gateway_monitoring_platf.Commissioning.Checklist.{
  StepStatus, StepResult, SiteFacts, pass, not_applicable, is_truthy, evaluate_checklist,
  checklist_summary,
}

abbrev pub IsDone : StepStatus → Type 0
IsDone s = (s ≡ pass) ⊎ (s ≡ not_applicable)

-- What a site must show: each device reports and has a verified profile, each battery a nameplate.
pub record IsReady (f : SiteFacts) : Type 0 where
  pub configured : f.has_timezone ≡ true
  pub connected : (0 < f.gateway_count) × (0 < f.gateways_online)
  pub equipped : 0 < f.device_count
  pub flowing : f.devices_reporting ≡ f.device_count
  pub verified : (f.devices_with_draft_profile ≡ 0) × (f.devices_without_profile ≡ 0)
  pub watched : (0 < f.enabled_rules_covering) × (0 < f.enabled_channels)
  pub rated : (f.bess_count ≡ 0) ⊎ (f.bess_with_nameplate ≡ f.bess_count)
  pub proven : 0 < f.proven_control_writes
  pub signed : is_truthy f.handover_signed_by ≡ true

-- What is over of the applicable steps is what blocks and what has passed, and a checklist is
-- complete exactly if each of its steps has passed or does not apply.
pub checklist_summary_lem :
    (results : List StepResult)
    → let s = checklist_summary results in
      (s.passed + length s.blocking ≡ s.applicable)
      × ((s.complete ≡ true) ↔ All (λ r. IsDone r.status) results)
unfolding checklist_summary
checklist_summary_lem [] = (omega arith, (λ h. tt, λ h. refl))
checklist_summary_lem (r ∷ results) =
    let rest = checklist_summary_lem results in
    (
      ground (arith, rest.0),
      (λ h. (ground arith, rest.1.0 (ground arith)), λ h. let k = rest.1.1 h.1 in ground (arith)),
    )

-- Each step of the checklist is done.
steps_iff : (f : SiteFacts) → All (λ r. IsDone r.status) (evaluate_checklist f) ↔ IsReady f
unfolding evaluate_checklist
steps_iff f = (
  λ h. record {
    configured = ground arith;
    connected = (ground arith, ground arith);
    equipped = ground arith;
    flowing = ground arith;
    verified = (ground arith, ground arith);
    watched = (ground arith, ground arith);
    rated = ground arith;
    proven = ground arith;
    signed = ground arith;
  },
  λ h. ground arith,
)

-- The checklist of a site is complete exactly if the site has a time zone, a gateway and one that
-- is online, a device, every device reporting with a verified profile, an alarm rule, a channel,
-- a nameplate for every battery, a control write that succeeded and the name of who signed.
pub evaluate_checklist_iff :
    (f : SiteFacts) → ((checklist_summary (evaluate_checklist f)).complete ≡ true) ↔ IsReady f
evaluate_checklist_iff f =
    let s = (checklist_summary_lem (evaluate_checklist f)).1 in
    (λ h. (steps_iff f).0 (s.0 h), λ h. s.1 ((steps_iff f).1 h))
