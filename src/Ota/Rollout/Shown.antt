-- ===== src/Ota/Rollout/Shown.antt =====
-- The progress that a rollout shows (api/ota/rollout.ts, rolloutProgress).
use gateway_monitoring_platf.Prelude.{
  ℕ, ◌+◌, ◌*◌, ◌/◌, ◌≡◌, ◌≤◌, ◌<◌, arith, List, [], ◌∷◌, length, Bool-cases, inl, inr, refl, ◌==◌,
}
use gateway_monitoring_platf.Ota.Rollout.{
  RolloutTarget, is_pending, is_sent, is_ack, is_failed, count_status, percent_of, rollout_progress,
}

count_status_total :
    (targets : List RolloutTarget)
    → count_status is_ack targets
        + count_status is_failed targets
        + count_status is_pending targets
        + count_status is_sent targets
      ≡ length targets
unfolding count_status
count_status_total [] = refl
count_status_total (t ∷ targets) = ground (arith, count_status_total targets)

quotient_le :
    (settled total : ℕ)
    → 0 < total
    → settled ≤ total
    → (2 * (settled * 100) + total) / (2 * total) ≤ 100
quotient_le s t h l = grind arith

quotient_all : (total : ℕ) → 0 < total → (2 * (total * 100) + total) / (2 * total) ≡ 100
quotient_all t h = grind arith

percent_of_lem :
    (settled total : ℕ)
    → settled ≤ total
    → (percent_of settled total ≤ 100)
      × (settled ≡ total → 0 < total → percent_of settled total ≡ 100)
unfolding percent_of
percent_of_lem s t l = elim (Bool-cases (t == 0)) [
  | inl z ↦ rw z (omega arith, λ e p. absurd (ground arith))
  | inr nz ↦ rw nz (quotient_le s t (ground arith) l, λ e p. rw e (quotient_all t p))
]

-- Every target is counted once: acknowledged, failed, pending or in flight. The percentage never
-- passes 100, and it is 100 when a rollout that has targets has settled all of them.
pub rollout_progress_lem :
    (targets : List RolloutTarget)
    → let p = rollout_progress targets in
      (p.ack + p.failed + p.pending + p.in_flight ≡ length targets)
      × (p.percent ≤ 100)
      × (p.pending + p.in_flight ≡ 0 → 0 < length targets → p.percent ≡ 100)
unfolding rollout_progress
rollout_progress_lem targets =
    let total = count_status_total targets in
    let (low, all) =
      percent_of_lem (count_status is_ack targets + count_status is_failed targets) (length targets)
        (omega arith) in
    (total, low, λ h p. all (omega arith) p)
