-- ===== src/Ota/Tests.antt =====
-- Runs of a rollout over three gateways (api/ota/rollout.ts).
use gateway_monitoring_platf.Prelude.{ℕ, ◌*◌, ltb, Bool, List, [], ◌∷◌}
use gateway_monitoring_platf.Ota.Rollout.{RolloutTarget, TargetStatus, pending, ack}

abbrev target : ℕ → ℕ → TargetStatus → RolloutTarget
target gateway batch status = record { gateway_id = gateway; batch_index = batch; status = status }

-- The canary has acknowledged, and the wave behind it has not been sent.
abbrev half_way : List RolloutTarget
half_way = target 7 0 ack ∷ target 8 1 pending ∷ target 9 1 pending ∷ []

abbrev finished : List RolloutTarget
finished = target 7 0 ack ∷ target 8 1 ack ∷ target 9 1 ack ∷ []

abbrev exceeds : ℕ → ℕ → ℕ → Bool
exceeds failed total threshold = ltb (threshold * total) (failed * 100)
