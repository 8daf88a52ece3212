-- ===== src/Ota/Rollout.antt =====
-- Staged firmware rollouts as pure decisions (api/ota/rollout.ts). The counts and the threshold are
-- integers that are not negative, as the router's schema asks for.
pub mod Waves
pub mod Shown
pub mod Plan
use gateway_monitoring_platf.Prelude.{
  ℕ, ◌+◌, ◌-◌, ◌*◌, ◌/◌, Option, none, some, Bool, true, false, not, ◌&&◌, ◌||◌, List, [], ◌∷◌, ltb,
  leb, ◌==◌, if◌then◌else◌, length, filter, map, min, max, sort_by,
}

pub data TargetStatus : Type 0 where
  pending sent ack failed : TargetStatus

pub record RolloutTarget : Type 0 where
  pub gateway_id : ℕ
  pub batch_index : ℕ
  pub status : TargetStatus

-- Math.floor(n) || 1
abbrev pub or_one : ℕ → ℕ
or_one n = if n == 0 then 1 else n

unfoldable pub canary_size : ℕ → ℕ → ℕ
canary_size canary_count total = max 1 (min (or_one canary_count) total)

abbrev pub batch_of : ℕ → ℕ → ℕ → ℕ
batch_of canary size i = if ltb i canary then 0 else 1 + (i - canary) / max 1 size

-- The `map` of planBatches from the index `i` on.
unfoldable pub plan_from : ℕ → ℕ → ℕ → List ℕ → List RolloutTarget
plan_from canary size i [] = []
plan_from canary size i (g ∷ gateway_ids) =
    record { gateway_id = g; batch_index = batch_of canary size i; status = pending }
    ∷ plan_from canary size (i + 1) gateway_ids

unfoldable pub plan_batches : List ℕ → ℕ → ℕ → List RolloutTarget
unfolding plan_from canary_size
plan_batches gateway_ids canary_count batch_size =
    plan_from (canary_size canary_count (length gateway_ids)) (or_one batch_size) 0 gateway_ids

abbrev pub is_pending : TargetStatus → Bool
is_pending pending = true
is_pending _ = false

abbrev pub is_sent : TargetStatus → Bool
is_sent sent = true
is_sent _ = false

abbrev pub is_ack : TargetStatus → Bool
is_ack ack = true
is_ack _ = false

abbrev pub is_failed : TargetStatus → Bool
is_failed failed = true
is_failed _ = false

-- targets.filter((t) => t.status === ...).length
unfoldable pub count_status : (TargetStatus → Bool) → List RolloutTarget → ℕ
count_status p targets = length (filter (λ t. p t.status) targets)

abbrev pub in_batch : ℕ → List RolloutTarget → List RolloutTarget
in_batch b targets = filter (λ t. t.batch_index == b) targets

pub record BatchCounts : Type 0 where
  pub total : ℕ
  pub pending : ℕ
  pub in_flight : ℕ
  pub ack : ℕ
  pub failed : ℕ

abbrev pub count_of : List RolloutTarget → BatchCounts
count_of targets = record {
  total = length targets;
  pending = count_status is_pending targets;
  in_flight = count_status is_sent targets;
  ack = count_status is_ack targets;
  failed = count_status is_failed targets;
}

unfoldable pub count_batch : List RolloutTarget → ℕ → BatchCounts
count_batch targets b = count_of (in_batch b targets)

-- The reason texts, by the numbers that they show.
pub data HaltReason : Type 0 where
  canary_failed : ℕ → ℕ → HaltReason
  batch_failed : ℕ → ℕ → ℕ → ℕ → HaltReason

pub data RolloutAction : Type 0 where
  dispatch : ℕ → List ℕ → RolloutAction
  wait : ℕ → RolloutAction
  halt : HaltReason → RolloutAction
  done : RolloutAction

abbrev pub gateways_of : List RolloutTarget → List ℕ
gateways_of targets = map (λ t. t.gateway_id) targets

-- [...new Set(xs)]: the first of each number; a number below `xs` that has come before is dropped.
unfoldable pub distinct : List ℕ → List ℕ
distinct [] = []
distinct (n ∷ ns) = n ∷ filter (λ m. not (m == n)) (distinct ns)

unfoldable pub batches_of : List RolloutTarget → List ℕ
unfolding distinct sort_by
batches_of targets = sort_by leb (distinct (map (λ t. t.batch_index) targets))

-- `exceeds failed total threshold` is `(failed / total) * 100 > threshold` on doubles.
module _ (exceeds : ℕ → ℕ → ℕ → Bool) where
  -- One round of the loop: what it returns, or `none` where it goes on.
  unfoldable pub judge : List RolloutTarget → ℕ → ℕ → Option RolloutAction
  judge targets threshold b =
      let c = count_batch targets b in
      if ltb 0 c.pending || ltb 0 c.in_flight
      then if c.pending == c.total && c.in_flight == 0
        then some (dispatch b (gateways_of (in_batch b targets)))
        else some (wait b)
      else if b == 0 && ltb 0 c.failed
      then some (halt (canary_failed c.failed c.total))
      else if not (c.total == 0) && exceeds c.failed c.total threshold
      then some (halt (batch_failed b c.failed c.total threshold))
      else none

  unfoldable pub walk : List RolloutTarget → ℕ → List ℕ → RolloutAction
  walk targets threshold [] = done
  walk targets threshold (b ∷ batches) =
      let rest = walk targets threshold batches in
      elim (judge targets threshold b) [ none ↦ rest | some a ↦ a ]

  unfoldable pub next_action : List RolloutTarget → ℕ → RolloutAction
  unfolding walk
  next_action [] threshold = done
  next_action (t ∷ targets) threshold = walk (t ∷ targets) threshold (batches_of (t ∷ targets))

pub record Progress : Type 0 where
  pub total : ℕ
  pub ack : ℕ
  pub failed : ℕ
  pub pending : ℕ
  pub in_flight : ℕ
  pub percent : ℕ

-- Math.round(settled / total * 100), the quotient being exact.
unfoldable pub percent_of : ℕ → ℕ → ℕ
percent_of settled total = if total == 0 then 0 else (2 * (settled * 100) + total) / (2 * total)

unfoldable pub rollout_progress : List RolloutTarget → Progress
rollout_progress targets =
    let c = count_of targets in
    record {
      total = c.total;
      ack = c.ack;
      failed = c.failed;
      pending = c.pending;
      in_flight = c.in_flight;
      percent = percent_of (c.ack + c.failed) c.total;
    }
