-- ===== src/Ota/Rollout/Plan.antt =====
-- The sizes of the waves of a rollout (api/ota/rollout.ts, planBatches).
use gateway_monitoring_platf.Prelude.{
  ℕ, suc, ◌+◌, ◌-◌, ◌*◌, ◌/◌, min, max, ◌≡◌, ◌<◌, ◌≤◌, refl, ap, arith, List, [], ◌∷◌, All, length,
  Bool-cases, inl, inr, ◌==◌, ltb,
}
use gateway_monitoring_platf.Ota.Rollout.{
  pending, or_one, canary_size, batch_of, plan_from, plan_batches, in_batch, gateways_of,
}

quotient_at :
    (a size b : ℕ) → 1 ≤ size → a / max 1 size ≡ b → (b * size ≤ a) × (a < b * size + size)
quotient_at a size b h e =
    let same : max 1 size ≡ size = omega arith in
    let e' : a / size ≡ b = rw same at e in rw (← e') (omega arith)

-- Where batch `b + 1` lies among the indices.
batch_of_bounds :
    (canary size i b : ℕ)
    → 1 ≤ size
    → batch_of canary size i ≡ suc b
    → (canary + b * size ≤ i) × (i < canary + b * size + size)
batch_of_bounds canary size i b h e = elim (Bool-cases (ltb i canary)) [
  | inl first ↦ absurd (ground arith)
  | inr later ↦
      let (low, high) = quotient_at (i - canary) size b h (ground arith) in
      (ground arith, ground arith)
]

gateways_of-plan_from :
    (canary size i : ℕ) (ids : List ℕ) → gateways_of (plan_from canary size i ids) ≡ ids
unfolding plan_from
gateways_of-plan_from canary size i [] = refl
gateways_of-plan_from canary size i (g ∷ ids) =
    ap (λ l. g ∷ l) (gateways_of-plan_from canary size (i + 1) ids)

plan_from-pending :
    (canary size i : ℕ) (ids : List ℕ) → All (λ t. t.status ≡ pending) (plan_from canary size i ids)
unfolding plan_from
plan_from-pending canary size i [] = tt
plan_from-pending canary size i (g ∷ ids) = (refl, plan_from-pending canary size (i + 1) ids)

canaries_from :
    (canary size i : ℕ) (ids : List ℕ)
    → length (in_batch 0 (plan_from canary size i ids)) ≡ min (length ids) (canary - i)
unfolding plan_from
canaries_from canary size i [] = omega arith
canaries_from canary size i (g ∷ ids) = ground (arith, canaries_from canary size (i + 1) ids)

wave_from :
    (canary size i b : ℕ) (ids : List ℕ)
    → 1 ≤ size
    → length (in_batch (suc b) (plan_from canary size i ids))
      ≤ (canary + b * size + size) - max i (canary + b * size)
unfolding plan_from
wave_from canary size i b [] h = omega arith
wave_from canary size i b (g ∷ ids) h = elim (Bool-cases (batch_of canary size i == suc b)) [
  | inl here ↦ rw here (
      omega (
        arith,
        wave_from canary size (i + 1) b ids h,
        batch_of_bounds canary size i b h (ground arith),
      ))
  | inr other ↦ rw other (omega (arith, wave_from canary size (i + 1) b ids h))
]

-- A plan holds every gateway once, in the order given, and nothing of it has been sent. Its first
-- batch is the canary, as many gateways as asked for but at least one and at most all of them; no
-- later batch is larger than the batch size, which counts as one if it is zero.
pub plan_batches_lem :
    (ids : List ℕ) (canary_count batch_size b : ℕ)
    → let targets = plan_batches ids canary_count batch_size in
      (gateways_of targets ≡ ids)
      × All (λ t. t.status ≡ pending) targets
      × (length (in_batch 0 targets) ≡ min (length ids) (max 1 canary_count))
      × (length (in_batch (suc b) targets) ≤ max 1 batch_size)
unfolding plan_batches canary_size
plan_batches_lem ids c s b =
    let canary = canary_size c (length ids) in
    (
      gateways_of-plan_from canary (or_one s) 0 ids,
      plan_from-pending canary (or_one s) 0 ids,
      ground (arith, canaries_from canary (or_one s) 0 ids),
      ground (arith, wave_from canary (or_one s) 0 b ids (ground arith)),
    )
