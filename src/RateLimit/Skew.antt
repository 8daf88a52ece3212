-- ===== src/RateLimit/Skew.antt =====
-- The rate limiter of replicas whose clocks differ (api/rest/rate-limit.ts).
use native.Mathlib.Nat.{mul-le-mul_right}
use gateway_monitoring_platf.Prelude.{
  ℕ, zero, suc, ◌+◌, ◌-◌, ◌*◌, ◌≤◌, ◌≡◌, refl, some, arith, List, [], ◌∷◌, le→leb,
}
use gateway_monitoring_platf.RateLimit.{token, BucketLimit, refilled, BucketRow}
use gateway_monitoring_platf.RateLimit.Bound.{avail, charged, calls, calls-nil, calls_granted}

-- Requests by turns to a replica whose clock shows `t` and to one that is `d` behind.
abbrev pub turns : ℕ → ℕ → ℕ → List ℕ
turns zero t d = []
turns (suc n) t d = t ∷ (t - d) ∷ turns n t d

refilled_two :
    (limit : BucketLimit) (t d : ℕ) (r : BucketRow)
    → 2 * token ≤ d * limit.per_minute
    → 2 ≤ limit.burst
    → r.bucket.updated_at + d ≤ t
    → 2 * token ≤ avail limit t (some r)
unfolding refilled
refilled_two limit t d r gap b u =
    let gained : d * limit.per_minute ≤ (t - r.bucket.updated_at) * limit.per_minute =
      mul-le-mul_right limit.per_minute (omega arith) in
    ground (arith, gained)

refilled_back :
    (limit : BucketLimit) (t d have : ℕ) (r : BucketRow)
    → 2 * token ≤ have
    → 2 ≤ limit.burst
    → token ≤ avail limit (t - d) (some (charged have t (some r)))
unfolding refilled
refilled_back limit t d have r two b = ground arith

-- No bound holds where the clocks of two replicas differ. Where what the rate refills in the
-- difference is two tokens at least and the burst is two at least, requests by turns to the replica
-- that is ahead and to the one behind are all let through, however many there are, while no time
-- passes: the one behind sets updatedAt back, and the one ahead refills the same interval again.
pub turns-unlimited :
    (limit : BucketLimit) (t d n : ℕ) (r : BucketRow)
    → 2 * 60_000 ≤ d * limit.per_minute
    → 2 ≤ limit.burst
    → r.bucket.updated_at + d ≤ t
    → (calls limit (turns n t d) (some r)).0 ≡ 2 * n
turns-unlimited limit t d zero r gap b u = rw (calls-nil limit (some r)) refl
turns-unlimited limit t d (suc n) r gap b u =
    let two = refilled_two limit t d r gap b u in
    let have = avail limit t (some r) in
    let row = charged have t (some r) in
    let back = refilled_back limit t d have r two b in
    let row' = charged (avail limit (t - d) (some row)) (t - d) (some row) in
    let first =
      calls_granted limit t ((t - d) ∷ turns n t d) (some r) (le→leb _ _ (omega (arith, two))) in
    let second = calls_granted limit (t - d) (turns n t d) (some row) (le→leb _ _ back) in
    let rest = turns-unlimited limit t d n row' gap b (omega arith) in
    rw (first, second, rest) (omega arith)
