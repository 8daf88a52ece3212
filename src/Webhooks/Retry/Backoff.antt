-- ===== src/Webhooks/Retry/Backoff.antt =====
-- How long the queue waits, and when it gives up (api/webhooks/retry.ts).
use native.Mathlib.Nat.{pow-suc}
use mathlib.Core.Path.{subst}
use gateway_monitoring_platf.Prelude.{
  ℕ, zero, suc, ◌+◌, ◌-◌, ◌*◌, ◌/◌, ◌^◌, ◌≡◌, ◌↔◌, ◌⊎◌, ◌<◌, ◌≤◌, Option, none, some, Bool, refl,
  arith, ap, min, max,
}
use gateway_monitoring_platf.Webhooks.Retry.{
  backoff_ms, next_attempt_at, Failure, retry, classify, max_attempts, failure_of,
}

pow_pos : (n : ℕ) → 1 ≤ 2 ^ n
pow_pos zero = omega arith
pow_pos (suc n) = omega (arith, pow_pos n, pow-suc 2 n)

pow_mono : (m n : ℕ) → m ≤ n → 2 ^ m ≤ 2 ^ n
pow_mono zero n h = pow_pos n
pow_mono (suc m) zero h = elim h [ ]
pow_mono (suc m) (suc n) h = omega (arith, pow_mono m n (omega arith), pow-suc 2 m, pow-suc 2 n)

pow_ge : (n : ℕ) → 512 ≤ 2 ^ (n + 9)
pow_ge zero = omega arith
pow_ge (suc n) =
    let step : 2 ^ suc (n + 9) ≡ 2 * 2 ^ (n + 9) = omega (arith, pow-suc 2 (n + 9)) in
    let same : suc n + 9 ≡ suc (n + 9) = omega arith in rw same (omega (arith, pow_ge n, step))

large_pow : (k : ℕ) → 9 ≤ k → 512 ≤ 2 ^ k
large_pow k l = subst (λ x. 512 ≤ 2 ^ x) (omega arith) (pow_ge (k - 9))

-- The wait with the power of two behind it.
backoff_ms-pow : (n k : ℕ) → n ≡ suc k → backoff_ms n ≡ min (10_000 * 2 ^ k) 3_600_000
unfolding backoff_ms
backoff_ms-pow n k e =
    let same : 2 ^ (max 1 n - 1) ≡ 2 ^ k = ap (λ x. 2 ^ x) (omega arith) in
    ground (arith, same, large_pow k)

-- A wait spread by a quarter to both sides, rounded.
jitter_bounds :
    (base rand : ℕ)
    → rand ≤ 1_000_000
    → (3 * base / 4 ≤ (base * (1_500_000 + rand) + 1_000_000) / 2_000_000)
      × ((base * (1_500_000 + rand) + 1_000_000) / 2_000_000 ≤ 5 * base / 4 + 1)
jitter_bounds base rand h = grind arith

-- The wait before the next attempt doubles with each attempt up to an hour, which it has reached at
-- the tenth; with its jitter it stays within a quarter of that, up to the rounding to a millisecond.
pub backoff_ms_lem :
    (attempt now rand : ℕ)
    → 1 ≤ attempt
    → rand ≤ 1_000_000
    → (backoff_ms (attempt + 1) ≡ min (2 * backoff_ms attempt) 3_600_000)
      × (backoff_ms 1 ≡ 10_000)
      × (10 ≤ attempt → backoff_ms attempt ≡ 3_600_000)
      × (now + 3 * backoff_ms attempt / 4 ≤ next_attempt_at attempt now rand)
      × (next_attempt_at attempt now rand ≤ now + (5 * backoff_ms attempt / 4 + 1))
unfolding next_attempt_at
backoff_ms_lem attempt now rand h k =
    let p = attempt - 1 in
    let this = backoff_ms-pow attempt p (omega arith) in
    let next = backoff_ms-pow (attempt + 1) (suc p) (omega arith) in
    let (low, high) = jitter_bounds (backoff_ms attempt) rand k in
    (
      omega (arith, this, next, pow-suc 2 p),
      backoff_ms-pow 1 0 refl,
      λ l. omega (arith, this, large_pow p (omega arith)),
      omega arith,
      omega arith,
    )

-- The waits between the first attempt and attempt `n + 1`, without jitter.
abbrev pub total_wait : ℕ → ℕ
total_wait zero = 0
total_wait (suc n) = total_wait n + backoff_ms (suc n)

-- The waits before attempt `n + 1` add up to 10 seconds times 2 ^ n less 10 seconds, up to the
-- ninth attempt.
pub total_wait-pow : (n : ℕ) → n ≤ 8 → total_wait n + 10_000 ≡ 10_000 * 2 ^ n
total_wait-pow zero h = refl
total_wait-pow (suc n) h = omega (
  arith,
  total_wait-pow n (omega arith),
  backoff_ms-pow (suc n) n refl,
  pow-suc 2 n,
  pow_mono n 7 (omega arith),
)

-- A delivery is tried again exactly when it neither succeeded nor was refused for good, and attempts
-- are left: refused for good is a 4xx answer other than 408 and 429.
pub classify_retry_iff :
    (status : Option ℕ) (has_error : Bool) (attempt limit : ℕ)
    → ((f : Failure) × (classify status has_error attempt limit ≡ retry status f)) ↔ (
        (attempt < limit)
        × ((s : ℕ)
            → status ≡ some s
            → ((s < 200) ⊎ (300 ≤ s)) × ((s < 400) ⊎ ((500 ≤ s) ⊎ ((s ≡ 408) ⊎ (s ≡ 429))))))
unfolding classify
classify_retry_iff none has_error attempt limit =
    (λ (f, e). (ground arith, λ s p. cc), λ (lt, h). (failure_of none has_error, ground arith))
classify_retry_iff (some s) has_error attempt limit = (
  λ (f, e). (ground arith, λ t p. ground arith),
  λ (lt, h). (failure_of (some s) has_error, ground (arith, h s refl)),
)

-- A delivery that is still queued has waited 1270 seconds at most between its attempts, jitter
-- aside: eight attempts span about 21 minutes.
pub total_wait_max : (n : ℕ) → n < max_attempts → total_wait n ≤ 1_270_000
total_wait_max n h = omega (arith, total_wait-pow n (omega arith), pow_mono n 7 (omega arith))
