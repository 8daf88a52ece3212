-- ===== src/Webhooks/Retry.antt =====
-- The retry policy of the delivery queue (api/webhooks/retry.ts). Attempts are whole numbers.
pub mod Backoff
use gateway_monitoring_platf.Prelude.{
  ℕ, ◌+◌, ◌-◌, ◌*◌, ◌/◌, ◌^◌, Option, none, some, Bool, true, false, not, ◌&&◌, ltb, leb, ◌==◌,
  if◌then◌else◌, min, max,
}

abbrev pub max_attempts : ℕ
max_attempts = 8

abbrev pub base_delay_ms : ℕ
base_delay_ms = 10_000

abbrev pub max_delay_ms : ℕ
max_delay_ms = 3_600_000

unfoldable pub backoff_ms : ℕ → ℕ
backoff_ms attempt =
    let n = max 1 attempt in
    min (if leb 30 n then max_delay_ms else base_delay_ms * 2 ^ (n - 1)) max_delay_ms

-- `rand` is the random number, in millionths, below a million; the product is rounded half up.
unfoldable pub next_attempt_at : ℕ → ℕ → ℕ → ℕ
unfolding backoff_ms
next_attempt_at attempt now rand =
    now + (backoff_ms attempt * (1_500_000 + rand) + 1_000_000) / 2_000_000

-- What the error text of an outcome says.
pub data Failure : Type 0 where
  reported no_response : Failure
  http : ℕ → Failure
  gave_up : Failure → ℕ → Failure

pub data DeliveryOutcome : Type 0 where
  delivered : ℕ → DeliveryOutcome
  retry dead : Option ℕ → Failure → DeliveryOutcome

-- error ?? (status === null ? "no response" : `HTTP ${status}`)
abbrev pub failure_of : Option ℕ → Bool → Failure
failure_of status true = reported
failure_of none false = no_response
failure_of (some s) false = http s

abbrev pub is_success : Option ℕ → Bool
is_success none = false
is_success (some s) = leb 200 s && ltb s 300

abbrev pub is_permanent : Option ℕ → Bool
is_permanent none = false
is_permanent (some s) = leb 400 s && ltb s 500 && not (s == 408) && not (s == 429)

abbrev pub status_or : Option ℕ → ℕ
status_or none = 0
status_or (some s) = s

-- `has_error` says that an error text is given.
unfoldable pub classify : Option ℕ → Bool → ℕ → ℕ → DeliveryOutcome
classify status has_error attempt limit =
    let failure = failure_of status has_error in
    if is_success status
    then delivered (status_or status)
    else if is_permanent status
    then dead status failure
    else if leb limit attempt
    then dead status (gave_up failure attempt)
    else retry status failure
