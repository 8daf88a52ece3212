-- ===== src/RateLimit.antt =====
-- The rate limiter of the REST API (api/rest/rate-limit.ts) and its bucket table
-- (api/rest/rate-limit-store.ts). Tokens are counted in sixty-thousandths, so that the refill of a
-- millisecond, perMinute of them, is exact; rates and bursts are whole numbers and times epoch
-- milliseconds. The tables are read at one key and scope, their primary key.
pub mod Bound
pub mod Skew
pub mod Contention
pub mod Refusal
mod Tests
use gateway_monitoring_platf.Prelude.{
  ℕ, zero, suc, ◌+◌, ◌-◌, ◌*◌, ◌/◌, String, Option, none, some, Bool, true, false, ltb, leb, ◌==◌,
  if◌then◌else◌, min, max, or_else, str_eq,
}

-- One token.
abbrev pub token : ℕ
token = 60_000

pub record BucketState : Type 0 where
  pub tokens : ℕ
  pub updated_at : ℕ

pub record BucketLimit : Type 0 where
  pub per_minute : ℕ
  pub burst : ℕ

pub record BucketDecision : Type 0 where
  pub allowed : Bool
  pub next : BucketState
  pub remaining : ℕ
  pub retry_after_sec : ℕ

-- The tokens before the request is charged; `-` stops at 0, as Math.max(0, ...) does.
unfoldable pub refilled : BucketLimit → ℕ → BucketState → ℕ
refilled limit now prior =
    min (limit.burst * token) (prior.tokens + (now - prior.updated_at) * limit.per_minute)

-- Seconds until one token: needed / (perMinute / 60 tokens), rounded up.
abbrev pub retry_after : BucketLimit → ℕ → ℕ
retry_after limit have =
    max 1 ((token - have + 1000 * limit.per_minute - 1) / (1000 * limit.per_minute))

unfoldable pub take_token : Option BucketState → BucketLimit → ℕ → BucketDecision
unfolding refilled
take_token state limit now =
    let prior : BucketState =
      or_else state (record { tokens = limit.burst * token; updated_at = now }) in
    let have = refilled limit now prior in
    if leb token have
    then record {
      allowed = true;
      next = record { tokens = have - token; updated_at = now };
      remaining = (have - token) / token;
      retry_after_sec = 0;
    }
    else record {
      allowed = false;
      next = record { tokens = have; updated_at = now };
      remaining = 0;
      retry_after_sec = retry_after limit have;
    }

-- `env name` is what Number makes of a variable that is a positive number, and `none` else.
unfoldable pub limit_for : (String → Option ℕ) → String → BucketLimit
limit_for env scope =
    let both = λ (name : String) (fallback : ℕ).
      let n = or_else (env name) fallback in
      let limit : BucketLimit = record { per_minute = n; burst = n } in limit in
    if str_eq scope "telemetry:read"
    then both "RATE_TELEMETRY_PER_MIN" 60
    else if str_eq scope "ems:write"
    then both "RATE_EMS_WRITE_PER_MIN" 30
    else if str_eq scope "control"
    then both "RATE_CONTROL_PER_MIN" 30
    else both "RATE_READ_PER_MIN" 120

pub record BucketRow : Type 0 where
  pub bucket : BucketState
  pub version : ℕ

abbrev pub bucket_of_row : Option BucketRow → Option BucketState
bucket_of_row none = none
bucket_of_row (some r) = some r.bucket

-- INSERT IGNORE where nothing was read, else the UPDATE on the version that was read: whether it
-- changed a row, and the row after it.
unfoldable pub write_bucket :
    Option BucketRow → BucketState → Option BucketRow → Bool × Option BucketRow
write_bucket none next none = (true, some (record { bucket = next; version = 1 }))
write_bucket none next (some r) = (false, some r)
write_bucket (some read) next none = (false, none)
write_bucket (some read) next (some r) =
    if r.version == read.version
    then (true, some (record { bucket = next; version = read.version + 1 }))
    else (false, some r)

pub record RateResult : Type 0 where
  pub decision : BucketDecision
  pub limit : ℕ

abbrev pub allow_fallback : BucketLimit → ℕ → RateResult
allow_fallback limit now = record {
  decision = record {
    allowed = true;
    next = record { tokens = limit.burst * token; updated_at = now };
    remaining = limit.burst;
    retry_after_sec = 0;
  };
  limit = limit.per_minute;
}

-- What goes on beside one round: whether its two statements succeed, and what other requests do to
-- the row between them.
pub record Beside : Type 0 where
  pub reads : Bool
  pub others : Option BucketRow → Option BucketRow
  pub writes : Bool

-- After the write of a round: return, or go round again, here with what the next rounds make of it.
abbrev pub after_write :
    BucketLimit
    → BucketDecision
    → Bool × Option BucketRow
    → (Option BucketRow → RateResult × Option BucketRow)
    → RateResult × Option BucketRow
after_write limit d (true, row) again = (record { decision = d; limit = limit.per_minute }, row)
after_write limit d (false, row) again = again row

-- A round that decides on `row` as it was read.
unfoldable pub consume_round :
    BucketLimit
    → ℕ
    → Beside
    → Option BucketRow
    → (Option BucketRow → RateResult × Option BucketRow)
    → RateResult × Option BucketRow
unfolding take_token write_bucket
consume_round limit now beside row again =
    let d = take_token (bucket_of_row row) limit now in
    if beside.reads
    then if d.allowed
      then if beside.writes
        then after_write limit d (write_bucket row d.next (beside.others row)) again
        else (allow_fallback limit now, beside.others row)
      else (record { decision = d; limit = limit.per_minute }, row)
    else (allow_fallback limit now, row)

-- The rounds that are left.
unfoldable pub consume_from :
    ℕ → BucketLimit → ℕ → (ℕ → Beside) → Option BucketRow → RateResult × Option BucketRow
unfolding consume_round
consume_from zero limit now beside row = (allow_fallback limit now, row)
consume_from (suc n) limit now beside row =
    consume_round limit now (beside n) row (consume_from n limit now beside)

abbrev pub max_cas_attempts : ℕ
max_cas_attempts = 3

unfoldable pub consume :
    (String → Option ℕ)
    → String
    → ℕ
    → (ℕ → Beside)
    → Option BucketRow
    → RateResult × Option BucketRow
unfolding consume_from
consume env scope now beside row =
    consume_from max_cas_attempts (limit_for env scope) now beside row

-- A call with nothing beside it.
abbrev pub quiet : ℕ → Beside
quiet _ = record { reads = true; others = λ row. row; writes = true }
