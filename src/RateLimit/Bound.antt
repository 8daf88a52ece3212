-- ===== src/RateLimit/Bound.antt =====
-- What the published rate means (api/rest/rate-limit.ts): how many requests a bucket lets through,
-- and that the advertised wait is long enough.
use native.Mathlib.Nat.{add-mul, mul_assoc, mul-le-mul_right}
use gateway_monitoring_platf.Prelude.{
  ℕ, suc, ◌+◌, ◌-◌, ◌*◌, ◌/◌, ◌%◌, ◌≤◌, ◌<◌, ◌≡◌, refl, Option, none, some, true, false, leb,
  if◌then◌else◌, max, arith, List, [], ◌∷◌, Bool-cases, inl, inr, leb→le, le→leb, sym, ◌∙◌,
}
use gateway_monitoring_platf.RateLimit.{
  token, BucketLimit, refilled, take_token, retry_after, BucketRow, write_bucket, consume_from,
  consume_round, quiet,
}

-- What a row is worth at an instant.
abbrev pub avail : BucketLimit → ℕ → Option BucketRow → ℕ
avail limit now none = limit.burst * token
avail limit now (some r) = refilled limit now r.bucket

abbrev pub charged : ℕ → ℕ → Option BucketRow → BucketRow
charged have now none = record {
  bucket = record { tokens = have - token; updated_at = now };
  version = 1;
}
charged have now (some r) = record {
  bucket = record { tokens = have - token; updated_at = now };
  version = r.version + 1;
}

pub refilled_full :
    (limit : BucketLimit) (now : ℕ)
    → refilled limit now (record { tokens = limit.burst * token; updated_at = now })
      ≡ limit.burst * token
unfolding refilled
refilled_full limit now =
    let none_passed : (now - now) * limit.per_minute ≡ 0 =
      let e : now - now ≡ 0 = omega arith in rw e (omega arith) in
    ground (arith, none_passed)

-- A call with nothing beside it, in one line.
pub consume-quiet :
    (limit : BucketLimit) (now n : ℕ) (row : Option BucketRow)
    → let (result, after) = consume_from (suc n) limit now quiet row in
      (result.decision.allowed ≡ leb token (avail limit now row))
      × (after ≡ (
          if leb token (avail limit now row)
          then some (charged (avail limit now row) now row)
          else row))
unfolding consume_from consume_round take_token write_bucket
consume-quiet limit now n none = ground (arith, refilled_full limit now)
consume-quiet limit now n (some r) = ground arith

-- Calls one after the other at the times of a list: how many are let through, and the row at last.
unfoldable pub calls : BucketLimit → List ℕ → Option BucketRow → ℕ × Option BucketRow
calls limit [] row = (0, row)
calls limit (now ∷ later) row =
    let (result, after) = consume_from 3 limit now quiet row in
    let (granted, last) = calls limit later after in
    (if result.decision.allowed then granted + 1 else granted, last)

pub calls-nil : (limit : BucketLimit) (row : Option BucketRow) → calls limit [] row ≡ (0, row)
unfolding calls
calls-nil limit row = refl

-- A call that is let through, and the calls after it.
pub calls_granted :
    (limit : BucketLimit) (now : ℕ) (later : List ℕ) (row : Option BucketRow)
    → leb token (avail limit now row) ≡ true
    → let rest = calls limit later (some (charged (avail limit now row) now row)) in
      calls limit (now ∷ later) row ≡ (rest.0 + 1, rest.1)
unfolding calls
calls_granted limit now later row enough =
    let (allowed, after) = consume-quiet limit now 2 row in rw (allowed, after, enough) refl

-- The times rise from `from` to `to`.
abbrev pub Rise : ℕ → List ℕ → ℕ → Type 0
Rise from [] to = from ≤ to
Rise from (now ∷ later) to = (from ≤ now) × Rise now later to

avail_grows :
    (limit : BucketLimit) (a b : ℕ) (row : Option BucketRow)
    → a ≤ b
    → avail limit b row ≤ avail limit a row + (b - a) * limit.per_minute
unfolding refilled
avail_grows limit a b none h = omega arith
avail_grows limit a b (some r) h =
    let split : (b - r.bucket.updated_at) * limit.per_minute
        ≤ (a - r.bucket.updated_at) * limit.per_minute + (b - a) * limit.per_minute =
      rw (← add-mul (a - r.bucket.updated_at) (b - a) limit.per_minute)
        (mul-le-mul_right limit.per_minute (omega arith)) in
    ground (arith, split)

refilled_now :
    (limit : BucketLimit) (now have : ℕ)
    → refilled limit now (record { tokens = have; updated_at = now }) ≤ have
unfolding refilled
refilled_now limit now have =
    let none_passed : (now - now) * limit.per_minute ≡ 0 =
      let e : now - now ≡ 0 = omega arith in rw e (omega arith) in
    ground (arith, none_passed)

avail-charged :
    (limit : BucketLimit) (now have : ℕ) (row : Option BucketRow)
    → avail limit now (some (charged have now row)) ≤ have - token
avail-charged limit now have none = refilled_now limit now (have - token)
avail-charged limit now have (some r) = refilled_now limit now (have - token)

Rise-le : (from : ℕ) (times : List ℕ) (to : ℕ) → Rise from times to → from ≤ to
Rise-le from [] to h = h
Rise-le from (now ∷ later) to h = omega (arith, Rise-le now later to h.1)

split_refill : (a b c p : ℕ) → a ≤ b → b ≤ c → (b - a) * p + (c - b) * p ≡ (c - a) * p
split_refill a b c p h k =
    let e : b - a + (c - b) ≡ c - a = omega arith in rw (← add-mul (b - a) (c - b) p, e) refl

calls_spend :
    (limit : BucketLimit) (from to : ℕ) (times : List ℕ) (row : Option BucketRow)
    → Rise from times to
    → (calls limit times row).0 * token + avail limit to (calls limit times row).1
      ≤ avail limit from row + (to - from) * limit.per_minute
unfolding calls
calls_spend limit from to [] row rise = omega (arith, avail_grows limit from to row rise)
calls_spend limit from to (now ∷ later) row rise =
    let (allowed, after) = consume-quiet limit now 2 row in
    let grown = avail_grows limit from now row rise.0 in
    let parts = split_refill from now to limit.per_minute rise.0 (Rise-le now later to rise.1) in
    elim (Bool-cases (leb token (avail limit now row))) [
      | inl enough ↦
          let row' = some (charged (avail limit now row) now row) in
          let fits : token ≤ avail limit now row = leb→le _ _ enough in
          rw (allowed, after, enough)
            (omega (
              arith,
              grown,
              parts,
              avail-charged limit now (avail limit now row) row,
              calls_spend limit now to later row' rise.1,
            ))
      | inr short ↦
          rw (allowed, after, short)
            (omega (arith, grown, parts, calls_spend limit now to later row rise.1))
    ]

avail-le :
    (limit : BucketLimit) (now : ℕ) (row : Option BucketRow)
    → avail limit now row ≤ limit.burst * token
unfolding refilled
avail-le limit now none = omega arith
avail-le limit now (some r) = ground arith

-- The published rate. Whatever the row holds, calls of `consume` with nothing beside them, at times
-- that rise from `from` to `to`, are let through at most burst times and once more for each full
-- token that perMinute refills in between: sixty thousand times the number of grants is at most
-- sixty thousand times the burst plus perMinute for each millisecond.
pub calls_bound :
    (limit : BucketLimit) (from to : ℕ) (times : List ℕ) (row : Option BucketRow)
    → Rise from times to
    → (calls limit times row).0 * 60_000 ≤ limit.burst * 60_000 + (to - from) * limit.per_minute
calls_bound limit from to times row rise =
    omega (arith, calls_spend limit from to times row rise, avail-le limit from row)

-- Division rounded up is enough.
le-max : (n d : ℕ) → n / d ≤ max 1 (n / d)
le-max n d = ground arith

ceil_enough : (n d : ℕ) → 0 < d → n ≤ max 1 ((n + d - 1) / d) * d
ceil_enough n d h =
    let parts : (n + d - 1) / d * d + (n + d - 1) % d ≡ n + d - 1 = grind arith in
    let small : (n + d - 1) % d < d = grind arith in
    let up = mul-le-mul_right d (le-max (n + d - 1) d) in omega (arith, parts, small, up)

consume-refused :
    (limit : BucketLimit) (now n : ℕ) (r : BucketRow)
    → leb token (refilled limit now r.bucket) ≡ false
    → consume_from (suc n) limit now quiet (some r) ≡ (
      record {
        decision = record {
          allowed = false;
          next = record { tokens = refilled limit now r.bucket; updated_at = now };
          remaining = 0;
          retry_after_sec = retry_after limit (refilled limit now r.bucket);
        };
        limit = limit.per_minute;
      },
      some r,
    )
unfolding consume_from consume_round take_token
consume-refused limit now n r short = rw short

waited_enough :
    (limit : BucketLimit) (now later : ℕ) (r : BucketRow)
    → 0 < limit.per_minute
    → 1 ≤ limit.burst
    → r.bucket.updated_at ≤ now
    → leb token (refilled limit now r.bucket) ≡ false
    → now + retry_after limit (refilled limit now r.bucket) * 1000 ≤ later
    → token ≤ refilled limit later r.bucket
unfolding refilled
waited_enough limit now later r p b u short waited =
    let have = refilled limit now r.bucket in
    let few : have ≡ r.bucket.tokens + (now - r.bucket.updated_at) * limit.per_minute =
      ground arith in
    let missing = ceil_enough (token - have) (1000 * limit.per_minute) (omega arith) in
    let regroup = mul_assoc (retry_after limit have) 1000 limit.per_minute in
    let gained : retry_after limit have * 1000 * limit.per_minute
        ≤ (later - now) * limit.per_minute =
      mul-le-mul_right limit.per_minute (omega arith) in
    let after : now ≤ later = omega arith in
    let parts = split_refill r.bucket.updated_at now later limit.per_minute u after in
    ground (arith, few, missing, regroup, gained, parts)

-- Retry-After is enough. A request that was turned away with a wait of some seconds is let through
-- when it comes back after them, with nothing beside it and nothing let through in between: the
-- limit has a positive rate and a burst of one token at least, and the clock had not gone back
-- behind the row.
pub retry_after_lem :
    (limit : BucketLimit) (now later n : ℕ) (r : BucketRow)
    → 0 < limit.per_minute
    → 1 ≤ limit.burst
    → r.bucket.updated_at ≤ now
    → (consume_from (suc n) limit now quiet (some r)).0.decision.allowed ≡ false
    → now + (consume_from (suc n) limit now quiet (some r)).0.decision.retry_after_sec * 1000
      ≤ later
    → (consume_from
        (suc n)
        limit
        later
        quiet
        (consume_from (suc n) limit now quiet (some r)).1).0.decision.allowed
      ≡ true
retry_after_lem limit now later n r p b u refused waited =
    let short : leb token (refilled limit now r.bucket) ≡ false =
      sym ((consume-quiet limit now n (some r)).0) ∙ refused in
    let e = consume-refused limit now n r short in
    let waited' : now + retry_after limit (refilled limit now r.bucket) * 1000 ≤ later =
      rw e at waited in
    rw e (
      (consume-quiet limit later n (some r)).0
      ∙ le→leb _ _ (waited_enough limit now later r p b u short waited'))
