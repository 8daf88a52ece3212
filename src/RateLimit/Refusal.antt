-- ===== src/RateLimit/Refusal.antt =====
-- When a request is turned away (api/rest/rate-limit-store.ts, consume).
use gateway_monitoring_platf.Prelude.{
  ℕ, String, zero, suc, ◌≡◌, refl, Option, Bool, true, false, arith, Bool-cases, inl, inr,
}
use gateway_monitoring_platf.RateLimit.{
  BucketLimit, BucketDecision, BucketRow, bucket_of_row, take_token, write_bucket, RateResult,
  Beside, after_write, consume_round, consume_from, consume, limit_for, max_cas_attempts,
}

-- The row that a refusal rests on, which is the row at the end.
abbrev pub RefusedBy : BucketLimit → ℕ → RateResult × Option BucketRow → Type 0
RefusedBy limit now (result, row) =
    ((take_token (bucket_of_row row) limit now).allowed ≡ false)
    × (result.decision ≡ take_token (bucket_of_row row) limit now)

after_write-RefusedBy :
    (limit : BucketLimit) (now : ℕ) (d : BucketDecision) (w : Bool × Option BucketRow)
    (again : Option BucketRow → RateResult × Option BucketRow)
    → ((row : Option BucketRow)
        → (again row).0.decision.allowed ≡ false
        → RefusedBy limit now (again row))
    → d.allowed ≡ true
    → (after_write limit d w again).0.decision.allowed ≡ false
    → RefusedBy limit now (after_write limit d w again)
after_write-RefusedBy limit now d (true, row) again keep a h = cc
after_write-RefusedBy limit now d (false, row) again keep a h = keep row h

consume_round-RefusedBy :
    (limit : BucketLimit) (now : ℕ) (beside : Beside) (row : Option BucketRow)
    (again : Option BucketRow → RateResult × Option BucketRow)
    → ((row : Option BucketRow)
        → (again row).0.decision.allowed ≡ false
        → RefusedBy limit now (again row))
    → (consume_round limit now beside row again).0.decision.allowed ≡ false
    → RefusedBy limit now (consume_round limit now beside row again)
unfolding consume_round
consume_round-RefusedBy limit now beside row again keep h = elim (Bool-cases beside.reads) [
  | inr down ↦ absurd (ground arith)
  | inl up ↦ elim (Bool-cases (take_token (bucket_of_row row) limit now).allowed) [
    | inr refused ↦ rw (up, refused) (refused, refl)
    | inl allowed ↦ elim (Bool-cases beside.writes) [
      | inr down ↦ absurd (ground arith)
      | inl through ↦
          rw (up, allowed, through)
            (after_write-RefusedBy limit now (take_token (bucket_of_row row) limit now)
              (write_bucket row (take_token (bucket_of_row row) limit now).next (beside.others row))
              again keep allowed (rw (up, allowed, through) at h))
    ]
  ]
]

consume_from-RefusedBy :
    (n : ℕ) (limit : BucketLimit) (now : ℕ) (beside : ℕ → Beside) (row : Option BucketRow)
    → (consume_from n limit now beside row).0.decision.allowed ≡ false
    → RefusedBy limit now (consume_from n limit now beside row)
unfolding consume_from
consume_from-RefusedBy zero limit now beside row h = cc
consume_from-RefusedBy (suc n) limit now beside row h =
    consume_round-RefusedBy limit now (beside n) row (consume_from n limit now beside)
      (consume_from-RefusedBy n limit now beside) h

-- A limiter fails open. Whatever the other requests do to the row and whichever statements fail, a
-- request is turned away only by the decision on a row that it has read, in some round; it then
-- gets that decision and leaves that row as it is.
pub consume-RefusedBy :
    (env : String → Option ℕ) (scope : String) (now : ℕ) (beside : ℕ → Beside)
    (row : Option BucketRow)
    → (consume env scope now beside row).0.decision.allowed ≡ false
    → RefusedBy (limit_for env scope) now (consume env scope now beside row)
unfolding consume
consume-RefusedBy env scope now beside row h =
    consume_from-RefusedBy max_cas_attempts (limit_for env scope) now beside row h
