-- ===== src/RateLimit/Tests.antt =====
-- Runs of the rate limiter (api/rest/rate-limit.ts and its store).
use gateway_monitoring_platf.Prelude.{
  ◌+◌, ◌-◌, ◌*◌, ◌≤◌, ◌≡◌, refl, none, some, true, arith, [], ◌∷◌, length, ℕ_discrete,
}
use gateway_monitoring_platf.RateLimit.{
  BucketLimit, BucketRow, quiet, take_token, write_bucket, consume_from,
}
use gateway_monitoring_platf.RateLimit.Bound.{calls, calls_bound, retry_after_lem}
use gateway_monitoring_platf.RateLimit.Skew.{turns, turns-unlimited}
use gateway_monitoring_platf.RateLimit.Contention.{
  System, idle, waiting, deciding, update, Step, Reach, granted-serial,
}

abbrev writes_limit : BucketLimit
writes_limit = record { per_minute = 30; burst = 2 }

abbrev spent : BucketRow
spent = record { bucket = record { tokens = 30_000; updated_at = 1000 }; version = 7 }

-- Two at once, then one each two seconds.
calls_run : (calls writes_limit (1000 ∷ 1000 ∷ 1000 ∷ 2000 ∷ 3000 ∷ []) none).0 ≡ 3
unfolding calls consume_from
calls_run = refl

calls_bound_example :
    (calls writes_limit (1000 ∷ 1500 ∷ 3000 ∷ []) (some spent)).0 * 60_000
    ≤ writes_limit.burst * 60_000 + (4000 - 1000) * writes_limit.per_minute
calls_bound_example =
    calls_bound writes_limit 1000 4000 (1000 ∷ 1500 ∷ 3000 ∷ []) (some spent) (omega arith)

retry_after_lem_example :
    (consume_from 3 writes_limit 2000 quiet
      (consume_from 3 writes_limit 1000 quiet (some spent)).1).0.decision.allowed
    ≡ true
unfolding consume_from
retry_after_lem_example =
    retry_after_lem writes_limit 1000 2000 2 spent (omega arith) (omega arith) (omega arith) refl
      (omega arith)

turns-unlimited_example : (calls writes_limit (turns 500 90_000 60_000) (some spent)).0 ≡ 2 * 500
turns-unlimited_example =
    turns-unlimited writes_limit 90_000 60_000 500 spent (omega arith) (omega arith) (omega arith)

-- Two requests read the same row; the second loses its write.
abbrev raced : System
raced = record {
  row = some (record { bucket = record { tokens = 60_000; updated_at = 5000 }; version = 1 });
  pc =
      update
        (update
          (update
            (update (update (update (λ _. idle) 0 (waiting 3 5000)) 1 (waiting 3 5001)) 0
              (deciding 2 5000 none))
            1 (deciding 2 5001 none))
          0 idle)
        1 (waiting 2 5001);
  granted = 5000 ∷ [];
}

raced_reached : Reach writes_limit none raced
unfolding take_token write_bucket ℕ_discrete
raced_reached =
    Reach.next
      (Reach.next
        (Reach.next
          (Reach.next
            (Reach.next (Reach.next Reach.start (Step.begin 0 5000 refl)) (Step.begin 1 5001 refl))
            (Step.look 0 2 5000 refl refl))
          (Step.look 1 2 5001 refl refl))
        (Step.win 0 2 5000 none refl refl))
      (Step.lose 1 2 5001 none refl refl)

granted-serial_example : calls writes_limit raced.granted none ≡ (length raced.granted, raced.row)
granted-serial_example = granted-serial writes_limit none raced raced_reached
