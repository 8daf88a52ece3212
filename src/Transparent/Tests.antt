-- ===== src/Transparent/Tests.antt =====
-- Runs of the registry of outstanding reads (api/mqtt/c30-outstanding.ts).
use gateway_monitoring_platf.Prelude.{ℕ, ◌≡◌, ◌≢◌, none, [], ◌∷◌, ap, arith}
use gateway_monitoring_platf.Transparent.Outstanding.{
  OutstandingRead, Key, key_of, entry_key, Registry, bucket, answers, match_outstanding,
}
use gateway_monitoring_platf.Transparent.Outstanding.Queue.{Taken, match_outstanding-Taken}

abbrev read_of : OutstandingRead
read_of = record {
  gateway_id = 2;
  slave = 1;
  fc = 3;
  start = 40;
  quantity = 4;
  deadline = 31_000;
  command_id = none;
  verify_expected = none;
  verify_command_id = none;
}

abbrev registry : Registry
registry = (entry_key read_of, read_of ∷ []) ∷ []

match_outstanding-Taken_example :
    let (after, entry) = match_outstanding 2 1 3 8 2000 registry in
    Taken (answers 8 2000) (bucket (key_of 2 1 3) registry) (bucket (key_of 2 1 3) after) entry
match_outstanding-Taken_example = match_outstanding-Taken 2 1 3 8 2000 registry

other_slave : key_of 2 5 3 ≢ key_of 2 1 3
other_slave h = let e : ◌≡◌ {A = ℕ} 5 1 = ap (λ (k : Key). k.slave) h in absurd (omega arith)
