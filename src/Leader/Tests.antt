-- ===== src/Leader/Tests.antt =====
-- Runs of the leases (api/lib/leader.ts) and of the guards (api/lib/org-scope.ts).
use gateway_monitoring_platf.Prelude.{
  ℕ, ◌/◌, ◌*◌, ◌≡◌, ◌≢◌, some, true, false, refl, arith, List, [], ◌∷◌, eq_iff, String,
}
use gateway_monitoring_platf.Leader.Lease.{Leases, acquire_lease}
use gateway_monitoring_platf.Leader.Lease.Exclusive.{
  Call, acquires, releases, run, acquire_lease-exclusive,
}
use gateway_monitoring_platf.Leader.OrgScope.{User}

-- A column that keeps whole seconds.
abbrev seconds : ℕ → ℕ
seconds t = t / 1000 * 1000

abbrev table : Leases
table = ("poller", record { holder = "b"; expires_at = 9000 }) ∷ []

other_replica : ◌≢◌ {A = String} "a" "b"
other_replica h = cc ((eq_iff "a" "b").1 h)

abbrev others : List Call
others = acquires true "b" "ems" 90_000 20_000 20_000 ∷ releases "b" "ems" ∷ []

acquire_lease-exclusive_example :
    let held = (acquire_lease seconds true "a" "ems" 90_000 5000 5000 table).1 in
    acquire_lease seconds true "b" "ems" 90_000 60_000 60_000 (run seconds held others)
    ≡ (false, run seconds held others)
unfolding acquire_lease
acquire_lease-exclusive_example =
    acquire_lease-exclusive seconds true true "a" "b" "ems" 90_000 5000 5000 90_000 60_000 60_000
      table others refl ((other_replica, omega arith), ((other_replica, tt), tt)) other_replica
      (omega arith)

abbrev member : User
member = record { org_id = some 3; is_superadmin = false }
