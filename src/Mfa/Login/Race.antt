-- ===== src/Mfa/Login/Race.antt =====
-- Two logins at the same time (api/routers/auth.ts, loginMfa).
use gateway_monitoring_platf.Prelude.{
  ℕ, ◌-◌, ◌≤◌, ◌≡◌, ◌≢◌, refl, String, Option, some, true, [], ◌∷◌, eq_iff, arith,
}
use gateway_monitoring_platf.Control.Types.{get}
use gateway_monitoring_platf.Mfa.Pending.{PendingEntry, Pending, remove, Limits, Store, consume}
use gateway_monitoring_platf.Mfa.Login.{
  Auth, Checks, Request, passed, signed_in, check_code, finish,
}

get-remove_other : (k j : String) (m : Pending) → k ≢ j → get j (remove k m) ≡ get j m
unfolding remove
get-remove_other k j [] ne = refl
get-remove_other k j ((i, e) ∷ m) ne =
    ground (arith, get-remove_other k j m ne, eq_iff i k, eq_iff i j)

-- A challenge of the table that has not expired at the time of a request, with the database up.
abbrev pub Open : Checks → Request → PendingEntry → Pending → Type 0
Open checks r e rows =
    (r.up ≡ true) × (get r.token rows ≡ some e) × (r.now - e.created_at ≤ checks.limits.ttl_ms)

consume-held :
    (limits : Limits) (token : String) (now : ℕ) (s : Store) (e : PendingEntry)
    → get token s.rows ≡ some e
    → now - e.created_at ≤ limits.ttl_ms
    → consume limits true token now s ≡ (some e, record s { rows = remove token s.rows })
unfolding consume
consume-held limits token now s e held young = ground arith

-- A good code with an open challenge signs in.
finish-passed :
    (checks : Checks) (r : Request) (a : Auth) (e : PendingEntry) (k : ℕ) (step : Option ℕ)
    → Open checks r e a.pending.rows
    → ((finish checks r (passed k step) a).0 ≡ signed_in k step)
      × ((finish checks r (passed k step) a).1.pending.rows ≡ remove r.token a.pending.rows)
unfolding finish
finish-passed checks r a e k step (up, held, young) =
    let taken = consume-held checks.limits r.token r.now a.pending e held young in
    rw (up, taken) (refl, refl)

-- One code signs in twice where two requests overlap. Where the codes of two requests under two
-- challenges pass the check at the same step, the second before the first has gone on, and both
-- challenges are open in the table then, both requests sign the user in by that step when they go
-- on one after the other.
pub finish-twice :
    (checks : Checks) (r r' : Request) (a : Auth) (e e' : PendingEntry) (k step : ℕ)
    → r.token ≢ r'.token
    → (check_code checks r a).0 ≡ passed k (some step)
    → (check_code checks r' (check_code checks r a).1).0 ≡ passed k (some step)
    → Open checks r e (check_code checks r' (check_code checks r a).1).1.pending.rows
    → Open checks r' e' (check_code checks r' (check_code checks r a).1).1.pending.rows
    → let (checked, a1) = check_code checks r a in
      let (checked', a2) = check_code checks r' a1 in
      let (first, a3) = finish checks r checked a2 in
      let (second, a4) = finish checks r' checked' a3 in
      (first ≡ signed_in k (some step)) × (second ≡ signed_in k (some step))
finish-twice checks r r' a e e' k step ne one two open_one (up', held', young') =
    let a2 = (check_code checks r' (check_code checks r a).1).1 in
    let (first, rows) = finish-passed checks r a2 e k (some step) open_one in
    let b = (finish checks r (passed k (some step)) a2).1 in
    let still : get r'.token b.pending.rows ≡ some e' =
      rw (rows, get-remove_other r.token r'.token a2.pending.rows ne) held' in
    rw (one, two) (first, (finish-passed checks r' b e' k (some step) (up', still, young')).0)
