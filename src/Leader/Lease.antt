-- ===== src/Leader/Lease.antt =====
-- The leases of api/lib/leader.ts: the table leader_leases, and the statements on it that a replica
-- runs. A replica is known by its holder id. Times are integer milliseconds; a statement that fails
-- changes nothing. The driver counts the rows that an UPDATE matches.
pub mod Exclusive
use gateway_monitoring_platf.Prelude.{
  ℕ, ◌+◌, String, Option, none, some, Bool, true, false, ◌&&◌, ◌||◌, List, [], ◌∷◌, ◌++◌, ltb, leb,
  ◌==◌, if◌then◌else◌, str_eq,
}
use gateway_monitoring_platf.Control.Types.{get}

pub record Lease : Type 0 where
  pub holder : String
  pub expires_at : ℕ

-- leader_leases by its primary key, the name.
abbrev pub Leases : Type 0
Leases = List (String × Lease)

-- INSERT IGNORE: the row count and the table.
unfoldable pub insert_ignore : String → Lease → Leases → Bool × Leases
insert_ignore name lease leases = elim (get name leases) [
  | none ↦ (true, leases ++ (name, lease) ∷ [])
  | some _ ↦ (false, leases)
]

-- `holder = mine OR expires_at < CURRENT_TIMESTAMP`
unfoldable pub is_takeable : String → ℕ → Lease → Bool
is_takeable me current l = str_eq l.holder me || ltb l.expires_at current

abbrev pub keep_row {ℓ} : {A : Type ℓ} → A → Bool × List A → Bool × List A
keep_row x (n, xs) = (n, x ∷ xs)

-- UPDATE ... WHERE name AND takeable.
unfoldable pub update_takeable : String → Lease → ℕ → Leases → Bool × Leases
unfolding is_takeable
update_takeable name lease current [] = (false, [])
update_takeable name lease current ((j, l) ∷ leases) =
    let rest = keep_row (j, l) (update_takeable name lease current leases) in
    if str_eq j name
    then if is_takeable lease.holder current l
      then (true, (j, lease) ∷ leases)
      else (false, (j, l) ∷ leases)
    else rest

-- The second statement runs only where the first created no row.
abbrev pub or_take : String → Lease → ℕ → Bool × Leases → Bool × Leases
or_take name lease current (true, leases) = (true, leases)
or_take name lease current (false, leases) = update_takeable name lease current leases

-- releaseLease, where the statement succeeds; the name is the key, so one row at most goes.
unfoldable pub release_lease : String → String → Leases → Leases
release_lease me name [] = []
release_lease me name ((j, l) ∷ leases) =
    let rest = (j, l) ∷ release_lease me name leases in
    if str_eq j name && str_eq l.holder me then leases else rest

-- `stored` is what a timestamp column keeps of an instant, which the database rounds.
module _ (stored : ℕ → ℕ) where
  abbrev pub new_lease : String → ℕ → ℕ → Lease
  new_lease me ttl_ms now = record { holder = me; expires_at = stored (now + ttl_ms) }

  -- acquireLease with `now` on the replica's clock and `current` on the database's. `is_up` is that
  -- the statements succeed.
  unfoldable pub acquire_lease : Bool → String → String → ℕ → ℕ → ℕ → Leases → Bool × Leases
  unfolding insert_ignore update_takeable
  acquire_lease false me name ttl_ms now current leases = (false, leases)
  acquire_lease true me name ttl_ms now current leases =
      let lease : Lease = new_lease me ttl_ms now in
      or_take name lease current (insert_ignore name lease leases)

  -- hasLease: LEADER_LEASES=off lets every replica act.
  unfoldable pub has_lease : Bool → Bool → String → String → ℕ → ℕ → ℕ → Leases → Bool × Leases
  has_lease true is_up me name ttl_ms now current leases = (true, leases)
  has_lease false is_up me name ttl_ms now current leases =
      acquire_lease is_up me name ttl_ms now current leases

  -- withLease around `fn`, which acts on a state; `none` is that this tick is skipped.
  unfoldable pub with_lease {ℓ} :
      {S : Type ℓ}
      → (S → S)
      → Bool
      → Bool
      → String
      → String
      → ℕ
      → ℕ
      → ℕ
      → Leases
      → S
      → Option S × Leases
  unfolding has_lease
  with_lease fn is_off is_up me name ttl_ms now current leases s =
      let (may_act, after) = has_lease is_off is_up me name ttl_ms now current leases in
      (if may_act then some (fn s) else none, after)
