-- ===== src/Mfa/Pending.antt =====
-- The challenges of the second login step (api/lib/totp.ts): createMfaPendingStore, the map of one
-- process, and createDbMfaPendingStore, the table mfa_pending that falls back on such a map. Times
-- are epoch milliseconds; random tokens and the state of the database are arguments, and a call
-- finds the database up or down as a whole.
pub mod Attempts
use gateway_monitoring_platf.Prelude.{
  ℕ, ◌+◌, ◌-◌, String, Option, none, some, Bool, true, false, List, [], ◌∷◌, ◌++◌, ltb, leb, str_eq,
  if◌then◌else◌, length, is_some,
}
use gateway_monitoring_platf.Control.Types.{get}

pub record PendingEntry : Type 0 where
  pub user_id : ℕ
  pub created_at : ℕ
  pub attempts : ℕ

-- A Map or a table by its tokens.
abbrev pub Pending : Type 0
Pending = List (String × PendingEntry)

unfoldable pub put : String → PendingEntry → Pending → Pending
put k v [] = (k, v) ∷ []
put k v ((j, w) ∷ m) = if str_eq j k then (k, v) ∷ m else (j, w) ∷ put k v m

unfoldable pub remove : String → Pending → Pending
remove k [] = []
remove k ((j, w) ∷ m) = let rest = (j, w) ∷ remove k m in if str_eq j k then remove k m else rest

pub record Limits : Type 0 where
  pub ttl_ms : ℕ
  pub max_attempts : ℕ

abbrev pub default_limits : Limits
default_limits = record { ttl_ms = 300_000; max_attempts = 5 }

-- The attempts and whether the challenge is destroyed.
pub record Failed : Type 0 where
  pub attempts : ℕ
  pub destroyed : Bool

module _ (limits : Limits) where
  abbrev pub is_expired : ℕ → PendingEntry → Bool
  is_expired now e = ltb limits.ttl_ms (now - e.created_at)

  unfoldable pub drop_expired : ℕ → Pending → Pending
  drop_expired now [] = []
  drop_expired now ((k, e) ∷ m) =
      let rest = (k, e) ∷ drop_expired now m in
      if is_expired now e then drop_expired now m else rest

  -- valid of the process-local store.
  unfoldable pub local_peek : String → ℕ → Pending → Option PendingEntry × Pending
  unfolding remove
  local_peek token now m = elim (get token m) [
    | none ↦ (none, m)
    | some e ↦ if is_expired now e then (none, remove token m) else (some e, m)
  ]

  unfoldable pub local_create : String → ℕ → ℕ → Pending → Pending
  unfolding put drop_expired
  local_create token user_id now m =
      put token (record { user_id = user_id; created_at = now; attempts = 0 })
        (if ltb 10_000 (length m) then drop_expired now m else m)

  abbrev pub local_failed : String → Option PendingEntry × Pending → Failed × Pending
  local_failed token (none, m) = (record { attempts = 0; destroyed = false }, m)
  local_failed token (some e, m) =
      if leb limits.max_attempts (e.attempts + 1)
      then (record { attempts = e.attempts + 1; destroyed = true }, remove token m)
      else (
        record { attempts = e.attempts + 1; destroyed = false },
        put token (record e { attempts = e.attempts + 1 }) m,
      )

  unfoldable pub local_fail : String → ℕ → Pending → Failed × Pending
  unfolding local_peek remove put
  local_fail token now m = local_failed token (local_peek token now m)

  abbrev pub local_taken : String → Option PendingEntry × Pending → Option PendingEntry × Pending
  local_taken token (none, m) = (none, m)
  local_taken token (some e, m) = (some e, remove token m)

  unfoldable pub local_consume : String → ℕ → Pending → Option PendingEntry × Pending
  unfolding local_peek remove
  local_consume token now m = local_taken token (local_peek token now m)

-- The table and the map of this process.
pub record Store : Type 0 where
  pub rows : Pending
  pub local : Pending

abbrev pub in_local {ℓ} : {A : Type ℓ} → Store → A × Pending → A × Store
in_local s (a, m) = (a, record s { local = m })

-- UPDATE ... SET attempts = attempts + 1 WHERE token
unfoldable pub count_attempt : String → Pending → Pending
count_attempt k [] = []
count_attempt k ((j, e) ∷ m) =
    (if str_eq j k then (j, record e { attempts = e.attempts + 1 }) else (j, e)) ∷ count_attempt k m

module _ (limits : Limits) where
  -- `current` is what the column keeps of the database's clock; `other` is the token of the map.
  -- INSERT fails on a token that is taken.
  unfoldable pub create : Bool → String → String → ℕ → ℕ → ℕ → Store → String × Store
  unfolding drop_expired local_create
  create false token other user_id now current s =
      (other, record s { local = local_create limits other user_id now s.local })
  create true token other user_id now current s =
      let rows = drop_expired limits now s.rows in
      if is_some (get token rows)
      then (other, record s { rows = rows; local = local_create limits other user_id now s.local })
      else (
        token,
        record s {
          rows =
              rows
              ++ (token, record { user_id = user_id; created_at = current; attempts = 0 }) ∷ [];
        },
      )

  unfoldable pub peek : Bool → String → ℕ → Store → Option PendingEntry × Store
  unfolding local_peek remove
  peek false token now s = in_local s (local_peek limits token now s.local)
  peek true token now s = elim (get token s.rows) [
    | none ↦ in_local s (local_peek limits token now s.local)
    | some e ↦
        if is_expired limits now e
        then (none, record s { rows = remove token s.rows })
        else (some e, s)
  ]

  abbrev pub failed_in_table : String → Option PendingEntry × Store → Failed × Store
  failed_in_table token (none, s) = (record { attempts = 0; destroyed = false }, s)
  failed_in_table token (some e, s) =
      if leb limits.max_attempts (e.attempts + 1)
      then (
        record { attempts = e.attempts + 1; destroyed = true },
        record s { rows = remove token s.rows },
      )
      else (
        record { attempts = e.attempts + 1; destroyed = false },
        record s { rows = count_attempt token s.rows },
      )

  unfoldable pub fail : Bool → String → ℕ → Store → Failed × Store
  unfolding local_fail peek remove count_attempt
  fail false token now s = in_local s (local_fail limits token now s.local)
  fail true token now s = failed_in_table token (peek true token now s)

  -- The DELETE authorizes: where it removes no row, the map decides.
  abbrev pub taken : Bool → String → ℕ → Option PendingEntry × Store → Option PendingEntry × Store
  taken up token now (none, s) = (none, s)
  taken false token now (some e, s) = in_local s (local_consume limits token now s.local)
  taken true token now (some e, s) =
      if is_some (get token s.rows)
      then (some e, record s { rows = remove token s.rows })
      else in_local s (local_consume limits token now s.local)

  unfoldable pub consume : Bool → String → ℕ → Store → Option PendingEntry × Store
  unfolding peek remove local_consume
  consume up token now s = taken up token now (peek up token now s)
