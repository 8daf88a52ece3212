-- ===== src/Mfa/Login.antt =====
-- loginMfa of api/routers/auth.ts: the second step of a login, in the two parts between which other
-- requests may run. The delay of a challenge with failures, the cookie, the caches and the audit
-- rows are left out. The users, codes and sessions are tables whose statements succeed.
pub mod Check
pub mod Replay
pub mod Race
use gateway_monitoring_platf.Prelude.{
  ℕ, ◌+◌, String, Option, none, some, Bool, true, false, not, ◌&&◌, List, [], ◌∷◌, ◌++◌, str_eq,
  ◌==◌, if◌then◌else◌, find,
}
use gateway_monitoring_platf.Mfa.Pending.{PendingEntry, Limits, Failed, Store, peek, fail, consume}
use gateway_monitoring_platf.Mfa.Totp.{
  OtpAnswer, Verdict, accepted, refused, raised, verify_totp, looks_like_backup_code,
}

pub record User : Type 0 where
  pub id : ℕ
  pub disabled : Bool
  pub totp_enabled : Bool
  -- `none` for null and for the empty text, which the code takes for no secret.
  pub totp_secret_enc : Option String
  pub totp_last_step : Option ℕ

pub record BackupCode : Type 0 where
  pub id : ℕ
  pub user_id : ℕ
  pub code_hash : String
  pub is_used : Bool

-- The stores of a login, and the users of the sessions that were issued.
pub record Auth : Type 0 where
  pub pending : Store
  pub users : List User
  pub backup_codes : List BackupCode
  pub sessions : List ℕ

-- What the handler takes from libraries and its configuration: decryptSecret, otplib, trim, and
-- hashBackupCode, whose hex digests are compared as texts.
pub record Checks : Type 0 where
  pub limits : Limits
  pub decrypt : String → Option String
  pub otp : String → String → ℕ → OtpAnswer
  pub trim : String → String
  pub hash_code : String → String

-- One request: its challenge and code, the clock, and whether the table of challenges is up.
pub record Request : Type 0 where
  pub token : String
  pub typed : String
  pub now : ℕ
  pub up : Bool

abbrev pub find_user : ℕ → List User → Option User
find_user id [] = none
find_user id (u ∷ us) = if u.id == id then some u else find_user id us

-- UPDATE users SET totp_last_step WHERE id
unfoldable pub set_last_step : ℕ → ℕ → List User → List User
set_last_step id step [] = []
set_last_step id step (u ∷ us) =
    (if u.id == id then record u { totp_last_step = some step } else u) ∷ set_last_step id step us

unfoldable pub use_code : ℕ → List BackupCode → List BackupCode
use_code id [] = []
use_code id (c ∷ cs) = (if c.id == id then record c { is_used = true } else c) ∷ use_code id cs

-- Where the handler stands after the check of the code.
pub data Checked : Type 0 where
  expired wrong crashed : Checked
  passed : ℕ → Option ℕ → Checked

pub data Outcome : Type 0 where
  challenge_expired failed : Outcome
  invalid_code : Failed → Outcome
  signed_in : ℕ → Option ℕ → Outcome

module _ (checks : Checks) where
  abbrev pub is_match : User → String → BackupCode → Bool
  is_match u typed c =
      c.user_id == u.id && not c.is_used && str_eq c.code_hash (checks.hash_code typed)

  abbrev pub with_match : User → Option BackupCode → Auth → Checked × Auth
  with_match u none a = (wrong, a)
  with_match u (some c) a =
      (passed u.id none, record a { backup_codes = use_code c.id a.backup_codes })

  -- The backup codes come second.
  unfoldable pub try_backup : User → String → Auth → Checked × Auth
  unfolding looks_like_backup_code use_code
  try_backup u typed a =
      if looks_like_backup_code checks.trim typed
      then with_match u (find (is_match u typed) a.backup_codes) a
      else (wrong, a)

  abbrev pub with_verdict : User → String → Verdict → Auth → Checked × Auth
  with_verdict u typed (accepted step) a = (passed u.id (some step), a)
  with_verdict u typed refused a = try_backup u typed a
  with_verdict u typed raised a = (crashed, a)

  abbrev pub with_secret : User → Option String → Request → Auth → Checked × Auth
  with_secret u none r a = (wrong, a)
  with_secret u (some enc) r a =
      with_verdict u r.typed
        (verify_totp checks.decrypt checks.otp checks.trim enc r.typed u.totp_last_step 1 r.now) a

  abbrev pub with_user : Option User → Request → Auth → Checked × Auth
  with_user none r a = (wrong, a)
  with_user (some u) r a =
      if not u.disabled && u.totp_enabled then with_secret u u.totp_secret_enc r a else (wrong, a)

  abbrev pub with_entry : Option PendingEntry → Request → Auth → Checked × Auth
  with_entry none r a = (expired, a)
  with_entry (some e) r a = with_user (find_user e.user_id a.users) r a

  -- Up to the decision on the code.
  unfoldable pub check_code : Request → Auth → Checked × Auth
  unfolding peek verify_totp try_backup
  check_code r a =
      let (entry, pending) = peek checks.limits r.up r.token r.now a.pending in
      with_entry entry r (record a { pending = pending })

  abbrev pub keep_step : ℕ → Option ℕ → List User → List User
  keep_step id none us = us
  keep_step id (some step) us = set_last_step id step us

  -- The session is that of the challenge's user; the answer names the user whose code was checked.
  abbrev pub issue : ℕ → Option ℕ → Auth → Option PendingEntry × Store → Outcome × Auth
  issue id step a (none, pending) = (challenge_expired, record a { pending = pending })
  issue id step a (some e, pending) =
      (signed_in id step, record a { pending = pending; sessions = a.sessions ++ e.user_id ∷ [] })

  abbrev pub deny : Auth → Failed × Store → Outcome × Auth
  deny a (f, pending) = (invalid_code f, record a { pending = pending })

  -- From the decision on: a wrong code is counted; a good one is kept, and the challenge is taken.
  unfoldable pub finish : Request → Checked → Auth → Outcome × Auth
  unfolding fail consume set_last_step
  finish r expired a = (challenge_expired, a)
  finish r crashed a = (failed, a)
  finish r wrong a = deny a (fail checks.limits r.up r.token r.now a.pending)
  finish r (passed id step) a =
      let a' : Auth = record a { users = keep_step id step a.users } in
      issue id step a' (consume checks.limits r.up r.token r.now a'.pending)

  unfoldable pub login_mfa : Request → Auth → Outcome × Auth
  unfolding check_code finish
  login_mfa r a = let (checked, a') = check_code r a in finish r checked a'
