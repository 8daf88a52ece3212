-- ===== src/Mfa/Tests.antt =====
-- Runs of the second login step (api/lib/totp.ts and api/routers/auth.ts).
use gateway_monitoring_platf.Prelude.{
  ℕ, ◌<◌, ◌≡◌, ◌≢◌, refl, String, none, some, true, false, [], ◌∷◌, str_eq, eq_iff, if◌then◌else◌,
  arith,
}
use gateway_monitoring_platf.Mfa.Pending.{PendingEntry, default_limits, Store, create, peek}
use gateway_monitoring_platf.Mfa.Pending.Attempts.{guess_all, guess_all-peek, guess_all-uncounted}
use gateway_monitoring_platf.Mfa.Totp.{OtpAnswer, valid, invalid, looks_like_backup_code}
use gateway_monitoring_platf.Mfa.Login.{
  User, Auth, Checks, Request, signed_in, check_code, finish, login_mfa,
}
use gateway_monitoring_platf.Mfa.Login.Replay.{logins, login_mfa-later}
use gateway_monitoring_platf.Mfa.Login.Race.{finish-twice}

abbrev challenge : PendingEntry
challenge = record { user_id = 7; created_at = 1000; attempts = 0 }

abbrev in_table : Store
in_table = record { rows = ("t1", challenge) ∷ ("t2", challenge) ∷ []; local = [] }

guess_all-peek_example :
    (peek default_limits true "t1" 9000
      (guess_all default_limits "t1" (2000 ∷ 3000 ∷ 4000 ∷ 5000 ∷ 6000 ∷ []) in_table)).0
    ≡ none
guess_all-peek_example =
    guess_all-peek default_limits "t1" (2000 ∷ 3000 ∷ 4000 ∷ 5000 ∷ 6000 ∷ []) in_table challenge
      true 9000 refl refl (omega arith) (omega arith)

-- Made while the database was down.
abbrev in_map : Store
in_map = (create default_limits false "t0" "m1" 7 1000 1000 (record { rows = []; local = [] })).1

guess_all-uncounted_example :
    guess_all default_limits "m1" (2000 ∷ 2001 ∷ 2002 ∷ 2003 ∷ 2004 ∷ 2005 ∷ 2006 ∷ []) in_map
    ≡ in_map
unfolding create
guess_all-uncounted_example =
    guess_all-uncounted default_limits "m1" (2000 ∷ 2001 ∷ 2002 ∷ 2003 ∷ 2004 ∷ 2005 ∷ 2006 ∷ [])
      in_map challenge refl refl (omega arith) (omega arith)

-- A secret whose code for a step is "123456", whatever the step.
abbrev otp : String → String → ℕ → OtpAnswer
otp secret typed at = if str_eq typed "123456" then valid else invalid

abbrev checks : Checks
checks = record {
  limits = default_limits;
  decrypt = λ s. some s;
  otp = otp;
  trim = λ s. s;
  hash_code = λ s. s;
}

form_run : looks_like_backup_code (λ s. s) "a1B2-99ff" ≡ true
unfolding looks_like_backup_code
form_run = refl

abbrev member : User
member = record {
  id = 7;
  disabled = false;
  totp_enabled = true;
  totp_secret_enc = some "enc";
  totp_last_step = some 98;
}

abbrev auth : Auth
auth = record { pending = in_table; users = member ∷ []; backup_codes = []; sessions = [] }

abbrev request : Request
request = record { token = "t1"; typed = "123456"; now = 3000; up = true }

abbrev second : Request
second = record request { token = "t2" }

abbrev early : User
early = record member { totp_last_step = none }

abbrev fresh_auth : Auth
fresh_auth = record auth { users = early ∷ [] }

login_mfa-later_example : 0 < 1
unfolding login_mfa logins
login_mfa-later_example = login_mfa-later checks request second [] fresh_auth 7 0 1 refl refl

tokens_differ : ◌≢◌ {A = String} "t1" "t2"
tokens_differ h = cc ((eq_iff "t1" "t2").1 h)

finish-twice_example :
    let (checked, a1) = check_code checks request fresh_auth in
    let (checked', a2) = check_code checks second a1 in
    let (first, a3) = finish checks request checked a2 in
    let (last, a4) = finish checks second checked' a3 in
    (first ≡ signed_in 7 (some 0)) × (last ≡ signed_in 7 (some 0))
unfolding check_code
finish-twice_example =
    finish-twice checks request second fresh_auth challenge challenge 7 0 tokens_differ refl refl
      (refl, refl, omega arith) (refl, refl, omega arith)
