-- ===== src/Mfa/Login/Replay.antt =====
-- A one-time code signs in once (api/routers/auth.ts, loginMfa, and api/lib/totp.ts).
use mathlib.Core.Path.{subst, subst₂}
use gateway_monitoring_platf.Prelude.{
  ℕ, ◌≤◌, ◌<◌, ◌≡◌, inl, inr, refl, sym, ◌∙◌, Option, none, some, false, List, [], ◌∷◌, ◌==◌,
  if◌then◌else◌, arith, Bool-cases, Option-cases,
}
use gateway_monitoring_platf.Mfa.Pending.{PendingEntry, Failed, Store, fail, consume}
use gateway_monitoring_platf.Mfa.Login.{
  User, Auth, Checks, Request, find_user, set_last_step, Checked, expired, wrong, crashed, passed,
  signed_in, check_code, keep_step, issue, deny, finish, login_mfa,
}
use gateway_monitoring_platf.Mfa.Login.Check.{find_user-id, Later, check_code-Kept}

-- users.totp_last_step
abbrev pub last_step : ℕ → List User → Option ℕ
last_step id us = elim (find_user id us) [ none ↦ none | some u ↦ u.totp_last_step ]

abbrev pub AtMost : Option ℕ → Option ℕ → Type 0
AtMost none b = Unit
AtMost (some l) none = ⊥
AtMost (some l) (some k) = l ≤ k

AtMost-refl : (a : Option ℕ) → AtMost a a
AtMost-refl none = tt
AtMost-refl (some l) = omega arith

AtMost-trans : (a b c : Option ℕ) → AtMost a b → AtMost b c → AtMost a c
AtMost-trans none b c h k = tt
AtMost-trans (some l) none c h k = absurd h
AtMost-trans (some l) (some m) none h k = absurd k
AtMost-trans (some l) (some m) (some n) h k = omega arith

find_user-set :
    (id k step : ℕ) (us : List User)
    → find_user k (set_last_step id step us) ≡ (elim (find_user k us) [
      | none ↦ none
      | some u ↦ some (if u.id == id then record u { totp_last_step = some step } else u)
    ])
unfolding set_last_step
find_user-set id k step [] = refl
find_user-set id k step (u ∷ us) = ground (arith, find_user-set id k step us)

module _ (checks : Checks) where
  issue-users :
      (id : ℕ) (step : Option ℕ) (a : Auth) (taken : Option PendingEntry × Store)
      → (issue checks id step a taken).1.users ≡ a.users
  issue-users id step a (none, pending) = refl
  issue-users id step a (some e, pending) = refl

  abbrev users_after : Checked → List User → List User
  users_after (passed id step) us = keep_step checks id step us
  users_after _ us = us

  finish-users :
      (r : Request) (checked : Checked) (a : Auth)
      → (finish checks r checked a).1.users ≡ users_after checked a.users
  unfolding finish
  finish-users r (passed id step) a =
      issue-users id step (record a { users = keep_step checks id step a.users })
        (consume checks.limits r.up r.token r.now a.pending)
  finish-users r expired a = refl
  finish-users r wrong a = refl
  finish-users r crashed a = refl

  -- The step that is kept is the user's last one from then on.
  last_step-set :
      (id step : ℕ) (us : List User) (u : User)
      → find_user id us ≡ some u
      → last_step id (set_last_step id step us) ≡ some step
  last_step-set id step us u found =
      let same = find_user-id id us u found in ground (arith, find_user-set id id step us)

  last_step-set_other :
      (k id step : ℕ) (us : List User)
      → (k == id) ≡ false
      → last_step k (set_last_step id step us) ≡ last_step k us
  unfolding set_last_step
  last_step-set_other k id step [] other = refl
  last_step-set_other k id step (u ∷ us) other =
      ground (arith, last_step-set_other k id step us other)

  AtMost-later :
      (o : Option ℕ) (step : ℕ) → ((l : ℕ) → o ≡ some l → l < step) → AtMost o (some step)
  AtMost-later none step later = tt
  AtMost-later (some l) step later = omega (arith, later l refl)

  AtMost-set :
      (k id step : ℕ) (us : List User)
      → Later us (passed id (some step))
      → AtMost (last_step k us) (last_step k (set_last_step id step us))
  AtMost-set k id step us (u, found, later) = elim (Bool-cases (k == id)) [
    | inr other ↦
        subst (AtMost (last_step k us)) (sym (last_step-set_other k id step us other))
          (AtMost-refl (last_step k us))
    | inl test ↦
        let same : id ≡ k = ground arith in
        let before : u.totp_last_step ≡ last_step id us = ground arith in
        subst (λ t. AtMost (last_step t us) (last_step t (set_last_step id step us))) same
          (subst₂ AtMost before (sym (last_step-set id step us u found))
            (AtMost-later u.totp_last_step step later))
  ]

  users_after-AtMost :
      (k : ℕ) (checked : Checked) (us : List User)
      → Later us checked
      → AtMost (last_step k us) (last_step k (users_after checked us))
  users_after-AtMost k (passed id (some step)) us later = AtMost-set k id step us later
  users_after-AtMost k (passed id none) us later = AtMost-refl (last_step k us)
  users_after-AtMost k expired us later = AtMost-refl (last_step k us)
  users_after-AtMost k wrong us later = AtMost-refl (last_step k us)
  users_after-AtMost k crashed us later = AtMost-refl (last_step k us)

  login-AtMost :
      (k : ℕ) (r : Request) (a : Auth)
      → AtMost (last_step k a.users) (last_step k (login_mfa checks r a).1.users)
  unfolding login_mfa
  login-AtMost k r a =
      let (checked, a') = check_code checks r a in
      let (same, later) = check_code-Kept checks r a in
      rw (finish-users r checked a', same) (users_after-AtMost k checked a.users later)

  unfoldable pub logins : List Request → Auth → Auth
  unfolding login_mfa
  logins [] a = a
  logins (r ∷ rs) a = logins rs (login_mfa checks r a).1

  logins-AtMost :
      (k : ℕ) (rs : List Request) (a : Auth)
      → AtMost (last_step k a.users) (last_step k (logins rs a).users)
  unfolding logins
  logins-AtMost k [] a = AtMost-refl (last_step k a.users)
  logins-AtMost k (r ∷ rs) a =
      AtMost-trans (last_step k a.users) (last_step k (login_mfa checks r a).1.users)
        (last_step k (logins (r ∷ rs) a).users) (login-AtMost k r a)
        (logins-AtMost k rs (login_mfa checks r a).1)

  issue-signed_in :
      (id k : ℕ) (step got : Option ℕ) (a : Auth) (taken : Option PendingEntry × Store)
      → (issue checks id step a taken).0 ≡ signed_in k got
      → (id ≡ k) × (step ≡ got)
  issue-signed_in id k step got a (none, pending) e = cc
  issue-signed_in id k step got a (some entry, pending) e = (cc, cc)

  deny-signed_in :
      (k : ℕ) (got : Option ℕ) (a : Auth) (f : Failed × Store)
      → (deny checks a f).0 ≡ signed_in k got
      → ⊥
  deny-signed_in k got a (f, pending) e = cc

  finish-signed_in :
      (r : Request) (checked : Checked) (a : Auth) (k : ℕ) (got : Option ℕ)
      → (finish checks r checked a).0 ≡ signed_in k got
      → checked ≡ passed k got
  unfolding finish
  finish-signed_in r (passed id step) a k got e =
      let (same, at) =
        issue-signed_in id k step got (record a { users = keep_step checks id step a.users })
          (consume checks.limits r.up r.token r.now a.pending) e in
      cc
  finish-signed_in r expired a k got e = cc
  finish-signed_in r crashed a k got e = cc
  finish-signed_in r wrong a k got e =
      absurd (deny-signed_in k got a (fail checks.limits r.up r.token r.now a.pending) e)

  -- A login by a one-time code is later than the user's last step, which it becomes.
  login-step :
      (r : Request) (a : Auth) (k step : ℕ)
      → (login_mfa checks r a).0 ≡ signed_in k (some step)
      → AtMost (last_step k a.users) (some step)
        × ((l : ℕ) → last_step k a.users ≡ some l → l < step)
        × (last_step k (login_mfa checks r a).1.users ≡ some step)
  unfolding login_mfa
  login-step r a k step e =
      let (checked, a') = check_code checks r a in
      let is_passed = finish-signed_in r checked a' k (some step) e in
      let (same, later) = check_code-Kept checks r a in
      let (u, found, after) = subst (Later a.users) is_passed later in
      let here : u.totp_last_step ≡ last_step k a.users = ground arith in
      (
        subst (λ o. AtMost o (some step)) here (AtMost-later u.totp_last_step step after),
        λ l at. after l (here ∙ at),
        rw (finish-users r checked a', same, is_passed) (last_step-set k step a.users u found),
      )

  -- A one-time code signs in once. Where a login by a code of a step succeeded, any later login of
  -- the same user by a one-time code, after any logins in between that run one after the other,
  -- under whatever challenges and codes, is by a code of a later step.
  pub login_mfa-later :
      (r r' : Request) (rs : List Request) (a : Auth) (k step step' : ℕ)
      → (login_mfa checks r a).0 ≡ signed_in k (some step)
      → (login_mfa checks r' (logins rs (login_mfa checks r a).1)).0 ≡ signed_in k (some step')
      → step < step'
  login_mfa-later r r' rs a k step step' first second =
      let (_, _, kept) = login-step r a k step first in
      let a1 = (login_mfa checks r a).1 in
      let grown = logins-AtMost k rs a1 in
      let (_, after, _) = login-step r' (logins rs a1) k step' second in
      elim (Option-cases (last_step k (logins rs a1).users)) [
        | inl gone ↦ absurd (subst₂ AtMost kept gone grown)
        | inr (l, at) ↦
            let low : step ≤ l = subst₂ AtMost kept at grown in omega (arith, low, after l at)
      ]
