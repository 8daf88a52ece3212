-- ===== src/Mfa/Login/Check.antt =====
-- What the check of a code keeps and promises (api/routers/auth.ts, loginMfa).
use gateway_monitoring_platf.Prelude.{
  ℕ, ◌<◌, ◌≡◌, inl, inr, refl, ap, ◌∙◌, String, Option, none, some, not, ◌&&◌, List, [], ◌∷◌, find,
  arith, Bool-cases, Option-cases,
}
use gateway_monitoring_platf.Mfa.Pending.{PendingEntry}
use gateway_monitoring_platf.Mfa.Totp.{
  Verdict, accepted, refused, raised, verify_totp, verify_totp_lem, looks_like_backup_code,
}
use gateway_monitoring_platf.Mfa.Login.{
  User, Auth, Checks, Request, find_user, Checked, passed, is_match, try_backup, with_verdict,
  with_secret, with_user, with_entry, check_code,
}

pub find_user-id : (id : ℕ) (us : List User) (u : User) → find_user id us ≡ some u → u.id ≡ id
find_user-id id [] u h = cc
find_user-id id (v ∷ us) u h = ground (arith, find_user-id id us u)

-- What the check promises of a step: it is later than the user's last one.
abbrev pub Later : List User → Checked → Type 0
Later us (passed id (some step)) =
    (u : User) × (find_user id us ≡ some u) × ((l : ℕ) → u.totp_last_step ≡ some l → l < step)
Later us (passed id none) = Unit
Later us _ = Unit

module _ (checks : Checks) where
  abbrev pub Kept : Auth → Checked × Auth → Type 0
  Kept a (checked, a') = (a'.users ≡ a.users) × Later a.users checked

  try_backup-Kept : (u : User) (typed : String) (a : Auth) → Kept a (try_backup checks u typed a)
  unfolding try_backup
  try_backup-Kept u typed a = elim (Bool-cases (looks_like_backup_code checks.trim typed)) [
    | inr other ↦ rw other (refl, tt)
    | inl form ↦ elim (Option-cases (find (is_match checks u typed) a.backup_codes)) [
      | inl miss ↦ rw (form, miss) (refl, tt)
      | inr (c, hit) ↦ rw (form, hit) (refl, tt)
    ]
  ]

  with_verdict-Kept :
      (u : User) (typed : String) (v : Verdict) (a : Auth)
      → find_user u.id a.users ≡ some u
      → ((step : ℕ) → v ≡ accepted step → (l : ℕ) → u.totp_last_step ≡ some l → l < step)
      → Kept a (with_verdict checks u typed v a)
  with_verdict-Kept u typed (accepted step) a found later = (refl, (u, found, later step refl))
  with_verdict-Kept u typed refused a found later = try_backup-Kept u typed a
  with_verdict-Kept u typed raised a found later = (refl, tt)

  with_secret-Kept :
      (u : User) (enc : Option String) (r : Request) (a : Auth)
      → find_user u.id a.users ≡ some u
      → Kept a (with_secret checks u enc r a)
  with_secret-Kept u none r a found = (refl, tt)
  with_secret-Kept u (some enc) r a found =
      with_verdict-Kept u r.typed
        (verify_totp checks.decrypt checks.otp checks.trim enc r.typed u.totp_last_step 1 r.now) a
        found
        (λ step e.
          (verify_totp_lem checks.decrypt checks.otp checks.trim enc r.typed u.totp_last_step 1
            r.now step e).5)

  with_user-Kept :
      (id : ℕ) (o : Option User) (r : Request) (a : Auth)
      → find_user id a.users ≡ o
      → Kept a (with_user checks o r a)
  with_user-Kept id none r a found = (refl, tt)
  with_user-Kept id (some u) r a found =
      let own : find_user u.id a.users ≡ some u =
        ap (λ k. find_user k a.users) (find_user-id id a.users u found) ∙ found in
      elim (Bool-cases (not u.disabled && u.totp_enabled)) [
        | inr off ↦ rw off (refl, tt)
        | inl on ↦ rw on (with_secret-Kept u u.totp_secret_enc r a own)
      ]

  with_entry-Kept :
      (e : Option PendingEntry) (r : Request) (a : Auth) → Kept a (with_entry checks e r a)
  with_entry-Kept none r a = (refl, tt)
  with_entry-Kept (some e) r a = with_user-Kept e.user_id (find_user e.user_id a.users) r a refl

  pub check_code-Kept : (r : Request) (a : Auth) → Kept a (check_code checks r a)
  unfolding check_code
  check_code-Kept r a = with_entry-Kept _ r _
