-- ===== src/Leader/OrgScope/Guards.antt =====
-- What the guards of api/lib/org-scope.ts let through.
use gateway_monitoring_platf.Prelude.{
  ℕ, ◌≡◌, ◌↔◌, ◌⊎◌, inl, inr, Option, none, some, true, false, refl, arith, Bool-cases,
  Option-cases,
}
use gateway_monitoring_platf.Leader.OrgScope.{
  User, allowed, forbidden, org_where, stamp_org, assert_row_org, assert_org_read, assert_org_write,
}

-- The user may act on rows of the organization: open demo mode, a superadmin, or a member of it.
abbrev pub MayUse : Option User → Option ℕ → Type 0
MayUse none row = Unit
MayUse (some u) row =
    (u.is_superadmin ≡ true) ⊎ ((org : ℕ) × (u.org_id ≡ some org) × (row ≡ some org))

org_where_of_may :
    (user : Option User) (row : Option ℕ) → MayUse user row → org_where user row ≡ true
unfolding org_where
org_where_of_may none row h = refl
org_where_of_may (some u) row (inl s) = ground arith
org_where_of_may (some u) row (inr (org, a, b)) = ground arith

may_of_org_where :
    (user : Option User) (row : Option ℕ) → org_where user row ≡ true → MayUse user row
unfolding org_where
may_of_org_where none row h = tt
may_of_org_where (some u) none h = inl (ground arith)
may_of_org_where (some u) (some r) h = elim (Bool-cases u.is_superadmin) [
  | inl super ↦ inl super
  | inr plain ↦ elim (Option-cases u.org_id) [
    | inl no_org ↦ absurd (ground arith)
    | inr (org, e) ↦ inr (org, e, ground arith)
  ]
]

-- Lists, by-id reads and writes agree on who may use a row: the user may exactly when the list shows
-- it; a write to a foreign row is forbidden; and a read of a foreign row answers like a read of a row
-- that does not exist.
pub guards_lem :
    (user : Option User) (row : Option ℕ)
    → ((org_where user row ≡ true) ↔ MayUse user row)
      × ((assert_row_org user row ≡ allowed) ↔ MayUse user row)
      × ((assert_org_read user (some row) ≡ allowed) ↔ MayUse user row)
      × ((assert_org_write user (some row) ≡ allowed) ↔ MayUse user row)
      × (¬ MayUse user row
          → (assert_row_org user row ≡ forbidden)
            × (assert_org_write user (some row) ≡ forbidden)
            × (assert_org_read user (some row) ≡ assert_org_read user none))
unfolding assert_row_org assert_org_read assert_org_write org_where
guards_lem user row =
    let to = may_of_org_where user row in
    let from = org_where_of_may user row in
    (
      (to, from),
      (λ h. to (ground arith), λ m. ground (arith, from m)),
      (λ h. to (ground arith), λ m. ground (arith, from m)),
      (λ h. to (ground arith), λ m. ground (arith, from m)),
      λ n. elim (Bool-cases (org_where user row)) [
        | inl seen ↦ absurd (n (to seen))
        | inr hidden ↦ (ground arith, ground arith, ground arith)
      ],
    )

-- What a member of an organization creates belongs to that organization, whatever it asks for, and
-- the member may use it.
pub stamp_org-MayUse :
    (u : User) (org : ℕ) (explicit : Option ℕ)
    → u.is_superadmin ≡ false
    → u.org_id ≡ some org
    → (stamp_org (some u) explicit ≡ some org) × MayUse (some u) (stamp_org (some u) explicit)
unfolding stamp_org
stamp_org-MayUse u org explicit s e = (ground arith, inr (org, e, ground arith))
