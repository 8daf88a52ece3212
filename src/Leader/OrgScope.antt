-- ===== src/Leader/OrgScope.antt =====
-- Multi-tenancy (api/lib/org-scope.ts): which rows a user may see and change.
pub mod Guards
use gateway_monitoring_platf.Prelude.{
  ℕ, Option, none, some, Bool, true, false, not, ◌&&◌, ◌||◌, ◌==◌, if◌then◌else◌, or_else,
}

pub record User : Type 0 where
  pub org_id : Option ℕ
  pub is_superadmin : Bool

-- A TRPCError by its code.
pub data Guard : Type 0 where
  allowed not_found forbidden : Guard

-- No user is the open demo mode.
unfoldable pub is_super : Option User → Bool
is_super none = true
is_super (some u) = u.is_superadmin

-- rowOrgId === (user.orgId ?? -1), ids being natural numbers.
abbrev pub same_org : Option ℕ → Option ℕ → Bool
same_org none mine = false
same_org (some row) none = false
same_org (some row) (some mine) = row == mine

abbrev pub org_of : Option User → Option ℕ
org_of none = none
org_of (some u) = u.org_id

-- orgWhere as the test of the rows that it lets through.
unfoldable pub org_where : Option User → Option ℕ → Bool
unfolding is_super
org_where user row = is_super user || same_org row (org_of user)

unfoldable pub stamp_org : Option User → Option ℕ → Option ℕ
stamp_org none explicit = explicit
stamp_org (some u) explicit =
    if u.is_superadmin then elim explicit [ none ↦ u.org_id | some e ↦ some e ] else u.org_id

unfoldable pub assert_row_org : Option User → Option ℕ → Guard
unfolding is_super
assert_row_org user row =
    if is_super user
    then allowed
    else if not (same_org row (org_of user))
    then forbidden
    else allowed

-- A row that may be missing, by its org.
unfoldable pub assert_org_read : Option User → Option (Option ℕ) → Guard
unfolding is_super
assert_org_read user none = not_found
assert_org_read user (some row) =
    if not (is_super user) && not (same_org row (org_of user)) then not_found else allowed

unfoldable pub assert_org_write : Option User → Option (Option ℕ) → Guard
unfolding is_super
assert_org_write user none = not_found
assert_org_write user (some row) =
    if not (is_super user) && not (same_org row (org_of user)) then forbidden else allowed
