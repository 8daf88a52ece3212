-- ===== src/Control/Execute.antt =====
-- executeControl and executeAndLog (api/control/execute.ts) over the database, the devices and the
-- state of the process. The texts of errors and results are data.
pub mod Check
use gateway_monitoring_platf.Prelude.{
  ℕ, ◌+◌, ◌*◌, ◌%◌, String, Option, none, some, Bool, true, false, not, ◌&&◌, ◌||◌, List, [], ◌∷◌,
  ◌++◌, ltb, leb, ◌==◌, if◌then◌else◌, is_some, or_else, str_eq, ℤ, pos, negsuc, ltb_ℤ, ◌*ℤ◌,
  round_div, pos_part,
}
use gateway_monitoring_platf.Modbus.Frame.{build_read_request, build_write_request}
use gateway_monitoring_platf.Transparent.Outstanding.{
  Registry, Key, key_of, OutstandingRead, register_outstanding, attach_verify_command,
}
use gateway_monitoring_platf.Control.Types.{
  ControllableDef, ControllableMap, get, Num, finite, not_finite,
}
use gateway_monitoring_platf.Control.Commands.{LiveStatus, CommandRow, RowResult, detail}
use gateway_monitoring_platf.Control.Commands

pub record Meter : Type 0 where
  pub id : ℕ
  pub gateway_id : ℕ
  pub model : String
  pub host : Option String
  pub port : Option ℕ
  pub unit_id : Option ℕ
  pub modbus_address : ℕ
  pub org_id : Option ℕ

pub record Lock : Type 0 where
  pub since : ℕ
  pub by : Option ℕ
  pub reason : Option String

pub data VerificationStatus : Type 0 where
  draft bench_verified field_verified : VerificationStatus

pub record Profile : Type 0 where
  pub controllable : Option ControllableMap
  pub verification_status : VerificationStatus
  pub allow_unverified_control : Bool

pub record Gateway : Type 0 where
  pub id : ℕ
  pub is_transparent : Bool

-- The rows that one call reads, and whether an insert into the commands table succeeds.
pub record Db : Type 0 where
  pub control_lock : ℕ → Option Lock
  pub profile : String → Option Profile
  pub gateway : ℕ → Option Gateway
  pub accepts_insert : Bool

abbrev pub controllable_for_model : Db → String → ControllableMap
controllable_for_model db model = elim (db.profile model) [
  | none ↦ []
  | some p ↦ or_else p.controllable []
]

-- How a ControlError says why.
pub data Refusal : Type 0 where
  stopped : Lock → Refusal
  not_controllable unverified out_of_range : Refusal
  fc_not_supported : ℕ → Refusal
  does_not_fit : ℤ → Refusal

pub data Checked {ℓ} (A : Type ℓ) : Type ℓ where
  pass : A → Checked A
  refuse : Refusal → Checked A

infixl 5 ◌>>=◌ ◌>>◌
abbrev pub ◌>>=◌ {ℓ κ} : {A : Type ℓ} {B : Type κ} → Checked A → (A → Checked B) → Checked B
pass a >>= f = f a
refuse r >>= f = refuse r

abbrev pub ◌>>◌ {ℓ} : {B : Type ℓ} → Checked (Unit {0}) → Checked B → Checked B
m >> k = m >>= λ _. k

abbrev pub require : Bool → Refusal → Checked (Unit {0})
require true r = pass tt
require false r = refuse r

-- A dry run does not look at the lock here.
unfoldable pub check_lock : Bool → Option Lock → Checked (Unit {0})
check_lock true lock = pass tt
check_lock false none = pass tt
check_lock false (some lock) = refuse (stopped lock)

unfoldable pub check_key : String → ControllableMap → Checked ControllableDef
check_key key allowed = elim (get key allowed) [
  | none ↦ refuse not_controllable
  | some def ↦ pass def
]

abbrev pub is_draft : VerificationStatus → Bool
is_draft draft = true
is_draft _ = false

-- The result says whether the commissioning override is in force.
unfoldable pub check_verification : Option Profile → Checked Bool
check_verification none = pass false
check_verification (some p) =
    if is_draft p.verification_status
    then if p.allow_unverified_control then pass true else refuse unverified
    else pass false

unfoldable pub check_range : Num → ControllableDef → Checked ℤ
check_range not_finite def = refuse out_of_range
check_range (finite v) def =
    if ltb_ℤ v def.min || ltb_ℤ def.max v then refuse out_of_range else pass v

-- `def.fc && def.fc !== 6`
unfoldable pub check_fc : Option ℕ → Checked (Unit {0})
check_fc none = pass tt
check_fc (some fc) = require (fc == 0 || fc == 6) (fc_not_supported fc)

-- Math.round(value * scale), the scale 1 by default.
unfoldable pub register_value : ControllableDef → ℤ → ℤ
unfolding ◌*ℤ◌ round_div
register_value def v = round_div (v *ℤ pos (or_else def.scale 1_000_000)) 1_000_000_000_000

unfoldable pub check_register : ℤ → Checked ℕ
check_register n =
    if ltb_ℤ n (pos 0) || ltb_ℤ (pos 0xffff) n then refuse (does_not_fit n) else pass (pos_part n)

-- What the checks find for the write.
pub record Plan : Type 0 where
  pub def : ControllableDef
  pub register : ℕ
  pub has_override : Bool

-- All that executeControl does before it touches the bus.
unfoldable pub check_control : Db → Meter → String → Num → Bool → Checked Plan
check_control db meter key value dry_run = do
  check_lock dry_run (db.control_lock meter.id)
  def ← check_key key (controllable_for_model db meter.model)
  has_override ← check_verification (db.profile meter.model)
  v ← check_range value def
  check_fc def.fc
  register ← check_register (register_value def v)
  pass (record { def = def; register = register; has_override = has_override })
