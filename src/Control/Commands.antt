-- ===== src/Control/Commands.antt =====
-- The commands table (db/schema.ts) as far as control writes use it: the audit trail of what was
-- sent to plant, and the updates that api/mqtt/c30-outstanding.ts makes of its rows.
pub mod Verify
use gateway_monitoring_platf.Prelude.{
  ℕ, ◌+◌, String, Option, none, some, Bool, true, false, List, [], ◌∷◌, ◌++◌, ◌==◌, if◌then◌else◌,
  map,
}
use gateway_monitoring_platf.Control.Types.{Num}
use gateway_monitoring_platf.Transparent.Outstanding.{
  OutstandingRead, Registry, sweep_alive, sweep_expired,
}

-- The status of a row, LiveControlStatus.
pub data LiveStatus : Type 0 where
  ok sent failed : LiveStatus

-- What the result text of a row says.
pub data RowResult {ℓ} (D : Type ℓ) : Type ℓ where
  detail : D → RowResult D
  no_read_back : RowResult D
  read_back_verified : ℕ → ℕ → RowResult D
  read_back_mismatch : ℕ → ℕ → ℕ → RowResult D

pub record CommandRow (D : Type 0) : Type 0 where
  pub id : ℕ
  pub gateway_id : ℕ
  pub meter_id : ℕ
  pub status : LiveStatus
  pub user_id : Option ℕ
  pub control_key : String
  pub control_value : Num
  pub result : RowResult D
  pub responded_at : Option ℕ

abbrev pub matches_expected : ℕ → Option ℕ → Bool
matches_expected observed none = false
matches_expected observed (some v) = observed == v

abbrev pub expected_value : Option ℕ → ℕ
expected_value none = 0
expected_value (some v) = v

module _ {D : Type 0} where
  -- update commands set status, result where id
  unfoldable pub set_status :
      ℕ → LiveStatus → RowResult D → List (CommandRow D) → List (CommandRow D)
  set_status id status result [] = []
  set_status id status result (r ∷ rows) =
      (if r.id == id then record r { status = status; result = result } else r)
      ∷ set_status id status result rows

  unfoldable pub set_responded : ℕ → ℕ → List (CommandRow D) → List (CommandRow D)
  set_responded id now [] = []
  set_responded id now (r ∷ rows) =
      (if r.id == id then record r { responded_at = some now } else r) ∷ set_responded id now rows

  -- The loop of sweepOutstanding over the expired entries.
  unfoldable pub fail_expired : List OutstandingRead → List (CommandRow D) → List (CommandRow D)
  fail_expired [] rows = rows
  fail_expired (e ∷ es) rows =
      fail_expired es (elim e.verify_command_id [
        | none ↦ rows
        | some id ↦ set_status id failed no_read_back rows
      ])

  unfoldable pub sweep_outstanding :
      ℕ → Registry → List (CommandRow D) → Registry × List (CommandRow D)
  sweep_outstanding now reg rows = (sweep_alive now reg, fail_expired (sweep_expired now reg) rows)

  -- confirmVerifiedWrite: an entry whose command row is not attached yet changes nothing.
  unfoldable pub confirm_verified_write :
      OutstandingRead → ℕ → ℕ → List (CommandRow D) → List (CommandRow D)
  confirm_verified_write e observed now rows = elim e.verify_command_id [
    | none ↦ rows
    | some id ↦ set_responded id now (
        if matches_expected observed e.verify_expected
        then set_status id ok (read_back_verified e.start observed) rows
        else set_status id failed
            (read_back_mismatch e.start observed (expected_value e.verify_expected)) rows)
  ]

  unfoldable pub stamp_responded : ℕ → ℕ → List (CommandRow D) → List (CommandRow D)
  stamp_responded id now rows = set_responded id now rows
