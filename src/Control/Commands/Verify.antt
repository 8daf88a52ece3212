-- ===== src/Control/Commands/Verify.antt =====
-- How the read-back of a transparent-bus write settles its row in the commands table
-- (api/mqtt/c30-outstanding.ts).
use gateway_monitoring_platf.Prelude.{
  ℕ, ◌≡◌, inl, inr, Option, none, some, Bool, true, false, ◌||◌, refl, arith, List, [], ◌∷◌,
  if◌then◌else◌, ◌==◌, Option-cases,
}
use gateway_monitoring_platf.Transparent.Outstanding.{
  OutstandingRead, Registry, entry_key, answers, match_outstanding, attach_verify_command,
  sweep_alive, sweep_expired,
}
use gateway_monitoring_platf.Prelude.{get_bucket, delete_bucket}
use gateway_monitoring_platf.Control.Commands.{
  LiveStatus, ok, failed, RowResult, read_back_verified, read_back_mismatch, no_read_back,
  expected_value, CommandRow, set_status, set_responded, fail_expired, sweep_outstanding,
  matches_expected, confirm_verified_write,
}

-- A status that replaces the one of a row, if there is such a row.
abbrev pub settle : Option LiveStatus → LiveStatus → Option LiveStatus
settle none s = none
settle (some _) s = some s

abbrev pub waits_for : ℕ → Option ℕ → Bool
waits_for j none = false
waits_for j (some id) = id == j

-- One of the entries belongs to the row.
abbrev pub any_waits : ℕ → List OutstandingRead → Bool
any_waits j [] = false
any_waits j (e ∷ es) = waits_for j e.verify_command_id || any_waits j es

-- The only read of its queue is taken out by a response that it can answer.
match_single :
    (e : OutstandingRead) (byte_count now : ℕ)
    → answers byte_count now e ≡ true
    → match_outstanding e.gateway_id e.slave e.fc byte_count now ((entry_key e, e ∷ []) ∷ [])
      ≡ ([], some e)
unfolding match_outstanding get_bucket delete_bucket
match_single e byte_count now h = ground arith

attach_empty : (gateway_id slave fc id : ℕ) → attach_verify_command gateway_id slave fc id [] ≡ []
unfolding attach_verify_command get_bucket
attach_empty gateway_id slave fc id = refl

module _ {D : Type 0} where
  -- The status of the row with an id.
  abbrev pub row_status : ℕ → List (CommandRow D) → Option LiveStatus
  row_status j [] = none
  row_status j (r ∷ rows) = if r.id == j then some r.status else row_status j rows

  row_status-set_status :
      (j id : ℕ) (s : LiveStatus) (result : RowResult D) (rows : List (CommandRow D))
      → row_status j (set_status id s result rows)
        ≡ (if id == j then settle (row_status j rows) s else row_status j rows)
  unfolding set_status
  row_status-set_status j id s result [] = ground arith
  row_status-set_status j id s result (r ∷ rows) =
      ground (arith, row_status-set_status j id s result rows)

  row_status-set_responded :
      (j id now : ℕ) (rows : List (CommandRow D))
      → row_status j (set_responded id now rows) ≡ row_status j rows
  unfolding set_responded
  row_status-set_responded j id now [] = refl
  row_status-set_responded j id now (r ∷ rows) =
      ground (arith, row_status-set_responded j id now rows)

  -- A read-back settles the row of its own write and no other: ok when the register reads the value
  -- that was written, failed when it does not.
  pub confirm_verified_write_lem :
      (e : OutstandingRead) (id observed now j : ℕ) (rows : List (CommandRow D))
      → e.verify_command_id ≡ some id
      → row_status j (confirm_verified_write e observed now rows) ≡ (
          if id == j
          then settle
              (row_status j rows)
              (if matches_expected observed e.verify_expected then ok else failed)
          else row_status j rows)
  unfolding confirm_verified_write
  confirm_verified_write_lem e id observed now j rows h = ground (
    arith,
    row_status-set_status j id ok (read_back_verified e.start observed) rows,
    row_status-set_status j id failed
        (read_back_mismatch e.start observed (expected_value e.verify_expected)) rows,
    row_status-set_responded j id now (set_status id ok (read_back_verified e.start observed) rows),
    row_status-set_responded j id now (
        set_status id failed
          (read_back_mismatch e.start observed (expected_value e.verify_expected)) rows),
  )

  row_status-fail_expired :
      (j : ℕ) (es : List OutstandingRead) (rows : List (CommandRow D))
      → row_status j (fail_expired es rows)
        ≡ (if any_waits j es then settle (row_status j rows) failed else row_status j rows)
  unfolding fail_expired
  row_status-fail_expired j [] rows = refl
  row_status-fail_expired j (e ∷ es) rows = elim (Option-cases e.verify_command_id) [
    | inl n ↦ rw n (row_status-fail_expired j es rows)
    | inr (id, a) ↦ rw a (
        ground (
          arith,
          row_status-fail_expired j es (set_status id failed no_read_back rows),
          row_status-set_status j id failed no_read_back rows,
        ))
  ]

  -- The sweep fails the row of every write whose read-back is overdue, and changes no other row.
  pub sweep_outstanding-status :
      (now j : ℕ) (reg : Registry) (rows : List (CommandRow D))
      → row_status j (sweep_outstanding now reg rows).1 ≡ (
          if any_waits j (sweep_expired now reg)
          then settle (row_status j rows) failed
          else row_status j rows)
  unfolding sweep_outstanding
  sweep_outstanding-status now j reg rows = row_status-fail_expired j (sweep_expired now reg) rows

  -- A read-back that is matched before the row of its write is attached is lost. If it is the only read
  -- that is outstanding, has no row yet and the response can answer it, the response is consumed,
  -- attaching the row then finds no entry, and neither the confirmation nor any later sweep changes a
  -- row.
  pub lost_confirmation :
      (e : OutstandingRead) (byte_count now observed id later : ℕ) (rows : List (CommandRow D))
      → answers byte_count now e ≡ true
      → e.verify_command_id ≡ none
      → let (reg, entry) =
          match_outstanding e.gateway_id e.slave e.fc byte_count now ((entry_key e, e ∷ []) ∷ []) in
        (entry ≡ some e)
        × (confirm_verified_write e observed now rows ≡ rows)
        × (sweep_outstanding later (attach_verify_command e.gateway_id e.slave e.fc id reg) rows
            ≡ ([], rows))
  unfolding confirm_verified_write sweep_outstanding fail_expired sweep_alive sweep_expired
  lost_confirmation e byte_count now observed id later rows h n =
      rw (match_single e byte_count now h)
        (refl, ground arith, rw (attach_empty e.gateway_id e.slave e.fc id) refl)
