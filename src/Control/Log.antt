-- ===== src/Control/Log.antt =====
-- executeAndLog (api/control/execute.ts): a live control write with its row in the commands table and
-- its event.
pub mod Audit
use gateway_monitoring_platf.Prelude.{
  ℕ, ◌+◌, String, Option, none, some, Bool, true, false, List, [], ◌∷◌, ◌++◌,
}
use gateway_monitoring_platf.Transparent.Outstanding.{Registry, Key, attach_verify_command}
use gateway_monitoring_platf.Control.Types.{Num}
use gateway_monitoring_platf.Control.Commands
use gateway_monitoring_platf.Control.Commands.{LiveStatus, CommandRow}
use gateway_monitoring_platf.Control.Execute.{Meter, Db, Refusal}
use gateway_monitoring_platf.Control.Perform.{
  ControlStatus, live, preview, ControlResult, Plant, RowDetail, of_result, rejected, Event, World,
  Outcome, returns, rejects, throws, execute_control,
}

-- The row that executeAndLog inserts, under the id that the table gives.
abbrev pub new_row :
    Meter → String → Num → Option ℕ → LiveStatus → RowDetail → ℕ → CommandRow RowDetail
new_row meter key value user_id status detail id = record {
  id = id;
  gateway_id = meter.gateway_id;
  meter_id = meter.id;
  status = status;
  user_id = user_id;
  control_key = key;
  control_value = value;
  result = Commands.detail detail;
  responded_at = none;
}

abbrev pub new_event : Meter → String → Num → LiveStatus → RowDetail → Option ℕ → Event
new_event meter key value status detail id = record {
  meter_id = meter.id;
  key = key;
  value = value;
  status = status;
  detail = detail;
  command_id = id;
}

abbrev pub attach : Option Key → ℕ → Registry → Registry
attach none id reg = reg
attach (some k) id reg = attach_verify_command k.gateway_id k.slave k.fc id reg

-- The row, its link to the outstanding read-back, and the event of a result.
unfoldable pub log_result :
    Meter → String → Num → Option ℕ → LiveStatus → ControlResult → World → World
log_result meter key value user_id status r w =
    let d = of_result r.has_warning r.detail in
    record w {
      commands = w.commands ++ new_row meter key value user_id status d w.next_id ∷ [];
      next_id = w.next_id + 1;
      registry = attach r.verify w.next_id w.registry;
      events = w.events ++ new_event meter key value status d (some w.next_id) ∷ [];
    }

unfoldable pub log_refusal : Meter → String → Num → Option ℕ → Refusal → World → World
log_refusal meter key value user_id r w = record w {
  commands =
      w.commands ++ new_row meter key value user_id LiveStatus.failed (rejected r) w.next_id ∷ [];
  next_id = w.next_id + 1;
  events = w.events ++ new_event meter key value LiveStatus.failed (rejected r) none ∷ [];
}

-- A preview never comes from a live write; the source throws there.
abbrev pub log_status :
    Meter
    → String
    → Num
    → Option ℕ
    → ControlStatus
    → ControlResult
    → World
    → Outcome ControlResult × World
log_status meter key value user_id (live s) r w =
    (returns r, log_result meter key value user_id s r w)
log_status meter key value user_id preview r w = (throws, w)

-- A failing insert throws: after a result in place of it, after a refusal in place of that.
abbrev pub log_outcome :
    Meter
    → String
    → Num
    → Option ℕ
    → Bool
    → Outcome ControlResult
    → World
    → Outcome ControlResult × World
log_outcome meter key value user_id true (returns r) w =
    log_status meter key value user_id r.status r w
log_outcome meter key value user_id true (rejects r) w =
    (rejects r, log_refusal meter key value user_id r w)
log_outcome meter key value user_id _ _ w = (throws, w)

unfoldable pub execute_and_log :
    Db → Plant → Meter → String → Num → Option ℕ → World → Outcome ControlResult × World
execute_and_log db plant meter key value user_id w =
    let (outcome, w') = execute_control db plant meter key value false w in
    log_outcome meter key value user_id db.accepts_insert outcome w'
