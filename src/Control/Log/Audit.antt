-- ===== src/Control/Log/Audit.antt =====
-- Which control writes leave a row in the commands table (api/control/execute.ts, executeAndLog).
use gateway_monitoring_platf.Prelude.{
  ℕ, ◌≡◌, ◌≢◌, ◌≤◌, String, Option, none, some, true, false, refl, arith, List, [], ◌∷◌, ◌++◌,
  or_else,
}
use gateway_monitoring_platf.Modbus.Frame.{build_read_request, build_write_request}
use gateway_monitoring_platf.Control.Types.{Num}
use gateway_monitoring_platf.Control.Commands.{LiveStatus, CommandRow}
use gateway_monitoring_platf.Control.Execute.{Meter, Gateway, Db, pass, Plan, check_control}
use gateway_monitoring_platf.Control.Perform.{
  ControlStatus, live, preview, ControlResult, Plant, Publish, frame, RowDetail, World, Outcome,
  returns, rejects, throws, execute_control, write_device, write_gateway, write_bus,
  request_read_back, send_frame,
}
use gateway_monitoring_platf.Control.Perform.Safety.{execute_control-ne-preview}
use gateway_monitoring_platf.Control.Log.{
  log_result, log_refusal, execute_and_log, log_outcome, log_status,
}

-- The row tells how the call ended: the status of its result, or a refusal as failed.
abbrev pub Tells : CommandRow RowDetail → Outcome ControlResult → Type 0
Tells row (returns r) = r.status ≡ live row.status
Tells row (rejects why) = row.status ≡ LiveStatus.failed
Tells row throws = ⊥

-- The state `after` is `before` with one row more, which tells how the call ended.
abbrev pub HasNewRow : Meter → Outcome ControlResult → World → World → Type 0
HasNewRow meter o before after =
    (row : CommandRow RowDetail) × (after.commands ≡ before.commands ++ row ∷ [])
    × (row.id ≡ before.next_id)
    × (row.meter_id ≡ meter.id)
    × Tells row o

module _ (meter : Meter) (key : String) (value : Num) (user_id : Option ℕ) where
  log_status-HasNewRow :
      (s : ControlStatus) (r : ControlResult) (w : World)
      → r.status ≡ s
      → s ≢ preview
      → let (o', w') = log_status meter key value user_id s r w in
        (o' ≡ returns r) × HasNewRow meter (returns r) w w'
  unfolding log_result
  log_status-HasNewRow (live s) r w e h = (refl, (_, refl, refl, refl, e))
  log_status-HasNewRow preview r w e h = absurd (h refl)

  log_outcome-HasNewRow :
      (o : Outcome ControlResult) (w : World)
      → o ≢ throws
      → ((r : ControlResult) → o ≡ returns r → r.status ≢ preview)
      → let (o', w') = log_outcome meter key value user_id true o w in
        (o' ≡ o) × HasNewRow meter o w w'
  unfolding log_refusal
  log_outcome-HasNewRow (returns r) w h k = log_status-HasNewRow r.status r w refl (k r refl)
  log_outcome-HasNewRow (rejects why) w h k = (refl, (_, refl, refl, refl, refl))
  log_outcome-HasNewRow throws w h k = absurd (h refl)

-- Where the table accepts the insert, a call that returns or is refused ends as executeControl ends
-- and adds exactly one row, with the status of the result, and failed for a refusal.
pub execute_and_log-HasNewRow :
    (db : Db) (plant : Plant) (meter : Meter) (key : String) (value : Num) (user_id : Option ℕ)
    (w : World)
    → db.accepts_insert ≡ true
    → (execute_control db plant meter key value false w).0 ≢ throws
    → let (o, w1) = execute_control db plant meter key value false w in
      let (o', w2) = execute_and_log db plant meter key value user_id w in
      (o' ≡ o) × HasNewRow meter o w1 w2
unfolding execute_and_log
execute_and_log-HasNewRow db plant meter key value user_id w a h = simp a (
    log_outcome-HasNewRow meter key value user_id
      (execute_control db plant meter key value false w).0
      (execute_control db plant meter key value false w).1 h
      (execute_control-ne-preview db plant meter key value w))

-- A write through a gateway whose FC6 frame went out and whose read-back request could not be
-- published: the frame has been handed to the broker, the call throws, and the commands table has no
-- row of it.
pub execute_and_log-unlogged :
    (db : Db) (plant : Plant) (meter : Meter) (key : String) (value : Num) (user_id : Option ℕ)
    (w : World) (plan : Plan) (g : Gateway) (write read : List ℕ)
    → check_control db meter key value false ≡ pass plan
    → meter.host ≡ none
    → db.gateway meter.gateway_id ≡ some g
    → g.is_transparent ≡ true
    → 1 ≤ or_else meter.unit_id meter.modbus_address
    → or_else meter.unit_id meter.modbus_address ≤ 255
    → build_write_request
        (or_else meter.unit_id meter.modbus_address)
        plan.def.address
        plan.register
      ≡ some write
    → build_read_request (or_else meter.unit_id meter.modbus_address) 3 plan.def.address 1
      ≡ some read
    → plant.publish g.id write ≡ Publish.done
    → plant.publish g.id read ≡ Publish.not_running
    → let (o, w') = execute_and_log db plant meter key value user_id w in
      (o ≡ throws) × (w'.writes ≡ w.writes ++ frame g.id write ∷ []) × (w'.commands ≡ w.commands)
unfolding execute_and_log execute_control write_device write_gateway write_bus request_read_back
    send_frame
execute_and_log-unlogged db plant meter key value user_id w plan g write read c h gw t lo hi bw br
      p1 p2 =
    ground arith
