-- ===== src/Control/Perform/Safety.antt =====
-- What reaches a device, and what a result means (api/control/execute.ts, executeControl).
use gateway_monitoring_platf.Prelude.{
  ℕ, ◌≡◌, ◌≢◌, ◌⊎◌, inl, inr, String, Option, none, some, false, refl, arith, Option-cases, or_else,
}
use gateway_monitoring_platf.Modbus.Frame.{build_write_request}
use gateway_monitoring_platf.Modbus.Frame.{build_write_request}
use gateway_monitoring_platf.Control.Types.{Num}
use gateway_monitoring_platf.Control.Commands.{LiveStatus}
use gateway_monitoring_platf.Control.Execute.{
  Meter, Lock, Gateway, Db, stopped, Plan, check_control, check_lock,
}
use gateway_monitoring_platf.Control.Execute.Check.{IsPermitted, check_control_iff, Checked-cases}
use gateway_monitoring_platf.Control.Perform.Writes.{Extends, write_device-Extends}
use gateway_monitoring_platf.Control.Perform.{
  live, preview, ControlResult, TcpOutcome, read_back, Plant, World, returns, rejects, tcp_result,
  write_tcp, write_gateway, write_device, host_of, send_frame, request_read_back, write_bus,
  send_frame, execute_control, request_read_back, write_bus, send_frame,
}

module _ (db : Db) (plant : Plant) (meter : Meter) (key : String) (value : Num) (w : World) where
  -- Whatever a live call hands to a connection or to the broker is the write of a permitted plan, or
  -- the read-back of its register: the device is not stopped, the key is declared for its model, the
  -- profile is cleared, the value is in range and fits the register.
  pub execute_control_safe :
      let after = (execute_control db plant meter key value false w).1.writes in
      (after ≡ w.writes)
      ⊎ ((plan : Plan) × IsPermitted db meter key value false plan × Extends plan w.writes after)
  unfolding execute_control
  execute_control_safe = elim (Checked-cases (check_control db meter key value false)) [
    | inl (r, e) ↦ rw e (inl refl)
    | inr (plan, e) ↦ rw e (
        inr (
          plan,
          (check_control_iff db meter key value false plan).0 e,
          write_device-Extends db plant meter plan w,
        ))
  ]

  -- An emergency stop refuses every live write before anything else is looked at, and leaves the
  -- state as it was.
  pub execute_control_locked :
      (lock : Lock)
      → db.control_lock meter.id ≡ some lock
      → execute_control db plant meter key value false w ≡ (rejects (stopped lock), w)
  unfolding execute_control check_control check_lock
  execute_control_locked lock h = rw h

tcp_result_ok :
    (plan : Plan) (o : TcpOutcome)
    → (tcp_result plan o).status ≡ live LiveStatus.ok
    → o ≡ read_back (some plan.register)
unfolding tcp_result
tcp_result_ok plan (read_back (some a)) h = ground arith
tcp_result_ok plan o h = cc

-- A result that is not known to have worked: sent, or failed.
abbrev IsPending : ControlResult → Type 0
IsPending r = (r.status ≡ live LiveStatus.sent) ⊎ (r.status ≡ live LiveStatus.failed)

request_read_back-IsPending :
    (plant : Plant) (g slave : ℕ) (plan : Plan) (w : World) (r : ControlResult)
    → (request_read_back plant g slave plan w).0 ≡ returns r
    → IsPending r
unfolding request_read_back
request_read_back-IsPending plant g slave plan w r h = ground arith

write_bus-IsPending :
    (plant : Plant) (g slave : ℕ) (plan : Plan) (w : World) (r : ControlResult)
    → (write_bus plant g slave plan w).0 ≡ returns r
    → IsPending r
unfolding write_bus
write_bus-IsPending plant g slave plan w r h =
    elim (Option-cases (build_write_request slave plan.def.address plan.register)) [
      | inl e ↦ absurd (ground arith)
      | inr (bytes, e) ↦
          let w' = (send_frame (plant.publish g bytes) g bytes w).1 in
          request_read_back-IsPending plant g slave plan w' r (ground arith)
    ]

write_gateway-IsPending :
    (plant : Plant) (g : Option Gateway) (meter : Meter) (plan : Plan) (w : World)
    (r : ControlResult)
    → (write_gateway plant g meter plan w).0 ≡ returns r
    → IsPending r
unfolding write_gateway
write_gateway-IsPending plant none meter plan w r h = ground arith
write_gateway-IsPending plant (some g) meter plan w r h =
    ground
      (arith, write_bus-IsPending plant g.id (or_else meter.unit_id meter.modbus_address) plan w r)

tcp_result-ne-preview : (plan : Plan) (o : TcpOutcome) → (tcp_result plan o).status ≢ preview
unfolding tcp_result
tcp_result-ne-preview plan o h = ground arith

-- A live call never returns a preview.
pub execute_control-ne-preview :
    (db : Db) (plant : Plant) (meter : Meter) (key : String) (value : Num) (w : World)
    (r : ControlResult)
    → (execute_control db plant meter key value false w).0 ≡ returns r
    → r.status ≢ preview
unfolding execute_control write_device write_tcp
execute_control-ne-preview db plant meter key value w r h p =
    elim (Checked-cases (check_control db meter key value false)) [
      | inl (why, e) ↦ ground arith
      | inr (plan, e) ↦ elim (Option-cases (host_of meter.host)) [
        | inl n ↦
            ground
              (arith, write_gateway-IsPending plant (db.gateway meter.gateway_id) meter plan w r)
        | inr (host, s) ↦ ground (
          arith,
          tcp_result-ne-preview plan (
              plant.tcp host (or_else meter.port 502) (or_else meter.unit_id meter.modbus_address)
                plan.def.address plan.register),
        )
      ]
    ]

-- A device whose register reads back the value that was written to it.
abbrev pub ReadsBack : Plant → Meter → Plan → Type 0
ReadsBack plant meter plan =
    (host : String) × (host_of meter.host ≡ some host)
    × (plant.tcp host (or_else meter.port 502) (or_else meter.unit_id meter.modbus_address)
          plan.def.address plan.register
        ≡ read_back (some plan.register))

-- A live call says "ok" only of a permitted write to a TCP device whose register then read back the
-- value written; a write through a gateway is never "ok" at this point.
pub execute_control_ok :
    (db : Db) (plant : Plant) (meter : Meter) (key : String) (value : Num) (w : World)
    (r : ControlResult)
    → (execute_control db plant meter key value false w).0 ≡ returns r
    → r.status ≡ live LiveStatus.ok
    → (plan : Plan) × IsPermitted db meter key value false plan × ReadsBack plant meter plan
unfolding execute_control write_device write_tcp
execute_control_ok db plant meter key value w r h ok =
    elim (Checked-cases (check_control db meter key value false)) [
      | inl (why, e) ↦ absurd (ground arith)
      | inr (plan, e) ↦ elim (Option-cases (host_of meter.host)) [
        | inl n ↦ absurd (
            ground
              (arith, write_gateway-IsPending plant (db.gateway meter.gateway_id) meter plan w r))
        | inr (host, s) ↦ (
          plan,
          (check_control_iff db meter key value false plan).0 e,
          (host, s, tcp_result_ok plan _ (ground arith)),
        )
      ]
    ]
