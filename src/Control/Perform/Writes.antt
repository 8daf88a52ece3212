-- ===== src/Control/Perform/Writes.antt =====
-- What executeControl hands to a connection or to the broker (api/control/execute.ts): the planned
-- write and its read-back, and nothing else.
use gateway_monitoring_platf.Prelude.{
  ℕ, ◌≡◌, ◌⊎◌, inl, inr, String, Option, none, some, refl, Option-cases, Bool-cases, or_else, sym,
  ap, ◌∙◌, List, [], ◌∷◌, ◌++◌, All, All-append, append-nil, append_assoc, not, ltb, ◌||◌,
}
use gateway_monitoring_platf.Modbus.Frame.{build_read_request, build_write_request}
use gateway_monitoring_platf.Control.Execute.{Meter, Gateway, Db, Plan}
use gateway_monitoring_platf.Control.Perform.{
  TcpOutcome, read_back, Plant, World, write_tcp, write_gateway, write_device, host_of, BusWrite,
  tcp_write, frame, Publish, send_frame, request_read_back, write_bus, tcp_world,
}

-- A write to the register of the plan with its value, or the read-back of that register.
abbrev pub IsWriteOf : Plan → BusWrite → Type 0
IsWriteOf plan (tcp_write host port unit address value) =
    (address ≡ plan.def.address) × (value ≡ plan.register)
IsWriteOf plan (frame gateway_id bytes) =
    (slave : ℕ) × ((build_write_request slave plan.def.address plan.register ≡ some bytes)
      ⊎ (build_read_request slave 3 plan.def.address 1 ≡ some bytes))

-- `after` is `before` with writes of the plan behind it.
abbrev pub Extends : Plan → List BusWrite → List BusWrite → Type 0
Extends plan before after =
    (new : List BusWrite) × (after ≡ before ++ new) × All (IsWriteOf plan) new

Extends-refl : (plan : Plan) (ws : List BusWrite) → Extends plan ws ws
Extends-refl plan ws = ([], sym (append-nil ws), tt)

Extends-trans :
    (plan : Plan) (a b c : List BusWrite) → Extends plan a b → Extends plan b c → Extends plan a c
Extends-trans plan a b c (n, e, h) (m, f, k) =
    (n ++ m, f ∙ ap (λ l. l ++ m) e ∙ append_assoc a n m, All-append (IsWriteOf plan) n m h k)

write_tcp-Extends :
    (plant : Plant) (meter : Meter) (host : String) (plan : Plan) (w : World)
    → Extends plan w.writes (write_tcp plant meter host plan w).1.writes
unfolding write_tcp
write_tcp-Extends plant meter host plan w =
    by_outcome (plant.tcp host port unit plan.def.address plan.register)
  where
    port : ℕ
    port = or_else meter.port 502

    unit : ℕ
    unit = or_else meter.unit_id meter.modbus_address

    sent :
        Extends plan w.writes
          (w.writes ++ tcp_write host port unit plan.def.address plan.register ∷ [])
    sent = (tcp_write host port unit plan.def.address plan.register ∷ [], refl, ((refl, refl), tt))

    by_outcome :
        (o : TcpOutcome)
        → Extends plan w.writes
            (tcp_world o (tcp_write host port unit plan.def.address plan.register) w).writes
    by_outcome TcpOutcome.not_connected = Extends-refl plan w.writes
    by_outcome TcpOutcome.write_failed = sent
    by_outcome TcpOutcome.read_failed = sent
    by_outcome (read_back a) = sent

send_frame-Extends :
    (plan : Plan) (p : Publish) (g : ℕ) (bytes : List ℕ) (w : World)
    → IsWriteOf plan (frame g bytes)
    → Extends plan w.writes (send_frame p g bytes w).1.writes
unfolding send_frame
send_frame-Extends plan Publish.not_running g bytes w h = Extends-refl plan w.writes
send_frame-Extends plan Publish.not_confirmed g bytes w h = (frame g bytes ∷ [], refl, (h, tt))
send_frame-Extends plan Publish.done g bytes w h = (frame g bytes ∷ [], refl, (h, tt))

request_read_back-Extends :
    (plant : Plant) (g slave : ℕ) (plan : Plan) (w : World)
    → Extends plan w.writes (request_read_back plant g slave plan w).1.writes
unfolding request_read_back
request_read_back-Extends plant g slave plan w =
    elim (Option-cases (build_read_request slave 3 plan.def.address 1)) [
      | inl e ↦ rw (e, request_read_back) (Extends-refl plan w.writes)
      | inr (bytes, e) ↦
          let step = send_frame-Extends plan (plant.publish g bytes) g bytes w (slave, inr e) in
          elim (Bool-cases (send_frame (plant.publish g bytes) g bytes w).0) [
            | inl ok ↦ rw (e, request_read_back) (rw ok step)
            | inr bad ↦ rw (e, request_read_back) (rw bad step)
          ]
    ]

write_bus-Extends :
    (plant : Plant) (g slave : ℕ) (plan : Plan) (w : World)
    → Extends plan w.writes (write_bus plant g slave plan w).1.writes
unfolding write_bus
write_bus-Extends plant g slave plan w =
    elim (Option-cases (build_write_request slave plan.def.address plan.register)) [
      | inl e ↦ rw (e, write_bus) (Extends-refl plan w.writes)
      | inr (bytes, e) ↦
          let w' = (send_frame (plant.publish g bytes) g bytes w).1 in
          let step = send_frame-Extends plan (plant.publish g bytes) g bytes w (slave, inl e) in
          let later = request_read_back-Extends plant g slave plan w' in
          elim (Bool-cases (send_frame (plant.publish g bytes) g bytes w).0) [
            | inl ok ↦
                rw (e, write_bus) (rw ok (Extends-trans plan w.writes w'.writes _ step later))
            | inr bad ↦ rw (e, write_bus) (rw bad step)
          ]
    ]

write_gateway-Extends :
    (plant : Plant) (g : Option Gateway) (meter : Meter) (plan : Plan) (w : World)
    → Extends plan w.writes (write_gateway plant g meter plan w).1.writes
unfolding write_gateway
write_gateway-Extends plant none meter plan w = Extends-refl plan w.writes
write_gateway-Extends plant (some g) meter plan w = elim (Bool-cases (not g.is_transparent)) [
  | inl opaque ↦ rw opaque (Extends-refl plan w.writes)
  | inr through ↦ elim (Bool-cases (ltb slave 1 || ltb 255 slave)) [
    | inl bad ↦ rw (through, bad) (Extends-refl plan w.writes)
    | inr good ↦ rw (through, good) (write_bus-Extends plant g.id slave plan w)
  ]
]
  where
    slave : ℕ
    slave = or_else meter.unit_id meter.modbus_address

-- The writes of a permitted call: those of before, and behind them writes of the plan.
pub write_device-Extends :
    (db : Db) (plant : Plant) (meter : Meter) (plan : Plan) (w : World)
    → Extends plan w.writes (write_device db plant meter plan w).1.writes
unfolding write_device
write_device-Extends db plant meter plan w = elim (Option-cases (host_of meter.host)) [
  | inl e ↦
      rw (e, write_device) (write_gateway-Extends plant (db.gateway meter.gateway_id) meter plan w)
  | inr (host, e) ↦ rw (e, write_device) (write_tcp-Extends plant meter host plan w)
]
