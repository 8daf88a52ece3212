-- ===== src/Control/Perform.antt =====
-- The part of executeControl (api/control/execute.ts) that talks to a device.
pub mod Writes
pub mod Safety
pub mod DryRun
use gateway_monitoring_platf.Prelude.{
  ℕ, ◌+◌, ◌*◌, ◌%◌, String, Option, none, some, Bool, true, false, not, ◌&&◌, ◌||◌, List, [], ◌∷◌,
  ◌++◌, ltb, leb, ◌==◌, if◌then◌else◌, is_some, or_else, str_eq,
}
use gateway_monitoring_platf.Modbus.Frame.{build_read_request, build_write_request}
use gateway_monitoring_platf.Transparent.Outstanding.{
  Registry, Key, key_of, OutstandingRead, register_outstanding,
}
use gateway_monitoring_platf.Control.Types.{Num}
use gateway_monitoring_platf.Control.Commands
use gateway_monitoring_platf.Control.Commands.{LiveStatus, CommandRow, RowResult}
use gateway_monitoring_platf.Control.Execute.{
  Meter, Lock, Gateway, Db, Refusal, Checked, pass, refuse, Plan, check_control,
}

pub data ControlStatus : Type 0 where
  live : LiveStatus → ControlStatus
  preview : ControlStatus

-- What the result's detail says; the override's warning is the field `has_warning` of the result.
pub data Detail : Type 0 where
  would_write : ℕ → Option Lock → Detail
  mismatch : ℕ → Option ℕ → Detail
  verified : ℕ → Detail
  device_error gateway_not_found no_downlink : Detail
  address_out_of_range : ℕ → Detail
  frame_sent : ℕ → Detail

pub record ControlResult : Type 0 where
  pub status : ControlStatus
  pub detail : Detail
  pub has_warning : Bool
  pub verify : Option Key

-- How a connection to a TCP device goes: up to the write, at it, or up to the read-back.
pub data TcpOutcome : Type 0 where
  not_connected write_failed read_failed : TcpOutcome
  read_back : Option ℕ → TcpOutcome

-- How the publishing of a frame goes: refused before the client takes it, failed or timed out
-- afterwards, or done.
pub data Publish : Type 0 where
  not_running not_confirmed done : Publish

-- The answers of the devices and of the broker: host, port, unit, register and value; gateway and
-- frame.
pub record Plant : Type 0 where
  pub tcp : String → ℕ → ℕ → ℕ → ℕ → TcpOutcome
  pub publish : ℕ → List ℕ → Publish

-- What was handed to a connection or to the broker's client.
pub data BusWrite : Type 0 where
  tcp_write : String → ℕ → ℕ → ℕ → ℕ → BusWrite
  frame : ℕ → List ℕ → BusWrite

-- The event that emitControl queues: the status, the detail, and the id of the row.
pub data RowDetail : Type 0 where
  of_result : Bool → Detail → RowDetail
  rejected : Refusal → RowDetail

pub record Event : Type 0 where
  pub meter_id : ℕ
  pub key : String
  pub value : Num
  pub status : LiveStatus
  pub detail : RowDetail
  pub command_id : Option ℕ

pub record World : Type 0 where
  pub now : ℕ
  pub registry : Registry
  pub commands : List (CommandRow RowDetail)
  pub next_id : ℕ
  pub writes : List BusWrite
  pub events : List Event

-- A call returns, throws a ControlError, or throws any other error.
pub data Outcome {ℓ} (A : Type ℓ) : Type ℓ where
  returns : A → Outcome A
  rejects : Refusal → Outcome A
  throws : Outcome A

abbrev pub with_write : BusWrite → World → World
with_write b w = record w { writes = w.writes ++ b ∷ [] }

abbrev pub result_of : Plan → LiveStatus → Detail → Option Key → ControlResult
result_of plan status detail verify = record {
  status = live status;
  detail = detail;
  has_warning = plan.has_override;
  verify = verify;
}

-- The read-back of a TCP write.
unfoldable pub tcp_result : Plan → TcpOutcome → ControlResult
tcp_result plan not_connected = result_of plan LiveStatus.failed device_error none
tcp_result plan write_failed = result_of plan LiveStatus.failed device_error none
tcp_result plan read_failed = result_of plan LiveStatus.failed device_error none
tcp_result plan (read_back none) =
    result_of plan LiveStatus.failed (mismatch plan.register none) none
tcp_result plan (read_back (some actual)) =
    if actual == plan.register
    then result_of plan LiveStatus.ok (verified plan.register) none
    else result_of plan LiveStatus.failed (mismatch plan.register (some actual)) none

abbrev pub tcp_world : TcpOutcome → BusWrite → World → World
tcp_world not_connected b w = w
tcp_world _ b w = with_write b w

unfoldable pub write_tcp : Plant → Meter → String → Plan → World → Outcome ControlResult × World
write_tcp plant meter host plan w =
    let port = or_else meter.port 502 in
    let unit = or_else meter.unit_id meter.modbus_address in
    let outcome = plant.tcp host port unit plan.def.address plan.register in
    (
      returns (tcp_result plan outcome),
      tcp_world outcome (tcp_write host port unit plan.def.address plan.register) w,
    )

-- sendControlFrame: whether it returned, and the world.
unfoldable pub send_frame : Publish → ℕ → List ℕ → World → Bool × World
send_frame not_running gateway_id bytes w = (false, w)
send_frame not_confirmed gateway_id bytes w = (false, with_write (frame gateway_id bytes) w)
send_frame done gateway_id bytes w = (true, with_write (frame gateway_id bytes) w)

-- The read-back request of a bus write, registered once it is sent.
unfoldable pub request_read_back : Plant → ℕ → ℕ → Plan → World → Outcome ControlResult × World
request_read_back plant gateway_id slave plan w =
    elim (build_read_request slave 3 plan.def.address 1) [
      | none ↦ (throws, w)
      | some bytes ↦
          let (sent, w') = send_frame (plant.publish gateway_id bytes) gateway_id bytes w in
          if sent
          then (
            returns (
                result_of plan LiveStatus.sent (frame_sent plan.register)
                  (some (key_of gateway_id slave 3))),
            record w' {
              registry =
                  register_outstanding
                    (record {
                      gateway_id = gateway_id;
                      slave = slave;
                      fc = 3;
                      start = plan.def.address;
                      quantity = 1;
                      deadline = 0;
                      command_id = none;
                      verify_expected = some plan.register;
                      verify_command_id = none;
                    })
                    none w'.now w'.registry;
            },
          )
          else (throws, w')
    ]

unfoldable pub write_bus : Plant → ℕ → ℕ → Plan → World → Outcome ControlResult × World
write_bus plant gateway_id slave plan w =
    elim (build_write_request slave plan.def.address plan.register) [
      | none ↦ (throws, w)
      | some bytes ↦
          let (sent, w') = send_frame (plant.publish gateway_id bytes) gateway_id bytes w in
          if sent then request_read_back plant gateway_id slave plan w' else (throws, w')
    ]

-- A device behind a gateway: only a transparent one has a downlink.
unfoldable pub write_gateway :
    Plant → Option Gateway → Meter → Plan → World → Outcome ControlResult × World
write_gateway plant none meter plan w =
    (returns (result_of plan LiveStatus.failed gateway_not_found none), w)
write_gateway plant (some g) meter plan w =
    let slave = or_else meter.unit_id meter.modbus_address in
    if not g.is_transparent
    then (returns (result_of plan LiveStatus.failed no_downlink none), w)
    else if ltb slave 1 || ltb 255 slave
    then (returns (result_of plan LiveStatus.failed (address_out_of_range slave) none), w)
    else write_bus plant g.id slave plan w

-- `if (meter.host)`: an empty text is no host.
abbrev pub host_of : Option String → Option String
host_of none = none
host_of (some h) = if str_eq h "" then none else some h

unfoldable pub write_device : Db → Plant → Meter → Plan → World → Outcome ControlResult × World
write_device db plant meter plan w = elim (host_of meter.host) [
  | none ↦ write_gateway plant (db.gateway meter.gateway_id) meter plan w
  | some host ↦ write_tcp plant meter host plan w
]

abbrev pub preview_of : Db → Meter → Plan → ControlResult
preview_of db meter plan = record {
  status = preview;
  detail = would_write plan.register (db.control_lock meter.id);
  has_warning = plan.has_override;
  verify = none;
}

abbrev pub proceed :
    Db → Plant → Meter → Bool → Checked Plan → World → Outcome ControlResult × World
proceed db plant meter dry_run (refuse r) w = (rejects r, w)
proceed db plant meter true (pass plan) w = (returns (preview_of db meter plan), w)
proceed db plant meter false (pass plan) w = write_device db plant meter plan w

unfoldable pub execute_control :
    Db → Plant → Meter → String → Num → Bool → World → Outcome ControlResult × World
execute_control db plant meter key value dry_run w =
    proceed db plant meter dry_run (check_control db meter key value dry_run) w
