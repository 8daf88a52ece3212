-- ===== src/Control/Tests.antt =====
-- Runs of the control path (api/control/execute.ts, api/mqtt/c30-outstanding.ts) on a meter with a TCP
-- address and on one behind a gateway.
use gateway_monitoring_platf.Prelude.{
  ℕ, ◌≡◌, ◌≢◌, ◌↔◌, ◌⊎◌, none, some, Bool, true, false, refl, arith, List, [], ◌∷◌, ◌==◌,
  if◌then◌else◌, pos,
}
use gateway_monitoring_platf.Modbus.Frame.{build_read_request, build_write_request, with_crc}
use gateway_monitoring_platf.Transparent.Outstanding.{
  OutstandingRead, entry_key, answers, match_outstanding, attach_verify_command,
}
use gateway_monitoring_platf.Control.Types.{ControllableDef, Num, finite}
use gateway_monitoring_platf.Control.Commands
use gateway_monitoring_platf.Control.Commands.{
  LiveStatus, CommandRow, confirm_verified_write, sweep_outstanding, matches_expected,
}
use gateway_monitoring_platf.Control.Commands.Verify.{lost_confirmation}
use gateway_monitoring_platf.Control.Execute.{
  Meter, Lock, Profile, VerificationStatus, Gateway, Db, pass, Plan, check_control, check_lock,
  check_key, check_verification, check_range, check_fc, check_register, register_value,
}
use gateway_monitoring_platf.Control.Execute.Check.{IsPermitted, check_control_iff}
use gateway_monitoring_platf.Control.Perform.{
  ControlResult, read_back, Plant, Publish, frame, World, returns, throws, execute_control,
  write_device, write_tcp, tcp_result, result_of, Detail,
}
use gateway_monitoring_platf.Control.Perform.Writes.{Extends}
use gateway_monitoring_platf.Control.Perform.Safety.{
  execute_control_safe, ReadsBack, execute_control_ok,
}
use gateway_monitoring_platf.Control.Log.{execute_and_log}
use gateway_monitoring_platf.Control.Log.Audit.{
  HasNewRow, execute_and_log-HasNewRow, execute_and_log-unlogged,
}

abbrev power_def : ControllableDef
power_def = record {
  address = 40;
  fc = some 6;
  min = pos 0;
  max = pos 100_000_000;
  scale = some 10_000_000;
}

abbrev profile : Profile
profile = record {
  controllable = some (("activePowerKw", power_def) ∷ []);
  verification_status = VerificationStatus.field_verified;
  allow_unverified_control = false;
}

abbrev tcp_meter : Meter
tcp_meter = record {
  id = 7;
  gateway_id = 2;
  model = "bess";
  host = some "10.0.0.7";
  port = none;
  unit_id = some 1;
  modbus_address = 1;
  org_id = none;
}

abbrev bus_meter : Meter
bus_meter = record {
  id = 8;
  gateway_id = 2;
  model = "bess";
  host = none;
  port = none;
  unit_id = some 1;
  modbus_address = 1;
  org_id = none;
}

abbrev gateway : Gateway
gateway = record { id = 2; is_transparent = true }

abbrev open_db : Db
open_db = record {
  control_lock = λ _. none;
  profile = λ _. some profile;
  gateway = λ _. some gateway;
  accepts_insert = true;
}

abbrev lock : Lock
lock = record { since = 5; by = some 1; reason = some "fire drill" }

abbrev stopped_db : Db
stopped_db = record {
  control_lock = λ _. some lock;
  profile = λ _. some profile;
  gateway = λ _. some gateway;
  accepts_insert = true;
}

-- The write of 5 kW, 50 in the register.
abbrev plan : Plan
plan = record { def = power_def; register = 50; has_override = false }

abbrev five_kw : Num
five_kw = finite (pos 5_000_000)

abbrev write_bytes : List ℕ
write_bytes = with_crc (1 ∷ 6 ∷ 0 ∷ 40 ∷ 0 ∷ 50 ∷ [])

abbrev read_bytes : List ℕ
read_bytes = with_crc (1 ∷ 3 ∷ 0 ∷ 40 ∷ 0 ∷ 1 ∷ [])

-- Devices that read back what was written, and a broker that takes each write and no read.
abbrev is_write : List ℕ → Bool
is_write (slave ∷ fc ∷ rest) = fc == 6
is_write _ = false

abbrev plant : Plant
plant = record {
  tcp = λ _ _ _ _ value. read_back (some value);
  publish = λ _ bytes. if is_write bytes then Publish.done else Publish.not_running;
}

abbrev start : World
start = record { now = 1000; registry = []; commands = []; next_id = 1; writes = []; events = [] }

plan_passes :
    (meter : Meter) (dry_run : Bool)
    → meter.model ≡ "bess"
    → check_control open_db meter "activePowerKw" five_kw dry_run ≡ pass plan
unfolding check_control check_lock check_key check_verification check_range check_fc check_register
    register_value
plan_passes meter true h = refl
plan_passes meter false h = refl

execute_control_safe_example :
    let after =
      (execute_control open_db plant tcp_meter "activePowerKw" five_kw false start).1.writes in
    (after ≡ [])
    ⊎ ((p : Plan) × IsPermitted open_db tcp_meter "activePowerKw" five_kw false p
        × Extends p [] after)
execute_control_safe_example =
    execute_control_safe open_db plant tcp_meter "activePowerKw" five_kw start

check_control_iff_example :
    (check_control open_db tcp_meter "activePowerKw" five_kw false ≡ pass plan)
    ↔ IsPermitted open_db tcp_meter "activePowerKw" five_kw false plan
check_control_iff_example = check_control_iff open_db tcp_meter "activePowerKw" five_kw false plan

abbrev tcp_ok : ControlResult
tcp_ok = result_of plan LiveStatus.ok (Detail.verified 50) none

write_returns :
    (execute_control open_db plant tcp_meter "activePowerKw" five_kw false start).0 ≡ returns tcp_ok
unfolding execute_control write_device write_tcp tcp_result
write_returns = rw (plan_passes tcp_meter false refl) refl

execute_control_ok_example :
    (p : Plan) × IsPermitted open_db tcp_meter "activePowerKw" five_kw false p
    × ReadsBack plant tcp_meter p
execute_control_ok_example =
    execute_control_ok open_db plant tcp_meter "activePowerKw" five_kw start tcp_ok write_returns
      refl

not_thrown :
    (execute_control open_db plant tcp_meter "activePowerKw" five_kw false start).0 ≢ throws
not_thrown h = ground (arith, write_returns)

execute_and_log-HasNewRow_example :
    let (o, w1) = execute_control open_db plant tcp_meter "activePowerKw" five_kw false start in
    let (o', w2) = execute_and_log open_db plant tcp_meter "activePowerKw" five_kw none start in
    (o' ≡ o) × HasNewRow tcp_meter o w1 w2
execute_and_log-HasNewRow_example =
    execute_and_log-HasNewRow open_db plant tcp_meter "activePowerKw" five_kw none start refl
      not_thrown

execute_and_log-unlogged_example :
    let (o, w') = execute_and_log open_db plant bus_meter "activePowerKw" five_kw none start in
    (o ≡ throws) × (w'.writes ≡ frame 2 write_bytes ∷ []) × (w'.commands ≡ [])
unfolding build_write_request build_read_request with_crc
execute_and_log-unlogged_example =
    execute_and_log-unlogged open_db plant bus_meter "activePowerKw" five_kw none start plan gateway
      write_bytes read_bytes (plan_passes bus_meter false refl) refl refl refl (omega arith)
      (omega arith) refl refl refl refl

-- The read-back of the write, before and after the id of its row is attached.
abbrev pending_read : OutstandingRead
pending_read = record {
  gateway_id = 2;
  slave = 1;
  fc = 3;
  start = 40;
  quantity = 1;
  deadline = 31_000;
  command_id = none;
  verify_expected = some 50;
  verify_command_id = none;
}

abbrev attached_read : OutstandingRead
attached_read = record pending_read { verify_command_id = some 4 }

abbrev sent_row : CommandRow ℕ
sent_row = record {
  id = 4;
  gateway_id = 2;
  meter_id = 8;
  status = LiveStatus.sent;
  user_id = none;
  control_key = "activePowerKw";
  control_value = five_kw;
  result = Commands.detail 0;
  responded_at = none;
}

lost_confirmation_example :
    let (reg, entry) =
      match_outstanding 2 1 3 2 2000 ((entry_key pending_read, pending_read ∷ []) ∷ []) in
    (entry ≡ some pending_read)
    × (confirm_verified_write pending_read 50 2000 (sent_row ∷ []) ≡ sent_row ∷ [])
    × (sweep_outstanding 40_000 (attach_verify_command 2 1 3 4 reg) (sent_row ∷ [])
        ≡ ([], sent_row ∷ []))
unfolding answers
lost_confirmation_example =
    lost_confirmation pending_read 2 2000 50 4 40_000 (sent_row ∷ []) refl refl
