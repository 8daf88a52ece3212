-- ===== src/Ota/Jobs.antt =====
-- The jobs that deliver firmware and configuration (api/ota/manager.ts, and publishOtaCmd of
-- api/mqtt/service.ts). The tables are lists of rows; a sweep happens at one instant. A job's status
-- is that of a rollout target: both columns have the same four values. The texts of errors are data.
mod Tables
pub mod Tries
pub mod Sending
pub mod Bounds
pub mod Acks
unfoldable pub use Tables.*
use gateway_monitoring_platf.Prelude.{
  ℕ, ◌+◌, ℤ, String, Option, none, some, Bool, true, false, not, ◌&&◌, ◌||◌, List, [], ◌∷◌, ◌++◌,
  ltb, leb, ◌==◌, if◌then◌else◌, length, filter, find, map, is_some, or_else, str_eq,
}
use gateway_monitoring_platf.Ota.Rollout.{
  TargetStatus, pending, sent, ack, failed, is_pending, is_sent,
}

-- What dispatch does once publishing has returned or thrown.
unfoldable pub after_publish : OtaJob → ℕ → Bool × Store → Store
after_publish job now (true, s) = record s { jobs = set_job job.id (published job now) s.jobs }
after_publish job now (false, s) = fail_job job.id publish_failed s

module _ (links : Links) where
  unfoldable pub write_config : Gateway → OtaJob → Option Meter → String → ℤ → ℕ → Store → Store
  write_config gw job none key value now s = fail_job job.id no_meter s
  write_config gw job (some meter) key value now s =
      if links.configure s meter key value
      then record s {
        jobs = set_job job.id (applied job now) s.jobs;
        gateways = set_gateway gw.id bump_config s.gateways;
      }
      else fail_job job.id config_failed s

  -- applyTcpConfig from the two fields that it checks.
  unfoldable pub apply_fields : Gateway → OtaJob → Option String → Option ℤ → ℕ → Store → Store
  apply_fields gw job (some key) (some value) now s =
      write_config gw job (find (is_meter job.payload.meter_id gw.id) s.meters) key value now s
  apply_fields gw job none value now s = fail_job job.id bad_payload s
  apply_fields gw job (some key) none now s = fail_job job.id bad_payload s

  unfoldable pub apply_tcp_config : Gateway → OtaJob → ℕ → Store → Store
  unfolding apply_fields
  apply_tcp_config gw job now s =
      apply_fields gw job job.payload.control_key job.payload.value now s

  unfoldable pub dispatch_mqtt : Gateway → OtaJob → ℕ → Store → Store
  unfolding after_publish
  dispatch_mqtt gw job now s =
      let frame = frame_of gw job in
      after_publish job now (publish_ota_cmd (links.publish s frame) frame s)

  unfoldable pub dispatch_via : Option Gateway → OtaJob → ℕ → Store → Store
  dispatch_via none job now s = fail_job job.id gateway_gone s
  dispatch_via (some gw) job now s =
      if str_eq gw.transport "tcp"
      then if is_firmware job.job_type
        then fail_job job.id firmware_unsupported s
        else apply_tcp_config gw job now s
      else dispatch_mqtt gw job now s

  -- `job` is the row as the caller has read it.
  unfoldable pub dispatch_job : OtaJob → ℕ → Store → Store
  dispatch_job job now s = dispatch_via (find_gateway job.gateway_id s) job now s

  unfoldable pub dispatch_all : List OtaJob → ℕ → Store → Store
  dispatch_all [] now s = s
  dispatch_all (job ∷ jobs) now s = dispatch_all jobs now (dispatch_job job now s)

  unfoldable pub retry_all : List OtaJob → ℕ → Store → Store
  retry_all [] now s = s
  retry_all (job ∷ jobs) now s = retry_all jobs now (
      if leb max_attempts job.attempts
      then fail_job job.id (ack_timeout job.attempts) s
      else dispatch_job job now s)

  -- otaSweep up to the rollouts: what is pending when it starts, then what has timed out.
  unfoldable pub sweep_jobs : ℕ → Store → Store
  unfolding dispatch_all retry_all
  sweep_jobs now s =
      let s' = dispatch_all (filter (λ j. is_pending j.status) s.jobs) now s in
      retry_all (filter (is_timed_out now) s'.jobs) now s'

  -- The new job as the database answers it afterwards; `none` where the insert is refused.
  unfoldable pub create_ota_job :
      ℕ → JobType → Payload → Option ℕ → ℕ → Store → Option OtaJob × Store
  create_ota_job gateway_id job_type payload created_by now s =
      let job = new_job s gateway_id job_type payload created_by in
      let inserted = record s { jobs = s.jobs ++ job ∷ []; next_job_id = s.next_job_id + 1 } in
      let s' = dispatch_job job now inserted in
      if links.accepts s gateway_id then (find (λ j. j.id == job.id) s'.jobs, s') else (none, s)

abbrev pub is_cancellable : ℕ → OtaJob → Bool
is_cancellable id j = j.id == id && is_pending j.status

-- Whether a row was affected, and the store.
unfoldable pub cancel_ota_job : ℕ → Store → Bool × Store
cancel_ota_job id s = (
  is_some (find (is_cancellable id) s.jobs),
  record s { jobs = map (λ j. if is_cancellable id j then cancel j else j) s.jobs },
)

-- The JSON object of an ack frame; a job number that is no integer is `none`.
pub record AckFrame : Type 0 where
  pub job_id : Option ℕ
  pub status : Option String
  pub error : Option String
  pub firmware_version : Option String

abbrev pub is_ack_text : Option String → Bool
is_ack_text none = false
is_ack_text (some s) = str_eq s "ack"

abbrev pub error_of : Option String → JobError
error_of none = negative_ack
error_of (some e) = reported e

-- The version that the frame names, else the one of the job; the empty text is no version.
abbrev pub version_of : AckFrame → OtaJob → Option String
version_of frame job = elim (frame.firmware_version) [
  | none ↦ job.payload.version
  | some v ↦ some v
]

abbrev pub with_version : Option String → Gateway → Gateway
with_version none g = g
with_version (some v) g = if str_eq v "" then g else record g { firmware_version = some v }

abbrev pub acked : ℕ → OtaJob → OtaJob
acked now j = record j { status = ack; ack_at = some now; error = none }

-- What a positive ack says of the gateway.
unfoldable pub note_ack : JobType → AckFrame → OtaJob → Gateway → Gateway
note_ack firmware frame job g = with_version (version_of frame job) g
note_ack config frame job g = bump_config g

unfoldable pub settle_ack : Gateway → AckFrame → OtaJob → ℕ → Store → Store
settle_ack gw frame job now s =
    if is_ack_text frame.status
    then record s {
      jobs = set_job job.id (acked now) s.jobs;
      gateways = set_gateway gw.id (note_ack job.job_type frame job) s.gateways;
    }
    else fail_job job.id (error_of frame.error) s

abbrev pub is_expected : Gateway → OtaJob → Bool
is_expected gw job = job.gateway_id == gw.id && is_sent job.status

unfoldable pub handle_found : Gateway → AckFrame → Option OtaJob → ℕ → Store → Store
handle_found gw frame none now s = s
handle_found gw frame (some job) now s =
    if is_expected gw job then settle_ack gw frame job now s else s

unfoldable pub job_numbered : Option ℕ → List OtaJob → Option OtaJob
job_numbered none jobs = none
job_numbered (some id) jobs = find (λ j. j.id == id) jobs

-- `none` is a payload that is no JSON.
unfoldable pub handle_ota_ack : Gateway → Option AckFrame → ℕ → Store → Store
handle_ota_ack gw none now s = s
handle_ota_ack gw (some frame) now s =
    handle_found gw frame (job_numbered frame.job_id s.jobs) now s

unfoldable pub active_ota_jobs : ℕ → Store → ℕ
active_ota_jobs gateway_id s =
    length
      (filter (λ j. j.gateway_id == gateway_id && (is_pending j.status || is_sent j.status)) s.jobs)
