-- ===== src/Ota/Jobs/Tables.antt =====
-- The rows that the job manager keeps, its links to the outside, and the updates of single rows
-- (api/ota/manager.ts, and publishOtaCmd of api/mqtt/service.ts).
use gateway_monitoring_platf.Prelude.{
  ℕ, ◌+◌, ℤ, String, Option, none, some, Bool, true, false, ◌&&◌, List, [], ◌∷◌, ◌++◌, ltb, ◌==◌,
  if◌then◌else◌, find,
}
use gateway_monitoring_platf.Ota.Rollout.{TargetStatus, pending, sent, ack, failed, is_sent}

abbrev pub ack_timeout_ms : ℕ
ack_timeout_ms = 60000

abbrev pub max_attempts : ℕ
max_attempts = 3

pub data JobType : Type 0 where
  firmware config : JobType

-- The fields of the JSON payload; one of the wrong type is `none` where the code looks at the type.
pub record Payload : Type 0 where
  pub version : Option String
  pub url : Option String
  pub sha256 : Option String
  pub control_key : Option String
  pub value : Option ℤ
  pub meter_id : Option ℕ

pub data JobError : Type 0 where
  gateway_gone firmware_unsupported bad_payload no_meter config_failed : JobError
  publish_failed cancelled negative_ack : JobError
  ack_timeout : ℕ → JobError
  reported : String → JobError

pub record OtaJob : Type 0 where
  pub id : ℕ
  pub gateway_id : ℕ
  pub job_type : JobType
  pub payload : Payload
  pub status : TargetStatus
  pub attempts : ℕ
  pub created_by : Option ℕ
  pub org_id : Option ℕ
  pub sent_at : Option ℕ
  pub ack_at : Option ℕ
  pub error : Option JobError

pub record Gateway : Type 0 where
  pub id : ℕ
  pub uid : String
  pub transport : String
  pub org_id : Option ℕ
  pub firmware_version : Option String
  pub config_version : ℕ

pub record Meter : Type 0 where
  pub id : ℕ
  pub gateway_id : ℕ

-- What is published under g2d/<uid>/ota.
pub record OtaFrame : Type 0 where
  pub uid : String
  pub job_id : ℕ
  pub job_type : JobType
  pub payload : Payload

-- The tables, the next number of the jobs table, and what the broker's client was handed.
pub record Store : Type 0 where
  pub jobs : List OtaJob
  pub gateways : List Gateway
  pub meters : List Meter
  pub next_job_id : ℕ
  pub frames : List OtaFrame

pub data Publishing : Type 0 where
  not_running not_confirmed delivered : Publishing

-- What answers: the broker, executeAndLog (true where it returns) and the database on an insert.
pub record Links : Type 0 where
  pub publish : Store → OtaFrame → Publishing
  pub configure : Store → Meter → String → ℤ → Bool
  pub accepts : Store → ℕ → Bool

-- update ota_jobs set ... where id
unfoldable pub set_job : ℕ → (OtaJob → OtaJob) → List OtaJob → List OtaJob
set_job id f [] = []
set_job id f (j ∷ jobs) = (if j.id == id then f j else j) ∷ set_job id f jobs

unfoldable pub set_gateway : ℕ → (Gateway → Gateway) → List Gateway → List Gateway
set_gateway id f [] = []
set_gateway id f (g ∷ gateways) = (if g.id == id then f g else g) ∷ set_gateway id f gateways

abbrev pub failed_by : JobError → OtaJob → OtaJob
failed_by error j = record j { status = failed; error = some error }

unfoldable pub fail_job : ℕ → JobError → Store → Store
fail_job id error s = record s { jobs = set_job id (failed_by error) s.jobs }

abbrev pub is_firmware : JobType → Bool
is_firmware firmware = true
is_firmware config = false

abbrev pub find_gateway : ℕ → Store → Option Gateway
find_gateway id s = find (λ g. g.id == id) s.gateways

abbrev pub bump_config : Gateway → Gateway
bump_config g = record g { config_version = g.config_version + 1 }

abbrev pub is_meter : Option ℕ → ℕ → Meter → Bool
is_meter none gateway_id m = m.gateway_id == gateway_id
is_meter (some id) gateway_id m = m.id == id && m.gateway_id == gateway_id

-- The update of a job whose configuration has been written.
abbrev pub applied : OtaJob → ℕ → OtaJob → OtaJob
applied job now j = record j {
  status = ack;
  ack_at = some now;
  attempts = job.attempts + 1;
  sent_at = some now;
  error = none;
}

-- The update of a job whose frame has been published.
abbrev pub published : OtaJob → ℕ → OtaJob → OtaJob
published job now j = record j {
  status = sent;
  sent_at = some now;
  attempts = job.attempts + 1;
  error = none;
}

abbrev pub frame_of : Gateway → OtaJob → OtaFrame
frame_of gw job = record {
  uid = gw.uid;
  job_id = job.id;
  job_type = job.job_type;
  payload = job.payload;
}

-- publishOtaCmd: whether it returned, and the store. A publish that is not confirmed has left.
unfoldable pub publish_ota_cmd : Publishing → OtaFrame → Store → Bool × Store
publish_ota_cmd not_running frame s = (false, s)
publish_ota_cmd not_confirmed frame s = (false, record s { frames = s.frames ++ frame ∷ [] })
publish_ota_cmd delivered frame s = (true, record s { frames = s.frames ++ frame ∷ [] })

-- status = 'sent' and sent_at < now - ACK_TIMEOUT_MS
abbrev pub is_timed_out : ℕ → OtaJob → Bool
is_timed_out now j =
    is_sent j.status && elim (j.sent_at) [ none ↦ false | some at ↦ ltb (at + ack_timeout_ms) now ]

abbrev pub org_of_gateway : Option Gateway → Option ℕ
org_of_gateway none = none
org_of_gateway (some g) = g.org_id

-- The row of an insert, with the defaults of the table.
abbrev pub new_job : Store → ℕ → JobType → Payload → Option ℕ → OtaJob
new_job s gateway_id job_type payload created_by = record {
  id = s.next_job_id;
  gateway_id = gateway_id;
  job_type = job_type;
  payload = payload;
  status = pending;
  attempts = 0;
  created_by = created_by;
  org_id = org_of_gateway (find_gateway gateway_id s);
  sent_at = none;
  ack_at = none;
  error = none;
}

abbrev pub cancel : OtaJob → OtaJob
cancel j = record j { status = failed; error = some cancelled }
