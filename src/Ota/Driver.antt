-- ===== src/Ota/Driver.antt =====
-- The part of a staged rollout that reads and writes its tables (api/ota/rollout-driver.ts). Row
-- numbers are primary keys, so a map of rows by number is a search.
pub mod Safety
use gateway_monitoring_platf.Prelude.{
  ℕ, String, Option, none, some, Bool, true, false, ◌&&◌, List, [], ◌∷◌, ◌==◌, if◌then◌else◌,
  filter, find, map, take,
}
use gateway_monitoring_platf.Ota.Rollout.{
  TargetStatus, pending, sent, ack, failed, is_sent, RolloutTarget, RolloutAction, HaltReason,
  dispatch, wait, halt, done, next_action,
}
use gateway_monitoring_platf.Ota.Jobs.{
  Links, Store, OtaJob, JobError, Payload, firmware, create_ota_job, sweep_jobs,
}

pub data RolloutStatus : Type 0 where
  draft running paused halted completed : RolloutStatus

abbrev pub is_running : RolloutStatus → Bool
is_running running = true
is_running _ = false

pub data StopReason : Type 0 where
  wave_failed : HaltReason → StopReason
  release_gone : StopReason

pub record Rollout : Type 0 where
  pub id : ℕ
  pub release_id : ℕ
  pub failure_threshold_pct : ℕ
  pub status : RolloutStatus
  pub halt_reason : Option StopReason
  pub created_by : Option ℕ
  pub finished_at : Option ℕ

pub record Release : Type 0 where
  pub id : ℕ
  pub version : String
  pub url : String
  pub sha256 : Option String

-- "job failed" where the job names no error.
pub data TargetError : Type 0 where
  job_failed : Option JobError → TargetError
  not_created : TargetError

pub record TargetRow : Type 0 where
  pub id : ℕ
  pub rollout_id : ℕ
  pub gateway_id : ℕ
  pub batch_index : ℕ
  pub status : TargetStatus
  pub job_id : Option ℕ
  pub error : Option TargetError

pub record Fleet : Type 0 where
  pub store : Store
  pub rollouts : List Rollout
  pub targets : List TargetRow
  pub releases : List Release

abbrev pub to_target : TargetRow → RolloutTarget
to_target r = record { gateway_id = r.gateway_id; batch_index = r.batch_index; status = r.status }

unfoldable pub load_targets : ℕ → List TargetRow → List RolloutTarget
load_targets rollout_id targets = map to_target (filter (λ t. t.rollout_id == rollout_id) targets)

-- update ... where, by the test of the where clause
unfoldable pub update_targets :
    (TargetRow → Bool) → (TargetRow → TargetRow) → List TargetRow → List TargetRow
update_targets p f [] = []
update_targets p f (t ∷ targets) = (if p t then f t else t) ∷ update_targets p f targets

unfoldable pub set_rollout : ℕ → (Rollout → Rollout) → List Rollout → List Rollout
set_rollout id f [] = []
set_rollout id f (r ∷ rollouts) = (if r.id == id then f r else r) ∷ set_rollout id f rollouts

abbrev pub with_ack : TargetRow → TargetRow
with_ack t = record t { status = ack }

abbrev pub with_failure : TargetError → TargetRow → TargetRow
with_failure e t = record t { status = failed; error = some e }

abbrev pub with_job : ℕ → TargetRow → TargetRow
with_job id t = record t { status = sent; job_id = some id }

-- What the state of its job says of a target in flight.
unfoldable pub mirror : ℕ → TargetStatus → Option JobError → List TargetRow → List TargetRow
mirror id ack error targets = update_targets (λ u. u.id == id) with_ack targets
mirror id failed error targets =
    update_targets (λ u. u.id == id) (with_failure (job_failed error)) targets
mirror id _ error targets = targets

abbrev pub job_of : Option ℕ → List OtaJob → Option OtaJob
job_of none jobs = none
job_of (some id) jobs = find (λ j. j.id == id) jobs

unfoldable pub sync_one : TargetRow → Option OtaJob → List TargetRow → List TargetRow
sync_one t none targets = targets
sync_one t (some job) targets = mirror t.id job.status job.error targets

unfoldable pub sync_all : List TargetRow → List OtaJob → List TargetRow → List TargetRow
sync_all [] jobs targets = targets
sync_all (t ∷ live) jobs targets = sync_all live jobs (sync_one t (job_of t.job_id jobs) targets)

unfoldable pub sync_target_statuses : ℕ → Fleet → Fleet
sync_target_statuses rollout_id f =
    let live = filter (λ t. t.rollout_id == rollout_id && is_sent t.status) f.targets in
    record f { targets = sync_all live f.store.jobs f.targets }

abbrev pub is_member : ℕ → ℕ → TargetRow → Bool
is_member rollout_id gateway_id t = t.rollout_id == rollout_id && t.gateway_id == gateway_id

abbrev pub payload_of : Release → Payload
payload_of release = record {
  version = some release.version;
  url = some release.url;
  sha256 = release.sha256;
  control_key = none;
  value = none;
  meter_id = none;
}

-- The row of a target once a job was asked for; without one the creation threw.
abbrev pub after_create : Option OtaJob → TargetRow → TargetRow
after_create none t = with_failure not_created t
after_create (some job) t = with_job job.id t

abbrev pub stopped : ℕ → StopReason → Rollout → Rollout
stopped now reason r = record r {
  status = halted;
  halt_reason = some reason;
  finished_at = some now;
}

abbrev pub finished : ℕ → Rollout → Rollout
finished now r = record r { status = completed; finished_at = some now }

module _ (exceeds : ℕ → ℕ → ℕ → Bool) (links : Links) where
  unfoldable pub dispatch_wave : Rollout → Release → List ℕ → ℕ → Fleet → Fleet
  dispatch_wave rollout release [] now f = f
  dispatch_wave rollout release (gateway_id ∷ ids) now f =
      let (job, store) =
        create_ota_job links gateway_id firmware (payload_of release) rollout.created_by now
          f.store in
      dispatch_wave rollout release ids now (record f {
        store = store;
        targets = update_targets (is_member rollout.id gateway_id) (after_create job) f.targets;
      })

  unfoldable pub halt_rollout : ℕ → StopReason → ℕ → Fleet → Fleet
  halt_rollout id reason now f = record f {
    rollouts = set_rollout id (stopped now reason) f.rollouts;
  }

  unfoldable pub send_wave : Rollout → Option Release → List ℕ → ℕ → Fleet → Fleet
  send_wave rollout none ids now f = halt_rollout rollout.id release_gone now f
  send_wave rollout (some release) ids now f = dispatch_wave rollout release ids now f

  unfoldable pub act : Rollout → RolloutAction → ℕ → Fleet → Fleet
  act rollout (wait b) now f = f
  act rollout (halt reason) now f = halt_rollout rollout.id (wave_failed reason) now f
  act rollout done now f = record f { rollouts = set_rollout rollout.id (finished now) f.rollouts }
  act rollout (dispatch b ids) now f =
      send_wave rollout (find (λ r. r.id == rollout.release_id) f.releases) ids now f

  unfoldable pub step_running : Rollout → ℕ → Fleet → Fleet
  step_running rollout now f =
      let f' = sync_target_statuses rollout.id f in
      act rollout
        (next_action exceeds (load_targets rollout.id f'.targets) rollout.failure_threshold_pct) now
        f'

  unfoldable pub step_found : Option Rollout → ℕ → Fleet → Fleet
  step_found none now f = f
  step_found (some rollout) now f =
      if is_running rollout.status then step_running rollout now f else f

  unfoldable pub step_rollout : ℕ → ℕ → Fleet → Fleet
  step_rollout id now f = step_found (find (λ r. r.id == id) f.rollouts) now f

  unfoldable pub step_all : List Rollout → ℕ → Fleet → Fleet
  step_all [] now f = f
  step_all (r ∷ rollouts) now f = step_all rollouts now (step_rollout r.id now f)

  unfoldable pub rollout_sweep : ℕ → Fleet → Fleet
  rollout_sweep now f = step_all (take 20 (filter (λ r. is_running r.status) f.rollouts)) now f

  -- otaSweep: the jobs first, then the rollouts.
  unfoldable pub ota_sweep : ℕ → Fleet → Fleet
  ota_sweep now f = rollout_sweep now (record f { store = sweep_jobs links now f.store })
