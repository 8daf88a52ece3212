-- ===== src/Ota/JobTests.antt =====
-- Runs of the job manager and of the rollout driver over three gateways (api/ota).
use gateway_monitoring_platf.Prelude.{
  ℕ, ◌*◌, ◌≡◌, ◌⊎◌, refl, String, none, some, Bool, true, List, [], ◌∷◌, ◌++◌, ltb, arith, find,
  ◌==◌,
}
use gateway_monitoring_platf.Ota.Rollout.{TargetStatus, pending, sent, ack}
use gateway_monitoring_platf.Ota.Jobs.{
  Payload, firmware, OtaJob, Gateway, Store, Links, delivered, AckFrame, frame_of, published,
  cancel, cancel_ota_job, dispatch_job, handle_ota_ack,
}
use gateway_monitoring_platf.Ota.Jobs.Tries.{AreBounded}
use gateway_monitoring_platf.Ota.Jobs.Bounds.{
  Call, sweep, create, cancel_job, ack_frame, perform_all, perform_all-AreBounded,
}
use gateway_monitoring_platf.Ota.Jobs.Acks.{Settles, handle_ota_ack-Settles, cancelled_lem}
use gateway_monitoring_platf.Ota.Driver.{Rollout, running, Release, TargetRow, Fleet, step_rollout}
use gateway_monitoring_platf.Ota.Driver.Safety.{SendsWave, step_rollout-SendsWave}

abbrev image : Payload
image = record {
  version = some "2.1";
  url = some "https://fw/2.1";
  sha256 = none;
  control_key = none;
  value = none;
  meter_id = none;
}

abbrev gateway : ℕ → String → Gateway
gateway id uid = record {
  id = id;
  uid = uid;
  transport = "mqtt";
  org_id = some 1;
  firmware_version = none;
  config_version = 0;
}

abbrev job : OtaJob
job = record {
  id = 4;
  gateway_id = 7;
  job_type = firmware;
  payload = image;
  status = pending;
  attempts = 0;
  created_by = none;
  org_id = some 1;
  sent_at = none;
  ack_at = none;
  error = none;
}

abbrev sent_job : OtaJob
sent_job = record job { status = sent; attempts = 1; sent_at = some 1000 }

abbrev store : List OtaJob → Store
store jobs = record {
  jobs = jobs;
  gateways = gateway 7 "gw7" ∷ gateway 8 "gw8" ∷ gateway 9 "gw9" ∷ [];
  meters = [];
  next_job_id = 5;
  frames = [];
}

abbrev links : Links
links = record {
  publish = λ s frame. delivered;
  configure = λ s meter key value. true;
  accepts = λ s gateway_id. true;
}

abbrev answer : AckFrame
answer = record {
  job_id = some 4;
  status = some "ack";
  error = none;
  firmware_version = some "2.1";
}

abbrev day : List Call
day =
    create 8 firmware image none 1000
    ∷ cancel_job 4
    ∷ sweep 70000
    ∷ sweep 140000
    ∷ sweep 210000
    ∷ ack_frame (gateway 7 "gw7") (some answer) 220000
    ∷ []

abbrev target : ℕ → ℕ → ℕ → TargetStatus → TargetRow
target id gateway_id batch status = record {
  id = id;
  rollout_id = 3;
  gateway_id = gateway_id;
  batch_index = batch;
  status = status;
  job_id = none;
  error = none;
}

abbrev rollout : Rollout
rollout = record {
  id = 3;
  release_id = 2;
  failure_threshold_pct = 20;
  status = running;
  halt_reason = none;
  created_by = none;
  finished_at = none;
}

abbrev release : Release
release = record { id = 2; version = "2.1"; url = "https://fw/2.1"; sha256 = none }

-- The canary has acknowledged, and the second wave waits.
abbrev fleet : Fleet
fleet = record {
  store = store (sent_job ∷ []);
  rollouts = rollout ∷ [];
  targets = target 1 7 0 ack ∷ target 2 8 1 pending ∷ target 3 9 1 pending ∷ [];
  releases = release ∷ [];
}

abbrev exceeds : ℕ → ℕ → ℕ → Bool
exceeds failed total threshold = ltb (threshold * total) (failed * 100)

perform_all-AreBounded_example : AreBounded (perform_all links day (store (job ∷ [])))
perform_all-AreBounded_example = perform_all-AreBounded links day (store (job ∷ [])) (record {
  each = ((refl, refl), tt);
  keyed = (tt, tt);
  numbered = (omega arith, tt);
  old_frames = tt;
})

handle_ota_ack-Settles_example :
    Settles
      (gateway 7 "gw7")
      (some answer)
      (sent_job ∷ [])
      (handle_ota_ack (gateway 7 "gw7") (some answer) 2000 (store (sent_job ∷ []))).jobs
handle_ota_ack-Settles_example =
    handle_ota_ack-Settles (gateway 7 "gw7") (some answer) 2000 (store (sent_job ∷ [])) (tt, tt)

cancelled_lem_example :
    let s' = dispatch_job links job 2000 (cancel_ota_job 4 (store (job ∷ []))).1 in
    ((cancel_ota_job 4 (store (job ∷ []))).0 ≡ true)
    × (find (λ j. j.id == 4) s'.jobs ≡ some (published job 2000 (cancel job)))
    × (s'.frames ≡ [] ++ frame_of (gateway 7 "gw7") job ∷ [])
cancelled_lem_example =
    cancelled_lem links job (gateway 7 "gw7") 2000 (store (job ∷ [])) refl refl refl refl refl

step_rollout-SendsWave_example :
    let f' = step_rollout exceeds links 3 2000 fleet in
    (f'.store ≡ fleet.store) ⊎ SendsWave exceeds links 2000 3 fleet f'
step_rollout-SendsWave_example = step_rollout-SendsWave exceeds links 2000 3 fleet
