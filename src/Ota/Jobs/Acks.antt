-- ===== src/Ota/Jobs/Acks.antt =====
-- What an ack and a cancellation do to the jobs (api/ota/manager.ts).
use mathlib.Core.Path.{subst}
use gateway_monitoring_platf.Prelude.{
  ℕ, ◌≡◌, ◌≢◌, inl, inr, refl, sym, ap, Option, none, some, true, false, arith, List, [], ◌∷◌, ◌++◌,
  All, IsOrdered, find, map, Bool-cases, ◌==◌, if◌then◌else◌, str_eq, is_some,
}
use gateway_monitoring_platf.Ota.Rollout.{
  TargetStatus, pending, sent, ack, failed, is_pending, is_sent,
}
use gateway_monitoring_platf.Ota.Jobs.{
  OtaJob, Gateway, Links, Store, AckFrame, delivered, set_job, fail_job, publish_ota_cmd,
  after_publish, dispatch_mqtt, dispatch_via, dispatch_job, cancel_ota_job, settle_ack,
  handle_found, job_numbered, handle_ota_ack, find_gateway, is_cancellable, cancel, frame_of,
  is_expected, acked, error_of, is_ack_text, published, failed_by,
}

-- The number is the primary key of the table.
abbrev pub IsKeyed : List OtaJob → Type 0
IsKeyed jobs = IsOrdered (λ a b. a.id ≢ b.id) jobs

-- An update changes one row, `j`, to `k`.
pub record Changes (jobs jobs' : List OtaJob) (j k : OtaJob) : Type 0 where
  pub before : List OtaJob
  pub after : List OtaJob
  pub was : jobs ≡ before ++ j ∷ after
  pub now_is : jobs' ≡ before ++ k ∷ after

absent_lem :
    (id : ℕ) (f : OtaJob → OtaJob) (jobs : List OtaJob)
    → All (λ j. id ≢ j.id) jobs
    → set_job id f jobs ≡ jobs
unfolding set_job
absent_lem id f [] h = refl
absent_lem id f (j ∷ jobs) h =
    let other : (j.id == id) ≡ false = ground (arith, h.0) in
    rw (other, absent_lem id f jobs h.1) refl

-- An update by the number of a row that was found touches that row alone.
set_job-Changes :
    (id : ℕ) (f : OtaJob → OtaJob) (jobs : List OtaJob) (job : OtaJob)
    → IsKeyed jobs
    → find (λ j. j.id == id) jobs ≡ some job
    → Changes jobs (set_job id f jobs) job (f job)
unfolding set_job
set_job-Changes id f [] job keyed found = absurd (cc)
set_job-Changes id f (j ∷ jobs) job keyed found = elim (Bool-cases (j.id == id)) [
  | inl here ↦
      let e : some j ≡ some job = rw here at found in
      let is_job : j ≡ job = cc in
      let number : j.id ≡ id = ground arith in
      record {
        before = [];
        after = jobs;
        was = rw is_job refl;
        now_is = rw (here, is_job, absent_lem id f jobs (rw number at keyed.0)) refl;
      }
  | inr there ↦
      let rest = set_job-Changes id f jobs job keyed.1 (rw there at found) in
      record {
        before = j ∷ rest.before;
        after = rest.after;
        was = ap (λ l. j ∷ l) rest.was;
        now_is = rw there (ap (λ l. j ∷ l) rest.now_is);
      }
]

find_id :
    (id : ℕ) (jobs : List OtaJob) (job : OtaJob)
    → find (λ j. j.id == id) jobs ≡ some job
    → job.id ≡ id
find_id id [] job h = absurd (cc)
find_id id (j ∷ jobs) job h = elim (Bool-cases (j.id == id)) [
  | inl here ↦
      let e : some j ≡ some job = rw here at h in let number : j.id ≡ id = ground arith in cc
  | inr there ↦ find_id id jobs job (rw there at h)
]

sent_lem : (s : TargetStatus) → is_sent s ≡ true → s ≡ sent
sent_lem s h = ground arith

-- What a frame from a gateway may do to the jobs: nothing, or settle the one job that it names, which
-- is a job of the gateway and in flight.
pub data Settles (gw : Gateway) (frame : Option AckFrame) (jobs jobs' : List OtaJob) : Type 0 where
  untouched : jobs' ≡ jobs → Settles gw frame jobs jobs'
  settled :
      {f : AckFrame} {j k : OtaJob}
      → frame ≡ some f
      → f.job_id ≡ some j.id
      → j.gateway_id ≡ gw.id
      → j.status ≡ sent
      → Changes jobs jobs' j k
      → k.status ≡ (if is_ack_text f.status then ack else failed)
      → k.id ≡ j.id
      → k.attempts ≡ j.attempts
      → Settles gw frame jobs jobs'

module _ (gw : Gateway) (frame : AckFrame) (now : ℕ) (s : Store) (keyed : IsKeyed s.jobs) where
  settle_ack-Settles :
      (id : ℕ) (job : OtaJob)
      → frame.job_id ≡ some id
      → find (λ j. j.id == id) s.jobs ≡ some job
      → is_expected gw job ≡ true
      → Settles gw (some frame) s.jobs (settle_ack gw frame job now s).jobs
  unfolding settle_ack fail_job
  settle_ack-Settles id job names found expected =
      let number : job.id ≡ id = find_id id s.jobs job found in
      let by_number : find (λ j. j.id == job.id) s.jobs ≡ some job =
        subst (λ n. find (λ j. j.id == n) s.jobs ≡ some job) (sym number) found in
      let named : frame.job_id ≡ some job.id = rw number names in
      let own : job.gateway_id ≡ gw.id = ground arith in
      let in_flight : job.status ≡ sent = sent_lem job.status (ground arith) in
      elim (Bool-cases (is_ack_text frame.status)) [
        | inl positive ↦ rw positive (
            settled refl named own in_flight
              (set_job-Changes job.id (acked now) s.jobs job keyed by_number) (rw positive refl)
              refl refl)
        | inr negative ↦ rw negative (
            settled refl named own in_flight
              (set_job-Changes job.id (failed_by (error_of frame.error)) s.jobs job keyed by_number)
              (rw negative refl) refl refl)
      ]

  handle_found-Settles :
      (id : ℕ) (found : Option OtaJob)
      → frame.job_id ≡ some id
      → find (λ j. j.id == id) s.jobs ≡ found
      → Settles gw (some frame) s.jobs (handle_found gw frame found now s).jobs
  unfolding handle_found
  handle_found-Settles id none names e = untouched refl
  handle_found-Settles id (some job) names e = elim (Bool-cases (is_expected gw job)) [
    | inl expected ↦ rw expected (settle_ack-Settles id job names e expected)
    | inr other ↦ rw other (untouched refl)
  ]

  job_numbered-Settles :
      (id : Option ℕ)
      → frame.job_id ≡ id
      → Settles gw (some frame) s.jobs (handle_found gw frame (job_numbered id s.jobs) now s).jobs
  unfolding job_numbered handle_found
  job_numbered-Settles none names = untouched refl
  job_numbered-Settles (some id) names =
      handle_found-Settles id (find (λ j. j.id == id) s.jobs) names refl

-- A frame on the ack topic of a gateway leaves all jobs as they are, or changes one row: that of the
-- job whose number the frame names, if it is a job of that gateway and in flight. The job is then
-- acknowledged where the frame says "ack" and failed otherwise, with the same number and attempts.
pub handle_ota_ack-Settles :
    (gw : Gateway) (frame : Option AckFrame) (now : ℕ) (s : Store)
    → IsKeyed s.jobs
    → Settles gw frame s.jobs (handle_ota_ack gw frame now s).jobs
unfolding handle_ota_ack
handle_ota_ack-Settles gw none now s keyed = untouched refl
handle_ota_ack-Settles gw (some frame) now s keyed =
    job_numbered-Settles gw frame now s keyed frame.job_id refl

find-set_job :
    (id : ℕ) (f : OtaJob → OtaJob) (jobs : List OtaJob) (job : OtaJob)
    → ((j : OtaJob) → (f j).id ≡ j.id)
    → find (λ j. j.id == id) jobs ≡ some job
    → find (λ j. j.id == id) (set_job id f jobs) ≡ some (f job)
unfolding set_job
find-set_job id f [] job keeps h = absurd (cc)
find-set_job id f (j ∷ jobs) job keeps h = elim (Bool-cases (j.id == id)) [
  | inl here ↦
      let e : some j ≡ some job = rw here at h in
      let is_job : j ≡ job = cc in
      let kept : ((f j).id == id) ≡ true = ground (arith, keeps j) in
      rw (here, kept) (ap (λ k. some (f k)) is_job)
  | inr there ↦ rw (there, there) (find-set_job id f jobs job keeps (rw there at h))
]

find-cancel :
    (id : ℕ) (jobs : List OtaJob) (job : OtaJob)
    → job.status ≡ pending
    → find (λ j. j.id == id) jobs ≡ some job
    → (find (λ j. j.id == id) (map (λ j. if is_cancellable id j then cancel j else j) jobs)
        ≡ some (cancel job))
      × (is_some (find (is_cancellable id) jobs) ≡ true)
find-cancel id [] job waiting h = absurd (cc)
find-cancel id (j ∷ jobs) job waiting h = elim (Bool-cases (j.id == id)) [
  | inl here ↦
      let e : some j ≡ some job = rw here at h in
      let is_job : j ≡ job = cc in
      let open_job : is_pending j.status ≡ true = rw (is_job, waiting) refl in
      (rw (here, open_job, here, is_job) refl, rw (here, open_job) refl)
  | inr there ↦
      let rest = find-cancel id jobs job waiting (rw there at h) in
      (rw (there, there) rest.0, rw there rest.1)
]

-- A cancellation that comes between the moment at which a sweep reads a pending job and the moment
-- at which it dispatches it answers that it has succeeded, and the job is sent all the same: if the
-- gateway is reached by MQTT and the frame is published, the row says sent and the frame has left.
pub cancelled_lem :
    (links : Links) (job : OtaJob) (gw : Gateway) (now : ℕ) (s : Store)
    → find (λ j. j.id == job.id) s.jobs ≡ some job
    → job.status ≡ pending
    → find_gateway job.gateway_id s ≡ some gw
    → str_eq gw.transport "tcp" ≡ false
    → links.publish (cancel_ota_job job.id s).1 (frame_of gw job) ≡ delivered
    → let s' = dispatch_job links job now (cancel_ota_job job.id s).1 in
      ((cancel_ota_job job.id s).0 ≡ true)
      × (find (λ j. j.id == job.id) s'.jobs ≡ some (published job now (cancel job)))
      × (s'.frames ≡ s.frames ++ frame_of gw job ∷ [])
unfolding dispatch_job dispatch_via dispatch_mqtt after_publish publish_ota_cmd cancel_ota_job
cancelled_lem links job gw now s found waiting reached mqtt done =
    let (row, affected) = find-cancel job.id s.jobs job waiting found in
    (
      affected,
      rw (reached, mqtt, done)
          (find-set_job job.id (published job now) _ (cancel job) (λ j. refl) row),
      rw (reached, mqtt, done) refl,
    )
