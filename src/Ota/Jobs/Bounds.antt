-- ===== src/Ota/Jobs/Bounds.antt =====
-- How often a job is tried (api/ota/manager.ts), over any sequence of calls.
use gateway_monitoring_platf.Prelude.{
  ℕ, ◌+◌, ◌≡◌, ◌≢◌, ◌<◌, ◌≤◌, Bool, sym, Option, none, some, true, arith, List, [], ◌∷◌, ◌++◌, All,
  All-map, All-append, All-filter_test, All-filter, All-zip, filter, leb, Bool-cases, inl, inr,
  if◌then◌else◌, refl,
}
use gateway_monitoring_platf.Ota.Rollout.{
  TargetStatus, pending, sent, ack, failed, is_pending, is_sent,
}
use gateway_monitoring_platf.Ota.Jobs.Acks.{IsKeyed}
use gateway_monitoring_platf.Ota.Jobs.Tries.{
  frames_to, Fits, IsBounded, AreBounded, Fits-most, frames_to-new, map-Bounded, set_job-Bounded,
  fail_job-AreBounded, filter-IsKeyed, append-IsKeyed,
}
use gateway_monitoring_platf.Ota.Jobs.{
  OtaJob, JobType, Payload, Gateway, Links, Store, AckFrame, max_attempts, fail_job, dispatch_job,
  dispatch_all, retry_all, sweep_jobs, create_ota_job, cancel_ota_job, settle_ack, handle_found,
  job_numbered, handle_ota_ack, is_timed_out, is_cancellable, cancel, new_job, ack_timeout,
  is_expected, acked, error_of, is_ack_text,
}
use gateway_monitoring_platf.Ota.Jobs.Sending.{
  IsReady, Dispatched, dispatch_job-Dispatched, still-IsReady,
}

-- What a sweep reads of a job that has timed out.
abbrev IsTried : Store → OtaJob → Type 0
IsTried s job =
    (job.attempts ≤ 3) × (frames_to job.id s.frames ≤ job.attempts) × (job.id < s.next_job_id)

module _ (links : Links) (now : ℕ) where
  dispatch_all-AreBounded :
      (jobs : List OtaJob) (s : Store)
      → IsKeyed jobs
      → All (IsReady s) jobs
      → AreBounded s
      → AreBounded (dispatch_all links jobs now s)
  unfolding dispatch_all
  dispatch_all-AreBounded [] s keyed ready b = b
  dispatch_all-AreBounded (job ∷ jobs) s keyed ready b =
      let d = dispatch_job-Dispatched links job now s ready.0 b in
      dispatch_all-AreBounded jobs (dispatch_job links job now s) keyed.1
        (All-map
          (λ k (h : (job.id ≢ k.id) × IsReady s k).
            still-IsReady job k s (dispatch_job links job now s) d h.0 h.1)
          jobs (All-zip (λ k. job.id ≢ k.id) (IsReady s) jobs keyed.0 ready.1))
        d.bounded

  retry_one-Dispatched :
      (job : OtaJob) (s : Store)
      → IsTried s job
      → AreBounded s
      → Dispatched job s (
          if leb max_attempts job.attempts
          then fail_job job.id (ack_timeout job.attempts) s
          else dispatch_job links job now s)
  unfolding fail_job
  retry_one-Dispatched job s tried b = elim (Bool-cases (leb max_attempts job.attempts)) [
    | inl over ↦ rw over (record {
      bounded = fail_job-AreBounded job.id (ack_timeout job.attempts) s b;
      next = refl;
      others = λ id e. refl;
    })
    | inr again ↦
        rw again (dispatch_job-Dispatched links job now s (ground arith, tried.1, tried.2) b)
  ]

  still-IsTried :
      (job k : OtaJob) (s s' : Store)
      → Dispatched job s s'
      → job.id ≢ k.id
      → IsTried s k
      → IsTried s' k
  still-IsTried job k s s' d apart tried =
      (tried.0, rw (d.others k.id (λ e. apart (sym e))) tried.1, rw d.next tried.2)

  retry_all-AreBounded :
      (jobs : List OtaJob) (s : Store)
      → IsKeyed jobs
      → All (IsTried s) jobs
      → AreBounded s
      → AreBounded (retry_all links jobs now s)
  unfolding retry_all
  retry_all-AreBounded [] s keyed tried b = b
  retry_all-AreBounded (job ∷ jobs) s keyed tried b =
      let d = retry_one-Dispatched job s tried.0 b in
      retry_all-AreBounded jobs _ keyed.1
        (All-map (λ k (h : (job.id ≢ k.id) × IsTried s k). still-IsTried job k s _ d h.0 h.1) jobs
          (All-zip (λ k. job.id ≢ k.id) (IsTried s) jobs keyed.0 tried.1))
        d.bounded

  pending_lem :
      (st : TargetStatus) (a n : ℕ) → is_pending st ≡ true → Fits st a n → (a < 3) × (n ≤ a)
  pending_lem pending a n e h = (omega (arith, h.0), omega (arith, h.1))
  pending_lem sent a n e h = absurd (cc)
  pending_lem ack a n e h = absurd (cc)
  pending_lem failed a n e h = absurd (cc)

  sent_lem : (st : TargetStatus) (a n : ℕ) → is_sent st ≡ true → Fits st a n → (a ≤ 3) × (n ≤ a)
  sent_lem pending a n e h = absurd (cc)
  sent_lem sent a n e h = h
  sent_lem ack a n e h = absurd (cc)
  sent_lem failed a n e h = absurd (cc)

  -- The rows that a test selects, with what holds of them.
  chosen_lem :
      (p : OtaJob → Bool) (P : OtaJob → Type 0) (s : Store)
      → ((j : OtaJob) → p j ≡ true → IsBounded s.frames j → j.id < s.next_job_id → P j)
      → AreBounded s
      → All P (filter p s.jobs)
  chosen_lem p P s make b =
      All-map
        (λ j (h : (p j ≡ true) × (IsBounded s.frames j × (j.id < s.next_job_id))).
          make j h.0 h.1.0 h.1.1)
        (filter p s.jobs)
        (All-zip (λ j. p j ≡ true) (λ j. IsBounded s.frames j × (j.id < s.next_job_id))
          (filter p s.jobs) (All-filter_test p s.jobs)
          (All-filter (λ j. IsBounded s.frames j × (j.id < s.next_job_id)) p s.jobs
            (All-zip (IsBounded s.frames) (λ j. j.id < s.next_job_id) s.jobs b.each b.numbered)))

  sweep_jobs-AreBounded : (s : Store) → AreBounded s → AreBounded (sweep_jobs links now s)
  unfolding sweep_jobs
  sweep_jobs-AreBounded s b =
      let is_waiting = λ (j : OtaJob). is_pending j.status in
      let s' = dispatch_all links (filter is_waiting s.jobs) now s in
      let b' =
        dispatch_all-AreBounded (filter is_waiting s.jobs) s
          (filter-IsKeyed is_waiting s.jobs b.keyed)
          (chosen_lem is_waiting (IsReady s) s
            (λ j e h k.
              let w = pending_lem j.status j.attempts (frames_to j.id s.frames) e h in
              (w.0, w.1, k))
            b)
          b in
      retry_all-AreBounded (filter (is_timed_out now) s'.jobs) s'
        (filter-IsKeyed (is_timed_out now) s'.jobs b'.keyed)
        (chosen_lem (is_timed_out now) (IsTried s') s'
          (λ j e h k.
            let w = sent_lem j.status j.attempts (frames_to j.id s'.frames) (ground arith) h in
            (w.0, w.1, k))
          b')
        b'

  create_ota_job-AreBounded :
      (gateway_id : ℕ) (job_type : JobType) (payload : Payload) (created_by : Option ℕ) (s : Store)
      → AreBounded s
      → AreBounded (create_ota_job links gateway_id job_type payload created_by now s).1
  unfolding create_ota_job
  create_ota_job-AreBounded gateway_id job_type payload created_by s b =
      let job = new_job s gateway_id job_type payload created_by in
      let inserted = record s { jobs = s.jobs ++ job ∷ []; next_job_id = s.next_job_id + 1 } in
      let fresh : frames_to s.next_job_id s.frames ≡ 0 =
        frames_to-new s.next_job_id s.frames b.old_frames in
      elim (Bool-cases (links.accepts s gateway_id)) [
        | inl ok ↦ rw ok (
            (dispatch_job-Dispatched links job now inserted
              (omega arith, omega (arith, fresh), omega arith)
              (record {
                each = All-append (IsBounded s.frames) s.jobs (job ∷ []) b.each ((refl, fresh), tt);
                keyed = append-IsKeyed s.jobs job b.numbered b.keyed;
                numbered =
                    All-append (λ j. j.id < s.next_job_id + 1) s.jobs (job ∷ [])
                      (All-map (λ j h. omega (arith, h)) s.jobs b.numbered) (omega arith, tt);
                old_frames = All-map (λ f h. omega (arith, h)) s.frames b.old_frames;
              })).bounded)
        | inr refused ↦ rw refused b
      ]

cancel_ota_job-AreBounded : (id : ℕ) (s : Store) → AreBounded s → AreBounded (cancel_ota_job id s).1
unfolding cancel_ota_job
cancel_ota_job-AreBounded id s b =
    map-Bounded (λ j. if is_cancellable id j then cancel j else j) (λ j. ground arith) s.jobs
      s.next_job_id s.frames s.frames
      (λ j h. elim (Bool-cases (is_cancellable id j)) [
        | inl hit ↦ rw hit (Fits-most j.status j.attempts (frames_to j.id s.frames) h)
        | inr miss ↦ rw miss h
      ])
      b.old_frames b

settle_ack-AreBounded :
    (gw : Gateway) (frame : AckFrame) (job : OtaJob) (now : ℕ) (s : Store)
    → AreBounded s
    → AreBounded (settle_ack gw frame job now s)
unfolding settle_ack
settle_ack-AreBounded gw frame job now s b = elim (Bool-cases (is_ack_text frame.status)) [
  | inl positive ↦ rw positive (
      set_job-Bounded job.id (acked now) s.jobs s.next_job_id s.frames s.frames (λ j. refl)
        (λ j e h. Fits-most j.status j.attempts (frames_to j.id s.frames) h) (λ other e. refl)
        b.old_frames b)
  | inr negative ↦ rw negative (fail_job-AreBounded job.id (error_of frame.error) s b)
]

handle_found-AreBounded :
    (gw : Gateway) (frame : AckFrame) (found : Option OtaJob) (now : ℕ) (s : Store)
    → AreBounded s
    → AreBounded (handle_found gw frame found now s)
unfolding handle_found
handle_found-AreBounded gw frame none now s h = h
handle_found-AreBounded gw frame (some job) now s h = elim (Bool-cases (is_expected gw job)) [
  | inl expected ↦ rw expected (settle_ack-AreBounded gw frame job now s h)
  | inr other ↦ rw other h
]

handle_ota_ack-AreBounded :
    (gw : Gateway) (frame : Option AckFrame) (now : ℕ) (s : Store)
    → AreBounded s
    → AreBounded (handle_ota_ack gw frame now s)
unfolding handle_ota_ack
handle_ota_ack-AreBounded gw none now s h = h
handle_ota_ack-AreBounded gw (some frame) now s h =
    handle_found-AreBounded gw frame (job_numbered frame.job_id s.jobs) now s h

-- A call of the manager; the sweep and the clock come with a time.
pub data Call : Type 0 where
  sweep : ℕ → Call
  create : ℕ → JobType → Payload → Option ℕ → ℕ → Call
  cancel_job : ℕ → Call
  ack_frame : Gateway → Option AckFrame → ℕ → Call

unfoldable pub perform : Links → Call → Store → Store
perform links (sweep now) s = sweep_jobs links now s
perform links (create gateway_id job_type payload created_by now) s =
    (create_ota_job links gateway_id job_type payload created_by now s).1
perform links (cancel_job id) s = (cancel_ota_job id s).1
perform links (ack_frame gw frame now) s = handle_ota_ack gw frame now s

unfoldable pub perform_all : Links → List Call → Store → Store
perform_all links [] s = s
perform_all links (c ∷ calls) s = perform_all links calls (perform links c s)

perform-AreBounded :
    (links : Links) (c : Call) (s : Store) → AreBounded s → AreBounded (perform links c s)
unfolding perform
perform-AreBounded links (sweep now) s h = sweep_jobs-AreBounded links now s h
perform-AreBounded links (create gateway_id job_type payload created_by now) s h =
    create_ota_job-AreBounded links now gateway_id job_type payload created_by s h
perform-AreBounded links (cancel_job id) s h = cancel_ota_job-AreBounded id s h
perform-AreBounded links (ack_frame gw frame now) s h = handle_ota_ack-AreBounded gw frame now s h

-- Whatever sequence of sweeps, creations, cancellations and acks runs, and whatever the broker, the
-- devices and the database answer: no more than three frames of a job ever leave, nor does its row
-- count more than three attempts; of a job in flight no more frames have left than its row counts, and
-- of a pending job none has. It must hold of the tables at the start, with different job numbers that
-- are below the next number, as are those of the frames.
pub perform_all-AreBounded :
    (links : Links) (calls : List Call) (s : Store)
    → AreBounded s
    → AreBounded (perform_all links calls s)
unfolding perform_all
perform_all-AreBounded links [] s h = h
perform_all-AreBounded links (c ∷ calls) s h =
    perform_all-AreBounded links calls (perform links c s) (perform-AreBounded links c s h)
