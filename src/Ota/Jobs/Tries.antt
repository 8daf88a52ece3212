-- ===== src/Ota/Jobs/Tries.antt =====
-- How often a job has been tried, by its row and by the frames that left (api/ota/manager.ts), and
-- what the updates of rows keep of it.
use gateway_monitoring_platf.Prelude.{
  ℕ, ◌+◌, ◌≡◌, ◌≢◌, ◌<◌, ◌≤◌, refl, arith, List, [], ◌∷◌, ◌++◌, All, All-append, All-filter, filter,
  map, Bool, Bool-cases, inl, inr, ◌==◌, if◌then◌else◌, ap, total, total-append,
}
use gateway_monitoring_platf.Ota.Rollout.{TargetStatus, pending, sent, ack, failed}
use gateway_monitoring_platf.Ota.Jobs.{
  OtaJob, JobError, OtaFrame, Store, set_job, fail_job, failed_by,
}
use gateway_monitoring_platf.Ota.Jobs.Acks.{IsKeyed}

-- The frames of a job that the broker's client was handed.
abbrev pub frames_to : ℕ → List OtaFrame → ℕ
frames_to id frames = total (λ f. if f.job_id == id then 1 else 0) frames

-- A pending job has not been tried; of a job in flight at most as many frames have left as its row
-- counts attempts; and no job has more than three of either.
abbrev pub Fits : TargetStatus → ℕ → ℕ → Type 0
Fits pending attempts frames = (attempts ≡ 0) × (frames ≡ 0)
Fits sent attempts frames = (attempts ≤ 3) × (frames ≤ attempts)
Fits ack attempts frames = (attempts ≤ 3) × (frames ≤ 3)
Fits failed attempts frames = (attempts ≤ 3) × (frames ≤ 3)

abbrev pub IsBounded : List OtaFrame → OtaJob → Type 0
IsBounded frames j = Fits j.status j.attempts (frames_to j.id frames)

-- The tables: every job has been tried at most three times, and the numbers are a primary key that
-- counts up.
pub record Bounded (jobs : List OtaJob) (next : ℕ) (frames : List OtaFrame) : Type 0 where
  pub each : All (IsBounded frames) jobs
  pub keyed : IsKeyed jobs
  pub numbered : All (λ j. j.id < next) jobs
  pub old_frames : All (λ f. f.job_id < next) frames

abbrev pub AreBounded : Store → Type 0
AreBounded s = Bounded s.jobs s.next_job_id s.frames

pub Fits-most : (st : TargetStatus) (a n : ℕ) → Fits st a n → (a ≤ 3) × (n ≤ 3)
Fits-most pending a n h = (omega arith, omega arith)
Fits-most sent a n h = (omega arith, omega arith)
Fits-most ack a n h = h
Fits-most failed a n h = h

pub frames_to-append :
    (id : ℕ) (frames : List OtaFrame) (frame : OtaFrame)
    → frames_to id (frames ++ frame ∷ [])
      ≡ frames_to id frames + (if frame.job_id == id then 1 else 0)
frames_to-append id frames frame =
    omega (arith, total-append (λ f. if f.job_id == id then 1 else 0) frames (frame ∷ []))

-- Of a number that is not given yet no frame has left.
pub frames_to-new :
    (next : ℕ) (frames : List OtaFrame)
    → All (λ f. f.job_id < next) frames
    → frames_to next frames ≡ 0
frames_to-new next [] h = refl
frames_to-new next (f ∷ frames) h = ground (arith, h.0, frames_to-new next frames h.1)

All-each :
    (P : OtaJob → Type 0) (g : OtaJob → OtaJob) (jobs : List OtaJob)
    → ((j : OtaJob) → P j → P (g j))
    → All P jobs
    → All P (map g jobs)
All-each P g [] keep h = tt
All-each P g (j ∷ jobs) keep h = (keep j h.0, All-each P g jobs keep h.1)

All-change :
    (P Q : OtaJob → Type 0) (g : OtaJob → OtaJob) (jobs : List OtaJob)
    → ((j : OtaJob) → P j → Q (g j))
    → All P jobs
    → All Q (map g jobs)
All-change P Q g [] keep h = tt
All-change P Q g (j ∷ jobs) keep h = (keep j h.0, All-change P Q g jobs keep h.1)

module _ (g : OtaJob → OtaJob) (keeps : (j : OtaJob) → (g j).id ≡ j.id) where
  map-IsKeyed : (jobs : List OtaJob) → IsKeyed jobs → IsKeyed (map g jobs)
  map-IsKeyed [] h = tt
  map-IsKeyed (j ∷ jobs) h = (
    All-each (λ k. (g j).id ≢ k.id) g jobs (λ k e. rw (keeps k) e) (rw (keeps j) h.0),
    map-IsKeyed jobs h.1,
  )

  -- An update of rows that keeps their numbers, with the frames that are there afterwards.
  pub map-Bounded :
      (jobs : List OtaJob) (next : ℕ) (frames frames' : List OtaFrame)
      → ((j : OtaJob) → IsBounded frames j → IsBounded frames' (g j))
      → All (λ f. f.job_id < next) frames'
      → Bounded jobs next frames
      → Bounded (map g jobs) next frames'
  map-Bounded jobs next frames frames' fits old b = record {
    each = All-change (IsBounded frames) (IsBounded frames') g jobs fits b.each;
    keyed = map-IsKeyed jobs b.keyed;
    numbered = All-each (λ j. j.id < next) g jobs (λ j h. rw (keeps j) h) b.numbered;
    old_frames = old;
  }

set_job-map :
    (id : ℕ) (f : OtaJob → OtaJob) (jobs : List OtaJob)
    → set_job id f jobs ≡ map (λ j. if j.id == id then f j else j) jobs
unfolding set_job
set_job-map id f [] = refl
set_job-map id f (j ∷ jobs) = ap (λ l. (if j.id == id then f j else j) ∷ l) (set_job-map id f jobs)

-- The update of one row by its number.
pub set_job-Bounded :
    (id : ℕ) (f : OtaJob → OtaJob) (jobs : List OtaJob) (next : ℕ) (frames frames' : List OtaFrame)
    → ((j : OtaJob) → (f j).id ≡ j.id)
    → ((j : OtaJob) → j.id ≡ id → IsBounded frames j → IsBounded frames' (f j))
    → ((other : ℕ) → other ≢ id → frames_to other frames' ≡ frames_to other frames)
    → All (λ f. f.job_id < next) frames'
    → Bounded jobs next frames
    → Bounded (set_job id f jobs) next frames'
set_job-Bounded id f jobs next frames frames' keeps own others old b = rw (set_job-map id f jobs) (
    map-Bounded (λ j. if j.id == id then f j else j) (λ j. ground (arith, keeps j)) jobs next frames
      frames'
      (λ j h. elim (Bool-cases (j.id == id)) [
        | inl here ↦ rw here (own j (ground arith) h)
        | inr there ↦ rw (there, others j.id (ground arith)) h
      ])
      old b)

pub fail_job-AreBounded :
    (id : ℕ) (error : JobError) (s : Store) → AreBounded s → AreBounded (fail_job id error s)
unfolding fail_job
fail_job-AreBounded id error s b =
    set_job-Bounded id (failed_by error) s.jobs s.next_job_id s.frames s.frames (λ j. refl)
      (λ j e h. Fits-most j.status j.attempts (frames_to j.id s.frames) h) (λ other e. refl)
      b.old_frames b

pub filter-IsKeyed :
    (p : OtaJob → Bool) (jobs : List OtaJob) → IsKeyed jobs → IsKeyed (filter p jobs)
filter-IsKeyed p [] h = tt
filter-IsKeyed p (j ∷ jobs) h = elim (Bool-cases (p j)) [
  | inl hit ↦ rw hit (All-filter (λ k. j.id ≢ k.id) p jobs h.0, filter-IsKeyed p jobs h.1)
  | inr miss ↦ rw miss (filter-IsKeyed p jobs h.1)
]

pub append-IsKeyed :
    (jobs : List OtaJob) (job : OtaJob)
    → All (λ j. j.id < job.id) jobs
    → IsKeyed jobs
    → IsKeyed (jobs ++ job ∷ [])
append-IsKeyed [] job h k = (tt, tt)
append-IsKeyed (j ∷ jobs) job h k = (
  All-append (λ x. j.id ≢ x.id) jobs (job ∷ []) k.0 (omega (arith, h.0), tt),
  append-IsKeyed jobs job h.1 k.1,
)
