-- ===== src/Ota/Jobs/Sending.antt =====
-- What the dispatch of one job keeps of the bound on its tries (api/ota/manager.ts).
use gateway_monitoring_platf.Prelude.{
  ℕ, ◌+◌, ◌≡◌, ◌≢◌, ◌<◌, ◌≤◌, sym, String, Option, none, some, arith, [], ◌∷◌, ◌++◌, All,
  All-append, Bool-cases, inl, inr, ℤ, str_eq, refl,
}
use gateway_monitoring_platf.Ota.Jobs.Tries.{
  frames_to, Bounded, AreBounded, Fits-most, frames_to-append, set_job-Bounded, fail_job-AreBounded,
}
use gateway_monitoring_platf.Ota.Jobs.{
  OtaJob, JobError, OtaFrame, Gateway, Meter, Links, Store, Publishing, not_running, not_confirmed,
  delivered, set_job, fail_job, publish_ota_cmd, write_config, apply_fields, apply_tcp_config,
  after_publish, dispatch_mqtt, dispatch_via, dispatch_job, find_gateway, is_firmware, frame_of,
  applied, published, failed_by, gateway_gone, firmware_unsupported, bad_payload, no_meter,
  config_failed, publish_failed,
}

-- A job that may be dispatched, by its row as it was read.
abbrev pub IsReady : Store → OtaJob → Type 0
IsReady s job =
    (job.attempts < 3) × (frames_to job.id s.frames ≤ job.attempts) × (job.id < s.next_job_id)

-- What the dispatch of a job keeps.
pub record Dispatched (job : OtaJob) (s s' : Store) : Type 0 where
  pub bounded : AreBounded s'
  pub next : s'.next_job_id ≡ s.next_job_id
  pub others : (id : ℕ) → id ≢ job.id → frames_to id s'.frames ≡ frames_to id s.frames

module _ (links : Links) (job : OtaJob) (now : ℕ) (s : Store) (ready : IsReady s job)
    (b : AreBounded s) where
  failed-Dispatched : (error : JobError) → Dispatched job s (fail_job job.id error s)
  unfolding fail_job
  failed-Dispatched error = record {
    bounded = fail_job-AreBounded job.id error s b;
    next = refl;
    others = λ id e. refl;
  }

  applied-Bounded : Bounded (set_job job.id (applied job now) s.jobs) s.next_job_id s.frames
  applied-Bounded =
      set_job-Bounded job.id (applied job now) s.jobs s.next_job_id s.frames s.frames (λ j. refl)
        (λ j e h.
          (omega (arith, ready.0), (Fits-most j.status j.attempts (frames_to j.id s.frames) h).1))
        (λ other e. refl) b.old_frames b

  module _ (frame : OtaFrame) (own : frame.job_id ≡ job.id) where
    others_lem :
        (id : ℕ) → id ≢ job.id → frames_to id (s.frames ++ frame ∷ []) ≡ frames_to id s.frames
    others_lem id e = ground (arith, frames_to-append id s.frames frame, own)

    own_lem : (id : ℕ) → id ≡ job.id → frames_to id (s.frames ++ frame ∷ []) ≤ job.attempts + 1
    own_lem id e = rw e (ground (arith, frames_to-append job.id s.frames frame, own, ready.1))

    old_lem : All (λ f. f.job_id < s.next_job_id) (s.frames ++ frame ∷ [])
    old_lem =
        All-append (λ f. f.job_id < s.next_job_id) s.frames (frame ∷ []) b.old_frames
          (rw own ready.2, tt)

    lost-Bounded :
        (error : JobError)
        → Bounded (set_job job.id (failed_by error) s.jobs) s.next_job_id (s.frames ++ frame ∷ [])
    lost-Bounded error =
        set_job-Bounded job.id (failed_by error) s.jobs s.next_job_id s.frames
          (s.frames ++ frame ∷ []) (λ j. refl)
          (λ j e h. (
            (Fits-most j.status j.attempts (frames_to j.id s.frames) h).0,
            omega (arith, own_lem j.id e, ready.0),
          ))
          (λ other e. others_lem other e) old_lem b

    published-Bounded :
        Bounded (set_job job.id (published job now) s.jobs) s.next_job_id (s.frames ++ frame ∷ [])
    published-Bounded =
        set_job-Bounded job.id (published job now) s.jobs s.next_job_id s.frames
          (s.frames ++ frame ∷ []) (λ j. refl) (λ j e h. (omega (arith, ready.0), own_lem j.id e))
          (λ other e. others_lem other e) old_lem b

    publish-Dispatched :
        (p : Publishing) → Dispatched job s (after_publish job now (publish_ota_cmd p frame s))
    unfolding after_publish publish_ota_cmd fail_job
    publish-Dispatched not_running = failed-Dispatched publish_failed
    publish-Dispatched not_confirmed = record {
      bounded = lost-Bounded publish_failed;
      next = refl;
      others = others_lem;
    }
    publish-Dispatched delivered = record {
      bounded = published-Bounded;
      next = refl;
      others = others_lem;
    }

  write_config-Dispatched :
      (gw : Gateway) (meter : Option Meter) (key : String) (value : ℤ)
      → Dispatched job s (write_config links gw job meter key value now s)
  unfolding write_config
  write_config-Dispatched gw none key value = failed-Dispatched no_meter
  write_config-Dispatched gw (some meter) key value =
      elim (Bool-cases (links.configure s meter key value)) [
        | inl ok ↦ rw ok (record { bounded = applied-Bounded; next = refl; others = λ id e. refl })
        | inr refused ↦ rw refused (failed-Dispatched config_failed)
      ]

  apply_fields-Dispatched :
      (gw : Gateway) (key : Option String) (value : Option ℤ)
      → Dispatched job s (apply_fields links gw job key value now s)
  unfolding apply_fields
  apply_fields-Dispatched gw (some key) (some value) = write_config-Dispatched gw _ key value
  apply_fields-Dispatched gw none value = failed-Dispatched bad_payload
  apply_fields-Dispatched gw (some key) none = failed-Dispatched bad_payload

  dispatch_via-Dispatched :
      (gw : Option Gateway) → Dispatched job s (dispatch_via links gw job now s)
  unfolding dispatch_via apply_tcp_config dispatch_mqtt
  dispatch_via-Dispatched none = failed-Dispatched gateway_gone
  dispatch_via-Dispatched (some gw) = elim (Bool-cases (str_eq gw.transport "tcp")) [
    | inl tcp ↦ elim (Bool-cases (is_firmware job.job_type)) [
      | inl fw ↦ rw (tcp, fw) (failed-Dispatched firmware_unsupported)
      | inr cfg ↦
          rw (tcp, cfg) (apply_fields-Dispatched gw job.payload.control_key job.payload.value)
    ]
    | inr mqtt ↦
        rw mqtt (publish-Dispatched (frame_of gw job) refl (links.publish s (frame_of gw job)))
  ]

  pub dispatch_job-Dispatched : Dispatched job s (dispatch_job links job now s)
  unfolding dispatch_job
  dispatch_job-Dispatched = dispatch_via-Dispatched (find_gateway job.gateway_id s)

-- Another job is as ready after a dispatch as before.
pub still-IsReady :
    (job k : OtaJob) (s s' : Store)
    → Dispatched job s s'
    → job.id ≢ k.id
    → IsReady s k
    → IsReady s' k
still-IsReady job k s s' d apart ready =
    (ready.0, rw (d.others k.id (λ e. apart (sym e))) ready.1, rw d.next ready.2)
