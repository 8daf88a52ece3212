-- ===== src/Ota/Driver/Safety.antt =====
-- What a step of the rollout driver may send (api/ota/rollout-driver.ts).
use gateway_monitoring_platf.Prelude.{
  ℕ, ◌≡◌, ◌≢◌, ◌⊎◌, ◌<◌, inl, inr, refl, Option, none, some, Bool, true, arith, List, [], ◌∷◌, All,
  find, Bool-cases, Option-cases, ◌==◌,
}
use gateway_monitoring_platf.Ota.Rollout.{
  pending, RolloutAction, dispatch, wait, halt, done, gateways_of, in_batch, next_action,
}
use gateway_monitoring_platf.Ota.Rollout.Waves.{HasPassed, next_action-dispatch}
use gateway_monitoring_platf.Ota.Jobs.{Links, OtaJob}
use gateway_monitoring_platf.Ota.Driver.{
  Rollout, running, is_running, Release, TargetRow, Fleet, load_targets, update_targets,
  sync_target_statuses, is_member, after_create, dispatch_wave, halt_rollout, send_wave, act,
  step_running, step_found, step_rollout,
}

module _ (exceeds : ℕ → ℕ → ℕ → Bool) (links : Links) (now : ℕ) where
  -- A step that gives out jobs is the dispatch of one whole wave of a running rollout. The targets
  -- are judged as the states of the jobs show them.
  pub record SendsWave (id : ℕ) (f f' : Fleet) : Type 0 where
    pub rollout : Rollout
    pub release : Release
    pub batch : ℕ
    pub ids : List ℕ
    pub found : find (λ r. r.id == id) f.rollouts ≡ some rollout
    pub is_live : rollout.status ≡ running
    pub effect :
        f' ≡ dispatch_wave exceeds links rollout release ids now (sync_target_statuses rollout.id f)
    pub whole :
        let targets = load_targets rollout.id (sync_target_statuses rollout.id f).targets in
        (ids ≡ gateways_of (in_batch batch targets))
        × All (λ t. t.batch_index ≡ batch → t.status ≡ pending) targets
        × All
            (λ t.
              t.batch_index < batch
              → HasPassed exceeds targets rollout.failure_threshold_pct t.batch_index)
            targets

  send_wave-SendsWave :
      (id : ℕ) (rollout : Rollout) (f : Fleet)
      → find (λ r. r.id == id) f.rollouts ≡ some rollout
      → rollout.status ≡ running
      → (b : ℕ) (ids : List ℕ)
      → next_action exceeds
          (load_targets rollout.id (sync_target_statuses rollout.id f).targets)
          rollout.failure_threshold_pct
        ≡ dispatch b ids
      → (release : Option Release)
      → let f' =
          send_wave exceeds links rollout release ids now (sync_target_statuses rollout.id f) in
        (f'.store ≡ f.store) ⊎ SendsWave id f f'
  unfolding send_wave halt_rollout sync_target_statuses
  send_wave-SendsWave id rollout f found live b ids e none = inl refl
  send_wave-SendsWave id rollout f found live b ids e (some release) = inr (record {
    rollout = rollout;
    release = release;
    batch = b;
    ids = ids;
    found = found;
    is_live = live;
    effect = refl;
    whole = next_action-dispatch exceeds _ rollout.failure_threshold_pct b ids e;
  })

  step_running-SendsWave :
      (id : ℕ) (rollout : Rollout) (f : Fleet)
      → find (λ r. r.id == id) f.rollouts ≡ some rollout
      → rollout.status ≡ running
      → (a : RolloutAction)
      → next_action exceeds
          (load_targets rollout.id (sync_target_statuses rollout.id f).targets)
          rollout.failure_threshold_pct
        ≡ a
      → let f' = act exceeds links rollout a now (sync_target_statuses rollout.id f) in
        (f'.store ≡ f.store) ⊎ SendsWave id f f'
  unfolding act sync_target_statuses halt_rollout
  step_running-SendsWave id rollout f found live (wait b) e = inl refl
  step_running-SendsWave id rollout f found live (halt reason) e = inl refl
  step_running-SendsWave id rollout f found live done e = inl refl
  step_running-SendsWave id rollout f found live (dispatch b ids) e =
      send_wave-SendsWave id rollout f found live b ids e
        (find (λ r. r.id == rollout.release_id) f.releases)

  -- A step of the driver leaves the jobs alone, or sends one wave: the rollout is running, nothing of
  -- the wave has been sent, the wave is a whole batch, and every earlier batch has passed.
  pub step_rollout-SendsWave :
      (id : ℕ) (f : Fleet)
      → let f' = step_rollout exceeds links id now f in (f'.store ≡ f.store) ⊎ SendsWave id f f'
  unfolding step_rollout step_found step_running
  step_rollout-SendsWave id f = elim (Option-cases (find (λ r. r.id == id) f.rollouts)) [
    | inl gone ↦ rw gone (inl refl)
    | inr (rollout, found) ↦ elim (Bool-cases (is_running rollout.status)) [
      | inl live ↦
          rw (found, live) (step_running-SendsWave id rollout f found (ground arith) _ refl)
      | inr idle ↦ rw (found, idle) (inl refl)
    ]
  ]

-- The target of `gateway_id` in the rollout is no longer waiting.
abbrev pub HasLeft : ℕ → ℕ → List TargetRow → Type 0
HasLeft rollout_id gateway_id targets =
    All (λ t. is_member rollout_id gateway_id t ≡ true → t.status ≢ pending) targets

left_lem : (job : Option OtaJob) (t : TargetRow) → (after_create job t).status ≢ pending
left_lem none t e = ground arith
left_lem (some job) t e = ground arith

kept_lem :
    (rollout_id gateway_id : ℕ) (job : Option OtaJob) (t : TargetRow)
    → is_member rollout_id gateway_id (after_create job t) ≡ is_member rollout_id gateway_id t
kept_lem rollout_id gateway_id none t = refl
kept_lem rollout_id gateway_id (some job) t = refl

update_targets-HasLeft :
    (rollout_id gateway_id : ℕ) (job : Option OtaJob) (targets : List TargetRow)
    → HasLeft rollout_id gateway_id
        (update_targets (is_member rollout_id gateway_id) (after_create job) targets)
unfolding update_targets
update_targets-HasLeft rollout_id gateway_id job [] = tt
update_targets-HasLeft rollout_id gateway_id job (t ∷ targets) =
    elim (Bool-cases (is_member rollout_id gateway_id t)) [
      | inl hit ↦
          rw hit ((λ m. left_lem job t), update_targets-HasLeft rollout_id gateway_id job targets)
      | inr miss ↦
          rw miss ((λ m. absurd (cc)), update_targets-HasLeft rollout_id gateway_id job targets)
    ]

-- What has left stays away when another job is given out.
update_targets-keeps :
    (rollout_id gateway_id other : ℕ) (job : Option OtaJob) (targets : List TargetRow)
    → HasLeft rollout_id gateway_id targets
    → HasLeft rollout_id gateway_id
        (update_targets (is_member rollout_id other) (after_create job) targets)
unfolding update_targets
update_targets-keeps rollout_id gateway_id other job [] h = tt
update_targets-keeps rollout_id gateway_id other job (t ∷ targets) h =
    elim (Bool-cases (is_member rollout_id other t)) [
      | inl hit ↦
          rw hit (
            (λ m. left_lem job t),
            update_targets-keeps rollout_id gateway_id other job targets h.1,
          )
      | inr miss ↦ rw miss (h.0, update_targets-keeps rollout_id gateway_id other job targets h.1)
    ]

module _ (exceeds : ℕ → ℕ → ℕ → Bool) (links : Links) (rollout : Rollout) (release : Release)
    (now : ℕ) where
  dispatch_wave-keeps :
      (gateway_id : ℕ) (ids : List ℕ) (f : Fleet)
      → HasLeft rollout.id gateway_id f.targets
      → HasLeft rollout.id gateway_id
          (dispatch_wave exceeds links rollout release ids now f).targets
  unfolding dispatch_wave
  dispatch_wave-keeps gateway_id [] f h = h
  dispatch_wave-keeps gateway_id (other ∷ ids) f h =
      dispatch_wave-keeps gateway_id ids _
        (update_targets-keeps rollout.id gateway_id other _ f.targets h)

  -- After a wave has been sent, none of its gateways waits any more, whether its job was created,
  -- published, refused or failed: the wave cannot be sent again.
  pub dispatch_wave-HasLeft :
      (ids : List ℕ) (f : Fleet)
      → All
          (λ gateway_id.
            HasLeft rollout.id gateway_id
              (dispatch_wave exceeds links rollout release ids now f).targets)
          ids
  unfolding dispatch_wave
  dispatch_wave-HasLeft [] f = tt
  dispatch_wave-HasLeft (gateway_id ∷ ids) f = (
    dispatch_wave-keeps gateway_id ids _ (update_targets-HasLeft rollout.id gateway_id _ f.targets),
    dispatch_wave-HasLeft ids _,
  )
