-- ===== src/Ems/GridLimit/Held.antt =====
-- How a round moves the curtailment of a site, and what it commands (api/ems/controller.ts,
-- evalGridLimits).
use mathlib.Core.Path.{subst}
use gateway_monitoring_platf.Prelude.{
  ℕ, ◌≡◌, ◌≢◌, ◌⊎◌, inl, inr, refl, ap, sym, ◌∙◌, Option, none, some, arith, List, [], ◌∷◌, ◌++◌,
  append_assoc, append-nil, ℤ, pos, ◌≤ℤ◌, ◌+ℤ◌, All, All-append, int_laws, Bool-cases,
}
use gateway_monitoring_platf.Control.Types.{ControllableDef, get}
use gateway_monitoring_platf.Control.Execute.{Meter, controllable_for_model}
use gateway_monitoring_platf.Ems.Curtail.{
  GridLimits, GridState, over_import, AssetShare, grid_status, over_export, ok, step_curtailment,
}
use gateway_monitoring_platf.Ems.Curtail.Loop.{grid_status_lem, step_curtailment_bounds}
use gateway_monitoring_platf.Ems.Curtail.Percent.{limit_pct_bounds}
use gateway_monitoring_platf.Ems.Tick.{Attempt, Process, TickReads, send, is_repeat, last_of}
use gateway_monitoring_platf.Ems.GridLimit.{
  GridLimitRow, AssetRow, GridReads, GridRun, grid_kw_of, next_curtailment, limit_key, pct_value,
  send_limit, send_share, send_shares, limit_site,
}

-- A limit between nothing and all of the rating.
abbrev pub IsLimit : Attempt → Type 0
IsLimit a = (a.key ≡ limit_key) × (pos 0 ≤ℤ a.value) × (a.value ≤ℤ pos 100000000)

-- A part of a tick that only sends such limits.
abbrev pub SendsLimits : Process → Process → Type 0
SendsLimits p q = (new : List Attempt) × (q.attempts ≡ p.attempts ++ new) × All IsLimit new

send-SendsLimits :
    (reads : TickReads) (meter : Meter) (share : AssetShare) (p : Process)
    → SendsLimits p (send reads meter limit_key (pct_value share) p)
unfolding send
send-SendsLimits reads meter share p =
    elim (Bool-cases
      (is_repeat (pct_value share) p.world.now (last_of meter.id limit_key p.last_cmd))) [
        | inl again ↦ rw (again, send) ([], sym (append-nil p.attempts), tt)
        | inr new ↦
            let a : Attempt = record {
              meter_id = meter.id;
              key = limit_key;
              value = pct_value share;
            } in
            let small = (limit_pct_bounds share).0 in
            rw (new, send) (a ∷ [], refl, ((refl, omega arith, omega arith), tt))
      ]

send_share-SendsLimits :
    (reads : TickReads) (share : AssetShare) (meter : Option Meter) (p : Process)
    → SendsLimits p (send_share reads share meter p).1
unfolding send_share send_limit
send_share-SendsLimits reads share none p = ([], sym (append-nil p.attempts), tt)
send_share-SendsLimits reads share (some meter) p =
    by_register (get limit_key (controllable_for_model reads.db meter.model))
  where
    by_register :
        (def : Option ControllableDef) → SendsLimits p (send_limit reads share meter def p).1
    by_register none = ([], sym (append-nil p.attempts), tt)
    by_register (some def) = send-SendsLimits reads meter share p

send_shares-SendsLimits :
    (reads : TickReads) (shares : List AssetShare) (drove : List ℕ) (p : Process)
    → SendsLimits p (send_shares reads shares drove p).1
unfolding send_shares
send_shares-SendsLimits reads [] drove p = ([], sym (append-nil p.attempts), tt)
send_shares-SendsLimits reads (share ∷ shares) drove p =
    let r = send_share reads share (reads.meter share.meter_id) p in
    let (first, e, hs) = send_share-SendsLimits reads share (reads.meter share.meter_id) p in
    let (rest, k, ks) = send_shares-SendsLimits reads shares _ (r.1) in
    (
      first ++ rest,
      k ∙ ap (λ l. l ++ rest) e ∙ append_assoc p.attempts first rest,
      All-append IsLimit first rest hs ks,
    )

-- How the total of a site may move in a round.
pub record Moves (l : GridLimits) (grid_kw : Option ℤ) (before after : ℤ) : Type 0 where
  pub held : grid_kw ≡ none → after ≡ before
  pub positive : pos 0 ≤ℤ after
  pub slow : (after ≤ℤ before +ℤ l.max_step_kw) × (before ≤ℤ after +ℤ l.max_step_kw)
  pub right :
      (kw : ℤ)
      → grid_kw ≡ some kw
      → ((grid_status kw l).state ≡ over_export → before ≤ℤ after)
        × ((grid_status kw l).state ≢ over_export → after ≤ℤ before)

ok_cases : (st : GridState) → (st ≡ ok) ⊎ (st ≢ ok)
ok_cases ok = inl refl
ok_cases over_import = inr (λ e. cc)
ok_cases over_export = inr (λ e. cc)

quiet_lem :
    (grid_kw : ℤ) (l : GridLimits)
    → (grid_status grid_kw l).state ≡ ok
    → (grid_status grid_kw l).excess_kw ≡ pos 0
unfolding grid_status
quiet_lem grid_kw l h = ground arith

excess_lem : (grid_kw : ℤ) (l : GridLimits) → pos 0 ≤ℤ (grid_status grid_kw l).excess_kw
excess_lem grid_kw l = elim (ok_cases (grid_status grid_kw l).state) [
  | inl quiet ↦ rw (quiet_lem grid_kw l quiet) (omega arith)
  | inr breach ↦ let beyond = ((grid_status_lem grid_kw l).2 breach).0 in omega arith
]

next_curtailment-Moves :
    (g : GridLimitRow) (grid_kw : Option ℤ)
    → pos 0 ≤ℤ g.curtail_kw
    → pos 0 ≤ℤ g.limits.max_step_kw
    → Moves g.limits grid_kw g.curtail_kw (next_curtailment g grid_kw)
unfolding next_curtailment
next_curtailment-Moves g none h k = record {
  held = λ e. refl;
  positive = h;
  slow = (omega int_laws, omega int_laws);
  right = λ kw e. absurd (cc);
}
next_curtailment-Moves g (some grid_kw) h k =
    let s = grid_status grid_kw g.limits in
    let next = step_curtailment g.curtail_kw s g.limits in
    let b =
      step_curtailment_bounds g.curtail_kw s g.limits h (excess_lem grid_kw g.limits)
        (grid_status_lem grid_kw g.limits).3 k in
    record {
      held = λ e. absurd (cc);
      positive = b.0;
      slow = (b.1, b.2);
      right = λ kw e.
          let same : grid_kw ≡ kw = cc in
          subst
            (λ n.
              ((grid_status n g.limits).state ≡ over_export → g.curtail_kw ≤ℤ next)
              × ((grid_status n g.limits).state ≢ over_export → next ≤ℤ g.curtail_kw))
            same (b.3, b.4);
    }

-- A round for a site with an asset. Without a fresh power at the point of common coupling the total
-- is held; with one it moves by at most the configured step, never below zero, not down while the
-- export limit is exceeded and not up otherwise. Whatever happens, the round only writes limits
-- between 0 and 100 percent to the limit register. The total and the step are not negative.
pub limit_site-Moves :
    (reads : TickReads) (grid : GridReads) (g : GridLimitRow) (a : AssetRow)
    (assets : List AssetRow) (run : GridRun)
    → pos 0 ≤ℤ g.curtail_kw
    → pos 0 ≤ℤ g.limits.max_step_kw
    → let (g', run') = limit_site reads grid g (a ∷ assets) run in
      Moves g.limits
        (grid_kw_of (reads.fresh_for_control g.pcc_meter_id))
        g.curtail_kw
        g'.curtail_kw
      × SendsLimits run.process run'.process
unfolding limit_site
limit_site-Moves reads grid g a assets run h k = (
  next_curtailment-Moves g (grid_kw_of (reads.fresh_for_control g.pcc_meter_id)) h k,
  send_shares-SendsLimits reads _ run.drove run.process,
)
