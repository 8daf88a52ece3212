-- ===== src/Ems/GridLimit.antt =====
-- The grid connection limits in a tick of the EMS controller (api/ems/controller.ts), and the whole
-- tick but for the watchdog refresh.
pub mod Held
use gateway_monitoring_platf.Prelude.{
  ℕ, ◌-◌, ◌*◌, String, Option, none, some, Bool, true, false, ◌&&◌, List, [], ◌∷◌, ℤ, pos, leb,
  ◌==◌, if◌then◌else◌, filter, map, sort_by,
}
use gateway_monitoring_platf.Control.Types.{ControllableDef, get}
use gateway_monitoring_platf.Control.Execute.{Meter, controllable_for_model}
use gateway_monitoring_platf.Ems.Decide.{EmsSchedule}
use gateway_monitoring_platf.Ems.Curtail.{
  GridLimits, CurtailAsset, AssetShare, grid_status, step_curtailment, allocate_curtailment,
  limit_pct,
}
use gateway_monitoring_platf.Ems.Tick.{TickReads, Process, PlanRow, FreshTelemetry, send}
use gateway_monitoring_platf.Ems.Shaving.{PeakConfig, PeakState, shave_and_drive}

-- An enabled grid_limits row.
pub record GridLimitRow : Type 0 where
  pub id : ℕ
  pub site_id : ℕ
  pub pcc_meter_id : ℕ
  pub limits : GridLimits
  pub curtail_kw : ℤ

pub record AssetRow : Type 0 where
  pub site_id : ℕ
  pub meter_id : ℕ
  pub priority : ℕ
  pub rated_kw : ℤ
  pub enabled : Bool

-- A row of latestAll.
pub record LatestRow : Type 0 where
  pub ts : ℕ
  pub active_power_kw : Option ℤ

-- What this loop reads beside the rest of the tick.
pub record GridReads : Type 0 where
  pub curtailment_assets : List AssetRow
  pub latest : ℕ → Option LatestRow
  pub max_age_ms : ℕ

-- A stale output counts as unknown.
abbrev pub output_of : GridReads → ℕ → Option LatestRow → Option ℤ
output_of grid now none = none
output_of grid now (some row) =
    if leb (now - row.ts) grid.max_age_ms then row.active_power_kw else none

abbrev pub to_asset : GridReads → ℕ → AssetRow → CurtailAsset
to_asset grid now a = record {
  meter_id = a.meter_id;
  priority = a.priority;
  rated_kw = a.rated_kw;
  output_kw = output_of grid now (grid.latest a.meter_id);
}

abbrev pub is_asset_of : ℕ → AssetRow → Bool
is_asset_of site_id a = a.site_id == site_id && a.enabled

unfoldable pub asset_rows : GridReads → ℕ → List AssetRow
asset_rows grid site_id =
    sort_by (λ a b. leb a.priority b.priority)
      (filter (is_asset_of site_id) grid.curtailment_assets)

abbrev pub grid_kw_of : FreshTelemetry → Option ℤ
grid_kw_of t = if t.fresh then t.active_power_kw else none

-- Without a measurement the curtailment is held.
unfoldable pub next_curtailment : GridLimitRow → Option ℤ → ℤ
next_curtailment g none = g.curtail_kw
next_curtailment g (some grid_kw) =
    step_curtailment g.curtail_kw (grid_status grid_kw g.limits) g.limits

abbrev pub limit_key : String
limit_key = "activePowerLimitPct"

-- limitPct in millionths of a percent.
abbrev pub pct_value : AssetShare → ℤ
pct_value share = pos (limit_pct share * 100000)

-- One share: whether the asset was driven, and the process.
unfoldable pub send_limit :
    TickReads → AssetShare → Meter → Option ControllableDef → Process → Bool × Process
send_limit reads share meter none p = (false, p)
send_limit reads share meter (some def) p = (true, send reads meter limit_key (pct_value share) p)

unfoldable pub send_share : TickReads → AssetShare → Option Meter → Process → Bool × Process
send_share reads share none p = (false, p)
send_share reads share (some meter) p =
    send_limit reads share meter (get limit_key (controllable_for_model reads.db meter.model)) p

unfoldable pub send_shares : TickReads → List AssetShare → List ℕ → Process → List ℕ × Process
send_shares reads [] drove p = (drove, p)
send_shares reads (share ∷ shares) drove p =
    let (driven, p') = send_share reads share (reads.meter share.meter_id) p in
    send_shares reads shares (if driven then share.meter_id ∷ drove else drove) p'

pub record GridRun : Type 0 where
  pub process : Process
  pub drove : List ℕ

-- The round of a row for the assets of its site: the row with its durable total, and the run.
unfoldable pub limit_site :
    TickReads → GridReads → GridLimitRow → List AssetRow → GridRun → GridLimitRow × GridRun
limit_site reads grid g [] run = (g, run)
limit_site reads grid g (a ∷ assets) run =
    let next = next_curtailment g (grid_kw_of (reads.fresh_for_control g.pcc_meter_id)) in
    let shares =
      allocate_curtailment next (map (to_asset grid run.process.world.now) (a ∷ assets)) in
    let (drove, p) = send_shares reads shares run.drove run.process in
    (record g { curtail_kw = next }, record { process = p; drove = drove })

unfoldable pub eval_grid_limits :
    TickReads → GridReads → List GridLimitRow → GridRun → List GridLimitRow × GridRun
eval_grid_limits reads grid [] run = ([], run)
eval_grid_limits reads grid (g ∷ rows) run =
    let (g', run') = limit_site reads grid g (asset_rows grid g.site_id) run in
    let (rows', last) = eval_grid_limits reads grid rows run' in (g' ∷ rows', last)

-- emsTick: grid limits, peak shaving, plans, schedules.
unfoldable pub ems_tick :
    TickReads
    → GridReads
    → List GridLimitRow
    → List PeakConfig
    → List PlanRow
    → List EmsSchedule
    → ℕ
    → List (ℕ × PeakState)
    → Process
    → List GridLimitRow × List (ℕ × PeakState) × Process
ems_tick reads grid rows configs plans schedules now states p =
    let (rows', run) = eval_grid_limits reads grid rows (record { process = p; drove = [] }) in
    let (states', p') =
      shave_and_drive reads configs plans schedules now run.drove states run.process in
    (rows', states', p')
