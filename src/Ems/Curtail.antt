-- ===== src/Ems/Curtail.antt =====
-- The grid connection limit of api/ems/curtail.ts. Powers are integers in millionths of a kW.
pub mod Loop
pub mod Shares
pub mod Percent
use gateway_monitoring_platf.Prelude.{
  ℕ, ◌+◌, ◌-◌, ◌*◌, ◌/◌, min, Option, none, some, Bool, true, false, List, [], ◌∷◌, ◌&&◌, ◌||◌, ℤ,
  pos, neg, ltb, leb, ◌==◌, ltb_ℤ, leb_ℤ, ◌-ℤ◌, ◌+ℤ◌, min_ℤ, max_ℤ, pos_part, if◌then◌else◌,
  or_else, sort_by,
}

pub record GridLimits : Type 0 where
  pub max_import_kw : Option ℤ
  pub max_export_kw : Option ℤ
  pub deadband_kw : ℤ
  pub max_step_kw : ℤ

pub data GridState : Type 0 where
  ok over_import over_export : GridState

pub record GridStatus : Type 0 where
  pub state : GridState
  pub excess_kw : ℤ
  pub headroom_kw : ℤ

-- gridKw > max, for a limit that may be absent.
abbrev pub exceeds : ℤ → Option ℤ → Bool
exceeds kw none = false
exceeds kw (some limit) = ltb_ℤ limit kw

-- The room to one limit beyond the deadband; `none` is the Infinity of an absent limit.
unfoldable pub room : Option ℤ → ℤ → ℤ → Option ℤ
room none kw deadband = none
room (some limit) kw deadband = some (limit -ℤ kw -ℤ deadband)

-- Math.min where `none` is Infinity.
unfoldable pub min_room : Option ℤ → Option ℤ → Option ℤ
min_room none b = b
min_room (some a) none = some a
min_room (some a) (some b) = some (min_ℤ a b)

-- gridStatus, after `const { maxImportKw, maxExportKw, deadbandKw } = limits`.
unfoldable pub status_for : ℤ → Option ℤ → Option ℤ → ℤ → GridStatus
unfolding room min_room
status_for grid_kw max_import_kw max_export_kw deadband_kw =
    if exceeds (neg grid_kw) max_export_kw
    then record {
      state = over_export;
      excess_kw = neg grid_kw -ℤ or_else max_export_kw (pos 0);
      headroom_kw = pos 0;
    }
    else if exceeds grid_kw max_import_kw
    then record {
      state = over_import;
      excess_kw = grid_kw -ℤ or_else max_import_kw (pos 0);
      headroom_kw = pos 0;
    }
    else record {
      state = ok;
      excess_kw = pos 0;
      headroom_kw = max_ℤ (pos 0) (
          or_else
            (min_room (room max_export_kw (neg grid_kw) deadband_kw)
              (room max_import_kw grid_kw deadband_kw))
            (pos 0));
    }

unfoldable pub grid_status : ℤ → GridLimits → GridStatus
unfolding status_for
grid_status grid_kw limits =
    status_for grid_kw limits.max_import_kw limits.max_export_kw limits.deadband_kw

-- The three branches of stepCurtailment, by the state.
unfoldable pub step_by : GridState → ℤ → ℤ → ℤ → ℤ → ℤ
step_by over_export current_kw excess headroom step = current_kw +ℤ min_ℤ excess step
step_by over_import current_kw excess headroom step =
    max_ℤ (pos 0) (current_kw -ℤ min_ℤ excess step)
step_by ok current_kw excess headroom step =
    if leb_ℤ current_kw (pos 0) then pos 0 else max_ℤ (pos 0) (current_kw -ℤ min_ℤ headroom step)

unfoldable pub step_curtailment : ℤ → GridStatus → GridLimits → ℤ
unfolding step_by
step_curtailment current_kw status limits =
    step_by status.state current_kw status.excess_kw status.headroom_kw
      (max_ℤ (pos 0) limits.max_step_kw)

pub record CurtailAsset : Type 0 where
  pub meter_id : ℕ
  pub priority : ℕ
  pub rated_kw : ℤ
  pub output_kw : Option ℤ

-- `take_kw` is not negative.
pub record AssetShare : Type 0 where
  pub meter_id : ℕ
  pub take_kw : ℕ
  pub rated_kw : ℤ

-- The comparator `a.priority - b.priority || a.meterId - b.meterId` is not positive.
unfoldable pub goes_first : CurtailAsset → CurtailAsset → Bool
goes_first a b =
    ltb a.priority b.priority || (a.priority == b.priority && leb a.meter_id b.meter_id)

unfoldable pub sort_assets : List CurtailAsset → List CurtailAsset
unfolding sort_by goes_first
sort_assets assets = sort_by goes_first assets

-- Math.max(0, a.outputKw ?? 0)
unfoldable pub available : CurtailAsset → ℕ
available a = pos_part (or_else a.output_kw (pos 0))

-- Math.round(take * 1000) / 1000: to whole thousandths of a kW.
unfoldable pub round_milli : ℕ → ℕ
round_milli take = (take + 500) / 1000 * 1000

-- The `map` of allocateCurtailment, whose closure takes from `remaining`.
unfoldable pub allocate_from : ℕ → List CurtailAsset → List AssetShare
unfolding available round_milli
allocate_from remaining [] = []
allocate_from remaining (a ∷ rest) =
    let take = min remaining (available a) in
    record { meter_id = a.meter_id; take_kw = round_milli take; rated_kw = a.rated_kw }
    ∷ allocate_from (remaining - take) rest

unfoldable pub allocate_curtailment : ℤ → List CurtailAsset → List AssetShare
unfolding allocate_from sort_assets
allocate_curtailment total_kw assets = allocate_from (pos_part total_kw) (sort_assets assets)

-- In tenths of a percent. With a rating above 0 the allowed part of it is
-- max(0, rated - take), never above 100 %.
unfoldable pub limit_pct : AssetShare → ℕ
limit_pct share =
    let rated = pos_part share.rated_kw in
    if rated == 0
    then 1000
    else let allowed = rated - share.take_kw in (2 * (allowed * 1000) + rated) / (2 * rated)
