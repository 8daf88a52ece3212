-- ===== src/Alarms/Oncall.antt =====
-- Suppressions and the on-call rota (contracts/oncall.ts). Times are epoch milliseconds.
pub mod Suppression
pub mod Rota
use gateway_monitoring_platf.Prelude.{
  ℕ, ◌+◌, ◌-◌, ◌*◌, ◌/◌, ◌%◌, String, Option, none, some, Bool, true, false, not, ◌&&◌, ◌||◌, List,
  [], ◌∷◌, ◌++◌, ltb, leb, ◌==◌, if◌then◌else◌, filter, ℤ, pos, ◌+ℤ◌, pos_part,
}
use gateway_monitoring_platf.Ems.Decide.{day_bit}

pub data SuppressionScope : Type 0 where
  rule meter site : SuppressionScope

-- `reason` is a text for people.
pub record SuppressionRow : Type 0 where
  pub id : ℕ
  pub scope : SuppressionScope
  pub ref_id : ℕ
  pub starts_at : ℕ
  pub ends_at : ℕ

pub record AlarmSubject : Type 0 where
  pub rule_id : Option ℕ
  pub meter_id : Option ℕ
  pub site_id : Option ℕ

abbrev pub is_id : ℕ → Option ℕ → Bool
is_id n none = false
is_id n (some m) = n == m

abbrev pub subject_id : SuppressionScope → AlarmSubject → Option ℕ
subject_id rule s = s.rule_id
subject_id meter s = s.meter_id
subject_id site s = s.site_id

unfoldable pub matches_subject : SuppressionRow → AlarmSubject → Bool
matches_subject row subject = is_id row.ref_id (subject_id row.scope subject)

abbrev pub narrowness : SuppressionScope → ℕ
narrowness rule = 0
narrowness meter = 1
narrowness site = 2

-- The two `continue`s of the loop, negated.
unfoldable pub applies : AlarmSubject → ℕ → SuppressionRow → Bool
applies subject t row =
    not (ltb t row.starts_at || leb row.ends_at t) && matches_subject row subject

unfoldable pub is_better : Option SuppressionRow → SuppressionRow → Bool
is_better none row = true
is_better (some best) row =
    ltb (narrowness row.scope) (narrowness best.scope)
    || (narrowness row.scope == narrowness best.scope && ltb best.starts_at row.starts_at)

unfoldable pub active_from :
    AlarmSubject → ℕ → Option SuppressionRow → List SuppressionRow → Option SuppressionRow
active_from subject t best [] = best
active_from subject t best (row ∷ rows) =
    active_from subject t (if applies subject t row && is_better best row then some row else best)
      rows

unfoldable pub active_suppression : List SuppressionRow → AlarmSubject → ℕ → Option SuppressionRow
active_suppression rows subject now = active_from subject now none rows

pub record ShiftRow : Type 0 where
  pub channel_id : ℕ
  pub day_of_week_mask : ℕ
  pub start_min : ℕ
  pub end_min : ℕ
  pub timezone : String
  pub enabled : Bool

-- The window tests of shiftCovers, on the local weekday and minute.
unfoldable pub covers_clock : ShiftRow → ℕ → ℕ → Bool
covers_clock shift dow min =
    if not shift.enabled
    then false
    else if shift.start_min == shift.end_min
    then day_bit shift.day_of_week_mask dow == 1
    else if not (ltb shift.end_min shift.start_min)
    then if day_bit shift.day_of_week_mask dow == 0
      then false
      else leb shift.start_min min && ltb min shift.end_min
    else if leb shift.start_min min
    then day_bit shift.day_of_week_mask dow == 1
    else if ltb min shift.end_min
    then day_bit shift.day_of_week_mask ((dow + 6) % 7) == 1
    else false

abbrev pub has : List ℕ → ℕ → Bool
has [] n = false
has (m ∷ ms) n = m == n || has ms n

abbrev pub add : ℕ → List ℕ → List ℕ
add n ms = if has ms n then ms else ms ++ n ∷ []

-- `tz_offset_ms` is what Intl says of a zone at an instant: local time less UTC, in milliseconds.
module _ (tz_offset_ms : String → ℕ → ℤ) where
  -- localClock, for an instant whose local time is not before 1970-01-01, a Thursday.
  unfoldable pub local_clock : String → ℕ → ℕ × ℕ
  unfolding ◌+ℤ◌
  local_clock tz now =
      let local = pos_part (pos now +ℤ tz_offset_ms tz now) in
      ((local / 86_400_000 + 4) % 7, local % 86_400_000 / 60_000)

  unfoldable pub shift_covers : ShiftRow → ℕ → Bool
  unfolding covers_clock
  shift_covers shift now =
      let (dow, min) = local_clock shift.timezone now in covers_clock shift dow min

  unfoldable pub covering : List ℕ → List ShiftRow → ℕ → List ℕ
  covering on_duty [] now = on_duty
  covering on_duty (s ∷ shifts) now =
      covering (if shift_covers s now then add s.channel_id on_duty else on_duty) shifts now

  abbrev pub rota_of : List ShiftRow → ℕ → Option (List ℕ)
  rota_of [] now = none
  rota_of (s ∷ live) now = some (covering [] (s ∷ live) now)

  unfoldable pub on_duty_channel_ids : List ShiftRow → ℕ → Option (List ℕ)
  unfolding covering
  on_duty_channel_ids shifts now = rota_of (filter (λ s. s.enabled) shifts) now

pub record RotaResult {ℓ} (T : Type ℓ) : Type ℓ where
  pub channels : List T
  pub gap : Bool

module _ {ℓ} {T : Type ℓ} (id_of : T → ℕ) where
  -- The result for a rota: everybody where it covers nobody of the candidates.
  abbrev pub open_or : List T → List T → RotaResult T
  open_or [] [] = record { channels = []; gap = false }
  open_or [] (c ∷ candidates) = record { channels = c ∷ candidates; gap = true }
  open_or (c ∷ on_duty) candidates = record { channels = c ∷ on_duty; gap = false }

  unfoldable pub apply_rota : List T → Option (List ℕ) → RotaResult T
  apply_rota candidates none = record { channels = candidates; gap = false }
  apply_rota candidates (some on_duty) =
      open_or (filter (λ c. has on_duty (id_of c)) candidates) candidates
