-- ===== src/Alarms/Oncall/Rota.antt =====
-- Who is on duty, and who is told (contracts/oncall.ts).
use gateway_monitoring_platf.Prelude.{
  ℕ, ◌+◌, ◌%◌, ◌≡◌, ◌≢◌, ◌↔◌, ◌⊎◌, ◌<◌, Option, none, some, true, false, arith, List, [],
  if◌then◌else◌, filter, ltb,
}
use gateway_monitoring_platf.Ems.Decide.{day_bit}
use gateway_monitoring_platf.Ems.Decide.Window.{since}
use gateway_monitoring_platf.Alarms.Oncall.{ShiftRow, covers_clock, has, apply_rota}

-- The weekday on which the shift began that is on at `min` of weekday `dow`.
abbrev pub began_on : ShiftRow → ℕ → ℕ → ℕ
began_on shift dow min = if ltb min shift.start_min then (dow + 6) % 7 else dow

-- An enabled shift is on exactly when fewer minutes have passed since its start than it lasts, and
-- the mask holds the weekday on which it began; one that starts and ends at the same minute is on
-- for the whole of a weekday of the mask.
pub covers_clock_iff :
    (shift : ShiftRow) (dow min : ℕ)
    → shift.start_min < 1440
    → shift.end_min < 1440
    → min < 1440
    → (covers_clock shift dow min ≡ true) ↔ (
        (shift.enabled ≡ true)
        × (((shift.start_min ≡ shift.end_min) × (day_bit shift.day_of_week_mask dow ≡ 1))
            ⊎ ((since shift.start_min min < since shift.start_min shift.end_min)
                × (day_bit shift.day_of_week_mask (began_on shift dow min) ≡ 1))))
unfolding covers_clock
covers_clock_iff shift dow min hs he hm = ground arith

module _ {T : Type 0} (id_of : T → ℕ) where
  abbrev on_duty_of : List ℕ → List T → List T
  on_duty_of on_duty candidates = filter (λ c. has on_duty (id_of c)) candidates

  -- A page is never dropped: somebody is told whenever there is a candidate. Without a rota all the
  -- candidates are told; with one, those on duty are, or, where none of them is on duty, all of them
  -- with the gap reported.
  pub apply_rota_lem :
      (candidates : List T) (on_duty : Option (List ℕ))
      → let r = apply_rota id_of candidates on_duty in
        (candidates ≢ [] → r.channels ≢ [])
        × (r.gap ≡ true → r.channels ≡ candidates)
        × (on_duty ≡ none → (r.channels ≡ candidates) × (r.gap ≡ false))
        × ((ids : List ℕ)
            → on_duty ≡ some ids
            → r.gap ≡ false
            → r.channels ≡ filter (λ c. has ids (id_of c)) candidates)
        × ((ids : List ℕ)
            → on_duty ≡ some ids
            → (r.gap ≡ true)
              ↔ ((filter (λ c. has ids (id_of c)) candidates ≡ []) × (candidates ≢ [])))
  unfolding apply_rota
  apply_rota_lem candidates on_duty = ground arith
