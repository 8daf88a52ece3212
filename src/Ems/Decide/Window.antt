-- ===== src/Ems/Decide/Window.antt =====
-- The weekly window of a schedule (api/ems/decide.ts, scheduleDue).
use gateway_monitoring_platf.Prelude.{ℕ, ◌+◌, ◌-◌, ◌%◌, ◌≡◌, ◌↔◌, ◌⊎◌, ◌<◌, true, arith}
use gateway_monitoring_platf.Ems.Decide.{EmsSchedule, schedule_due, day_bit}

-- Minutes passed since `start` on the clock of a day.
abbrev pub since : ℕ → ℕ → ℕ
since start min = (min + 1440 - start) % 1440

-- On a day that the mask holds, a schedule is due exactly when fewer minutes have passed since its
-- start than lie between its start and its end on the clock; one that starts and ends at the same
-- minute is due all day. On other days it is never due.
pub schedule_due_iff :
    (s : EmsSchedule) (dow min : ℕ)
    → s.start_min < 1440
    → s.end_min < 1440
    → min < 1440
    → (schedule_due s dow min ≡ true) ↔ (
        (day_bit s.day_of_week_mask dow ≡ 1)
        × ((s.start_min ≡ s.end_min) ⊎ (since s.start_min min < since s.start_min s.end_min)))
unfolding schedule_due
schedule_due_iff s dow min hs he hm = ground arith
