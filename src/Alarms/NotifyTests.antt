-- ===== src/Alarms/NotifyTests.antt =====
-- Runs of the notifications (api/alarms/notify.ts).
use gateway_monitoring_platf.Prelude.{
  ℕ, ◌≡◌, refl, none, some, true, false, List, [], ◌∷◌, ◌++◌, map, pos, All, ◌==◌, if◌then◌else◌,
  arith,
}
use gateway_monitoring_platf.Alarms.Oncall.{active_from}
use gateway_monitoring_platf.Alarms.Notify.{
  Channel, AlarmRow, active, Site, Page, Desk, Call, breaches, resolves, sweeps, perform,
}
use gateway_monitoring_platf.Mfa.Totp.{codes}
use gateway_monitoring_platf.Alarms.Telegram.{TelegramTarget, parse_telegram_target}
use gateway_monitoring_platf.Alarms.Notify.Once.{AtMostOnce, perform_all, perform_all-AtMostOnce}
use gateway_monitoring_platf.Alarms.Notify.Reach.{IsRightful, perform-IsRightful}

abbrev desk_channel : Channel
desk_channel = record {
  id = 1;
  target = "https://a.example";
  enabled = true;
  is_escalation = false;
  org_id = some 4;
}

abbrev boss : Channel
boss = record desk_channel { id = 2; is_escalation = true; org_id = none }

abbrev stranger : Channel
stranger = record desk_channel { id = 3; org_id = some 5 }

abbrev site : Site
site = record {
  meter = λ id.
      if id == 9
      then some (record { org_id = some 4; site_id = none; gateway_id = none })
      else none;
  gateway = λ _. none;
  channels = desk_channel ∷ boss ∷ stranger ∷ [];
  shifts = [];
  suppressions = [];
  reason_of = λ _. "works";
  escalate_after_ms = 900_000;
  tz_offset_ms = λ _ _. pos 0;
}

abbrev alarm : AlarmRow
alarm = record {
  id = 6;
  rule_id = none;
  meter_id = some 9;
  gateway_id = none;
  status = active;
  triggered_at = 1000;
  suppressed_reason = none;
}

abbrev desk : Desk
desk = record { alarms = alarm ∷ []; notifications = []; pages = []; events = [] }

abbrev night : List Call
night =
    breaches (λ _. true) 6 1000
    ∷ sweeps (λ _. false) 901_000
    ∷ sweeps (λ _. true) 961_000
    ∷ resolves (λ _. true) 6 999_000
    ∷ []

-- The escalation fails once and is not tried again; the resolution goes to the desk alone.
night_run : map (λ p. p.channel.id) (perform_all site night desk).pages ≡ 1 ∷ 2 ∷ 1 ∷ []
unfolding perform_all active_from
night_run = refl

perform_all-AtMostOnce_example : AtMostOnce (perform_all site night desk)
perform_all-AtMostOnce_example =
    perform_all-AtMostOnce site night desk (λ a c k. (refl, omega arith))

perform-IsRightful_example :
    (new : List Page) × ((perform site (sweeps (λ _. true) 901_000) desk).pages ≡ desk.pages ++ new)
    × All (IsRightful site 901_000 desk) new
perform-IsRightful_example = perform-IsRightful site (sweeps (λ _. true) 901_000) desk

-- 123456:AAAAAAAAAAAAAAAAAAAAAAAAAAAAAA:-1001
abbrev written : List ℕ
written = codes "123456:AAAAAAAAAAAAAAAAAAAAAAAAAAAAAA:-1001"

abbrev parsed : TelegramTarget
parsed = record { token = codes "123456:AAAAAAAAAAAAAAAAAAAAAAAAAAAAAA"; chat_id = codes "-1001" }

parse_run : parse_telegram_target written ≡ some parsed
unfolding parse_telegram_target
parse_run = refl
