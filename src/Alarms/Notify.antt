-- ===== src/Alarms/Notify.antt =====
-- Who is told of an alarm (api/alarms/notify.ts): the first page, the escalation and the resolution,
-- over the tables that they read and write. The statements succeed. The texts of messages, the
-- cache of maintenance windows and the timer are left out.
pub mod Once
pub mod Reach
use gateway_monitoring_platf.Prelude.{
  ℕ, ◌+◌, String, Option, none, some, Bool, true, false, not, ◌&&◌, ◌||◌, List, [], ◌∷◌, ◌++◌, map,
  leb, ltb, ◌==◌, str_eq, if◌then◌else◌, filter, take, ℤ,
}
use gateway_monitoring_platf.Alarms.Oncall.{
  SuppressionRow, AlarmSubject, active_suppression, ShiftRow, on_duty_channel_ids, RotaResult,
  apply_rota,
}
use gateway_monitoring_platf.Webhooks.Dispatch.{in_org}

pub data NotificationKind : Type 0 where
  initial escalation resolved : NotificationKind

abbrev pub same_kind : NotificationKind → NotificationKind → Bool
same_kind initial initial = true
same_kind escalation escalation = true
same_kind resolved resolved = true
same_kind _ _ = false

pub record Channel : Type 0 where
  pub id : ℕ
  pub target : String
  pub enabled : Bool
  pub is_escalation : Bool
  pub org_id : Option ℕ

-- A row of alarm_notifications; `sent` is its status.
pub record Notification : Type 0 where
  pub alarm_id : ℕ
  pub channel_id : ℕ
  pub kind : NotificationKind
  pub sent : Bool
  pub org_id : Option ℕ

pub data AlarmStatus : Type 0 where
  active acknowledged cleared : AlarmStatus

pub record AlarmRow : Type 0 where
  pub id : ℕ
  pub rule_id : Option ℕ
  pub meter_id : Option ℕ
  pub gateway_id : Option ℕ
  pub status : AlarmStatus
  pub triggered_at : ℕ
  pub suppressed_reason : Option String

-- What the queries read of a meter and of a gateway.
pub record Place : Type 0 where
  pub org_id : Option ℕ
  pub site_id : Option ℕ
  pub gateway_id : Option ℕ

-- The tables that are only read, the configuration, and what Intl says of zones.
pub record Site : Type 0 where
  pub meter : ℕ → Option Place
  pub gateway : ℕ → Option Place
  pub channels : List Channel
  pub shifts : List (Option ℕ × ShiftRow)
  pub suppressions : List SuppressionRow
  pub reason_of : SuppressionRow → String
  pub escalate_after_ms : ℕ
  pub tz_offset_ms : String → ℕ → ℤ

-- A message that was handed to a channel, and an event for the webhooks.
pub record Page : Type 0 where
  pub alarm_id : ℕ
  pub channel : Channel
  pub kind : NotificationKind

pub data Event : Type 0 where
  raised suppressed closed : ℕ → Option ℕ → Event

pub record Desk : Type 0 where
  pub alarms : List AlarmRow
  pub notifications : List Notification
  pub pages : List Page
  pub events : List Event

abbrev pub bind {ℓ κ} : {A : Type ℓ} {B : Type κ} → Option A → (A → Option B) → Option B
bind none f = none
bind (some a) f = f a

-- `a` where it is there, else `b`.
abbrev pub first {ℓ} : {A : Type ℓ} → Option A → Option A → Option A
first none b = b
first (some a) b = some a

abbrev pub was_sent : ℕ → ℕ → List Notification → Bool
was_sent alarm_id channel_id [] = false
was_sent alarm_id channel_id (n ∷ ns) =
    (n.alarm_id == alarm_id && n.channel_id == channel_id && n.sent)
    || was_sent alarm_id channel_id ns

abbrev pub is_row : ℕ → ℕ → NotificationKind → Notification → Bool
is_row alarm_id channel_id kind n =
    n.alarm_id == alarm_id && n.channel_id == channel_id && same_kind n.kind kind

abbrev pub has_row : ℕ → ℕ → NotificationKind → List Notification → Bool
has_row alarm_id channel_id kind [] = false
has_row alarm_id channel_id kind (n ∷ ns) =
    is_row alarm_id channel_id kind n || has_row alarm_id channel_id kind ns

abbrev pub find_alarm : ℕ → List AlarmRow → Option AlarmRow
find_alarm id [] = none
find_alarm id (a ∷ rest) = if a.id == id then some a else find_alarm id rest

-- UPDATE alarms SET suppressed_reason WHERE id
unfoldable pub set_reason : ℕ → String → List AlarmRow → List AlarmRow
set_reason id reason [] = []
set_reason id reason (a ∷ rest) =
    (if a.id == id then record a { suppressed_reason = some reason } else a)
    ∷ set_reason id reason rest

abbrev pub is_active : AlarmStatus → Bool
is_active active = true
is_active _ = false

abbrev pub is_reason : String → Option String → Bool
is_reason r none = false
is_reason r (some q) = str_eq q r

module _ (site : Site) where
  abbrev pub place_org : Option Place → Option ℕ → Option ℕ
  place_org none other = other
  place_org (some p) other = p.org_id

  -- alarmOrgId: a meter that is there decides, also without an organization.
  unfoldable pub alarm_org : AlarmRow → Option ℕ
  alarm_org a =
      place_org (bind a.meter_id site.meter) (place_org (bind a.gateway_id site.gateway) none)

  abbrev pub gateway_site : Option ℕ → Option ℕ
  gateway_site id = bind (bind id site.gateway) (λ g. g.site_id)

  -- alarmSubject: the meter's own site, else its gateway's, else the alarm's gateway's.
  unfoldable pub alarm_subject : AlarmRow → AlarmSubject
  alarm_subject a =
      let m = bind a.meter_id site.meter in
      record {
        rule_id = a.rule_id;
        meter_id = a.meter_id;
        site_id =
            first (bind m (λ p. first p.site_id (gateway_site p.gateway_id)))
              (gateway_site a.gateway_id);
      }

  unfoldable pub suppression_for : AlarmRow → ℕ → Option SuppressionRow
  unfolding alarm_subject active_suppression
  suppression_for a now =
      active_suppression (filter (λ s. leb s.starts_at now && leb now s.ends_at) site.suppressions)
        (alarm_subject a) now

  unfoldable pub rota_for : Option ℕ → List ShiftRow
  rota_for org = map (λ s. s.1) (filter (λ s. in_org org s.0) site.shifts)

  -- The channels that the queries select.
  unfoldable pub may_receive : AlarmRow → NotificationKind → List Notification → Channel → Bool
  unfolding alarm_org
  may_receive a resolved ns ch = ch.enabled && was_sent a.id ch.id ns
  may_receive a initial ns ch = ch.enabled && not ch.is_escalation && in_org (alarm_org a) ch.org_id
  may_receive a escalation ns ch = ch.enabled && ch.is_escalation && in_org (alarm_org a) ch.org_id

  -- A resolution is exempt from the rota.
  unfoldable pub recipients : AlarmRow → NotificationKind → ℕ → List Notification → List Channel
  unfolding may_receive rota_for on_duty_channel_ids apply_rota
  recipients a resolved now ns = filter (may_receive a resolved ns) site.channels
  recipients a kind now ns =
      (apply_rota (λ ch. ch.id) (filter (may_receive a kind ns) site.channels)
        (on_duty_channel_ids site.tz_offset_ms (rota_for (alarm_org a)) now)).channels

  unfoldable pub is_stale : ℕ → AlarmRow → Bool
  is_stale now a = is_active a.status && leb (a.triggered_at + site.escalate_after_ms) now

  -- `goes` says of a page whether its dispatch returns; else it throws.
  module _ (goes : Page → Bool) where
    -- One round of the loop, which counts the sent.
    unfoldable pub page_one : AlarmRow → NotificationKind → Channel → ℕ × Desk → ℕ × Desk
    page_one a kind ch (sent, d) =
        if has_row a.id ch.id kind d.notifications
        then (sent, d)
        else let page : Page = record { alarm_id = a.id; channel = ch; kind = kind } in
          (
            if goes page then sent + 1 else sent,
            record d {
              pages = d.pages ++ page ∷ [];
              notifications =
                  d.notifications
                  ++ record {
                    alarm_id = a.id;
                    channel_id = ch.id;
                    kind = kind;
                    sent = goes page;
                    org_id = alarm_org a;
                  }
                    ∷ [];
            },
          )

    unfoldable pub page_all : AlarmRow → NotificationKind → List Channel → ℕ × Desk → ℕ × Desk
    unfolding page_one
    page_all a kind [] acc = acc
    page_all a kind (ch ∷ chs) acc = page_all a kind chs (page_one a kind ch acc)

    unfoldable pub dispatch_to_channels : AlarmRow → NotificationKind → ℕ → Desk → ℕ × Desk
    unfolding recipients page_all
    dispatch_to_channels a kind now d =
        page_all a kind (recipients a kind now d.notifications) (0, d)

    abbrev pub breach_of : AlarmRow → Option SuppressionRow → ℕ → Desk → Desk
    breach_of a (some s) now d = record d {
      alarms = set_reason a.id (site.reason_of s) d.alarms;
      events = d.events ++ suppressed a.id (alarm_org a) ∷ [];
    }
    breach_of a none now d =
        (dispatch_to_channels a initial now
          (record d { events = d.events ++ raised a.id (alarm_org a) ∷ [] })).1

    abbrev pub breach_found : Option AlarmRow → ℕ → Desk → Desk
    breach_found none now d = d
    breach_found (some a) now d = breach_of a (suppression_for a now) now d

    unfoldable pub notify_alarm_breach : ℕ → ℕ → Desk → Desk
    unfolding suppression_for dispatch_to_channels set_reason
    notify_alarm_breach id now d = breach_found (find_alarm id d.alarms) now d

    abbrev pub resolved_found : Option AlarmRow → ℕ → Desk → Desk
    resolved_found none now d = d
    resolved_found (some a) now d =
        (dispatch_to_channels a resolved now
          (record d { events = d.events ++ closed a.id (alarm_org a) ∷ [] })).1

    unfoldable pub notify_alarm_resolved : ℕ → ℕ → Desk → Desk
    unfolding dispatch_to_channels
    notify_alarm_resolved id now d = resolved_found (find_alarm id d.alarms) now d

    -- One round of the sweep, which counts the escalated and the suppressed.
    abbrev pub escalate_of : AlarmRow → Option SuppressionRow → ℕ → (ℕ × ℕ) × Desk → (ℕ × ℕ) × Desk
    escalate_of a (some s) now ((n, m), d) = (
      (n, m + 1),
      if is_reason (site.reason_of s) a.suppressed_reason
          then d
          else record d { alarms = set_reason a.id (site.reason_of s) d.alarms },
    )
    escalate_of a none now ((n, m), d) =
        let (sent, d') = dispatch_to_channels a escalation now d in
        ((if ltb 0 sent then n + 1 else n, m), d')

    unfoldable pub escalate_all : List AlarmRow → ℕ → (ℕ × ℕ) × Desk → (ℕ × ℕ) × Desk
    unfolding suppression_for dispatch_to_channels set_reason
    escalate_all [] now acc = acc
    escalate_all (a ∷ rest) now acc =
        escalate_all rest now (escalate_of a (suppression_for a now) now acc)

    unfoldable pub escalation_sweep : ℕ → Desk → (ℕ × ℕ) × Desk
    unfolding is_stale escalate_all
    escalation_sweep now d =
        escalate_all (take 100 (filter (is_stale now) d.alarms)) now ((0, 0), d)

-- A call of notifyAlarmBreach, notifyAlarmResolved or escalationSweep, with what its dispatches do.
pub data Call : Type 0 where
  breaches resolves : (Page → Bool) → ℕ → ℕ → Call
  sweeps : (Page → Bool) → ℕ → Call

unfoldable pub perform : Site → Call → Desk → Desk
unfolding notify_alarm_breach notify_alarm_resolved escalation_sweep
perform site (breaches goes id now) d = notify_alarm_breach site goes id now d
perform site (resolves goes id now) d = notify_alarm_resolved site goes id now d
perform site (sweeps goes now) d = (escalation_sweep site goes now d).1
