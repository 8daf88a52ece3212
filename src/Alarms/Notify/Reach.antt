-- ===== src/Alarms/Notify/Reach.antt =====
-- Whom a page reaches (api/alarms/notify.ts).
use gateway_monitoring_platf.Prelude.{
  ℕ, ◌≡◌, refl, sym, Option, none, some, Bool, true, false, List, [], ◌∷◌, ◌++◌, append-nil,
  append_assoc, arith, All, All-append, All-map, All-filter, All-filter_test, All-take, All-zip,
  IsIn, All-IsIn, ◌==◌, Option-cases, Bool-cases, inl, inr, take, filter,
}
use gateway_monitoring_platf.Alarms.Oncall.{open_or, apply_rota, has}
use gateway_monitoring_platf.Webhooks.Dispatch.{in_org}
use gateway_monitoring_platf.Alarms.Notify.{
  NotificationKind, initial, escalation, resolved, Channel, Notification, AlarmRow, Site, Page,
  Desk, alarm_org, suppression_for, was_sent, may_receive, recipients, has_row, page_one, page_all,
  dispatch_to_channels, find_alarm, breach_found, resolved_found, escalate_of, escalate_all,
  is_reason, is_stale, Call, breaches, resolves, sweeps, perform,
}

-- More pages, each of which has the property.
abbrev pub Extends : (Page → Type 0) → List Page → List Page → Type 0
Extends P ps ps' = (new : List Page) × (ps' ≡ ps ++ new) × All P new

Extends-refl : (P : Page → Type 0) (ps : List Page) → Extends P ps ps
Extends-refl P ps = ([], sym (append-nil ps), tt)

Extends-trans :
    (P : Page → Type 0) (ps qs rs : List Page) → Extends P ps qs → Extends P qs rs → Extends P ps rs
Extends-trans P ps qs rs (new, e, all) (more, f, rest) =
    (new ++ more, rw (f, e) (append_assoc ps new more), All-append P new more all rest)

find_alarm-IsIn :
    (id : ℕ) (alarms : List AlarmRow) (a : AlarmRow) → find_alarm id alarms ≡ some a → IsIn a alarms
find_alarm-IsIn id [] a h = cc
find_alarm-IsIn id (x ∷ xs) a h = elim (Bool-cases (x.id == id)) [
  | inl hit ↦ inl (ground arith)
  | inr miss ↦ inr (find_alarm-IsIn id xs a (rw miss at h))
]

abbrev pub call_now : Call → ℕ
call_now (breaches goes id now) = now
call_now (resolves goes id now) = now
call_now (sweeps goes now) = now

module _ (site : Site) where
  -- What a page at an instant may be: `ns` are the rows of alarm_notifications before the call.
  abbrev pub ByKind : ℕ → List Notification → AlarmRow → Page → NotificationKind → Type 0
  ByKind now ns a p initial =
      (suppression_for site a now ≡ none)
      × (p.channel.is_escalation ≡ false)
      × (in_org (alarm_org site a) p.channel.org_id ≡ true)
  ByKind now ns a p escalation =
      (suppression_for site a now ≡ none)
      × (is_stale site now a ≡ true)
      × (p.channel.is_escalation ≡ true)
      × (in_org (alarm_org site a) p.channel.org_id ≡ true)
  ByKind now ns a p resolved = was_sent a.id p.channel.id ns ≡ true

  abbrev pub IsRightful : ℕ → Desk → Page → Type 0
  IsRightful now d p =
      (a : AlarmRow) × IsIn a d.alarms
      × (p.alarm_id ≡ a.id)
      × IsIn p.channel site.channels
      × (p.channel.enabled ≡ true)
      × ByKind now d.notifications a p p.kind

  All-open_or :
      (P : Channel → Type 0) (xs ys : List Channel)
      → All P xs
      → All P ys
      → All P (open_or (λ ch. ch.id) xs ys).channels
  All-open_or P [] [] hx hy = tt
  All-open_or P [] (y ∷ ys) hx hy = hy
  All-open_or P (x ∷ xs) ys hx hy = hx

  All-apply_rota :
      (P : Channel → Type 0) (xs : List Channel) (duty : Option (List ℕ))
      → All P xs
      → All P (apply_rota (λ ch. ch.id) xs duty).channels
  unfolding apply_rota
  All-apply_rota P xs none h = h
  All-apply_rota P xs (some on_duty) h =
      All-open_or P (filter (λ c. has on_duty c.id) xs) xs
        (All-filter P (λ c. has on_duty c.id) xs h) h

  abbrev Received : AlarmRow → NotificationKind → List Notification → Channel → Type 0
  Received a kind ns ch = IsIn ch site.channels × (may_receive site a kind ns ch ≡ true)

  filter-Received :
      (a : AlarmRow) (kind : NotificationKind) (ns : List Notification)
      → All (Received a kind ns) (filter (may_receive site a kind ns) site.channels)
  filter-Received a kind ns =
      All-zip (λ ch. IsIn ch site.channels) (λ ch. may_receive site a kind ns ch ≡ true)
        (filter (may_receive site a kind ns) site.channels)
        (All-filter (λ ch. IsIn ch site.channels) (may_receive site a kind ns) site.channels
          (All-IsIn site.channels))
        (All-filter_test (may_receive site a kind ns) site.channels)

  recipients-Received :
      (a : AlarmRow) (kind : NotificationKind) (now : ℕ) (ns : List Notification)
      → All (Received a kind ns) (recipients site a kind now ns)
  unfolding recipients
  recipients-Received a resolved now ns = filter-Received a resolved ns
  recipients-Received a initial now ns =
      All-apply_rota (Received a initial ns) _ _ (filter-Received a initial ns)
  recipients-Received a escalation now ns =
      All-apply_rota (Received a escalation ns) _ _ (filter-Received a escalation ns)

  module _ (goes : Page → Bool) where
    abbrev page_to : AlarmRow → NotificationKind → Channel → Page
    page_to a kind ch = record { alarm_id = a.id; channel = ch; kind = kind }

    page_one-Extends :
        (P : Page → Type 0) (a : AlarmRow) (kind : NotificationKind) (ch : Channel) (sent : ℕ)
        (d : Desk)
        → P (page_to a kind ch)
        → Extends P d.pages (page_one site goes a kind ch (sent, d)).1.pages
    unfolding page_one
    page_one-Extends P a kind ch sent d may =
        elim (Bool-cases (has_row a.id ch.id kind d.notifications)) [
          | inl dup ↦ rw dup (Extends-refl P d.pages)
          | inr new ↦ rw new (page_to a kind ch ∷ [], refl, (may, tt))
        ]

    page_all-Extends :
        (P : Page → Type 0) (a : AlarmRow) (kind : NotificationKind) (chs : List Channel) (sent : ℕ)
        (d : Desk)
        → All (λ ch. P (page_to a kind ch)) chs
        → Extends P d.pages (page_all site goes a kind chs (sent, d)).1.pages
    unfolding page_all
    page_all-Extends P a kind [] sent d may = Extends-refl P d.pages
    page_all-Extends P a kind (ch ∷ chs) sent d may =
        let (sent', d') = page_one site goes a kind ch (sent, d) in
        Extends-trans P d.pages d'.pages (page_all site goes a kind chs (sent', d')).1.pages
          (page_one-Extends P a kind ch sent d may.0) (page_all-Extends P a kind chs sent' d' may.1)

    dispatch-Extends :
        (P : Page → Type 0) (a : AlarmRow) (kind : NotificationKind) (now : ℕ) (d : Desk)
        → ((ch : Channel) → Received a kind d.notifications ch → P (page_to a kind ch))
        → Extends P d.pages (dispatch_to_channels site goes a kind now d).1.pages
    unfolding dispatch_to_channels
    dispatch-Extends P a kind now d may =
        page_all-Extends P a kind (recipients site a kind now d.notifications) 0 d (
          All-map {Q = λ ch. P (page_to a kind ch)} may (recipients site a kind now d.notifications)
            (recipients-Received a kind now d.notifications))

    found-Extends :
        (o : Option AlarmRow) (now : ℕ) (d : Desk)
        → ((a : AlarmRow) → o ≡ some a → IsIn a d.alarms)
        → Extends (IsRightful now d) d.pages (breach_found site goes o now d).pages
          × Extends (IsRightful now d) d.pages (resolved_found site goes o now d).pages
    unfolding may_receive
    found-Extends none now d held = (Extends-refl _ d.pages, Extends-refl _ d.pages)
    found-Extends (some a) now d held = (
      elim (Option-cases (suppression_for site a now)) [
        | inr (s, on) ↦ rw on (Extends-refl _ d.pages)
        | inl off ↦ rw off (
            dispatch-Extends (IsRightful now d) a initial now _ (λ ch may.
              (a, held a refl, refl, may.0, ground arith, (off, ground arith, ground arith))))
      ],
      dispatch-Extends (IsRightful now d) a resolved now _
          (λ ch may. (a, held a refl, refl, may.0, ground arith, ground arith)),
    )

    round-Extends :
        (a : AlarmRow) (now n m : ℕ) (d0 d : Desk)
        → IsIn a d0.alarms
        → is_stale site now a ≡ true
        → Extends
            (IsRightful now d0)
            d.pages
            (escalate_of site goes a (suppression_for site a now) now ((n, m), d)).1.pages
    unfolding may_receive is_stale
    round-Extends a now n m d0 d held stale = elim (Option-cases (suppression_for site a now)) [
      | inr (s, on) ↦ elim (Bool-cases (is_reason (site.reason_of s) a.suppressed_reason)) [
        | inl same ↦ rw (on, same) (Extends-refl _ d.pages)
        | inr other ↦ rw (on, other) (Extends-refl _ d.pages)
      ]
      | inl off ↦ rw off (
          dispatch-Extends (IsRightful now d0) a escalation now d (λ ch may.
            (a, held, refl, may.0, ground arith, (off, stale, ground arith, ground arith))))
    ]

    escalate_all-Extends :
        (alarms : List AlarmRow) (now n m : ℕ) (d0 d : Desk)
        → All (λ a. IsIn a d0.alarms × (is_stale site now a ≡ true)) alarms
        → Extends
            (IsRightful now d0)
            d.pages
            (escalate_all site goes alarms now ((n, m), d)).1.pages
    unfolding escalate_all
    escalate_all-Extends [] now n m d0 d stale = Extends-refl _ d.pages
    escalate_all-Extends (a ∷ alarms) now n m d0 d stale =
        let ((n', m'), d') = escalate_of site goes a (suppression_for site a now) now ((n, m), d) in
        Extends-trans (IsRightful now d0) d.pages d'.pages
          (escalate_all site goes alarms now ((n', m'), d')).1.pages
          (round-Extends a now n m d0 d stale.0.0 stale.0.1)
          (escalate_all-Extends alarms now n' m' d0 d' stale.1)

  -- Whom a page reaches. Each page that one call of notifyAlarmBreach, notifyAlarmResolved or
  -- escalationSweep adds is about an alarm of the table and goes to an enabled channel; no other page is added. A first
  -- page and an escalation are about an alarm that no suppression covers and go to a channel of the
  -- alarm's organization or of none, of the kind for it; an escalation is about an alarm that is
  -- active and has been so for the delay. A resolution goes to a channel that a page about the alarm
  -- had been sent to before.
  pub perform-IsRightful :
      (call : Call) (d : Desk)
      → let now = call_now call in
        (new : List Page) × ((perform site call d).pages ≡ d.pages ++ new)
        × All (IsRightful now d) new
  unfolding perform
  perform-IsRightful (breaches goes id now) d =
      (found-Extends goes (find_alarm id d.alarms) now d (find_alarm-IsIn id d.alarms)).0
  perform-IsRightful (resolves goes id now) d =
      (found-Extends goes (find_alarm id d.alarms) now d (find_alarm-IsIn id d.alarms)).1
  perform-IsRightful (sweeps goes now) d =
      escalate_all-Extends goes (take 100 (filter (is_stale site now) d.alarms)) now 0 0 d d (
        All-take (λ a. IsIn a d.alarms × (is_stale site now a ≡ true)) 100
          (filter (is_stale site now) d.alarms)
          (All-zip (λ a. IsIn a d.alarms) (λ a. is_stale site now a ≡ true)
            (filter (is_stale site now) d.alarms)
            (All-filter (λ a. IsIn a d.alarms) (is_stale site now) d.alarms (All-IsIn d.alarms))
            (All-filter_test (is_stale site now) d.alarms)))
