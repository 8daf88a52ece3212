-- ===== src/Alarms/Notify/Once.antt =====
-- Nobody is paged twice for the same (api/alarms/notify.ts).
use gateway_monitoring_platf.Prelude.{
  ℕ, ◌+◌, ◌≤◌, ◌≡◌, refl, Option, none, some, Bool, true, false, ◌&&◌, List, [], ◌∷◌, ◌++◌, ◌==◌,
  if◌then◌else◌, arith, Bool-cases, inl, inr, take, filter,
}
use gateway_monitoring_platf.Alarms.Oncall.{SuppressionRow}
use gateway_monitoring_platf.Alarms.Notify.{
  NotificationKind, initial, escalation, resolved, same_kind, Channel, Notification, AlarmRow, Site,
  Page, Desk, has_row, page_one, page_all, dispatch_to_channels, recipients, find_alarm, breach_of,
  escalate_of, escalate_all, suppression_for, is_reason, is_stale, breach_found, resolved_found,
  Call, breaches, resolves, sweeps, perform,
}

abbrev pub count_rows : ℕ → ℕ → NotificationKind → List Notification → ℕ
count_rows alarm channel kind [] = 0
count_rows alarm channel kind (n ∷ ns) =
    if n.alarm_id == alarm && n.channel_id == channel && same_kind n.kind kind
    then count_rows alarm channel kind ns + 1
    else count_rows alarm channel kind ns

abbrev pub count_pages : ℕ → ℕ → NotificationKind → List Page → ℕ
count_pages alarm channel kind [] = 0
count_pages alarm channel kind (p ∷ ps) =
    if p.alarm_id == alarm && p.channel.id == channel && same_kind p.kind kind
    then count_pages alarm channel kind ps + 1
    else count_pages alarm channel kind ps

-- Each page has its row, and there is one at most for an alarm, a channel and a kind.
abbrev pub AtMostOnce : Desk → Type 0
AtMostOnce d =
    (alarm channel : ℕ) (kind : NotificationKind)
    → (count_pages alarm channel kind d.pages ≡ count_rows alarm channel kind d.notifications)
      × (count_pages alarm channel kind d.pages ≤ 1)

same_kind-eq : (k j : NotificationKind) → same_kind k j ≡ true → k ≡ j
same_kind-eq initial initial h = refl
same_kind-eq escalation escalation h = refl
same_kind-eq resolved resolved h = refl
same_kind-eq initial escalation h = cc
same_kind-eq initial resolved h = cc
same_kind-eq escalation initial h = cc
same_kind-eq escalation resolved h = cc
same_kind-eq resolved initial h = cc
same_kind-eq resolved escalation h = cc

count_rows-append :
    (a c : ℕ) (k : NotificationKind) (ns ms : List Notification)
    → count_rows a c k (ns ++ ms) ≡ count_rows a c k ns + count_rows a c k ms
count_rows-append a c k [] ms = omega arith
count_rows-append a c k (n ∷ ns) ms = ground (arith, count_rows-append a c k ns ms)

count_pages-append :
    (a c : ℕ) (k : NotificationKind) (ps qs : List Page)
    → count_pages a c k (ps ++ qs) ≡ count_pages a c k ps + count_pages a c k qs
count_pages-append a c k [] qs = omega arith
count_pages-append a c k (p ∷ ps) qs = ground (arith, count_pages-append a c k ps qs)

module _ (site : Site) where
  count_rows-none :
      (a c : ℕ) (k : NotificationKind) (ns : List Notification)
      → has_row a c k ns ≡ false
      → count_rows a c k ns ≡ 0
  count_rows-none a c k [] h = refl
  count_rows-none a c k (n ∷ ns) h = ground (arith, count_rows-none a c k ns)

  count_rows-hit :
      (a a' c c' : ℕ) (k k' : NotificationKind) (ns : List Notification)
      → (a == a' && c == c' && same_kind k k') ≡ true
      → has_row a c k ns ≡ false
      → count_rows a' c' k' ns ≡ 0
  count_rows-hit a a' c c' k k' ns hit new =
      let same_alarm : a ≡ a' = ground arith in
      let same_channel : c ≡ c' = ground arith in
      let same = same_kind-eq k k' (ground arith) in
      rw (← same_alarm, ← same_channel, ← same) (count_rows-none a c k ns new)

  module _ (goes : Page → Bool) where
    page_one-AtMostOnce :
        (a : AlarmRow) (kind : NotificationKind) (ch : Channel) (sent : ℕ) (d : Desk)
        → AtMostOnce d
        → AtMostOnce (page_one site goes a kind ch (sent, d)).1
    unfolding page_one
    page_one-AtMostOnce a kind ch sent d once alarm channel k =
        elim (Bool-cases (has_row a.id ch.id kind d.notifications)) [
          | inl dup ↦ rw dup (once alarm channel k)
          | inr new ↦ elim (Bool-cases (a.id == alarm && ch.id == channel && same_kind kind k)) [
            | inl hit ↦
                let zero_rows =
                  count_rows-hit a.id alarm ch.id channel kind k d.notifications hit new in
                rw
                  (
                    new,
                    count_pages-append alarm channel k d.pages _,
                    count_rows-append alarm channel k d.notifications _,
                    hit,
                  )
                  (
                    omega (arith, once alarm channel k),
                    omega (arith, once alarm channel k, zero_rows),
                  )
            | inr miss ↦
                rw
                  (
                    new,
                    count_pages-append alarm channel k d.pages _,
                    count_rows-append alarm channel k d.notifications _,
                    miss,
                  )
                  (omega (arith, once alarm channel k), omega (arith, once alarm channel k))
          ]
        ]

    page_all-AtMostOnce :
        (a : AlarmRow) (kind : NotificationKind) (chs : List Channel) (sent : ℕ) (d : Desk)
        → AtMostOnce d
        → AtMostOnce (page_all site goes a kind chs (sent, d)).1
    unfolding page_all
    page_all-AtMostOnce a kind [] sent d once = once
    page_all-AtMostOnce a kind (ch ∷ chs) sent d once =
        let (sent', d') = page_one site goes a kind ch (sent, d) in
        page_all-AtMostOnce a kind chs sent' d' (page_one-AtMostOnce a kind ch sent d once)

    dispatch-AtMostOnce :
        (a : AlarmRow) (kind : NotificationKind) (now : ℕ) (d : Desk)
        → AtMostOnce d
        → AtMostOnce (dispatch_to_channels site goes a kind now d).1
    unfolding dispatch_to_channels
    dispatch-AtMostOnce a kind now d once =
        page_all-AtMostOnce a kind (recipients site a kind now d.notifications) 0 d once

    after_breach :
        (a : AlarmRow) (s : Option SuppressionRow) (now : ℕ) (d : Desk)
        → AtMostOnce d
        → AtMostOnce (breach_of site goes a s now d)
    after_breach a (some s) now d once = once
    after_breach a none now d once = dispatch-AtMostOnce a initial now _ once

    after_round :
        (a : AlarmRow) (s : Option SuppressionRow) (now n m : ℕ) (d : Desk)
        → AtMostOnce d
        → AtMostOnce (escalate_of site goes a s now ((n, m), d)).1
    after_round a (some s) now n m d once =
        elim (Bool-cases (is_reason (site.reason_of s) a.suppressed_reason)) [
          | inl same ↦ rw same once
          | inr other ↦ rw other once
        ]
    after_round a none now n m d once = dispatch-AtMostOnce a escalation now d once

    escalate_all-AtMostOnce :
        (alarms : List AlarmRow) (now n m : ℕ) (d : Desk)
        → AtMostOnce d
        → AtMostOnce (escalate_all site goes alarms now ((n, m), d)).1
    unfolding escalate_all
    escalate_all-AtMostOnce [] now n m d once = once
    escalate_all-AtMostOnce (a ∷ alarms) now n m d once =
        let ((n', m'), d') = escalate_of site goes a (suppression_for site a now) now ((n, m), d) in
        escalate_all-AtMostOnce alarms now n' m' d'
          (after_round a (suppression_for site a now) now n m d once)

    after_found :
        (o : Option AlarmRow) (now : ℕ) (d : Desk)
        → AtMostOnce d
        → AtMostOnce (breach_found site goes o now d)
          × AtMostOnce (resolved_found site goes o now d)
    after_found none now d once = (once, once)
    after_found (some a) now d once = (
      after_breach a (suppression_for site a now) now d once,
      dispatch-AtMostOnce a resolved now _ once,
    )

  perform-AtMostOnce : (call : Call) (d : Desk) → AtMostOnce d → AtMostOnce (perform site call d)
  unfolding perform
  perform-AtMostOnce (breaches goes id now) d once =
      (after_found goes (find_alarm id d.alarms) now d once).0
  perform-AtMostOnce (resolves goes id now) d once =
      (after_found goes (find_alarm id d.alarms) now d once).1
  perform-AtMostOnce (sweeps goes now) d once =
      escalate_all-AtMostOnce goes (take 100 (filter (is_stale site now) d.alarms)) now 0 0 d once

  unfoldable pub perform_all : List Call → Desk → Desk
  unfolding perform
  perform_all [] d = d
  perform_all (call ∷ calls) d = perform_all calls (perform site call d)

  -- Nobody is paged twice for the same. However often an alarm is notified, resolved and swept, in
  -- any order and however the dispatches go, the pages of an alarm to a channel of one kind are as
  -- many as its rows in alarm_notifications, and these are one at most, if so at the start. So a page
  -- that failed is not sent again either.
  pub perform_all-AtMostOnce :
      (calls : List Call) (d : Desk) → AtMostOnce d → AtMostOnce (perform_all calls d)
  unfolding perform_all
  perform_all-AtMostOnce [] d once = once
  perform_all-AtMostOnce (call ∷ calls) d once =
      perform_all-AtMostOnce calls (perform site call d) (perform-AtMostOnce call d once)
