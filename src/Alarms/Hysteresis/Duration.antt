-- ===== src/Alarms/Hysteresis/Duration.antt =====
-- How long a condition holds before its alarm (api/alarms/hysteresis.ts).
use gateway_monitoring_platf.Prelude.{
  ℕ, ◌+◌, ◌≡◌, inl, inr, none, some, Bool, true, false, refl, arith, List, [], ◌∷◌, leb,
  if◌then◌else◌, All, ◌||◌, Bool-cases, is_some,
}
use gateway_monitoring_platf.Alarms.Hysteresis.{
  BreachRecord, Action, none_due, raise, clear, cleared, on_breach, on_recovery, alarm_transition,
}

-- A sample: its time, and whether it violates the threshold.
abbrev pub Sample : Type 0
Sample = ℕ × Bool

abbrev is_raise : Action → ℕ
is_raise raise = 1
is_raise _ = 0

-- How often the samples raise the alarm, for one duration.
unfoldable pub raises : ℕ → BreachRecord → List Sample → ℕ
raises duration rec [] = 0
raises duration rec ((now, breached) ∷ samples) =
    let step = alarm_transition rec breached now duration in
    is_raise step.action + raises duration step.next samples

abbrev pub AllBreach : List Sample → Type 0
AllBreach samples = All (λ s. s.1 ≡ true) samples

-- Some sample is taken at `time` or later.
abbrev pub reaches : ℕ → List Sample → Bool
reaches time [] = false
reaches time ((now, _) ∷ samples) = leb time now || reaches time samples

raises-raised :
    (duration at : ℕ) (rec : BreachRecord) (samples : List Sample)
    → rec.raised_at ≡ some at
    → AllBreach samples
    → raises duration rec samples ≡ 0
unfolding raises alarm_transition on_breach
raises-raised duration at rec [] r h = refl
raises-raised duration at rec ((now, b) ∷ samples) r h = ground (
  arith,
  raises-raised duration at (alarm_transition rec true now duration).next samples (ground arith)
      h.1,
)

raises-young :
    (duration since : ℕ) (rec : BreachRecord) (samples : List Sample)
    → rec.since ≡ some since
    → rec.raised_at ≡ none
    → AllBreach samples
    → raises duration rec samples ≡ (if reaches (since + duration) samples then 1 else 0)
unfolding raises alarm_transition on_breach
raises-young duration since rec [] s r h = refl
raises-young duration since rec ((now, b) ∷ samples) s r h =
    elim (Bool-cases (leb (since + duration) now)) [
      | inl due ↦
          let next = (alarm_transition rec true now duration).next in
          ground (arith, raises-raised duration now next samples (ground arith) h.1)
      | inr early ↦
          let next = (alarm_transition rec true now duration).next in
          ground (arith, raises-young duration since next samples (ground arith) (ground arith) h.1)
    ]

-- While a breach that starts at `first` goes on without a break, the alarm is raised exactly once if
-- some sample of it is taken when the duration has passed, and never otherwise.
pub raises_once :
    (duration first : ℕ) (samples : List Sample)
    → AllBreach samples
    → raises duration cleared ((first, true) ∷ samples)
      ≡ (if reaches (first + duration) ((first, true) ∷ samples) then 1 else 0)
unfolding raises alarm_transition on_breach
raises_once duration first samples h = elim (Bool-cases (leb (first + duration) first)) [
  | inl due ↦
      let next = (alarm_transition cleared true first duration).next in
      ground (arith, raises-raised duration first next samples (ground arith) h)
  | inr early ↦
      let next = (alarm_transition cleared true first duration).next in
      ground (arith, raises-young duration first next samples (ground arith) (ground arith) h)
]

-- The actions that the samples cause, in their order.
unfoldable pub actions : ℕ → BreachRecord → List Sample → List Action
actions duration rec [] = []
actions duration rec ((now, breached) ∷ samples) =
    let step = alarm_transition rec breached now duration in
    step.action ∷ actions duration step.next samples

-- Raises and clears take turns, the first being a raise or, where an alarm is open, a clear.
abbrev pub TakeTurns : Bool → List Action → Type 0
TakeTurns open_one [] = Unit
TakeTurns open_one (none_due ∷ acts) = TakeTurns open_one acts
TakeTurns open_one (raise ∷ acts) = (open_one ≡ false) × TakeTurns true acts
TakeTurns open_one (clear ∷ acts) = (open_one ≡ true) × TakeTurns false acts

abbrev pub is_open : BreachRecord → Bool
is_open rec = is_some rec.raised_at

-- Whatever the samples, an alarm is never raised while one is open and never cleared while none is.
pub actions-TakeTurns :
    (duration : ℕ) (rec : BreachRecord) (samples : List Sample)
    → TakeTurns (is_open rec) (actions duration rec samples)
unfolding actions alarm_transition on_breach on_recovery
actions-TakeTurns duration rec [] = tt
actions-TakeTurns duration rec ((now, b) ∷ samples) =
    let next = (alarm_transition rec b now duration).next in
    ground (arith, actions-TakeTurns duration next samples)
