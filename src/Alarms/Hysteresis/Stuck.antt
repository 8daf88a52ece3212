-- ===== src/Alarms/Hysteresis/Stuck.antt =====
-- When a register counts as frozen (api/alarms/stuck.ts).
use gateway_monitoring_platf.Prelude.{
  ℕ, ◌+◌, ◌≡◌, Option, none, some, Bool, true, not, ◌&&◌, refl, List, [], ◌∷◌, ltb, leb,
  if◌then◌else◌, All,
}
use gateway_monitoring_platf.Alarms.Hysteresis.{StuckRecord, suspect, unchanged, stuck_step}

module _ {ℓ} {V : Type ℓ} (same : V → V → Bool) where
  -- What the evaluator remembers after some samples, each a value and its time.
  abbrev pub remember : ℕ → Option (StuckRecord V) → List (V × ℕ) → Option (StuckRecord V)
  remember window prev [] = prev
  remember window prev ((v, t) ∷ samples) =
      remember window (some (stuck_step same prev v t window).next) samples

  -- The value differs from the one remembered, or is the first.
  abbrev pub starts_run : Option (StuckRecord V) → V → Bool
  starts_run none v = true
  starts_run (some prev) v = not (same prev.value v)

  remember-run :
      (window : ℕ) (rec : StuckRecord V) (run : List (V × ℕ))
      → All (λ s. same rec.value s.0 ≡ true) run
      → remember window (some rec) run ≡ some rec
  unfolding stuck_step
  remember-run window rec [] h = refl
  remember-run window rec ((v, t) ∷ run) h = rw h.0 (remember-run window rec run h.1)

  -- A run of samples that all repeat the value `v` first seen at `first`: the next repetition is
  -- suspect exactly when the rule has a window and the run has lasted that long, however the samples
  -- in between are spaced and whatever came before the run.
  pub stuck_step-run :
      (prev : Option (StuckRecord V)) (v w : V) (first now window : ℕ) (run : List (V × ℕ))
      → starts_run prev v ≡ true
      → All (λ s. same v s.0 ≡ true) run
      → same v w ≡ true
      → (stuck_step same (remember window prev ((v, first) ∷ run)) w now window).kind
        ≡ (if ltb 0 window && leb (first + window) now then suspect window else unchanged)
  unfolding stuck_step
  stuck_step-run none v w first now window run s h e =
      rw (remember-run window (record { value = v; since = first }) run h, e) refl
  stuck_step-run (some prev) v w first now window run s h e =
      rw s (rw (remember-run window (record { value = v; since = first }) run h, e) refl)
