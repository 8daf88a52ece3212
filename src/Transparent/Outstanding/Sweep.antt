-- ===== src/Transparent/Outstanding/Sweep.antt =====
-- Sizes of the registry, and what the sweep removes (api/mqtt/c30-outstanding.ts).
use gateway_monitoring_platf.Prelude.{
  ◌≡◌, refl, ◌<◌, ◌≤◌, ℕ, ◌+◌, true, not, arith, List, [], ◌∷◌, All, length, filter, length-append,
  length-filter_split, All-filter_test, All-append, All-map,
}
use gateway_monitoring_platf.Transparent.Outstanding.{
  OutstandingRead, Key, Registry, is_alive, keep_alive, sweep_alive, sweep_expired,
  outstanding_size,
}

abbrev pub AllEntries : (OutstandingRead → Type 0) → Registry → Type 0
AllEntries P reg = All (λ b. All P b.1) reg

keep_alive-size :
    (k : Key) (es : List OutstandingRead) (reg : Registry)
    → outstanding_size (keep_alive k es reg) ≡ length es + outstanding_size reg
unfolding outstanding_size
keep_alive-size k [] reg = omega arith
keep_alive-size k (e ∷ es) reg = refl

keep_alive-All :
    (P : OutstandingRead → Type 0) (k : Key) (es : List OutstandingRead) (reg : Registry)
    → All P es
    → AllEntries P reg
    → AllEntries P (keep_alive k es reg)
keep_alive-All P k [] reg h t = t
keep_alive-All P k (e ∷ es) reg h t = (h, t)

is_over : (now : ℕ) (e : OutstandingRead) → not (is_alive now e) ≡ true → e.deadline ≤ now
unfolding is_alive
is_over now e h = ground arith

is_alive_lem : (now : ℕ) (e : OutstandingRead) → is_alive now e ≡ true → now < e.deadline
unfolding is_alive
is_alive_lem now e h = ground arith

-- A sweep loses nothing: each entry is either returned, and then its deadline has passed, or kept,
-- and then it has not.
pub sweep_lem :
    (now : ℕ) (reg : Registry)
    → (length (sweep_expired now reg) + outstanding_size (sweep_alive now reg)
        ≡ outstanding_size reg)
      × All (λ e. e.deadline ≤ now) (sweep_expired now reg)
      × AllEntries (λ e. now < e.deadline) (sweep_alive now reg)
unfolding sweep_expired sweep_alive outstanding_size
sweep_lem now [] = (omega arith, tt, tt)
sweep_lem now ((k, es) ∷ reg) =
    let (size, expired, kept) = sweep_lem now reg in
    let alive = filter (is_alive now) es in
    let over = filter (λ e. not (is_alive now e)) es in
    (
      omega (
        arith,
        size,
        length-append {0} over (sweep_expired now reg),
        keep_alive-size k alive (sweep_alive now reg),
        length-filter_split {0} (is_alive now) es,
      ),
      All-append _ over (sweep_expired now reg)
          (All-map (λ e h. is_over now e h) over (All-filter_test (λ e. not (is_alive now e)) es))
          expired,
      keep_alive-All _ k alive (sweep_alive now reg)
          (All-map (λ e h. is_alive_lem now e h) alive (All-filter_test (is_alive now) es)) kept,
    )
