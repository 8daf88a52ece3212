-- ===== src/Telemetry/Merge/Reports.antt =====
-- What the merged reports keep of their parts (api/telemetry/merge.ts).
use gateway_monitoring_platf.Prelude.{
  ℤ, Option, none, some, leb_ℤ, total, total-sort_by, ℕ, ◌+◌, ◌≤◌, ◌<◌, ◌≡◌, refl, ◌∙◌, String,
  Bool, true, false, ◌&&◌, ◌||◌, not, List, [], ◌∷◌, leb, ◌==◌, str_eq, if◌then◌else◌, arith,
  All-zip, All-map, IsOrdered, sort_by, sort_by-IsOrdered,
}
use gateway_monitoring_platf.Telemetry.Merge.{
  flat, put_all, DailyReportRow, EnergyIntervalBucket, same_bucket, merge_bucket,
  merge_energy_buckets, HistoryPoint, same_ts, merge_point, merge_history_points,
}
use gateway_monitoring_platf.Telemetry.Merge.Laws.{
  any, any-sort_by, sort_by-pairs, put_all-total, put_all-any, put_all-Apart,
}

or_false : (b : Bool) → (b || false) ≡ b
or_false true = refl
or_false false = refl

-- What is counted of the rows of a key, on two rows of one key.
count_if :
    (on : Bool) (a b : ℕ)
    → (if on then a + b else 0) ≡ (if on then a else 0) + (if on then b else 0)
count_if true a b = refl
count_if false a b = refl

flag_if : (on a b : Bool) → (on && (a || b)) ≡ ((on && a) || (on && b))
flag_if true a b = refl
flag_if false a b = refl

-- A demand of `kw` or more.
abbrev pub reaches : ℤ → Option ℤ → Bool
reaches kw none = false
reaches kw (some demand) = leb_ℤ kw demand

start-same : (a b d : ℕ) → (a == b) ≡ true → (b == d) ≡ (a == d)
start-same a b d h = ground arith

-- A flag that merging keeps is in the rows exactly when it is in the parts.
module _ {R : Type 0} (same before : R → R → Bool) (merge : R → R → R) where
  kept-any :
      (p : R → Bool)
      → ((x r : R) → same x r ≡ true → p (merge x r) ≡ (p x || p r))
      → (rs : List R) → any p (sort_by before (put_all same merge rs [])) ≡ any p rs
  kept-any p keep rs =
      any-sort_by p before (put_all same merge rs [])
      ∙ put_all-any same merge p keep rs []
      ∙ or_false (any p rs)

  kept-total :
      (f : R → ℕ)
      → ((x r : R) → same x r ≡ true → f (merge x r) ≡ f x + f r)
      → (rs : List R) → total f (sort_by before (put_all same merge rs [])) ≡ total f rs
  kept-total f add rs = omega (
    arith,
    total-sort_by f before (put_all same merge rs []),
    put_all-total same merge f add rs [],
  )

-- What the rows report of one day.
abbrev pub samples_of : String → List DailyReportRow → ℕ
samples_of day rows = total (λ r. if str_eq r.day day then r.samples else 0) rows

abbrev pub has_reset : String → List DailyReportRow → Bool
has_reset day rows = any (λ r. str_eq r.day day && r.counter_reset) rows

-- A row of the day that is not marked as derived.
abbrev pub has_unmarked : String → List DailyReportRow → Bool
has_unmarked day rows = any (λ r. str_eq r.day day && not r.demand_derived) rows

abbrev pub has_demand : String → ℤ → List DailyReportRow → Bool
has_demand day kw rows = any (λ r. str_eq r.day day && reaches kw r.max_demand_kw) rows

-- What the buckets and points report of one start.
abbrev pub samples_at : ℕ → List EnergyIntervalBucket → ℕ
samples_at start bs = total (λ b. if b.bucket_start_sec == start then b.samples else 0) bs

abbrev pub has_estimate : ℕ → List EnergyIntervalBucket → Bool
has_estimate start bs = any (λ b. (b.bucket_start_sec == start) && b.estimated) bs

abbrev pub points_at : ℕ → List HistoryPoint → ℕ
points_at time ps = total (λ p. if p.ts == time then p.samples else 0) ps

-- Both of two relations between all pairs.
IsOrdered-zip :
    {R : Type 0} (S T U : R → R → Type 0) (xs : List R)
    → ((a b : R) → S a b → T a b → U a b)
    → IsOrdered S xs
    → IsOrdered T xs
    → IsOrdered U xs
IsOrdered-zip S T U [] both s t = tt
IsOrdered-zip S T U (x ∷ xs) both s t = (
  All-map (λ y (h : S x y × T x y). both x y h.0 h.1) xs (All-zip (S x) (T x) xs s.0 t.0),
  IsOrdered-zip S T U xs both s.1 t.1,
)

flip_eq : (a b : ℕ) → (a == b) ≡ false → (b == a) ≡ false
flip_eq a b h = ground arith

apart_lt : (a b : ℕ) → a ≤ b → (a == b) ≡ false → a < b
apart_lt a b le apart = ground arith

-- The rows of a merge by a number come in its strictly increasing order.
module _ {R : Type 0} (key : R → ℕ) (merge : R → R → R)
    (keeps : (x r : R) → key (merge x r) ≡ key x) where
  sorted-strict :
      (rs : List R)
      → IsOrdered
          (λ a b. key a < key b)
          (sort_by (λ a b. leb (key a) (key b)) (put_all (λ x r. key x == key r) merge rs []))
  sorted-strict rs =
      let before = λ (a b : R). leb (key a) (key b) in
      let rows = put_all (λ x r. key x == key r) merge rs [] in
      IsOrdered-zip (λ a b. key a ≤ key b) (λ a b. (key a == key b) ≡ false) (λ a b. key a < key b)
        (sort_by before rows) (λ a b le apart. apart_lt (key a) (key b) le apart)
        (sort_by-IsOrdered before (λ a b. key a ≤ key b) (λ a b h. ground arith)
          (λ a b h. ground arith) (λ a b c h k. omega arith) rows)
        (sort_by-pairs (λ a b. (key a == key b) ≡ false) (λ a b h. flip_eq (key a) (key b) h) before
          rows
          (put_all-Apart (λ x r. key x == key r) merge (λ x r y. rw (keeps x r) refl)
            (λ x r y. rw (keeps x r) refl) rs [] tt))

-- Each interval keeps its samples and its mark. Whatever the parts and the start, the samples of the
-- merged buckets of that start add up to those of its buckets in the parts, its bucket is marked as
-- estimated exactly when some bucket of that start in the parts is, and the buckets come at strictly
-- increasing starts, so none comes twice.
pub merge_energy_buckets_lem :
    (parts : List (List EnergyIntervalBucket)) (start : ℕ)
    → let buckets = merge_energy_buckets parts in
      (samples_at start buckets ≡ samples_at start (flat parts))
      × (has_estimate start buckets ≡ has_estimate start (flat parts))
      × IsOrdered (λ a b. a.bucket_start_sec < b.bucket_start_sec) buckets
unfolding merge_energy_buckets merge_bucket
merge_energy_buckets_lem parts start =
    let before = λ (a b : EnergyIntervalBucket). leb a.bucket_start_sec b.bucket_start_sec in
    (
      kept-total same_bucket before merge_bucket
          (λ b. if b.bucket_start_sec == start then b.samples else 0)
          (λ x b h.
            rw (start-same x.bucket_start_sec b.bucket_start_sec start h)
              (count_if (x.bucket_start_sec == start) x.samples b.samples))
          (flat parts),
      kept-any same_bucket before merge_bucket (λ b. (b.bucket_start_sec == start) && b.estimated)
          (λ x b h.
            rw (start-same x.bucket_start_sec b.bucket_start_sec start h)
              (flag_if (x.bucket_start_sec == start) x.estimated b.estimated))
          (flat parts),
      sorted-strict (λ b. b.bucket_start_sec) merge_bucket (λ x b. refl) (flat parts),
    )

-- Chart points keep their samples. Whatever the parts and the time, the samples of the merged points
-- of that time add up to those of its points in the parts, and the points come at strictly increasing
-- times.
pub merge_history_points_lem :
    (parts : List (List HistoryPoint)) (time : ℕ)
    → let points = merge_history_points parts in
      (points_at time points ≡ points_at time (flat parts)) × IsOrdered (λ a b. a.ts < b.ts) points
unfolding merge_history_points merge_point
merge_history_points_lem parts time = (
  kept-total same_ts (λ a b. leb a.ts b.ts) merge_point (λ p. if p.ts == time then p.samples else 0)
      (λ x p h. rw (start-same x.ts p.ts time h) (count_if (x.ts == time) x.samples p.samples))
      (flat parts),
  sorted-strict (λ p. p.ts) merge_point (λ x p. refl) (flat parts),
)
