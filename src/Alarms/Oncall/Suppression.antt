-- ===== src/Alarms/Oncall/Suppression.antt =====
-- Which suppression is in force (contracts/oncall.ts, activeSuppression).
use mathlib.Core.List.{Memᴰ}
use gateway_monitoring_platf.Prelude.{
  ℕ, ◌≡◌, ◌⊎◌, inl, inr, ◌<◌, ◌≤◌, Option, none, some, true, false, refl, arith, List, [], ◌∷◌, All,
  Bool-cases, ◌&&◌,
}
use gateway_monitoring_platf.Alarms.Oncall.{
  SuppressionRow, AlarmSubject, narrowness, applies, is_better, active_from, active_suppression,
}

-- The row `best` is at least as good as `row`: narrower, or as narrow and not older.
abbrev pub AtLeast : Option SuppressionRow → SuppressionRow → Type 0
AtLeast none row = ⊥
AtLeast (some best) row =
    (narrowness best.scope < narrowness row.scope)
    ⊎ ((narrowness best.scope ≡ narrowness row.scope) × (row.starts_at ≤ best.starts_at))

AtLeast-trans :
    (r : Option SuppressionRow) (b x : SuppressionRow)
    → AtLeast r b
    → AtLeast (some b) x
    → AtLeast r x
AtLeast-trans none b x h k = elim h [ ]
AtLeast-trans (some r) b x h k = ground arith

not_better : (b x : SuppressionRow) → is_better (some b) x ≡ false → AtLeast (some b) x
unfolding is_better
not_better b x h = ground arith

better : (b x : SuppressionRow) → is_better (some b) x ≡ true → AtLeast (some x) b
unfolding is_better
better b x h = ground arith

module _ (subject : AlarmSubject) (t : ℕ) where
  -- A result that comes from the row `best` so far and the rows to come.
  record IsBest (best : Option SuppressionRow) (rows : List SuppressionRow)
      (r : Option SuppressionRow) : Type 0 where
    over_best : (b : SuppressionRow) → best ≡ some b → AtLeast r b
    over_rows : All (λ x. applies subject t x ≡ true → AtLeast r x) rows
    origin :
        (r ≡ best)
        ⊎ ((b : SuppressionRow) × (r ≡ some b) × Memᴰ b rows × (applies subject t b ≡ true))

  AtLeast-self : (b : SuppressionRow) → AtLeast (some b) b
  AtLeast-self b = inr (refl, omega arith)

  -- A row that applies and is not better than the best so far.
  keeps :
      (x : SuppressionRow) (rows : List SuppressionRow) (best : Option SuppressionRow)
      {r : Option SuppressionRow}
      → IsBest best rows r
      → (applies subject t x && is_better best x) ≡ false
      → applies subject t x ≡ true
      → AtLeast r x
  unfolding is_better
  keeps x rows none b kept a = absurd (ground arith)
  keeps x rows (some c) {r} b kept a =
      AtLeast-trans r c x (b.over_best c refl) (not_better c x (ground arith))

  active_from-IsBest :
      (rows : List SuppressionRow) (best : Option SuppressionRow)
      → IsBest best rows (active_from subject t best rows)
  unfolding active_from
  active_from-IsBest [] best = record {
    over_best = λ b e. rw e (AtLeast-self b);
    over_rows = tt;
    origin = inl refl;
  }
  active_from-IsBest (x ∷ rows) best = elim (Bool-cases (applies subject t x && is_better best x)) [
    | inl taken ↦
        let b = active_from-IsBest rows (some x) in
        rw taken (record {
          over_best = λ c e. AtLeast-trans _ x c (b.over_best x refl) (better c x (ground arith));
          over_rows = ((λ _. b.over_best x refl), b.over_rows);
          origin = elim b.origin [
            | inl e ↦ inr (x, e, Memᴰ.head refl, ground arith)
            | inr (c, e, m, a) ↦ inr (c, e, Memᴰ.tail m, a)
          ];
        })
    | inr kept ↦
        let b = active_from-IsBest rows best in
        rw kept (record {
          over_best = b.over_best;
          over_rows = (keeps x rows best b kept, b.over_rows);
          origin = elim b.origin [ inl e ↦ inl e | inr (c, e, m, a) ↦ inr (c, e, Memᴰ.tail m, a) ];
        })
  ]

  -- The suppression in force is one of the rows that apply, and no row that applies is narrower, or
  -- as narrow and started later; there is none only if no row applies.
  pub active_suppression_lem :
      (rows : List SuppressionRow)
      → let r = active_suppression rows subject t in
        All (λ x. applies subject t x ≡ true → AtLeast r x) rows
        × ((r ≡ none)
            ⊎ ((b : SuppressionRow) × (r ≡ some b) × Memᴰ b rows × (applies subject t b ≡ true)))
  unfolding active_suppression
  active_suppression_lem rows = let b = active_from-IsBest rows none in (b.over_rows, b.origin)
