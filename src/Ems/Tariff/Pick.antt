-- ===== src/Ems/Tariff/Pick.antt =====
-- Which tariff applies to a battery, pickTariff of api/ems/tariff.ts.
use gateway_monitoring_platf.Prelude.{
  ℕ, ◌≤◌, ◌<◌, ◌≡◌, refl, Option, none, some, Bool, true, false, ◌&&◌, ◌||◌, List, [], ◌∷◌, ltb,
  ◌==◌, if◌then◌else◌, arith, All, All-map, IsIn, Bool-cases, inl, inr, ◌⊎◌,
}

pub record TariffCandidate : Type 0 where
  pub id : ℕ
  pub site_id : Option ℕ
  pub org_id : Option ℕ

abbrev pub is_it : Option ℕ → ℕ → Bool
is_it none x = false
is_it (some y) x = y == x

abbrev pub null_or_it : Option ℕ → Option ℕ → Bool
null_or_it own none = true
null_or_it own (some x) = is_it own x

module _ (site_id org_id : Option ℕ) where
  abbrev pub tier_of : Option ℕ → Option ℕ → Option ℕ
  tier_of (some s) org = if is_it site_id s && null_or_it org_id org then some 0 else none
  tier_of none (some o) = if is_it org_id o then some 1 else none
  tier_of none none = some 2

  -- `none` is the -1 of a row that does not apply.
  abbrev pub tier : TariffCandidate → Option ℕ
  tier r = tier_of r.site_id r.org_id

  -- The best row so far with its tier; `none` has the tier Infinity.
  abbrev pub wins : TariffCandidate → ℕ → Option (TariffCandidate × ℕ) → Bool
  wins r t none = true
  wins r t (some (best, best_tier)) = ltb t best_tier || (t == best_tier && ltb best.id r.id)

  abbrev pub keep :
      TariffCandidate → Option ℕ → Option (TariffCandidate × ℕ) → Option (TariffCandidate × ℕ)
  keep r none best = best
  keep r (some t) best = if wins r t best then some (r, t) else best

  unfoldable pub pick_from :
      List TariffCandidate → Option (TariffCandidate × ℕ) → Option (TariffCandidate × ℕ)
  pick_from [] best = best
  pick_from (r ∷ rs) best = pick_from rs (keep r (tier r) best)

  abbrev pub row_of : Option (TariffCandidate × ℕ) → Option TariffCandidate
  row_of none = none
  row_of (some (r, t)) = some r

  unfoldable pub pick_tariff : List TariffCandidate → Option TariffCandidate
  unfolding pick_from
  pick_tariff rows = row_of (pick_from rows none)

  -- That a row does not go before the best: a more specific tier first, then the later one.
  abbrev pub IsBehind : TariffCandidate → ℕ → Option ℕ → TariffCandidate → Type 0
  IsBehind best b none r = Unit
  IsBehind best b (some t) r = (b < t) ⊎ ((b ≡ t) × (r.id ≤ best.id))

  abbrev AllBehind : TariffCandidate → ℕ → List TariffCandidate → Type 0
  AllBehind best b rows = All (λ r. IsBehind best b (tier r) r) rows

  -- What the loop holds after some rows.
  abbrev Holds : List TariffCandidate → Option (TariffCandidate × ℕ) → Type 0
  Holds seen none = All (λ r. tier r ≡ none) seen
  Holds seen (some (best, b)) = IsIn best seen × (tier best ≡ some b) × AllBehind best b seen

  -- A row that wins goes before all that the best goes before.
  IsBehind-wins :
      (r best x : TariffCandidate) (t b : ℕ) (o : Option ℕ)
      → wins r t (some (best, b)) ≡ true
      → IsBehind best b o x
      → IsBehind r t o x
  IsBehind-wins r best x t b none w h = tt
  IsBehind-wins r best x t b (some u) w (inl later) = inl (ground arith)
  IsBehind-wins r best x t b (some u) w (inr (same, older)) = elim (Bool-cases (ltb t b)) [
    | inl first ↦ inl (ground arith)
    | inr tie ↦ inr (ground arith, ground arith)
  ]

  IsBehind-loses :
      (r best : TariffCandidate) (t b : ℕ)
      → wins r t (some (best, b)) ≡ false
      → IsBehind best b (some t) r
  IsBehind-loses r best t b w = elim (Bool-cases (ltb b t)) [
    | inl later ↦ inl (ground arith)
    | inr tie ↦ inr (ground arith, ground arith)
  ]

  keep-Holds :
      (r : TariffCandidate) (o : Option ℕ) (seen : List TariffCandidate)
      (best : Option (TariffCandidate × ℕ))
      → tier r ≡ o
      → Holds seen best
      → Holds (r ∷ seen) (keep r o best)
  keep-Holds r none seen none e h = (e, h)
  keep-Holds r none seen (some (best, b)) e (there, at, all) = (inr there, at, (rw e tt, all))
  keep-Holds r (some t) seen none e h = (
    inl refl,
    e,
    (rw e (inr (refl, omega arith)), All-map (λ x (k : tier x ≡ none). rw k tt) seen h),
  )
  keep-Holds r (some t) seen (some (best, b)) e (there, at, all) =
      elim (Bool-cases (wins r t (some (best, b)))) [
        | inl won ↦ rw won (
          inl refl,
          e,
          (
            rw e (inr (refl, omega arith)),
            All-map (λ x k. IsBehind-wins r best x t b (tier x) won k) seen all,
          ),
        )
        | inr lost ↦ rw lost (inr there, at, (rw e (IsBehind-loses r best t b lost), all))
      ]

  -- What the loop returns after the rest of the rows.
  abbrev Found : List TariffCandidate → List TariffCandidate → Option (TariffCandidate × ℕ) → Type 0
  Found rest seen none = All (λ r. tier r ≡ none) rest × All (λ r. tier r ≡ none) seen
  Found rest seen (some (best, b)) =
      (IsIn best rest ⊎ IsIn best seen)
      × (tier best ≡ some b)
      × AllBehind best b rest
      × AllBehind best b seen

  Found-cons :
      (r : TariffCandidate) (rest seen : List TariffCandidate) (o : Option (TariffCandidate × ℕ))
      → Found rest (r ∷ seen) o
      → Found (r ∷ rest) seen o
  Found-cons r rest seen none (all, (first, old)) = ((first, all), old)
  Found-cons r rest seen (some (best, b)) (inl there, at, all, (first, old)) =
      (inl (inr there), at, (first, all), old)
  Found-cons r rest seen (some (best, b)) (inr (inl here), at, all, (first, old)) =
      (inl (inl here), at, (first, all), old)
  Found-cons r rest seen (some (best, b)) (inr (inr there), at, all, (first, old)) =
      (inr there, at, (first, all), old)

  pick_from-Found :
      (rest seen : List TariffCandidate) (best : Option (TariffCandidate × ℕ))
      → Holds seen best
      → Found rest seen (pick_from rest best)
  unfolding pick_from
  pick_from-Found [] seen none h = (tt, h)
  pick_from-Found [] seen (some (best, b)) (there, at, all) = (inr there, at, tt, all)
  pick_from-Found (r ∷ rest) seen best h =
      Found-cons r rest seen (pick_from rest (keep r (tier r) best)) (
        pick_from-Found rest (r ∷ seen) (keep r (tier r) best)
          (keep-Holds r (tier r) seen best refl h))

  -- What may be picked from the rows.
  abbrev pub IsPick : List TariffCandidate → Option TariffCandidate → Type 0
  IsPick rows none = All (λ r. tier r ≡ none) rows
  IsPick rows (some best) =
      IsIn best rows × ((b : ℕ) × (tier best ≡ some b) × All (λ r. IsBehind best b (tier r) r) rows)

  Found-IsPick :
      (rows : List TariffCandidate) (o : Option (TariffCandidate × ℕ))
      → Found rows [] o
      → IsPick rows (row_of o)
  Found-IsPick rows none h = h.0
  Found-IsPick rows (some (best, b)) (inr never, at, all, old) = elim never [ ]
  Found-IsPick rows (some (best, b)) (inl there, at, all, old) = (there, (b, at, all))

  -- The tariff that is picked is one of the rows and applies to the battery, and every row that
  -- applies is less specific (its site, then its organization, then all), or as specific and not
  -- newer; nothing is picked exactly where no row applies.
  pub pick_tariff_lem : (rows : List TariffCandidate) → IsPick rows (pick_tariff rows)
  unfolding pick_tariff
  pick_tariff_lem rows = Found-IsPick rows (pick_from rows none) (pick_from-Found rows [] none tt)
