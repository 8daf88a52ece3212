-- ===== src/Ems/Curtail/Shares.antt =====
-- How a curtailment is shared out in priority order (api/ems/curtail.ts, allocateCurtailment).
use mathlib.Core.List.{Perm}
use native.Mathlib.Decide.{dec_le}
use gateway_monitoring_platf.Prelude.{
  ◌≡◌, ◌⊎◌, inl, inr, ◌<◌, ◌≤◌, ℕ, ◌+◌, ◌*◌, ◌-◌, min, true, false, ℤ, pos_part, arith, refl, List,
  [], ◌∷◌, All, sum, length, map, IsOrdered, sort_by-perm, sort_by-IsOrdered,
}
use gateway_monitoring_platf.Ems.Curtail.{
  CurtailAsset, AssetShare, goes_first, sort_assets, available, round_milli, allocate_from,
  allocate_curtailment,
}

-- Lower priority numbers first, and lower meter ids first among equal priorities.
abbrev pub IsBefore : CurtailAsset → CurtailAsset → Type 0
IsBefore a b = (a.priority < b.priority) ⊎ ((a.priority ≡ b.priority) × (a.meter_id ≤ b.meter_id))

goes_first-IsBefore : (a b : CurtailAsset) → goes_first a b ≡ true → IsBefore a b
unfolding goes_first
goes_first-IsBefore a b h = ground arith

not_first-IsBefore : (a b : CurtailAsset) → goes_first a b ≡ false → IsBefore b a
unfolding goes_first
not_first-IsBefore a b h = ground arith

IsBefore-trans : (a b c : CurtailAsset) → IsBefore a b → IsBefore b c → IsBefore a c
IsBefore-trans a b c h k = ground arith

-- The curtailment is shared in an order that lists every asset as often as it was given, by
-- priority number and then by meter id.
sort_assets_lem :
    (assets : List CurtailAsset)
    → Perm (sort_assets assets) assets × IsOrdered IsBefore (sort_assets assets)
unfolding sort_assets
sort_assets_lem assets = (
  sort_by-perm goes_first assets,
  sort_by-IsOrdered goes_first IsBefore goes_first-IsBefore not_first-IsBefore IsBefore-trans
      assets,
)

-- The shares follow the assets one by one. A share never exceeds what its asset makes, to a
-- thousandth of a kW, and an asset is drawn on only when all before it give all that they make.
abbrev pub IsGreedy : List CurtailAsset → List AssetShare → Type 0
IsGreedy [] [] = Unit
IsGreedy (a ∷ others) (s ∷ shares) =
    (s.meter_id ≡ a.meter_id)
    × (s.rated_kw ≡ a.rated_kw)
    × (s.take_kw ≤ round_milli (available a))
    × ((s.take_kw ≡ round_milli (available a)) ⊎ All (λ t. t.take_kw ≡ 0) shares)
    × IsGreedy others shares
IsGreedy _ _ = ⊥

allocate_zero :
    (assets : List CurtailAsset) (n : ℕ) → n ≡ 0 → All (λ t. t.take_kw ≡ 0) (allocate_from n assets)
unfolding allocate_from
allocate_zero [] n e = tt
allocate_zero (a ∷ others) n e = (omega arith, allocate_zero others _ (omega arith))

allocate_from-IsGreedy :
    (assets : List CurtailAsset) (n : ℕ) → IsGreedy assets (allocate_from n assets)
unfolding allocate_from
allocate_from-IsGreedy [] n = tt
allocate_from-IsGreedy (a ∷ others) n = (
  refl,
  refl,
  omega arith,
  elim (dec_le (available a) n) [
    | yes full ↦ inl (omega arith)
    | no part ↦ inr (allocate_zero others _ (omega arith))
  ],
  allocate_from-IsGreedy others _,
)

-- The shares are drawn greedily in priority order: each asset gives at most what it makes, and
-- one is drawn on only when all before it give all that they make. An asset whose output is
-- unknown gives nothing.
allocate_curtailment-IsGreedy :
    (total : ℤ) (assets : List CurtailAsset)
    → IsGreedy (sort_assets assets) (allocate_curtailment total assets)
unfolding allocate_curtailment
allocate_curtailment-IsGreedy total assets =
    allocate_from-IsGreedy (sort_assets assets) (pos_part total)

abbrev pub taken : List AssetShare → ℕ
taken shares = sum (map (λ s. s.take_kw) shares)

abbrev pub total_available : List CurtailAsset → ℕ
total_available assets = sum (map available assets)

allocate_from-taken :
    (assets : List CurtailAsset) (n : ℕ)
    → (taken (allocate_from n assets) ≤ min n (total_available assets) + 500 * length assets)
      × (min n (total_available assets) ≤ taken (allocate_from n assets) + 500 * length assets)
unfolding allocate_from
allocate_from-taken [] n = omega arith
allocate_from-taken (a ∷ others) n =
    omega (arith, allocate_from-taken others (n - min n (available a)))

-- The shares add up to the curtailment that was asked for, or to all that the assets make if that
-- is less, up to the rounding of each share to a thousandth of a kW.
allocate_curtailment-taken :
    (total : ℤ) (assets : List CurtailAsset)
    → let asked = min (pos_part total) (total_available (sort_assets assets)) in
      (taken (allocate_curtailment total assets) ≤ asked + 500 * length (sort_assets assets))
      × (asked ≤ taken (allocate_curtailment total assets) + 500 * length (sort_assets assets))
unfolding allocate_curtailment
allocate_curtailment-taken total assets = allocate_from-taken (sort_assets assets) (pos_part total)

-- A curtailment is shared greedily in priority order. The assets are taken by priority number and
-- then by meter id, each as often as it was given; each gives at most what it makes, to a thousandth
-- of a kW, and one is drawn on only when all before it give all that they make, an asset of unknown
-- output giving nothing; and the shares add up to what was asked for, or to all that the assets make
-- if that is less, up to half a thousandth of a kW for each asset.
pub allocate_curtailment_lem :
    (total : ℤ) (assets : List CurtailAsset)
    → let ordered = sort_assets assets in
      let shares = allocate_curtailment total assets in
      let asked = min (pos_part total) (total_available ordered) in
      Perm ordered assets
      × IsOrdered IsBefore ordered
      × IsGreedy ordered shares
      × (taken shares ≤ asked + 500 * length ordered)
      × (asked ≤ taken shares + 500 * length ordered)
allocate_curtailment_lem total assets =
    let (perm, ordered) = sort_assets_lem assets in
    let (low, high) = allocate_curtailment-taken total assets in
    (perm, ordered, allocate_curtailment-IsGreedy total assets, low, high)
