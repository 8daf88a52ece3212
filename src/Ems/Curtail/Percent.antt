-- ===== src/Ems/Curtail/Percent.antt =====
-- The percentage that an inverter's power-limit register gets (api/ems/curtail.ts, limitPct).
use gateway_monitoring_platf.Prelude.{
  ◌≡◌, ◌<◌, ◌≤◌, ℕ, ◌+◌, ◌*◌, ◌-◌, ◌/◌, arith, refl, pos_part, Bool-cases, inl, inr, ◌==◌,
}
use gateway_monitoring_platf.Ems.Curtail.{AssetShare, limit_pct}

-- The rounded quotient of a * 1000 by r.
quotient_bounds :
    (a r q : ℕ)
    → 0 < r
    → q ≡ (2 * (a * 1000) + r) / (2 * r)
    → (2 * (q * r) ≤ 2 * (a * 1000) + r) × (2 * (a * 1000) ≤ 2 * (q * r) + r)
quotient_bounds a r q h e = grind arith

quotient_le : (a r q : ℕ) → 0 < r → a ≤ r → q ≡ (2 * (a * 1000) + r) / (2 * r) → q ≤ 1000
quotient_le a r q h l e = grind (arith, quotient_bounds a r q h e)

quotient_all : (a r : ℕ) → 0 < r → a ≡ r → (2 * (a * 1000) + r) / (2 * r) ≡ 1000
quotient_all a r h e = grind (arith, quotient_bounds a r ((2 * (a * 1000) + r) / (2 * r)) h refl)

quotient_none : (a r : ℕ) → 0 < r → a ≡ 0 → (2 * (a * 1000) + r) / (2 * r) ≡ 0
quotient_none a r h e = grind (arith, quotient_bounds a r ((2 * (a * 1000) + r) / (2 * r)) h refl)

-- The register gets at most 100 %; all of it without a rating or without a share, and nothing of
-- it when the share takes the whole rating. In between the power that the percentage allows is
-- within a twentieth of a percent of the rating that is left.
pub limit_pct_bounds :
    (s : AssetShare)
    → let r = pos_part s.rated_kw in
      (limit_pct s ≤ 1000)
      × (r ≡ 0 → limit_pct s ≡ 1000)
      × (s.take_kw ≡ 0 → limit_pct s ≡ 1000)
      × (0 < r → r ≤ s.take_kw → limit_pct s ≡ 0)
      × (0 < r → (2 * (limit_pct s * r) ≤ 2 * ((r - s.take_kw) * 1000) + r))
      × (0 < r → 2 * ((r - s.take_kw) * 1000) ≤ 2 * (limit_pct s * r) + r)
unfolding limit_pct
limit_pct_bounds s = elim (Bool-cases (r == 0)) [
  | inl z ↦ rw z (ground arith)
  | inr nz ↦
      let pos_r : 0 < r = ground arith in
      let q = (2 * (a * 1000) + r) / (2 * r) in
      let (low, high) = quotient_bounds a r q pos_r refl in
      rw nz (
        quotient_le a r q pos_r (omega arith) refl,
        λ e. absurd (omega arith),
        λ e. quotient_all a r pos_r (omega arith),
        λ _ le. quotient_none a r pos_r (omega arith),
        λ _. low,
        λ _. high,
      )
]
  where
    r : ℕ
    r = pos_part s.rated_kw

    a : ℕ
    a = r - s.take_kw
