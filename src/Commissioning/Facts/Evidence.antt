-- ===== src/Commissioning/Facts/Evidence.antt =====
-- What stands behind a complete checklist in the tables (api/commissioning/evaluate.ts).
use gateway_monitoring_platf.Prelude.{
  ℕ, ◌+◌, ◌≡◌, ◌≢◌, ◌⊎◌, ◌<◌, ◌≤◌, inl, inr, refl, Option, none, some, Bool, true, false, arith,
  List, [], ◌∷◌, All, All-map, All-zip, All-filter_test, length, filter, map, find, ◌==◌, ◌||◌,
  Bool-cases, Option-cases, eq_iff,
}
use gateway_monitoring_platf.Commissioning.Checklist.{
  SiteFacts, StepResult, checklist_summary, evaluate_checklist,
}
use gateway_monitoring_platf.Commissioning.Checklist.Complete.{IsReady, evaluate_checklist_iff}
use gateway_monitoring_platf.Commissioning.Facts.{
  Tables, SiteRow, DeviceRow, VerificationStatus, draft, fresh_ms, is_fresh, is_draft, is_missing,
  is_online, profile_of, gateway_rows, device_rows, proven_rows, is_among, is_value, inherits_site,
  is_value_among, is_null_or_among, facts_of, site_facts, site_checklist,
}

-- Some element of the list is as `P` says.
abbrev pub Any {ℓ} : {A : Type ℓ} → (A → Type 0) → List A → Type 0
Any P [] = ⊥
Any P (x ∷ xs) = P x ⊎ Any P xs

module _ {ℓ} {A : Type ℓ} where
  length-filter_le : (p : A → Bool) (xs : List A) → length (filter p xs) ≤ length xs
  length-filter_le p [] = omega arith
  length-filter_le p (x ∷ xs) = ground (arith, length-filter_le p xs)

  All-unfiltered :
      (p : A → Bool) (xs : List A) → length (filter p xs) ≡ length xs → All (λ x. p x ≡ true) xs
  All-unfiltered p [] h = tt
  All-unfiltered p (x ∷ xs) h =
      let short = length-filter_le p xs in (ground arith, All-unfiltered p xs (ground arith))

  All-filter_none :
      (p : A → Bool) (xs : List A) → length (filter p xs) ≡ 0 → All (λ x. p x ≡ false) xs
  All-filter_none p [] h = tt
  All-filter_none p (x ∷ xs) h = (ground arith, All-filter_none p xs (ground arith))

  Any-filter :
      (P : A → Type 0) (p : A → Bool)
      → ((x : A) → p x ≡ true → P x)
      → (xs : List A) → 0 < length (filter p xs)
      → Any P xs
  Any-filter P p f [] h = elim h [ ]
  Any-filter P p f (x ∷ xs) h = elim (Bool-cases (p x)) [
    | inl here ↦ inl (f x here)
    | inr there ↦ inr (Any-filter P p f xs (rw there at h))
  ]

abbrev pub IsFresh : ℕ → Option ℕ → Type 0
IsFresh now seen = (at : ℕ) × (seen ≡ some at) × (now ≤ at + fresh_ms)

is_fresh-IsFresh : (now : ℕ) (seen : Option ℕ) → is_fresh now seen ≡ true → IsFresh now seen
is_fresh-IsFresh now none h = absurd (cc)
is_fresh-IsFresh now (some at) h = (at, refl, ground arith)

abbrev pub IsVerified : Option VerificationStatus → Type 0
IsVerified o = (v : VerificationStatus) × (o ≡ some v) × (v ≢ draft)

verified_lem :
    (o : Option VerificationStatus) → is_draft o ≡ false → is_missing o ≡ false → IsVerified o
verified_lem none h k = absurd (cc)
verified_lem (some v) h k = (v, refl, λ e. ground arith)

-- A device stands at a site by its own binding, or without one by that of its gateway.
abbrev pub StandsAt : Tables → ℕ → DeviceRow → Type 0
StandsAt db site_id d =
    (d.site_id ≡ some site_id)
    ⊎ ((d.site_id ≡ none)
        × (is_among (map (λ g. g.id) (gateway_rows db site_id)) d.gateway_id ≡ true))

own_site : (s : Option ℕ) (site_id : ℕ) → is_value s site_id ≡ true → s ≡ some site_id
own_site s site_id h = ground arith

null_lem : (s : Option ℕ) → is_null_or_among [] s ≡ true → s ≡ none
unfolding is_among
null_lem s h = ground arith

counted_lem :
    (gateway_ids : List ℕ) (d : DeviceRow) (site_id : ℕ)
    → (is_value d.site_id site_id || inherits_site gateway_ids d) ≡ true
    → (d.site_id ≡ some site_id) ⊎ ((d.site_id ≡ none) × (is_among gateway_ids d.gateway_id ≡ true))
counted_lem gateway_ids d site_id h = elim (Bool-cases (is_value d.site_id site_id)) [
  | inl own ↦ inl (own_site d.site_id site_id own)
  | inr other ↦
      let inherited : inherits_site gateway_ids d ≡ true = rw other at h in
      inr (null_lem d.site_id (ground arith), ground arith)
]

-- Every device that is counted for a site stands at it.
pub device_rows-StandsAt :
    (db : Tables) (site_id : ℕ) → All (StandsAt db site_id) (device_rows db site_id)
unfolding device_rows is_among
device_rows-StandsAt db site_id =
    let gateway_ids = map (λ g. g.id) (gateway_rows db site_id) in
    elim (Bool-cases (length gateway_ids == 0)) [
      | inl bare ↦
          rw bare
            (All-map (λ d k. inl (own_site d.site_id site_id k)) _ (All-filter_test _ db.meters))
      | inr some_gateway ↦
          rw some_gateway
            (All-map (λ d k. counted_lem gateway_ids d site_id k) _ (All-filter_test _ db.meters))
    ]

-- A site as a complete checklist vouches for it.
pub record IsCommissioned (db : Tables) (now site_id : ℕ) : Type 0 where
  pub equipped : 0 < length (device_rows db site_id)
  pub reporting : All (λ d. IsFresh now d.last_seen_at) (device_rows db site_id)
  pub verified :
      All (λ d. IsVerified (profile_of d.model db.device_profiles)) (device_rows db site_id)
  pub placed : All (StandsAt db site_id) (device_rows db site_id)
  pub online :
      Any (λ g. (g.status ≡ "online") × IsFresh now g.last_seen_at) (gateway_rows db site_id)
  pub proven :
      Any
        (λ c.
          (c.kind ≡ "control")
          × (c.status ≡ "ok")
          × (is_value_among (map (λ d. d.id) (device_rows db site_id)) c.meter_id ≡ true))
        db.commands

pub facts_of-IsCommissioned :
    (db : Tables) (now : ℕ) (site : SiteRow)
    → IsReady (facts_of db now site)
    → IsCommissioned db now site.id
unfolding facts_of proven_rows
facts_of-IsCommissioned db now site ready =
    let devices = device_rows db site.id in
    record {
      equipped = ready.equipped;
      reporting =
          All-map (λ d. is_fresh-IsFresh now d.last_seen_at) devices
            (All-unfiltered (λ d. is_fresh now d.last_seen_at) devices ready.flowing);
      verified =
          All-map (λ d k. verified_lem (profile_of d.model db.device_profiles) k.0 k.1) devices
            (All-zip _ _ devices
              (All-filter_none (λ d. is_draft (profile_of d.model db.device_profiles)) devices
                ready.verified.0)
              (All-filter_none (λ d. is_missing (profile_of d.model db.device_profiles)) devices
                ready.verified.1));
      placed = device_rows-StandsAt db site.id;
      online =
          Any-filter _ (is_online now)
            (λ g h. (
              (eq_iff g.status "online").0 (ground arith),
              is_fresh-IsFresh now g.last_seen_at (ground arith),
            ))
            (gateway_rows db site.id) ready.connected.1;
      proven =
          Any-filter _ _
            (λ c h. (
              (eq_iff c.kind "control").0 (ground arith),
              (eq_iff c.status "ok").0 (ground arith),
              ground arith,
            ))
            db.commands ready.proven;
    }

find_lem {ℓ} : {A : Type ℓ} (p : A → Bool) (xs : List A) (x : A) → find p xs ≡ some x → p x ≡ true
find_lem p [] x h = absurd (cc)
find_lem p (y ∷ ys) x h = elim (Bool-cases (p y)) [
  | inl here ↦ let e : some y ≡ some x = rw here at h in let same : y ≡ x = cc in rw same at here
  | inr there ↦ find_lem p ys x (rw there at h)
]

site_checklist-inv :
    (db : Tables) (now site_id : ℕ) (facts : SiteFacts) (steps : List StepResult)
    → site_checklist db now site_id ≡ some (facts, steps)
    → (site : SiteRow) × (site.id ≡ site_id) × (steps ≡ evaluate_checklist (facts_of db now site))
unfolding site_checklist site_facts
site_checklist-inv db now site_id facts steps h =
    elim (Option-cases (find (λ s. s.id == site_id) db.sites)) [
      | inl gone ↦ absurd (
          let e : ◌≡◌ {A = Option (SiteFacts × List StepResult)} none (some (facts, steps)) =
            rw (gone, site_checklist) at h in
          cc)
      | inr (site, e) ↦
          let k : ◌≡◌ {A = Option (SiteFacts × List StepResult)}
              (some (facts_of db now site, evaluate_checklist (facts_of db now site)))
              (some (facts, steps)) =
            rw (e, site_checklist) at h in
          let found = find_lem (λ s. s.id == site_id) db.sites site e in (site, ground arith, cc)
    ]

-- If the checklist of a site is complete, then the site has a device, each of its devices stands
-- at the site, has reported within fifteen minutes and has a profile that is no draft, a gateway
-- of the site is online and fresh, and a control write to one of its devices has succeeded.
pub site_checklist-IsCommissioned :
    (db : Tables) (now site_id : ℕ) (facts : SiteFacts) (steps : List StepResult)
    → site_checklist db now site_id ≡ some (facts, steps)
    → (checklist_summary steps).complete ≡ true
    → IsCommissioned db now site_id
site_checklist-IsCommissioned db now site_id facts steps h done =
    let (site, same, e) = site_checklist-inv db now site_id facts steps h in
    let ready = (evaluate_checklist_iff (facts_of db now site)).0 (rw e at done) in
    rw same at (facts_of-IsCommissioned db now site ready)
