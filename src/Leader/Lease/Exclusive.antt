-- ===== src/Leader/Lease/Exclusive.antt =====
-- At most one replica holds a lease at a time (api/lib/leader.ts).
use mathlib.Core.Path.{subst}
use gateway_monitoring_platf.Prelude.{
  ℕ, ◌+◌, ◌≡◌, ◌≢◌, ◌↔◌, ◌⊎◌, inl, inr, ◌<◌, ◌≤◌, String, none, some, Bool, true, false, refl, sym,
  arith, List, [], ◌∷◌, ◌++◌, str_eq, eq_iff, Bool-cases, Option-cases, if◌then◌else◌, All,
}
use gateway_monitoring_platf.Control.Types.{get}
use gateway_monitoring_platf.Leader.Lease.{
  Lease, Leases, insert_ignore, is_takeable, update_takeable, release_lease, new_lease,
  acquire_lease,
}

-- An UPDATE that may not take the row changes nothing.
update_kept :
    (name : String) (lease l : Lease) (current : ℕ) (leases : Leases)
    → get name leases ≡ some l
    → is_takeable lease.holder current l ≡ false
    → update_takeable name lease current leases ≡ (false, leases)
unfolding update_takeable
update_kept name lease l current [] g h = cc
update_kept name lease l current ((j, k) ∷ leases) g h =
    ground (arith, update_kept name lease l current leases)

update_taken :
    (name : String) (lease l : Lease) (current : ℕ) (leases : Leases)
    → get name leases ≡ some l
    → is_takeable lease.holder current l ≡ true
    → ((update_takeable name lease current leases).0 ≡ true)
      × (get name (update_takeable name lease current leases).1 ≡ some lease)
unfolding update_takeable
update_taken name lease l current [] g h = cc
update_taken name lease l current ((j, k) ∷ leases) g h =
    ground (arith, update_taken name lease l current leases)

get-update_other :
    (name other : String) (lease : Lease) (current : ℕ) (leases : Leases)
    → name ≢ other
    → get other (update_takeable name lease current leases).1 ≡ get other leases
unfolding update_takeable
get-update_other name other lease current [] ne = refl
get-update_other name other lease current ((j, k) ∷ leases) ne =
    ground
      (arith, get-update_other name other lease current leases ne, eq_iff j name, eq_iff j other)

get-append_new :
    (name other : String) (lease : Lease) (leases : Leases)
    → get other (leases ++ (name, lease) ∷ []) ≡ (elim (get other leases) [
      | none ↦ if str_eq name other then some lease else none
      | some l ↦ some l
    ])
get-append_new name other lease [] = refl
get-append_new name other lease ((j, k) ∷ leases) =
    ground (arith, get-append_new name other lease leases)

get-release_other :
    (me name other : String) (l : Lease) (leases : Leases)
    → get other leases ≡ some l
    → (name ≢ other) ⊎ (l.holder ≢ me)
    → get other (release_lease me name leases) ≡ some l
unfolding release_lease
get-release_other me name other l [] g ne = cc
get-release_other me name other l ((j, k) ∷ leases) g ne = ground (
  arith,
  get-release_other me name other l leases,
  eq_iff j name,
  eq_iff j other,
  eq_iff k.holder me,
)

module _ (stored : ℕ → ℕ) where
  -- A replica that acquires a lease holds it up to the expiry that the table keeps.
  pub acquire_lease-holds :
      (is_up : Bool) (me name : String) (ttl_ms now current : ℕ) (leases : Leases)
      → (acquire_lease stored is_up me name ttl_ms now current leases).0 ≡ true
      → get name (acquire_lease stored is_up me name ttl_ms now current leases).1
        ≡ some (new_lease stored me ttl_ms now)
  unfolding acquire_lease insert_ignore
  acquire_lease-holds false me name ttl now current leases h = cc
  acquire_lease-holds true me name ttl now current leases h =
      let lease = new_lease stored me ttl now in
      elim (Option-cases (get name leases)) [
        | inl e ↦ ground (arith, get-append_new name name lease leases, eq_iff name name)
        | inr (l, e) ↦ elim (Bool-cases (is_takeable me current l)) [
          | inl t ↦ ground (arith, update_taken name lease l current leases e t)
          | inr k ↦ absurd (ground (arith, update_kept name lease l current leases e k))
        ]
      ]

  acquire_lease-refused :
      (is_up : Bool) (me name : String) (ttl_ms now current : ℕ) (l : Lease) (leases : Leases)
      → get name leases ≡ some l
      → l.holder ≢ me
      → current ≤ l.expires_at
      → acquire_lease stored is_up me name ttl_ms now current leases ≡ (false, leases)
  unfolding acquire_lease insert_ignore
  acquire_lease-refused false me name ttl now current l leases g ne le = refl
  acquire_lease-refused true me name ttl now current l leases g ne le =
      ground (
        arith,
        eq_iff l.holder me,
        update_kept name (new_lease stored me ttl now) l current leases g,
      )

  get-acquire_other :
      (is_up : Bool) (me name other : String) (ttl_ms now current : ℕ) (l : Lease) (leases : Leases)
      → get other leases ≡ some l
      → name ≢ other
      → get other (acquire_lease stored is_up me name ttl_ms now current leases).1 ≡ some l
  unfolding acquire_lease insert_ignore
  get-acquire_other false me name other ttl now current l leases g ne = g
  get-acquire_other true me name other ttl now current l leases g ne =
      let lease = new_lease stored me ttl now in
      ground (
        arith,
        get-append_new name other lease leases,
        eq_iff name other,
        get-update_other name other lease current leases ne,
      )

  -- A replica may act exactly when the database answers and there is no lease of that name, or it
  -- is its own, or it has lapsed on the database's clock.
  pub acquire_lease_iff :
      (is_up : Bool) (me name : String) (ttl_ms now current : ℕ) (leases : Leases)
      → ((acquire_lease stored is_up me name ttl_ms now current leases).0 ≡ true) ↔ (
          (is_up ≡ true)
          × ((l : Lease) → get name leases ≡ some l → (l.holder ≡ me) ⊎ (l.expires_at < current)))
  unfolding acquire_lease insert_ignore
  acquire_lease_iff false me name ttl now current leases = (λ h. cc, λ h. cc h.0)
  acquire_lease_iff true me name ttl now current leases =
      let lease = new_lease stored me ttl now in
      elim (Option-cases (get name leases)) [
        | inl e ↦ (λ h. (refl, λ l g. cc), λ h. ground arith)
        | inr (k, e) ↦ elim (Bool-cases (is_takeable me current k)) [
          | inl t ↦ (
            λ h. (refl, λ l g. ground (arith, eq_iff k.holder me)),
            λ h. ground (arith, update_taken name lease k current leases e t),
          )
          | inr t ↦ (
            λ h. absurd (ground (arith, update_kept name lease k current leases e t)),
            λ h. absurd (ground (arith, eq_iff k.holder me, h.1 k e)),
          )
        ]
      ]

-- What a replica does with the table, and when: `now` on its own clock, `current` on the database's.
pub data Call : Type 0 where
  acquires : Bool → String → String → ℕ → ℕ → ℕ → Call
  releases : String → String → Call

abbrev pub caller : Call → String
caller (acquires is_up me name ttl_ms now current) = me
caller (releases me name) = me

-- The call is made while the database's clock has not passed the expiry.
abbrev pub IsInTime : ℕ → Call → Type 0
IsInTime expires (acquires is_up me name ttl_ms now current) = current ≤ expires
IsInTime expires (releases me name) = Unit

module _ (stored : ℕ → ℕ) where
  unfoldable pub step : Leases → Call → Leases
  step leases (acquires is_up me name ttl_ms now current) =
      (acquire_lease stored is_up me name ttl_ms now current leases).1
  step leases (releases me name) = release_lease me name leases

  unfoldable pub run : Leases → List Call → Leases
  unfolding step
  run leases [] = leases
  run leases (c ∷ calls) = run (step leases c) calls

  -- A call of another replica, in time, leaves the lease as it is.
  step-kept :
      (leases : Leases) (c : Call) (name : String) (l : Lease)
      → get name leases ≡ some l
      → l.holder ≢ caller c
      → IsInTime l.expires_at c
      → get name (step leases c) ≡ some l
  unfolding step
  step-kept leases (releases me other) name l g ne t =
      get-release_other me other name l leases g (inr ne)
  step-kept leases (acquires is_up me other ttl now current) name l g ne t =
      elim (Bool-cases (str_eq other name)) [
        | inl same ↦
            let e : name ≡ other = ground (arith, eq_iff other name) in
            let g' : get other leases ≡ some l = subst (λ x. get x leases ≡ some l) e g in
            subst (λ (r : Bool × Leases). get name r.1 ≡ some l)
              (sym (acquire_lease-refused stored is_up me other ttl now current l leases g' ne t)) g
        | inr differ ↦
            get-acquire_other stored is_up me other name ttl now current l leases g
              (λ e. ground (arith, eq_iff other name))
      ]

  run-kept :
      (leases : Leases) (calls : List Call) (name : String) (l : Lease)
      → get name leases ≡ some l
      → All (λ c. (l.holder ≢ caller c) × IsInTime l.expires_at c) calls
      → get name (run leases calls) ≡ some l
  unfolding run
  run-kept leases [] name l g h = g
  run-kept leases (c ∷ calls) name l g h =
      run-kept (step leases c) calls name l (step-kept leases c name l g h.0.0 h.0.1) h.1

  -- Mutual exclusion. Once a replica has acquired a lease, whatever the other replicas do with the
  -- table while the database's clock has not passed the stored expiry, none of them acquires it: the
  -- next attempt in time of another replica is refused and changes nothing.
  pub acquire_lease-exclusive :
      (is_up is_up' : Bool) (me other name : String) (ttl_ms now current ttl_ms' now' current' : ℕ)
      (leases : Leases) (calls : List Call)
      → let (granted, held) = acquire_lease stored is_up me name ttl_ms now current leases in
        let e = stored (now + ttl_ms) in
        granted ≡ true
        → All (λ c. (me ≢ caller c) × IsInTime e c) calls
        → me ≢ other
        → current' ≤ e
        → acquire_lease stored is_up' other name ttl_ms' now' current' (run held calls)
          ≡ (false, run held calls)
  acquire_lease-exclusive u u' me other name ttl now current ttl' now' current' leases calls h k ne
        le =
      let held = (acquire_lease stored u me name ttl now current leases).1 in
      let l = new_lease stored me ttl now in
      acquire_lease-refused stored u' other name ttl' now' current' l (run held calls)
        (run-kept held calls name l (acquire_lease-holds stored u me name ttl now current leases h)
          k)
        ne le
