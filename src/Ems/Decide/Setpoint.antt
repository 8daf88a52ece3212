-- ===== src/Ems/Decide/Setpoint.antt =====
-- Which register a setpoint goes to and which value it takes (api/ems/decide.ts).
use gateway_monitoring_platf.Prelude.{
  ◌≡◌, ◌⊎◌, inl, inr, refl, Option, none, some, ℤ, pos, ◌≤ℤ◌, ◌<ℤ◌, neg, arith, String, List, [],
  ◌∷◌, All, Option-cases,
}
use gateway_monitoring_platf.Control.Types.{ControllableDef, ControllableMap, get}
use gateway_monitoring_platf.Ems.Decide.{
  EmsMode, charge, discharge, idle, key_pref, first_preferred, first_entry, pick_setpoint_key,
  setpoint_value,
}

-- `e` is what `m` holds under the first of the keys that it holds.
pub data IsFirst (m : ControllableMap) : List String → String × ControllableDef → Type 0 where
  here :
      {k : String} {ks : List String} {d : ControllableDef}
      → get k m ≡ some d
      → IsFirst m (k ∷ ks) (k, d)
  later :
      {k : String} {ks : List String} {e : String × ControllableDef}
      → get k m ≡ none
      → IsFirst m ks e
      → IsFirst m (k ∷ ks) e

abbrev pub LacksAll : ControllableMap → List String → Type 0
LacksAll m ks = All (λ k. get k m ≡ none) ks

-- first_preferred finds the first key, or the map lacks them all.
first_preferred_lem :
    (m : ControllableMap) (ks : List String)
    → ((e : String × ControllableDef) × (first_preferred m ks ≡ some e) × IsFirst m ks e)
      ⊎ ((first_preferred m ks ≡ none) × LacksAll m ks)
unfolding first_preferred
first_preferred_lem m [] = inr (refl, tt)
first_preferred_lem m (k ∷ ks) = elim (Option-cases (get k m)) [
  | inr (d, found) ↦ inl ((k, d), ground arith, here found)
  | inl missed ↦ elim (first_preferred_lem m ks) [
    | inl (e, p, f) ↦ inl (e, ground arith, later missed f)
    | inr (p, l) ↦ inr (ground arith, (missed, l))
  ]
]

-- What pickSetpointKey promises: the mode's first preferred key that the map holds; without one,
-- the map's first entry; and null exactly when the map is empty.
pub data IsPick (m : ControllableMap) (mode : EmsMode)
    : Option (String × ControllableDef) → Type 0 where
  preferred : {e : String × ControllableDef} → IsFirst m (key_pref mode) e → IsPick m mode (some e)
  fallback :
      {e : String × ControllableDef}
      → LacksAll m (key_pref mode)
      → first_entry m ≡ some e
      → IsPick m mode (some e)
  nothing : m ≡ [] → IsPick m mode none

no_entry : (m : ControllableMap) → first_entry m ≡ none → m ≡ []
no_entry [] h = refl
no_entry (e ∷ m) h = cc

-- The setpoint goes to the first key of the mode's preference list that the profile declares, else
-- to the profile's first writable register, and there is none only for an empty map.
pub pick_setpoint_key-IsPick :
    (m : ControllableMap) (mode : EmsMode) → IsPick m mode (pick_setpoint_key m mode)
unfolding pick_setpoint_key
pick_setpoint_key-IsPick m mode = elim (first_preferred_lem m (key_pref mode)) [
  | inl (e, p, f) ↦ rw (p, pick_setpoint_key) (preferred f)
  | inr (p, l) ↦ elim (Option-cases (first_entry m)) [
    | inl All-none_left ↦
        rw (p, All-none_left, pick_setpoint_key) (nothing (no_entry m All-none_left))
    | inr (e, q) ↦ rw (p, q, pick_setpoint_key) (fallback l q)
  ]
]

-- A target that the register can take (not negative, at most its maximum and, where the register
-- is bipolar, at most the magnitude of its minimum) gives a setpoint in the register's range, if
-- that range holds 0; discharging never gives a negative setpoint, charging a bipolar register
-- never a positive one, and idling always gives 0.
pub setpoint_value_bounds :
    (mode : EmsMode) (d : ControllableDef) (t : ℤ)
    → d.min ≤ℤ pos 0
    → pos 0 ≤ℤ t
    → t ≤ℤ d.max
    → (d.min ≡ pos 0) ⊎ (d.min ≤ℤ neg t)
    → (d.min ≤ℤ setpoint_value mode d (some t))
      × (setpoint_value mode d (some t) ≤ℤ d.max)
      × (mode ≡ discharge → pos 0 ≤ℤ setpoint_value mode d (some t))
      × (mode ≡ charge → d.min <ℤ pos 0 → setpoint_value mode d (some t) ≤ℤ pos 0)
      × (mode ≡ idle → setpoint_value mode d (some t) ≡ pos 0)
unfolding setpoint_value neg
setpoint_value_bounds idle d t a b c e = ground arith
setpoint_value_bounds discharge d t a b c e = ground arith
setpoint_value_bounds charge d t a b c e = ground arith
