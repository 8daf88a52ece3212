-- ===== src/Control/Execute/Check.antt =====
-- What a write needs to pass the checks of executeControl (api/control/execute.ts).
use mathlib.Core.Path.{subst}
use gateway_monitoring_platf.Prelude.{
  ℕ, ◌≡◌, ◌≢◌, ◌⊎◌, ◌↔◌, inl, inr, ◌<◌, String, Option, none, some, Bool, true, false, refl, arith,
  ℤ, pos, ◌≤ℤ◌,
}
use gateway_monitoring_platf.Control.Types.{ControllableDef, ControllableMap, get, Num, finite}
use gateway_monitoring_platf.Control.Execute.{
  Meter, Lock, Profile, draft, Db, controllable_for_model, Refusal, Checked, pass, refuse, ◌>>=◌,
  check_lock, check_key, check_verification, check_range, check_fc, register_value, check_register,
  Plan, check_control,
}

pub Checked-cases {ℓ} :
    {A : Type ℓ} (c : Checked A) → ((r : Refusal) × (c ≡ refuse r)) ⊎ ((a : A) × (c ≡ pass a))
Checked-cases (refuse r) = inl (r, refl)
Checked-cases (pass a) = inr (a, refl)

-- Inversion of a chain of checks.
>>=-eq-pass {ℓ κ} :
    {A : Type ℓ} {B : Type κ} (m : Checked A) (f : A → Checked B) {b : B}
    → (m >>= f) ≡ pass b
    → (a : A) × (m ≡ pass a) × (f a ≡ pass b)
>>=-eq-pass (pass a) f h = (a, refl, h)
>>=-eq-pass (refuse r) f h = cc

-- The profile's register map is not a draft, or its commissioning override is set; the flag says
-- which, and a model without a profile counts as verified.
abbrev pub IsCleared : Option Profile → Bool → Type 0
IsCleared none over = over ≡ false
IsCleared (some p) over =
    ((p.verification_status ≢ draft) × (over ≡ false))
    ⊎ ((p.verification_status ≡ draft) × (p.allow_unverified_control ≡ true) × (over ≡ true))

-- The write of `plan` is permitted: a live write needs an unlocked device; the key is declared for
-- the device's model; the profile is cleared; the value is a number in the key's range; the
-- register takes the scaled value, a 16-bit number; and the key asks for function code 6.
pub record IsPermitted (db : Db) (meter : Meter) (key : String) (value : Num) (dry_run : Bool)
    (plan : Plan) : Type 0 where
  pub unlocked : dry_run ≡ false → db.control_lock meter.id ≡ none
  pub declared : get key (controllable_for_model db meter.model) ≡ some plan.def
  pub cleared : IsCleared (db.profile meter.model) plan.has_override
  pub amount : ℤ
  pub is_number : value ≡ finite amount
  pub above_min : plan.def.min ≤ℤ amount
  pub below_max : amount ≤ℤ plan.def.max
  pub code : (plan.def.fc ≡ none) ⊎ ((plan.def.fc ≡ some 0) ⊎ (plan.def.fc ≡ some 6))
  pub scaled : register_value plan.def amount ≡ pos plan.register
  pub fits : plan.register < 65536

check_lock_lem :
    (dry : Bool) (l : Option Lock) → check_lock dry l ≡ pass tt → dry ≡ false → l ≡ none
unfolding check_lock
check_lock_lem dry l h e = ground arith

check_key_lem :
    (k : String) (m : ControllableMap) {d : ControllableDef}
    → check_key k m ≡ pass d
    → get k m ≡ some d
unfolding check_key
check_key_lem k m h = ground arith

check_verification_lem :
    (p : Option Profile) {o : Bool} → check_verification p ≡ pass o → IsCleared p o
unfolding check_verification
check_verification_lem p h = ground arith

check_range_lem :
    (value : Num) (d : ControllableDef) {v : ℤ}
    → check_range value d ≡ pass v
    → (value ≡ finite v) × (d.min ≤ℤ v) × (v ≤ℤ d.max)
unfolding check_range
check_range_lem value d h = ground arith

check_fc_lem :
    (fc : Option ℕ) → check_fc fc ≡ pass tt → (fc ≡ none) ⊎ ((fc ≡ some 0) ⊎ (fc ≡ some 6))
unfolding check_fc
check_fc_lem fc h = ground arith

check_register_lem : (n : ℤ) {r : ℕ} → check_register n ≡ pass r → (n ≡ pos r) × (r < 65536)
unfolding check_register
check_register_lem n h = ground arith

IsPermitted-of_pass :
    (db : Db) (meter : Meter) (key : String) (value : Num) (dry_run : Bool) (plan : Plan)
    → check_control db meter key value dry_run ≡ pass plan
    → IsPermitted db meter key value dry_run plan
unfolding check_control
IsPermitted-of_pass db meter key value dry plan h =
    let (_, lock, h1) = >>=-eq-pass (check_lock dry (db.control_lock meter.id)) _ h in
    let (def, found, h2) =
      >>=-eq-pass (check_key key (controllable_for_model db meter.model)) _ h1 in
    let (over, clear, h3) = >>=-eq-pass (check_verification (db.profile meter.model)) _ h2 in
    let (v, range, h4) = >>=-eq-pass (check_range value def) _ h3 in
    let (_, code, h5) = >>=-eq-pass (check_fc def.fc) _ h4 in
    let (register, fit, h6) = >>=-eq-pass (check_register (register_value def v)) _ h5 in
    subst (λ (r : Checked Plan). Permits r) h6
      (record {
        unlocked = λ e. check_lock_lem dry (db.control_lock meter.id) lock e;
        declared = check_key_lem key (controllable_for_model db meter.model) found;
        cleared = check_verification_lem (db.profile meter.model) clear;
        amount = v;
        is_number = (check_range_lem value def range).0;
        above_min = (check_range_lem value def range).1;
        below_max = (check_range_lem value def range).2;
        code = check_fc_lem def.fc code;
        scaled = (check_register_lem (register_value def v) fit).0;
        fits = (check_register_lem (register_value def v) fit).1;
      })
  where
    Permits : Checked Plan → Type 0
    Permits (pass p) = IsPermitted db meter key value dry p
    Permits (refuse r) = Unit

pass_of_IsPermitted :
    (db : Db) (meter : Meter) (key : String) (value : Num) (dry_run : Bool) (plan : Plan)
    → IsPermitted db meter key value dry_run plan
    → check_control db meter key value dry_run ≡ pass plan
unfolding check_control check_lock check_key check_verification check_range check_fc check_register
pass_of_IsPermitted db meter key value dry plan p = rw (
  lock_ok dry (db.control_lock meter.id) p.unlocked,
  key_ok key (controllable_for_model db meter.model) p.declared,
  clear_ok (db.profile meter.model) p.cleared,
  range_ok value plan.def p.is_number p.above_min p.below_max,
  fc_ok plan.def.fc p.code,
  p.scaled,
  register_ok plan.register p.fits,
)
  where
    lock_ok : (d : Bool) (l : Option Lock) → (d ≡ false → l ≡ none) → check_lock d l ≡ pass tt
    lock_ok d l h = ground arith

    key_ok :
        (k : String) (m : ControllableMap) {d : ControllableDef}
        → get k m ≡ some d
        → check_key k m ≡ pass d
    key_ok k m h = ground arith

    clear_ok : (q : Option Profile) {o : Bool} → IsCleared q o → check_verification q ≡ pass o
    clear_ok q h = ground arith

    range_ok :
        (n : Num) (d : ControllableDef) {v : ℤ}
        → n ≡ finite v
        → d.min ≤ℤ v
        → v ≤ℤ d.max
        → check_range n d ≡ pass v
    range_ok n d e l h = ground arith

    fc_ok : (fc : Option ℕ) → (fc ≡ none) ⊎ ((fc ≡ some 0) ⊎ (fc ≡ some 6)) → check_fc fc ≡ pass tt
    fc_ok fc h = ground arith

    register_ok : (r : ℕ) → r < 65536 → check_register (pos r) ≡ pass r
    register_ok r h = ground arith

-- The checks let a write through exactly when it is permitted.
pub check_control_iff :
    (db : Db) (meter : Meter) (key : String) (value : Num) (dry_run : Bool) (plan : Plan)
    → (check_control db meter key value dry_run ≡ pass plan)
      ↔ IsPermitted db meter key value dry_run plan
check_control_iff db meter key value dry plan = (
  IsPermitted-of_pass db meter key value dry plan,
  pass_of_IsPermitted db meter key value dry plan,
)
