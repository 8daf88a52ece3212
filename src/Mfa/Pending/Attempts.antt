-- ===== src/Mfa/Pending/Attempts.antt =====
-- How many codes may be tried against a challenge (api/lib/totp.ts, createDbMfaPendingStore).
use gateway_monitoring_platf.Prelude.{
  ℕ, ◌+◌, ◌-◌, ◌≤◌, ◌<◌, ◌≡◌, ◌⊎◌, inl, inr, refl, ap, String, none, some, Bool, true, false, List,
  [], ◌∷◌, leb, str_eq, eq_iff, length, arith, All, Bool-cases,
}
use gateway_monitoring_platf.Control.Types.{get}
use gateway_monitoring_platf.Mfa.Pending.{
  PendingEntry, Pending, remove, Limits, is_expired, Store, count_attempt, peek, fail,
}

-- Wrong codes at the times of a list, with the database up.
unfoldable pub guess_all : Limits → String → List ℕ → Store → Store
unfolding fail
guess_all limits token [] s = s
guess_all limits token (now ∷ later) s =
    guess_all limits token later (fail limits true token now s).1

str_eq_refl : (k : String) → str_eq k k ≡ true
str_eq_refl k = (eq_iff k k).1 refl

get-remove : (k : String) (m : Pending) → get k (remove k m) ≡ none
unfolding remove
get-remove k [] = refl
get-remove k ((j, e) ∷ m) = ground (arith, get-remove k m)

get-count_attempt :
    (k : String) (m : Pending) (e : PendingEntry)
    → get k m ≡ some e
    → get k (count_attempt k m) ≡ some (record e { attempts = e.attempts + 1 })
unfolding count_attempt
get-count_attempt k [] e h = cc
get-count_attempt k ((j, e0) ∷ m) e h = ground (arith, get-count_attempt k m e)

count_attempt-none : (k : String) (m : Pending) → get k m ≡ none → count_attempt k m ≡ m
unfolding count_attempt
count_attempt-none k [] h = refl
count_attempt-none k ((j, e) ∷ m) h = ground (arith, count_attempt-none k m)

-- What is left of a challenge of the table after one wrong code.
module _ (limits : Limits) (token : String) where
  fail-gone :
      (now : ℕ) (s : Store)
      → get token s.local ≡ none
      → get token s.rows ≡ none
      → (fail limits true token now s).1 ≡ s
  unfolding fail
  fail-gone now s out gone = ground arith

  fail-counts :
      (now : ℕ) (s : Store) (e : PendingEntry)
      → get token s.rows ≡ some e
      → let s' = (fail limits true token now s).1 in
        (s'.local ≡ s.local)
        × ((get token s'.rows ≡ none)
            ⊎ ((e.attempts + 1 < limits.max_attempts)
                × (get token s'.rows ≡ some (record e { attempts = e.attempts + 1 }))))
  unfolding fail
  fail-counts now s e held = elim (Bool-cases (is_expired limits now e)) [
    | inl old ↦ (ground arith, inl (ground (arith, get-remove token s.rows)))
    | inr young ↦ elim (Bool-cases (leb limits.max_attempts (e.attempts + 1))) [
      | inl last ↦ (ground arith, inl (ground (arith, get-remove token s.rows)))
      | inr more ↦
          (ground arith, inr (ground arith, ground (arith, get-count_attempt token s.rows e held)))
    ]
  ]

  guess_all-gone :
      (times : List ℕ) (s : Store)
      → get token s.local ≡ none
      → get token s.rows ≡ none
      → guess_all limits token times s ≡ s
  unfolding guess_all
  guess_all-gone [] s out gone = refl
  guess_all-gone (now ∷ times) s out gone =
      rw (fail-gone now s out gone) (guess_all-gone times s out gone)

  guess_all-ends :
      (times : List ℕ) (s : Store) (e : PendingEntry)
      → get token s.local ≡ none
      → get token s.rows ≡ some e
      → e.attempts < limits.max_attempts
      → limits.max_attempts ≤ e.attempts + length times
      → (get token (guess_all limits token times s).local ≡ none)
        × (get token (guess_all limits token times s).rows ≡ none)
  unfolding guess_all
  guess_all-ends [] s e out held few enough = absurd (omega arith)
  guess_all-ends (now ∷ times) s e out held few enough =
      let s' = (fail limits true token now s).1 in
      let (same, left) = fail-counts now s e held in
      let out' : get token s'.local ≡ none = rw same out in
      elim left [
        | inl gone ↦ rw (guess_all-gone times s' out' gone) (out', gone)
        | inr (more, counted) ↦
            guess_all-ends times s' (record e { attempts = e.attempts + 1 }) out' counted more
              (omega arith)
      ]

  -- A challenge ends with its attempts. Of a challenge that stands in the table with fewer attempts
  -- than the limit, and not in the map of the process, nothing is left after as many wrong codes as
  -- make up the limit, at whatever times, with the database up: no call finds it any more.
  pub guess_all-peek :
      (times : List ℕ) (s : Store) (e : PendingEntry) (up : Bool) (now : ℕ)
      → get token s.local ≡ none
      → get token s.rows ≡ some e
      → e.attempts < limits.max_attempts
      → limits.max_attempts ≤ e.attempts + length times
      → (peek limits up token now (guess_all limits token times s)).0 ≡ none
  unfolding peek
  guess_all-peek times s e false now out held few enough =
      let (out', gone) = guess_all-ends times s e out held few enough in ground arith
  guess_all-peek times s e true now out held few enough =
      let (out', gone) = guess_all-ends times s e out held few enough in ground arith

  fail-uncounted :
      (now : ℕ) (s : Store) (e : PendingEntry)
      → get token s.rows ≡ none
      → get token s.local ≡ some e
      → e.attempts + 1 < limits.max_attempts
      → now - e.created_at ≤ limits.ttl_ms
      → (fail limits true token now s).1 ≡ s
  unfolding fail
  fail-uncounted now s e gone held few young =
      ground (arith, ap (λ m. record s { rows = m }) (count_attempt-none token s.rows gone))

  -- A challenge of the process's map has no limit once the database is back: with the database up,
  -- as many wrong codes as one likes, before it expires, leave a challenge that stands in the map
  -- alone, and that has more than one attempt left, as it is.
  pub guess_all-uncounted :
      (times : List ℕ) (s : Store) (e : PendingEntry)
      → get token s.rows ≡ none
      → get token s.local ≡ some e
      → e.attempts + 1 < limits.max_attempts
      → All (λ now. now - e.created_at ≤ limits.ttl_ms) times
      → guess_all limits token times s ≡ s
  unfolding guess_all
  guess_all-uncounted [] s e gone held few young = refl
  guess_all-uncounted (now ∷ times) s e gone held few young =
      rw (fail-uncounted now s e gone held few young.0)
        (guess_all-uncounted times s e gone held few young.1)
