-- ===== src/Transparent/Outstanding/Queue.antt =====
-- The registry as a family of queues, one for each gateway, slave and function code
-- (api/mqtt/c30-outstanding.ts).
use mathlib.Core.Path.{subst₂}
use gateway_monitoring_platf.Prelude.{
  ◌≡◌, ◌≢◌, inl, inr, refl, sym, ap, ℕ, Option, none, some, Bool, true, false, arith, List, [], ◌∷◌,
  ◌++◌, All, ite, get_bucket, bucket_of-set_bucket, bucket_of-delete_bucket, Option-cases,
  Bool-cases,
}
use gateway_monitoring_platf.Transparent.Outstanding.{
  OutstandingRead, Key, Key-discrete, key_of, entry_key, Registry, bucket, with_deadline,
  register_outstanding, answers, keep_before, take_first, put_bucket, after_take, match_outstanding,
  attach_first, attach_verify_command, attach_in,
}

-- The specification: each key has a queue. Registering appends to the queue of the entry's key.
pub register_outstanding-bucket :
    (e : OutstandingRead) (deadline : Option ℕ) (now : ℕ) (reg : Registry) (j : Key)
    → bucket j (register_outstanding e deadline now reg)
      ≡ ite
          (Key-discrete (entry_key e) j)
          (bucket (entry_key e) reg ++ with_deadline e deadline now ∷ [])
          (bucket j reg)
unfolding register_outstanding
register_outstanding-bucket e deadline now reg j =
    bucket_of-set_bucket Key-discrete (entry_key e) j _ reg

-- What a match does to the queue of its key: it takes out the oldest entry that answers, and
-- leaves a queue without such an entry as it is.
pub data Taken (p : OutstandingRead → Bool) (before after : List OutstandingRead)
    : Option OutstandingRead → Type 0 where
  took :
      (older : List OutstandingRead) (e : OutstandingRead) (newer : List OutstandingRead)
      → before ≡ older ++ e ∷ newer
      → after ≡ older ++ newer
      → All (λ x. p x ≡ false) older
      → p e ≡ true
      → Taken p before after (some e)
  missed : All (λ x. p x ≡ false) before → after ≡ before → Taken p before after none

-- The list that remains, and the element that was found.
abbrev left_over :
    List OutstandingRead → Option (OutstandingRead × List OutstandingRead) → List OutstandingRead
left_over es none = es
left_over es (some (e, rest)) = rest

abbrev found : Option (OutstandingRead × List OutstandingRead) → Option OutstandingRead
found none = none
found (some (e, rest)) = some e

keep_before-Taken :
    (p : OutstandingRead → Bool) (x : OutstandingRead) (es : List OutstandingRead)
    (r : Option (OutstandingRead × List OutstandingRead))
    → p x ≡ false
    → Taken p es (left_over es r) (found r)
    → Taken p (x ∷ es) (left_over (x ∷ es) (keep_before x r)) (found (keep_before x r))
keep_before-Taken p x es none no_x (missed a _) = missed (no_x, a) refl
keep_before-Taken p x es (some (e, rest)) no_x (took older _ newer b c a pe) =
    took (x ∷ older) e newer (ap (λ l. x ∷ l) b) (ap (λ l. x ∷ l) c) (no_x, a) pe

take_first-Taken :
    (p : OutstandingRead → Bool) (es : List OutstandingRead)
    → Taken p es (left_over es (take_first p es)) (found (take_first p es))
unfolding take_first
take_first-Taken p [] = missed tt refl
take_first-Taken p (x ∷ es) = elim (Bool-cases (p x)) [
  | inl yes_x ↦ rw yes_x (took [] x es refl refl tt yes_x)
  | inr no_x ↦ rw no_x (keep_before-Taken p x es (take_first p es) no_x (take_first-Taken p es))
]

put_bucket-bucket :
    (k j : Key) (es : List OutstandingRead) (reg : Registry)
    → bucket j (put_bucket k es reg) ≡ ite (Key-discrete k j) es (bucket j reg)
unfolding put_bucket
put_bucket-bucket k j [] reg = bucket_of-delete_bucket Key-discrete k j reg
put_bucket-bucket k j (e ∷ es) reg = bucket_of-set_bucket Key-discrete k j (e ∷ es) reg

after_take-bucket :
    (k j : Key) (reg : Registry) (r : Option (OutstandingRead × List OutstandingRead))
    → (bucket j (after_take k reg r).0
        ≡ ite (Key-discrete k j) (left_over (bucket k reg) r) (bucket j reg))
      × ((after_take k reg r).1 ≡ found r)
after_take-bucket k j reg none = (ground arith, refl)
after_take-bucket k j reg (some (e, es)) = (put_bucket-bucket k j es reg, refl)

-- The same at the key itself.
after_take-bucket_self :
    (k : Key) (reg : Registry) (r : Option (OutstandingRead × List OutstandingRead))
    → bucket k (after_take k reg r).0 ≡ left_over (bucket k reg) r
after_take-bucket_self k reg r = ground (arith, after_take-bucket k k reg r)

module _ (gateway_id slave fc byte_count now : ℕ) (reg : Registry) where
  -- A response takes the oldest live read of its gateway, slave and function code that asked for
  -- as many bytes out of that queue, and no other; where there is none it takes nothing.
  pub match_outstanding-Taken :
      let k = key_of gateway_id slave fc in
      let (after, entry) = match_outstanding gateway_id slave fc byte_count now reg in
      Taken (answers byte_count now) (bucket k reg) (bucket k after) entry
  unfolding match_outstanding
  match_outstanding-Taken =
      let k = key_of gateway_id slave fc in
      let p = answers byte_count now in
      let r = take_first p (bucket k reg) in
      subst₂ (λ after entry. Taken p (bucket k reg) after entry)
        (sym (after_take-bucket_self k reg r)) (sym (after_take-bucket k k reg r).1)
        (take_first-Taken p (bucket k reg))

  -- The queues of the other keys stay as they are.
  pub match_outstanding-others :
      (j : Key)
      → key_of gateway_id slave fc ≢ j
      → bucket j (match_outstanding gateway_id slave fc byte_count now reg).0 ≡ bucket j reg
  unfolding match_outstanding
  match_outstanding-others j ne = ground (
    arith,
    after_take-bucket (key_of gateway_id slave fc) j reg
        (take_first (answers byte_count now) (bucket (key_of gateway_id slave fc) reg)),
  )

attach_in-bucket :
    (k j : Key) (id : ℕ) (reg : Registry)
    → bucket j (attach_in k id reg (get_bucket Key-discrete k reg))
      ≡ ite (Key-discrete k j) (attach_first id (bucket k reg)) (bucket j reg)
unfolding attach_first
attach_in-bucket k j id reg = elim (Option-cases (get_bucket Key-discrete k reg)) [
  | inl e ↦ rw e (ground arith)
  | inr (es, e) ↦ rw e (bucket_of-set_bucket Key-discrete k j (attach_first id es) reg)
]

-- Attaching a command id acts on the queue of the key alone.
pub attach_verify_command-bucket :
    (gateway_id slave fc id : ℕ) (reg : Registry) (j : Key)
    → let k = key_of gateway_id slave fc in
      bucket j (attach_verify_command gateway_id slave fc id reg)
      ≡ ite (Key-discrete k j) (attach_first id (bucket k reg)) (bucket j reg)
unfolding attach_verify_command
attach_verify_command-bucket gateway_id slave fc id reg j =
    attach_in-bucket (key_of gateway_id slave fc) j id reg
