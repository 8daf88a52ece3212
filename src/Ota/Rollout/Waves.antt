-- ===== src/Ota/Rollout/Waves.antt =====
-- When the next wave of a rollout goes out (api/ota/rollout.ts, nextAction).
use mathlib.Core.Path.{subst}
use gateway_monitoring_platf.Prelude.{
  ℕ, ◌≡◌, ◌≢◌, ◌⊎◌, inl, inr, ◌<◌, ◌≤◌, none, some, Bool, true, false, not, sym, ◌∙◌, arith, List,
  [], ◌∷◌, length, filter, map, All, All-map, All-zip, IsOrdered, sort_by, insert_by,
  sort_by-IsOrdered, leb, ◌==◌, Bool-cases, Option-cases, length-filter_split,
}
use gateway_monitoring_platf.Ota.Rollout.{
  TargetStatus, pending, ack, failed, RolloutTarget, is_pending, is_sent, is_failed, count_status,
  in_batch, count_batch, dispatch, done, gateways_of, distinct, batches_of, judge, walk,
  next_action,
}

-- No element of a filtered list passes a second test.
All-none_left {ℓ} :
    {A : Type ℓ} (p q : A → Bool) (xs : List A)
    → length (filter p (filter q xs)) ≡ 0
    → All (λ x. q x ≡ true → p x ≡ false) xs
All-none_left p q [] h = tt
All-none_left p q (x ∷ xs) h = (ground arith, All-none_left p q xs (ground arith))

All-left {ℓ} :
    {A : Type ℓ} (p q : A → Bool) (xs : List A)
    → length (filter p (filter q xs)) ≡ length (filter q xs)
    → All (λ x. q x ≡ true → p x ≡ true) xs
All-left p q xs h =
    All-map (λ x k e. ground arith) xs
      (All-none_left (λ x. not (p x)) q xs (omega (arith, length-filter_split p (filter q xs))))

-- What holds of the elements of a sorted list of the distinct numbers holds of all of them.
All-insert_by : (P : ℕ → Type 0) (n : ℕ) (ns : List ℕ) → All P (insert_by leb n ns) → P n × All P ns
unfolding insert_by
All-insert_by P n [] h = h
All-insert_by P n (m ∷ ns) h = elim (Bool-cases (leb n m)) [
  | inl first ↦ rw first at h
  | inr after ↦
      let k : P m × All P (insert_by leb n ns) = rw after at h in
      ((All-insert_by P n ns k.1).0, (k.0, (All-insert_by P n ns k.1).1))
]

All-sort_by : (P : ℕ → Type 0) (ns : List ℕ) → All P (sort_by leb ns) → All P ns
unfolding sort_by
All-sort_by P [] h = tt
All-sort_by P (n ∷ ns) h =
    let (p, rest) = All-insert_by P n (sort_by leb ns) h in (p, All-sort_by P ns rest)

All-without :
    (P : ℕ → Type 0) (n : ℕ) (ns : List ℕ) → P n → All P (filter (λ m. not (m == n)) ns) → All P ns
All-without P n [] p h = tt
All-without P n (m ∷ ns) p h = elim (Bool-cases (m == n)) [
  | inl same ↦
      let k : All P (filter (λ m. not (m == n)) ns) = rw same at h in
      (transport_to same, All-without P n ns p k)
  | inr other ↦
      let k : P m × All P (filter (λ m. not (m == n)) ns) = rw other at h in
      (k.0, All-without P n ns p k.1)
]
  where
    transport_to : (m == n) ≡ true → P m
    transport_to e = let same : n ≡ m = ground arith in rw same at p

All-distinct : (P : ℕ → Type 0) (ns : List ℕ) → All P (distinct ns) → All P ns
unfolding distinct
All-distinct P [] h = tt
All-distinct P (n ∷ ns) h = (h.0, All-distinct P ns (All-without P n (distinct ns) h.0 h.1))

All-of_map :
    (P : ℕ → Type 0) (targets : List RolloutTarget)
    → All P (map (λ t. t.batch_index) targets)
    → All (λ t. P t.batch_index) targets
All-of_map P [] h = tt
All-of_map P (t ∷ targets) h = (h.0, All-of_map P targets h.1)

All-batches_of :
    (P : ℕ → Type 0) (targets : List RolloutTarget)
    → All P (batches_of targets)
    → All (λ t. P t.batch_index) targets
unfolding batches_of
All-batches_of P targets h =
    All-of_map P targets
      (All-distinct P _ (All-sort_by P (distinct (map (λ t. t.batch_index) targets)) h))

batches_of-IsOrdered :
    (targets : List RolloutTarget) → IsOrdered (λ a b. a ≤ b) (batches_of targets)
unfolding batches_of
batches_of-IsOrdered targets =
    sort_by-IsOrdered leb (λ a b. a ≤ b) (λ a b h. ground arith) (λ a b h. ground arith)
      (λ a b c h k. omega arith) (distinct (map (λ t. t.batch_index) targets))

abbrev pub IsSettled : TargetStatus → Type 0
IsSettled s = (s ≡ ack) ⊎ (s ≡ failed)

settled_lem : (s : TargetStatus) → is_pending s ≡ false → is_sent s ≡ false → IsSettled s
settled_lem s h k = ground arith

ack_lem : (s : TargetStatus) → IsSettled s → is_failed s ≡ false → s ≡ ack
ack_lem s h k = ground arith

pending_lem : (s : TargetStatus) → is_pending s ≡ true → s ≡ pending
pending_lem s h = ground arith

-- The targets of batch `b` have all settled, the canaries all with success, and their failures do
-- not exceed the threshold.
pub record HasPassed (exceeds : ℕ → ℕ → ℕ → Bool) (targets : List RolloutTarget) (threshold b : ℕ)
    : Type 0 where
  pub settled : All (λ t. t.batch_index ≡ b → IsSettled t.status) targets
  pub canaries : b ≡ 0 → All (λ t. t.batch_index ≡ b → t.status ≡ ack) targets
  pub tolerable :
      ((count_batch targets b).total ≡ 0)
      ⊎ (exceeds (count_batch targets b).failed (count_batch targets b).total threshold ≡ false)

module _ (exceeds : ℕ → ℕ → ℕ → Bool) (targets : List RolloutTarget) (threshold : ℕ) where
  judge-HasPassed :
      (b : ℕ) → judge exceeds targets threshold b ≡ none → HasPassed exceeds targets threshold b
  unfolding judge count_batch count_status
  judge-HasPassed b h =
      let of_batch = λ (t : RolloutTarget). t.batch_index == b in
      let no_pending = All-none_left (λ t. is_pending t.status) of_batch targets (ground arith) in
      let no_sent = All-none_left (λ t. is_sent t.status) of_batch targets (ground arith) in
      let settled : All (λ t. t.batch_index ≡ b → IsSettled t.status) targets =
        All-map (λ t k e. settled_lem t.status (k.0 (ground arith)) (k.1 (ground arith))) targets
          (All-zip _ _ targets no_pending no_sent) in
      record {
        settled = settled;
        canaries = λ z.
            All-map (λ t k e. ack_lem t.status (k.0 e) (k.1 (ground arith))) targets
              (All-zip _ _ targets settled
                (All-none_left (λ t. is_failed t.status) of_batch targets (ground arith)));
        tolerable = ground arith;
      }

  -- What a dispatch finds in the batch itself.
  judge-dispatch :
      (b c : ℕ) (ids : List ℕ)
      → judge exceeds targets threshold b ≡ some (dispatch c ids)
      → (c ≡ b)
        × (ids ≡ gateways_of (in_batch b targets))
        × All (λ t. t.batch_index ≡ b → t.status ≡ pending) targets
  unfolding judge count_batch count_status
  judge-dispatch b c ids h = (
    ground arith,
    ground arith,
    All-map (λ t k e. pending_lem t.status (k (ground arith))) targets
        (All-left (λ t. is_pending t.status) (λ t. t.batch_index == b) targets (ground arith)),
  )

  judge-ne-done : (b : ℕ) → judge exceeds targets threshold b ≢ some done
  unfolding judge
  judge-ne-done b h = ground arith

  later_lem :
      (x b : ℕ) (bs : List ℕ)
      → x ≡ b
      → All (λ c. x ≤ c) bs
      → All (λ c. c < b → judge exceeds targets threshold c ≡ none) bs
  later_lem x b bs e h = All-map (λ c k l. absurd (omega arith)) bs h

  walk-dispatch :
      (bs : List ℕ) (b : ℕ) (ids : List ℕ)
      → IsOrdered (λ a c. a ≤ c) bs
      → walk exceeds targets threshold bs ≡ dispatch b ids
      → (judge exceeds targets threshold b ≡ some (dispatch b ids))
        × All (λ c. c < b → judge exceeds targets threshold c ≡ none) bs
  unfolding walk
  walk-dispatch [] b ids o h = cc
  walk-dispatch (x ∷ bs) b ids o h = elim (Option-cases (judge exceeds targets threshold x)) [
    | inl passed ↦
        let (found, before) = walk-dispatch bs b ids o.1 (ground arith) in
        (found, ((λ l. passed), before))
    | inr (a, e) ↦
        let found : judge exceeds targets threshold x ≡ some (dispatch b ids) = ground arith in
        let same : b ≡ x = (judge-dispatch x b ids found).0 in
        (
          subst (λ c. judge exceeds targets threshold c ≡ some (dispatch b ids)) (sym same) found,
          ((λ l. absurd (omega arith)), later_lem x b bs (omega arith) o.0),
        )
  ]

  walk-done :
      (bs : List ℕ)
      → walk exceeds targets threshold bs ≡ done
      → All (λ c. judge exceeds targets threshold c ≡ none) bs
  unfolding walk
  walk-done [] h = tt
  walk-done (x ∷ bs) h = elim (Option-cases (judge exceeds targets threshold x)) [
    | inl passed ↦ (passed, walk-done bs (ground arith))
    | inr (a, e) ↦ absurd (judge-ne-done x (ground arith))
  ]

  next_action-walk :
      next_action exceeds targets threshold ≡ walk exceeds targets threshold (batches_of targets)
  unfolding next_action walk batches_of distinct
  next_action-walk = ground arith

  -- A wave goes out only when every earlier one has passed: all its targets have settled, the
  -- canaries all with success, and its failures do not exceed the threshold. The wave is a whole
  -- batch of which nothing has been sent yet.
  pub next_action-dispatch :
      (b : ℕ) (ids : List ℕ)
      → next_action exceeds targets threshold ≡ dispatch b ids
      → (ids ≡ gateways_of (in_batch b targets))
        × All (λ t. t.batch_index ≡ b → t.status ≡ pending) targets
        × All (λ t. t.batch_index < b → HasPassed exceeds targets threshold t.batch_index) targets
  next_action-dispatch b ids h =
      let (found, before) =
        walk-dispatch (batches_of targets) b ids (batches_of-IsOrdered targets)
          (sym next_action-walk ∙ h) in
      let (same, ids_of, fresh) = judge-dispatch b b ids found in
      (
        ids_of,
        fresh,
        All-batches_of (λ c. c < b → HasPassed exceeds targets threshold c) targets
            (All-map (λ c k l. judge-HasPassed c (k l)) (batches_of targets) before),
      )

  -- A rollout is done only when every batch has passed.
  pub next_action-done :
      next_action exceeds targets threshold ≡ done
      → All (λ t. HasPassed exceeds targets threshold t.batch_index) targets
  next_action-done h =
      All-batches_of (λ c. HasPassed exceeds targets threshold c) targets
        (All-map (λ c k. judge-HasPassed c k) (batches_of targets)
          (walk-done (batches_of targets) (sym next_action-walk ∙ h)))
