-- ===== src/Webhooks/Dispatch/Emit.antt =====
-- What emit puts in the queue, and the queue over any sequence of calls (api/webhooks/dispatch.ts).
use gateway_monitoring_platf.Prelude.{
  ℕ, ◌+◌, ◌≤◌, ◌<◌, ◌≡◌, ◌≢◌, refl, ap, String, Option, Bool, true, false, List, [], ◌∷◌, ◌++◌, map,
  filter, length, arith, All, All-append, All-map, All-filter_test, IsOrdered,
}
use gateway_monitoring_platf.Webhooks.Dispatch.{
  Subscription, Delivery, pending, Post, Hooks, Net, is_wanted, in_org, new_deliveries, emit,
  webhook_sweep,
}
use gateway_monitoring_platf.Webhooks.Dispatch.Attempts.{posts_of, Good}
use gateway_monitoring_platf.Webhooks.Dispatch.Queue.{IsSound, ids, sweep-IsSound}

All-range :
    (event content : String) (at k : ℕ) (subs : List Subscription)
    → All (λ id. (k ≤ id) × (id < k + length subs)) (ids (new_deliveries event content at k subs))
unfolding new_deliveries
All-range event content at k [] = tt
All-range event content at k (sub ∷ subs) = (
  (omega arith, omega arith),
  All-map (λ id (r : (k + 1 ≤ id) × (id < k + 1 + length subs)). (omega arith, omega arith))
      (ids (new_deliveries event content at (k + 1) subs))
      (All-range event content at (k + 1) subs),
)

new-distinct :
    (event content : String) (at k : ℕ) (subs : List Subscription)
    → IsOrdered ◌≢◌ (ids (new_deliveries event content at k subs))
unfolding new_deliveries
new-distinct event content at k [] = tt
new-distinct event content at k (sub ∷ subs) = (
  All-map {Q = λ id. k ≢ id}
      (λ id (r : (k + 1 ≤ id) × (id < k + 1 + length subs)) (e : k ≡ id).
        absurd (omega (arith, e, r.0)))
      (ids (new_deliveries event content at (k + 1) subs))
      (All-range event content at (k + 1) subs),
  new-distinct event content at (k + 1) subs,
)

new-Good :
    (event content : String) (at k : ℕ) (subs : List Subscription) (ps : List Post)
    → ((id : ℕ) → k ≤ id → posts_of id ps ≡ 0)
    → All (Good ps) (new_deliveries event content at k subs)
unfolding new_deliveries
new-Good event content at k [] ps none_yet = tt
new-Good event content at k (sub ∷ subs) ps none_yet = (
  (omega (arith, none_yet k (omega arith)), omega arith, λ w. omega arith),
  new-Good event content at (k + 1) subs ps (λ id le. none_yet id (omega arith)),
)

IsOrdered-append {ℓ κ} :
    {A : Type ℓ} (R : A → A → Type κ) (xs ys : List A)
    → IsOrdered R xs
    → IsOrdered R ys
    → All (λ x. All (R x) ys) xs
    → IsOrdered R (xs ++ ys)
IsOrdered-append R [] ys hx hy cross = hy
IsOrdered-append R (x ∷ xs) ys hx hy cross =
    (All-append (R x) xs ys hx.0 cross.0, IsOrdered-append R xs ys hx.1 hy cross.1)

ids-append : (ds es : List Delivery) → ids (ds ++ es) ≡ ids ds ++ ids es
ids-append [] es = refl
ids-append (d ∷ ds) es = ap (λ l. d.id ∷ l) (ids-append ds es)

emit-IsSound :
    (up : Bool) (event content : String) (org : Option ℕ) (at : ℕ) (h : Hooks)
    → IsSound h
    → IsSound (emit up event content org at h).1
unfolding emit
emit-IsSound false event content org at h v = v
emit-IsSound true event content org at h v =
    let wanted = filter (is_wanted event org) h.subs in
    let new = new_deliveries event content at h.next_id wanted in
    let range = All-range event content at h.next_id wanted in
    record {
      good =
          All-append (Good h.posts) h.deliveries new v.good
            (new-Good event content at h.next_id wanted h.posts v.fresh);
      distinct = rw (ids-append h.deliveries new) (
          IsOrdered-append ◌≢◌ (ids h.deliveries) (ids new) v.distinct
            (new-distinct event content at h.next_id wanted)
            (All-map {Q = λ old. All (λ id. old ≢ id) (ids new)}
              (λ old (lt : old < h.next_id).
                All-map {Q = λ id. old ≢ id}
                  (λ id (r : (h.next_id ≤ id) × (id < h.next_id + length wanted)) (e : old ≡ id).
                    absurd (omega (arith, e, r.0, lt)))
                  (ids new) range)
              (ids h.deliveries) v.below));
      below = rw (ids-append h.deliveries new) (
          All-append (λ id. id < h.next_id + length wanted) (ids h.deliveries) (ids new)
            (All-map (λ id (lt : id < h.next_id). omega (arith, lt)) (ids h.deliveries) v.below)
            (All-map (λ id (r : (h.next_id ≤ id) × (id < h.next_id + length wanted)). r.1) (ids new)
              range));
      fresh = λ id le. v.fresh id (omega (arith, le));
    }

-- A call of emit, or of webhookSweep.
pub data Call : Type 0 where
  emits : Bool → String → String → Option ℕ → ℕ → Call
  sweeps : Net → ℕ → Call

unfoldable pub perform : Hooks → List Call → Hooks
unfolding emit webhook_sweep
perform h [] = h
perform h (emits up event content org at ∷ calls) = perform (emit up event content org at h).1 calls
perform h (sweeps net now ∷ calls) = perform (webhook_sweep net now h).1 calls

-- A delivery is sent eight times at most, whatever is emitted and swept, and whatever the endpoints
-- answer. From a sound queue every sequence of calls of emit and webhookSweep leads to a sound one:
-- each row has been posted no more often than its attempts say, which are eight at most and fewer
-- than eight while it is pending; the ids of rows differ and are below the next one, under which and
-- from which on nothing has been posted.
pub perform-IsSound : (calls : List Call) (h : Hooks) → IsSound h → IsSound (perform h calls)
unfolding perform
perform-IsSound [] h v = v
perform-IsSound (emits up event content org at ∷ calls) h v =
    perform-IsSound calls _ (emit-IsSound up event content org at h v)
perform-IsSound (sweeps net now ∷ calls) h v = perform-IsSound calls _ (sweep-IsSound net now h v)

-- What a new row says of its subscription and of the event.
abbrev pub IsFor : String → String → Option ℕ → ℕ → Delivery → Type 0
IsFor event content org at d =
    (in_org org d.org_id ≡ true)
    × (d.status ≡ pending)
    × (d.attempts ≡ 0)
    × (d.next_attempt ≡ at)
    × (d.payload ≡ record { event = event; at = at; content = content })

new-IsFor :
    (event content : String) (org : Option ℕ) (at k : ℕ) (subs : List Subscription)
    → All (λ s. is_wanted event org s ≡ true) subs
    → All (IsFor event content org at) (new_deliveries event content at k subs)
unfolding new_deliveries is_wanted
new-IsFor event content org at k [] h = tt
new-IsFor event content org at k (sub ∷ subs) h =
    ((ground arith, refl, refl, refl, refl), new-IsFor event content org at (k + 1) subs h.1)

new-subscriptions :
    (event content : String) (at k : ℕ) (subs : List Subscription)
    → map (λ d. d.subscription_id) (new_deliveries event content at k subs) ≡ map (λ s. s.id) subs
unfolding new_deliveries
new-subscriptions event content at k [] = refl
new-subscriptions event content at k (sub ∷ subs) =
    ap (λ l. sub.id ∷ l) (new-subscriptions event content at (k + 1) subs)

-- An event stays in its organization. emit appends one delivery for each subscription that is
-- enabled, asks for the event and is global or of the event's organization, and no other, and
-- answers with their number: each belongs to the event's organization or to none, is pending and
-- due at once with no attempt made, and carries the event as it is now.
pub emit_lem :
    (event content : String) (org : Option ℕ) (at : ℕ) (h : Hooks)
    → let (n, h') = emit true event content org at h in
      let wanted = filter (is_wanted event org) h.subs in
      (new : List Delivery) × (h'.deliveries ≡ h.deliveries ++ new)
      × (map (λ d. d.subscription_id) new ≡ map (λ s. s.id) wanted)
      × All (IsFor event content org at) new
      × (n ≡ length wanted)
unfolding emit
emit_lem event content org at h =
    let wanted = filter (is_wanted event org) h.subs in
    (
      new_deliveries event content at h.next_id wanted,
      refl,
      new-subscriptions event content at h.next_id wanted,
      new-IsFor event content org at h.next_id wanted
          (All-filter_test (is_wanted event org) h.subs),
      refl,
    )
