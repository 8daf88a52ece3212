-- ===== src/Webhooks/Dispatch/Progress.antt =====
-- A sweep of the webhook queue moves on (api/webhooks/dispatch.ts, webhookSweep).
use mathlib.Core.Path.{subst}
use gateway_monitoring_platf.Prelude.{
  IsOrdered-take, map-take, ℕ, ◌+◌, ◌≡◌, ◌≢◌, refl, sym, ◌∙◌, true, false, List, [], ◌∷◌, map, take,
  arith, All, All-map, IsOrdered, Bool-cases, inl, inr,
}
use gateway_monitoring_platf.Webhooks.Retry.{DeliveryOutcome, delivered, retry, dead}
use gateway_monitoring_platf.Webhooks.Dispatch.{
  Subscription, Delivery, closed, Hooks, Net, Counts, settle, deliver, deliver_all, due_of, batch,
  close_disabled, disabled_ids, has_id, webhook_sweep,
}
use gateway_monitoring_platf.Webhooks.Dispatch.Attempts.{update-All}
use gateway_monitoring_platf.Webhooks.Dispatch.Queue.{IsSound, due_ids, due-distinct}

-- The row of a due delivery has one attempt more, or is closed where its subscription is disabled.
abbrev pub Handled : Delivery × Subscription → Delivery → Type 0
Handled r row =
    row.id ≡ r.0.id
    → (r.1.enabled ≡ true → row.attempts ≡ r.0.attempts + 1)
      × (r.1.enabled ≡ false → row.status ≡ closed)

settle-All :
    (P Q : Delivery → Type 0) (net : Net) (d : Delivery) (sub : Subscription) (n : ℕ)
    (o : DeliveryOutcome) (c : Counts) (h : Hooks)
    → ((row : Delivery) → row.id ≡ d.id → row.attempts ≡ n → Q row)
    → ((row : Delivery) → row.id ≢ d.id → P row → Q row)
    → All P h.deliveries
    → All Q (settle net d sub n o (c, h)).1.deliveries
unfolding settle
settle-All P Q net d sub n (delivered s) c h hit miss all =
    update-All P Q d.id _ h.deliveries (λ row same p. hit _ same refl) miss all
settle-All P Q net d sub n (retry status e) c h hit miss all =
    update-All P Q d.id _ h.deliveries (λ row same p. hit _ same refl) miss all
settle-All P Q net d sub n (dead status e) c h hit miss all =
    update-All P Q d.id _ h.deliveries (λ row same p. hit _ same refl) miss all

All-Unit : (ds : List Delivery) → All (λ _. Unit {0}) ds
All-Unit [] = tt
All-Unit (d ∷ ds) = (tt, All-Unit ds)

deliver-Handled :
    (net : Net) (d : Delivery) (sub : Subscription) (c : Counts) (h : Hooks)
    → sub.enabled ≡ true
    → (P : Delivery → Type 0) → All P h.deliveries
    → All (Handled (d, sub)) (deliver net d sub (c, h)).1.deliveries
unfolding deliver
deliver-Handled net d sub c h on P all =
    settle-All P (Handled (d, sub)) net d sub (d.attempts + 1) _ c _
      (λ row same n. λ e. ((λ yes_on. n), (λ off. cc))) (λ row other p e. absurd (other e)) all

-- What is known of another delivery stays true.
deliver-keeps :
    (r : Delivery × Subscription) (net : Net) (d : Delivery) (sub : Subscription) (c : Counts)
    (h : Hooks)
    → r.0.id ≢ d.id
    → All (Handled r) h.deliveries
    → All (Handled r) (deliver net d sub (c, h)).1.deliveries
unfolding deliver
deliver-keeps r net d sub c h ne all =
    settle-All (Handled r) (Handled r) net d sub (d.attempts + 1) _ c _
      (λ row same n. λ e. absurd (ne (sym e ∙ same))) (λ row other p. p) all

deliver_all-keeps :
    (r : Delivery × Subscription) (net : Net) (due : List (Delivery × Subscription)) (c : Counts)
    (h : Hooks)
    → All (λ id. r.0.id ≢ id) (due_ids due)
    → All (Handled r) h.deliveries
    → All (Handled r) (deliver_all net due (c, h)).1.deliveries
unfolding deliver_all
deliver_all-keeps r net [] c h ne all = all
deliver_all-keeps r net ((d, sub) ∷ due) c h ne all = elim (Bool-cases sub.enabled) [
  | inr off ↦ rw off (deliver_all-keeps r net due c h ne.1 all)
  | inl on ↦
      let (c', h') = deliver net d sub (c, h) in
      rw on (deliver_all-keeps r net due c' h' ne.1 (deliver-keeps r net d sub c h ne.0 all))
]

-- What the loop starts from: the rows of disabled subscriptions are closed.
abbrev Starts : List Delivery → Delivery × Subscription → Type 0
Starts ds r = r.1.enabled ≡ false → All (Handled r) ds

Starts-deliver :
    (net : Net) (d : Delivery) (sub : Subscription) (c : Counts) (h : Hooks)
    (due : List (Delivery × Subscription))
    → All (λ id. d.id ≢ id) (due_ids due)
    → All (Starts h.deliveries) due
    → All (Starts (deliver net d sub (c, h)).1.deliveries) due
Starts-deliver net d sub c h [] ne starts = tt
Starts-deliver net d sub c h (r ∷ due) ne starts = (
  λ off. deliver-keeps r net d sub c h (λ e. ne.0 (sym e)) (starts.0 off),
  Starts-deliver net d sub c h due ne.1 starts.1,
)

deliver_all-on :
    (net : Net) (d : Delivery) (sub : Subscription) (due : List (Delivery × Subscription))
    (acc : Counts × Hooks)
    → sub.enabled ≡ true
    → deliver_all net due (deliver net d sub acc) ≡ deliver_all net ((d, sub) ∷ due) acc
unfolding deliver_all
deliver_all-on net d sub due acc on = ground arith

deliver_all-off :
    (net : Net) (d : Delivery) (sub : Subscription) (due : List (Delivery × Subscription))
    (acc : Counts × Hooks)
    → sub.enabled ≡ false
    → deliver_all net due acc ≡ deliver_all net ((d, sub) ∷ due) acc
unfolding deliver_all
deliver_all-off net d sub due acc off = ground arith

deliver_all-Handled :
    (net : Net) (due : List (Delivery × Subscription)) (c : Counts) (h : Hooks)
    → IsOrdered ◌≢◌ (due_ids due)
    → All (Starts h.deliveries) due
    → All (λ r. All (Handled r) (deliver_all net due (c, h)).1.deliveries) due
deliver_all-Handled net [] c h ne starts = tt
deliver_all-Handled net ((d, sub) ∷ due) c h ne starts = elim (Bool-cases sub.enabled) [
  | inr off ↦
      subst (λ x. All (λ r. All (Handled r) x.1.deliveries) ((d, sub) ∷ due))
        (deliver_all-off net d sub due (c, h) off)
        (
          deliver_all-keeps (d, sub) net due c h ne.0 (starts.0 off),
          deliver_all-Handled net due c h ne.1 starts.1,
        )
  | inl on ↦
      let (c', h') = deliver net d sub (c, h) in
      let here = deliver-Handled net d sub c h on (λ _. Unit {0}) (All-Unit h.deliveries) in
      subst (λ x. All (λ r. All (Handled r) x.1.deliveries) ((d, sub) ∷ due))
        (deliver_all-on net d sub due (c, h) on)
        (
          deliver_all-keeps (d, sub) net due c' h' ne.0 here,
          deliver_all-Handled net due c' h' ne.1 (Starts-deliver net d sub c h due ne.0 starts.1),
        )
]

disabled_hit :
    (due : List (Delivery × Subscription))
    → All (λ r. r.1.enabled ≡ false → has_id (disabled_ids due) r.0.id ≡ true) due
disabled_hit [] = tt
disabled_hit ((d, sub) ∷ due) = (
  λ off. ground arith,
  All-map {Q = λ r. r.1.enabled ≡ false → has_id (disabled_ids ((d, sub) ∷ due)) r.0.id ≡ true}
      (λ r (hit : r.1.enabled ≡ false → has_id (disabled_ids due) r.0.id ≡ true).
        λ off. ground (arith, hit off))
      due (disabled_hit due),
)

close-Handled :
    (r : Delivery × Subscription) (ids : List ℕ) (ds : List Delivery)
    → has_id ids r.0.id ≡ true
    → r.1.enabled ≡ false
    → All (Handled r) (map (close_disabled ids) ds)
close-Handled r ids [] hit off = tt
close-Handled r ids (d ∷ ds) hit off = elim (Bool-cases (has_id ids d.id)) [
  | inl closes ↦ rw closes ((λ same. ((λ on. cc), (λ _. refl))), close-Handled r ids ds hit off)
  | inr stays ↦ rw stays ((λ same. cc), close-Handled r ids ds hit off)
]

-- A delivery that is due does not stay as it is. After a sweep of a sound queue, each of the fifty
-- deliveries at most that it selected has one attempt more than before where its subscription is
-- enabled, and is closed where it is disabled.
pub sweep-Handled :
    (net : Net) (now : ℕ) (h : Hooks)
    → IsSound h
    → All
        (λ r. All (Handled r) (webhook_sweep net now h).1.deliveries)
        (take batch (due_of now h.subs h.deliveries))
unfolding webhook_sweep
sweep-Handled net now h v =
    let due = take batch (due_of now h.subs h.deliveries) in
    deliver_all-Handled net due _ _
      (rw (map-take (λ r. r.0.id) batch (due_of now h.subs h.deliveries)) (
        IsOrdered-take ◌≢◌ batch (due_ids (due_of now h.subs h.deliveries))
          (due-distinct now h.subs h.deliveries v.distinct)))
      (All-map {Q = Starts (map (close_disabled (disabled_ids due)) h.deliveries)}
        (λ r (hit : r.1.enabled ≡ false → has_id (disabled_ids due) r.0.id ≡ true).
          λ off. close-Handled r (disabled_ids due) h.deliveries (hit off) off)
        due (disabled_hit due))
