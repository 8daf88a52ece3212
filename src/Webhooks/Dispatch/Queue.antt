-- ===== src/Webhooks/Dispatch/Queue.antt =====
-- The queue over any sequence of events and sweeps (api/webhooks/dispatch.ts, emit and webhookSweep).
use gateway_monitoring_platf.Prelude.{
  All-take, IsOrdered-take, map-take, ℕ, ◌+◌, ◌≤◌, ◌<◌, ◌≡◌, ◌≢◌, refl, sym, ◌∙◌, true, List, [],
  ◌∷◌, map, ◌&&◌, leb, take, arith, All, IsOrdered, Bool-cases, Option-cases, inl, inr,
}
use gateway_monitoring_platf.Webhooks.Retry.{DeliveryOutcome, delivered, retry, dead}
use gateway_monitoring_platf.Webhooks.Dispatch.{
  Subscription, Delivery, Post, Hooks, Net, Counts, update_delivery, settle, deliver, deliver_all,
  is_pending, find_sub, due_of, batch, close_disabled, disabled_ids, has_id, webhook_sweep,
}
use gateway_monitoring_platf.Webhooks.Dispatch.Attempts.{
  posts_of, Good, Open, posted, posts_of-posted_other, deliver-Good,
}

abbrev pub ids : List Delivery → List ℕ
ids = map (λ d. d.id)

abbrev pub due_ids : List (Delivery × Subscription) → List ℕ
due_ids = map (λ r. r.0.id)

-- The queue: every row is good, ids are distinct and below the next one, which has no posts yet.
pub record IsSound (h : Hooks) : Type 0 where
  pub good : All (Good h.posts) h.deliveries
  pub distinct : IsOrdered ◌≢◌ (ids h.deliveries)
  pub below : All (λ id. id < h.next_id) (ids h.deliveries)
  pub fresh : (id : ℕ) → h.next_id ≤ id → posts_of id h.posts ≡ 0

ids-update :
    (id : ℕ) (f : Delivery → Delivery) (ds : List Delivery)
    → ((d : Delivery) → (f d).id ≡ d.id)
    → ids (update_delivery id f ds) ≡ ids ds
unfolding update_delivery
ids-update id f [] keep = refl
ids-update id f (d ∷ ds) keep = ground (arith, keep d, ids-update id f ds keep)

ids-settle :
    (net : Net) (d : Delivery) (sub : Subscription) (n : ℕ) (o : DeliveryOutcome) (c : Counts)
    (h : Hooks)
    → ids (settle net d sub n o (c, h)).1.deliveries ≡ ids h.deliveries
unfolding settle
ids-settle net d sub n (delivered s) c h = ids-update d.id _ h.deliveries (λ row. refl)
ids-settle net d sub n (retry status e) c h = ids-update d.id _ h.deliveries (λ row. refl)
ids-settle net d sub n (dead status e) c h = ids-update d.id _ h.deliveries (λ row. refl)

ids-deliver :
    (net : Net) (d : Delivery) (sub : Subscription) (c : Counts) (h : Hooks)
    → ids (deliver net d sub (c, h)).1.deliveries ≡ ids h.deliveries
unfolding deliver
ids-deliver net d sub c h = ids-settle net d sub (d.attempts + 1) _ c _

deliver-IsSound :
    (net : Net) (d : Delivery) (sub : Subscription) (c : Counts) (h : Hooks)
    → Open h.posts (d, sub)
    → d.id < h.next_id
    → IsSound h
    → IsSound (deliver net d sub (c, h)).1
deliver-IsSound net d sub c h o lt v =
    let (posts, next, good) = deliver-Good net d sub c h o v.good in
    record {
      good = good;
      distinct = rw (ids-deliver net d sub c h) v.distinct;
      below = rw (ids-deliver net d sub c h, next) v.below;
      fresh = λ id le. rw posts (
          posts_of-posted_other net d sub h.posts id (λ e. omega (arith, rw next at le, e, lt))
          ∙ v.fresh id (rw next at le));
    }

Open-others :
    (net : Net) (d : Delivery) (sub : Subscription) (ps : List Post)
    (due : List (Delivery × Subscription))
    → All (λ id. d.id ≢ id) (due_ids due)
    → All (Open ps) due
    → All (Open (posted net d sub ps)) due
Open-others net d sub ps [] ne o = tt
Open-others net d sub ps (r ∷ due) ne o =
    let same = posts_of-posted_other net d sub ps r.0.id (λ e. ne.0 (sym e)) in
    ((rw same (o.0.0), o.0.1), Open-others net d sub ps due ne.1 o.1)

deliver_all-IsSound :
    (net : Net) (due : List (Delivery × Subscription)) (c : Counts) (h : Hooks)
    → All (Open h.posts) due
    → IsOrdered ◌≢◌ (due_ids due)
    → All (λ id. id < h.next_id) (due_ids due)
    → IsSound h
    → IsSound (deliver_all net due (c, h)).1
unfolding deliver_all
deliver_all-IsSound net [] c h o ne lt v = v
deliver_all-IsSound net ((d, sub) ∷ due) c h o ne lt v = elim (Bool-cases sub.enabled) [
  | inr off ↦ rw off (deliver_all-IsSound net due c h o.1 ne.1 lt.1 v)
  | inl on ↦
      let (posts, next, good) = deliver-Good net d sub c h o.0 v.good in
      let (c', h') = deliver net d sub (c, h) in
      rw on (
        deliver_all-IsSound net due c' h' (rw posts (Open-others net d sub h.posts due ne.0 o.1))
          ne.1 (rw next lt.1) (deliver-IsSound net d sub c h o.0 lt.0 v))
]

pub find_due :
    (Q : ℕ → Type 0) (now : ℕ) (subs : List Subscription) (ds : List Delivery)
    → All Q (ids ds)
    → All Q (due_ids (due_of now subs ds))
unfolding due_of
find_due Q now subs [] h = tt
find_due Q now subs (d ∷ ds) h = elim (Bool-cases (is_pending d.status && leb d.next_attempt now)) [
  | inr later ↦ rw later (find_due Q now subs ds h.1)
  | inl due ↦ elim (Option-cases (find_sub d.subscription_id subs)) [
    | inl gone ↦ rw (due, gone) (find_due Q now subs ds h.1)
    | inr (sub, found) ↦ rw (due, found) (h.0, find_due Q now subs ds h.1)
  ]
]

pub due-distinct :
    (now : ℕ) (subs : List Subscription) (ds : List Delivery)
    → IsOrdered ◌≢◌ (ids ds)
    → IsOrdered ◌≢◌ (due_ids (due_of now subs ds))
unfolding due_of
due-distinct now subs [] h = tt
due-distinct now subs (d ∷ ds) h =
    elim (Bool-cases (is_pending d.status && leb d.next_attempt now)) [
      | inr later ↦ rw later (due-distinct now subs ds h.1)
      | inl due ↦ elim (Option-cases (find_sub d.subscription_id subs)) [
        | inl gone ↦ rw (due, gone) (due-distinct now subs ds h.1)
        | inr (sub, found) ↦
            rw (due, found)
              (find_due (λ id. d.id ≢ id) now subs ds h.0, due-distinct now subs ds h.1)
      ]
    ]

due-Open :
    (ps : List Post) (now : ℕ) (subs : List Subscription) (ds : List Delivery)
    → All (Good ps) ds
    → All (Open ps) (due_of now subs ds)
unfolding due_of
due-Open ps now subs [] h = tt
due-Open ps now subs (d ∷ ds) h =
    elim (Bool-cases (is_pending d.status && leb d.next_attempt now)) [
      | inr later ↦ rw later (due-Open ps now subs ds h.1)
      | inl due ↦ elim (Option-cases (find_sub d.subscription_id subs)) [
        | inl gone ↦ rw (due, gone) (due-Open ps now subs ds h.1)
        | inr (sub, found) ↦
            let waits : is_pending d.status ≡ true = ground arith in
            rw (due, found) ((h.0.0, h.0.2 waits), due-Open ps now subs ds h.1)
      ]
    ]

ids-close : (closed : List ℕ) (ds : List Delivery) → ids (map (close_disabled closed) ds) ≡ ids ds
ids-close closed [] = refl
ids-close closed (d ∷ ds) = ground (arith, ids-close closed ds)

close-Good :
    (ps : List Post) (closed : List ℕ) (ds : List Delivery)
    → All (Good ps) ds
    → All (Good ps) (map (close_disabled closed) ds)
close-Good ps closed [] h = tt
close-Good ps closed (d ∷ ds) h = elim (Bool-cases (has_id closed d.id)) [
  | inl hit ↦ rw hit ((h.0.0, h.0.1, λ w. cc), close-Good ps closed ds h.1)
  | inr miss ↦ rw miss (h.0, close-Good ps closed ds h.1)
]

pub sweep-IsSound :
    (net : Net) (now : ℕ) (h : Hooks) → IsSound h → IsSound (webhook_sweep net now h).1
unfolding webhook_sweep
sweep-IsSound net now h v =
    let due = due_of now h.subs h.deliveries in
    let closed = disabled_ids (take batch due) in
    deliver_all-IsSound net (take batch due) _ _
      (All-take (Open h.posts) batch due (due-Open h.posts now h.subs h.deliveries v.good))
      (rw (map-take (λ r. r.0.id) batch due)
        (IsOrdered-take ◌≢◌ batch (due_ids due) (due-distinct now h.subs h.deliveries v.distinct)))
      (rw (map-take (λ r. r.0.id) batch due) (
        All-take (λ id. id < h.next_id) batch (due_ids due)
          (find_due (λ id. id < h.next_id) now h.subs h.deliveries v.below)))
      (record {
        good = close-Good h.posts closed h.deliveries v.good;
        distinct = rw (ids-close closed h.deliveries) v.distinct;
        below = rw (ids-close closed h.deliveries) v.below;
        fresh = v.fresh;
      })
