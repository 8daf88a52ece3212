-- ===== src/Webhooks/Dispatch/Attempts.antt =====
-- How often a delivery is sent (api/webhooks/dispatch.ts, emit and webhookSweep).
use gateway_monitoring_platf.Prelude.{
  ℕ, ◌+◌, ◌≤◌, ◌<◌, ◌≡◌, ◌≢◌, refl, Option, true, false, List, [], ◌∷◌, ◌++◌, ◌==◌, if◌then◌else◌,
  arith, All, Bool-cases, inl, inr,
}
use gateway_monitoring_platf.Webhooks.Retry.{
  max_attempts, DeliveryOutcome, delivered, retry, dead, classify,
}
use gateway_monitoring_platf.Webhooks.Dispatch.{
  Subscription, Delivery, Post, Hooks, Net, Reply, not_allowed, no_response_came, answered, Counts,
  outcome_of, is_sent, post_of, update_delivery, settle, deliver, is_pending,
}

abbrev pub posts_of : ℕ → List Post → ℕ
posts_of id [] = 0
posts_of id (p ∷ ps) = if p.delivery_id == id then posts_of id ps + 1 else posts_of id ps

-- A row counts its posts, has used its attempts up at most, and waits only while one is left.
abbrev pub Good : List Post → Delivery → Type 0
Good posts d =
    (posts_of d.id posts ≤ d.attempts)
    × (d.attempts ≤ max_attempts)
    × (is_pending d.status ≡ true → d.attempts < max_attempts)

abbrev Other : Delivery → Delivery → Type 0
Other d e = d.id ≢ e.id

posts_of-append :
    (id : ℕ) (ps qs : List Post) → posts_of id (ps ++ qs) ≡ posts_of id ps + posts_of id qs
posts_of-append id [] qs = omega arith
posts_of-append id (p ∷ ps) qs = ground (arith, posts_of-append id ps qs)

outcome_of-retry :
    (reply : Reply) (n : ℕ) (status : Option ℕ) (e : _)
    → outcome_of reply n ≡ retry status e
    → n < max_attempts
unfolding classify
outcome_of-retry not_allowed n status e h = ground arith
outcome_of-retry no_response_came n status e h = ground arith
outcome_of-retry (answered s) n status e h = ground arith

eq_of_test : (a b : ℕ) → (a == b) ≡ true → a ≡ b
eq_of_test a b h = ground arith

ne_of_test : (a b : ℕ) → (a == b) ≡ false → a ≢ b
ne_of_test a b h e = ground arith

pub update-All :
    (P Q : Delivery → Type 0) (id : ℕ) (f : Delivery → Delivery) (ds : List Delivery)
    → ((row : Delivery) → row.id ≡ id → P row → Q (f row))
    → ((row : Delivery) → row.id ≢ id → P row → Q row)
    → All P ds
    → All Q (update_delivery id f ds)
unfolding update_delivery
update-All P Q id f [] hit miss h = tt
update-All P Q id f (row ∷ rows) hit miss h = elim (Bool-cases (row.id == id)) [
  | inl same ↦
      rw same (hit row (eq_of_test row.id id same) h.0, update-All P Q id f rows hit miss h.1)
  | inr other ↦
      rw other (miss row (ne_of_test row.id id other) h.0, update-All P Q id f rows hit miss h.1)
]

-- The rows after one outcome: the posts of the delivery are within its new count, those of the
-- others as before.
settle-Good :
    (net : Net) (d : Delivery) (sub : Subscription) (n : ℕ) (o : DeliveryOutcome) (c : Counts)
    (h : Hooks) (before : List Post)
    → n ≤ max_attempts
    → ((status : Option ℕ) (e : _) → o ≡ retry status e → n < max_attempts)
    → posts_of d.id h.posts ≤ n
    → ((id : ℕ) → id ≢ d.id → posts_of id h.posts ≡ posts_of id before)
    → All (Good before) h.deliveries
    → All (Good h.posts) (settle net d sub n o (c, h)).1.deliveries
unfolding settle
settle-Good net d sub n (delivered s) c h before small left counted others good =
    update-All (Good before) (Good h.posts) d.id _ h.deliveries
      (λ row same g. (rw same counted, small, λ w. cc)) (λ row other g. rw (others row.id other) g)
      good
settle-Good net d sub n (retry status e) c h before small left counted others good =
    update-All (Good before) (Good h.posts) d.id _ h.deliveries
      (λ row same g. (rw same counted, small, λ w. left status e refl))
      (λ row other g. rw (others row.id other) g) good
settle-Good net d sub n (dead status e) c h before small left counted others good =
    update-All (Good before) (Good h.posts) d.id _ h.deliveries
      (λ row same g. (rw same counted, small, λ w. cc)) (λ row other g. rw (others row.id other) g)
      good

settle-posts :
    (net : Net) (d : Delivery) (sub : Subscription) (n : ℕ) (o : DeliveryOutcome) (c : Counts)
    (h : Hooks)
    → ((settle net d sub n o (c, h)).1.posts ≡ h.posts)
      × ((settle net d sub n o (c, h)).1.next_id ≡ h.next_id)
unfolding settle
settle-posts net d sub n (delivered s) c h = (refl, refl)
settle-posts net d sub n (retry status e) c h = (refl, refl)
settle-posts net d sub n (dead status e) c h = (refl, refl)

abbrev pub posted : Net → Delivery → Subscription → List Post → List Post
posted net d sub ps = if is_sent (net.reply (post_of d sub)) then ps ++ post_of d sub ∷ [] else ps

posts_of-posted :
    (net : Net) (d : Delivery) (sub : Subscription) (ps : List Post)
    → posts_of d.id (posted net d sub ps) ≤ posts_of d.id ps + 1
posts_of-posted net d sub ps = ground (arith, posts_of-append d.id ps (post_of d sub ∷ []))

pub posts_of-posted_other :
    (net : Net) (d : Delivery) (sub : Subscription) (ps : List Post) (id : ℕ)
    → id ≢ d.id
    → posts_of id (posted net d sub ps) ≡ posts_of id ps
posts_of-posted_other net d sub ps id ne =
    ground (arith, posts_of-append id ps (post_of d sub ∷ []))

-- What the loop knows of a delivery that it has still to handle.
abbrev pub Open : List Post → Delivery × Subscription → Type 0
Open posts r = (posts_of r.0.id posts ≤ r.0.attempts) × (r.0.attempts < max_attempts)

pub deliver-Good :
    (net : Net) (d : Delivery) (sub : Subscription) (c : Counts) (h : Hooks)
    → Open h.posts (d, sub)
    → All (Good h.posts) h.deliveries
    → let h' = (deliver net d sub (c, h)).1 in
      (h'.posts ≡ posted net d sub h.posts)
      × (h'.next_id ≡ h.next_id)
      × All (Good h'.posts) h'.deliveries
unfolding deliver
deliver-Good net d sub c h o good =
    let n = d.attempts + 1 in
    let reply = net.reply (post_of d sub) in
    let h1 : Hooks = record h { posts = posted net d sub h.posts } in
    let same = settle-posts net d sub n (outcome_of reply n) c h1 in
    (
      same.0,
      same.1,
      rw (same.0) (
          settle-Good net d sub n (outcome_of reply n) c h1 h.posts (omega (arith, o.1))
            (outcome_of-retry reply n) (omega (arith, o.0, posts_of-posted net d sub h.posts))
            (posts_of-posted_other net d sub h.posts) good),
    )
