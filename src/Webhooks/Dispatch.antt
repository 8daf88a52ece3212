-- ===== src/Webhooks/Dispatch.antt =====
-- The queue of outbound webhooks (api/webhooks/dispatch.ts) over the tables webhook_subscriptions and
-- webhook_deliveries. The rows of a SELECT come in the order of the table, and its statements
-- succeed; what an endpoint answers, the clock and the random numbers are an argument.
pub mod Emit
pub mod Attempts
pub mod Queue
pub mod Progress
use gateway_monitoring_platf.Prelude.{
  ℕ, ◌+◌, String, Option, none, some, Bool, true, false, not, ◌&&◌, ◌||◌, List, [], ◌∷◌, ◌++◌, map,
  leb, ltb, ◌==◌, str_eq, if◌then◌else◌, filter, take, length,
}
use gateway_monitoring_platf.Webhooks.Retry.{
  max_attempts, next_attempt_at, Failure, DeliveryOutcome, delivered, retry, dead, classify,
}

-- `events` is the json column: `none` is no array, and an entry that is no string is `none`.
pub record Subscription : Type 0 where
  pub id : ℕ
  pub url : String
  pub events : Option (List (Option String))
  pub enabled : Bool
  pub consecutive_failures : ℕ
  pub last_success_at : Option ℕ
  pub last_error_at : Option ℕ
  pub last_error : Option Failure
  pub org_id : Option ℕ

pub data DeliveryStatus : Type 0 where
  pending delivered_ok closed : DeliveryStatus

-- Why the last attempt failed, or that the subscription was disabled.
pub data LastError : Type 0 where
  failed_with : Failure → LastError
  subscription_disabled : LastError

-- `content` is the JSON text of the event's data.
pub record Payload : Type 0 where
  pub event : String
  pub at : ℕ
  pub content : String

pub record Delivery : Type 0 where
  pub id : ℕ
  pub subscription_id : ℕ
  pub event : String
  pub payload : Payload
  pub status : DeliveryStatus
  pub attempts : ℕ
  pub next_attempt : ℕ
  pub response_status : Option ℕ
  pub last_error : Option LastError
  pub delivered_at : Option ℕ
  pub org_id : Option ℕ

-- A request that left for an endpoint, with its delivery header.
pub record Post : Type 0 where
  pub url : String
  pub delivery_id : ℕ
  pub payload : Payload

-- The tables with the next id of a delivery, and the requests so far.
pub record Hooks : Type 0 where
  pub subs : List Subscription
  pub deliveries : List Delivery
  pub next_id : ℕ
  pub posts : List Post

abbrev pub strings : List (Option String) → List String
strings [] = []
strings (none ∷ es) = strings es
strings (some e ∷ es) = e ∷ strings es

unfoldable pub subscribed_events : Subscription → List String
subscribed_events sub = elim sub.events [ none ↦ [] | some es ↦ strings es ]

abbrev pub includes : List String → String → Bool
includes [] e = false
includes (x ∷ xs) e = str_eq x e || includes xs e

-- Its own org's subscriptions and the global ones.
abbrev pub in_org : Option ℕ → Option ℕ → Bool
in_org _ none = true
in_org none (some o) = false
in_org (some org) (some o) = o == org

unfoldable pub is_wanted : String → Option ℕ → Subscription → Bool
unfolding subscribed_events
is_wanted event org sub =
    sub.enabled && in_org org sub.org_id && includes (subscribed_events sub) event

unfoldable pub new_delivery : String → String → ℕ → ℕ → Subscription → Delivery
new_delivery event content at id sub = record {
  id = id;
  subscription_id = sub.id;
  event = event;
  payload = record { event = event; at = at; content = content };
  status = pending;
  attempts = 0;
  next_attempt = at;
  response_status = none;
  last_error = none;
  delivered_at = none;
  org_id = sub.org_id;
}

-- The rows of an INSERT take the ids from `id` on.
unfoldable pub new_deliveries : String → String → ℕ → ℕ → List Subscription → List Delivery
unfolding new_delivery
new_deliveries event content at id [] = []
new_deliveries event content at id (sub ∷ subs) =
    new_delivery event content at id sub ∷ new_deliveries event content at (id + 1) subs

-- emit; `is_up` is that its statements succeed.
unfoldable pub emit : Bool → String → String → Option ℕ → ℕ → Hooks → ℕ × Hooks
unfolding is_wanted new_deliveries
emit false event content org at h = (0, h)
emit true event content org at h =
    let wanted = filter (is_wanted event org) h.subs in
    (
      length wanted,
      record h {
        deliveries = h.deliveries ++ new_deliveries event content at h.next_id wanted;
        next_id = h.next_id + length wanted;
      },
    )

-- How a request goes: its address is refused before it is sent, no response comes, or a status.
pub data Reply : Type 0 where
  not_allowed no_response_came : Reply
  answered : ℕ → Reply

-- By delivery: the reply to its request, the clock after it, the random number.
pub record Net : Type 0 where
  pub reply : Post → Reply
  pub clock : ℕ → ℕ
  pub rand : ℕ → ℕ

abbrev pub is_sent : Reply → Bool
is_sent not_allowed = false
is_sent _ = true

-- What classify says of the AttemptResult.
abbrev pub outcome_of : Reply → ℕ → DeliveryOutcome
outcome_of not_allowed n = classify none true n max_attempts
outcome_of no_response_came n = classify none true n max_attempts
outcome_of (answered s) n = classify (some s) (not (leb 200 s && ltb s 300)) n max_attempts

-- UPDATE ... WHERE id
unfoldable pub update_delivery : ℕ → (Delivery → Delivery) → List Delivery → List Delivery
update_delivery id f [] = []
update_delivery id f (d ∷ ds) = (if d.id == id then f d else d) ∷ update_delivery id f ds

unfoldable pub update_sub :
    ℕ → (Subscription → Subscription) → List Subscription → List Subscription
update_sub id f [] = []
update_sub id f (s ∷ ss) = (if s.id == id then f s else s) ∷ update_sub id f ss

pub record Counts : Type 0 where
  pub delivered_count : ℕ
  pub retried_count : ℕ
  pub dead_count : ℕ

abbrev pub fail_sub : ℕ → Failure → Subscription → Subscription
fail_sub at e s = record s {
  consecutive_failures = s.consecutive_failures + 1;
  last_error_at = some at;
  last_error = some e;
}

-- The statements after an attempt.
unfoldable pub settle :
    Net → Delivery → Subscription → ℕ → DeliveryOutcome → Counts × Hooks → Counts × Hooks
unfolding update_delivery update_sub
settle net d sub n (delivered s) (c, h) = (
  record c { delivered_count = c.delivered_count + 1 },
  record h {
    deliveries =
        update_delivery d.id
          (λ row. record row {
            status = delivered_ok;
            attempts = n;
            response_status = some s;
            delivered_at = some (net.clock d.id);
            last_error = none;
          })
          h.deliveries;
    subs =
        update_sub sub.id
          (λ s. record s {
            consecutive_failures = 0;
            last_success_at = some (net.clock d.id);
            last_error = none;
          })
          h.subs;
  },
)
settle net d sub n (retry status e) (c, h) = (
  record c { retried_count = c.retried_count + 1 },
  record h {
    deliveries =
        update_delivery d.id
          (λ row. record row {
            attempts = n;
            response_status = status;
            last_error = some (failed_with e);
            next_attempt = next_attempt_at n (net.clock d.id) (net.rand d.id);
          })
          h.deliveries;
    subs = update_sub sub.id (fail_sub (net.clock d.id) e) h.subs;
  },
)
settle net d sub n (dead status e) (c, h) = (
  record c { dead_count = c.dead_count + 1 },
  record h {
    deliveries =
        update_delivery d.id
          (λ row. record row {
            status = closed;
            attempts = n;
            response_status = status;
            last_error = some (failed_with e);
          })
          h.deliveries;
    subs = update_sub sub.id (fail_sub (net.clock d.id) e) h.subs;
  },
)

abbrev pub post_of : Delivery → Subscription → Post
post_of d sub = record { url = sub.url; delivery_id = d.id; payload = d.payload }

-- One round of the loop over an enabled subscription's delivery.
unfoldable pub deliver : Net → Delivery → Subscription → Counts × Hooks → Counts × Hooks
unfolding settle
deliver net d sub (c, h) =
    let reply = net.reply (post_of d sub) in
    let h' : Hooks = record h {
      posts = if is_sent reply then h.posts ++ post_of d sub ∷ [] else h.posts;
    } in
    settle net d sub (d.attempts + 1) (outcome_of reply (d.attempts + 1)) (c, h')

unfoldable pub deliver_all : Net → List (Delivery × Subscription) → Counts × Hooks → Counts × Hooks
unfolding deliver
deliver_all net [] acc = acc
deliver_all net ((d, sub) ∷ due) acc =
    deliver_all net due (if sub.enabled then deliver net d sub acc else acc)

abbrev pub find_sub : ℕ → List Subscription → Option Subscription
find_sub id [] = none
find_sub id (s ∷ ss) = if s.id == id then some s else find_sub id ss

abbrev pub is_pending : DeliveryStatus → Bool
is_pending pending = true
is_pending _ = false

abbrev pub with_sub :
    Delivery → Option Subscription → List (Delivery × Subscription) → List (Delivery × Subscription)
with_sub d none rest = rest
with_sub d (some sub) rest = (d, sub) ∷ rest

-- The SELECT with its join; an id is that of one subscription.
unfoldable pub due_of : ℕ → List Subscription → List Delivery → List (Delivery × Subscription)
due_of now subs [] = []
due_of now subs (d ∷ ds) =
    let rest = due_of now subs ds in
    if is_pending d.status && leb d.next_attempt now
    then with_sub d (find_sub d.subscription_id subs) rest
    else rest

abbrev pub batch : ℕ
batch = 50

abbrev pub disabled_ids : List (Delivery × Subscription) → List ℕ
disabled_ids due = map (λ r. r.0.id) (filter (λ r. not r.1.enabled) due)

abbrev pub has_id : List ℕ → ℕ → Bool
has_id [] n = false
has_id (m ∷ ms) n = m == n || has_id ms n

abbrev pub close_disabled : List ℕ → Delivery → Delivery
close_disabled ids d =
    if has_id ids d.id
    then record d { status = closed; last_error = some subscription_disabled }
    else d

unfoldable pub webhook_sweep : Net → ℕ → Hooks → Counts × Hooks
unfolding due_of deliver_all
webhook_sweep net now h =
    let due = take batch (due_of now h.subs h.deliveries) in
    let disabled = disabled_ids due in
    deliver_all net due (
      record { delivered_count = 0; retried_count = 0; dead_count = length disabled },
      record h { deliveries = map (close_disabled disabled) h.deliveries },
    )
