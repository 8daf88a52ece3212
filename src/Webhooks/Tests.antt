-- ===== src/Webhooks/Tests.antt =====
-- Runs of the retry policy and of the queue (api/webhooks).
use gateway_monitoring_platf.Prelude.{
  ℕ, refl, none, some, true, false, List, [], ◌∷◌, map, take, length, All, ◌≡◌,
}
use gateway_monitoring_platf.Webhooks.Retry.{backoff_ms, classify}
use gateway_monitoring_platf.Webhooks.Dispatch.{
  Subscription, Hooks, Net, answered, due_of, batch, webhook_sweep,
}
use gateway_monitoring_platf.Webhooks.Dispatch.Queue.{IsSound}
use gateway_monitoring_platf.Webhooks.Dispatch.Emit.{Call, emits, sweeps, perform, perform-IsSound}
use gateway_monitoring_platf.Webhooks.Dispatch.Progress.{Handled, sweep-Handled}

abbrev own : Subscription
own = record {
  id = 1;
  url = "https://a.example/hook";
  events = some (some "alarm.raised" ∷ none ∷ []);
  enabled = true;
  consecutive_failures = 0;
  last_success_at = none;
  last_error_at = none;
  last_error = none;
  org_id = some 4;
}

abbrev global_off : Subscription
global_off = record own { id = 2; org_id = none; enabled = false }

abbrev foreign : Subscription
foreign = record own { id = 3; org_id = some 5 }

abbrev queue : Hooks
queue = record { subs = own ∷ global_off ∷ foreign ∷ []; deliveries = []; next_id = 1; posts = [] }

abbrev dark_net : Net
dark_net = record { reply = λ _. answered 503; clock = λ _. 2000; rand = λ _. 0 }

abbrev raised_twice : List Call
raised_twice =
    emits true "alarm.raised" "{}" (some 4) 1000
    ∷ sweeps dark_net 1000
    ∷ emits true "alarm.raised" "{}" (some 5) 3000
    ∷ []

queue-IsSound : IsSound queue
queue-IsSound = record { good = tt; distinct = tt; below = tt; fresh = λ id le. refl }

perform-IsSound_example : IsSound (perform queue raised_twice)
perform-IsSound_example = perform-IsSound raised_twice queue queue-IsSound

-- The event of organization 4 goes to its own subscription, which is tried once.
perform_run :
    (map {B = ℕ × ℕ × ℕ}
        (λ d. (d.id, d.subscription_id, d.attempts))
        (perform queue raised_twice).deliveries
      ≡ (1, 1, 1) ∷ (2, 3, 0) ∷ [])
    × (length (perform queue raised_twice).posts ≡ 1)
unfolding perform backoff_ms classify
perform_run = (refl, refl)

sweep-Handled_example :
    let h = perform queue raised_twice in
    All
      (λ r. All (Handled r) (webhook_sweep dark_net 9000 h).1.deliveries)
      (take batch (due_of 9000 h.subs h.deliveries))
sweep-Handled_example =
    sweep-Handled dark_net 9000 (perform queue raised_twice)
      (perform-IsSound raised_twice queue queue-IsSound)
