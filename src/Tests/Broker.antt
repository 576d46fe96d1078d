-- ===== src/Tests/Broker.antt =====
-- internal/edge/broker.go with one subscriber.
use caramelo.Common.{ℕ, ◌≡◌, refl, true, false, List, [], ◌∷◌, some, nat_eq, codes, lookup}
use caramelo.Edge.Broker.{
  PublishedEvent, Subscriber, Broker, new_broker, publish, stamped, trimmed, send, map_subs,
  subscribe, since, since_in, take_one, receive, Call, publishes, subscribes, takes, called, run,
}
use caramelo.Edge.Broker.Bounds.{Bounded, run-Bounded}
use caramelo.Edge.Broker.Gaps.{published}
use caramelo.Edge.Broker.Delivery.{Follows, run-Follows}

abbrev event : ℕ → PublishedEvent
event t = record { at_time = t; body = codes "drained" }

abbrev calls : List Call
calls =
    publishes 5 (event 5)
    ∷ subscribes 5
    ∷ publishes 6 (event 0)
    ∷ takes 0
    ∷ publishes 7 (event 7)
    ∷ []

replayed_and_handed : run new_broker calls ≡ record {
  next = 1;
  subs =
      (
        0,
        record {
          channel = event 7 ∷ [];
          lagged = false;
          in_map = true;
          handed = event 5 ∷ event 6 ∷ [];
        },
      )
      ∷ [];
  history = event 5 ∷ event 6 ∷ event 7 ∷ [];
  closed = false;
}
unfolding run called publish stamped trimmed send map_subs subscribe since since_in take_one receive
replayed_and_handed = refl

abbrev idle : Subscriber
idle = record { channel = []; lagged = false; in_map = true; handed = [] }

abbrev with_idle : Broker
with_idle = record { next = 1; subs = (0, idle) ∷ []; history = []; closed = false }

idle_found : lookup 0 with_idle.subs ≡ some idle
unfolding lookup
idle_found = refl

run-Follows_example : Follows 0 idle (published with_idle calls) (run with_idle calls)
run-Follows_example = run-Follows with_idle calls 0 idle idle_found

run-Bounded_example : Bounded (run new_broker calls)
run-Bounded_example = run-Bounded calls
