-- ===== src/Events/Tests.antt =====
-- The theorems on src/events.rs at concrete inputs.
use lightning_liquidity.Base.{◌≡◌, refl, none, List, [], ◌∷◌, ◌++◌}
use lightning_liquidity.Events.{
  Event, lsps0_client, EventQueue, enqueue, poll, next_event, wait_next_event,
}
use lightning_liquidity.Events.Delivery.{Use, add, next, wait, polled, added, run, run-fifo}

abbrev first : Event
first = lsps0_client 5 (0 ∷ [])

abbrev second : Event
second = lsps0_client 5 (2 ∷ [])

abbrev idle : EventQueue
idle = record { queue = []; waker = none; woken = []; notified = 0 }

abbrev uses : List Use
uses = polled 3 ∷ add first ∷ add second ∷ wait ∷ next ∷ []

delivered : (run idle uses).1 ≡ first ∷ second ∷ []
unfolding poll enqueue wait_next_event next_event
delivered = refl

run-fifo_example : [] ++ added uses ≡ (run idle uses).1 ++ (run idle uses).0.queue
run-fifo_example = run-fifo idle uses
