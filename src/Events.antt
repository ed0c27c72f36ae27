-- ===== src/Events.antt =====
-- src/events.rs: the events that the user polls, and their queue.
pub mod Delivery
mod Tests
use lightning_liquidity.Base.{
  ℕ, ◌≡◌, refl, arith, ◌+◌, Bool, true, false, Option, none, some, List, [], ◌∷◌, ◌++◌,
}
use lightning_liquidity.Types.{PublicKey}
use lightning_liquidity.Lsps1.Event as Lsps1Event
use lightning_liquidity.Lsps2.Event.{ClientEvent, ServiceEvent}

-- `LSPS0ClientEvent` has one variant, `ListProtocolsResponse`.
pub data Event : Type 0 where
  lsps0_client : PublicKey → List ℕ → Event
  lsps1_client : Lsps1Event.ClientEvent → Event
  lsps1_service : Lsps1Event.ServiceEvent → Event
  lsps2_client : ClientEvent → Event
  lsps2_service : ServiceEvent → Event

-- The wakers that were woken and the notifications of the condition variable are counted. A waker
-- is a number.
pub record EventQueue : Type 0 where
  pub queue : List Event
  pub waker : Option ℕ
  pub woken : List ℕ
  pub notified : ℕ

unfoldable pub new : EventQueue
new = record { queue = []; waker = none; woken = []; notified = 0 }

abbrev pub wake : EventQueue → EventQueue
wake q = elim q.waker [ none ↦ q | some w ↦ record q { waker = none; woken = q.woken ++ w ∷ [] } ]

unfoldable pub enqueue : EventQueue → Event → EventQueue
enqueue q event =
    let q' = wake (record q { queue = q.queue ++ event ∷ [] }) in
    record q' { notified = q'.notified + 1 }

abbrev pub pop_front : List Event → EventQueue → EventQueue × Option Event
pop_front [] q = (q, none)
pop_front (event ∷ rest) q = (record q { queue = rest }, some event)

unfoldable pub next_event : EventQueue → EventQueue × Option Event
next_event q = pop_front q.queue q

-- `wait_next_event` once the condition variable has let it through; `none` while it still waits.
abbrev pub after_wait : List Event → EventQueue → EventQueue
after_wait [] q = q
after_wait (event ∷ rest) q = let q' = wake q in record q' { notified = q'.notified + 1 }

unfoldable pub wait_next_event : EventQueue → EventQueue × Option Event
wait_next_event q =
    let (q', event) = pop_front q.queue q in
    elim event [ none ↦ (q', none) | some e ↦ (after_wait q'.queue q', some e) ]

-- `EventFuture::poll`, with the waker of the polling task; `none` is `Poll::Pending`.
unfoldable pub poll : EventQueue → ℕ → EventQueue × Option Event
poll q waker =
    let (q', event) = pop_front q.queue q in
    elim event [ none ↦ (record q' { waker = some waker }, none) | some e ↦ (q', some e) ]

unfoldable pub get_and_clear_pending_events : EventQueue → EventQueue × List Event
get_and_clear_pending_events q = (record q { queue = [] }, q.queue)

-- A new event comes last.
pub queue-enqueue :
    (q : EventQueue) (event : Event) → (enqueue q event).queue ≡ q.queue ++ event ∷ []
unfolding enqueue
queue-enqueue q event = ground arith
