-- ===== src/Manager/Queues.antt =====
-- The methods of `LiquidityManager` in src/manager.rs that hand the user's calls on to the queues.
use lightning_liquidity.Base.{ℕ, Option, List}
use lightning_liquidity.Events
use lightning_liquidity.Events.{Event, EventQueue}
use lightning_liquidity.MessageQueue
use lightning_liquidity.World.{World}
use lightning_liquidity.Manager.{Manager}

unfoldable pub set_process_msgs_callback : World Manager → World Manager
unfolding MessageQueue.set_process_msgs_callback
set_process_msgs_callback w = record w {
  pending_messages = MessageQueue.set_process_msgs_callback w.pending_messages;
}

abbrev pub with_events : {A : Type 0} → World Manager → EventQueue × A → World Manager × A
with_events w (q, a) = (record w { pending_events = q }, a)

unfoldable pub wait_next_event : World Manager → World Manager × Option Event
unfolding Events.wait_next_event
wait_next_event w = with_events w (Events.wait_next_event w.pending_events)

unfoldable pub next_event : World Manager → World Manager × Option Event
unfolding Events.next_event
next_event w = with_events w (Events.next_event w.pending_events)

-- One poll of the future, with the waker of the task.
unfoldable pub next_event_async : World Manager → ℕ → World Manager × Option Event
unfolding Events.poll
next_event_async w waker = with_events w (Events.poll w.pending_events waker)

unfoldable pub get_and_clear_pending_events : World Manager → World Manager × List Event
unfolding Events.get_and_clear_pending_events
get_and_clear_pending_events w =
    with_events w (Events.get_and_clear_pending_events w.pending_events)
