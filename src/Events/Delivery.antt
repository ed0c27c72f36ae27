-- ===== src/Events/Delivery.antt =====
-- What the event queue of src/events.rs delivers.
use mathlib.Core.List.{append_assoc, append-nil}
use lightning_liquidity.Base.{
  ℕ, ◌≡◌, refl, sym, ap, ◌∙◌, Option, none, some, List, [], ◌∷◌, ◌++◌, arith,
}
use lightning_liquidity.Events.{
  Event, EventQueue, pop_front, after_wait, enqueue, next_event, wait_next_event, poll,
  get_and_clear_pending_events,
}

-- The calls of the queue's users: a handler adds an event; the user takes one, waits for one, polls
-- for one with the waker of the task, or takes all.
pub data Use : Type 0 where
  add : Event → Use
  next : Use
  wait : Use
  polled : ℕ → Use
  drain : Use

abbrev pub one : Option Event → List Event
one none = []
one (some e) = e ∷ []

-- The queue after a call and the events that were handed out.
abbrev pub use_queue : EventQueue → Use → EventQueue × List Event
use_queue q (add e) = (enqueue q e, [])
use_queue q next = let r = next_event q in (r.0, one r.1)
use_queue q wait = let r = wait_next_event q in (r.0, one r.1)
use_queue q (polled w) = let r = poll q w in (r.0, one r.1)
use_queue q drain = get_and_clear_pending_events q

abbrev pub run : EventQueue → List Use → EventQueue × List Event
run q [] = (q, [])
run q (u ∷ us) = let r = use_queue q u in let s = run r.0 us in (s.0, r.1 ++ s.1)

abbrev pub added : List Use → List Event
added [] = []
added (add e ∷ us) = e ∷ added us
added (next ∷ us) = added us
added (wait ∷ us) = added us
added (polled w ∷ us) = added us
added (drain ∷ us) = added us

abbrev news : Use → List Event
news u = added (u ∷ [])

queue-enqueue : (q : EventQueue) (e : Event) → (enqueue q e).queue ≡ q.queue ++ e ∷ []
unfolding enqueue
queue-enqueue q e = ground arith

pop_front-fifo :
    (es : List Event) (q : EventQueue)
    → q.queue ≡ es
    → es ++ [] ≡ one (pop_front es q).1 ++ (pop_front es q).0.queue
pop_front-fifo [] q h = sym h
pop_front-fifo (e ∷ es) q h = append-nil (e ∷ es)

after_wait-queue : (es : List Event) (q : EventQueue) → (after_wait es q).queue ≡ q.queue
after_wait-queue [] q = refl
after_wait-queue (e ∷ es) q = ground arith

wait-next : (q : EventQueue) → (wait_next_event q).1 ≡ (next_event q).1
unfolding wait_next_event next_event
wait-next q = ground arith

wait-next_queue : (q : EventQueue) → (wait_next_event q).0.queue ≡ (next_event q).0.queue
unfolding wait_next_event next_event
wait-next_queue q =
    ground (arith, after_wait-queue (pop_front q.queue q).0.queue (pop_front q.queue q).0)

poll-next : (q : EventQueue) (w : ℕ) → (poll q w).1 ≡ (next_event q).1
unfolding poll next_event
poll-next q w = ground arith

poll-next_queue : (q : EventQueue) (w : ℕ) → (poll q w).0.queue ≡ (next_event q).0.queue
unfolding poll next_event
poll-next_queue q w = ground arith

added-cons : (u : Use) (us : List Use) → added (u ∷ us) ≡ news u ++ added us
added-cons (add e) us = refl
added-cons next us = refl
added-cons wait us = refl
added-cons (polled w) us = refl
added-cons drain us = refl

use_queue-fifo :
    (q : EventQueue) (u : Use) → q.queue ++ news u ≡ (use_queue q u).1 ++ (use_queue q u).0.queue
unfolding next_event get_and_clear_pending_events
use_queue-fifo q (add e) = sym (queue-enqueue q e)
use_queue-fifo q next = pop_front-fifo q.queue q refl
use_queue-fifo q wait = rw (wait-next q, wait-next_queue q) (pop_front-fifo q.queue q refl)
use_queue-fifo q (polled w) =
    rw (poll-next q w, poll-next_queue q w) (pop_front-fifo q.queue q refl)
use_queue-fifo q drain = refl

-- Events are neither lost nor made up nor reordered, whichever way they are taken: what was handed
-- out, followed by what the queue still holds, is what it held followed by what was added.
pub run-fifo :
    (q : EventQueue) (us : List Use) → q.queue ++ added us ≡ (run q us).1 ++ (run q us).0.queue
run-fifo q [] = append-nil q.queue
run-fifo q (u ∷ us) =
    let r = use_queue q u in
    let s = run r.0 us in
    ap (λ (es : List Event). q.queue ++ es) (added-cons u us)
    ∙ sym (append_assoc q.queue (news u) (added us))
    ∙ ap (λ (es : List Event). es ++ added us) (use_queue-fifo q u)
    ∙ append_assoc r.1 r.0.queue (added us)
    ∙ ap (λ (es : List Event). r.1 ++ es) (run-fifo r.0 us)
    ∙ sym (append_assoc r.1 s.1 s.0.queue)

-- A poll that finds no event is not forgotten: the next event that is added wakes the task that
-- polled, and its next poll gives this event.
pending_poll_is_woken :
    (q q' : EventQueue) (w v : ℕ) (e : Event)
    → poll q w ≡ (q', none)
    → ((enqueue q' e).woken ≡ q.woken ++ w ∷ []) × ((poll (enqueue q' e) v).1 ≡ some e)
unfolding poll enqueue
pending_poll_is_woken q q' w v e h = ground arith
