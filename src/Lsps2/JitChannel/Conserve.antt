-- ===== src/Lsps2/JitChannel/Conserve.antt =====
-- What the transitions of the state machine of src/lsps2/service.rs do with the HTLCs that it holds.
use mathlib.Core.List.{Perm, append-nil}
use mathlib.Core.List.Perm
use lightning_liquidity.Base.{ℕ, Bool, ◌≡◌, Option, none, some, List, [], ◌∷◌, ◌++◌, arith}
use lightning_liquidity.Base.Results.{Result, ok, err, ◌>>=◌}
use lightning_liquidity.Types.{ChannelId}
use lightning_liquidity.Lsps2.Msgs.{OpeningFeeParams}
use lightning_liquidity.Lsps2.PaymentQueue.{
  InterceptedHtlc, Payment, PaymentQueue, all_htlcs, add_htlc, pop_greater_than_msat, clear,
}
use lightning_liquidity.Lsps2.PaymentQueue.Contents.{
  add_htlc-perm, Popped, popping, pop_greater_than_msat-Popped, Takes-perm,
}
use lightning_liquidity.Lsps2.JitChannel.{
  State, pending_initial_payment, pending_channel_open, pending_payment_forward, pending_payment,
  payment_forwarded, HtlcInterceptedAction, open_channel, forward_htlc, forward_payment,
  ForwardPaymentAction, ForwardHtlcsAction, Transition, ChannelStateError, forward_or_wait,
  ready_with, htlc_intercepted, channel_ready, htlc_handling_failed, on_payment_forwarded,
  as_intercepted, initial_payment, open_or_wait, expected_size, check_limits, fee_or_error,
}

-- The HTLCs that a state holds back.
abbrev pub held_htlcs : State → List InterceptedHtlc
held_htlcs (pending_initial_payment q) = all_htlcs q.payments
held_htlcs (pending_channel_open q fee) = all_htlcs q.payments
held_htlcs (pending_payment_forward q fee id) = all_htlcs q.payments
held_htlcs (pending_payment q fee id) = all_htlcs q.payments
held_htlcs (payment_forwarded id) = []

-- The HTLCs that an action hands to the channel manager; `htlc` is the one that was intercepted.
abbrev pub released : InterceptedHtlc → Option HtlcInterceptedAction → List InterceptedHtlc
released htlc none = []
released htlc (some (open_channel p)) = []
released htlc (some (forward_htlc id)) = htlc ∷ []
released htlc (some (forward_payment id payment)) = payment.htlcs

abbrev pub paid : Option ForwardPaymentAction → List InterceptedHtlc
paid none = []
paid (some a) = a.payment.htlcs

abbrev pub freed : Option ForwardHtlcsAction → List InterceptedHtlc
freed none = []
freed (some a) = a.htlcs

-- What came in, `before`, is what is held afterwards with what the action releases. A transition
-- that fails holds all of it.
abbrev pub Conserves :
    {A : Type 0} → (A → List InterceptedHtlc) → List InterceptedHtlc → Transition A → Type 0
Conserves out before (self, ok (new_state, action)) =
    Perm before (out action ++ held_htlcs new_state)
Conserves out before (self, err e) = Perm before (held_htlcs self)

popped_htlcs : Option Payment → List InterceptedHtlc
popped_htlcs none = []
popped_htlcs (some p) = p.1

Popped-perm :
    (amount : ℕ) (ps : List Payment) (r : List Payment × Option Payment)
    → Popped amount ps r
    → Perm (all_htlcs ps) (popped_htlcs r.1 ++ all_htlcs r.0)
unfolding popped_htlcs
Popped-perm amount ps (qs, none) h = rw h.0 (Perm.refl (all_htlcs ps))
Popped-perm amount ps (qs, some p) t = Takes-perm t

pop-perm :
    (q : PaymentQueue) (amount : ℕ)
    → let r = pop_greater_than_msat q amount in
      Perm (all_htlcs q.payments) (popped_htlcs r.1 ++ all_htlcs r.0.payments)
pop-perm q amount =
    Popped-perm amount q.payments (popping q amount) (pop_greater_than_msat-Popped q amount)

forward_or_wait-Conserves :
    (q : PaymentQueue) (fee : ℕ) (id : ChannelId) (p : Option Payment)
    (before : List InterceptedHtlc)
    → Perm before (popped_htlcs p ++ all_htlcs q.payments)
    → let r = forward_or_wait q fee id p in
      (Perm before (paid r.1 ++ held_htlcs r.0))
      × ((htlc : InterceptedHtlc)
          → Perm before (released htlc (as_intercepted r.1) ++ held_htlcs r.0))
unfolding forward_or_wait popped_htlcs
forward_or_wait-Conserves q fee id none before h = (h, λ htlc. h)
forward_or_wait-Conserves q fee id (some p) before h = (h, λ htlc. h)

-- A transition of the first state only waits or opens the channel, over the same queue.
abbrev Keeps :
    PaymentQueue
    → InterceptedHtlc
    → Result ChannelStateError (State × Option HtlcInterceptedAction)
    → Type 0
Keeps q htlc (ok (s, a)) = (held_htlcs s ≡ all_htlcs q.payments) × (released htlc a ≡ [])
Keeps q htlc (err e) = Unit

open_or_wait-Keeps :
    (q : PaymentQueue) (htlc : InterceptedHtlc) (total expected : ℕ) (mpp : Bool) (fee : ℕ)
    → Keeps q htlc (open_or_wait q total expected mpp fee)
unfolding open_or_wait
open_or_wait-Keeps q htlc total expected mpp fee = ground arith

Keeps-bind :
    {A : Type 0} (q : PaymentQueue) (htlc : InterceptedHtlc) (m : Result ChannelStateError A)
    (f : A → Result ChannelStateError (State × Option HtlcInterceptedAction))
    → ((a : A) → Keeps q htlc (f a))
    → Keeps q htlc (m >>= f)
Keeps-bind q htlc (ok a) f k = k a
Keeps-bind q htlc (err e) f k = tt

initial_payment-Keeps :
    (params : OpeningFeeParams) (size : Option ℕ) (q : PaymentQueue) (htlc : InterceptedHtlc)
    (total num : ℕ)
    → Keeps q htlc (initial_payment params size q total num)
unfolding initial_payment
initial_payment-Keeps params size q htlc total num =
    Keeps-bind q htlc (expected_size size total num) _ λ s.
      Keeps-bind q htlc (check_limits params s.0) _ λ _.
        Keeps-bind q htlc (fee_or_error params s.0) _
          λ fee. open_or_wait-Keeps q htlc total s.0 s.1 fee

Keeps-Conserves :
    (q : PaymentQueue) (htlc : InterceptedHtlc) (before : List InterceptedHtlc)
    (r : Result ChannelStateError (State × Option HtlcInterceptedAction))
    → Perm before (all_htlcs q.payments)
    → Keeps q htlc r
    → Conserves (released htlc) before (pending_initial_payment q, r)
Keeps-Conserves q htlc before (ok (s, a)) p k = rw (k.0, k.1) p
Keeps-Conserves q htlc before (err e) p k = p

add-perm :
    (q : PaymentQueue) (htlc : InterceptedHtlc)
    → Perm (htlc ∷ all_htlcs q.payments) (all_htlcs (add_htlc q htlc).0.payments)
add-perm q htlc = Perm.symm (add_htlc-perm htlc q)

-- An intercepted HTLC and those that were held are, after the transition, held or handed over by
-- the action; if the transition fails, all of them are held by the state that it leaves behind.
pub htlc_intercepted-Conserves :
    (params : OpeningFeeParams) (size : Option ℕ) (s : State) (htlc : InterceptedHtlc)
    → Conserves (released htlc) (htlc ∷ held_htlcs s) (htlc_intercepted params size s htlc)
unfolding htlc_intercepted
htlc_intercepted-Conserves params size (pending_initial_payment q) htlc =
    Keeps-Conserves (add_htlc q htlc).0 htlc _ _ (add-perm q htlc)
      (initial_payment-Keeps params size (add_htlc q htlc).0 htlc _ _)
htlc_intercepted-Conserves params size (pending_channel_open q fee) htlc = add-perm q htlc
htlc_intercepted-Conserves params size (pending_payment_forward q fee id) htlc = add-perm q htlc
htlc_intercepted-Conserves params size (pending_payment q fee id) htlc =
    (forward_or_wait-Conserves _ fee id _ _
        (Perm.trans (add-perm q htlc) (pop-perm (add_htlc q htlc).0 fee))).1
      htlc
htlc_intercepted-Conserves params size (payment_forwarded id) htlc = Perm.refl (htlc ∷ [])

ready_with-Conserves :
    (q : PaymentQueue) (fee : ℕ) (id : ChannelId) (p : Option Payment)
    (before : List InterceptedHtlc)
    → Perm before (popped_htlcs p ++ all_htlcs q.payments)
    → Conserves
        (λ (a : ForwardPaymentAction). a.payment.htlcs)
        before
        (pending_channel_open q fee, ready_with q fee id p)
unfolding ready_with popped_htlcs
ready_with-Conserves q fee id none before h = h
ready_with-Conserves q fee id (some p) before h = h

-- When the channel is ready, the HTLCs of the payment that pays the fee are handed over and the
-- others stay; nothing moves if the transition fails.
pub channel_ready-Conserves :
    (s : State) (id : ChannelId)
    → Conserves (λ (a : ForwardPaymentAction). a.payment.htlcs) (held_htlcs s) (channel_ready s id)
unfolding channel_ready
channel_ready-Conserves (pending_channel_open q fee) id =
    ready_with-Conserves _ fee id _ _ (pop-perm q fee)
channel_ready-Conserves (pending_initial_payment q) id = Perm.refl _
channel_ready-Conserves (pending_payment_forward q fee id') id = Perm.refl _
channel_ready-Conserves (pending_payment q fee id') id = Perm.refl _
channel_ready-Conserves (payment_forwarded id') id = Perm.refl []

-- When a forward has failed, the HTLCs that were held are still held or handed over by the action.
pub htlc_handling_failed-Conserves :
    (s : State) → Conserves paid (held_htlcs s) (htlc_handling_failed s)
unfolding htlc_handling_failed
htlc_handling_failed-Conserves (pending_payment_forward q fee id) =
    (forward_or_wait-Conserves _ fee id _ _ (pop-perm q fee)).0
htlc_handling_failed-Conserves (pending_initial_payment q) = Perm.refl _
htlc_handling_failed-Conserves (pending_channel_open q fee) = Perm.refl _
htlc_handling_failed-Conserves (pending_payment q fee id) = Perm.refl _
htlc_handling_failed-Conserves (payment_forwarded id) = Perm.refl []

-- When the fee is paid, the HTLCs that were held are handed over by the action or still held.
pub on_payment_forwarded-Conserves :
    (s : State) → Conserves freed (held_htlcs s) (on_payment_forwarded s)
unfolding on_payment_forwarded clear
on_payment_forwarded-Conserves (pending_payment_forward q fee id) =
    rw append-nil (Perm.refl (all_htlcs q.payments))
on_payment_forwarded-Conserves (pending_initial_payment q) = Perm.refl _
on_payment_forwarded-Conserves (pending_channel_open q fee) = Perm.refl _
on_payment_forwarded-Conserves (pending_payment q fee id) = Perm.refl _
on_payment_forwarded-Conserves (payment_forwarded id) = Perm.refl []
