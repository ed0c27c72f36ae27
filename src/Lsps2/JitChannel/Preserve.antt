-- ===== src/Lsps2/JitChannel/Preserve.antt =====
-- The transitions of src/lsps2/service.rs on valid states.
use lightning_liquidity.Base.{
  ℕ, ◌<◌, ◌≡◌, sym, ap, subst, inl, inr, Option, none, some, List, Option-cases,
}
use lightning_liquidity.Base.Results.{Result, ok, err}
use lightning_liquidity.Types.{ChannelId}
use lightning_liquidity.Lsps2.Msgs.{OpeningFeeParams}
use lightning_liquidity.Lsps2.PaymentQueue.{
  InterceptedHtlc, Payment, PaymentQueue, add_htlc, pop_greater_than_msat,
}
use lightning_liquidity.Lsps2.PaymentQueue.Contents.{Popped, popping, pop_greater_than_msat-Popped}
use lightning_liquidity.Lsps2.PaymentQueue.Invariant.{IsValid, add_htlc-IsValid, pop-Removes}
use lightning_liquidity.Lsps2.JitChannel.{
  State, pending_initial_payment, pending_channel_open, pending_payment_forward, pending_payment,
  payment_forwarded, HtlcInterceptedAction, Transition, ChannelStateError, forward_or_wait,
  ready_with, htlc_intercepted, channel_ready, htlc_handling_failed, on_payment_forwarded,
}
use lightning_liquidity.Lsps2.JitChannel.Invariant.{
  Covered, TooSmall, IsValidState, Opens, initial_payment-Opens, Covered-add_to, add_to-Covered,
}

-- The state that a transition stores is valid.
abbrev pub Stores : {A : Type 0} → OpeningFeeParams → Option ℕ → Transition A → Type 0
Stores params size (self, ok (new_state, action)) = IsValidState params size new_state
Stores params size (self, err e) = Unit

Opens-Stores :
    (params : OpeningFeeParams) (size : Option ℕ) (self : State) (q : PaymentQueue) (sum : ℕ)
    (r : Result ChannelStateError (State × Option HtlcInterceptedAction))
    → IsValid q
    → ((fee : ℕ) → fee < sum → Covered fee q.payments)
    → Opens params size q sum r
    → Stores params size (self, r)
Opens-Stores params size self q sum (ok (pending_initial_payment q', a)) v c o =
    (subst IsValid (sym o.0) v, inr o.1)
Opens-Stores params size self q sum (ok (pending_channel_open q' fee, a)) v c o = (
  subst IsValid (sym o.0) v,
  subst (λ (r : PaymentQueue). Covered fee r.payments) (sym o.0) (c fee o.1),
)
Opens-Stores params size self q sum (ok (pending_payment_forward q' fee id, a)) v c o = absurd o
Opens-Stores params size self q sum (ok (pending_payment q' fee id, a)) v c o = absurd o
Opens-Stores params size self q sum (ok (payment_forwarded id, a)) v c o = absurd o
Opens-Stores params size self q sum (err e) v c o = tt

pub pop_rest-IsValid :
    (q : PaymentQueue) (amount : ℕ) → IsValid q → IsValid (pop_greater_than_msat q amount).0
pop_rest-IsValid q amount v = elim (Option-cases (pop_greater_than_msat q amount).1) [
  | inl e ↦
      subst IsValid
        (ap (λ (ps : List Payment). let q' : PaymentQueue = record { payments = ps } in q')
          (sym
            (subst (λ (o : Option Payment). Popped amount q.payments ((popping q amount).0, o)) e
              (pop_greater_than_msat-Popped q amount)).0))
        v
  | inr (p, e) ↦ (pop-Removes q amount p v e).rest_valid
]

forward_or_wait-IsValidState :
    (params : OpeningFeeParams) (size : Option ℕ) (q : PaymentQueue) (fee : ℕ) (id : ChannelId)
    → IsValid q
    → let r = pop_greater_than_msat q fee in
      IsValidState params size (forward_or_wait r.0 fee id r.1).0
unfolding forward_or_wait
forward_or_wait-IsValidState params size q fee id v =
    elim (Option-cases (pop_greater_than_msat q fee).1) [
      | inl e ↦ rw (e, forward_or_wait) (pop_rest-IsValid q fee v, too_small e)
      | inr (p, e) ↦ rw (e, forward_or_wait) (pop_rest-IsValid q fee v)
    ]
  where
    too_small :
        (pop_greater_than_msat q fee).1 ≡ none
        → TooSmall fee (pop_greater_than_msat q fee).0.payments
    too_small e =
        let popped : Popped fee q.payments ((popping q fee).0, none) =
          subst (λ (o : Option Payment). Popped fee q.payments ((popping q fee).0, o)) e
            (pop_greater_than_msat-Popped q fee) in
        subst (TooSmall fee) (sym popped.0) popped.1

-- From a valid state an intercepted HTLC leads to a valid state if the transition succeeds.
pub htlc_intercepted-Stores :
    (params : OpeningFeeParams) (size : Option ℕ) (s : State) (x : InterceptedHtlc)
    → IsValidState params size s
    → Stores params size (htlc_intercepted params size s x)
unfolding htlc_intercepted
htlc_intercepted-Stores params size (pending_initial_payment q) x v =
    Opens-Stores params size (pending_initial_payment (add_htlc q x).0) (add_htlc q x).0
      (add_htlc q x).1.0 _ (add_htlc-IsValid q x v.0)
      (λ fee h. unfold add_htlc in add_to-Covered fee x q.payments h)
      (initial_payment-Opens params size (add_htlc q x).0 (add_htlc q x).1.0 (add_htlc q x).1.1)
htlc_intercepted-Stores params size (pending_channel_open q fee) x v =
    (add_htlc-IsValid q x v.0, unfold add_htlc in Covered-add_to fee x q.payments v.1)
htlc_intercepted-Stores params size (pending_payment_forward q fee id) x v = add_htlc-IsValid q x v
htlc_intercepted-Stores params size (pending_payment q fee id) x v =
    forward_or_wait-IsValidState params size (add_htlc q x).0 fee id (add_htlc-IsValid q x v.0)
htlc_intercepted-Stores params size (payment_forwarded id) x v = tt

ready_with-Stores :
    (params : OpeningFeeParams) (size : Option ℕ) (self : State) (q : PaymentQueue) (fee : ℕ)
    (id : ChannelId) (p : Option Payment)
    → IsValid q
    → Stores params size (self, ready_with q fee id p)
unfolding ready_with
ready_with-Stores params size self q fee id none v = tt
ready_with-Stores params size self q fee id (some p) v = v

pub channel_ready-Stores :
    (params : OpeningFeeParams) (size : Option ℕ) (s : State) (id : ChannelId)
    → IsValidState params size s
    → Stores params size (channel_ready s id)
unfolding channel_ready
channel_ready-Stores params size (pending_channel_open q fee) id v =
    ready_with-Stores params size (pending_channel_open (pop_greater_than_msat q fee).0 fee) _ fee
      id _ (pop_rest-IsValid q fee v.0)
channel_ready-Stores params size (pending_initial_payment q) id v = tt
channel_ready-Stores params size (pending_payment_forward q fee id') id v = tt
channel_ready-Stores params size (pending_payment q fee id') id v = tt
channel_ready-Stores params size (payment_forwarded id') id v = tt

pub htlc_handling_failed-Stores :
    (params : OpeningFeeParams) (size : Option ℕ) (s : State)
    → IsValidState params size s
    → Stores params size (htlc_handling_failed s)
unfolding htlc_handling_failed
htlc_handling_failed-Stores params size (pending_payment_forward q fee id) v =
    forward_or_wait-IsValidState params size q fee id v
htlc_handling_failed-Stores params size (pending_initial_payment q) v = tt
htlc_handling_failed-Stores params size (pending_channel_open q fee) v = tt
htlc_handling_failed-Stores params size (pending_payment q fee id) v = v
htlc_handling_failed-Stores params size (payment_forwarded id) v = tt

pub on_payment_forwarded-Stores :
    (params : OpeningFeeParams) (size : Option ℕ) (s : State)
    → Stores params size (on_payment_forwarded s)
unfolding on_payment_forwarded
on_payment_forwarded-Stores params size (pending_payment_forward q fee id) = tt
on_payment_forwarded-Stores params size (pending_initial_payment q) = tt
on_payment_forwarded-Stores params size (pending_channel_open q fee) = tt
on_payment_forwarded-Stores params size (pending_payment q fee id) = tt
on_payment_forwarded-Stores params size (payment_forwarded id) = tt
