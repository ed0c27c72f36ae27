-- ===== src/Lsps2/JitChannel/Reach.antt =====
-- The just-in-time channels of src/lsps2/service.rs that come up from a new one, as long as the
-- first interception that is refused ends them, by the calls that lead there.
use lightning_liquidity.Base.{
  ℕ, ◌≡◌, refl, sym, subst, ◌∙◌, Option, none, [], ◌∷◌, Option-cases, inl, inr,
}
use lightning_liquidity.Base.Results.{ok, err}
use lightning_liquidity.Types.{ChannelId}
use lightning_liquidity.Lsps2.Msgs.{OpeningFeeParams}
use lightning_liquidity.Lsps2.PaymentQueue.{
  InterceptedHtlc, Payment, PaymentQueue, pop_greater_than_msat,
}
use lightning_liquidity.Lsps2.PaymentQueue.Contents.{Popped, popping, pop_greater_than_msat-Popped}
use lightning_liquidity.Lsps2.JitChannel
use lightning_liquidity.Lsps2.JitChannel.{
  State, pending_initial_payment, pending_channel_open, pending_payment_forward, pending_payment,
  payment_forwarded, HtlcInterceptedAction, ForwardPaymentAction, ForwardHtlcsAction,
  ChannelStateError, Transition, ready_with,
}
use lightning_liquidity.Lsps2.JitChannel.Channel.{
  OutboundJitChannel, new_channel, settle, htlc_intercepted, channel_ready, htlc_handling_failed,
  on_payment_forwarded,
}
use lightning_liquidity.Lsps2.JitChannel.Conserve.{held_htlcs}
use lightning_liquidity.Lsps2.JitChannel.Invariant.{Covered, IsValidState, new-IsValidState}
use lightning_liquidity.Lsps2.JitChannel.Open.{refused_htlc_is_alone}
use lightning_liquidity.Lsps2.JitChannel.Preserve.{
  Stores, pop_rest-IsValid, htlc_intercepted-Stores, htlc_handling_failed-Stores,
}

-- One call on a channel. A channel that refuses an intercepted HTLC is dropped, if the channel
-- manager accepts to fail the HTLC, so that only the interceptions that succeed lead on; the other
-- calls leave the channel in place also when they fail. A channel that stays because the manager
-- has refused to fail the HTLC is not followed further.
pub data Step : OutboundJitChannel → OutboundJitChannel → Type 0 where
  intercepted :
      (c : OutboundJitChannel) (x : InterceptedHtlc) (a : Option HtlcInterceptedAction)
      → (htlc_intercepted c x).1 ≡ ok a
      → Step c (htlc_intercepted c x).0
  ready : (c : OutboundJitChannel) (id : ChannelId) → Step c (channel_ready c id).0
  handling_failed : (c : OutboundJitChannel) → Step c (htlc_handling_failed c).0
  forwarded : (c : OutboundJitChannel) → Step c (on_payment_forwarded c).0

-- The channels that a new one becomes by calls of which no interception is refused.
pub data Reachable (size : Option ℕ) (params : OpeningFeeParams) (user_channel_id : ℕ)
    : OutboundJitChannel → Type 0 where
  start : Reachable size params user_channel_id (new_channel size params user_channel_id)
  next :
      {c d : OutboundJitChannel}
      → Reachable size params user_channel_id c
      → Step c d
      → Reachable size params user_channel_id d

abbrev pub IsValidChannel : OutboundJitChannel → Type 0
IsValidChannel c = IsValidState c.opening_fee_params c.payment_size_msat c.state

-- The state that a transition leaves in a channel that stays.
abbrev Leaves : {A : Type 0} → OpeningFeeParams → Option ℕ → Transition A → Type 0
Leaves params size (self, ok (new_state, action)) = IsValidState params size new_state
Leaves params size (self, err e) = IsValidState params size self

not_popped :
    (q : PaymentQueue) (amount : ℕ)
    → (pop_greater_than_msat q amount).1 ≡ none
    → (pop_greater_than_msat q amount).0.payments ≡ q.payments
not_popped q amount e =
    (subst (λ (o : Option Payment). Popped amount q.payments ((popping q amount).0, o)) e
      (pop_greater_than_msat-Popped q amount)).0

channel_ready-Leaves :
    (params : OpeningFeeParams) (size : Option ℕ) (s : State) (id : ChannelId)
    → IsValidState params size s
    → Leaves params size (JitChannel.channel_ready s id)
unfolding JitChannel.channel_ready ready_with
channel_ready-Leaves params size (pending_channel_open q fee) id v =
    elim (Option-cases (pop_greater_than_msat q fee).1) [
      | inl e ↦
          rw (e, ready_with)
            (pop_rest-IsValid q fee v.0, subst (Covered fee) (sym (not_popped q fee e)) v.1)
      | inr (p, e) ↦ rw (e, ready_with) (pop_rest-IsValid q fee v.0)
    ]
channel_ready-Leaves params size (pending_initial_payment q) id v = v
channel_ready-Leaves params size (pending_payment_forward q fee id') id v = v
channel_ready-Leaves params size (pending_payment q fee id') id v = v
channel_ready-Leaves params size (payment_forwarded id') id v = v

htlc_handling_failed-Leaves :
    (params : OpeningFeeParams) (size : Option ℕ) (s : State)
    → IsValidState params size s
    → Leaves params size (JitChannel.htlc_handling_failed s)
unfolding JitChannel.htlc_handling_failed
htlc_handling_failed-Leaves params size (pending_payment_forward q fee id) v =
    htlc_handling_failed-Stores params size (pending_payment_forward q fee id) v
htlc_handling_failed-Leaves params size (pending_initial_payment q) v = v
htlc_handling_failed-Leaves params size (pending_channel_open q fee) v = v
htlc_handling_failed-Leaves params size (pending_payment q fee id) v = v
htlc_handling_failed-Leaves params size (payment_forwarded id) v = v

on_payment_forwarded-Leaves :
    (params : OpeningFeeParams) (size : Option ℕ) (s : State)
    → IsValidState params size s
    → Leaves params size (JitChannel.on_payment_forwarded s)
unfolding JitChannel.on_payment_forwarded
on_payment_forwarded-Leaves params size (pending_payment_forward q fee id) v = tt
on_payment_forwarded-Leaves params size (pending_initial_payment q) v = v
on_payment_forwarded-Leaves params size (pending_channel_open q fee) v = v
on_payment_forwarded-Leaves params size (pending_payment q fee id) v = v
on_payment_forwarded-Leaves params size (payment_forwarded id) v = tt

-- A channel keeps its parameters and is valid.
abbrev Keeps : OutboundJitChannel → OutboundJitChannel → Type 0
Keeps c d =
    IsValidChannel c
    → (d.opening_fee_params ≡ c.opening_fee_params)
      × (d.payment_size_msat ≡ c.payment_size_msat)
      × (d.user_channel_id ≡ c.user_channel_id)
      × IsValidChannel d

settle-Keeps :
    {A : Type 0} (c : OutboundJitChannel) (t : Transition A)
    → (IsValidChannel c → Leaves c.opening_fee_params c.payment_size_msat t)
    → Keeps c (settle c t).0
settle-Keeps c (self, ok (s, a)) l v = (refl, refl, refl, l v)
settle-Keeps c (self, err e) l v = (refl, refl, refl, l v)

settle_ok-Keeps :
    {A : Type 0} (c : OutboundJitChannel) (t : Transition A) (a : A)
    → (settle c t).1 ≡ ok a
    → (IsValidChannel c → Stores c.opening_fee_params c.payment_size_msat t)
    → Keeps c (settle c t).0
settle_ok-Keeps c (self, ok (s, b)) a e l v = (refl, refl, refl, l v)
settle_ok-Keeps c (self, err f) a e l v = cc

Step-Keeps : (c d : OutboundJitChannel) → Step c d → Keeps c d
unfolding htlc_intercepted channel_ready htlc_handling_failed on_payment_forwarded
Step-Keeps _ _ (intercepted c x a e) =
    settle_ok-Keeps c
      (JitChannel.htlc_intercepted c.opening_fee_params c.payment_size_msat c.state x) a e
      (htlc_intercepted-Stores c.opening_fee_params c.payment_size_msat c.state x)
Step-Keeps _ _ (ready c id) =
    settle-Keeps c (JitChannel.channel_ready c.state id)
      (channel_ready-Leaves c.opening_fee_params c.payment_size_msat c.state id)
Step-Keeps _ _ (handling_failed c) =
    settle-Keeps c (JitChannel.htlc_handling_failed c.state)
      (htlc_handling_failed-Leaves c.opening_fee_params c.payment_size_msat c.state)
Step-Keeps _ _ (forwarded c) =
    settle-Keeps c (JitChannel.on_payment_forwarded c.state)
      (on_payment_forwarded-Leaves c.opening_fee_params c.payment_size_msat c.state)

-- After any calls on a new channel, of which no interception was refused, the channel is valid and
-- has the parameters, the payment size and the user's id that it was made with. Valid is: its queue
-- is, it holds HTLCs at first only for an accepted payment size, it is opened only for a payment
-- that is worth more than the fee, and it waits for a payment only while none of its payments is
-- large enough.
pub Reachable-IsValidChannel :
    (size : Option ℕ) (params : OpeningFeeParams) (id : ℕ) (c : OutboundJitChannel)
    → Reachable size params id c
    → (c.opening_fee_params ≡ params)
      × (c.payment_size_msat ≡ size)
      × (c.user_channel_id ≡ id)
      × IsValidChannel c
unfolding new_channel
Reachable-IsValidChannel size params id _ start = (refl, refl, refl, new-IsValidState params size)
Reachable-IsValidChannel size params id d (next {c = c} r step) =
    let (p, s, u, v) = Reachable-IsValidChannel size params id c r in
    let (p', s', u', v') = Step-Keeps c d step v in (p' ∙ p, s' ∙ s, u' ∙ u, v')

settle_err :
    {A : Type 0} (c : OutboundJitChannel) (t : Transition A) (e : ChannelStateError)
    → (settle c t).1 ≡ err e
    → t ≡ ((settle c t).0.state, err e)
settle_err c (self, ok (s, a)) e h = cc
settle_err c (self, err f) e h = cc

-- After any calls on a new channel, of which no interception was refused, the channel refuses an
-- intercepted HTLC only if it holds no other: the refused HTLC is then the only one that it holds,
-- so that dropping the channel after failing this HTLC strands none. A channel that stays because
-- the channel manager refused to fail an earlier HTLC is not covered.
pub refused_htlc_strands_none :
    (size : Option ℕ) (params : OpeningFeeParams) (id : ℕ) (c : OutboundJitChannel)
    (x : InterceptedHtlc) (e : ChannelStateError)
    → Reachable size params id c
    → (htlc_intercepted c x).1 ≡ err e
    → (held_htlcs c.state ≡ []) × (held_htlcs (htlc_intercepted c x).0.state ≡ x ∷ [])
unfolding htlc_intercepted
refused_htlc_strands_none size params id c x e r h =
    refused_htlc_is_alone c.opening_fee_params c.payment_size_msat c.state _ x e
      (Reachable-IsValidChannel size params id c r).3
      (settle_err c (JitChannel.htlc_intercepted c.opening_fee_params c.payment_size_msat c.state x)
        e h)
