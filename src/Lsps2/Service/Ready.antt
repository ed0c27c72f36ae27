-- ===== src/Lsps2/Service/Ready.antt =====
-- What src/lsps2/service.rs forwards when a channel that was opened becomes ready.
use lightning_liquidity.Base.{ℕ, ◌-◌, ◌<◌, ◌≡◌, sym, subst, Option, some, List, length, arith}
use lightning_liquidity.Base.Keys.{nat_eq}
use lightning_liquidity.Base.Maps
use lightning_liquidity.Base.Maps.{get-insert_self}
use lightning_liquidity.Base.Words.{u64_mod}
use lightning_liquidity.Base.Results.{ok, err}
use lightning_liquidity.Types.{PublicKey, ChannelId, InterceptId}
use lightning_liquidity.Lsps2.Msgs.{OpeningFeeParams}
use lightning_liquidity.Lsps2.PaymentQueue.{InterceptedHtlc, Payment, PaymentQueue, all_htlcs}
use lightning_liquidity.Lsps2.PaymentQueue.Contents.{total, Takes}
use lightning_liquidity.Lsps2.Split.Bounds.{Splits}
use lightning_liquidity.Lsps2.JitChannel
use lightning_liquidity.Lsps2.JitChannel.{
  State, pending_channel_open, ForwardPaymentAction, ChannelStateError,
}
use lightning_liquidity.Lsps2.JitChannel.Channel
use lightning_liquidity.Lsps2.JitChannel.Channel.{OutboundJitChannel, settle}
use lightning_liquidity.Lsps2.JitChannel.Open.{
  IsFunded, Forwardable, ReadyWith, channel_ready_forwards,
}
use lightning_liquidity.Lsps2.JitChannel.Invariant.{IsValidState}
use lightning_liquidity.Lsps2.JitChannel.Reach.{Reachable, Reachable-IsValidChannel}
use lightning_liquidity.World.{World, Outcome, Call, Answers, ApiError}
use lightning_liquidity.Lsps2.Service.{PeerState, Service, peer}
use lightning_liquidity.Lsps2.Service.Channels.{
  forward_fee_payment, act_on_ready, ready_in, channel_ready,
}
use lightning_liquidity.Lsps2.Service.Forward.{forwards, Forwards, forward_all-Forwards}

-- The calls forward each of the fee payment's HTLCs, by the amounts of a split of the fee.
abbrev pub ForwardsPayment :
    Answers
    → ChannelId
    → PublicKey
    → List InterceptedHtlc
    → ℕ
    → List Call
    → World Service × Outcome ApiError
    → Type 0
ForwardsPayment answers channel_id node htlcs fee before r =
    (fs : List (InterceptId × ℕ)) × Splits htlcs fee (length htlcs - 1) fs
    × Forwards answers before r.0.calls (forwards channel_id node fs) r.1

forward_fee_payment-ForwardsPayment :
    (answers : Answers) (node : PublicKey) (w : World Service) (a : ForwardPaymentAction)
    → Forwardable a
    → ForwardsPayment answers a.channel_id node a.payment.htlcs a.payment.opening_fee_msat w.calls
        (forward_fee_payment answers a.channel_id node a.payment w)
unfolding forward_fee_payment
forward_fee_payment-ForwardsPayment answers node w a f = (
  f.forwards,
  f.splits,
  rw (f.computed, forward_fee_payment)
      (forward_all-Forwards answers a.channel_id node f.forwards w),
)

-- What a channel that was opened has to do when it becomes ready.
abbrev pub ForwardsReady :
    Answers
    → ChannelId
    → PublicKey
    → ℕ
    → List Payment
    → List Call
    → World Service × Outcome ApiError
    → Type 0
ForwardsReady answers channel_id node fee ps before r =
    (p : Payment) × (qs : List Payment) × Takes fee ps qs p
    × ForwardsPayment answers channel_id node p.1 fee before r

payment-ForwardsPayment :
    (answers : Answers) (w : World Service) (node : PublicKey) (channel_id : ChannelId) (fee : ℕ)
    (a : ForwardPaymentAction) (htlcs : List InterceptedHtlc)
    → a.payment.htlcs ≡ htlcs
    → a.channel_id ≡ channel_id
    → a.payment.opening_fee_msat ≡ fee
    → Forwardable a
    → ForwardsPayment answers channel_id node htlcs fee w.calls
        (forward_fee_payment answers a.channel_id node a.payment w)
payment-ForwardsPayment answers w node channel_id fee a htlcs same id its_fee f =
    rw (sym same, sym its_fee)
      (subst
        (λ (i : ChannelId).
          ForwardsPayment answers i node a.payment.htlcs a.payment.opening_fee_msat w.calls
            (forward_fee_payment answers a.channel_id node a.payment w))
        id (forward_fee_payment-ForwardsPayment answers node w a f))

act_on_ready-ForwardsReady :
    (answers : Answers) (w : World Service) (node : PublicKey) (channel_id : ChannelId) (fee : ℕ)
    (ps : List Payment) (c : OutboundJitChannel) (t : JitChannel.Transition ForwardPaymentAction)
    → ReadyWith fee channel_id ps t.1
    → ForwardsReady answers channel_id node fee ps w.calls
        (act_on_ready answers w node (settle c t).1)
unfolding act_on_ready
act_on_ready-ForwardsReady answers w node channel_id fee ps c (self, ok (s, a))
      (s', a', p, qs, same, takes, htlcs, id, its_fee, f) =
    subst
      (λ (b : ForwardPaymentAction).
        ForwardsReady answers channel_id node fee ps w.calls
          (forward_fee_payment answers b.channel_id node b.payment w))
      (grind arith)
      (
        p,
        qs,
        takes,
        payment-ForwardsPayment answers w node channel_id fee a' p.1 htlcs id its_fee f,
      )
act_on_ready-ForwardsReady answers w node channel_id fee ps c (self, err e)
      (s', a', p, qs, same, takes, htlcs, id, its_fee, f) =
    cc

-- A stored channel, which was opened and came up by calls of which no interception was refused,
-- becomes ready; the HTLCs of each payment that waits for it are worth something, and together they
-- fit a `u64`. Then nothing panics, and the service calls the channel manager to forward the HTLCs
-- of the first payment that pays the fee, in order, up to the first call that is answered with an
-- error, which is returned. Each HTLC is forwarded by its amount at most. Together they keep back
-- at most the fee; fewer millisatoshi than there are HTLCs are missing from it, and none if the
-- last HTLC still forwards something.
pub channel_ready-ForwardsReady :
    (answers : Answers) (w : World Service) (user_channel_id : ℕ) (channel_id : ChannelId)
    (node : PublicKey) (p : PeerState) (scid : ℕ) (c : OutboundJitChannel) (size : Option ℕ)
    (params : OpeningFeeParams) (q : PaymentQueue) (fee : ℕ)
    → peer w node ≡ some p
    → Maps.get user_channel_id p.intercept_scid_by_user_channel_id ≡ some scid
    → Maps.get scid p.outbound_channels_by_intercept_scid ≡ some c
    → Reachable size params user_channel_id c
    → c.state ≡ pending_channel_open q fee
    → total (all_htlcs q.payments) < u64_mod
    → IsFunded q.payments
    → ForwardsReady answers channel_id node fee q.payments w.calls
        (channel_ready answers w user_channel_id channel_id node)
unfolding channel_ready Channel.channel_ready
channel_ready-ForwardsReady answers w user_channel_id channel_id node p scid c size params q fee
      at_node at_user at_scid r opened bounded funded =
    rw (at_node, at_user, channel_ready, at_scid, ready_in)
      (act_on_ready-ForwardsReady answers _ node channel_id fee q.payments c
        (JitChannel.channel_ready c.state channel_id)
        (rw opened (
          channel_ready_forwards c.opening_fee_params c.payment_size_msat q fee channel_id
            (subst (IsValidState c.opening_fee_params c.payment_size_msat) opened
              (Reachable-IsValidChannel size params user_channel_id c r).3)
            bounded funded)))
