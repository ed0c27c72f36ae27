-- ===== src/Lsps2/JitChannel.antt =====
-- `OutboundJITChannelState` of src/lsps2/service.rs, the state machine of a just-in-time channel;
-- `OutboundJITChannel` is in the child `Channel`. The payment queue stands behind an `Arc<Mutex<..>>` that the old and the
-- new state share and that nothing else holds: what a transition does to the queue is seen in the
-- state that was matched also when the transition fails, so each returns that state too.
pub mod Channel
pub mod Conserve
pub mod Invariant
pub mod Preserve
pub mod Open
pub mod Reach
pub mod Run
use lightning_liquidity.Base.{
  ℕ, Bool, true, false, ◌&&◌, ◌||◌, Option, none, some, List, ltb, leb, ◌==◌, if◌then◌else◌,
}
use lightning_liquidity.Base.Words.{saturating_sub}
use lightning_liquidity.Base.Results.{Result, ok, err, ◌>>=◌, ◌>>◌}
use lightning_liquidity.Types.{ChannelId}
use lightning_liquidity.Lsps2.Msgs.{OpeningFeeParams}
use lightning_liquidity.Lsps2.Fee.{compute_opening_fee}
use lightning_liquidity.Lsps2.PaymentQueue
use lightning_liquidity.Lsps2.PaymentQueue.{
  InterceptedHtlc, Payment, PaymentQueue, add_htlc, pop_greater_than_msat, clear,
}

pub record OpenChannelParams : Type 0 where
  pub opening_fee_msat : ℕ
  pub amt_to_forward_msat : ℕ

pub record FeePayment : Type 0 where
  pub htlcs : List InterceptedHtlc
  pub opening_fee_msat : ℕ

pub data HtlcInterceptedAction : Type 0 where
  open_channel : OpenChannelParams → HtlcInterceptedAction
  forward_htlc : ChannelId → HtlcInterceptedAction
  forward_payment : ChannelId → FeePayment → HtlcInterceptedAction

pub record ForwardPaymentAction : Type 0 where
  pub channel_id : ChannelId
  pub payment : FeePayment

pub record ForwardHtlcsAction : Type 0 where
  pub channel_id : ChannelId
  pub htlcs : List InterceptedHtlc

pub data State : Type 0 where
  pending_initial_payment : PaymentQueue → State
  pending_channel_open : PaymentQueue → ℕ → State
  pending_payment_forward : PaymentQueue → ℕ → ChannelId → State
  pending_payment : PaymentQueue → ℕ → ChannelId → State
  payment_forwarded : ChannelId → State

-- One constructor for each message of a `ChannelStateError`, with what is formatted into it.
pub data ChannelStateError : Type 0 where
  multiple_htlcs_disallowed : ChannelStateError
  payment_size_violates_limits : ℕ → ℕ → ℕ → ChannelStateError
  no_valid_opening_fee : ℕ → ℕ → ℕ → ChannelStateError
  htlc_too_small_for_fee : ChannelStateError
  no_forwardable_payment : ChannelStateError
  channel_ready_in_state : State → ChannelStateError
  htlc_handling_failed_in_state : State → ChannelStateError
  payment_forwarded_in_state : State → ChannelStateError

-- The state that was matched, and the result: the new state with an action.
abbrev pub Transition : Type 0 → Type 0
Transition A = State × Result ChannelStateError (State × A)

unfoldable pub new : State
new = pending_initial_payment PaymentQueue.new

-- The expected payment size, and whether several HTLCs may pay it.
unfoldable pub expected_size : Option ℕ → ℕ → ℕ → Result ChannelStateError (ℕ × Bool)
expected_size (some payment_size_msat) total num_htlcs = ok (payment_size_msat, true)
expected_size none total num_htlcs =
    if num_htlcs == 1 then ok (total, false) else err multiple_htlcs_disallowed

unfoldable pub check_limits : OpeningFeeParams → ℕ → Result ChannelStateError (Unit {0})
check_limits params expected =
    if ltb expected params.min_payment_size_msat || ltb params.max_payment_size_msat expected
    then err (
        payment_size_violates_limits expected params.min_payment_size_msat
          params.max_payment_size_msat)
    else ok tt

unfoldable pub fee_or_error : OpeningFeeParams → ℕ → Result ChannelStateError ℕ
fee_or_error params expected =
    elim (compute_opening_fee expected params.min_fee_msat params.proportional) [
      | some fee ↦ ok fee
      | none ↦ err (no_valid_opening_fee params.min_fee_msat params.proportional expected)
    ]

-- Opens the channel once enough has arrived.
unfoldable pub open_or_wait :
    PaymentQueue
    → ℕ
    → ℕ
    → Bool
    → ℕ
    → Result ChannelStateError (State × Option HtlcInterceptedAction)
unfolding saturating_sub
open_or_wait queue total expected mpp_mode opening_fee_msat =
    let amt_to_forward_msat = saturating_sub expected opening_fee_msat in
    if leb expected total && ltb 0 amt_to_forward_msat
    then ok (
      pending_channel_open queue opening_fee_msat,
      some (
          open_channel (record {
            opening_fee_msat = opening_fee_msat;
            amt_to_forward_msat = amt_to_forward_msat;
          })),
    )
    else if mpp_mode
    then ok (pending_initial_payment queue, none)
    else err htlc_too_small_for_fee

unfoldable pub initial_payment :
    OpeningFeeParams
    → Option ℕ
    → PaymentQueue
    → ℕ
    → ℕ
    → Result ChannelStateError (State × Option HtlcInterceptedAction)
initial_payment params payment_size_msat queue total num_htlcs = do
  size ← expected_size payment_size_msat total num_htlcs
  check_limits params size.0
  fee ← fee_or_error params size.0
  open_or_wait queue total size.0 size.1 fee

unfoldable pub forward_or_wait :
    PaymentQueue → ℕ → ChannelId → Option Payment → State × Option ForwardPaymentAction
forward_or_wait queue opening_fee_msat channel_id (some payment) = (
  pending_payment_forward queue opening_fee_msat channel_id,
  some (record {
    channel_id = channel_id;
    payment = record { htlcs = payment.1; opening_fee_msat = opening_fee_msat };
  }),
)
forward_or_wait queue opening_fee_msat channel_id none =
    (pending_payment queue opening_fee_msat channel_id, none)

abbrev pub as_intercepted : Option ForwardPaymentAction → Option HtlcInterceptedAction
as_intercepted none = none
as_intercepted (some a) = some (forward_payment a.channel_id a.payment)

unfoldable pub htlc_intercepted :
    OpeningFeeParams
    → Option ℕ
    → State
    → InterceptedHtlc
    → Transition (Option HtlcInterceptedAction)
htlc_intercepted params payment_size_msat (pending_initial_payment queue) htlc =
    let (queue', counts) = add_htlc queue htlc in
    (
      pending_initial_payment queue',
      initial_payment params payment_size_msat queue' counts.0 counts.1,
    )
htlc_intercepted params payment_size_msat (pending_channel_open queue fee) htlc =
    let queue' = (add_htlc queue htlc).0 in
    (pending_channel_open queue' fee, ok (pending_channel_open queue' fee, none))
htlc_intercepted params payment_size_msat (pending_payment_forward queue fee channel_id) htlc =
    let queue' = (add_htlc queue htlc).0 in
    (
      pending_payment_forward queue' fee channel_id,
      ok (pending_payment_forward queue' fee channel_id, none),
    )
htlc_intercepted params payment_size_msat (pending_payment queue fee channel_id) htlc =
    let (queue', popped) = pop_greater_than_msat (add_htlc queue htlc).0 fee in
    let (state, action) = forward_or_wait queue' fee channel_id popped in
    (pending_payment queue' fee channel_id, ok (state, as_intercepted action))
htlc_intercepted params payment_size_msat (payment_forwarded channel_id) htlc = (
  payment_forwarded channel_id,
  ok (payment_forwarded channel_id, some (forward_htlc channel_id)),
)

unfoldable pub ready_with :
    PaymentQueue
    → ℕ
    → ChannelId
    → Option Payment
    → Result ChannelStateError (State × ForwardPaymentAction)
ready_with queue fee channel_id (some payment) = ok (
  pending_payment_forward queue fee channel_id,
  record {
    channel_id = channel_id;
    payment = record { htlcs = payment.1; opening_fee_msat = fee };
  },
)
ready_with queue fee channel_id none = err no_forwardable_payment

unfoldable pub channel_ready : State → ChannelId → Transition ForwardPaymentAction
unfolding ready_with
channel_ready (pending_channel_open queue fee) channel_id =
    let (queue', popped) = pop_greater_than_msat queue fee in
    (pending_channel_open queue' fee, ready_with queue' fee channel_id popped)
channel_ready s channel_id = (s, err (channel_ready_in_state s))

unfoldable pub htlc_handling_failed : State → Transition (Option ForwardPaymentAction)
htlc_handling_failed (pending_payment_forward queue fee channel_id) =
    let (queue', popped) = pop_greater_than_msat queue fee in
    (
      pending_payment_forward queue' fee channel_id,
      ok (forward_or_wait queue' fee channel_id popped),
    )
htlc_handling_failed (pending_payment queue fee channel_id) =
    (pending_payment queue fee channel_id, ok (pending_payment queue fee channel_id, none))
htlc_handling_failed (payment_forwarded channel_id) =
    (payment_forwarded channel_id, ok (payment_forwarded channel_id, none))
htlc_handling_failed s = (s, err (htlc_handling_failed_in_state s))

-- `OutboundJITChannelState::payment_forwarded`.
unfoldable pub on_payment_forwarded : State → Transition (Option ForwardHtlcsAction)
on_payment_forwarded (pending_payment_forward queue fee channel_id) =
    let (queue', htlcs) = clear queue in
    (
      pending_payment_forward queue' fee channel_id,
      ok (payment_forwarded channel_id, some (record { channel_id = channel_id; htlcs = htlcs })),
    )
on_payment_forwarded (payment_forwarded channel_id) =
    (payment_forwarded channel_id, ok (payment_forwarded channel_id, none))
on_payment_forwarded s = (s, err (payment_forwarded_in_state s))
