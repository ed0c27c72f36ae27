-- ===== src/Lsps2/JitChannel/Channel.antt =====
-- `OutboundJITChannel` of src/lsps2/service.rs: a transition's new state is stored if it succeeds.
use lightning_liquidity.Base.{ℕ, Option}
use lightning_liquidity.Base.Results.{Result, ok, err}
use lightning_liquidity.Types.{ChannelId}
use lightning_liquidity.Lsps2.Msgs.{OpeningFeeParams}
use lightning_liquidity.Lsps2.PaymentQueue.{InterceptedHtlc}
use lightning_liquidity.Lsps2.JitChannel
use lightning_liquidity.Lsps2.JitChannel.{
  State, HtlcInterceptedAction, ForwardPaymentAction, ForwardHtlcsAction, ChannelStateError,
  Transition,
}

pub record OutboundJitChannel : Type 0 where
  pub state : State
  pub user_channel_id : ℕ
  pub opening_fee_params : OpeningFeeParams
  pub payment_size_msat : Option ℕ

unfoldable pub new_channel : Option ℕ → OpeningFeeParams → ℕ → OutboundJitChannel
new_channel payment_size_msat opening_fee_params user_channel_id = record {
  state = JitChannel.new;
  user_channel_id = user_channel_id;
  opening_fee_params = opening_fee_params;
  payment_size_msat = payment_size_msat;
}

-- `let (new_state, action) = ...?; self.state = new_state; Ok(action)`.
abbrev pub settle :
    {A : Type 0}
    → OutboundJitChannel
    → Transition A
    → OutboundJitChannel × Result ChannelStateError A
settle c (self, ok (new_state, action)) = (record c { state = new_state }, ok action)
settle c (self, err e) = (record c { state = self }, err e)

unfoldable pub htlc_intercepted :
    OutboundJitChannel
    → InterceptedHtlc
    → OutboundJitChannel × Result ChannelStateError (Option HtlcInterceptedAction)
htlc_intercepted c htlc =
    settle c (JitChannel.htlc_intercepted c.opening_fee_params c.payment_size_msat c.state htlc)

unfoldable pub htlc_handling_failed :
    OutboundJitChannel → OutboundJitChannel × Result ChannelStateError (Option ForwardPaymentAction)
htlc_handling_failed c = settle c (JitChannel.htlc_handling_failed c.state)

unfoldable pub channel_ready :
    OutboundJitChannel
    → ChannelId
    → OutboundJitChannel × Result ChannelStateError ForwardPaymentAction
channel_ready c channel_id = settle c (JitChannel.channel_ready c.state channel_id)

-- `OutboundJITChannel::payment_forwarded`.
unfoldable pub on_payment_forwarded :
    OutboundJitChannel → OutboundJitChannel × Result ChannelStateError (Option ForwardHtlcsAction)
on_payment_forwarded c = settle c (JitChannel.on_payment_forwarded c.state)
