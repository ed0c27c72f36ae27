-- ===== src/Lsps1/Event.antt =====
-- src/lsps1/event.rs: what the protocol asks of its user.
use lightning_liquidity.Base.{ℕ, Option}
use lightning_liquidity.Types.{PublicKey, RequestId, Text}
use lightning_liquidity.Lsps1.Msgs.{
  ChannelInfo, OptionsSupported, OrderId, OrderParams, OrderPayment,
}

pub data ClientEvent : Type 0 where
  -- with the user's channel id and the website
  get_info_response : ℕ → PublicKey → Text → OptionsSupported → ClientEvent
  display_order : ℕ → PublicKey → OrderParams → OrderPayment → Option ChannelInfo → ClientEvent

pub data ServiceEvent : Type 0 where
  request_for_payment_details : RequestId → PublicKey → OrderParams → ServiceEvent
  check_payment_confirmation : RequestId → PublicKey → OrderId → ServiceEvent
  refund : RequestId → PublicKey → OrderId → ServiceEvent
