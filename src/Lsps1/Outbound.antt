-- ===== src/Lsps1/Outbound.antt =====
-- `OutboundRequestState` and `OutboundCRChannel` of src/lsps1/service.rs: an order as the service
-- sees it.
use lightning_liquidity.Base.{Bool, Option, none, some}
use lightning_liquidity.Base.Results.{Result, ok, err}
use lightning_liquidity.Types.{DateTime}
use lightning_liquidity.Lsps1.Msgs.{OptionsSupported, OrderId, OrderParams, OrderPayment}
use lightning_liquidity.Lsps1.Order.{is_valid}

pub data State : Type 0 where
  order_created : OrderId → State
  waiting_payment : OrderId → State
  ready : State

unfoldable pub awaiting_payment : State → Result State State
awaiting_payment (order_created order_id) = ok (waiting_payment order_id)
awaiting_payment s = err s

-- `OutboundLSPS1Config`.
pub record Config : Type 0 where
  pub order : OrderParams
  pub created_at : DateTime
  pub expires_at : DateTime
  pub payment : OrderPayment

pub record OutboundCrChannel : Type 0 where
  pub state : State
  pub config : Config

unfoldable pub new_channel :
    OrderParams → DateTime → DateTime → OrderId → OrderPayment → OutboundCrChannel
new_channel order created_at expires_at order_id payment = record {
  state = order_created order_id;
  config = record {
    order = order;
    created_at = created_at;
    expires_at = expires_at;
    payment = payment;
  };
}

abbrev pub advance : OutboundCrChannel → Result State State → OutboundCrChannel × Option State
advance c (ok s) = (record c { state = s }, none)
advance c (err s) = (c, some s)

-- `OutboundCRChannel::awaiting_payment`; the error names the state.
unfoldable pub channel_awaiting_payment : OutboundCrChannel → OutboundCrChannel × Option State
unfolding awaiting_payment
channel_awaiting_payment c = advance c (awaiting_payment c.state)

unfoldable pub check_order_validity : OutboundCrChannel → OptionsSupported → Bool
check_order_validity c options_supported = is_valid c.config.order options_supported
