-- ===== src/Lsps1/Inbound.antt =====
-- `InboundRequestState` and `InboundCRChannel` of src/lsps1/client.rs: an order as the client sees
-- it.
pub mod Reach
use lightning_liquidity.Base.{ℕ, Option, none, some, if◌then◌else◌}
use lightning_liquidity.Base.Results.{Result, ok, err}
use lightning_liquidity.Lsps1.Msgs.{OptionsSupported, OrderId, OrderParams}
use lightning_liquidity.Lsps1.Order.{is_valid, order_beq}

pub data State : Type 0 where
  info_requested : State
  options_support : OptionsSupported → State
  order_requested : OrderParams → State
  pending_payment : OrderId → State
  awaiting_confirmation : ℕ → OrderId → State

-- One constructor for each message of a `ChannelStateError`, with what is formatted into it, and
-- the error of a transition that cannot happen.
pub data ChannelStateError : Type 0 where
  unexpected_get_info : State → ChannelStateError
  unsupported_order : OptionsSupported → OrderParams → ChannelStateError
  wrong_channel : State → ChannelStateError
  different_order : OrderParams → OrderParams → ChannelStateError
  unexpected_create_order : State → ChannelStateError
  unexpected_response : State → ChannelStateError
  impossible_state_transition : ChannelStateError

unfoldable pub info_received : State → OptionsSupported → Result ChannelStateError State
info_received info_requested options = ok (options_support options)
info_received s options = err (unexpected_get_info s)

unfoldable pub request_order : State → OrderParams → Result ChannelStateError State
request_order (options_support options) order =
    if is_valid order options
    then ok (order_requested order)
    else err (unsupported_order options order)
request_order s order = err (wrong_channel s)

unfoldable pub order_received : State → OrderParams → OrderId → Result ChannelStateError State
order_received (order_requested order) response_order order_id =
    if order_beq response_order order
    then ok (pending_payment order_id)
    else err (different_order order response_order)
order_received s response_order order_id = err (unexpected_create_order s)

unfoldable pub pay_for_channel : State → ℕ → Result ChannelStateError State
pay_for_channel (pending_payment order_id) user_channel_id =
    ok (awaiting_confirmation user_channel_id order_id)
pay_for_channel s user_channel_id = err (unexpected_response s)

pub record InboundCrChannel : Type 0 where
  pub user_channel_id : ℕ
  pub state : State

unfoldable pub new_channel : ℕ → InboundCrChannel
new_channel user_channel_id = record { user_channel_id = user_channel_id; state = info_requested }

-- `self.state = ...?`.
abbrev pub advance :
    InboundCrChannel → Result ChannelStateError State → InboundCrChannel × Option ChannelStateError
advance c (ok s) = (record c { state = s }, none)
advance c (err e) = (c, some e)

abbrev pub is_options_support : State → Option ChannelStateError
is_options_support (options_support options) = none
is_options_support _ = some impossible_state_transition

abbrev pub is_order_requested : State → Option ChannelStateError
is_order_requested (order_requested order) = none
is_order_requested _ = some impossible_state_transition

-- The state that the assignment has left is looked at again.
abbrev pub checked :
    (State → Option ChannelStateError)
    → InboundCrChannel × Option ChannelStateError
    → InboundCrChannel × Option ChannelStateError
checked check (c, none) = (c, check c.state)
checked check (c, some e) = (c, some e)

-- `InboundCRChannel::info_received`.
unfoldable pub channel_info_received :
    InboundCrChannel → OptionsSupported → InboundCrChannel × Option ChannelStateError
channel_info_received c options =
    checked is_options_support (advance c (info_received c.state options))

-- `InboundCRChannel::order_requested`.
unfoldable pub channel_order_requested :
    InboundCrChannel → OrderParams → InboundCrChannel × Option ChannelStateError
channel_order_requested c order =
    checked is_order_requested (advance c (request_order c.state order))

-- `InboundCRChannel::order_received`.
unfoldable pub channel_order_received :
    InboundCrChannel → OrderParams → OrderId → InboundCrChannel × Option ChannelStateError
channel_order_received c order order_id = advance c (order_received c.state order order_id)

-- `InboundCRChannel::pay_for_channel`.
unfoldable pub channel_pay_for_channel :
    InboundCrChannel → ℕ → InboundCrChannel × Option ChannelStateError
channel_pay_for_channel c user_channel_id = advance c (pay_for_channel c.state user_channel_id)
