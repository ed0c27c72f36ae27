-- ===== src/Lsps1/Service.antt =====
-- `LSPS1ServiceHandler` of src/lsps1/service.rs. The random bytes of the entropy source are an
-- argument, and so is the text of options that `#[derive(Debug)]` gives.
pub mod Status
pub mod Panics
use lightning_liquidity.Base.{ℕ, true, false, Option, none, some, List, [], ◌++◌}
use lightning_liquidity.Base.Keys.{nat_eq, list_eq}
use lightning_liquidity.Base.Maps
use lightning_liquidity.Base.Maps.{Map}
use lightning_liquidity.Base.Texts.{codes}
use lightning_liquidity.Types.{PublicKey, RequestId, Text, DateTime}
use lightning_liquidity.Utils.{hex_str, take}
use lightning_liquidity.Lsps0.Ser.{order_mismatch}
use lightning_liquidity.Lsps1.Msgs.{
  OrderId, OrderPayment, OptionsSupported, OrderState, created, ChannelInfo, CreateOrderRequest,
  GetOrderRequest, Request, get_info, create_order, get_order, get_info_ok, create_order_ok,
  create_order_error, get_order_ok, Message, request, response,
  create_order_request_order_mismatch_error_code,
}
use lightning_liquidity.Lsps1.Order.{is_valid}
use lightning_liquidity.Lsps1.Outbound.{
  State, OutboundCrChannel, new_channel, channel_awaiting_payment,
}
use lightning_liquidity.Lsps1.Event
use lightning_liquidity.Events.{lsps1_service}
use lightning_liquidity.MessageQueue.{lsps1}
use lightning_liquidity.World.{
  World, Outcome, done, failed, panicked, ApiError, no_pending_buy_request,
  no_state_for_counterparty, order_not_found, no_existing_state, LightningError, unexpected_message,
  unsupported_client_order, unknown_order, get_order_from_unknown_peer, outbound_state_error, send,
  emit,
}

-- `outbound_channels_by_order_id` is keyed by the text of the `OrderId`.
pub record PeerState : Type 0 where
  pub outbound_channels_by_order_id : Map Text OutboundCrChannel
  pub request_to_cid : Map RequestId ℕ
  pub pending_requests : Map RequestId Request

unfoldable pub new_peer : PeerState
new_peer = record { outbound_channels_by_order_id = []; request_to_cid = []; pending_requests = [] }

-- `LSPS1ServiceConfig`.
pub record ServiceConfig : Type 0 where
  pub token : Option Text
  pub options_supported : Option OptionsSupported
  pub website : Option Text

-- With the fields of its configuration.
pub record Service : Type 0 where
  pub per_peer_state : Map PublicKey PeerState
  pub token : Option Text
  pub options_supported : Option OptionsSupported
  pub website : Option Text

unfoldable pub new : ServiceConfig → Service
new config = record {
  per_peer_state = [];
  token = config.token;
  options_supported = config.options_supported;
  website = config.website;
}

abbrev pub peer : World Service → PublicKey → Option PeerState
peer w node = Maps.get node w.handler.per_peer_state

abbrev pub set_peer : World Service → PublicKey → PeerState → World Service
set_peer w node p = record w {
  handler = record w.handler { per_peer_state = Maps.insert node p w.handler.per_peer_state };
}

abbrev pub entry_of : Option PeerState → PeerState
unfolding new_peer
entry_of none = new_peer
entry_of (some p) = p

abbrev pub with_pending : PeerState → RequestId → Request → PeerState
with_pending p id r = record p { pending_requests = Maps.insert id r p.pending_requests }

abbrev pub without_pending : PeerState → RequestId → PeerState
without_pending p id = record p { pending_requests = Maps.remove id p.pending_requests }

abbrev pub with_order : PeerState → OrderId → OutboundCrChannel → PeerState
with_order p order_id c = record p {
  outbound_channels_by_order_id = Maps.insert order_id.text c p.outbound_channels_by_order_id;
}

abbrev pub without_order : PeerState → OrderId → PeerState
without_order p order_id = record p {
  outbound_channels_by_order_id = Maps.remove order_id.text p.outbound_channels_by_order_id;
}

abbrev pub Handled : Type 0
Handled = World Service × Outcome LightningError

abbrev pub Step : Type 0
Step = World Service × Outcome ApiError

-- Both `unwrap`s panic on a field of the configuration that is not set.
unfoldable pub handle_get_info_request : World Service → RequestId → PublicKey → Handled
handle_get_info_request w id node = elim w.handler.website [
  | none ↦ (w, panicked)
  | some website ↦ elim w.handler.options_supported [
    | none ↦ (w, panicked)
    | some options ↦ (
      send w node
          (lsps1 (response id (get_info_ok (record { website = website; options = options })))),
      done,
    )
  ]
]

-- The order was checked against the options.
unfoldable pub answer_order :
    (OptionsSupported → Text)
    → World Service
    → RequestId
    → PublicKey
    → CreateOrderRequest
    → OptionsSupported
    → Handled
answer_order debug w id node params options = elim (is_valid params.order options) [
  | false ↦ (
    send w node (
        lsps1 (
          response id (
            create_order_error (record {
              code = create_order_request_order_mismatch_error_code;
              message = order_mismatch;
              extra = some (codes "Supported options are " ++ debug options);
            })))),
    failed (unsupported_client_order params.order),
  )
  | true ↦ (
    emit (set_peer w node (with_pending (entry_of (peer w node)) id (create_order params)))
        (lsps1_service (Event.request_for_payment_details id node params.order)),
    done,
  )
]

unfoldable pub handle_create_order_request :
    (OptionsSupported → Text) → World Service → RequestId → PublicKey → CreateOrderRequest → Handled
unfolding answer_order
handle_create_order_request debug w id node params = elim w.handler.options_supported [
  | none ↦ (w, panicked)
  | some options ↦ answer_order debug w id node params options
]

unfoldable pub generate_order_id : List ℕ → OrderId
unfolding hex_str
generate_order_id bytes = record { text = hex_str (take 16 bytes) }

unfoldable pub answer_create_order :
    List ℕ
    → World Service
    → RequestId
    → PublicKey
    → PeerState
    → OrderPayment
    → DateTime
    → DateTime
    → Option Request
    → Step
unfolding generate_order_id new_channel
answer_create_order bytes w id node p payment created_at expires_at (some (create_order params)) =
    let order_id = generate_order_id bytes in
    let c = new_channel params.order created_at expires_at order_id payment in
    (
      send (set_peer w node (with_order p order_id c)) node (
          lsps1 (
            response id (
              create_order_ok (record {
                order_id = order_id;
                order = params.order;
                created_at = created_at;
                expires_at = expires_at;
                order_state = created;
                payment = payment;
                channel = none;
              })))),
      done,
    )
answer_create_order bytes w id node p payment created_at expires_at (some (get_info r)) =
    (set_peer w node p, failed (no_pending_buy_request id))
answer_create_order bytes w id node p payment created_at expires_at (some (get_order r)) =
    (set_peer w node p, failed (no_pending_buy_request id))
answer_create_order bytes w id node p payment created_at expires_at none =
    (set_peer w node p, failed (no_pending_buy_request id))

unfoldable pub send_payment_details :
    List ℕ → World Service → RequestId → PublicKey → OrderPayment → DateTime → DateTime → Step
unfolding answer_create_order
send_payment_details bytes w id node payment created_at expires_at = elim (peer w node) [
  | none ↦ (w, failed (no_state_for_counterparty node))
  | some p ↦
      answer_create_order bytes w id node (without_pending p id) payment created_at expires_at
        (Maps.get id p.pending_requests)
]

-- A request that finds its order in another state than the first drops the order and asks for a
-- refund.
unfoldable pub order_asked :
    World Service
    → RequestId
    → PublicKey
    → PeerState
    → GetOrderRequest
    → OutboundCrChannel × Option State
    → Handled
order_asked w id node p params (c, some s) = (
  emit (set_peer w node (without_order p params.order_id))
      (lsps1_service (Event.refund id node params.order_id)),
  failed (outbound_state_error s),
)
order_asked w id node p params (c, none) = (
  emit (set_peer w node (with_pending (with_order p params.order_id c) id (get_order params)))
      (lsps1_service (Event.check_payment_confirmation id node params.order_id)),
  done,
)

unfoldable pub handle_get_order_request :
    World Service → RequestId → PublicKey → GetOrderRequest → Handled
unfolding order_asked
handle_get_order_request w id node params = elim (peer w node) [
  | none ↦ (w, failed (get_order_from_unknown_peer node))
  | some p ↦ elim (Maps.get params.order_id.text p.outbound_channels_by_order_id) [
    | none ↦ (w, failed (unknown_order params.order_id))
    | some c ↦ order_asked w id node p params (channel_awaiting_payment c)
  ]
]

unfoldable pub update_order_status :
    World Service → RequestId → PublicKey → OrderId → OrderState → Option ChannelInfo → Step
update_order_status w id node order_id order_state channel = elim (peer w node) [
  | none ↦ (w, failed (no_existing_state node))
  | some p ↦ elim (Maps.get order_id.text p.outbound_channels_by_order_id) [
    | none ↦ (w, failed (order_not_found order_id))
    | some c ↦ (
      send w node (
          lsps1 (
            response id (
              get_order_ok (record {
                order_id = order_id;
                order = c.config.order;
                created_at = c.config.created_at;
                expires_at = c.config.expires_at;
                order_state = order_state;
                payment = c.config.payment;
                channel = channel;
              })))),
      done,
    )
  ]
]

unfoldable pub handle_message :
    (OptionsSupported → Text) → World Service → Message → PublicKey → Handled
unfolding handle_get_info_request handle_create_order_request handle_get_order_request
handle_message debug w (request id (get_info r)) node = handle_get_info_request w id node
handle_message debug w (request id (create_order params)) node =
    handle_create_order_request debug w id node params
handle_message debug w (request id (get_order params)) node =
    handle_get_order_request w id node params
handle_message debug w (response id r) node = (w, failed (unexpected_message node))
