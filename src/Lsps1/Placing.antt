-- ===== src/Lsps1/Placing.antt =====
-- The steps of an order that go well, at `LSPS1ClientHandler` of src/lsps1/client.rs and at
-- `LSPS1ServiceHandler` of src/lsps1/service.rs.
use lightning_liquidity.Base.{ℕ, ◌+◌, ◌-◌, ◌%◌, ◌<◌, ◌≡◌, true, Option, none, some, List, arith}
use lightning_liquidity.Base.Keys.{nat_eq, list_eq}
use lightning_liquidity.Base.Maps
use lightning_liquidity.Base.Maps.{get-insert_self}
use lightning_liquidity.Base.Words.{u64_mod, wrapping_add}
use lightning_liquidity.Types.{PublicKey, RequestId, Text, DateTime}
use lightning_liquidity.Utils.{generate_request_id}
use lightning_liquidity.Lsps1.Msgs.{
  OrderParams, OrderPayment, OptionsSupported, CreateOrderResponse, create_order, create_order_ok,
  created, request, response,
}
use lightning_liquidity.Lsps1.Order.{is_valid, order_beq_iff}
use lightning_liquidity.Lsps1.Inbound.{
  options_support, order_requested, pending_payment, request_order, order_received,
  channel_order_requested, channel_order_received,
}
use lightning_liquidity.Lsps1.Inbound.Reach.{at}
use lightning_liquidity.Lsps1.Outbound.{new_channel}
use lightning_liquidity.Lsps1.Event
use lightning_liquidity.Lsps1.Client as Client
use lightning_liquidity.Lsps1.Service as Service
use lightning_liquidity.Events.{lsps1_client, lsps1_service}
use lightning_liquidity.MessageQueue.{lsps1}
use lightning_liquidity.World.{World, done, failed, send, emit, fees_too_high}

-- The client's state after an order was placed.
abbrev pub placed :
    World Client.Client
    → PublicKey
    → Client.PeerState
    → ℕ
    → OrderParams
    → RequestId
    → World Client.Client
placed w node p cid order id =
    Client.set_peer w node
      (Client.with_request (Client.with_channel p cid (at cid (order_requested order))) id cid)

pub place_order-placed :
    (bytes : List ℕ) (w : World Client.Client) (node : PublicKey) (p : Client.PeerState) (cid : ℕ)
    (order : OrderParams) (options : OptionsSupported)
    → Client.peer w node ≡ some p
    → Maps.get cid p.inbound_channels_by_id ≡ some (at cid (options_support options))
    → is_valid order options ≡ true
    → Client.place_order bytes w cid node order ≡ (
      send
          (placed w node p cid order (generate_request_id bytes))
          node
          (lsps1 (request (generate_request_id bytes) (create_order (record { order = order })))),
      done,
    )
unfolding Client.place_order Client.order_placed channel_order_requested request_order
place_order-placed bytes w node p cid order options e k v = ground arith

-- The service has checked the order and waits for its user.
abbrev pub asked :
    World Service.Service → PublicKey → RequestId → OrderParams → World Service.Service
asked v node id order = Service.set_peer v node (
    Service.with_pending (Service.entry_of (Service.peer v node)) id
      (create_order (record { order = order })))

pub handle_create_order_request-asked :
    (debug : OptionsSupported → Text) (v : World Service.Service) (id : RequestId)
    (node : PublicKey) (order : OrderParams) (options : OptionsSupported)
    → v.handler.options_supported ≡ some options
    → is_valid order options ≡ true
    → Service.handle_create_order_request debug v id node (record { order = order }) ≡ (
      emit
          (asked v node id order)
          (lsps1_service (Event.request_for_payment_details id node order)),
      done,
    )
unfolding Service.handle_create_order_request Service.answer_order
handle_create_order_request-asked debug v id node order options e k = ground arith

-- The answer to an order: it repeats the order.
abbrev pub confirmation :
    List ℕ → OrderParams → OrderPayment → DateTime → DateTime → CreateOrderResponse
confirmation bytes order payment created_at expires_at = record {
  order_id = Service.generate_order_id bytes;
  order = order;
  created_at = created_at;
  expires_at = expires_at;
  order_state = created;
  payment = payment;
  channel = none;
}

pub send_payment_details-sent :
    (bytes : List ℕ) (v : World Service.Service) (id : RequestId) (node : PublicKey)
    (p : Service.PeerState) (order : OrderParams) (payment : OrderPayment)
    (created_at expires_at : DateTime)
    → Service.peer v node ≡ some p
    → Maps.get id p.pending_requests ≡ some (create_order (record { order = order }))
    → Service.send_payment_details bytes v id node payment created_at expires_at ≡ (
      send
          (Service.set_peer v node (
            Service.with_order
              (Service.without_pending p id)
              (Service.generate_order_id bytes)
              (new_channel order created_at expires_at (Service.generate_order_id bytes) payment)))
          node
          (lsps1 (
            response id
              (create_order_ok (confirmation bytes order payment created_at expires_at)))),
      done,
    )
unfolding Service.send_payment_details Service.answer_create_order
send_payment_details-sent bytes v id node p order payment created_at expires_at e k = ground arith

-- The sum of the fees and of the client's balance, as the code adds them.
abbrev pub total_fees : CreateOrderResponse → ℕ
total_fees r = (r.payment.fee_total_sat + r.order.client_balance_sat) % u64_mod

-- `u64::MAX` where none is configured.
abbrev pub max_fees : Option ℕ → ℕ
max_fees none = u64_mod - 1
max_fees (some m) = m

-- What the client accepts as fees.
abbrev pub HasAcceptableFees : World Client.Client → CreateOrderResponse → Type 0
HasAcceptableFees w r =
    (total_fees r ≡ r.payment.order_total_sat)
    × (total_fees r < max_fees w.handler.max_channel_fees_msat)

pub check_fees-accepted :
    (w : World Client.Client) (node : PublicKey) (p : Client.PeerState) (cid : ℕ)
    (r : CreateOrderResponse)
    → HasAcceptableFees w r
    → Client.check_fees w node p cid r ≡ (
      emit
          (Client.set_peer w node p)
          (lsps1_client (Event.display_order cid node r.order r.payment r.channel)),
      done,
    )
unfolding Client.check_fees wrapping_add
check_fees-accepted w node p cid r h = ground arith

pub check_fees-refused :
    (w : World Client.Client) (node : PublicKey) (p : Client.PeerState) (cid : ℕ)
    (r : CreateOrderResponse)
    → ¬ HasAcceptableFees w r
    → Client.check_fees w node p cid r ≡ (
      Client.set_peer w node (Client.without_channel p cid),
      failed (fees_too_high (total_fees r)),
    )
unfolding Client.check_fees wrapping_add
check_fees-refused w node p cid r h = ground arith

pub handle_create_order_response-checked :
    (w : World Client.Client) (id : RequestId) (node : PublicKey) (p : Client.PeerState) (cid : ℕ)
    (order : OrderParams) (r : CreateOrderResponse)
    → Client.peer w node ≡ some p
    → Maps.get id p.request_to_cid ≡ some cid
    → Maps.get cid p.inbound_channels_by_id ≡ some (at cid (order_requested order))
    → r.order ≡ order
    → Client.handle_create_order_response w id node r
      ≡ Client.check_fees w node
          (Client.with_channel
            (Client.without_request p id)
            cid
            (at cid (pending_payment r.order_id)))
          cid
          r
unfolding Client.handle_create_order_response Client.take_channel Client.order_confirmed
    channel_order_received order_received
handle_create_order_response-checked w id node p cid order r e k c same =
    ground (arith, order_beq_iff r.order order)
