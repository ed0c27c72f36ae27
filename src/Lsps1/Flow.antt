-- ===== src/Lsps1/Flow.antt =====
-- A whole order between `LSPS1ClientHandler` of src/lsps1/client.rs and `LSPS1ServiceHandler` of
-- src/lsps1/service.rs, whose options the client has got.
use lightning_liquidity.Base.{ℕ, ◌≡◌, refl, ◌∙◌, true, none, some, List, [], ◌∷◌, ◌++◌}
use lightning_liquidity.Base.Keys.{nat_eq, list_eq}
use lightning_liquidity.Base.Maps
use lightning_liquidity.Base.Maps.{get-insert_self}
use lightning_liquidity.Types.{PublicKey, RequestId, Text, DateTime}
use lightning_liquidity.Utils.{generate_request_id}
use lightning_liquidity.Lsps1.Msgs.{
  OrderParams, OrderPayment, OptionsSupported, create_order, create_order_ok, request, response,
}
use lightning_liquidity.Lsps1.Order.{is_valid}
use lightning_liquidity.Lsps1.Inbound.{options_support, order_requested, pending_payment}
use lightning_liquidity.Lsps1.Inbound.Reach.{at}
use lightning_liquidity.Lsps1.Event
use lightning_liquidity.Lsps1.Client as Client
use lightning_liquidity.Lsps1.Service as Service
use lightning_liquidity.Lsps1.Placing.{
  placed, place_order-placed, asked, handle_create_order_request-asked, confirmation,
  send_payment_details-sent, HasAcceptableFees, check_fees-accepted,
  handle_create_order_response-checked,
}
use lightning_liquidity.Events.{lsps1_client, lsps1_service, queue-enqueue}
use lightning_liquidity.Lsps1.Outbound.{new_channel}
use lightning_liquidity.MessageQueue
use lightning_liquidity.MessageQueue.{lsps1}
use lightning_liquidity.World
use lightning_liquidity.World.{World, Outcome, done, LightningError, ApiError}

-- A client and a service, the client's state of the service, and its channel, which is to be ordered
-- by the options.
pub record Setting : Type 0 where
  pub client : World Client.Client
  pub service : World Service.Service
  pub client_node : PublicKey
  pub service_node : PublicKey
  pub peer : Client.PeerState
  pub user_channel_id : ℕ
  pub options : OptionsSupported
  pub order : OrderParams

module _ (g : Setting) (debug : OptionsSupported → Text) (bytes bytes' : List ℕ)
    (payment : OrderPayment) (created_at expires_at : DateTime) where
  abbrev pub id : RequestId
  id = generate_request_id bytes

  abbrev pub after_place : World Client.Client × Outcome ApiError
  after_place = Client.place_order bytes g.client g.user_channel_id g.service_node g.order

  abbrev pub after_request : World Service.Service × Outcome LightningError
  after_request =
      Service.handle_message debug g.service
        (request id (create_order (record { order = g.order }))) g.client_node

  abbrev pub after_details : World Service.Service × Outcome ApiError
  after_details =
      Service.send_payment_details bytes' after_request.0 id g.client_node payment created_at
        expires_at

  abbrev pub after_response : World Client.Client × Outcome LightningError
  after_response =
      Client.handle_message after_place.0
        (response id (create_order_ok (confirmation bytes' g.order payment created_at expires_at)))
        g.service_node

  -- The request of the client is the one that the service gets, the response of the service is the
  -- one that the client gets, and both users learn of the order.
  pub record Ordered : Type 0 where
    pub placed_done : after_place.1 ≡ done
    pub request_sent :
        after_place.0.pending_messages.queue
        ≡ g.client.pending_messages.queue
          ++ (g.service_node, lsps1 (request id (create_order (record { order = g.order })))) ∷ []
    pub request_accepted : after_request.1 ≡ done
    pub service_informed :
        after_request.0.pending_events.queue
        ≡ g.service.pending_events.queue
          ++ lsps1_service (Event.request_for_payment_details id g.client_node g.order) ∷ []
    pub details_done : after_details.1 ≡ done
    pub response_sent :
        after_details.0.pending_messages.queue
        ≡ g.service.pending_messages.queue
          ++ (
            g.client_node,
            lsps1 (
                response id
                  (create_order_ok (confirmation bytes' g.order payment created_at expires_at))),
          )
            ∷ []
    pub response_accepted : after_response.1 ≡ done
    pub client_informed :
        after_response.0.pending_events.queue
        ≡ g.client.pending_events.queue
          ++ lsps1_client
              (Event.display_order g.user_channel_id g.service_node g.order payment none)
            ∷ []

  -- The peers' states while the order is on its way.
  abbrev waiting : Service.PeerState
  waiting =
      Service.with_pending (Service.entry_of (Service.peer g.service g.client_node)) id
        (create_order (record { order = g.order }))

  abbrev requesting : Client.PeerState
  requesting =
      Client.with_request
        (Client.with_channel g.peer g.user_channel_id
          (at g.user_channel_id (order_requested g.order)))
        id g.user_channel_id

  module _ (known : Client.peer g.client g.service_node ≡ some g.peer)
      (informed : Maps.get g.user_channel_id g.peer.inbound_channels_by_id
        ≡ some (at g.user_channel_id (options_support g.options)))
      (configured : g.service.handler.options_supported ≡ some g.options)
      (valid : is_valid g.order g.options ≡ true) where
    place_lem : after_place ≡ (
      World.send
          (placed g.client g.service_node g.peer g.user_channel_id g.order id)
          g.service_node
          (lsps1 (request id (create_order (record { order = g.order })))),
      done,
    )
    place_lem =
        place_order-placed bytes g.client g.service_node g.peer g.user_channel_id g.order g.options
          known informed valid

    request_lem : after_request ≡ (
      World.emit
          (asked g.service g.client_node id g.order)
          (lsps1_service (Event.request_for_payment_details id g.client_node g.order)),
      done,
    )
    unfolding Service.handle_message
    request_lem =
        handle_create_order_request-asked debug g.service id g.client_node g.order g.options
          configured valid

    details_lem : after_details ≡ (
      World.send
          (Service.set_peer after_request.0 g.client_node (
            Service.with_order
              (Service.without_pending waiting id)
              (Service.generate_order_id bytes')
              (new_channel g.order created_at expires_at
                (Service.generate_order_id bytes')
                payment)))
          g.client_node
          (lsps1 (
            response id
              (create_order_ok (confirmation bytes' g.order payment created_at expires_at)))),
      done,
    )
    details_lem =
        send_payment_details-sent bytes' after_request.0 id g.client_node waiting g.order payment
          created_at expires_at
          (rw request_lem (get-insert_self g.client_node waiting g.service.handler.per_peer_state))
          (get-insert_self id (create_order (record { order = g.order })) _)

    response_lem :
        HasAcceptableFees g.client (confirmation bytes' g.order payment created_at expires_at)
        → after_response ≡ (
          World.emit
              (Client.set_peer after_place.0 g.service_node (
                Client.with_channel
                  (Client.without_request requesting id)
                  g.user_channel_id
                  (at g.user_channel_id (pending_payment (Service.generate_order_id bytes')))))
              (lsps1_client
                (Event.display_order g.user_channel_id g.service_node g.order payment none)),
          done,
        )
    unfolding Client.handle_message
    response_lem fees =
        handle_create_order_response-checked after_place.0 id g.service_node requesting
          g.user_channel_id g.order (confirmation bytes' g.order payment created_at expires_at)
          (rw place_lem (get-insert_self g.service_node requesting g.client.handler.per_peer_state))
          (get-insert_self id g.user_channel_id g.peer.request_to_cid)
          (get-insert_self g.user_channel_id (at g.user_channel_id (order_requested g.order))
            g.peer.inbound_channels_by_id)
          refl
        ∙ check_fees-accepted after_place.0 g.service_node _ g.user_channel_id
            (confirmation bytes' g.order payment created_at expires_at) (rw place_lem fees)

    -- A client that has got the options of a service, and places an order that they admit, gets the
    -- order to the user of the service; if the service's user sends payment details whose fees the
    -- client accepts, the client's user gets the same order with these details to pay for. No step
    -- fails, and each node's message is the one that the other handles.
    pub valid_order_is_displayed :
        HasAcceptableFees g.client (confirmation bytes' g.order payment created_at expires_at)
        → Ordered
    unfolding MessageQueue.enqueue
    valid_order_is_displayed fees = record {
      placed_done = rw place_lem refl;
      request_sent = rw place_lem refl;
      request_accepted = rw request_lem refl;
      service_informed = rw request_lem (queue-enqueue g.service.pending_events _);
      details_done = rw details_lem refl;
      response_sent = rw (details_lem, request_lem) refl;
      response_accepted = rw (response_lem fees) refl;
      client_informed = rw (response_lem fees, place_lem) (queue-enqueue g.client.pending_events _);
    }
