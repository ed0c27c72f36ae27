-- ===== src/Lsps1/Service/Status.antt =====
-- Requests for the status of an order at `LSPS1ServiceHandler` of src/lsps1/service.rs.
use lightning_liquidity.Base.{◌≡◌, refl, ap, ◌∙◌, none, some, List, [], ◌∷◌, ◌++◌, arith}
use lightning_liquidity.Base.Keys.{nat_eq, list_eq}
use lightning_liquidity.Base.Maps
use lightning_liquidity.Base.Maps.{get-insert_self, get-remove_self}
use lightning_liquidity.Types.{PublicKey, RequestId}
use lightning_liquidity.Events.{Event, lsps1_service, queue-enqueue}
use lightning_liquidity.Lsps1.Msgs.{OrderId, GetOrderRequest, get_order}
use lightning_liquidity.Lsps1.Event
use lightning_liquidity.Lsps1.Outbound.{
  order_created, waiting_payment, OutboundCrChannel, channel_awaiting_payment, awaiting_payment,
}
use lightning_liquidity.World.{World, done, failed, unknown_order, outbound_state_error, emit}
use lightning_liquidity.Lsps1.Service.{
  PeerState, Service, Handled, peer, set_peer, with_order, without_order, with_pending,
  handle_get_order_request, order_asked,
}

first_request :
    (v : World Service) (id : RequestId) (node : PublicKey) (params : GetOrderRequest)
    (p : PeerState) (c : OutboundCrChannel) (order_id : OrderId)
    → peer v node ≡ some p
    → Maps.get params.order_id.text p.outbound_channels_by_order_id ≡ some c
    → c.state ≡ order_created order_id
    → handle_get_order_request v id node params ≡ (
      emit
          (set_peer v node (
            with_pending
              (with_order p params.order_id (record c { state = waiting_payment order_id }))
              id
              (get_order params)))
          (lsps1_service (Event.check_payment_confirmation id node params.order_id)),
      done,
    )
unfolding handle_get_order_request order_asked channel_awaiting_payment awaiting_payment
first_request v id node params p c order_id e k s = ground arith

later_request :
    (v : World Service) (id : RequestId) (node : PublicKey) (params : GetOrderRequest)
    (p : PeerState) (c : OutboundCrChannel) (order_id : OrderId)
    → peer v node ≡ some p
    → Maps.get params.order_id.text p.outbound_channels_by_order_id ≡ some c
    → c.state ≡ waiting_payment order_id
    → handle_get_order_request v id node params ≡ (
      emit
          (set_peer v node (without_order p params.order_id))
          (lsps1_service (Event.refund id node params.order_id)),
      failed (outbound_state_error (waiting_payment order_id)),
    )
unfolding handle_get_order_request order_asked channel_awaiting_payment awaiting_payment
later_request v id node params p c order_id e k s = ground arith

request_without_order :
    (v : World Service) (id : RequestId) (node : PublicKey) (params : GetOrderRequest)
    (p : PeerState)
    → peer v node ≡ some p
    → Maps.get params.order_id.text p.outbound_channels_by_order_id ≡ none
    → handle_get_order_request v id node params ≡ (v, failed (unknown_order params.order_id))
unfolding handle_get_order_request
request_without_order v id node params p e k = ground arith

module _ (v : World Service) (id id' id'' : RequestId) (node : PublicKey)
    (params : GetOrderRequest) where
  abbrev pub first : Handled
  first = handle_get_order_request v id node params

  abbrev pub second : Handled
  second = handle_get_order_request first.0 id' node params

  abbrev pub third : Handled
  third = handle_get_order_request second.0 id'' node params

  -- What three requests for the status of one order come to.
  pub record Refunded (order_id : OrderId) : Type 0 where
    pub first_done : first.1 ≡ done
    pub second_failed : second.1 ≡ failed (outbound_state_error (waiting_payment order_id))
    pub asked_and_refunded :
        second.0.pending_events.queue
        ≡ (v.pending_events.queue
            ++ lsps1_service (Event.check_payment_confirmation id node params.order_id) ∷ [])
          ++ lsps1_service (Event.refund id' node params.order_id) ∷ []
    pub nothing_sent : second.0.pending_messages ≡ v.pending_messages
    pub third_unknown : third ≡ (second.0, failed (unknown_order params.order_id))

  -- Of a peer's requests for the status of an order that was just created, the first asks the user
  -- to check the payment, the second drops the order and asks for a refund, though nothing was
  -- answered in between, and the third finds no such order.
  pub second_status_request_refunds :
      (p : PeerState) (c : OutboundCrChannel) (order_id : OrderId)
      → peer v node ≡ some p
      → Maps.get params.order_id.text p.outbound_channels_by_order_id ≡ some c
      → c.state ≡ order_created order_id
      → Refunded order_id
  second_status_request_refunds p c order_id e k s =
      let c' : OutboundCrChannel = record c { state = waiting_payment order_id } in
      let p' : PeerState = with_pending (with_order p params.order_id c') id (get_order params) in
      let one = first_request v id node params p c order_id e k s in
      let two =
        later_request first.0 id' node params p' c' order_id
          (rw one (get-insert_self node p' v.handler.per_peer_state))
          (get-insert_self params.order_id.text c' p.outbound_channels_by_order_id) refl in
      let three =
        request_without_order second.0 id'' node params (without_order p' params.order_id)
          (rw two (get-insert_self node _ first.0.handler.per_peer_state))
          (get-remove_self params.order_id.text p'.outbound_channels_by_order_id) in
      record {
        first_done = rw one refl;
        second_failed = rw two refl;
        asked_and_refunded = rw two (
            queue-enqueue first.0.pending_events _
            ∙ ap
                (λ (l : List Event).
                  l ++ lsps1_service (Event.refund id' node params.order_id) ∷ [])
                (rw one (queue-enqueue v.pending_events _)));
        nothing_sent = rw two (rw one refl);
        third_unknown = three;
      }
