-- ===== src/Lsps1/Client/Fees.antt =====
-- Which answers to an order `LSPS1ClientHandler` of src/lsps1/client.rs takes.
use lightning_liquidity.Base.{ℕ, ◌≡◌, ◌↔◌, some, arith}
use lightning_liquidity.Base.Keys.{nat_eq, list_eq}
use lightning_liquidity.Base.Maps
use lightning_liquidity.Base.Words.{wrapping_add}
use lightning_liquidity.Types.{PublicKey, RequestId}
use lightning_liquidity.Lsps1.Msgs.{CreateOrderResponse}
use lightning_liquidity.Lsps1.Order.{order_beq_iff}
use lightning_liquidity.Lsps1.Inbound.{
  State, info_requested, options_support, order_requested, pending_payment, awaiting_confirmation,
  order_received, channel_order_received,
}
use lightning_liquidity.Lsps1.Inbound.Reach.{at}
use lightning_liquidity.Lsps1.Placing.{HasAcceptableFees}
use lightning_liquidity.World.{World, done}
use lightning_liquidity.Lsps1.Client.{
  Client, PeerState, peer, without_request, handle_create_order_response, take_channel,
  order_confirmed, check_fees,
}

order_confirmed-eq-done_iff :
    (w : World Client) (node : PublicKey) (p : PeerState) (cid : ℕ) (s : State)
    (r : CreateOrderResponse)
    → ((order_confirmed w node p cid r (channel_order_received (at cid s) r.order r.order_id)).1
        ≡ done)
      ↔ ((s ≡ order_requested r.order) × HasAcceptableFees w r)
unfolding order_confirmed check_fees channel_order_received order_received wrapping_add
order_confirmed-eq-done_iff w node p cid info_requested r = (λ e. absurd (cc), λ e. absurd (cc))
order_confirmed-eq-done_iff w node p cid (options_support o) r =
    (λ e. absurd (cc), λ e. absurd (cc))
order_confirmed-eq-done_iff w node p cid (order_requested o) r =
    ground (arith, order_beq_iff r.order o)
order_confirmed-eq-done_iff w node p cid (pending_payment o) r =
    (λ e. absurd (cc), λ e. absurd (cc))
order_confirmed-eq-done_iff w node p cid (awaiting_confirmation u o) r =
    (λ e. absurd (cc), λ e. absurd (cc))

response_taken :
    (w : World Client) (id : RequestId) (node : PublicKey) (p : PeerState) (cid : ℕ) (s : State)
    (r : CreateOrderResponse)
    → peer w node ≡ some p
    → Maps.get id p.request_to_cid ≡ some cid
    → Maps.get cid p.inbound_channels_by_id ≡ some (at cid s)
    → handle_create_order_response w id node r
      ≡ order_confirmed w node
          (without_request p id)
          cid
          r
          (channel_order_received (at cid s) r.order r.order_id)
unfolding handle_create_order_response take_channel
response_taken w id node p cid s r known asked stored = ground arith

-- The answer to a request for a channel is taken exactly when the channel waits for the answer to
-- the order that the answer repeats, and the sum of the fees and of the client's balance is the
-- order's total and below the maximum.
pub handle_create_order_response-eq-done_iff :
    (w : World Client) (id : RequestId) (node : PublicKey) (p : PeerState) (cid : ℕ) (s : State)
    (r : CreateOrderResponse)
    → peer w node ≡ some p
    → Maps.get id p.request_to_cid ≡ some cid
    → Maps.get cid p.inbound_channels_by_id ≡ some (at cid s)
    → ((handle_create_order_response w id node r).1 ≡ done)
      ↔ ((s ≡ order_requested r.order) × HasAcceptableFees w r)
handle_create_order_response-eq-done_iff w id node p cid s r known asked stored =
    rw (response_taken w id node p cid s r known asked stored)
      (order_confirmed-eq-done_iff w node (without_request p id) cid s r)
