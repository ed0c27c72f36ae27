-- ===== src/Lsps1/Tests/Client.antt =====
-- Orders of src/lsps1/client.rs, and an order between a client and a service.
use lightning_liquidity.Base.{◌≡◌, ◌↔◌, refl, some, [], ◌∷◌, arith}
use lightning_liquidity.Base.Maps
use lightning_liquidity.Types.{Text}
use lightning_liquidity.MessageQueue.{enqueue, lsps1}
use lightning_liquidity.Utils.{generate_request_id}
use lightning_liquidity.Lsps1.Msgs.{OptionsSupported, CreateOrderResponse, request, get_order}
use lightning_liquidity.Lsps1.Order.{is_valid, check_range, order_beq}
use lightning_liquidity.Lsps1.Inbound.{
  options_support, order_requested, pending_payment, awaiting_confirmation, unexpected_response,
  new_channel, channel_info_received, channel_order_requested, channel_order_received,
  info_received, request_order, order_received,
}
use lightning_liquidity.Lsps1.Inbound.Reach.{
  at, Reachable, start, informed, ordered, answered, Explained, Reachable-Explained,
}
use lightning_liquidity.Lsps1.Placing.{HasAcceptableFees, confirmation}
use lightning_liquidity.Lsps1.Client.{check_order_status, handle_create_order_response}
use lightning_liquidity.Lsps1.Client.Fees.{handle_create_order_response-eq-done_iff}
use lightning_liquidity.Lsps1.Client.Status.{status_is_checked_once}
use lightning_liquidity.Lsps1.Flow.{Setting, Ordered, valid_order_is_displayed}
use lightning_liquidity.World.{done, failed, channel_not_found, order_state_error}
use lightning_liquidity.Lsps1.Tests.Data.{
  options, order, payment, order_id, peer_with, client_with, service,
}

-- The channel 9 after the options, the order and its answer.
lifecycle :
    Reachable
      (record { offered = some options; placed = some order; confirmed = some order })
      (at 9 (pending_payment order_id))
unfolding new_channel channel_info_received channel_order_requested channel_order_received
    info_received request_order order_received is_valid check_range order_beq
lifecycle = answered (at 9 (pending_payment order_id)) order order_id refl (
    ordered (at 9 (order_requested order)) order refl
      (informed (at 9 (options_support options)) options refl (start 9)))

Reachable-Explained_example :
    Explained
      (record { offered = some options; placed = some order; confirmed = some order })
      (pending_payment order_id)
Reachable-Explained_example =
    Reachable-Explained
      (record { offered = some options; placed = some order; confirmed = some order })
      (at 9 (pending_payment order_id)) lifecycle

abbrev answer : CreateOrderResponse
answer = confirmation (1 ∷ []) order payment 1 2

handle_create_order_response-eq-done_iff_example :
    ((handle_create_order_response (client_with (order_requested order)) (3 ∷ []) 6 answer).1
      ≡ done)
    ↔ ((order_requested order ≡ order_requested order)
        × HasAcceptableFees (client_with (order_requested order)) answer)
unfolding Maps.get
handle_create_order_response-eq-done_iff_example =
    handle_create_order_response-eq-done_iff (client_with (order_requested order)) (3 ∷ []) 6
      (peer_with (order_requested order)) 9 (order_requested order) answer refl refl refl

status_is_checked_once_example :
    let first = check_order_status (1 ∷ []) (client_with (pending_payment order_id)) 6 order_id 9 in
    let second = check_order_status (2 ∷ []) first.0 6 order_id 9 in
    let third = check_order_status (3 ∷ []) second.0 6 order_id 9 in
    (first.1 ≡ done)
    × (first.0.pending_messages
        ≡ enqueue (client_with (pending_payment order_id)).pending_messages 6 (
            lsps1 (
              request (generate_request_id (1 ∷ [])) (get_order (record { order_id = order_id })))))
    × (second.1
        ≡ failed (order_state_error (unexpected_response (awaiting_confirmation 9 order_id))))
    × (second.0.pending_messages ≡ first.0.pending_messages)
    × (third ≡ (second.0, failed (channel_not_found 9)))
unfolding Maps.get
status_is_checked_once_example =
    status_is_checked_once (1 ∷ []) (2 ∷ []) (3 ∷ []) (client_with (pending_payment order_id)) 6
      order_id 9 (peer_with (pending_payment order_id)) order_id refl refl

abbrev no_text : OptionsSupported → Text
no_text o = []

abbrev setting : Setting
setting = record {
  client = client_with (options_support options);
  service = service;
  client_node = 5;
  service_node = 6;
  peer = peer_with (options_support options);
  user_channel_id = 9;
  options = options;
  order = order;
}

valid_order_is_displayed_example : Ordered setting no_text (1 ∷ []) (2 ∷ []) payment 1 2
unfolding Maps.get is_valid check_range
valid_order_is_displayed_example =
    valid_order_is_displayed setting no_text (1 ∷ []) (2 ∷ []) payment 1 2 refl refl refl refl
      (omega arith)
