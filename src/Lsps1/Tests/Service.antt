-- ===== src/Lsps1/Tests/Service.antt =====
-- Requests to src/lsps1/service.rs.
use lightning_liquidity.Base.{◌≡◌, ◌↔◌, refl, [], ◌∷◌}
use lightning_liquidity.Base.Maps
use lightning_liquidity.Lsps1.Msgs.{get_info, request}
use lightning_liquidity.Lsps1.Service.{handle_message}
use lightning_liquidity.Lsps1.Service.Panics.{handle_message-eq-panicked_iff, IsUnset}
use lightning_liquidity.Lsps1.Service.Status.{Refunded, second_status_request_refunds}
use lightning_liquidity.World.{panicked}
use lightning_liquidity.Lsps1.Tests.Data.{order_id, outbound, service_peer, service}

handle_message-eq-panicked_iff_example :
    ((handle_message (λ o. []) service (request (1 ∷ []) (get_info (record {}))) 5).1 ≡ panicked)
    ↔ IsUnset service.handler (request (1 ∷ []) (get_info (record {})))
handle_message-eq-panicked_iff_example =
    handle_message-eq-panicked_iff (λ o. []) service (request (1 ∷ []) (get_info (record {}))) 5

second_status_request_refunds_example :
    Refunded service (1 ∷ []) (2 ∷ []) (3 ∷ []) 5 (record { order_id = order_id }) order_id
unfolding Maps.get
second_status_request_refunds_example =
    second_status_request_refunds service (1 ∷ []) (2 ∷ []) (3 ∷ []) 5
      (record { order_id = order_id }) service_peer outbound order_id refl refl refl
