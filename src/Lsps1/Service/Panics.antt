-- ===== src/Lsps1/Service/Panics.antt =====
-- When a message makes `LSPS1ServiceHandler` of src/lsps1/service.rs panic.
use lightning_liquidity.Base.{◌≡◌, ◌↔◌, ◌⊎◌, none, arith}
use lightning_liquidity.Types.{PublicKey, Text}
use lightning_liquidity.Lsps1.Msgs.{
  OptionsSupported, get_info, create_order, get_order, Message, request, response,
}
use lightning_liquidity.World.{World, panicked}
use lightning_liquidity.Lsps1.Service.{
  Service, handle_message, handle_get_info_request, handle_create_order_request, answer_order,
  handle_get_order_request, order_asked,
}

-- The request needs a part of the configuration that is not set.
abbrev pub IsUnset : Service → Message → Type 0
IsUnset s (request id (get_info r)) = (s.website ≡ none) ⊎ (s.options_supported ≡ none)
IsUnset s (request id (create_order r)) = s.options_supported ≡ none
IsUnset s (request id (get_order r)) = ⊥
IsUnset s (response id r) = ⊥

-- A message panics exactly when it asks for the options and no website or no options are
-- configured, or places an order and no options are configured.
pub handle_message-eq-panicked_iff :
    (debug : OptionsSupported → Text) (v : World Service) (msg : Message) (node : PublicKey)
    → ((handle_message debug v msg node).1 ≡ panicked) ↔ IsUnset v.handler msg
unfolding handle_message handle_get_info_request handle_create_order_request answer_order
    handle_get_order_request order_asked
handle_message-eq-panicked_iff debug v (request id (get_info r)) node = ground arith
handle_message-eq-panicked_iff debug v (request id (create_order r)) node = ground arith
handle_message-eq-panicked_iff debug v (request id (get_order r)) node = ground arith
handle_message-eq-panicked_iff debug v (response id r) node = ground arith
