-- ===== src/Manager/Tests/Json.antt =====
-- Messages written and read by src/lsps0/ser.rs, and drained and dispatched by src/manager.rs.
use lightning_liquidity.Base.{arith, ◌∷◌, [], ◌≡◌, refl, some}
use lightning_liquidity.Base.Maps
use lightning_liquidity.Types.{Text}
use lightning_liquidity.Lsps0.Json.{to_string}
use lightning_liquidity.Lsps0.Json.Read.{from_str_with_id_map}
use lightning_liquidity.Lsps0.Json.Sample.{serde, serde-IsFaithful}
use lightning_liquidity.Lsps0.Json.RoundTrip.{
  methods_after, from_str_with_id_map-to_string, to_string-some,
}
use lightning_liquidity.Lsps0.Method.{get_request_id_and_method}
use lightning_liquidity.World.{World}
use lightning_liquidity.Manager.{Manager, Manager, handle_lsps_message}
use lightning_liquidity.Manager.Wire.{
  handle_custom_message, get_and_clear_pending_msg, with_methods,
}
use lightning_liquidity.Manager.Transport.{
  Drained, handle_custom_message-to_string, get_and_clear_pending_msg-Drained,
}
use lightning_liquidity.Manager.Exchange.{question}
use lightning_liquidity.Manager.Tests.Data.{environment, manager, menu}

from_str_with_id_map-to_string_example :
    (payload : Text) × (to_string serde menu ≡ some payload)
    × (from_str_with_id_map serde payload manager.handler.request_id_to_method_map
        ≡ (methods_after manager.handler.request_id_to_method_map menu, some menu))
unfolding Maps.get
from_str_with_id_map-to_string_example =
    from_str_with_id_map-to_string serde serde-IsFaithful manager.handler.request_id_to_method_map
      menu refl

handle_custom_message-to_string_example :
    handle_custom_message serde environment manager (to_string-some serde serde-IsFaithful menu).0 5
    ≡ handle_lsps_message environment
        (with_methods manager (methods_after manager.handler.request_id_to_method_map menu))
        menu
        5
unfolding Maps.get
handle_custom_message-to_string_example =
    handle_custom_message-to_string serde serde-IsFaithful environment manager menu
      (to_string-some serde serde-IsFaithful menu).0 5 refl refl
      (to_string-some serde serde-IsFaithful menu).1

-- With two requests and a response in its queue.
abbrev busy : World Manager
busy = record manager {
  pending_messages = record manager.pending_messages {
    queue = (5, question (3 ∷ [])) ∷ (6, menu) ∷ (6, question (4 ∷ [])) ∷ [];
  };
}

get_and_clear_pending_msg-Drained_example :
    Drained serde busy
      (get_and_clear_pending_msg serde busy).0
      (get_and_clear_pending_msg serde busy).1
unfolding get_request_id_and_method
get_and_clear_pending_msg-Drained_example =
    get_and_clear_pending_msg-Drained serde serde-IsFaithful busy (ground arith)
