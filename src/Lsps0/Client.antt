-- ===== src/Lsps0/Client.antt =====
-- `LSPS0ClientHandler` of src/lsps0/client.rs, which has no state of its own, and the event of
-- src/lsps0/event.rs. The random bytes of the entropy source are an argument.
use lightning_liquidity.Base.{ℕ, List}
use lightning_liquidity.Types.{PublicKey}
use lightning_liquidity.Utils.{generate_request_id}
use lightning_liquidity.Lsps0.Msgs
use lightning_liquidity.Lsps0.Msgs.{
  Response, list_protocols_ok, list_protocols_error, Message, request, response,
}
use lightning_liquidity.Events.{lsps0_client}
use lightning_liquidity.MessageQueue.{lsps0}
use lightning_liquidity.World.{
  World, Outcome, done, failed, LightningError, unexpected_message, list_protocols_failed, send,
  emit,
}

pub record Client : Type 0 where

unfoldable pub list_protocols : List ℕ → World Client → PublicKey → World Client
unfolding generate_request_id
list_protocols bytes w node =
    send w node (lsps0 (request (generate_request_id bytes) (Msgs.list_protocols (record {}))))

abbrev pub Handled : Type 0
Handled = World Client × Outcome LightningError

unfoldable pub handle_response : World Client → Response → PublicKey → Handled
handle_response w (list_protocols_ok r) node = (emit w (lsps0_client node r.protocols), done)
handle_response w (list_protocols_error e) node = (w, failed (list_protocols_failed e))

unfoldable pub handle_message : World Client → Message → PublicKey → Handled
unfolding handle_response
handle_message w (response id r) node = handle_response w r node
handle_message w (request id r) node = (w, failed (unexpected_message node))
