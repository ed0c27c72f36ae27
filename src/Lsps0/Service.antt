-- ===== src/Lsps0/Service.antt =====
-- `LSPS0ServiceHandler` of src/lsps0/service.rs.
use lightning_liquidity.Base.{ℕ, List}
use lightning_liquidity.Types.{PublicKey, RequestId}
use lightning_liquidity.Lsps0.Msgs.{
  Request, list_protocols, list_protocols_ok, Message, request, response,
}
use lightning_liquidity.MessageQueue.{lsps0}
use lightning_liquidity.World.{
  World, Outcome, done, failed, LightningError, unexpected_message, send,
}

pub record Service : Type 0 where
  pub protocols : List ℕ

unfoldable pub new : List ℕ → Service
new protocols = record { protocols = protocols }

abbrev pub Handled : Type 0
Handled = World Service × Outcome LightningError

unfoldable pub handle_request : World Service → RequestId → Request → PublicKey → Handled
handle_request w id (list_protocols r) node = (
  send w node
      (lsps0 (response id (list_protocols_ok (record { protocols = w.handler.protocols })))),
  done,
)

unfoldable pub handle_message : World Service → Message → PublicKey → Handled
unfolding handle_request
handle_message w (request id r) node = handle_request w id r node
handle_message w (response id r) node = (w, failed (unexpected_message node))
