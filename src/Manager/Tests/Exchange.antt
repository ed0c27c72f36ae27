-- ===== src/Manager/Tests/Exchange.antt =====
-- An exchange between two managers of src/manager.rs.
use lightning_liquidity.Base.{◌≡◌, refl, [], ◌∷◌, ◌++◌}
use lightning_liquidity.Base.Maps
use lightning_liquidity.Events.{lsps0_client}
use lightning_liquidity.World.{done}
use lightning_liquidity.Lsps0.Json.Sample.{serde, serde-IsFaithful}
use lightning_liquidity.Manager.Exchange.{exchange, exchange-lists_protocols}
use lightning_liquidity.Manager.Tests.Data.{environment, manager, provider}

exchange-lists_protocols_example :
    let r = exchange serde environment (9 ∷ []) manager manager 5 6 in
    (r.1 ≡ done ∷ []) × (r.0.pending_events.queue ≡ [] ++ lsps0_client 6 (2 ∷ []) ∷ [])
unfolding Maps.get
exchange-lists_protocols_example =
    exchange-lists_protocols serde serde-IsFaithful environment (9 ∷ []) manager manager 5 6
      provider refl refl refl refl refl
