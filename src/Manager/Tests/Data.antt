-- ===== src/Manager/Tests/Data.antt =====
-- The values that the tests of src/manager.rs share.
use lightning_liquidity.Base.{true, none, some, [], ◌∷◌}
use lightning_liquidity.MessageQueue.{LspsMessage, lsps2}
use lightning_liquidity.Lsps2.Msgs as Lsps2Msgs
use lightning_liquidity.Lsps0.Method.{lsps0_list_protocols, lsps2_get_info}
use lightning_liquidity.Lsps0.Service as Lsps0Service
use lightning_liquidity.Lsps2.Tests.Data.{toy_crypto, params}
use lightning_liquidity.World.{World}
use lightning_liquidity.Manager.{Manager, BestBlock, Environment}

abbrev pub environment : Environment
environment = record { crypto = toy_crypto; now = 100; debug = λ o. [] }

abbrev pub top : BestBlock
top = record { block_hash = 70; height = 7 }

abbrev pub provider : Lsps0Service.Service
provider = record { protocols = 2 ∷ [] }

-- A manager with a service of LSPS0 that waits for the responses to two requests.
abbrev pub manager : World Manager
manager = record {
  handler = record {
    request_id_to_method_map = (1 ∷ [], lsps2_get_info) ∷ (2 ∷ [], lsps0_list_protocols) ∷ [];
    ignored_peers = [];
    lsps0_client_handler = record {};
    lsps0_service_handler = some provider;
    lsps1_service_handler = none;
    lsps1_client_handler = none;
    lsps2_service_handler = none;
    lsps2_client_handler = none;
    service_config = none;
    client_config = none;
    best_block = some top;
  };
  pending_messages = record { queue = []; process_msgs_callback = true; callback_runs = 0 };
  pending_events = record { queue = []; waker = none; woken = []; notified = 0 };
  calls = [];
}

-- The answer to a request for the fee parameters.
abbrev pub menu : LspsMessage
menu = lsps2 (
    Lsps2Msgs.response (1 ∷ [])
      (Lsps2Msgs.get_info_ok (record { opening_fee_params_menu = params ∷ [] })))
