-- ===== src/Manager/Dispatch.antt =====
-- What the dispatch of src/manager.rs leaves alone: the manager's own maps.
use lightning_liquidity.Base.{◌≡◌, refl, ap, Option, arith}
use lightning_liquidity.Base.Maps.{Map}
use lightning_liquidity.Types.{PublicKey, RequestId}
use lightning_liquidity.MessageQueue.{LspsMessage, invalid, lsps0, lsps1, lsps2}
use lightning_liquidity.World.{World}
use lightning_liquidity.Lsps0.Method.{LspsMethod}
use lightning_liquidity.Lsps0.Msgs as Lsps0Msgs
use lightning_liquidity.Lsps1.Msgs as Lsps1Msgs
use lightning_liquidity.Lsps2.Msgs as Lsps2Msgs
use lightning_liquidity.Manager.{
  Manager, BestBlock, Environment, handle_lsps0_message, handle_lsps1_message, handle_lsps2_message,
  handle_lsps_message,
}

-- The part of the manager that belongs to no handler.
abbrev pub Own : Type 0
Own = Map RequestId LspsMethod × Map PublicKey (Unit {0}) × Option BestBlock

abbrev pub own : World Manager → Own
own w = (w.handler.request_id_to_method_map, w.handler.ignored_peers, w.handler.best_block)

own-handle_lsps0_message :
    (w : World Manager) (msg : Lsps0Msgs.Message) (node : PublicKey)
    → own (handle_lsps0_message w msg node).0 ≡ own w
unfolding handle_lsps0_message
own-handle_lsps0_message w (Lsps0Msgs.response id r) node = refl
own-handle_lsps0_message w (Lsps0Msgs.request id r) node = ground arith

own-handle_lsps1_message :
    (env : Environment) (w : World Manager) (msg : Lsps1Msgs.Message) (node : PublicKey)
    → own (handle_lsps1_message env w msg node).0 ≡ own w
unfolding handle_lsps1_message
own-handle_lsps1_message env w (Lsps1Msgs.response id r) node = ground arith
own-handle_lsps1_message env w (Lsps1Msgs.request id r) node = ground arith

own-handle_lsps2_message :
    (env : Environment) (w : World Manager) (msg : Lsps2Msgs.Message) (node : PublicKey)
    → own (handle_lsps2_message env w msg node).0 ≡ own w
unfolding handle_lsps2_message
own-handle_lsps2_message env w (Lsps2Msgs.response id r) node = ground arith
own-handle_lsps2_message env w (Lsps2Msgs.request id r) node = ground arith

pub own-handle_lsps_message :
    (env : Environment) (w : World Manager) (msg : LspsMessage) (node : PublicKey)
    → own (handle_lsps_message env w msg node).0 ≡ own w
unfolding handle_lsps_message
own-handle_lsps_message env w (invalid e) node = refl
own-handle_lsps_message env w (lsps0 msg) node = own-handle_lsps0_message w msg node
own-handle_lsps_message env w (lsps1 msg) node = own-handle_lsps1_message env w msg node
own-handle_lsps_message env w (lsps2 msg) node = own-handle_lsps2_message env w msg node

pub ignored_peers-handle_lsps_message :
    (env : Environment) (w : World Manager) (msg : LspsMessage) (node : PublicKey)
    → (handle_lsps_message env w msg node).0.handler.ignored_peers ≡ w.handler.ignored_peers
ignored_peers-handle_lsps_message env w msg node =
    ap (λ (o : Own). o.1) (own-handle_lsps_message env w msg node)

pub methods-handle_lsps_message :
    (env : Environment) (w : World Manager) (msg : LspsMessage) (node : PublicKey)
    → (handle_lsps_message env w msg node).0.handler.request_id_to_method_map
      ≡ w.handler.request_id_to_method_map
methods-handle_lsps_message env w msg node =
    ap (λ (o : Own). o.0) (own-handle_lsps_message env w msg node)
