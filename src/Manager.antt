-- ===== src/Manager.antt =====
-- The state of `LiquidityManager` of src/manager.rs, and its dispatch of a message to the handler
-- for it. The chain source, which nothing calls, is left out.
pub mod Wire
pub mod Chain
pub mod Queues
pub mod Dispatch
pub mod Ignored
pub mod Replay
pub mod Transport
pub mod Exchange
pub mod Blocks
mod Tests
use lightning_liquidity.Base.{ℕ, Bool, Option, none, some, List, []}
use lightning_liquidity.Base.Maps.{Map}
use lightning_liquidity.Types.{PublicKey, RequestId, Text}
use lightning_liquidity.Events
use lightning_liquidity.MessageQueue
use lightning_liquidity.MessageQueue.{LspsMessage, invalid, lsps0, lsps1, lsps2}
use lightning_liquidity.World.{
  World, Outcome, done, failed, panicked, LightningError, message_not_understood,
  no_lsps0_service_handler, no_lsps1_service_handler, no_lsps1_client_handler,
  no_lsps2_service_handler, no_lsps2_client_handler,
}
use lightning_liquidity.Lsps0.Method.{LspsMethod}
use lightning_liquidity.Lsps0.Msgs as Lsps0Msgs
use lightning_liquidity.Lsps0.Client as Lsps0Client
use lightning_liquidity.Lsps0.Service as Lsps0Service
use lightning_liquidity.Lsps1.Msgs as Lsps1Msgs
use lightning_liquidity.Lsps1.Msgs.{OptionsSupported}
use lightning_liquidity.Lsps1.Client as Lsps1Client
use lightning_liquidity.Lsps1.Service as Lsps1Service
use lightning_liquidity.Lsps2.Msgs as Lsps2Msgs
use lightning_liquidity.Lsps2.Promise.{Crypto}
use lightning_liquidity.Lsps2.Client as Lsps2Client
use lightning_liquidity.Lsps2.Service as Lsps2Service
use lightning_liquidity.Lsps2.Service.Requests as Lsps2Requests

-- `LiquidityServiceConfig`; the configuration of LSPS2 is its promise secret.
pub record ServiceConfig : Type 0 where
  pub lsps1_service_config : Option Lsps1Service.ServiceConfig
  pub lsps2_service_config : Option (List ℕ)
  pub advertise_service : Bool

-- `LiquidityClientConfig`: the maximum of the channel fees, and a configuration with no fields.
pub record ClientConfig : Type 0 where
  pub lsps1_client_config : Option (Option ℕ)
  pub lsps2_client_config : Option (Unit {0})

-- `BestBlock` of the crate `lightning`: a block hash and a height.
pub record BestBlock : Type 0 where
  pub block_hash : ℕ
  pub height : ℕ

-- A `HashSet` is a map to nothing.
pub record Manager : Type 0 where
  pub request_id_to_method_map : Map RequestId LspsMethod
  pub ignored_peers : Map PublicKey (Unit {0})
  pub lsps0_client_handler : Lsps0Client.Client
  pub lsps0_service_handler : Option Lsps0Service.Service
  pub lsps1_service_handler : Option Lsps1Service.Service
  pub lsps1_client_handler : Option Lsps1Client.Client
  pub lsps2_service_handler : Option Lsps2Service.Service
  pub lsps2_client_handler : Option Lsps2Client.Client
  pub service_config : Option ServiceConfig
  pub client_config : Option ClientConfig
  pub best_block : Option BestBlock

abbrev pub and_then : {A B : Type 0} → Option A → (A → Option B) → Option B
and_then none f = none
and_then (some a) f = f a

abbrev pub map_option : {A B : Type 0} → (A → B) → Option A → Option B
map_option f none = none
map_option f (some a) = some (f a)

unfoldable pub new : Option BestBlock → Option ServiceConfig → Option ClientConfig → World Manager
unfolding Lsps0Service.new Lsps1Service.new Lsps1Client.new Lsps2Service.new Lsps2Client.new
    Events.new MessageQueue.new
new best_block service_config client_config = record {
  handler = record {
    request_id_to_method_map = [];
    ignored_peers = [];
    lsps0_client_handler = record {};
    lsps0_service_handler = map_option (λ config. Lsps0Service.new []) service_config;
    lsps1_service_handler =
        and_then service_config λ config. map_option Lsps1Service.new config.lsps1_service_config;
    lsps1_client_handler =
        and_then client_config λ config. map_option Lsps1Client.new config.lsps1_client_config;
    lsps2_service_handler =
        and_then service_config λ config. map_option Lsps2Service.new config.lsps2_service_config;
    lsps2_client_handler =
        and_then client_config
          λ config. map_option (λ c. Lsps2Client.new) config.lsps2_client_config;
    service_config = service_config;
    client_config = client_config;
    best_block = best_block;
  };
  pending_messages = MessageQueue.new;
  pending_events = Events.new;
  calls = [];
}

-- What the handlers of the services take from outside: the crates' functions, the system time, and
-- the text that `#[derive(Debug)]` gives of options.
pub record Environment : Type 0 where
  pub crypto : Crypto
  pub now : ℕ
  pub debug : OptionsSupported → Text

abbrev pub Handled : Type 0
Handled = World Manager × Outcome LightningError

-- A handler sees the queues of the manager.
abbrev pub within : {S : Type 0} → World Manager → S → World S
within w s = record {
  handler = s;
  pending_messages = w.pending_messages;
  pending_events = w.pending_events;
  calls = w.calls;
}

abbrev pub back : {S : Type 0} → (S → Manager) → World S × Outcome LightningError → Handled
back put (w, o) = (
  record {
    handler = put w.handler;
    pending_messages = w.pending_messages;
    pending_events = w.pending_events;
    calls = w.calls;
  },
  o,
)

unfoldable pub handle_lsps0_message : World Manager → Lsps0Msgs.Message → PublicKey → Handled
unfolding Lsps0Client.handle_message Lsps0Service.handle_message
handle_lsps0_message w (Lsps0Msgs.response id r) node =
    back (λ c. record w.handler { lsps0_client_handler = c })
      (Lsps0Client.handle_message (within w w.handler.lsps0_client_handler)
        (Lsps0Msgs.response id r) node)
handle_lsps0_message w (Lsps0Msgs.request id r) node = elim w.handler.lsps0_service_handler [
  | none ↦ (w, failed (no_lsps0_service_handler node))
  | some s ↦
      back (λ s'. record w.handler { lsps0_service_handler = some s' })
        (Lsps0Service.handle_message (within w s) (Lsps0Msgs.request id r) node)
]

unfoldable pub handle_lsps1_message :
    Environment → World Manager → Lsps1Msgs.Message → PublicKey → Handled
unfolding Lsps1Client.handle_message Lsps1Service.handle_message
handle_lsps1_message env w (Lsps1Msgs.response id r) node = elim w.handler.lsps1_client_handler [
  | none ↦ (w, failed (no_lsps1_client_handler node))
  | some c ↦
      back (λ c'. record w.handler { lsps1_client_handler = some c' })
        (Lsps1Client.handle_message (within w c) (Lsps1Msgs.response id r) node)
]
handle_lsps1_message env w (Lsps1Msgs.request id r) node = elim w.handler.lsps1_service_handler [
  | none ↦ (w, failed (no_lsps1_service_handler node))
  | some s ↦
      back (λ s'. record w.handler { lsps1_service_handler = some s' })
        (Lsps1Service.handle_message env.debug (within w s) (Lsps1Msgs.request id r) node)
]

unfoldable pub handle_lsps2_message :
    Environment → World Manager → Lsps2Msgs.Message → PublicKey → Handled
unfolding Lsps2Client.handle_message Lsps2Requests.handle_message
handle_lsps2_message env w (Lsps2Msgs.response id r) node = elim w.handler.lsps2_client_handler [
  | none ↦ (w, failed (no_lsps2_client_handler node))
  | some c ↦
      back (λ c'. record w.handler { lsps2_client_handler = some c' })
        (Lsps2Client.handle_message (within w c) (Lsps2Msgs.response id r) node)
]
handle_lsps2_message env w (Lsps2Msgs.request id r) node = elim w.handler.lsps2_service_handler [
  | none ↦ (w, failed (no_lsps2_service_handler node))
  | some s ↦
      back (λ s'. record w.handler { lsps2_service_handler = some s' })
        (Lsps2Requests.handle_message env.crypto env.now (within w s) (Lsps2Msgs.request id r) node)
]

unfoldable pub handle_lsps_message : Environment → World Manager → LspsMessage → PublicKey → Handled
unfolding handle_lsps0_message handle_lsps1_message handle_lsps2_message
handle_lsps_message env w (invalid e) node = (w, failed (message_not_understood node))
handle_lsps_message env w (lsps0 msg) node = handle_lsps0_message w msg node
handle_lsps_message env w (lsps1 msg) node = handle_lsps1_message env w msg node
handle_lsps_message env w (lsps2 msg) node = handle_lsps2_message env w msg node
