-- ===== src/Manager/Wire.antt =====
-- `CustomMessageReader` and `CustomMessageHandler` of `LiquidityManager` in src/manager.rs: the
-- messages as the peers' transport carries them. `RawLSPSMessage` is its payload. Its reading from
-- bytes and the features are those of the crate `lightning`, which are parameters.
use lightning_liquidity.Base.{
  ℕ, Bool, true, false, Option, none, some, List, [], ◌∷◌, ◌==◌, if◌then◌else◌,
}
use lightning_liquidity.Base.Keys.{nat_eq, list_eq}
use lightning_liquidity.Base.Maps
use lightning_liquidity.Base.Maps.{Map}
use lightning_liquidity.Types.{PublicKey, RequestId, Text}
use lightning_liquidity.MessageQueue
use lightning_liquidity.MessageQueue.{LspsMessage, invalid}
use lightning_liquidity.World.{World, failed, ignoring_message, failed_to_deserialize, send}
use lightning_liquidity.Lsps0.Ser.{
  jsonrpc_invalid_message_error_code, jsonrpc_invalid_message_error_message,
}
use lightning_liquidity.Lsps0.Method.{LspsMethod, get_request_id_and_method}
use lightning_liquidity.Lsps0.Json.{Serde, to_string}
use lightning_liquidity.Lsps0.Json.Read.{Reading, from_str_with_id_map}
use lightning_liquidity.Manager.{Manager, ServiceConfig, Environment, Handled, handle_lsps_message}

abbrev pub lsps_message_type_id : ℕ
lsps_message_type_id = 37913

abbrev pub lsps_feature_bit : ℕ
lsps_feature_bit = 729

-- `CustomMessageReader::read`: `none` is the error of the reader, `some none` is `Ok(None)`.
unfoldable pub read : (List ℕ → Option Text) → ℕ → List ℕ → Option (Option Text)
read read_raw message_type buffer =
    if message_type == lsps_message_type_id
    then elim (read_raw buffer) [ none ↦ none | some payload ↦ some (some payload) ]
    else some none

abbrev pub with_methods : World Manager → Map RequestId LspsMethod → World Manager
with_methods w methods = record w {
  handler = record w.handler { request_id_to_method_map = methods };
}

abbrev pub ignore : World Manager → PublicKey → World Manager
ignore w node = record w {
  handler = record w.handler { ignored_peers = Maps.insert node tt w.handler.ignored_peers };
}

-- `ignored_peers.contains(..)`.
abbrev pub is_some : Option (Unit {0}) → Bool
is_some none = false
is_some (some _) = true

-- What could not be read is answered, and the peer is ignored from then on.
unfoldable pub dispatch : Environment → World Manager → PublicKey → Reading → Handled
unfolding handle_lsps_message
dispatch env w node (methods, some msg) = handle_lsps_message env (with_methods w methods) msg node
dispatch env w node (methods, none) = (
  ignore
      (send (with_methods w methods) node (
        invalid (record {
          code = jsonrpc_invalid_message_error_code;
          message = jsonrpc_invalid_message_error_message;
          extra = none;
        })))
      node,
  failed (failed_to_deserialize node),
)

-- `filter_map` and the loop that inserts.
abbrev pub insert_method :
    Option (RequestId × LspsMethod) → Map RequestId LspsMethod → Map RequestId LspsMethod
insert_method none methods = methods
insert_method (some (id, m)) methods = Maps.insert id m methods

unfoldable pub insert_methods :
    List (PublicKey × LspsMessage) → Map RequestId LspsMethod → Map RequestId LspsMethod
unfolding get_request_id_and_method
insert_methods [] methods = methods
insert_methods ((node, msg) ∷ rest) methods =
    insert_methods rest (insert_method (get_request_id_and_method msg) methods)

module _ {V : Type 0} (s : Serde V) where
  unfoldable pub handle_custom_message : Environment → World Manager → Text → PublicKey → Handled
  unfolding dispatch from_str_with_id_map
  handle_custom_message env w payload node =
      if is_some (Maps.get node w.handler.ignored_peers)
      then (w, failed (ignoring_message node))
      else dispatch env w node (from_str_with_id_map s payload w.handler.request_id_to_method_map)

  -- A message that cannot be written is left out.
  unfoldable pub payloads : List (PublicKey × LspsMessage) → List (PublicKey × Text)
  unfolding to_string
  payloads [] = []
  payloads ((node, msg) ∷ rest) = elim (to_string s msg) [
    | none ↦ payloads rest
    | some payload ↦ (node, payload) ∷ payloads rest
  ]

  unfoldable pub get_and_clear_pending_msg : World Manager → World Manager × List (PublicKey × Text)
  unfolding insert_methods payloads MessageQueue.get_and_clear_pending_msgs
  get_and_clear_pending_msg w =
      let (queue, messages) = MessageQueue.get_and_clear_pending_msgs w.pending_messages in
      (
        with_methods (record w { pending_messages = queue })
            (insert_methods messages w.handler.request_id_to_method_map),
        payloads messages,
      )

-- What the crate `lightning` provides for a set of features; setting a bit may fail.
pub record Features (F : Type 0) : Type 0 where
  pub empty : F
  pub set_optional_custom_bit : F → ℕ → Option F

-- `provided_node_features` and `provided_init_features`; `none` is the panic of the `expect`.
module _ {F : Type 0} (features : Features F) where
  abbrev pub advertise : Option ServiceConfig → Bool
  advertise none = false
  advertise (some c) = c.advertise_service

  unfoldable pub provided_node_features : World Manager → Option F
  provided_node_features w =
      if advertise w.handler.service_config
      then features.set_optional_custom_bit features.empty lsps_feature_bit
      else some features.empty

  unfoldable pub provided_init_features : World Manager → PublicKey → Option F
  provided_init_features w their_node_id =
      if advertise w.handler.service_config
      then features.set_optional_custom_bit features.empty lsps_feature_bit
      else some features.empty
