-- ===== src/Lsps0/Json.antt =====
-- How src/lsps0/ser.rs writes a message as a JSON-RPC object and reads it. The crates `serde` and
-- `serde_json`, with the code that `#[derive(Serialize, Deserialize)]` generates, are a parameter.
pub mod Read
pub mod Faithful
pub mod RoundTrip
pub mod Amounts
pub mod Sample
use lightning_liquidity.Base.{ℕ, ◌≡◌, Option, none, some, List, [], ◌∷◌, All}
use lightning_liquidity.Base.Texts.{codes}
use lightning_liquidity.Types.{Text, RequestId}
use lightning_liquidity.Lsps0.Ser.{ResponseError}
use lightning_liquidity.Lsps0.Msgs as Lsps0Msgs
use lightning_liquidity.Lsps1.Msgs as Lsps1Msgs
use lightning_liquidity.Lsps2.Msgs as Lsps2Msgs
use lightning_liquidity.MessageQueue.{LspsMessage, invalid, lsps0, lsps1, lsps2}
use lightning_liquidity.Lsps0.Method.{
  LspsMethod, print, method_of_lsps0, method_of_lsps1, method_of_lsps2,
}

-- How a type of the program becomes a JSON value, and is read from one.
pub record Codec (V A : Type 0) : Type 0 where
  pub to_value : A → V
  pub from_value : V → Option A

-- `V` are the JSON values. `from_str` reads a text as `&str`, which cannot hold an escape,
-- `from_string` reads it as `String`, `from_optional` as `Option<String>`, and `read_object` gives the entries of an object in their order. Either may fail.
pub record Serde (V : Type 0) : Type 0 where
  pub null : V
  pub empty_object : V
  pub text : Text → V
  pub from_str : V → Option Text
  pub from_string : V → Option Text
  pub from_optional : V → Option (Option Text)
  pub response_error : Codec V ResponseError
  pub list_protocols_request : Codec V Lsps0Msgs.ListProtocolsRequest
  pub list_protocols_response : Codec V Lsps0Msgs.ListProtocolsResponse
  pub lsps1_get_info_request : Codec V Lsps1Msgs.GetInfoRequest
  pub lsps1_get_info_response : Codec V Lsps1Msgs.GetInfoResponse
  pub create_order_request : Codec V Lsps1Msgs.CreateOrderRequest
  pub create_order_response : Codec V Lsps1Msgs.CreateOrderResponse
  pub get_order_request : Codec V Lsps1Msgs.GetOrderRequest
  pub lsps2_get_info_request : Codec V Lsps2Msgs.GetInfoRequest
  pub lsps2_get_info_response : Codec V Lsps2Msgs.GetInfoResponse
  pub buy_request : Codec V Lsps2Msgs.BuyRequest
  pub buy_response : Codec V Lsps2Msgs.BuyResponse
  pub write_object : List (Text × V) → Option Text
  pub read_object : Text → Option (List (Text × V))

abbrev pub jsonrpc_field_key : Text
jsonrpc_field_key = codes "jsonrpc"

abbrev pub jsonrpc_field_value : Text
jsonrpc_field_value = codes "2.0"

abbrev pub jsonrpc_method_field_key : Text
jsonrpc_method_field_key = codes "method"

abbrev pub jsonrpc_id_field_key : Text
jsonrpc_id_field_key = codes "id"

abbrev pub jsonrpc_params_field_key : Text
jsonrpc_params_field_key = codes "params"

abbrev pub jsonrpc_result_field_key : Text
jsonrpc_result_field_key = codes "result"

abbrev pub jsonrpc_error_field_key : Text
jsonrpc_error_field_key = codes "error"

module _ {V : Type 0} (s : Serde V) where
  abbrev pub entry : Text → V → Text × V
  entry key v = (key, v)

  abbrev pub version : Text × V
  version = entry jsonrpc_field_key (s.text jsonrpc_field_value)

  abbrev pub request_entries : RequestId → LspsMethod → V → List (Text × V)
  request_entries id m params =
      version
      ∷ entry jsonrpc_id_field_key (s.text id)
      ∷ entry jsonrpc_method_field_key (s.text (print m))
      ∷ entry jsonrpc_params_field_key params
      ∷ []

  abbrev pub result_entries : RequestId → V → List (Text × V)
  result_entries id result =
      version ∷ entry jsonrpc_id_field_key (s.text id) ∷ entry jsonrpc_result_field_key result ∷ []

  abbrev pub error_entries : V → ResponseError → List (Text × V)
  error_entries id e =
      version
      ∷ entry jsonrpc_id_field_key id
      ∷ entry jsonrpc_error_field_key (s.response_error.to_value e)
      ∷ []

  unfoldable pub params_of_lsps0 : Lsps0Msgs.Request → V
  params_of_lsps0 (Lsps0Msgs.list_protocols r) = s.list_protocols_request.to_value r

  unfoldable pub params_of_lsps1 : Lsps1Msgs.Request → V
  params_of_lsps1 (Lsps1Msgs.get_info r) = s.lsps1_get_info_request.to_value r
  params_of_lsps1 (Lsps1Msgs.create_order r) = s.create_order_request.to_value r
  params_of_lsps1 (Lsps1Msgs.get_order r) = s.get_order_request.to_value r

  unfoldable pub params_of_lsps2 : Lsps2Msgs.Request → V
  params_of_lsps2 (Lsps2Msgs.get_info r) = s.lsps2_get_info_request.to_value r
  params_of_lsps2 (Lsps2Msgs.buy r) = s.buy_request.to_value r

  unfoldable pub lsps0_response_entries : RequestId → Lsps0Msgs.Response → List (Text × V)
  lsps0_response_entries id (Lsps0Msgs.list_protocols_ok r) =
      result_entries id (s.list_protocols_response.to_value r)
  lsps0_response_entries id (Lsps0Msgs.list_protocols_error e) = error_entries (s.text id) e

  unfoldable pub lsps1_response_entries : RequestId → Lsps1Msgs.Response → List (Text × V)
  lsps1_response_entries id (Lsps1Msgs.get_info_ok r) =
      result_entries id (s.lsps1_get_info_response.to_value r)
  lsps1_response_entries id (Lsps1Msgs.create_order_ok r) =
      result_entries id (s.create_order_response.to_value r)
  lsps1_response_entries id (Lsps1Msgs.get_order_ok r) =
      result_entries id (s.create_order_response.to_value r)
  lsps1_response_entries id (Lsps1Msgs.get_info_error e) = error_entries (s.text id) e
  lsps1_response_entries id (Lsps1Msgs.create_order_error e) = error_entries (s.text id) e
  lsps1_response_entries id (Lsps1Msgs.get_order_error e) = error_entries (s.text id) e

  unfoldable pub lsps2_response_entries : RequestId → Lsps2Msgs.Response → List (Text × V)
  lsps2_response_entries id (Lsps2Msgs.get_info_ok r) =
      result_entries id (s.lsps2_get_info_response.to_value r)
  lsps2_response_entries id (Lsps2Msgs.buy_ok r) = result_entries id (s.buy_response.to_value r)
  lsps2_response_entries id (Lsps2Msgs.get_info_error e) = error_entries (s.text id) e
  lsps2_response_entries id (Lsps2Msgs.buy_error e) = error_entries (s.text id) e

  -- `LSPSMessage::serialize`: the entries of the object.
  unfoldable pub serialize : LspsMessage → List (Text × V)
  unfolding method_of_lsps0 method_of_lsps1 method_of_lsps2 params_of_lsps0 params_of_lsps1
      params_of_lsps2 lsps0_response_entries lsps1_response_entries lsps2_response_entries
  serialize (lsps0 (Lsps0Msgs.request id r)) =
      request_entries id (method_of_lsps0 r) (params_of_lsps0 r)
  serialize (lsps0 (Lsps0Msgs.response id r)) = lsps0_response_entries id r
  serialize (lsps1 (Lsps1Msgs.request id r)) =
      request_entries id (method_of_lsps1 r) (params_of_lsps1 r)
  serialize (lsps1 (Lsps1Msgs.response id r)) = lsps1_response_entries id r
  serialize (lsps2 (Lsps2Msgs.request id r)) =
      request_entries id (method_of_lsps2 r) (params_of_lsps2 r)
  serialize (lsps2 (Lsps2Msgs.response id r)) = lsps2_response_entries id r
  serialize (invalid e) = error_entries s.null e

  -- `serde_json::to_string`.
  unfoldable pub to_string : LspsMessage → Option Text
  unfolding serialize
  to_string msg = s.write_object (serialize msg)
