-- ===== src/Lsps0/Json/Read.antt =====
-- `LSPSMessageVisitor` of src/lsps0/ser.rs: a JSON-RPC object as a message. A response names no
-- method: the map of the requests that were sent says it. The text of an error, which the only
-- caller throws away, is not modelled: `none`.
use lightning_liquidity.Base.{Option, none, some, List, [], ◌∷◌, ◌==◌, if◌then◌else◌}
use lightning_liquidity.Base.Keys.{nat_eq, list_eq, list_beq}
use lightning_liquidity.Base.Maps
use lightning_liquidity.Base.Maps.{Map}
use lightning_liquidity.Types.{Text, RequestId}
use lightning_liquidity.Lsps0.Ser.{ResponseError, jsonrpc_invalid_message_error_code}
use lightning_liquidity.Lsps0.Msgs as Lsps0Msgs
use lightning_liquidity.Lsps1.Msgs as Lsps1Msgs
use lightning_liquidity.Lsps2.Msgs as Lsps2Msgs
use lightning_liquidity.MessageQueue.{LspsMessage, invalid, lsps0, lsps1, lsps2}
use lightning_liquidity.Lsps0.Method.{
  LspsMethod, lsps0_list_protocols, lsps1_get_info, lsps1_get_order, lsps1_create_order,
  lsps2_get_info, lsps2_buy, from_str,
}
use lightning_liquidity.Lsps0.Json.{
  Codec, Serde, jsonrpc_id_field_key, jsonrpc_method_field_key, jsonrpc_params_field_key,
  jsonrpc_result_field_key, jsonrpc_error_field_key,
}

-- What the entries have set; the last entry of a key counts.
pub record Fields (V : Type 0) : Type 0 where
  pub id : Option RequestId
  pub method : Option LspsMethod
  pub params : Option V
  pub result : Option V
  pub error : Option ResponseError

-- The map after the reading, and the message.
abbrev pub Reading : Type 0
Reading = Map RequestId LspsMethod × Option LspsMessage

module _ {V : Type 0} (s : Serde V) where
  unfoldable pub no_fields : Fields V
  no_fields = record { id = none; method = none; params = none; result = none; error = none }

  -- `LSPSMethod::deserialize`.
  abbrev pub read_method : V → Option LspsMethod
  read_method v = elim (s.from_str v) [ none ↦ none | some name ↦ from_str name ]

  abbrev pub set_id : Fields V → Option (Option Text) → Option (Fields V)
  set_id f none = none
  set_id f (some id) = some (record f { id = id })

  abbrev pub set_method : Fields V → Option LspsMethod → Option (Fields V)
  set_method f none = none
  set_method f (some m) = some (record f { method = some m })

  abbrev pub set_error : Fields V → Option ResponseError → Option (Fields V)
  set_error f none = none
  set_error f (some e) = some (record f { error = some e })

  -- One round of the loop over the entries.
  unfoldable pub set_field : Fields V → Text → V → Option (Fields V)
  unfolding from_str
  set_field f key v =
      if list_beq key jsonrpc_id_field_key
      then set_id f (s.from_optional v)
      else if list_beq key jsonrpc_method_field_key
      then set_method f (read_method v)
      else if list_beq key jsonrpc_params_field_key
      then some (record f { params = some v })
      else if list_beq key jsonrpc_result_field_key
      then some (record f { result = some v })
      else if list_beq key jsonrpc_error_field_key
      then set_error f (s.response_error.from_value v)
      else some f

  unfoldable pub read_fields : Fields V → List (Text × V) → Option (Fields V)
  unfolding set_field
  read_fields f [] = some f
  read_fields f ((key, v) ∷ rest) = elim (set_field f key v) [
    | none ↦ none
    | some f' ↦ read_fields f' rest
  ]

  -- Without an id, only the error of the code for invalid messages is a message.
  unfoldable pub read_notification : Option LspsMethod → Option ResponseError → Option LspsMessage
  read_notification (some m) e = none
  read_notification none none = none
  read_notification none (some e) =
      if e.code == jsonrpc_invalid_message_error_code then some (invalid e) else none

  -- `params.unwrap_or(json!({}))`.
  abbrev pub params_or : Option V → V
  params_or none = s.empty_object
  params_or (some v) = v

  abbrev pub decode : {A : Type 0} → Codec V A → (A → LspsMessage) → V → Option LspsMessage
  decode c message v = elim (c.from_value v) [ none ↦ none | some a ↦ some (message a) ]

  -- A request to list the protocols is read with any parameters.
  unfoldable pub read_request : RequestId → V → LspsMethod → Option LspsMessage
  read_request id params lsps0_list_protocols =
      some (lsps0 (Lsps0Msgs.request id (Lsps0Msgs.list_protocols (record {}))))
  read_request id params lsps1_get_info =
      decode s.lsps1_get_info_request (λ r. lsps1 (Lsps1Msgs.request id (Lsps1Msgs.get_info r)))
        params
  read_request id params lsps1_create_order =
      decode s.create_order_request (λ r. lsps1 (Lsps1Msgs.request id (Lsps1Msgs.create_order r)))
        params
  read_request id params lsps1_get_order =
      decode s.get_order_request (λ r. lsps1 (Lsps1Msgs.request id (Lsps1Msgs.get_order r))) params
  read_request id params lsps2_get_info =
      decode s.lsps2_get_info_request (λ r. lsps2 (Lsps2Msgs.request id (Lsps2Msgs.get_info r)))
        params
  read_request id params lsps2_buy =
      decode s.buy_request (λ r. lsps2 (Lsps2Msgs.request id (Lsps2Msgs.buy r))) params

  -- An error counts before a result; with neither the object is invalid.
  abbrev pub answer :
      {A : Type 0}
      → Codec V A
      → (A → LspsMessage)
      → (ResponseError → LspsMessage)
      → Option V
      → Option ResponseError
      → Option LspsMessage
  answer c on_result on_error result (some e) = some (on_error e)
  answer c on_result on_error (some v) none = decode c on_result v
  answer c on_result on_error none none = none

  unfoldable pub read_response :
      RequestId → Option V → Option ResponseError → LspsMethod → Option LspsMessage
  read_response id result error lsps0_list_protocols =
      answer s.list_protocols_response
        (λ r. lsps0 (Lsps0Msgs.response id (Lsps0Msgs.list_protocols_ok r)))
        (λ e. lsps0 (Lsps0Msgs.response id (Lsps0Msgs.list_protocols_error e))) result error
  read_response id result error lsps1_get_info =
      answer s.lsps1_get_info_response
        (λ r. lsps1 (Lsps1Msgs.response id (Lsps1Msgs.get_info_ok r)))
        (λ e. lsps1 (Lsps1Msgs.response id (Lsps1Msgs.get_info_error e))) result error
  read_response id result error lsps1_create_order =
      answer s.create_order_response
        (λ r. lsps1 (Lsps1Msgs.response id (Lsps1Msgs.create_order_ok r)))
        (λ e. lsps1 (Lsps1Msgs.response id (Lsps1Msgs.create_order_error e))) result error
  read_response id result error lsps1_get_order =
      answer s.create_order_response (λ r. lsps1 (Lsps1Msgs.response id (Lsps1Msgs.get_order_ok r)))
        (λ e. lsps1 (Lsps1Msgs.response id (Lsps1Msgs.get_order_error e))) result error
  read_response id result error lsps2_get_info =
      answer s.lsps2_get_info_response
        (λ r. lsps2 (Lsps2Msgs.response id (Lsps2Msgs.get_info_ok r)))
        (λ e. lsps2 (Lsps2Msgs.response id (Lsps2Msgs.get_info_error e))) result error
  read_response id result error lsps2_buy =
      answer s.buy_response (λ r. lsps2 (Lsps2Msgs.response id (Lsps2Msgs.buy_ok r)))
        (λ e. lsps2 (Lsps2Msgs.response id (Lsps2Msgs.buy_error e))) result error

  -- `request_id_to_method_map.remove(&id)`: the id is gone also if the response cannot be read.
  unfoldable pub match_response :
      Map RequestId LspsMethod → RequestId → Option V → Option ResponseError → Reading
  unfolding read_response
  match_response methods id result error = elim (Maps.get id methods) [
    | none ↦ (methods, none)
    | some m ↦ (Maps.remove id methods, read_response id result error m)
  ]

  unfoldable pub read_message : Map RequestId LspsMethod → Fields V → Reading
  unfolding read_notification read_request match_response
  read_message methods f = elim f.id [
    | none ↦ (methods, read_notification f.method f.error)
    | some id ↦ elim f.method [
      | some m ↦ (methods, read_request id (params_or f.params) m)
      | none ↦ match_response methods id f.result f.error
    ]
  ]

  -- `LSPSMessageVisitor::visit_map`.
  unfoldable pub visit_map : Map RequestId LspsMethod → List (Text × V) → Reading
  unfolding no_fields read_fields read_message
  visit_map methods entries = elim (read_fields no_fields entries) [
    | none ↦ (methods, none)
    | some f ↦ read_message methods f
  ]

  -- `LSPSMessage::from_str_with_id_map`.
  unfoldable pub from_str_with_id_map : Text → Map RequestId LspsMethod → Reading
  unfolding visit_map
  from_str_with_id_map payload methods = elim (s.read_object payload) [
    | none ↦ (methods, none)
    | some entries ↦ visit_map methods entries
  ]
