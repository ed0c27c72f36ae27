-- ===== src/Lsps0/Json/RoundTrip.antt =====
-- What src/lsps0/ser.rs writes is read back as the same message.
use lightning_liquidity.Base.{◌≡◌, refl, ap, ◌∙◌, Option, none, some, arith}
use lightning_liquidity.Base.Keys.{nat_eq, list_eq}
use lightning_liquidity.Base.Maps
use lightning_liquidity.Base.Maps.{Map}
use lightning_liquidity.Types.{Text, RequestId}
use lightning_liquidity.Lsps0.Ser.{ResponseError, jsonrpc_invalid_message_error_code}
use lightning_liquidity.Lsps0.Msgs as Lsps0Msgs
use lightning_liquidity.Lsps1.Msgs as Lsps1Msgs
use lightning_liquidity.Lsps2.Msgs as Lsps2Msgs
use lightning_liquidity.MessageQueue.{LspsMessage, invalid, lsps0, lsps1, lsps2}
use lightning_liquidity.Lsps0.Method.{
  LspsMethod, lsps0_list_protocols, lsps1_get_info, lsps1_get_order, lsps1_create_order,
  lsps2_get_info, lsps2_buy, method_of_lsps0, method_of_lsps1, method_of_lsps2,
}
use lightning_liquidity.Lsps0.Json.{
  Serde, serialize, to_string, request_entries, result_entries, error_entries, params_of_lsps0,
  params_of_lsps1, params_of_lsps2, lsps0_response_entries, lsps1_response_entries,
  lsps2_response_entries,
}
use lightning_liquidity.Lsps0.Json.Read.{
  read_notification, read_request, read_response, match_response, read_message, visit_map,
  from_str_with_id_map,
}
use lightning_liquidity.Lsps0.Json.Faithful.{
  IsFaithful, HasPlainKeys, read_fields-request, read_fields-result, read_fields-error,
}

abbrev pub method_of_lsps1_response : Lsps1Msgs.Response → LspsMethod
method_of_lsps1_response (Lsps1Msgs.get_info_ok r) = lsps1_get_info
method_of_lsps1_response (Lsps1Msgs.get_info_error e) = lsps1_get_info
method_of_lsps1_response (Lsps1Msgs.create_order_ok r) = lsps1_create_order
method_of_lsps1_response (Lsps1Msgs.create_order_error e) = lsps1_create_order
method_of_lsps1_response (Lsps1Msgs.get_order_ok r) = lsps1_get_order
method_of_lsps1_response (Lsps1Msgs.get_order_error e) = lsps1_get_order

abbrev pub method_of_lsps2_response : Lsps2Msgs.Response → LspsMethod
method_of_lsps2_response (Lsps2Msgs.get_info_ok r) = lsps2_get_info
method_of_lsps2_response (Lsps2Msgs.get_info_error e) = lsps2_get_info
method_of_lsps2_response (Lsps2Msgs.buy_ok r) = lsps2_buy
method_of_lsps2_response (Lsps2Msgs.buy_error e) = lsps2_buy

-- When a node that has sent the requests `methods` can read a message: a response has to answer
-- one of them, and an error without an id has to have the code for invalid messages.
abbrev pub IsExpected : Map RequestId LspsMethod → LspsMessage → Type 0
IsExpected methods (invalid e) = e.code ≡ jsonrpc_invalid_message_error_code
IsExpected methods (lsps0 (Lsps0Msgs.request id r)) = Unit
IsExpected methods (lsps1 (Lsps1Msgs.request id r)) = Unit
IsExpected methods (lsps2 (Lsps2Msgs.request id r)) = Unit
IsExpected methods (lsps0 (Lsps0Msgs.response id r)) =
    Maps.get id methods ≡ some lsps0_list_protocols
IsExpected methods (lsps1 (Lsps1Msgs.response id r)) =
    Maps.get id methods ≡ some (method_of_lsps1_response r)
IsExpected methods (lsps2 (Lsps2Msgs.response id r)) =
    Maps.get id methods ≡ some (method_of_lsps2_response r)

-- The requests that wait for a response after the message: its own no longer does.
abbrev pub methods_after : Map RequestId LspsMethod → LspsMessage → Map RequestId LspsMethod
methods_after methods (invalid e) = methods
methods_after methods (lsps0 (Lsps0Msgs.request id r)) = methods
methods_after methods (lsps1 (Lsps1Msgs.request id r)) = methods
methods_after methods (lsps2 (Lsps2Msgs.request id r)) = methods
methods_after methods (lsps0 (Lsps0Msgs.response id r)) = Maps.remove id methods
methods_after methods (lsps1 (Lsps1Msgs.response id r)) = Maps.remove id methods
methods_after methods (lsps2 (Lsps2Msgs.response id r)) = Maps.remove id methods

module _ {V : Type 0} (s : Serde V) (h : IsFaithful s) where
  visit_map-request :
      (methods : Map RequestId LspsMethod) (id : RequestId) (m : LspsMethod) (params : V)
      → visit_map s methods (request_entries s id m params) ≡ (methods, read_request s id params m)
  unfolding visit_map read_message
  visit_map-request methods id m params = rw (read_fields-request s h id m params, visit_map) refl

  visit_map-result :
      (methods : Map RequestId LspsMethod) (id : RequestId) (m : LspsMethod) (result : V)
      → Maps.get id methods ≡ some m
      → visit_map s methods (result_entries s id result)
        ≡ (Maps.remove id methods, read_response s id (some result) none m)
  unfolding visit_map read_message match_response
  visit_map-result methods id m result k =
      rw (read_fields-result s h id result, visit_map) (ground (arith, k))

  visit_map-error :
      (methods : Map RequestId LspsMethod) (id : RequestId) (m : LspsMethod) (e : ResponseError)
      → Maps.get id methods ≡ some m
      → visit_map s methods (error_entries s (s.text id) e)
        ≡ (Maps.remove id methods, read_response s id none (some e) m)
  unfolding visit_map read_message match_response
  visit_map-error methods id m e k =
      rw (read_fields-error s h (s.text id) (some id) e (h.optional id), visit_map)
        (ground (arith, k))

  visit_map-invalid :
      (methods : Map RequestId LspsMethod) (e : ResponseError)
      → e.code ≡ jsonrpc_invalid_message_error_code
      → visit_map s methods (error_entries s s.null e) ≡ (methods, some (invalid e))
  unfolding visit_map read_message read_notification
  visit_map-invalid methods e k =
      rw (read_fields-error s h s.null none e h.null_lem, visit_map) (ground arith)

  read_request-lsps1 :
      (id : RequestId) (r : Lsps1Msgs.Request)
      → read_request s id (params_of_lsps1 s r) (method_of_lsps1 r)
        ≡ some (lsps1 (Lsps1Msgs.request id r))
  unfolding read_request params_of_lsps1 method_of_lsps1
  read_request-lsps1 id (Lsps1Msgs.get_info r) = ground (arith, h.lsps1_get_info_request r)
  read_request-lsps1 id (Lsps1Msgs.create_order r) = ground (arith, h.create_order_request r)
  read_request-lsps1 id (Lsps1Msgs.get_order r) = ground (arith, h.get_order_request r)

  read_request-lsps2 :
      (id : RequestId) (r : Lsps2Msgs.Request)
      → read_request s id (params_of_lsps2 s r) (method_of_lsps2 r)
        ≡ some (lsps2 (Lsps2Msgs.request id r))
  unfolding read_request params_of_lsps2 method_of_lsps2
  read_request-lsps2 id (Lsps2Msgs.get_info r) = ground (arith, h.lsps2_get_info_request r)
  read_request-lsps2 id (Lsps2Msgs.buy r) = ground (arith, h.buy_request r)

  visit_lsps0_response :
      (methods : Map RequestId LspsMethod) (id : RequestId) (r : Lsps0Msgs.Response)
      → Maps.get id methods ≡ some lsps0_list_protocols
      → visit_map s methods (lsps0_response_entries s id r)
        ≡ (Maps.remove id methods, some (lsps0 (Lsps0Msgs.response id r)))
  unfolding lsps0_response_entries read_response
  visit_lsps0_response methods id (Lsps0Msgs.list_protocols_ok r) k =
      visit_map-result methods id _ _ k ∙ ground (arith, h.list_protocols_response r)
  visit_lsps0_response methods id (Lsps0Msgs.list_protocols_error e) k =
      visit_map-error methods id _ e k

  visit_lsps1_response :
      (methods : Map RequestId LspsMethod) (id : RequestId) (r : Lsps1Msgs.Response)
      → Maps.get id methods ≡ some (method_of_lsps1_response r)
      → visit_map s methods (lsps1_response_entries s id r)
        ≡ (Maps.remove id methods, some (lsps1 (Lsps1Msgs.response id r)))
  unfolding lsps1_response_entries read_response
  visit_lsps1_response methods id (Lsps1Msgs.get_info_ok r) k =
      visit_map-result methods id _ _ k ∙ ground (arith, h.lsps1_get_info_response r)
  visit_lsps1_response methods id (Lsps1Msgs.create_order_ok r) k =
      visit_map-result methods id _ _ k ∙ ground (arith, h.create_order_response r)
  visit_lsps1_response methods id (Lsps1Msgs.get_order_ok r) k =
      visit_map-result methods id _ _ k ∙ ground (arith, h.create_order_response r)
  visit_lsps1_response methods id (Lsps1Msgs.get_info_error e) k = visit_map-error methods id _ e k
  visit_lsps1_response methods id (Lsps1Msgs.create_order_error e) k =
      visit_map-error methods id _ e k
  visit_lsps1_response methods id (Lsps1Msgs.get_order_error e) k = visit_map-error methods id _ e k

  visit_lsps2_response :
      (methods : Map RequestId LspsMethod) (id : RequestId) (r : Lsps2Msgs.Response)
      → Maps.get id methods ≡ some (method_of_lsps2_response r)
      → visit_map s methods (lsps2_response_entries s id r)
        ≡ (Maps.remove id methods, some (lsps2 (Lsps2Msgs.response id r)))
  unfolding lsps2_response_entries read_response
  visit_lsps2_response methods id (Lsps2Msgs.get_info_ok r) k =
      visit_map-result methods id _ _ k ∙ ground (arith, h.lsps2_get_info_response r)
  visit_lsps2_response methods id (Lsps2Msgs.buy_ok r) k =
      visit_map-result methods id _ _ k ∙ ground (arith, h.buy_response r)
  visit_lsps2_response methods id (Lsps2Msgs.get_info_error e) k = visit_map-error methods id _ e k
  visit_lsps2_response methods id (Lsps2Msgs.buy_error e) k = visit_map-error methods id _ e k

  -- The entries that a message is written as are read as the message.
  visit_map-serialize :
      (methods : Map RequestId LspsMethod) (msg : LspsMessage)
      → IsExpected methods msg
      → visit_map s methods (serialize s msg) ≡ (methods_after methods msg, some msg)
  unfolding serialize
  visit_map-serialize methods (invalid e) k = visit_map-invalid methods e k
  visit_map-serialize methods (lsps0 (Lsps0Msgs.request id (Lsps0Msgs.list_protocols r))) k =
      unfold method_of_lsps0 params_of_lsps0 read_request in visit_map-request methods id _ _
  visit_map-serialize methods (lsps1 (Lsps1Msgs.request id r)) k =
      visit_map-request methods id _ _
      ∙ ap (λ (m : Option LspsMessage). (methods, m)) (read_request-lsps1 id r)
  visit_map-serialize methods (lsps2 (Lsps2Msgs.request id r)) k =
      visit_map-request methods id _ _
      ∙ ap (λ (m : Option LspsMessage). (methods, m)) (read_request-lsps2 id r)
  visit_map-serialize methods (lsps0 (Lsps0Msgs.response id r)) k =
      visit_lsps0_response methods id r k
  visit_map-serialize methods (lsps1 (Lsps1Msgs.response id r)) k =
      visit_lsps1_response methods id r k
  visit_map-serialize methods (lsps2 (Lsps2Msgs.response id r)) k =
      visit_lsps2_response methods id r k

  serialize-HasPlainKeys : (msg : LspsMessage) → HasPlainKeys (serialize s msg)
  unfolding serialize lsps0_response_entries lsps1_response_entries lsps2_response_entries
  serialize-HasPlainKeys (invalid e) = omega arith
  serialize-HasPlainKeys (lsps0 (Lsps0Msgs.request id r)) = omega arith
  serialize-HasPlainKeys (lsps1 (Lsps1Msgs.request id r)) = omega arith
  serialize-HasPlainKeys (lsps2 (Lsps2Msgs.request id r)) = omega arith
  serialize-HasPlainKeys (lsps0 (Lsps0Msgs.response id (Lsps0Msgs.list_protocols_ok r))) =
      omega arith
  serialize-HasPlainKeys (lsps0 (Lsps0Msgs.response id (Lsps0Msgs.list_protocols_error e))) =
      omega arith
  serialize-HasPlainKeys (lsps1 (Lsps1Msgs.response id (Lsps1Msgs.get_info_ok r))) = omega arith
  serialize-HasPlainKeys (lsps1 (Lsps1Msgs.response id (Lsps1Msgs.create_order_ok r))) = omega arith
  serialize-HasPlainKeys (lsps1 (Lsps1Msgs.response id (Lsps1Msgs.get_order_ok r))) = omega arith
  serialize-HasPlainKeys (lsps1 (Lsps1Msgs.response id (Lsps1Msgs.get_info_error e))) = omega arith
  serialize-HasPlainKeys (lsps1 (Lsps1Msgs.response id (Lsps1Msgs.create_order_error e))) =
      omega arith
  serialize-HasPlainKeys (lsps1 (Lsps1Msgs.response id (Lsps1Msgs.get_order_error e))) = omega arith
  serialize-HasPlainKeys (lsps2 (Lsps2Msgs.response id (Lsps2Msgs.get_info_ok r))) = omega arith
  serialize-HasPlainKeys (lsps2 (Lsps2Msgs.response id (Lsps2Msgs.buy_ok r))) = omega arith
  serialize-HasPlainKeys (lsps2 (Lsps2Msgs.response id (Lsps2Msgs.get_info_error e))) = omega arith
  serialize-HasPlainKeys (lsps2 (Lsps2Msgs.response id (Lsps2Msgs.buy_error e))) = omega arith

  pub to_string-some : (msg : LspsMessage) → (payload : Text) × (to_string s msg ≡ some payload)
  unfolding to_string
  to_string-some msg =
      let (payload, written, _) = h.object (serialize s msg) (serialize-HasPlainKeys msg) in
      (payload, written)

  -- With faithful serde crates, every message is written as some text, and a node reads the text as
  -- the same message if the message is a request, a response to a request that the node has
  -- waiting under its id and method, or an error with the code for invalid messages. Reading a
  -- response takes its request off the waiting ones, and nothing else changes them.
  pub from_str_with_id_map-to_string :
      (methods : Map RequestId LspsMethod) (msg : LspsMessage)
      → IsExpected methods msg
      → (payload : Text) × (to_string s msg ≡ some payload)
        × (from_str_with_id_map s payload methods ≡ (methods_after methods msg, some msg))
  unfolding to_string from_str_with_id_map
  from_str_with_id_map-to_string methods msg k =
      let (payload, written, read) = h.object (serialize s msg) (serialize-HasPlainKeys msg) in
      (payload, written, rw (read, from_str_with_id_map) (visit_map-serialize methods msg k))
