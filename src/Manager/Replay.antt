-- ===== src/Manager/Replay.antt =====
-- A response is taken once: src/lsps0/ser.rs takes its request off the map that src/manager.rs
-- keeps for all peers.
use lightning_liquidity.Base.{◌≡◌, refl, none, some, List, arith}
use lightning_liquidity.Base.Keys.{nat_eq, list_eq}
use lightning_liquidity.Base.Maps
use lightning_liquidity.Base.Maps.{Map, get-remove_self}
use lightning_liquidity.Types.{PublicKey, RequestId, Text}
use lightning_liquidity.Lsps0.Method.{LspsMethod}
use lightning_liquidity.Lsps0.Json.{Serde}
use lightning_liquidity.Lsps0.Json.Read.{
  Fields, Reading, no_fields, read_fields, match_response, read_message, visit_map,
  from_str_with_id_map,
}
use lightning_liquidity.World.{World}
use lightning_liquidity.Manager.{Manager, Environment}
use lightning_liquidity.Manager.Wire.{dispatch, handle_custom_message, with_methods}
use lightning_liquidity.Manager.Dispatch.{methods-handle_lsps_message}
use lightning_liquidity.Manager.Ignored.{
  IsIgnored, handle_custom_message-dispatch, unread-IsIgnored, reading,
}

dispatch_methods :
    (env : Environment) (w : World Manager) (node : PublicKey) (r : Reading)
    → (dispatch env w node r).0.handler.request_id_to_method_map ≡ r.0
unfolding dispatch
dispatch_methods env w node (methods, some msg) =
    methods-handle_lsps_message env (with_methods w methods) msg node
dispatch_methods env w node (methods, none) = refl

module _ {V : Type 0} (s : Serde V) where
  -- The text of an object with an id and no method: a response, whatever else it holds.
  pub record IsResponse (payload : Text) (id : RequestId) : Type 0 where
    pub fields : Fields V
    pub entries : List (Text × V)
    pub object : s.read_object payload ≡ some entries
    pub read : read_fields s (no_fields s) entries ≡ some fields
    pub with_id : fields.id ≡ some id
    pub no_method : fields.method ≡ none

  read-IsResponse :
      (methods : Map RequestId LspsMethod) (payload : Text) (id : RequestId)
      → (p : IsResponse payload id)
      → from_str_with_id_map s payload methods
        ≡ match_response s methods id p.fields.result p.fields.error
  unfolding from_str_with_id_map visit_map read_message
  read-IsResponse methods payload id p =
      rw (p.object, from_str_with_id_map)
        (rw (p.read, visit_map) (ground (arith, p.with_id, p.no_method)))

  -- The id is not waiting after the reading of a response to it.
  read_response-removes :
      (methods : Map RequestId LspsMethod) (payload : Text) (id : RequestId)
      → IsResponse payload id
      → Maps.get id (from_str_with_id_map s payload methods).0 ≡ none
  unfolding match_response
  read_response-removes methods payload id p =
      rw (read-IsResponse methods payload id p) (ground (arith, get-remove_self id methods))

  read_unknown :
      (methods : Map RequestId LspsMethod) (payload : Text) (id : RequestId)
      → IsResponse payload id
      → Maps.get id methods ≡ none
      → (from_str_with_id_map s payload methods).1 ≡ none
  unfolding match_response
  read_unknown methods payload id p k = rw (read-IsResponse methods payload id p) (ground arith)

  -- Of two responses with one id, one after the other, the second gets its sender ignored, whatever
  -- they answer and also if another peer has sent the first, as long as the sender of the first was
  -- not ignored already.
  pub second_response_ignores_peer :
      (env env' : Environment) (w : World Manager) (payload payload' : Text)
      (node node' : PublicKey) (id : RequestId)
      → Maps.get node w.handler.ignored_peers ≡ none
      → IsResponse payload id
      → IsResponse payload' id
      → let w' = (handle_custom_message s env w payload node).0 in
        IsIgnored (handle_custom_message s env' w' payload' node').0 node'
  second_response_ignores_peer env env' w payload payload' node node' id k p p' =
      unread-IsIgnored s env' _ payload' node' (
        read_unknown _ payload' id p' (
          rw
            (
              handle_custom_message-dispatch s env w payload node k,
              dispatch_methods env w node (reading s w payload),
            )
            (read_response-removes w.handler.request_id_to_method_map payload id p)))
