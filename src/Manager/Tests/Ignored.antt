-- ===== src/Manager/Tests/Ignored.antt =====
-- Peers that src/manager.rs ignores.
use lightning_liquidity.Base.{◌≡◌, ◌≢◌, ◌↔◌, ◌⊎◌, refl, none, some, [], ◌∷◌}
use lightning_liquidity.Base.Maps
use lightning_liquidity.World.{failed, ignoring_message}
use lightning_liquidity.Base.Keys.{nat_eq}
use lightning_liquidity.Types.{Text, PublicKey}
use lightning_liquidity.Lsps0.Ser.{ResponseError}
use lightning_liquidity.Lsps0.Json.{error_entries}
use lightning_liquidity.Lsps0.Json.Read.{no_fields, read_fields, set_field, from_str_with_id_map}
use lightning_liquidity.Lsps0.Json.Sample.{serde, entries}
use lightning_liquidity.Manager.Wire.{handle_custom_message}
use lightning_liquidity.Manager.Ignored.{
  IsIgnored, drain, deliver, reading, run, unread_ignores_peer, handle_custom_message-IsIgnored_iff,
}
use lightning_liquidity.Manager.Replay.{IsResponse, second_response_ignores_peer}
use lightning_liquidity.Manager.Tests.Data.{environment, manager}

-- The empty text is no object.
unread : (reading serde manager []).1 ≡ none
unfolding from_str_with_id_map
unread = refl

unread_ignores_peer_example :
    let w' =
      run serde
        (deliver environment (1 ∷ []) 6 ∷ drain ∷ [])
        (handle_custom_message serde environment manager [] 5).0 in
    handle_custom_message serde environment w' (7 ∷ []) 5 ≡ (w', failed (ignoring_message 5))
unread_ignores_peer_example =
    unread_ignores_peer serde environment environment manager [] (7 ∷ []) 5
      (deliver environment (1 ∷ []) 6 ∷ drain ∷ []) unread

handle_custom_message-IsIgnored_iff_example :
    (IsIgnored (handle_custom_message serde environment manager [] 5).0 5
      ↔ (IsIgnored manager 5 ⊎ ((reading serde manager []).1 ≡ none)))
    × ((other : PublicKey)
        → 5 ≢ other
        → Maps.get other
            (handle_custom_message serde environment manager [] 5).0.handler.ignored_peers
          ≡ Maps.get other manager.handler.ignored_peers)
handle_custom_message-IsIgnored_iff_example =
    handle_custom_message-IsIgnored_iff serde environment manager [] 5

abbrev refusal : ResponseError
refusal = record { code = 1; message = []; extra = none }

-- An error as the response to the request 1.
abbrev error_payload : Text
error_payload = entries.put (error_entries serde (serde.text (1 ∷ [])) refusal) []

error_payload-IsResponse : IsResponse serde error_payload (1 ∷ [])
unfolding no_fields read_fields set_field
error_payload-IsResponse = record {
  fields = record {
    id = some (1 ∷ []);
    method = none;
    params = none;
    result = none;
    error = some refusal;
  };
  entries = error_entries serde (serde.text (1 ∷ [])) refusal;
  object = refl;
  read = refl;
  with_id = refl;
  no_method = refl;
}

second_response_ignores_peer_example :
    let w' = (handle_custom_message serde environment manager error_payload 5).0 in
    IsIgnored (handle_custom_message serde environment w' error_payload 6).0 6
unfolding Maps.get
second_response_ignores_peer_example =
    second_response_ignores_peer serde environment environment manager error_payload error_payload 5
      6 (1 ∷ []) refl error_payload-IsResponse error_payload-IsResponse
