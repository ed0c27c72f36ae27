-- ===== src/Lsps2/Service/Menu.antt =====
-- How `LSPS2ServiceHandler` of src/lsps2/service.rs answers requests for the fee parameters.
use lightning_liquidity.Base.{
  ◌≡◌, ◌≢◌, refl, ap, ◌∙◌, Option, none, some, List, [], ◌∷◌, ◌++◌, map, Option-cases, inl, inr,
}
use lightning_liquidity.Base.Keys.{nat_eq, list_eq}
use lightning_liquidity.Base.Maps
use lightning_liquidity.Base.Maps.{get-remove_self}
use lightning_liquidity.Types.{PublicKey, RequestId}
use lightning_liquidity.Lsps0.Ser.{unrecognized_or_stale_token}
use lightning_liquidity.Lsps2.Msgs.{
  Request, get_info, buy, Response, get_info_ok, get_info_error,
  get_info_request_unrecognized_or_stale_token_error_code, response, RawOpeningFeeParams,
}
use lightning_liquidity.Lsps2.Promise.{Crypto, into_opening_fee_params}
use lightning_liquidity.MessageQueue
use lightning_liquidity.MessageQueue.{lsps2}
use lightning_liquidity.World.{World, Outcome, done, ApiError}
use lightning_liquidity.Lsps2.Service.{
  PeerState, Service, peer, set_peer, without_request, answer_get_info,
  opening_fee_params_generated, invalid_token_provided,
}
use lightning_liquidity.Lsps2.Service.Peers.{waiting, request_of, waiting-set_peer}
use lightning_liquidity.Lsps2.Service.Buy.{messages}

-- How an answer to a request for the fee parameters ends: it is sent, once, if such a request
-- waits; and whatever waited under the id, also a request of another kind, waits no more.
abbrev pub GetInfoAnswered :
    World Service
    → PublicKey
    → RequestId
    → Response
    → Option Request
    → World Service × Outcome ApiError
    → Type 0
GetInfoAnswered w node id answer (some (get_info r)) (w', outcome) =
    (outcome ≡ done)
    × (messages w' ≡ messages w ++ (node, lsps2 (response id answer)) ∷ [])
    × (waiting w' node id ≡ none)
GetInfoAnswered w node id answer _ (w', outcome) =
    (outcome ≢ done) × (messages w' ≡ messages w) × (waiting w' node id ≡ none)

waiting-without_request :
    (w : World Service) (node : PublicKey) (p : PeerState) (id : RequestId)
    → waiting (set_peer w node (without_request p id)) node id ≡ none
waiting-without_request w node p id =
    waiting-set_peer w node (without_request p id) id ∙ get-remove_self id p.pending_requests

answer_get_info-GetInfoAnswered :
    (w : World Service) (node : PublicKey) (p : PeerState) (id : RequestId) (answer : Response)
    (taken : Option Request)
    → GetInfoAnswered w node id answer taken
        (answer_get_info (set_peer w node (without_request p id)) node id answer taken)
unfolding answer_get_info MessageQueue.enqueue
answer_get_info-GetInfoAnswered w node p id answer (some (get_info r)) =
    (refl, refl, waiting-without_request w node p id)
answer_get_info-GetInfoAnswered w node p id answer (some (buy r)) =
    (λ e. cc, refl, waiting-without_request w node p id)
answer_get_info-GetInfoAnswered w node p id answer none =
    (λ e. cc, refl, waiting-without_request w node p id)

abbrev pub menu_of : Crypto → World Service → List RawOpeningFeeParams → Response
menu_of c w menu = get_info_ok (record {
  opening_fee_params_menu =
      map (λ raw. into_opening_fee_params c raw w.handler.promise_secret) menu;
})

-- The menu of fee parameters is sent exactly if a request for it waits under the id, and nothing
-- waits under the id afterwards, whatever was there.
pub opening_fee_params_generated-GetInfoAnswered :
    (c : Crypto) (w : World Service) (node : PublicKey) (id : RequestId)
    (menu : List RawOpeningFeeParams)
    → GetInfoAnswered w node id
        (menu_of c w menu)
        (waiting w node id)
        (opening_fee_params_generated c w node id menu)
unfolding opening_fee_params_generated
opening_fee_params_generated-GetInfoAnswered c w node id menu = elim (Option-cases (peer w node)) [
  | inl e ↦
      rw (e, opening_fee_params_generated)
        (λ f. cc, refl, ap (λ (o : Option PeerState). request_of o id) e)
  | inr (p, e) ↦
      rw (e, opening_fee_params_generated)
        (answer_get_info-GetInfoAnswered w node p id (menu_of c w menu)
          (Maps.get id p.pending_requests))
]

abbrev pub invalid_token : Response
invalid_token = get_info_error (record {
  code = get_info_request_unrecognized_or_stale_token_error_code;
  message = unrecognized_or_stale_token;
  extra = none;
})

-- The error of an invalid token is sent exactly if a request for the fee parameters waits under the
-- id, and nothing waits under the id afterwards, whatever was there.
pub invalid_token_provided-GetInfoAnswered :
    (w : World Service) (node : PublicKey) (id : RequestId)
    → GetInfoAnswered w node id invalid_token (waiting w node id) (invalid_token_provided w node id)
unfolding invalid_token_provided
invalid_token_provided-GetInfoAnswered w node id = elim (Option-cases (peer w node)) [
  | inl e ↦
      rw (e, invalid_token_provided)
        (λ f. cc, refl, ap (λ (o : Option PeerState). request_of o id) e)
  | inr (p, e) ↦
      rw (e, invalid_token_provided)
        (answer_get_info-GetInfoAnswered w node p id invalid_token (Maps.get id p.pending_requests))
]
