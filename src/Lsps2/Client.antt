-- ===== src/Lsps2/Client.antt =====
-- `LSPS2ClientHandler` of src/lsps2/client.rs. The random bytes of the entropy source are an
-- argument of the calls that draw them.
pub mod Requests
use lightning_liquidity.Base.{
  ℕ, Bool, true, false, ◌||◌, Option, none, some, List, [], ◌∷◌, if◌then◌else◌,
}
use lightning_liquidity.Base.Keys.{nat_eq, list_eq, list_beq}
use lightning_liquidity.Base.Maps
use lightning_liquidity.Base.Maps.{Map}
use lightning_liquidity.Types.{PublicKey, RequestId, Text}
use lightning_liquidity.Utils.{generate_request_id}
use lightning_liquidity.Utils.Scid.{to_scid}
use lightning_liquidity.Lsps0.Ser.{ResponseError}
use lightning_liquidity.Lsps2.Msgs.{
  GetInfoRequest, GetInfoResponse, BuyRequest, BuyResponse, OpeningFeeParams, Request, get_info,
  buy, Response, get_info_ok, get_info_error, buy_ok, buy_error, Message, request, response,
}
use lightning_liquidity.Lsps2.Event
use lightning_liquidity.Events.{lsps2_client}
use lightning_liquidity.MessageQueue.{lsps2}
use lightning_liquidity.World.{
  World, Outcome, done, failed, panicked, ApiError, duplicate_request_id, LightningError,
  unexpected_message, unknown_get_info_response, unknown_get_info_error, unknown_buy_response,
  unknown_buy_error, invalid_intercept_scid, get_info_response_from_unknown_peer,
  get_info_error_from_unknown_peer, buy_response_from_unknown_peer, buy_error_from_unknown_peer,
  send, emit,
}

pub record InboundJitChannel : Type 0 where
  pub payment_size_msat : Option ℕ

-- A `HashSet` is a map to nothing.
pub record PeerState : Type 0 where
  pub pending_get_info_requests : Map RequestId (Unit {0})
  pub pending_buy_requests : Map RequestId InboundJitChannel

unfoldable pub new_peer : PeerState
new_peer = record { pending_get_info_requests = []; pending_buy_requests = [] }

pub record Client : Type 0 where
  pub per_peer_state : Map PublicKey PeerState

unfoldable pub new : Client
new = record { per_peer_state = [] }

abbrev pub peer : World Client → PublicKey → Option PeerState
peer w node = Maps.get node w.handler.per_peer_state

abbrev pub set_peer : World Client → PublicKey → PeerState → World Client
set_peer w node p = record w {
  handler = record { per_peer_state = Maps.insert node p w.handler.per_peer_state };
}

-- `entry(node).or_insert(Mutex::new(PeerState::new()))`.
abbrev pub entry_of : Option PeerState → PeerState
unfolding new_peer
entry_of none = new_peer
entry_of (some p) = p

abbrev pub with_get_info : PeerState → RequestId → PeerState
with_get_info p id = record p {
  pending_get_info_requests = Maps.insert id tt p.pending_get_info_requests;
}

abbrev pub without_get_info : PeerState → RequestId → PeerState
without_get_info p id = record p {
  pending_get_info_requests = Maps.remove id p.pending_get_info_requests;
}

abbrev pub with_buy : PeerState → RequestId → Option ℕ → PeerState
with_buy p id payment_size_msat = record p {
  pending_buy_requests =
      Maps.insert id (record { payment_size_msat = payment_size_msat }) p.pending_buy_requests;
}

abbrev pub without_buy : PeerState → RequestId → PeerState
without_buy p id = record p { pending_buy_requests = Maps.remove id p.pending_buy_requests }

unfoldable pub request_opening_params :
    List ℕ → World Client → PublicKey → Option Text → World Client × RequestId
unfolding generate_request_id
request_opening_params bytes w node token =
    let id = generate_request_id bytes in
    let p = entry_of (peer w node) in
    (
      send (set_peer w node (with_get_info p id)) node
          (lsps2 (request id (get_info (record { token = token })))),
      id,
    )

-- The new channel has replaced the old one also when the id was not new.
unfoldable pub select_opening_params :
    List ℕ
    → World Client
    → PublicKey
    → Option ℕ
    → OpeningFeeParams
    → World Client × (Outcome ApiError × RequestId)
unfolding generate_request_id
select_opening_params bytes w node payment_size_msat params =
    let id = generate_request_id bytes in
    let p = entry_of (peer w node) in
    let w' = set_peer w node (with_buy p id payment_size_msat) in
    elim (Maps.get id p.pending_buy_requests) [
      | some _ ↦ (w', (failed duplicate_request_id, id))
      | none ↦ (
        send w' node (
            lsps2 (
              request id (
                buy (record {
                  opening_fee_params = params;
                  payment_size_msat = payment_size_msat;
                })))),
        (done, id),
      )
    ]

abbrev pub Handled : Type 0
Handled = World Client × Outcome LightningError

unfoldable pub handle_get_info_response :
    World Client → RequestId → PublicKey → GetInfoResponse → Handled
handle_get_info_response w id node result = elim (peer w node) [
  | none ↦ (w, failed (get_info_response_from_unknown_peer node))
  | some p ↦ elim (Maps.get id p.pending_get_info_requests) [
    | none ↦ (w, failed (unknown_get_info_response id))
    | some _ ↦ (
      emit (set_peer w node (without_get_info p id))
          (lsps2_client (Event.opening_parameters_ready id node result.opening_fee_params_menu)),
      done,
    )
  ]
]

unfoldable pub handle_get_info_error :
    World Client → RequestId → PublicKey → ResponseError → Handled
handle_get_info_error w id node error = elim (peer w node) [
  | none ↦ (w, failed (get_info_error_from_unknown_peer node))
  | some p ↦ elim (Maps.get id p.pending_get_info_requests) [
    | none ↦ (w, failed (unknown_get_info_error id))
    | some _ ↦ (set_peer w node (without_get_info p id), done)
  ]
]

-- The request is gone also when the scid is invalid.
unfoldable pub announce_invoice :
    World Client → RequestId → PublicKey → BuyResponse → InboundJitChannel → Option ℕ → Handled
announce_invoice w id node result c none =
    (w, failed (invalid_intercept_scid result.intercept_scid.text))
announce_invoice w id node result c (some intercept_scid) = (
  emit w (
      lsps2_client (
        Event.invoice_parameters_ready id node intercept_scid result.lsp_cltv_expiry_delta
          c.payment_size_msat)),
  done,
)

unfoldable pub handle_buy_response : World Client → RequestId → PublicKey → BuyResponse → Handled
unfolding announce_invoice
handle_buy_response w id node result = elim (peer w node) [
  | none ↦ (w, failed (buy_response_from_unknown_peer node))
  | some p ↦ elim (Maps.get id p.pending_buy_requests) [
    | none ↦ (w, failed (unknown_buy_response id))
    | some c ↦
        announce_invoice (set_peer w node (without_buy p id)) id node result c
          (to_scid result.intercept_scid.text)
  ]
]

unfoldable pub handle_buy_error : World Client → RequestId → PublicKey → ResponseError → Handled
handle_buy_error w id node error = elim (peer w node) [
  | none ↦ (w, failed (buy_error_from_unknown_peer node))
  | some p ↦ elim (Maps.get id p.pending_buy_requests) [
    | none ↦ (w, failed (unknown_buy_error id))
    | some _ ↦ (set_peer w node (without_buy p id), done)
  ]
]

unfoldable pub handle_message : World Client → Message → PublicKey → Handled
unfolding handle_get_info_response handle_get_info_error handle_buy_response handle_buy_error
handle_message w (response id (get_info_ok result)) node = handle_get_info_response w id node result
handle_message w (response id (get_info_error e)) node = handle_get_info_error w id node e
handle_message w (response id (buy_ok result)) node = handle_buy_response w id node result
handle_message w (response id (buy_error e)) node = handle_buy_error w id node e
handle_message w (request id r) node = (w, failed (unexpected_message node))
