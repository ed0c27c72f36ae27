-- ===== src/Lsps2/Service.antt =====
-- The state of `LSPS2ServiceHandler` of src/lsps2/service.rs, and its answers to the requests that
-- wait for the user of the library. The locks are taken one after the other within a call and are
-- not modelled: a call is one step.
pub mod Requests
pub mod Channels
pub mod Peers
pub mod Buy
pub mod Bought
pub mod Menu
pub mod Forward
pub mod Ready
pub mod Invoice
pub mod Flow
pub mod Refusal
pub mod Accepts
pub mod Stored
pub mod Kept
pub mod Settled
pub mod Run
pub mod Safe
use lightning_liquidity.Base.{ℕ, Bool, Option, none, some, List, [], map}
use lightning_liquidity.Base.Keys.{nat_eq, list_eq}
use lightning_liquidity.Base.Maps
use lightning_liquidity.Base.Maps.{Map}
use lightning_liquidity.Types.{PublicKey, ChannelId, RequestId}
use lightning_liquidity.Utils.Scid.{intercept_scid_from}
use lightning_liquidity.Lsps0.Ser.{unrecognized_or_stale_token}
use lightning_liquidity.Lsps2.Msgs.{
  Request, get_info, buy, Response, get_info_ok, get_info_error, buy_ok, BuyRequest,
  RawOpeningFeeParams, response, get_info_request_unrecognized_or_stale_token_error_code,
}
use lightning_liquidity.Lsps2.Promise.{Crypto, into_opening_fee_params}
use lightning_liquidity.Lsps2.JitChannel.Channel.{OutboundJitChannel, new_channel}
use lightning_liquidity.MessageQueue.{lsps2}
use lightning_liquidity.World.{
  World, Outcome, done, failed, ApiError, no_pending_get_info_request, no_pending_buy_request,
  no_state_for_counterparty, send,
}

pub record PeerState : Type 0 where
  pub outbound_channels_by_intercept_scid : Map ℕ OutboundJitChannel
  pub intercept_scid_by_user_channel_id : Map ℕ ℕ
  pub intercept_scid_by_channel_id : Map ChannelId ℕ
  pub pending_requests : Map RequestId Request

unfoldable pub new_peer : PeerState
new_peer = record {
  outbound_channels_by_intercept_scid = [];
  intercept_scid_by_user_channel_id = [];
  intercept_scid_by_channel_id = [];
  pending_requests = [];
}

pub record Service : Type 0 where
  pub promise_secret : List ℕ
  pub per_peer_state : Map PublicKey PeerState
  pub peer_by_intercept_scid : Map ℕ PublicKey
  pub peer_by_channel_id : Map ChannelId PublicKey

unfoldable pub new : List ℕ → Service
new promise_secret = record {
  promise_secret = promise_secret;
  per_peer_state = [];
  peer_by_intercept_scid = [];
  peer_by_channel_id = [];
}

abbrev pub peer : World Service → PublicKey → Option PeerState
peer w node = Maps.get node w.handler.per_peer_state

-- The peer's state after a call that mutated it.
abbrev pub set_peer : World Service → PublicKey → PeerState → World Service
set_peer w node p = record w {
  handler = record w.handler { per_peer_state = Maps.insert node p w.handler.per_peer_state };
}

-- `pending_requests.remove(&request_id)`.
abbrev pub without_request : PeerState → RequestId → PeerState
without_request p id = record p { pending_requests = Maps.remove id p.pending_requests }

-- A response is sent if the request that was removed was one for the fee parameters.
unfoldable pub answer_get_info :
    World Service
    → PublicKey
    → RequestId
    → Response
    → Option Request
    → World Service × Outcome ApiError
answer_get_info w node id answer (some (get_info _)) =
    (send w node (lsps2 (response id answer)), done)
answer_get_info w node id answer (some (buy _)) = (w, failed (no_pending_get_info_request id))
answer_get_info w node id answer none = (w, failed (no_pending_get_info_request id))

unfoldable pub invalid_token_provided :
    World Service → PublicKey → RequestId → World Service × Outcome ApiError
unfolding answer_get_info
invalid_token_provided w node id = elim (peer w node) [
  | none ↦ (w, failed (no_state_for_counterparty node))
  | some p ↦
      answer_get_info (set_peer w node (without_request p id)) node id
        (get_info_error (record {
          code = get_info_request_unrecognized_or_stale_token_error_code;
          message = unrecognized_or_stale_token;
          extra = none;
        }))
        (Maps.get id p.pending_requests)
]

unfoldable pub opening_fee_params_generated :
    Crypto
    → World Service
    → PublicKey
    → RequestId
    → List RawOpeningFeeParams
    → World Service × Outcome ApiError
unfolding answer_get_info
opening_fee_params_generated c w node id menu = elim (peer w node) [
  | none ↦ (w, failed (no_state_for_counterparty node))
  | some p ↦
      answer_get_info (set_peer w node (without_request p id)) node id
        (get_info_ok (record {
          opening_fee_params_menu =
              map (λ raw. into_opening_fee_params c raw w.handler.promise_secret) menu;
        }))
        (Maps.get id p.pending_requests)
]

-- The new channel of a buy request, under its intercept scid.
abbrev pub with_channel : PeerState → ℕ → ℕ → BuyRequest → PeerState
with_channel p scid user_channel_id request = record p {
  intercept_scid_by_user_channel_id =
      Maps.insert user_channel_id scid p.intercept_scid_by_user_channel_id;
  outbound_channels_by_intercept_scid =
      Maps.insert scid
        (new_channel request.payment_size_msat request.opening_fee_params user_channel_id)
        p.outbound_channels_by_intercept_scid;
}

abbrev pub index_scid : World Service → ℕ → PublicKey → World Service
index_scid w scid node = record w {
  handler = record w.handler {
    peer_by_intercept_scid = Maps.insert scid node w.handler.peer_by_intercept_scid;
  };
}

unfoldable pub answer_buy :
    World Service
    → PublicKey
    → PeerState
    → RequestId
    → ℕ
    → ℕ
    → Bool
    → ℕ
    → Option Request
    → World Service × Outcome ApiError
answer_buy w node p id scid cltv_expiry_delta client_trusts_lsp user_channel_id (some (buy r)) = (
  send (set_peer (index_scid w scid node) node (with_channel p scid user_channel_id r)) node (
      lsps2 (
        response id (
          buy_ok (record {
            intercept_scid = record { text = intercept_scid_from scid };
            lsp_cltv_expiry_delta = cltv_expiry_delta;
            client_trusts_lsp = client_trusts_lsp;
          })))),
  done,
)
answer_buy w node p id scid cltv_expiry_delta client_trusts_lsp user_channel_id
      (some (get_info _)) =
    (set_peer w node p, failed (no_pending_buy_request id))
answer_buy w node p id scid cltv_expiry_delta client_trusts_lsp user_channel_id none =
    (set_peer w node p, failed (no_pending_buy_request id))

unfoldable pub invoice_parameters_generated :
    World Service → PublicKey → RequestId → ℕ → ℕ → Bool → ℕ → World Service × Outcome ApiError
unfolding answer_buy
invoice_parameters_generated w node id scid cltv_expiry_delta client_trusts_lsp user_channel_id =
    elim (peer w node) [
      | none ↦ (w, failed (no_state_for_counterparty node))
      | some p ↦
          answer_buy w node (without_request p id) id scid cltv_expiry_delta client_trusts_lsp
            user_channel_id (Maps.get id p.pending_requests)
    ]
