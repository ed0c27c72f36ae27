-- ===== src/Lsps2/Service/Requests.antt =====
-- The requests of a client to `LSPS2ServiceHandler` of src/lsps2/service.rs.
use lightning_liquidity.Base.{ℕ, Bool, true, false, Option, none, some, ltb, leb, if◌then◌else◌}
use lightning_liquidity.Base.Keys.{nat_eq, list_eq}
use lightning_liquidity.Base.Maps
use lightning_liquidity.Types.{PublicKey, RequestId, Text}
use lightning_liquidity.Lsps0.Ser.{
  payment_size_below_minimum, payment_size_above_maximum, payment_size_too_small_for_fee,
  opening_fee_overflow, invalid_opening_fee_params, expired_or_promise_mismatch,
}
use lightning_liquidity.Lsps2.Msgs.{
  GetInfoRequest, BuyRequest, OpeningFeeParams, Request, get_info, buy, buy_error, Message, request,
  response, buy_request_invalid_opening_fee_params_error_code,
  buy_request_payment_size_too_small_error_code, buy_request_payment_size_too_large_error_code,
}
use lightning_liquidity.Lsps2.Fee.{compute_opening_fee}
use lightning_liquidity.Lsps2.Promise.{Crypto, is_valid_opening_fee_params}
use lightning_liquidity.Lsps2.Event
use lightning_liquidity.Events.{lsps2_service}
use lightning_liquidity.MessageQueue.{lsps2}
use lightning_liquidity.World.{
  World, Outcome, done, failed, panicked, LightningError, refused, unexpected_message, send, emit,
}
use lightning_liquidity.Lsps2.Service.{PeerState, Service, new_peer, peer, set_peer}

abbrev pub Handled : Type 0
Handled = World Service × Outcome LightningError

-- `entry(node).or_insert(Mutex::new(PeerState::new()))`.
abbrev pub entry_of : Option PeerState → PeerState
entry_of none = new_peer
entry_of (some p) = p

abbrev pub store_request : World Service → PublicKey → RequestId → Request → World Service
store_request w node id r =
    let p = entry_of (peer w node) in
    set_peer w node (record p { pending_requests = Maps.insert id r p.pending_requests })

unfoldable pub handle_get_info_request :
    World Service → RequestId → PublicKey → GetInfoRequest → Handled
unfolding new_peer
handle_get_info_request w id node params = (
  emit (store_request w node id (get_info params))
      (lsps2_service (Event.get_info id node params.token)),
  done,
)

-- What a request is refused with: the code and the message of the response, and the error that is
-- returned.
pub record Refusal : Type 0 where
  pub code : ℕ
  pub message : Text
  pub error : Text

-- The checks on a payment of a known size, in the code's order.
unfoldable pub check_payment_size : OpeningFeeParams → ℕ → Option Refusal
check_payment_size params size =
    if ltb size params.min_payment_size_msat
    then some (record {
      code = buy_request_payment_size_too_small_error_code;
      message = payment_size_below_minimum;
      error = payment_size_below_minimum;
    })
    else if ltb params.max_payment_size_msat size
    then some (record {
      code = buy_request_payment_size_too_large_error_code;
      message = payment_size_above_maximum;
      error = payment_size_above_maximum;
    })
    else elim (compute_opening_fee size params.min_fee_msat params.proportional) [
      | none ↦ some (record {
        code = buy_request_payment_size_too_large_error_code;
        message = opening_fee_overflow;
        error = opening_fee_overflow;
      })
      | some opening_fee ↦
          if leb size opening_fee
          then some (record {
            code = buy_request_payment_size_too_small_error_code;
            message = payment_size_too_small_for_fee;
            error = payment_size_too_small_for_fee;
          })
          else none
    ]

unfoldable pub check_size : OpeningFeeParams → Option ℕ → Option Refusal
unfolding check_payment_size
check_size params none = none
check_size params (some size) = check_payment_size params size

-- A refusal is sent to the client and returned.
unfoldable pub refuse : World Service → RequestId → PublicKey → Refusal → Handled
refuse w id node r = (
  send w node (
      lsps2
        (response id (buy_error (record { code = r.code; message = r.message; extra = none })))),
  failed (refused r.error),
)

unfoldable pub accept_buy : World Service → RequestId → PublicKey → BuyRequest → Handled
unfolding new_peer
accept_buy w id node params = (
  emit (store_request w node id (buy params)) (
      lsps2_service (Event.buy_request id node params.opening_fee_params params.payment_size_msat)),
  done,
)

unfoldable pub check_promise :
    World Service → RequestId → PublicKey → BuyRequest → Option Bool → Handled
unfolding refuse accept_buy
check_promise w id node params none = (w, panicked)
check_promise w id node params (some false) = refuse w id node (record {
  code = buy_request_invalid_opening_fee_params_error_code;
  message = expired_or_promise_mismatch;
  error = invalid_opening_fee_params;
})
check_promise w id node params (some true) = accept_buy w id node params

unfoldable pub handle_buy_request :
    Crypto → ℕ → World Service → RequestId → PublicKey → BuyRequest → Handled
unfolding check_size refuse check_promise
handle_buy_request c now w id node params =
    elim (check_size params.opening_fee_params params.payment_size_msat) [
      | some r ↦ refuse w id node r
      | none ↦
          check_promise w id node params
            (is_valid_opening_fee_params c now params.opening_fee_params w.handler.promise_secret)
    ]

unfoldable pub handle_message : Crypto → ℕ → World Service → Message → PublicKey → Handled
unfolding handle_get_info_request handle_buy_request
handle_message c now w (request id (get_info params)) node =
    handle_get_info_request w id node params
handle_message c now w (request id (buy params)) node = handle_buy_request c now w id node params
handle_message c now w (response id r) node = (w, failed (unexpected_message node))
