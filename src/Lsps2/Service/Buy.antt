-- ===== src/Lsps2/Service/Buy.antt =====
-- Which buy requests `LSPS2ServiceHandler` of src/lsps2/service.rs accepts, and what an accepted
-- one is good for.
use lightning_liquidity.Base.{
  ℕ, ◌≤◌, ◌<◌, ◌≡◌, refl, Bool, true, false, Option, none, some, List, [], ◌∷◌, ◌++◌, arith, inl,
  inr, Option-cases,
}
use lightning_liquidity.Base.Keys.{nat_eq, list_eq}
use lightning_liquidity.Types.{PublicKey, RequestId}
use lightning_liquidity.Lsps0.Ser.{
  ResponseError, expired_or_promise_mismatch, invalid_opening_fee_params,
}
use lightning_liquidity.Lsps2.Msgs.{
  BuyRequest, OpeningFeeParams, buy, buy_error, response,
  buy_request_invalid_opening_fee_params_error_code,
}
use lightning_liquidity.Lsps2.Fee.{compute_opening_fee}
use lightning_liquidity.Lsps2.Promise.{Crypto, is_valid_opening_fee_params}
use lightning_liquidity.Lsps2.Event
use lightning_liquidity.Events
use lightning_liquidity.Events.{lsps2_service}
use lightning_liquidity.MessageQueue
use lightning_liquidity.MessageQueue.{lsps2}
use lightning_liquidity.World.{World, done, failed, panicked, emit}
use lightning_liquidity.Lsps2.Service.{Service}
use lightning_liquidity.Lsps2.Service.Peers.{waiting, waiting-store_request}
use lightning_liquidity.Lsps2.Service.Requests.{
  Handled, store_request, check_size, refuse, Refusal, accept_buy, check_promise,
  handle_buy_request,
}

-- A payment of a known size is within the limits, and more than its opening fee.
abbrev pub SizeAllowed : OpeningFeeParams → Option ℕ → Type 0
SizeAllowed params none = Unit
SizeAllowed params (some size) =
    (params.min_payment_size_msat ≤ size)
    × (size ≤ params.max_payment_size_msat)
    × (fee : ℕ) × (compute_opening_fee size params.min_fee_msat params.proportional ≡ some fee)
    × (fee < size)

pub check_size-SizeAllowed :
    (params : OpeningFeeParams) (size : Option ℕ)
    → check_size params size ≡ none
    → SizeAllowed params size
unfolding check_size
check_size-SizeAllowed params none h = tt
check_size-SizeAllowed params (some size) h =
    elim (Option-cases (compute_opening_fee size params.min_fee_msat params.proportional)) [
      | inl e ↦ absurd (ground arith)
      | inr (fee, e) ↦ (ground arith, ground arith, fee, e, ground arith)
    ]

pub SizeAllowed-check_size :
    (params : OpeningFeeParams) (size : Option ℕ)
    → SizeAllowed params size
    → check_size params size ≡ none
unfolding check_size
SizeAllowed-check_size params none h = refl
SizeAllowed-check_size params (some size) h = ground arith

abbrev pub messages : World Service → List (PublicKey × MessageQueue.LspsMessage)
messages w = w.pending_messages.queue

abbrev pub events : World Service → List Events.Event
events w = w.pending_events.queue

-- An accepted request waits for an answer and is announced by one event; a refused one is answered
-- by one error and changes nothing else.
abbrev pub BuyHandled :
    Crypto → ℕ → World Service → RequestId → PublicKey → BuyRequest → Handled → Type 0
BuyHandled c now w id node r (w', done) =
    SizeAllowed r.opening_fee_params r.payment_size_msat
    × (is_valid_opening_fee_params c now r.opening_fee_params w.handler.promise_secret ≡ some true)
    × (waiting w' node id ≡ some (buy r))
    × (messages w' ≡ messages w)
    × (events w'
        ≡ events w
          ++ lsps2_service (Event.buy_request id node r.opening_fee_params r.payment_size_msat)
            ∷ [])
BuyHandled c now w id node r (w', failed e) =
    (error : ResponseError) × (messages w'
      ≡ messages w ++ (node, lsps2 (response id (buy_error error))) ∷ [])
    × (w'.handler ≡ w.handler)
    × (events w' ≡ events w)
BuyHandled c now w id node r (w', panicked) =
    (w' ≡ w)
    × (is_valid_opening_fee_params c now r.opening_fee_params w.handler.promise_secret ≡ none)

pub events-emit : (w : World Service) (e : Events.Event) → events (emit w e) ≡ events w ++ e ∷ []
unfolding Events.enqueue
events-emit w e = ground arith

refuse-BuyHandled :
    (c : Crypto) (now : ℕ) (w : World Service) (id : RequestId) (node : PublicKey) (r : BuyRequest)
    (why : Refusal)
    → BuyHandled c now w id node r (refuse w id node why)
unfolding refuse MessageQueue.enqueue
refuse-BuyHandled c now w id node r why = (_, refl, refl, refl)

accept_buy-BuyHandled :
    (c : Crypto) (now : ℕ) (w : World Service) (id : RequestId) (node : PublicKey) (r : BuyRequest)
    → SizeAllowed r.opening_fee_params r.payment_size_msat
    → is_valid_opening_fee_params c now r.opening_fee_params w.handler.promise_secret ≡ some true
    → BuyHandled c now w id node r (accept_buy w id node r)
unfolding accept_buy
accept_buy-BuyHandled c now w id node r s v = (
  s,
  v,
  waiting-store_request w node id (buy r),
  refl,
  events-emit (store_request w node id (buy r)) _,
)

check_promise-BuyHandled :
    (c : Crypto) (now : ℕ) (w : World Service) (id : RequestId) (node : PublicKey) (r : BuyRequest)
    (valid : Option Bool)
    → is_valid_opening_fee_params c now r.opening_fee_params w.handler.promise_secret ≡ valid
    → SizeAllowed r.opening_fee_params r.payment_size_msat
    → BuyHandled c now w id node r (check_promise w id node r valid)
unfolding check_promise
check_promise-BuyHandled c now w id node r none e s = (refl, e)
check_promise-BuyHandled c now w id node r (some false) e s =
    refuse-BuyHandled c now w id node r (record {
      code = buy_request_invalid_opening_fee_params_error_code;
      message = expired_or_promise_mismatch;
      error = invalid_opening_fee_params;
    })
check_promise-BuyHandled c now w id node r (some true) e s =
    accept_buy-BuyHandled c now w id node r s e

-- A buy request is accepted only if its payment size, when known, is within the limits and above
-- the opening fee, and the fee parameters are valid; it then waits for an answer and is announced
-- by one event. A request that is refused is answered by one error message and changes nothing
-- else. The code panics only where the check of the parameters does.
pub handle_buy_request-BuyHandled :
    (c : Crypto) (now : ℕ) (w : World Service) (id : RequestId) (node : PublicKey) (r : BuyRequest)
    → BuyHandled c now w id node r (handle_buy_request c now w id node r)
unfolding handle_buy_request
handle_buy_request-BuyHandled c now w id node r =
    elim (Option-cases (check_size r.opening_fee_params r.payment_size_msat)) [
      | inl e ↦
          rw (e, handle_buy_request)
            (check_promise-BuyHandled c now w id node r _ refl
              (check_size-SizeAllowed r.opening_fee_params r.payment_size_msat e))
      | inr (why, e) ↦ rw (e, handle_buy_request) (refuse-BuyHandled c now w id node r why)
    ]
