-- ===== src/Lsps2/Service/Bought.antt =====
-- The just-in-time channel of an accepted buy request of src/lsps2/service.rs.
use lightning_liquidity.Base.{ℕ, ◌-◌, ◌≤◌, ◌<◌, ◌≡◌, Option, none, some, arith, subst}
use lightning_liquidity.Base.Results.{ok}
use lightning_liquidity.Types.{PublicKey, RequestId}
use lightning_liquidity.Lsps2.Msgs.{BuyRequest, OpeningFeeParams}
use lightning_liquidity.Lsps2.Fee.{compute_opening_fee}
use lightning_liquidity.Lsps2.Promise.{Crypto}
use lightning_liquidity.Lsps2.PaymentQueue.{InterceptedHtlc, PaymentQueue, add_htlc}
use lightning_liquidity.Lsps2.JitChannel.{
  pending_initial_payment, pending_channel_open, HtlcInterceptedAction, open_channel,
  htlc_intercepted, initial_payment, expected_size, check_limits, fee_or_error, open_or_wait,
  Transition,
}
use lightning_liquidity.World.{World, done}
use lightning_liquidity.Lsps2.Service.{Service}
use lightning_liquidity.Lsps2.Service.Requests.{handle_buy_request}
use lightning_liquidity.Lsps2.Service.Buy.{SizeAllowed, BuyHandled, handle_buy_request-BuyHandled}

-- The channel opens for `fee` and forwards the rest, or goes on waiting.
abbrev pub OpensFor : PaymentQueue → ℕ → ℕ → ℕ → Transition (Option HtlcInterceptedAction) → Type 0
OpensFor q arrived size fee t =
    (size ≤ arrived
      → t.1
        ≡ ok (
          pending_channel_open q fee,
          some (open_channel (record { opening_fee_msat = fee; amt_to_forward_msat = size - fee })),
        ))
    × (arrived < size → t.1 ≡ ok (pending_initial_payment q, none))

allowed_size_opens :
    (params : OpeningFeeParams) (size fee arrived num : ℕ) (q : PaymentQueue)
    → params.min_payment_size_msat ≤ size
    → size ≤ params.max_payment_size_msat
    → compute_opening_fee size params.min_fee_msat params.proportional ≡ some fee
    → fee < size
    → (size ≤ arrived
        → initial_payment params (some size) q arrived num
          ≡ ok (
            pending_channel_open q fee,
            some (
                open_channel (record { opening_fee_msat = fee; amt_to_forward_msat = size - fee })),
          ))
      × (arrived < size
          → initial_payment params (some size) q arrived num ≡ ok (pending_initial_payment q, none))
unfolding initial_payment expected_size check_limits fee_or_error open_or_wait
allowed_size_opens params size fee arrived num q low high computed covered =
    (λ h. ground arith, λ h. ground arith)

bought_size_opens :
    (params : OpeningFeeParams) (size : ℕ) (q : PaymentQueue) (x : InterceptedHtlc)
    → SizeAllowed params (some size)
    → (fee : ℕ) × (compute_opening_fee size params.min_fee_msat params.proportional ≡ some fee)
      × (fee < size)
      × OpensFor
          (add_htlc q x).0
          (add_htlc q x).1.0
          size
          fee
          (htlc_intercepted params (some size) (pending_initial_payment q) x)
unfolding htlc_intercepted
bought_size_opens params size q x (low, high, fee, computed, covered) = (
  fee,
  computed,
  covered,
  allowed_size_opens params size fee (add_htlc q x).1.0 (add_htlc q x).1.1 (add_htlc q x).0 low high
      computed covered,
)

-- Once a buy request for a known payment size has been accepted, a channel with its parameters
-- never refuses an HTLC while it awaits the payment: it opens, for the opening fee and the rest of
-- the payment, when the payment that the HTLC belongs to has reached the size, and waits before.
pub accepted_buy_opens :
    (c : Crypto) (now : ℕ) (w w' : World Service) (id : RequestId) (node : PublicKey)
    (r : BuyRequest) (size : ℕ) (q : PaymentQueue) (x : InterceptedHtlc)
    → handle_buy_request c now w id node r ≡ (w', done)
    → r.payment_size_msat ≡ some size
    → (fee : ℕ) × (compute_opening_fee size r.opening_fee_params.min_fee_msat
          r.opening_fee_params.proportional
        ≡ some fee)
      × (fee < size)
      × OpensFor
          (add_htlc q x).0
          (add_htlc q x).1.0
          size
          fee
          (htlc_intercepted r.opening_fee_params r.payment_size_msat (pending_initial_payment q) x)
accepted_buy_opens c now w w' id node r size q x h e = rw e (
    bought_size_opens r.opening_fee_params size q x
      (subst (SizeAllowed r.opening_fee_params) e handled.0))
  where
    handled : BuyHandled c now w id node r (w', done)
    handled =
        subst (BuyHandled c now w id node r) h (handle_buy_request-BuyHandled c now w id node r)
