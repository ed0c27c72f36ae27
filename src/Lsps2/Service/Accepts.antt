-- ===== src/Lsps2/Service/Accepts.antt =====
-- Which buy requests src/lsps2/service.rs accepts.
use lightning_liquidity.Base.{ℕ, ◌≤◌, ◌≡◌, ◌↔◌, refl, true, Option, some}
use lightning_liquidity.Types.{PublicKey, RequestId, pos}
use lightning_liquidity.Lsps2.Msgs.{BuyRequest, RawOpeningFeeParams}
use lightning_liquidity.Lsps2.Promise.{Crypto, into_opening_fee_params, is_valid_opening_fee_params}
use lightning_liquidity.Lsps2.Promise.Authentic.{is_valid-into}
use lightning_liquidity.World.{World, done, failed, panicked}
use lightning_liquidity.Lsps2.Service.{Service}
use lightning_liquidity.Lsps2.Service.Requests.{Handled, check_promise, handle_buy_request}
use lightning_liquidity.Lsps2.Service.Buy.{
  SizeAllowed, SizeAllowed-check_size, BuyHandled, handle_buy_request-BuyHandled,
}

abbrev IsAcceptable : Crypto → ℕ → World Service → BuyRequest → Type 0
IsAcceptable c now w r =
    SizeAllowed r.opening_fee_params r.payment_size_msat
    × (is_valid_opening_fee_params c now r.opening_fee_params w.handler.promise_secret ≡ some true)

done-IsAcceptable :
    (c : Crypto) (now : ℕ) (w : World Service) (id : RequestId) (node : PublicKey) (r : BuyRequest)
    (h : Handled)
    → BuyHandled c now w id node r h
    → h.1 ≡ done
    → IsAcceptable c now w r
done-IsAcceptable c now w id node r (w', done) b e = (b.0, b.1)
done-IsAcceptable c now w id node r (w', failed f) b e = cc
done-IsAcceptable c now w id node r (w', panicked) b e = cc

-- A buy request is accepted exactly if its payment size, when known, is within the limits and above
-- the opening fee, and its fee parameters are valid.
pub handle_buy_request-eq-done_iff :
    (c : Crypto) (now : ℕ) (w : World Service) (id : RequestId) (node : PublicKey) (r : BuyRequest)
    → ((handle_buy_request c now w id node r).1 ≡ done) ↔ (
        SizeAllowed r.opening_fee_params r.payment_size_msat
        × (is_valid_opening_fee_params c now r.opening_fee_params w.handler.promise_secret
            ≡ some true))
unfolding handle_buy_request check_promise
handle_buy_request-eq-done_iff c now w id node r = (
  done-IsAcceptable c now w id node r _ (handle_buy_request-BuyHandled c now w id node r),
  λ both.
      rw
        (
          SizeAllowed-check_size r.opening_fee_params r.payment_size_msat both.0,
          handle_buy_request,
          both.1,
          check_promise,
        )
        refl,
)

-- Fee parameters that the service gave out, with a time that is not before 1970, are accepted in a
-- buy request until this time has passed, whatever has happened in between, as long as the promise
-- secret is the same, and the payment size, when it is known, is within the limits and above the
-- opening fee.
pub offered_params_are_accepted :
    (c : Crypto) (now expiry : ℕ) (w : World Service) (id : RequestId) (node : PublicKey)
    (raw : RawOpeningFeeParams) (size : Option ℕ)
    → c.timestamp raw.valid_until ≡ pos expiry
    → now ≤ expiry
    → SizeAllowed (into_opening_fee_params c raw w.handler.promise_secret) size
    → (handle_buy_request c now w id node (record {
      opening_fee_params = into_opening_fee_params c raw w.handler.promise_secret;
      payment_size_msat = size;
    })).1
      ≡ done
offered_params_are_accepted c now expiry w id node raw size t h s =
    (handle_buy_request-eq-done_iff c now w id node _).1
      (s, is_valid-into c now expiry raw w.handler.promise_secret t h)
