-- ===== src/Lsps2/Tests/Requests.antt =====
-- The theorems on the requests and the promise of src/lsps2 at concrete inputs.
use lightning_liquidity.Base.{ℕ, ◌<◌, ◌≡◌, ◌↔◌, refl, ap, true, none, some, [], ◌∷◌, ◌++◌, arith}
use lightning_liquidity.Lsps2.Fee.{compute_opening_fee}
use lightning_liquidity.Lsps2.Msgs.{BuyRequest, OpeningFeeParams}
use lightning_liquidity.Lsps2.PaymentQueue.{add_htlc}
use lightning_liquidity.Lsps2.JitChannel.{pending_initial_payment, htlc_intercepted}
use lightning_liquidity.Lsps2.Promise.{into_opening_fee_params, is_valid_opening_fee_params}
use lightning_liquidity.Lsps2.Promise.Input.{InRange}
use lightning_liquidity.Lsps2.Promise.Authentic.{raw_of, promise_binds, is_valid-into}
use lightning_liquidity.World.{World, done}
use lightning_liquidity.Lsps2.Service.{
  Service, opening_fee_params_generated, invoice_parameters_generated,
}
use lightning_liquidity.Lsps2.Service.Peers.{waiting}
use lightning_liquidity.Lsps2.Service.Requests.{handle_buy_request}
use lightning_liquidity.Lsps2.Service.Buy.{SizeAllowed, BuyHandled, handle_buy_request-BuyHandled}
use lightning_liquidity.Lsps2.Service.Channels
use lightning_liquidity.Lsps2.Service.Flow.{AsksToOpen, bought_channel_opens}
use lightning_liquidity.Lsps2.Service.Invoice.{
  invoice, BuyAnswered, invoice_parameters_generated-BuyAnswered,
}
use lightning_liquidity.Lsps2.Service.Accepts.{
  handle_buy_request-eq-done_iff, offered_params_are_accepted,
}
use lightning_liquidity.Lsps2.Service.Bought.{OpensFor, accepted_buy_opens}
use lightning_liquidity.Lsps2.Service.Menu.{
  GetInfoAnswered, menu_of, opening_fee_params_generated-GetInfoAnswered,
}
use lightning_liquidity.Lsps2.Tests.Data.{
  toy_crypto, toy_hmac-IsBytes, secret, raw_params, htlc, one_payment, world,
}

abbrev offered : OpeningFeeParams
offered = into_opening_fee_params toy_crypto raw_params world.handler.promise_secret

abbrev buy_offered : BuyRequest
buy_offered = record { opening_fee_params = offered; payment_size_msat = some 9000 }

raw_params-InRange : InRange raw_params
raw_params-InRange = record {
  min_fee = omega arith;
  share = omega arith;
  lifetime = omega arith;
  delay = omega arith;
  min_size = omega arith;
  max_size = omega arith;
}

size_9000-SizeAllowed : SizeAllowed offered (some 9000)
unfolding into_opening_fee_params compute_opening_fee
size_9000-SizeAllowed = (omega arith, omega arith, 100, refl, omega arith)

promise_binds_example : raw_of offered ≡ raw_params
unfolding into_opening_fee_params
promise_binds_example =
    promise_binds toy_crypto 150 raw_params offered secret (λ m. toy_hmac-IsBytes (secret ++ m))
      (λ _. refl) (λ _. refl) raw_params-InRange raw_params-InRange refl
      (is_valid-into toy_crypto 150 200 raw_params secret refl (omega arith))

handle_buy_request-BuyHandled_example :
    BuyHandled toy_crypto 150 world
      (1 ∷ [])
      5
      buy_offered
      (handle_buy_request toy_crypto 150 world (1 ∷ []) 5 buy_offered)
handle_buy_request-BuyHandled_example =
    handle_buy_request-BuyHandled toy_crypto 150 world (1 ∷ []) 5 buy_offered

handle_buy_request-eq-done_iff_example :
    ((handle_buy_request toy_crypto 150 world (1 ∷ []) 5 buy_offered).1 ≡ done) ↔ (
      SizeAllowed offered (some 9000)
      × (is_valid_opening_fee_params toy_crypto 150 offered secret ≡ some true))
handle_buy_request-eq-done_iff_example =
    handle_buy_request-eq-done_iff toy_crypto 150 world (1 ∷ []) 5 buy_offered

offered_params_are_accepted_example :
    (handle_buy_request toy_crypto 150 world (1 ∷ []) 5 buy_offered).1 ≡ done
offered_params_are_accepted_example =
    offered_params_are_accepted toy_crypto 150 200 world (1 ∷ []) 5 raw_params (some 9000) refl
      (omega arith) size_9000-SizeAllowed

abbrev after_buy : World Service
after_buy = (handle_buy_request toy_crypto 150 world (1 ∷ []) 5 buy_offered).0

bought : handle_buy_request toy_crypto 150 world (1 ∷ []) 5 buy_offered ≡ (after_buy, done)
bought =
    ap (λ o. (after_buy, o))
      (offered_params_are_accepted toy_crypto 150 200 world (1 ∷ []) 5 raw_params (some 9000) refl
        (omega arith) size_9000-SizeAllowed)

accepted_buy_opens_example :
    (fee : ℕ) × (compute_opening_fee 9000 offered.min_fee_msat offered.proportional ≡ some fee)
    × (fee < 9000)
    × OpensFor
        (add_htlc one_payment (htlc 4 50 8)).0
        (add_htlc one_payment (htlc 4 50 8)).1.0
        9000
        fee
        (htlc_intercepted offered (some 9000) (pending_initial_payment one_payment) (htlc 4 50 8))
accepted_buy_opens_example =
    accepted_buy_opens toy_crypto 150 world after_buy (1 ∷ []) 5 buy_offered 9000 one_payment
      (htlc 4 50 8) bought refl

opening_fee_params_generated-GetInfoAnswered_example :
    GetInfoAnswered world 5
      (1 ∷ [])
      (menu_of toy_crypto world (raw_params ∷ []))
      (waiting world 5 (1 ∷ []))
      (opening_fee_params_generated toy_crypto world 5 (1 ∷ []) (raw_params ∷ []))
opening_fee_params_generated-GetInfoAnswered_example =
    opening_fee_params_generated-GetInfoAnswered toy_crypto world 5 (1 ∷ []) (raw_params ∷ [])

bought_channel_opens_example :
    (let w = (invoice_parameters_generated after_buy 5 (1 ∷ []) 42 144 true 9).0 in
      (fee : ℕ) × (compute_opening_fee 9000 offered.min_fee_msat offered.proportional ≡ some fee)
      × (fee < 9000)
      × AsksToOpen w 5 42 9 9000 fee
          (Channels.htlc_intercepted (λ earlier call. none) w 42 (htlc 4 9000 8)))
bought_channel_opens_example =
    bought_channel_opens toy_crypto 150 world after_buy (1 ∷ []) 5 buy_offered 9000 42 144 true 9
      (λ earlier call. none) (htlc 4 9000 8) bought refl (omega arith)

invoice_parameters_generated-BuyAnswered_example :
    BuyAnswered after_buy 5
      (1 ∷ [])
      42
      (invoice 42 144 true)
      9
      (waiting after_buy 5 (1 ∷ []))
      (invoice_parameters_generated after_buy 5 (1 ∷ []) 42 144 true 9)
invoice_parameters_generated-BuyAnswered_example =
    invoice_parameters_generated-BuyAnswered after_buy 5 (1 ∷ []) 42 144 true 9
