-- ===== src/Lsps2/Tests/Safe.antt =====
-- The theorems on the calls of the service of src/lsps2 at concrete inputs.
use lightning_liquidity.Base.{◌≡◌, refl, true, none, some, List, [], ◌∷◌, ◌++◌}
use lightning_liquidity.Base.Keys.{nat_eq, list_eq}
use lightning_liquidity.Base.Maps
use lightning_liquidity.Base.Bytes.{be_bytes}
use lightning_liquidity.Base.Results.{err}
use lightning_liquidity.Lsps2.Msgs.{OpeningFeeParams, request, buy}
use lightning_liquidity.Lsps2.Fee.{compute_opening_fee}
use lightning_liquidity.Lsps2.PaymentQueue
use lightning_liquidity.Lsps2.Promise.{
  hmac_input, into_opening_fee_params, promise_matches, is_valid_opening_fee_params,
}
use lightning_liquidity.Lsps2.JitChannel
use lightning_liquidity.Lsps2.JitChannel.{
  payment_size_violates_limits, initial_payment, expected_size, check_limits, fee_or_error,
  open_or_wait,
}
use lightning_liquidity.Lsps2.JitChannel.Channel
use lightning_liquidity.Lsps2.JitChannel.Channel.{OutboundJitChannel, new_channel}
use lightning_liquidity.Lsps2.JitChannel.Conserve.{held_htlcs}
use lightning_liquidity.Lsps2.JitChannel.Reach.{IsValidChannel}
use lightning_liquidity.Utils.{hex_str, hex_digit}
use lightning_liquidity.World.{World, Answers, fail, failed, channel_state_error}
use lightning_liquidity.Lsps2.Service.{
  Service, new, new_peer, answer_buy, invoice_parameters_generated,
}
use lightning_liquidity.Lsps2.Service.Requests.{
  check_payment_size, check_size, refuse, accept_buy, check_promise, handle_buy_request,
  handle_message,
}
use lightning_liquidity.Lsps2.Service.Channels.{htlc_intercepted}
use lightning_liquidity.Lsps2.Service.Refusal.{channel_of}
use lightning_liquidity.Lsps2.Service.Run.{ServiceCall, receive, invoice, run}
use lightning_liquidity.Lsps2.Service.Safe.{run-IsValidChannel, run-strands_none}
use lightning_liquidity.Lsps2.Tests.Data.{toy_crypto, secret, raw_params, htlc, world}

abbrev offered : OpeningFeeParams
offered = into_opening_fee_params toy_crypto raw_params secret

-- The peer buys a channel for payments of any size, and gets an intercept scid for it.
abbrev calls : List ServiceCall
calls =
    receive 150
      (request (1 ∷ []) (buy (record { opening_fee_params = offered; payment_size_msat = none }))) 5
    ∷ invoice 5 (1 ∷ []) 42 144 true 9
    ∷ []

abbrev accepting : Answers
accepting earlier call = none

abbrev before : World Service
before = run toy_crypto accepting calls world

bought : channel_of before 5 42 ≡ some (new_channel none offered 9)
unfolding handle_message handle_buy_request check_payment_size check_size refuse accept_buy
    check_promise new_peer answer_buy invoice_parameters_generated Maps.get Maps.insert Maps.remove
    into_opening_fee_params promise_matches is_valid_opening_fee_params hmac_input hex_str hex_digit
    be_bytes
bought = refl

bought_at : Maps.get 42 before.handler.peer_by_intercept_scid ≡ some 5
unfolding handle_message handle_buy_request check_payment_size check_size refuse accept_buy
    check_promise new_peer answer_buy invoice_parameters_generated Maps.get Maps.insert Maps.remove
    into_opening_fee_params promise_matches is_valid_opening_fee_params hmac_input hex_str hex_digit
    be_bytes
bought_at = refl

too_small :
    (Channel.htlc_intercepted (new_channel none offered 9) (htlc 1 50 7)).1
    ≡ err (payment_size_violates_limits 50 1000 1000000)
unfolding Channel.htlc_intercepted JitChannel.htlc_intercepted new_channel JitChannel.new
    PaymentQueue.new PaymentQueue.add_htlc initial_payment expected_size check_limits fee_or_error
    compute_opening_fee open_or_wait into_opening_fee_params
too_small = refl

new_world : world.handler ≡ new secret
unfolding new
new_world = refl

run-IsValidChannel_example : IsValidChannel (new_channel none offered 9)
run-IsValidChannel_example =
    run-IsValidChannel toy_crypto accepting calls world secret 5 42 (new_channel none offered 9)
      (λ earlier id. refl) new_world bought

run-strands_none_example :
    let after = htlc_intercepted accepting before 42 (htlc 1 50 7) in
    (held_htlcs (new_channel none offered 9).state ≡ [])
    × (after.0.calls ≡ before.calls ++ fail 1 ∷ [])
    × (after.1 ≡ failed (channel_state_error (payment_size_violates_limits 50 1000 1000000)))
    × (channel_of after.0 5 42 ≡ none)
run-strands_none_example =
    run-strands_none toy_crypto accepting calls world secret 5 42 (new_channel none offered 9)
      (htlc 1 50 7) (payment_size_violates_limits 50 1000 1000000) (λ earlier id. refl) new_world
      bought_at bought too_small
