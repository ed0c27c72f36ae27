-- ===== src/Lsps2/Tests/Data.antt =====
-- The values that the tests of src/lsps2 share.
use lightning_liquidity.Base.{ℕ, false, ◌%◌, ◌≡◌, refl, none, some, List, [], ◌∷◌, ◌++◌, map, arith}
use lightning_liquidity.Types.{pos}
use lightning_liquidity.Utils.Hex.{IsBytes}
use lightning_liquidity.Lsps2.Msgs.{RawOpeningFeeParams, OpeningFeeParams}
use lightning_liquidity.Lsps2.PaymentQueue.{InterceptedHtlc, PaymentQueue}
use lightning_liquidity.Lsps2.Promise.{Crypto}
use lightning_liquidity.Lsps2.Service.{Service}
use lightning_liquidity.Base.Results.{ok, err}
use lightning_liquidity.Lsps2.Fee.{compute_opening_fee}
use lightning_liquidity.Lsps2.PaymentQueue
use lightning_liquidity.Lsps2.JitChannel
use lightning_liquidity.Lsps2.JitChannel.{
  pending_channel_open, payment_size_violates_limits, initial_payment, expected_size, check_limits,
  fee_or_error, open_or_wait, open_channel,
}
use lightning_liquidity.Lsps2.JitChannel.Channel
use lightning_liquidity.Lsps2.JitChannel.Channel.{OutboundJitChannel, new_channel}
use lightning_liquidity.World.{World}

-- A keyed function of the message, and times that are their own timestamp, written in one byte.
abbrev pub toy_crypto : Crypto
toy_crypto = record {
  hmac_sha256 = λ key message. map (λ (b : ℕ). b % 256) (key ++ message);
  timestamp = λ t. pos t;
  to_rfc3339 = λ t. t ∷ [];
}

pub toy_hmac-IsBytes : (bytes : List ℕ) → IsBytes (map (λ (b : ℕ). b % 256) bytes)
toy_hmac-IsBytes [] = tt
toy_hmac-IsBytes (b ∷ bs) = (omega arith, toy_hmac-IsBytes bs)

abbrev pub secret : List ℕ
secret = 1 ∷ 2 ∷ 3 ∷ []

abbrev pub raw_params : RawOpeningFeeParams
raw_params = record {
  min_fee_msat = 100;
  proportional = 10000;
  valid_until = 200;
  min_lifetime = 144;
  max_client_to_self_delay = 128;
  min_payment_size_msat = 1000;
  max_payment_size_msat = 1000000;
}

-- The same with a promise that nobody gave.
abbrev pub params : OpeningFeeParams
params = record {
  min_fee_msat = 100;
  proportional = 10000;
  valid_until = 200;
  min_lifetime = 144;
  max_client_to_self_delay = 128;
  min_payment_size_msat = 1000;
  max_payment_size_msat = 1000000;
  promise = b'0' ∷ [];
}

abbrev pub htlc : ℕ → ℕ → ℕ → InterceptedHtlc
htlc id amount hash = record {
  intercept_id = id;
  expected_outbound_amount_msat = amount;
  payment_hash = hash;
}

abbrev pub one_payment : PaymentQueue
one_payment = record { payments = (7, htlc 1 6000 7 ∷ htlc 2 3000 7 ∷ []) ∷ [] }

abbrev pub two_payments : PaymentQueue
two_payments = record {
  payments = (8, htlc 3 50 8 ∷ []) ∷ (7, htlc 1 6000 7 ∷ htlc 2 3000 7 ∷ []) ∷ [];
}

abbrev pub world : World Service
world = record {
  handler = record {
    promise_secret = secret;
    per_peer_state = [];
    peer_by_intercept_scid = [];
    peer_by_channel_id = [];
  };
  pending_messages = record { queue = []; process_msgs_callback = false; callback_runs = 0 };
  pending_events = record { queue = []; waker = none; woken = []; notified = 0 };
  calls = [];
}

-- A channel that waits for a payment of 9000, and the one that a payment of this size opens.
abbrev pub waiting_channel : OutboundJitChannel
waiting_channel = new_channel (some 9000) params 9

abbrev pub opened_channel : OutboundJitChannel
opened_channel = (Channel.htlc_intercepted waiting_channel (htlc 1 9000 7)).0

abbrev pub opened_queue : PaymentQueue
opened_queue = record { payments = (7, htlc 1 9000 7 ∷ []) ∷ [] }

-- An HTLC that pays the whole size opens the channel for the minimum fee.
pub opens :
    (Channel.htlc_intercepted waiting_channel (htlc 1 9000 7)).1
    ≡ ok (some (open_channel (record { opening_fee_msat = 100; amt_to_forward_msat = 8900 })))
unfolding Channel.htlc_intercepted JitChannel.htlc_intercepted new_channel JitChannel.new
    PaymentQueue.new PaymentQueue.add_htlc initial_payment expected_size check_limits fee_or_error
    compute_opening_fee open_or_wait
opens = refl

pub opened_state : opened_channel.state ≡ pending_channel_open opened_queue 100
unfolding Channel.htlc_intercepted JitChannel.htlc_intercepted new_channel JitChannel.new
    PaymentQueue.new PaymentQueue.add_htlc initial_payment expected_size check_limits fee_or_error
    compute_opening_fee open_or_wait
opened_state = refl

-- Without a payment size an HTLC below the limits is refused.
pub refused :
    (Channel.htlc_intercepted (new_channel none params 9) (htlc 1 50 7)).1
    ≡ err (payment_size_violates_limits 50 1000 1000000)
unfolding Channel.htlc_intercepted JitChannel.htlc_intercepted new_channel JitChannel.new
    PaymentQueue.new PaymentQueue.add_htlc initial_payment expected_size check_limits fee_or_error
    compute_opening_fee open_or_wait
refused = refl
