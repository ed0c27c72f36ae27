-- ===== src/Lsps2/Promise.antt =====
-- The promise of the opening fee parameters: `RawOpeningFeeParams::into_opening_fee_params` of
-- src/lsps2/msgs.rs and `is_valid_opening_fee_params` of src/lsps2/utils.rs (feature `std`).
pub mod Input
pub mod Authentic
use lightning_liquidity.Base.{
  ℕ, Bool, true, false, Option, none, some, List, ◌++◌, ltb, if◌then◌else◌,
}
use lightning_liquidity.Base.Bytes.{be_bytes}
use lightning_liquidity.Base.Keys.{list_beq, nat_eq}
use lightning_liquidity.Types.{DateTime, ℤ, pos, negsuc}
use lightning_liquidity.Utils.{hex_str}
use lightning_liquidity.Lsps2.Msgs.{RawOpeningFeeParams, OpeningFeeParams}

-- What the crates `bitcoin` and `chrono` provide: HMAC-SHA256 of a key and a message, in bytes, and
-- the Unix timestamp and the RFC 3339 text of a time.
pub record Crypto : Type 0 where
  pub hmac_sha256 : List ℕ → List ℕ → List ℕ
  pub timestamp : DateTime → ℤ
  pub to_rfc3339 : DateTime → List ℕ

-- The inputs of the HMAC, one after the other.
unfoldable pub hmac_input : Crypto → ℕ → ℕ → DateTime → ℕ → ℕ → ℕ → ℕ → List ℕ
hmac_input c min_fee_msat proportional valid_until min_lifetime max_client_to_self_delay
      min_payment_size_msat max_payment_size_msat =
    be_bytes 8 min_fee_msat
    ++ (be_bytes 4 proportional
        ++ (c.to_rfc3339 valid_until
            ++ (be_bytes 4 min_lifetime
                ++ (be_bytes 4 max_client_to_self_delay
                    ++ (be_bytes 8 min_payment_size_msat ++ be_bytes 8 max_payment_size_msat)))))

unfoldable pub into_opening_fee_params : Crypto → RawOpeningFeeParams → List ℕ → OpeningFeeParams
into_opening_fee_params c raw promise_secret = record {
  min_fee_msat = raw.min_fee_msat;
  proportional = raw.proportional;
  valid_until = raw.valid_until;
  min_lifetime = raw.min_lifetime;
  max_client_to_self_delay = raw.max_client_to_self_delay;
  min_payment_size_msat = raw.min_payment_size_msat;
  max_payment_size_msat = raw.max_payment_size_msat;
  promise = hex_str (
      c.hmac_sha256 promise_secret (
        hmac_input c raw.min_fee_msat raw.proportional raw.valid_until raw.min_lifetime
          raw.max_client_to_self_delay raw.min_payment_size_msat raw.max_payment_size_msat));
}

unfoldable pub promise_matches : Crypto → OpeningFeeParams → List ℕ → Bool
promise_matches c fee_params promise_secret =
    let promise = hex_str (
      c.hmac_sha256 promise_secret (
        hmac_input c fee_params.min_fee_msat fee_params.proportional fee_params.valid_until
          fee_params.min_lifetime fee_params.max_client_to_self_delay
          fee_params.min_payment_size_msat fee_params.max_payment_size_msat)) in
    list_beq promise fee_params.promise

-- `seconds_since_epoch` is the system time. `none` is the panic of the `expect` on a time before
-- 1970.
unfoldable pub is_valid_opening_fee_params : Crypto → ℕ → OpeningFeeParams → List ℕ → Option Bool
is_valid_opening_fee_params c seconds_since_epoch fee_params promise_secret =
    elim (c.timestamp fee_params.valid_until) [
      | negsuc _ ↦ none
      | pos valid_until ↦
          if ltb valid_until seconds_since_epoch
          then some false
          else some (promise_matches c fee_params promise_secret)
    ]
