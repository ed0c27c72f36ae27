-- ===== src/Lsps0/Ser.antt =====
-- Types of src/lsps0/ser.rs that every protocol uses, and the texts that the handlers send.
use lightning_liquidity.Base.{ℕ, Option}
use lightning_liquidity.Base.Texts.{codes}
use lightning_liquidity.Types.{Text}

pub record ResponseError : Type 0 where
  -- an `i32`, by the number with the same 32 bits
  pub code : ℕ
  pub message : Text
  -- the field `data`
  pub extra : Option Text

unfoldable pub unrecognized_or_stale_token : Text
unrecognized_or_stale_token = codes "an unrecognized or stale token was provided"

unfoldable pub payment_size_below_minimum : Text
payment_size_below_minimum = codes "payment size is below our minimum supported payment size"

unfoldable pub payment_size_above_maximum : Text
payment_size_above_maximum = codes "payment size is above our maximum supported payment size"

unfoldable pub payment_size_too_small_for_fee : Text
payment_size_too_small_for_fee = codes "payment size is too small to cover the opening fee"

unfoldable pub opening_fee_overflow : Text
opening_fee_overflow = codes "overflow error when calculating opening_fee"

unfoldable pub expired_or_promise_mismatch : Text
expired_or_promise_mismatch =
    codes "valid_until is already past OR the promise did not match the provided parameters"

unfoldable pub invalid_opening_fee_params : Text
invalid_opening_fee_params = codes "invalid opening fee parameters were supplied by client"

unfoldable pub order_mismatch : Text
order_mismatch = codes "Order does not match options supported by LSP server"

-- The number of the `i32` -32700.
abbrev pub jsonrpc_invalid_message_error_code : ℕ
jsonrpc_invalid_message_error_code = 4294934596

unfoldable pub jsonrpc_invalid_message_error_message : Text
jsonrpc_invalid_message_error_message = codes "parse error"
