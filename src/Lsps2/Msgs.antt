-- ===== src/Lsps2/Msgs.antt =====
-- src/lsps2/msgs.rs: the messages of the protocol and its error codes. Amounts are in millisatoshi.
use lightning_liquidity.Base.{ℕ, Bool, Option, List}
use lightning_liquidity.Types.{Text, RequestId, DateTime}
use lightning_liquidity.Lsps0.Ser.{ResponseError}

abbrev pub get_info_request_unrecognized_or_stale_token_error_code : ℕ
get_info_request_unrecognized_or_stale_token_error_code = 2

abbrev pub buy_request_invalid_opening_fee_params_error_code : ℕ
buy_request_invalid_opening_fee_params_error_code = 2

abbrev pub buy_request_payment_size_too_small_error_code : ℕ
buy_request_payment_size_too_small_error_code = 3

abbrev pub buy_request_payment_size_too_large_error_code : ℕ
buy_request_payment_size_too_large_error_code = 4

pub record GetInfoRequest : Type 0 where
  pub token : Option Text

pub record RawOpeningFeeParams : Type 0 where
  pub min_fee_msat : ℕ
  pub proportional : ℕ
  pub valid_until : DateTime
  pub min_lifetime : ℕ
  pub max_client_to_self_delay : ℕ
  pub min_payment_size_msat : ℕ
  pub max_payment_size_msat : ℕ

pub record OpeningFeeParams : Type 0 where
  pub min_fee_msat : ℕ
  pub proportional : ℕ
  pub valid_until : DateTime
  pub min_lifetime : ℕ
  pub max_client_to_self_delay : ℕ
  pub min_payment_size_msat : ℕ
  pub max_payment_size_msat : ℕ
  pub promise : Text

pub record GetInfoResponse : Type 0 where
  pub opening_fee_params_menu : List OpeningFeeParams

pub record BuyRequest : Type 0 where
  pub opening_fee_params : OpeningFeeParams
  pub payment_size_msat : Option ℕ

-- A short channel id in human readable form.
pub record InterceptScid : Type 0 where
  pub text : Text

pub record BuyResponse : Type 0 where
  pub intercept_scid : InterceptScid
  pub lsp_cltv_expiry_delta : ℕ
  pub client_trusts_lsp : Bool

pub data Request : Type 0 where
  get_info : GetInfoRequest → Request
  buy : BuyRequest → Request

pub data Response : Type 0 where
  get_info_ok : GetInfoResponse → Response
  get_info_error : ResponseError → Response
  buy_ok : BuyResponse → Response
  buy_error : ResponseError → Response

pub data Message : Type 0 where
  request : RequestId → Request → Message
  response : RequestId → Response → Message
