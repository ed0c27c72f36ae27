-- ===== src/Lsps1/Msgs.antt =====
-- src/lsps1/msgs.rs: the messages of the protocol. Addresses and invoices, which the crates
-- `bitcoin` and `lightning_invoice` define, are only copied and compared: they are numbers.
use lightning_liquidity.Base.{ℕ, Bool, Option}
use lightning_liquidity.Types.{Text, RequestId, DateTime}
use lightning_liquidity.Lsps0.Ser.{ResponseError}

abbrev pub create_order_request_order_mismatch_error_code : ℕ
create_order_request_order_mismatch_error_code = 1000

pub record OrderId : Type 0 where
  pub text : Text

pub record GetInfoRequest : Type 0 where

pub record OptionsSupported : Type 0 where
  pub min_channel_confirmations : ℕ
  pub min_onchain_payment_confirmations : Option ℕ
  pub supports_zero_channel_reserve : Bool
  pub min_onchain_payment_size_sat : Option ℕ
  pub max_channel_expiry_blocks : ℕ
  pub min_initial_client_balance_sat : ℕ
  pub max_initial_client_balance_sat : ℕ
  pub min_initial_lsp_balance_sat : ℕ
  pub max_initial_lsp_balance_sat : ℕ
  pub min_channel_balance_sat : ℕ
  pub max_channel_balance_sat : ℕ

pub record GetInfoResponse : Type 0 where
  pub website : Text
  pub options : OptionsSupported

pub record OrderParams : Type 0 where
  pub lsp_balance_sat : ℕ
  pub client_balance_sat : ℕ
  pub confirms_within_blocks : ℕ
  pub channel_expiry_blocks : ℕ
  pub token : Text
  pub refund_onchain_address : Option ℕ
  pub announce_channel : Bool

pub record CreateOrderRequest : Type 0 where
  pub order : OrderParams

pub data OrderState : Type 0 where
  created : OrderState
  completed : OrderState
  order_failed : OrderState

pub data PaymentState : Type 0 where
  expect_payment : PaymentState
  hold : PaymentState
  paid : PaymentState
  refunded : PaymentState

pub record OnchainPayment : Type 0 where
  pub outpoint : Text
  pub sat : ℕ
  pub confirmed : Bool

pub record OrderPayment : Type 0 where
  pub state : PaymentState
  pub fee_total_sat : ℕ
  pub order_total_sat : ℕ
  pub bolt11_invoice : ℕ
  pub onchain_address : ℕ
  pub min_onchain_payment_confirmations : Option ℕ
  pub min_fee_for_0conf : ℕ
  pub onchain_payment : OnchainPayment

pub record ChannelInfo : Type 0 where
  pub funded_at : Text
  pub funding_outpoint : Text
  pub expires_at : Text

pub record CreateOrderResponse : Type 0 where
  pub order_id : OrderId
  pub order : OrderParams
  pub created_at : DateTime
  pub expires_at : DateTime
  pub order_state : OrderState
  pub payment : OrderPayment
  pub channel : Option ChannelInfo

pub record GetOrderRequest : Type 0 where
  pub order_id : OrderId

pub data Request : Type 0 where
  get_info : GetInfoRequest → Request
  create_order : CreateOrderRequest → Request
  get_order : GetOrderRequest → Request

pub data Response : Type 0 where
  get_info_ok : GetInfoResponse → Response
  get_info_error : ResponseError → Response
  create_order_ok : CreateOrderResponse → Response
  create_order_error : ResponseError → Response
  get_order_ok : CreateOrderResponse → Response
  get_order_error : ResponseError → Response

pub data Message : Type 0 where
  request : RequestId → Request → Message
  response : RequestId → Response → Message
