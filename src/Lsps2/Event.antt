-- ===== src/Lsps2/Event.antt =====
-- src/lsps2/event.rs: what the protocol asks of its user.
use lightning_liquidity.Base.{ℕ, Option, List}
use lightning_liquidity.Types.{PublicKey, RequestId, Text}
use lightning_liquidity.Lsps2.Msgs.{OpeningFeeParams}

pub data ClientEvent : Type 0 where
  opening_parameters_ready : RequestId → PublicKey → List OpeningFeeParams → ClientEvent
  -- with the intercept scid, the CLTV expiry delta and the payment size
  invoice_parameters_ready : RequestId → PublicKey → ℕ → ℕ → Option ℕ → ClientEvent

pub record OpenChannel : Type 0 where
  pub their_network_key : PublicKey
  pub amt_to_forward_msat : ℕ
  pub opening_fee_msat : ℕ
  pub user_channel_id : ℕ
  pub intercept_scid : ℕ

pub data ServiceEvent : Type 0 where
  get_info : RequestId → PublicKey → Option Text → ServiceEvent
  buy_request : RequestId → PublicKey → OpeningFeeParams → Option ℕ → ServiceEvent
  open_channel : OpenChannel → ServiceEvent
