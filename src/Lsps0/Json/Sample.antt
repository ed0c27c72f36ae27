-- ===== src/Lsps0/Json/Sample.antt =====
-- A faithful serialization, for the tests: a value is the list of its codes. It stands for the
-- crates `serde` and `serde_json` that src/lsps0/ser.rs uses.
pub mod Messages
use lightning_liquidity.Base.{
  ℕ, zero, suc, ◌≡◌, refl, ap, ◌∙◌, Option, none, some, List, [], ◌∷◌, ◌++◌, arith,
}
use lightning_liquidity.Base.Coding.{Coding, nat, pair, as_type, option, list, bool}
use lightning_liquidity.Types.{Text}
use lightning_liquidity.Lsps0.Ser.{ResponseError}
use lightning_liquidity.Lsps0.Msgs as Lsps0Msgs
use lightning_liquidity.Lsps1.Msgs as Lsps1Msgs
use lightning_liquidity.Lsps2.Msgs as Lsps2Msgs
use lightning_liquidity.Lsps1.Msgs.{
  OrderId, OptionsSupported, OrderParams, OrderState, created, completed, order_failed,
  PaymentState, expect_payment, hold, paid, refunded, OnchainPayment, OrderPayment, ChannelInfo,
  CreateOrderRequest, CreateOrderResponse, GetOrderRequest,
}
use lightning_liquidity.Lsps2.Msgs.{OpeningFeeParams, BuyRequest, BuyResponse}
use lightning_liquidity.Lsps0.Json.{Codec, Serde}
use lightning_liquidity.Lsps0.Json.Faithful.{IsFaithful, IsFaithfulCodec, HasPlainKeys, IsPlain}
use lightning_liquidity.Lsps0.Json.Sample.Messages
use lightning_liquidity.Lsps0.Json.Sample.Messages.{◌⊗◌, text}

-- A value is whole: nothing follows it.
abbrev pub whole : {A : Type 0} → Option (A × List ℕ) → Option A
whole none = none
whole (some (a, [])) = some a
whole (some (a, n ∷ rest)) = none

abbrev pub codec : {A : Type 0} → Coding A → Codec (List ℕ) A
codec c = record { to_value = λ a. c.put a []; from_value = λ v. whole (c.get v) }

codec-IsFaithful : {A : Type 0} (c : Coding A) → IsFaithfulCodec (codec c)
codec-IsFaithful c a = ap whole (c.get-put a [])

abbrev pub entries : Coding (List (Text × List ℕ))
entries = list (text ⊗ text)

-- `null` is the empty value.
abbrev pub optional_of : List ℕ → Option (Option Text)
optional_of [] = some none
optional_of (n ∷ codes) = some (whole (text.get (n ∷ codes)))

abbrev pub no_request : {A : Type 0} → A → Codec (List ℕ) A
no_request a = record { to_value = λ r. []; from_value = λ v. some a }

abbrev pub serde : Serde (List ℕ)
serde = record {
  null = [];
  empty_object = [];
  text = λ t. text.put t [];
  from_str = λ v. whole (text.get v);
  from_string = λ v. whole (text.get v);
  from_optional = optional_of;
  response_error = codec Messages.error;
  list_protocols_request = no_request (record {});
  list_protocols_response = codec Messages.list_protocols_response;
  lsps1_get_info_request = no_request (record {});
  lsps1_get_info_response = codec Messages.lsps1_get_info_response;
  create_order_request = codec Messages.create_order_request;
  create_order_response = codec Messages.create_order_response;
  get_order_request = codec Messages.get_order_request;
  lsps2_get_info_request = codec Messages.lsps2_get_info_request;
  lsps2_get_info_response = codec Messages.lsps2_get_info_response;
  buy_request = codec Messages.buy_request;
  buy_response = codec Messages.buy_response;
  write_object = λ es. some (entries.put es []);
  read_object = λ t. whole (entries.get t);
}

pub serde-IsFaithful : IsFaithful serde
serde-IsFaithful = record {
  null_lem = refl;
  optional = λ t. ap some (codec-IsFaithful text t);
  string = codec-IsFaithful text;
  plain = λ t p. codec-IsFaithful text t;
  response_error = codec-IsFaithful Messages.error;
  list_protocols_response = codec-IsFaithful Messages.list_protocols_response;
  lsps1_get_info_request = λ r. refl;
  lsps1_get_info_response = codec-IsFaithful Messages.lsps1_get_info_response;
  create_order_request = codec-IsFaithful Messages.create_order_request;
  create_order_response = codec-IsFaithful Messages.create_order_response;
  get_order_request = codec-IsFaithful Messages.get_order_request;
  lsps2_get_info_request = codec-IsFaithful Messages.lsps2_get_info_request;
  lsps2_get_info_response = codec-IsFaithful Messages.lsps2_get_info_response;
  buy_request = codec-IsFaithful Messages.buy_request;
  buy_response = codec-IsFaithful Messages.buy_response;
  object = λ es p. (entries.put es [], refl, codec-IsFaithful entries es);
}
