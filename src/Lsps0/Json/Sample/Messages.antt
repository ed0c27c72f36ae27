-- ===== src/Lsps0/Json/Sample/Messages.antt =====
-- Codes of the messages of the three msgs.rs, for the tests.
use lightning_liquidity.Base.{ℕ, zero, suc, ◌≡◌, refl}
use lightning_liquidity.Base.Coding.{Coding, nat, pair, as_type, option, list, bool}
use lightning_liquidity.Types.{Text}
use lightning_liquidity.Lsps0.Ser.{ResponseError}
use lightning_liquidity.Lsps0.Msgs as Lsps0Msgs
use lightning_liquidity.Lsps1.Msgs as Lsps1Msgs
use lightning_liquidity.Lsps2.Msgs as Lsps2Msgs
use lightning_liquidity.Lsps1.Msgs.{
  OrderId, OptionsSupported, OrderParams, OrderState, created, completed, order_failed,
  PaymentState, expect_payment, hold, paid, refunded, OnchainPayment, OrderPayment, ChannelInfo,
  CreateOrderRequest, CreateOrderResponse, GetOrderRequest,
}
use lightning_liquidity.Lsps2.Msgs.{OpeningFeeParams, BuyRequest, BuyResponse}

infixr 6 ◌⊗◌
abbrev pub ◌⊗◌ : {A B : Type 0} → Coding A → Coding B → Coding (A × B)
a ⊗ b = pair a b

abbrev pub text : Coding Text
text = list nat

abbrev pub error : Coding ResponseError
error =
    as_type (nat ⊗ (text ⊗ option text))
      (λ t. record { code = t.0; message = t.1.0; extra = t.1.1 })
      (λ e. (e.code, (e.message, e.extra))) (λ e. refl)

abbrev pub list_protocols_response : Coding Lsps0Msgs.ListProtocolsResponse
list_protocols_response =
    as_type (list nat) (λ l. record { protocols = l }) (λ r. r.protocols) (λ r. refl)

abbrev pub options : Coding OptionsSupported
options =
    as_type (nat ⊗ option nat ⊗ bool ⊗ option nat ⊗ nat ⊗ nat ⊗ nat ⊗ nat ⊗ nat ⊗ nat ⊗ nat)
      (λ t. record {
        min_channel_confirmations = t.0;
        min_onchain_payment_confirmations = t.1.0;
        supports_zero_channel_reserve = t.1.1.0;
        min_onchain_payment_size_sat = t.1.1.1.0;
        max_channel_expiry_blocks = t.1.1.1.1.0;
        min_initial_client_balance_sat = t.1.1.1.1.1.0;
        max_initial_client_balance_sat = t.1.1.1.1.1.1.0;
        min_initial_lsp_balance_sat = t.1.1.1.1.1.1.1.0;
        max_initial_lsp_balance_sat = t.1.1.1.1.1.1.1.1.0;
        min_channel_balance_sat = t.1.1.1.1.1.1.1.1.1.0;
        max_channel_balance_sat = t.1.1.1.1.1.1.1.1.1.1;
      })
      (λ o. (
        o.min_channel_confirmations,
        (
          o.min_onchain_payment_confirmations,
          (
            o.supports_zero_channel_reserve,
            (
              o.min_onchain_payment_size_sat,
              (
                o.max_channel_expiry_blocks,
                (
                  o.min_initial_client_balance_sat,
                  (
                    o.max_initial_client_balance_sat,
                    (
                      o.min_initial_lsp_balance_sat,
                      (
                        o.max_initial_lsp_balance_sat,
                        (o.min_channel_balance_sat, o.max_channel_balance_sat),
                      ),
                    ),
                  ),
                ),
              ),
            ),
          ),
        ),
      ))
      (λ o. refl)

abbrev pub lsps1_get_info_response : Coding Lsps1Msgs.GetInfoResponse
lsps1_get_info_response =
    as_type (text ⊗ options) (λ t. record { website = t.0; options = t.1 })
      (λ r. (r.website, r.options)) (λ r. refl)

abbrev pub order : Coding OrderParams
order =
    as_type (nat ⊗ nat ⊗ nat ⊗ nat ⊗ text ⊗ option nat ⊗ bool)
      (λ t. record {
        lsp_balance_sat = t.0;
        client_balance_sat = t.1.0;
        confirms_within_blocks = t.1.1.0;
        channel_expiry_blocks = t.1.1.1.0;
        token = t.1.1.1.1.0;
        refund_onchain_address = t.1.1.1.1.1.0;
        announce_channel = t.1.1.1.1.1.1;
      })
      (λ o. (
        o.lsp_balance_sat,
        (
          o.client_balance_sat,
          (
            o.confirms_within_blocks,
            (o.channel_expiry_blocks, (o.token, (o.refund_onchain_address, o.announce_channel))),
          ),
        ),
      ))
      (λ o. refl)

abbrev pub order_state_of : ℕ → OrderState
order_state_of zero = created
order_state_of (suc zero) = completed
order_state_of (suc (suc n)) = order_failed

abbrev pub order_state_code : OrderState → ℕ
order_state_code created = 0
order_state_code completed = 1
order_state_code order_failed = 2

pub order_state_lem : (s : OrderState) → order_state_of (order_state_code s) ≡ s
order_state_lem created = refl
order_state_lem completed = refl
order_state_lem order_failed = refl

abbrev pub payment_state_of : ℕ → PaymentState
payment_state_of zero = expect_payment
payment_state_of (suc zero) = hold
payment_state_of (suc (suc zero)) = paid
payment_state_of (suc (suc (suc n))) = refunded

abbrev pub payment_state_code : PaymentState → ℕ
payment_state_code expect_payment = 0
payment_state_code hold = 1
payment_state_code paid = 2
payment_state_code refunded = 3

pub payment_state_lem : (s : PaymentState) → payment_state_of (payment_state_code s) ≡ s
payment_state_lem expect_payment = refl
payment_state_lem hold = refl
payment_state_lem paid = refl
payment_state_lem refunded = refl

abbrev pub onchain_payment : Coding OnchainPayment
onchain_payment =
    as_type (text ⊗ nat ⊗ bool) (λ t. record { outpoint = t.0; sat = t.1.0; confirmed = t.1.1 })
      (λ p. (p.outpoint, (p.sat, p.confirmed))) (λ p. refl)

abbrev pub payment : Coding OrderPayment
payment =
    as_type
      (as_type nat payment_state_of payment_state_code payment_state_lem
        ⊗ nat
        ⊗ nat
        ⊗ nat
        ⊗ nat
        ⊗ option nat
        ⊗ nat
        ⊗ onchain_payment)
      (λ t. record {
        state = t.0;
        fee_total_sat = t.1.0;
        order_total_sat = t.1.1.0;
        bolt11_invoice = t.1.1.1.0;
        onchain_address = t.1.1.1.1.0;
        min_onchain_payment_confirmations = t.1.1.1.1.1.0;
        min_fee_for_0conf = t.1.1.1.1.1.1.0;
        onchain_payment = t.1.1.1.1.1.1.1;
      })
      (λ p. (
        p.state,
        (
          p.fee_total_sat,
          (
            p.order_total_sat,
            (
              p.bolt11_invoice,
              (
                p.onchain_address,
                (p.min_onchain_payment_confirmations, (p.min_fee_for_0conf, p.onchain_payment)),
              ),
            ),
          ),
        ),
      ))
      (λ p. refl)

abbrev pub channel_info : Coding ChannelInfo
channel_info =
    as_type (text ⊗ text ⊗ text)
      (λ t. record { funded_at = t.0; funding_outpoint = t.1.0; expires_at = t.1.1 })
      (λ c. (c.funded_at, (c.funding_outpoint, c.expires_at))) (λ c. refl)

abbrev pub order_id : Coding OrderId
order_id = as_type text (λ t. record { text = t }) (λ i. i.text) (λ i. refl)

abbrev pub create_order_response : Coding CreateOrderResponse
create_order_response =
    as_type
      (order_id
        ⊗ order
        ⊗ nat
        ⊗ nat
        ⊗ as_type nat order_state_of order_state_code order_state_lem
        ⊗ payment
        ⊗ option channel_info)
      (λ t. record {
        order_id = t.0;
        order = t.1.0;
        created_at = t.1.1.0;
        expires_at = t.1.1.1.0;
        order_state = t.1.1.1.1.0;
        payment = t.1.1.1.1.1.0;
        channel = t.1.1.1.1.1.1;
      })
      (λ r. (
        r.order_id,
        (r.order, (r.created_at, (r.expires_at, (r.order_state, (r.payment, r.channel))))),
      ))
      (λ r. refl)

abbrev pub fee_params : Coding OpeningFeeParams
fee_params =
    as_type (nat ⊗ nat ⊗ nat ⊗ nat ⊗ nat ⊗ nat ⊗ nat ⊗ text)
      (λ t. record {
        min_fee_msat = t.0;
        proportional = t.1.0;
        valid_until = t.1.1.0;
        min_lifetime = t.1.1.1.0;
        max_client_to_self_delay = t.1.1.1.1.0;
        min_payment_size_msat = t.1.1.1.1.1.0;
        max_payment_size_msat = t.1.1.1.1.1.1.0;
        promise = t.1.1.1.1.1.1.1;
      })
      (λ p. (
        p.min_fee_msat,
        (
          p.proportional,
          (
            p.valid_until,
            (
              p.min_lifetime,
              (
                p.max_client_to_self_delay,
                (p.min_payment_size_msat, (p.max_payment_size_msat, p.promise)),
              ),
            ),
          ),
        ),
      ))
      (λ p. refl)

abbrev pub buy_request : Coding BuyRequest
buy_request =
    as_type (fee_params ⊗ option nat)
      (λ t. record { opening_fee_params = t.0; payment_size_msat = t.1 })
      (λ r. (r.opening_fee_params, r.payment_size_msat)) (λ r. refl)

abbrev pub buy_response : Coding BuyResponse
buy_response =
    as_type (text ⊗ nat ⊗ bool)
      (λ t. record {
        intercept_scid = record { text = t.0 };
        lsp_cltv_expiry_delta = t.1.0;
        client_trusts_lsp = t.1.1;
      })
      (λ r. (r.intercept_scid.text, (r.lsp_cltv_expiry_delta, r.client_trusts_lsp))) (λ r. refl)

abbrev pub create_order_request : Coding CreateOrderRequest
create_order_request = as_type order (λ o. record { order = o }) (λ r. r.order) (λ r. refl)

abbrev pub get_order_request : Coding GetOrderRequest
get_order_request = as_type order_id (λ i. record { order_id = i }) (λ r. r.order_id) (λ r. refl)

abbrev pub lsps2_get_info_request : Coding Lsps2Msgs.GetInfoRequest
lsps2_get_info_request =
    as_type (option text) (λ t. record { token = t }) (λ r. r.token) (λ r. refl)

abbrev pub lsps2_get_info_response : Coding Lsps2Msgs.GetInfoResponse
lsps2_get_info_response =
    as_type (list fee_params) (λ l. record { opening_fee_params_menu = l })
      (λ r. r.opening_fee_params_menu) (λ r. refl)
