-- ===== src/Lsps1/Order.antt =====
-- src/lsps1/utils.rs: which orders the options of an LSP admit, and the comparison of orders that
-- `#[derive(PartialEq)]` gives in src/lsps1/msgs.rs.
use lightning_liquidity.Base.{
  ℕ, ◌≤◌, ◌≡◌, ◌↔◌, refl, Bool, true, false, ◌&&◌, Option, none, some, leb, ◌==◌, ==_iff, arith,
}
use lightning_liquidity.Base.Keys.{nat_eq, list_beq, list_beq_iff}
use lightning_liquidity.Lsps1.Msgs.{OptionsSupported, OrderParams}

unfoldable pub check_range : ℕ → ℕ → ℕ → Bool
check_range min max value = leb min value && leb value max

unfoldable pub is_valid : OrderParams → OptionsSupported → Bool
unfolding check_range
is_valid order options =
    check_range options.min_initial_client_balance_sat options.max_initial_client_balance_sat
      order.client_balance_sat
    && (check_range options.min_initial_lsp_balance_sat options.max_initial_lsp_balance_sat
          order.lsp_balance_sat
        && check_range 1 options.max_channel_expiry_blocks order.channel_expiry_blocks)

abbrev pub option_beq : Option ℕ → Option ℕ → Bool
option_beq none none = true
option_beq (some a) (some b) = a == b
option_beq none (some b) = false
option_beq (some a) none = false

abbrev pub bool_beq : Bool → Bool → Bool
bool_beq true b = b
bool_beq false true = false
bool_beq false false = true

-- `==` on `OrderParams`, field by field.
unfoldable pub order_beq : OrderParams → OrderParams → Bool
order_beq a b =
    (a.lsp_balance_sat == b.lsp_balance_sat)
    && ((a.client_balance_sat == b.client_balance_sat)
        && ((a.confirms_within_blocks == b.confirms_within_blocks)
            && ((a.channel_expiry_blocks == b.channel_expiry_blocks)
                && (list_beq a.token b.token
                    && (option_beq a.refund_onchain_address b.refund_onchain_address
                        && bool_beq a.announce_channel b.announce_channel)))))

option_beq_iff : (a b : Option ℕ) → (option_beq a b ≡ true) ↔ (a ≡ b)
option_beq_iff none none = (λ e. refl, λ e. refl)
option_beq_iff (some a) (some b) = ground (arith, ==_iff a b)
option_beq_iff none (some b) = ground arith
option_beq_iff (some a) none = ground arith

bool_beq_iff : (a b : Bool) → (bool_beq a b ≡ true) ↔ (a ≡ b)
bool_beq_iff a b = ground arith

-- The comparison of two orders is equality.
pub order_beq_iff : (a b : OrderParams) → (order_beq a b ≡ true) ↔ (a ≡ b)
unfolding order_beq
order_beq_iff a b = ground (
  arith,
  list_beq_iff a.token b.token,
  option_beq_iff a.refund_onchain_address b.refund_onchain_address,
  bool_beq_iff a.announce_channel b.announce_channel,
)

-- What an order has to be for an LSP with the options.
pub record IsValidOrder (order : OrderParams) (options : OptionsSupported) : Type 0 where
  pub client_low : options.min_initial_client_balance_sat ≤ order.client_balance_sat
  pub client_high : order.client_balance_sat ≤ options.max_initial_client_balance_sat
  pub lsp_low : options.min_initial_lsp_balance_sat ≤ order.lsp_balance_sat
  pub lsp_high : order.lsp_balance_sat ≤ options.max_initial_lsp_balance_sat
  pub expires : 1 ≤ order.channel_expiry_blocks
  pub lease : order.channel_expiry_blocks ≤ options.max_channel_expiry_blocks

-- The check of an order is the three ranges.
pub is_valid-IsValidOrder :
    (order : OrderParams) (options : OptionsSupported)
    → is_valid order options ≡ true
    → IsValidOrder order options
unfolding is_valid
is_valid-IsValidOrder order options h = record {
  client_low = ground arith;
  client_high = ground arith;
  lsp_low = ground arith;
  lsp_high = ground arith;
  expires = ground arith;
  lease = ground arith;
}
