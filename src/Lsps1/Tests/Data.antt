-- ===== src/Lsps1/Tests/Data.antt =====
-- The values that the tests of src/lsps1/ share.
use lightning_liquidity.Base.{true, false, none, some, [], ◌∷◌}
use lightning_liquidity.Lsps1.Msgs.{
  OptionsSupported, OrderId, OrderParams, OrderPayment, expect_payment,
}
use lightning_liquidity.Lsps1.Inbound.{State}
use lightning_liquidity.Lsps1.Inbound.Reach.{at}
use lightning_liquidity.Lsps1.Outbound.{OutboundCrChannel, order_created}
use lightning_liquidity.Lsps1.Client as Client
use lightning_liquidity.Lsps1.Service as Service
use lightning_liquidity.World.{World}

abbrev pub options : OptionsSupported
options = record {
  min_channel_confirmations = 1;
  min_onchain_payment_confirmations = none;
  supports_zero_channel_reserve = false;
  min_onchain_payment_size_sat = none;
  max_channel_expiry_blocks = 100;
  min_initial_client_balance_sat = 0;
  max_initial_client_balance_sat = 1000;
  min_initial_lsp_balance_sat = 10;
  max_initial_lsp_balance_sat = 2000;
  min_channel_balance_sat = 10;
  max_channel_balance_sat = 3000;
}

abbrev pub order : OrderParams
order = record {
  lsp_balance_sat = 500;
  client_balance_sat = 50;
  confirms_within_blocks = 6;
  channel_expiry_blocks = 90;
  token = [];
  refund_onchain_address = none;
  announce_channel = true;
}

abbrev pub payment : OrderPayment
payment = record {
  state = expect_payment;
  fee_total_sat = 20;
  order_total_sat = 70;
  bolt11_invoice = 1;
  onchain_address = 2;
  min_onchain_payment_confirmations = none;
  min_fee_for_0conf = 3;
  onchain_payment = record { outpoint = []; sat = 70; confirmed = false };
}

abbrev pub order_id : OrderId
order_id = record { text = 4 ∷ [] }

-- A peer whose channel 9 is in the state, and a request about it.
abbrev pub peer_with : State → Client.PeerState
peer_with s = record {
  inbound_channels_by_id = (9, at 9 s) ∷ [];
  request_to_cid = (3 ∷ [], 9) ∷ [];
  pending_requests = [];
}

abbrev pub client_with : State → World Client.Client
client_with s = record {
  handler = record { per_peer_state = (6, peer_with s) ∷ []; max_channel_fees_msat = some 100 };
  pending_messages = record { queue = []; process_msgs_callback = true; callback_runs = 0 };
  pending_events = record { queue = []; waker = none; woken = []; notified = 0 };
  calls = [];
}

abbrev pub outbound : OutboundCrChannel
outbound = record {
  state = order_created order_id;
  config = record { order = order; created_at = 1; expires_at = 2; payment = payment };
}

abbrev pub service_peer : Service.PeerState
service_peer = record {
  outbound_channels_by_order_id = (4 ∷ [], outbound) ∷ [];
  request_to_cid = [];
  pending_requests = [];
}

abbrev pub service : World Service.Service
service = record {
  handler = record {
    per_peer_state = (5, service_peer) ∷ [];
    token = none;
    options_supported = some options;
    website = none;
  };
  pending_messages = record { queue = []; process_msgs_callback = true; callback_runs = 0 };
  pending_events = record { queue = []; waker = none; woken = []; notified = 0 };
  calls = [];
}
