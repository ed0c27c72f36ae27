-- ===== src/Lsps2/Tests/Client.antt =====
-- The theorems on src/lsps2/client.rs at concrete inputs.
use lightning_liquidity.Base.{ℕ, true, none, some, List, [], ◌∷◌, arith}
use lightning_liquidity.World.{World}
use lightning_liquidity.Lsps2.Client.{Client, select_opening_params, handle_buy_response}
use lightning_liquidity.Lsps2.Client.Requests.{Announced, answer, select_opening_params-Announced}
use lightning_liquidity.Lsps2.Tests.Data.{params}

abbrev client : World Client
client = record {
  handler = record { per_peer_state = [] };
  pending_messages = record { queue = []; process_msgs_callback = true; callback_runs = 0 };
  pending_events = record { queue = []; waker = none; woken = []; notified = 0 };
  calls = [];
}

abbrev bytes : List ℕ
bytes = 7 ∷ 255 ∷ 0 ∷ []

select_opening_params-Announced_example :
    (let r = select_opening_params bytes client 5 (some 9000) params in
      Announced r.0 r.1.1 5 879744660079411201 144
        (some 9000)
        (handle_buy_response r.0 r.1.1 5 (answer 879744660079411201 144 true)))
select_opening_params-Announced_example =
    select_opening_params-Announced bytes client 5 (some 9000) params 879744660079411201 144 true
      (omega arith)
