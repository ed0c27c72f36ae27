-- ===== src/MessageQueue.antt =====
-- src/message_queue.rs, over the messages of src/lsps0/ser.rs.
use lightning_liquidity.Base.{ℕ, ◌+◌, Bool, true, false, List, [], ◌∷◌, ◌++◌, if◌then◌else◌}
use lightning_liquidity.Types.{PublicKey}
use lightning_liquidity.Lsps0.Ser.{ResponseError}
use lightning_liquidity.Lsps0.Msgs
use lightning_liquidity.Lsps1.Msgs as Lsps1Msgs
use lightning_liquidity.Lsps2.Msgs as Lsps2Msgs

-- `LSPSMessage`.
pub data LspsMessage : Type 0 where
  invalid : ResponseError → LspsMessage
  lsps0 : Msgs.Message → LspsMessage
  lsps1 : Lsps1Msgs.Message → LspsMessage
  lsps2 : Lsps2Msgs.Message → LspsMessage

-- `process_msgs_callback` is set or not; its runs are counted.
pub record MessageQueue : Type 0 where
  pub queue : List (PublicKey × LspsMessage)
  pub process_msgs_callback : Bool
  pub callback_runs : ℕ

unfoldable pub new : MessageQueue
new = record { queue = []; process_msgs_callback = false; callback_runs = 0 }

unfoldable pub set_process_msgs_callback : MessageQueue → MessageQueue
set_process_msgs_callback q = record q { process_msgs_callback = true }

unfoldable pub get_and_clear_pending_msgs :
    MessageQueue → MessageQueue × List (PublicKey × LspsMessage)
get_and_clear_pending_msgs q = (record q { queue = [] }, q.queue)

unfoldable pub enqueue : MessageQueue → PublicKey → LspsMessage → MessageQueue
enqueue q counterparty_node_id msg = record q {
  queue = q.queue ++ (counterparty_node_id, msg) ∷ [];
  callback_runs = if q.process_msgs_callback then q.callback_runs + 1 else q.callback_runs;
}
