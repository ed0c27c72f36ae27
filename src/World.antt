-- ===== src/World.antt =====
-- What the handlers act on besides their own state: the two queues that they share, and the channel
-- manager of the crate `lightning`, which is not modelled: the calls that it gets are recorded, and
-- what it answers is a parameter of whoever calls it.
use lightning_liquidity.Base.{ℕ, Option, none, some, List, [], ◌∷◌, ◌++◌}
use lightning_liquidity.Types.{PublicKey, ChannelId, InterceptId, RequestId, Text}
use lightning_liquidity.Lsps0.Ser.{ResponseError}
use lightning_liquidity.Events
use lightning_liquidity.Events.{Event, EventQueue}
use lightning_liquidity.MessageQueue
use lightning_liquidity.MessageQueue.{MessageQueue, LspsMessage}
use lightning_liquidity.Lsps1.Msgs.{OrderId, OrderParams}
use lightning_liquidity.Lsps1.Inbound
use lightning_liquidity.Lsps1.Outbound
use lightning_liquidity.Lsps2.JitChannel.{ChannelStateError}

-- The messages of `APIError::APIMisuseError`, with what is formatted into them; the errors of the
-- channel manager are opaque.
pub data ApiError : Type 0 where
  no_pending_get_info_request : RequestId → ApiError
  no_pending_buy_request : RequestId → ApiError
  no_state_for_counterparty : PublicKey → ApiError
  no_counterparty_state : PublicKey → ApiError
  no_counterparty_for_scid : ℕ → ApiError
  channel_state_error : ChannelStateError → ApiError
  unable_to_fail_htlc : ChannelStateError → ApiError
  forwarded_payment_not_applicable : ChannelStateError → ApiError
  failed_to_become_ready : ChannelStateError → ApiError
  no_state_for_channel_id : ChannelId → ApiError
  no_channel_with_user_channel_id : ℕ → ApiError
  unknown_user_channel_id : ℕ → ApiError
  duplicate_request_id : ApiError
  channel_not_found : ℕ → ApiError
  no_existing_state : PublicKey → ApiError
  order_state_error : Inbound.ChannelStateError → ApiError
  order_not_found : OrderId → ApiError
  from_channel_manager : ℕ → ApiError

-- How a call ends: `panicked` stands for the unwinding of the thread.
pub data Outcome (E : Type 0) : Type 0 where
  done : Outcome E
  failed : E → Outcome E
  panicked : Outcome E

-- `forward_intercepted_htlc` and `fail_intercepted_htlc`.
pub data Call : Type 0 where
  forward : InterceptId → ChannelId → PublicKey → ℕ → Call
  fail : InterceptId → Call

-- The answer to a call after the calls before it; `none` is `Ok(())`.
abbrev pub Answers : Type 0
Answers = List Call → Call → Option ℕ

pub record World (S : Type 0) : Type 0 where
  pub handler : S
  pub pending_messages : MessageQueue
  pub pending_events : EventQueue
  pub calls : List Call

abbrev pub answered : Option ℕ → Outcome ApiError
answered none = done
answered (some code) = failed (from_channel_manager code)

-- The six answers of LSPS1, for the messages of errors about one.
pub data Answer : Type 0 where
  get_info_answer : Answer
  get_info_error_answer : Answer
  create_order_answer : Answer
  create_order_error_answer : Answer
  get_order_answer : Answer
  get_order_error_answer : Answer

-- The messages of a `LightningError`, all with the action `IgnoreAndLog`.
pub data LightningError : Type 0 where
  refused : Text → LightningError
  unexpected_message : PublicKey → LightningError
  unknown_get_info_response : RequestId → LightningError
  unknown_get_info_error : RequestId → LightningError
  unknown_buy_response : RequestId → LightningError
  unknown_buy_error : RequestId → LightningError
  invalid_intercept_scid : Text → LightningError
  get_info_response_from_unknown_peer : PublicKey → LightningError
  get_info_error_from_unknown_peer : PublicKey → LightningError
  buy_response_from_unknown_peer : PublicKey → LightningError
  buy_error_from_unknown_peer : PublicKey → LightningError
  unknown_answer : Answer → RequestId → LightningError
  answer_for_unknown_channel : Answer → ℕ → LightningError
  answer_from_unknown_peer : Answer → PublicKey → LightningError
  inbound_state_error : Inbound.ChannelStateError → LightningError
  fees_too_high : ℕ → LightningError
  unsupported_client_order : OrderParams → LightningError
  unknown_order : OrderId → LightningError
  get_order_from_unknown_peer : PublicKey → LightningError
  outbound_state_error : Outbound.State → LightningError
  list_protocols_failed : ResponseError → LightningError
  message_not_understood : PublicKey → LightningError
  no_lsps0_service_handler : PublicKey → LightningError
  no_lsps1_service_handler : PublicKey → LightningError
  no_lsps1_client_handler : PublicKey → LightningError
  no_lsps2_service_handler : PublicKey → LightningError
  no_lsps2_client_handler : PublicKey → LightningError
  ignoring_message : PublicKey → LightningError
  failed_to_deserialize : PublicKey → LightningError

module _ {S : Type 0} where
  abbrev pub send : World S → PublicKey → LspsMessage → World S
  send w node msg = record w { pending_messages = MessageQueue.enqueue w.pending_messages node msg }

  abbrev pub emit : World S → Event → World S
  emit w event = record w { pending_events = Events.enqueue w.pending_events event }

  unfoldable pub call : Answers → Call → World S → World S × Outcome ApiError
  call answers c w = (record w { calls = w.calls ++ c ∷ [] }, answered (answers w.calls c))

  -- `for (id, amount) in amounts { forward_intercepted_htlc(id, ..)?; }`.
  unfoldable pub forward_all :
      Answers
      → ChannelId
      → PublicKey
      → List (InterceptId × ℕ)
      → World S
      → World S × Outcome ApiError
  unfolding call
  forward_all answers channel_id node [] w = (w, done)
  forward_all answers channel_id node ((id, amount) ∷ rest) w =
      let r = call answers (forward id channel_id node amount) w in
      elim r.1 [
        | done ↦ forward_all answers channel_id node rest r.0
        | failed e ↦ (r.0, failed e)
        | panicked ↦ (r.0, panicked)
      ]
