-- ===== src/Lsps1/Client.antt =====
-- `LSPS1ClientHandler` of src/lsps1/client.rs. The random bytes of the entropy source are an
-- argument of the calls that draw them.
pub mod Status
pub mod Fees
use lightning_liquidity.Base.{ℕ, ◌-◌, ◌&&◌, Option, none, some, List, [], ltb, ◌==◌, if◌then◌else◌}
use lightning_liquidity.Base.Keys.{nat_eq, list_eq}
use lightning_liquidity.Base.Maps
use lightning_liquidity.Base.Maps.{Map}
use lightning_liquidity.Base.Words.{u64_mod, wrapping_add}
use lightning_liquidity.Types.{PublicKey, RequestId}
use lightning_liquidity.Utils.{generate_request_id}
use lightning_liquidity.Lsps0.Ser.{ResponseError}
use lightning_liquidity.Lsps1.Msgs.{
  OrderId, OrderParams, GetInfoResponse, CreateOrderResponse, Request, get_info, create_order,
  get_order, get_info_ok, get_info_error, create_order_ok, create_order_error, get_order_ok,
  get_order_error, Message, request, response,
}
use lightning_liquidity.Lsps1.Inbound.{
  InboundCrChannel, ChannelStateError, new_channel, channel_info_received, channel_order_requested,
  channel_order_received, channel_pay_for_channel,
}
use lightning_liquidity.Lsps1.Event
use lightning_liquidity.Events.{lsps1_client}
use lightning_liquidity.MessageQueue.{lsps1}
use lightning_liquidity.World.{
  World, Outcome, done, failed, ApiError, channel_not_found, no_existing_state, order_state_error,
  LightningError, unexpected_message, Answer, get_info_answer, get_info_error_answer,
  create_order_answer, create_order_error_answer, get_order_answer, get_order_error_answer,
  unknown_answer, answer_for_unknown_channel, answer_from_unknown_peer, inbound_state_error,
  fees_too_high, send, emit,
}

pub record PeerState : Type 0 where
  pub inbound_channels_by_id : Map ℕ InboundCrChannel
  pub request_to_cid : Map RequestId ℕ
  pub pending_requests : Map RequestId Request

-- `PeerState::default()`.
unfoldable pub new_peer : PeerState
new_peer = record { inbound_channels_by_id = []; request_to_cid = []; pending_requests = [] }

-- With the field `max_channel_fees_msat` of `LSPS1ClientConfig`.
pub record Client : Type 0 where
  pub per_peer_state : Map PublicKey PeerState
  pub max_channel_fees_msat : Option ℕ

unfoldable pub new : Option ℕ → Client
new max_channel_fees_msat = record {
  per_peer_state = [];
  max_channel_fees_msat = max_channel_fees_msat;
}

abbrev pub peer : World Client → PublicKey → Option PeerState
peer w node = Maps.get node w.handler.per_peer_state

abbrev pub set_peer : World Client → PublicKey → PeerState → World Client
set_peer w node p = record w {
  handler = record w.handler { per_peer_state = Maps.insert node p w.handler.per_peer_state };
}

abbrev pub entry_of : Option PeerState → PeerState
unfolding new_peer
entry_of none = new_peer
entry_of (some p) = p

abbrev pub with_channel : PeerState → ℕ → InboundCrChannel → PeerState
with_channel p cid c = record p {
  inbound_channels_by_id = Maps.insert cid c p.inbound_channels_by_id;
}

abbrev pub without_channel : PeerState → ℕ → PeerState
without_channel p cid = record p {
  inbound_channels_by_id = Maps.remove cid p.inbound_channels_by_id;
}

abbrev pub with_request : PeerState → RequestId → ℕ → PeerState
with_request p id cid = record p { request_to_cid = Maps.insert id cid p.request_to_cid }

abbrev pub without_request : PeerState → RequestId → PeerState
without_request p id = record p { request_to_cid = Maps.remove id p.request_to_cid }

unfoldable pub send_get_info_request : List ℕ → World Client → PublicKey → ℕ → World Client
unfolding generate_request_id new_channel
send_get_info_request bytes w node user_channel_id =
    let id = generate_request_id bytes in
    let p = entry_of (peer w node) in
    let p' =
      with_request (with_channel p user_channel_id (new_channel user_channel_id)) id
        user_channel_id in
    send (set_peer w node p') node (lsps1 (request id (get_info (record {}))))

abbrev pub Handled : Type 0
Handled = World Client × Outcome LightningError

-- How every handler of an answer begins: the request is taken out, also if its channel is gone.
-- `use` gets the peer's state without the request.
unfoldable pub take_channel :
    World Client
    → RequestId
    → PublicKey
    → Answer
    → (PeerState → ℕ → InboundCrChannel → Handled)
    → Handled
take_channel w id node answer use_channel = elim (peer w node) [
  | none ↦ (w, failed (answer_from_unknown_peer answer node))
  | some p ↦ elim (Maps.get id p.request_to_cid) [
    | none ↦ (w, failed (unknown_answer answer id))
    | some cid ↦
        let p' = without_request p id in
        elim (Maps.get cid p'.inbound_channels_by_id) [
          | none ↦ (set_peer w node p', failed (answer_for_unknown_channel answer cid))
          | some c ↦ use_channel p' cid c
        ]
  ]
]

-- The channel is dropped if its transition failed.
unfoldable pub info_arrived :
    World Client
    → PublicKey
    → PeerState
    → ℕ
    → GetInfoResponse
    → InboundCrChannel × Option ChannelStateError
    → Handled
info_arrived w node p cid result (c, some e) =
    (set_peer w node (without_channel p cid), failed (inbound_state_error e))
info_arrived w node p cid result (c, none) = (
  emit (set_peer w node (with_channel p cid c))
      (lsps1_client (Event.get_info_response cid node result.website result.options)),
  done,
)

unfoldable pub handle_get_info_response :
    World Client → RequestId → PublicKey → GetInfoResponse → Handled
unfolding take_channel info_arrived
handle_get_info_response w id node result =
    take_channel w id node get_info_answer
      λ p cid c. info_arrived w node p cid result (channel_info_received c result.options)

-- The answers that only take their request out.
unfoldable pub forget_request : World Client → RequestId → PublicKey → Answer → Handled
unfolding take_channel
forget_request w id node answer = take_channel w id node answer λ p cid c. (set_peer w node p, done)

unfoldable pub handle_get_info_error :
    World Client → RequestId → PublicKey → ResponseError → Handled
unfolding forget_request
handle_get_info_error w id node error = forget_request w id node get_info_error_answer

unfoldable pub order_placed :
    List ℕ
    → World Client
    → PublicKey
    → PeerState
    → ℕ
    → OrderParams
    → InboundCrChannel × Option ChannelStateError
    → World Client × Outcome ApiError
unfolding generate_request_id
order_placed bytes w node p cid order (c, some e) =
    (set_peer w node (without_channel p cid), failed (order_state_error e))
order_placed bytes w node p cid order (c, none) =
    let id = generate_request_id bytes in
    (
      send (set_peer w node (with_request (with_channel p cid c) id cid)) node
          (lsps1 (request id (create_order (record { order = order })))),
      done,
    )

unfoldable pub place_order :
    List ℕ → World Client → ℕ → PublicKey → OrderParams → World Client × Outcome ApiError
unfolding order_placed
place_order bytes w user_channel_id node order = elim (peer w node) [
  | none ↦ (w, failed (no_existing_state node))
  | some p ↦ elim (Maps.get user_channel_id p.inbound_channels_by_id) [
    | none ↦ (w, failed (channel_not_found user_channel_id))
    | some c ↦ order_placed bytes w node p user_channel_id order (channel_order_requested c order)
  ]
]

-- The fees in satoshi are compared with the maximum in millisatoshi.
unfoldable pub check_fees : World Client → PublicKey → PeerState → ℕ → CreateOrderResponse → Handled
check_fees w node p cid r =
    let total_fees = wrapping_add r.payment.fee_total_sat r.order.client_balance_sat in
    let max_channel_fees_msat : ℕ = elim w.handler.max_channel_fees_msat [
      | none ↦ u64_mod - 1
      | some m ↦ m
    ] in
    if (total_fees == r.payment.order_total_sat) && ltb total_fees max_channel_fees_msat
    then (
      emit (set_peer w node p)
          (lsps1_client (Event.display_order cid node r.order r.payment r.channel)),
      done,
    )
    else (set_peer w node (without_channel p cid), failed (fees_too_high total_fees))

unfoldable pub order_confirmed :
    World Client
    → PublicKey
    → PeerState
    → ℕ
    → CreateOrderResponse
    → InboundCrChannel × Option ChannelStateError
    → Handled
unfolding check_fees
order_confirmed w node p cid r (c, some e) =
    (set_peer w node (without_channel p cid), failed (inbound_state_error e))
order_confirmed w node p cid r (c, none) = check_fees w node (with_channel p cid c) cid r

unfoldable pub handle_create_order_response :
    World Client → RequestId → PublicKey → CreateOrderResponse → Handled
unfolding take_channel order_confirmed
handle_create_order_response w id node r =
    take_channel w id node create_order_answer
      λ p cid c. order_confirmed w node p cid r (channel_order_received c r.order r.order_id)

unfoldable pub handle_create_order_error :
    World Client → RequestId → PublicKey → ResponseError → Handled
unfolding forget_request
handle_create_order_error w id node error = forget_request w id node create_order_error_answer

unfoldable pub status_asked :
    List ℕ
    → World Client
    → PublicKey
    → PeerState
    → OrderId
    → ℕ
    → InboundCrChannel × Option ChannelStateError
    → World Client × Outcome ApiError
unfolding generate_request_id
status_asked bytes w node p order_id cid (c, some e) =
    (set_peer w node (without_channel p cid), failed (order_state_error e))
status_asked bytes w node p order_id cid (c, none) =
    let id = generate_request_id bytes in
    (
      send (set_peer w node (with_request (with_channel p cid c) id cid)) node
          (lsps1 (request id (get_order (record { order_id = order_id })))),
      done,
    )

unfoldable pub check_order_status :
    List ℕ → World Client → PublicKey → OrderId → ℕ → World Client × Outcome ApiError
unfolding status_asked
check_order_status bytes w node order_id user_channel_id = elim (peer w node) [
  | none ↦ (w, failed (no_existing_state node))
  | some p ↦ elim (Maps.get user_channel_id p.inbound_channels_by_id) [
    | none ↦ (w, failed (channel_not_found user_channel_id))
    | some c ↦
        status_asked bytes w node p order_id user_channel_id
          (channel_pay_for_channel c user_channel_id)
  ]
]

unfoldable pub handle_get_order_response :
    World Client → RequestId → PublicKey → CreateOrderResponse → Handled
unfolding forget_request
handle_get_order_response w id node params = forget_request w id node get_order_answer

unfoldable pub handle_get_order_error :
    World Client → RequestId → PublicKey → ResponseError → Handled
unfolding forget_request
handle_get_order_error w id node params = forget_request w id node get_order_error_answer

unfoldable pub handle_message : World Client → Message → PublicKey → Handled
unfolding handle_get_info_response handle_get_info_error handle_create_order_response
    handle_create_order_error handle_get_order_response handle_get_order_error
handle_message w (response id (get_info_ok r)) node = handle_get_info_response w id node r
handle_message w (response id (get_info_error e)) node = handle_get_info_error w id node e
handle_message w (response id (create_order_ok r)) node = handle_create_order_response w id node r
handle_message w (response id (create_order_error e)) node = handle_create_order_error w id node e
handle_message w (response id (get_order_ok r)) node = handle_get_order_response w id node r
handle_message w (response id (get_order_error e)) node = handle_get_order_error w id node e
handle_message w (request id r) node = (w, failed (unexpected_message node))
