-- ===== src/Lsps1/Client/Status.antt =====
-- Asking for the status of an order at `LSPS1ClientHandler` of src/lsps1/client.rs.
use lightning_liquidity.Base.{ℕ, ◌≡◌, refl, none, some, List, arith}
use lightning_liquidity.Base.Keys.{nat_eq, list_eq}
use lightning_liquidity.Base.Maps
use lightning_liquidity.Base.Maps.{get-insert_self, get-remove_self}
use lightning_liquidity.Types.{PublicKey}
use lightning_liquidity.Utils.{generate_request_id}
use lightning_liquidity.MessageQueue.{lsps1, enqueue}
use lightning_liquidity.Lsps1.Msgs.{OrderId, get_order, request}
use lightning_liquidity.Lsps1.Inbound.{
  pending_payment, awaiting_confirmation, pay_for_channel, channel_pay_for_channel,
  unexpected_response,
}
use lightning_liquidity.Lsps1.Inbound.Reach.{at}
use lightning_liquidity.World.{
  World, Outcome, done, failed, ApiError, channel_not_found, order_state_error, send,
}
use lightning_liquidity.Lsps1.Client.{
  Client, PeerState, peer, set_peer, with_channel, without_channel, with_request,
  check_order_status, status_asked,
}

first_check :
    (bytes : List ℕ) (w : World Client) (node : PublicKey) (order_id held : OrderId) (cid : ℕ)
    (p : PeerState)
    → peer w node ≡ some p
    → Maps.get cid p.inbound_channels_by_id ≡ some (at cid (pending_payment held))
    → check_order_status bytes w node order_id cid ≡ (
      send
          (set_peer w node (
            with_request
              (with_channel p cid (at cid (awaiting_confirmation cid held)))
              (generate_request_id bytes)
              cid))
          node
          (lsps1
            (request (generate_request_id bytes) (get_order (record { order_id = order_id })))),
      done,
    )
unfolding check_order_status status_asked channel_pay_for_channel pay_for_channel
first_check bytes w node order_id held cid p e k = ground arith

later_check :
    (bytes : List ℕ) (w : World Client) (node : PublicKey) (order_id held : OrderId) (cid : ℕ)
    (p : PeerState)
    → peer w node ≡ some p
    → Maps.get cid p.inbound_channels_by_id ≡ some (at cid (awaiting_confirmation cid held))
    → check_order_status bytes w node order_id cid ≡ (
      set_peer w node (without_channel p cid),
      failed (order_state_error (unexpected_response (awaiting_confirmation cid held))),
    )
unfolding check_order_status status_asked channel_pay_for_channel pay_for_channel
later_check bytes w node order_id held cid p e k = ground arith

check_without_channel :
    (bytes : List ℕ) (w : World Client) (node : PublicKey) (order_id : OrderId) (cid : ℕ)
    (p : PeerState)
    → peer w node ≡ some p
    → Maps.get cid p.inbound_channels_by_id ≡ none
    → check_order_status bytes w node order_id cid ≡ (w, failed (channel_not_found cid))
unfolding check_order_status
check_without_channel bytes w node order_id cid p e k = ground arith

module _ (bytes bytes' bytes'' : List ℕ) (w : World Client) (node : PublicKey) (order_id : OrderId)
    (cid : ℕ) where
  abbrev pub first : World Client × Outcome ApiError
  first = check_order_status bytes w node order_id cid

  abbrev pub second : World Client × Outcome ApiError
  second = check_order_status bytes' first.0 node order_id cid

  abbrev pub third : World Client × Outcome ApiError
  third = check_order_status bytes'' second.0 node order_id cid

  -- Three calls, one after the other, check the status of an order whose payment is pending. The
  -- first sends the LSP one get_order request for the order that the caller names, and no other
  -- message; the second fails and sends nothing; it drops the channel, so that the third finds none
  -- and changes nothing.
  pub status_is_checked_once :
      (p : PeerState) (held : OrderId)
      → peer w node ≡ some p
      → Maps.get cid p.inbound_channels_by_id ≡ some (at cid (pending_payment held))
      → (first.1 ≡ done)
        × (first.0.pending_messages
            ≡ enqueue w.pending_messages node (
                lsps1 (
                  request
                    (generate_request_id bytes)
                    (get_order (record { order_id = order_id })))))
        × (second.1
            ≡ failed (order_state_error (unexpected_response (awaiting_confirmation cid held))))
        × (second.0.pending_messages ≡ first.0.pending_messages)
        × (third ≡ (second.0, failed (channel_not_found cid)))
  status_is_checked_once p held e k =
      let c' = at cid (awaiting_confirmation cid held) in
      let p' : PeerState = with_request (with_channel p cid c') (generate_request_id bytes) cid in
      let one = first_check bytes w node order_id held cid p e k in
      let two =
        later_check bytes' first.0 node order_id held cid p'
          (rw one (get-insert_self node p' w.handler.per_peer_state))
          (get-insert_self cid c' p.inbound_channels_by_id) in
      let three =
        check_without_channel bytes'' second.0 node order_id cid (without_channel p' cid)
          (rw two (get-insert_self node _ first.0.handler.per_peer_state))
          (get-remove_self cid p'.inbound_channels_by_id) in
      (rw one refl, rw one refl, rw two refl, rw two refl, three)
