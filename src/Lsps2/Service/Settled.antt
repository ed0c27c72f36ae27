-- ===== src/Lsps2/Service/Settled.antt =====
-- A failed forward, a forwarded payment and a channel that is ready, at `LSPS2ServiceHandler` of
-- src/lsps2/service.rs, keep every stored channel one that has come up.
use lightning_liquidity.Base.{ℕ, ◌≡◌, refl, Option, none, some, Option-cases, inl, inr}
use lightning_liquidity.Base.Keys.{nat_eq}
use lightning_liquidity.Base.Maps
use lightning_liquidity.Base.Maps.{
  insert-AllValues, insert_again-AllValues, remove-AllValues, get-AllValues,
}
use lightning_liquidity.Base.Results.{Result, ok, err}
use lightning_liquidity.Types.{PublicKey, ChannelId}
use lightning_liquidity.Lsps2.JitChannel.{
  ForwardPaymentAction, ForwardHtlcsAction, ChannelStateError,
}
use lightning_liquidity.Lsps2.JitChannel.Reach.{ready, handling_failed, forwarded}
use lightning_liquidity.World.{World, Answers}
use lightning_liquidity.Lsps2.Service.{PeerState, Service, peer}
use lightning_liquidity.Lsps2.Service.Channels.{
  HtlcDestination, next_hop_channel, other_destination, act_on_failed, htlc_handling_failed,
  whole_amounts, act_on_forwarded, on_payment_forwarded, act_on_ready, index_channel,
  with_channel_id, ready_in, channel_ready,
}
use lightning_liquidity.Lsps2.Service.Stored.{
  HasComeUp-next, stored_channel, IsSoundPeer, IsSound, peer-IsSoundPeer, set_peer-IsSound,
  set_channel-IsSound, handler-forward_all, handler-forward_fee_payment, same_handler,
}

act_on_failed_lem :
    (answers : Answers) (w : World Service) (node : PublicKey)
    (r : Result ChannelStateError (Option ForwardPaymentAction))
    → (act_on_failed answers w node r).0.handler ≡ w.handler
unfolding act_on_failed
act_on_failed_lem answers w node (ok none) = refl
act_on_failed_lem answers w node (ok (some a)) =
    handler-forward_fee_payment answers a.channel_id node a.payment w
act_on_failed_lem answers w node (err e) = refl

act_on_forwarded_lem :
    (answers : Answers) (w : World Service) (node : PublicKey)
    (r : Result ChannelStateError (Option ForwardHtlcsAction))
    → (act_on_forwarded answers w node r).0.handler ≡ w.handler
unfolding act_on_forwarded
act_on_forwarded_lem answers w node (ok none) = refl
act_on_forwarded_lem answers w node (ok (some a)) =
    handler-forward_all answers a.channel_id node (whole_amounts a.htlcs) w
act_on_forwarded_lem answers w node (err e) = refl

act_on_ready_lem :
    (answers : Answers) (w : World Service) (node : PublicKey)
    (r : Result ChannelStateError ForwardPaymentAction)
    → (act_on_ready answers w node r).0.handler ≡ w.handler
unfolding act_on_ready
act_on_ready_lem answers w node (ok a) =
    handler-forward_fee_payment answers a.channel_id node a.payment w
act_on_ready_lem answers w node (err e) = refl

pub htlc_handling_failed-IsSound :
    (answers : Answers) (w : World Service) (d : HtlcDestination)
    → IsSound w
    → IsSound (htlc_handling_failed answers w d).0
unfolding htlc_handling_failed
htlc_handling_failed-IsSound answers w other_destination h = h
htlc_handling_failed-IsSound answers w (next_hop_channel id) h =
    elim (Option-cases (Maps.get id w.handler.peer_by_channel_id)) [
      | inl e ↦ rw (e, htlc_handling_failed) h
      | inr (node, e) ↦ elim (Option-cases (peer w node)) [
        | inl e' ↦ rw (e, htlc_handling_failed) (rw e' h)
        | inr (p, e') ↦ elim (Option-cases (Maps.get id p.intercept_scid_by_channel_id)) [
          | inl i ↦ rw (e, htlc_handling_failed) (rw e' (rw i h))
          | inr (scid, i) ↦
              elim (Option-cases (Maps.get scid p.outbound_channels_by_intercept_scid)) [
                | inl j ↦ rw (e, htlc_handling_failed) (rw e' (rw i (rw j h)))
                | inr (c, j) ↦
                    let k = peer-IsSoundPeer w node p h e' in
                    rw (e, htlc_handling_failed)
                      (rw e' (
                        rw i (
                          rw j (
                            same_handler (act_on_failed_lem answers _ node _) (
                              set_channel-IsSound w node p scid _ h k (
                                HasComeUp-next c _ (stored_channel p scid c k j)
                                  (handling_failed c)))))))
              ]
        ]
      ]
    ]

pub on_payment_forwarded-IsSound :
    (answers : Answers) (w : World Service) (id : ChannelId)
    → IsSound w
    → IsSound (on_payment_forwarded answers w id).0
unfolding on_payment_forwarded
on_payment_forwarded-IsSound answers w id h =
    elim (Option-cases (Maps.get id w.handler.peer_by_channel_id)) [
      | inl e ↦ rw (e, on_payment_forwarded) h
      | inr (node, e) ↦ elim (Option-cases (peer w node)) [
        | inl e' ↦ rw (e, on_payment_forwarded) (rw e' h)
        | inr (p, e') ↦ elim (Option-cases (Maps.get id p.intercept_scid_by_channel_id)) [
          | inl i ↦ rw (e, on_payment_forwarded) (rw e' (rw i h))
          | inr (scid, i) ↦
              elim (Option-cases (Maps.get scid p.outbound_channels_by_intercept_scid)) [
                | inl j ↦ rw (e, on_payment_forwarded) (rw e' (rw i (rw j h)))
                | inr (c, j) ↦
                    let k = peer-IsSoundPeer w node p h e' in
                    rw (e, on_payment_forwarded)
                      (rw e' (
                        rw i (
                          rw j (
                            same_handler (act_on_forwarded_lem answers _ node _) (
                              set_channel-IsSound w node p scid _ h k (
                                HasComeUp-next c _ (stored_channel p scid c k j) (forwarded c)))))))
              ]
        ]
      ]
    ]

ready_in-IsSound :
    (answers : Answers) (w : World Service) (node : PublicKey) (p : PeerState) (user_channel_id : ℕ)
    (id : ChannelId) (scid : ℕ)
    → IsSound w
    → IsSoundPeer p
    → IsSound (ready_in answers w node p user_channel_id id scid).0
unfolding ready_in
ready_in-IsSound answers w node p u id scid h k =
    elim (Option-cases (Maps.get scid p.outbound_channels_by_intercept_scid)) [
      | inl e ↦ rw (e, ready_in) (set_peer-IsSound w node (with_channel_id p id scid) h k)
      | inr (c, e) ↦
          rw (e, ready_in)
            (same_handler (act_on_ready_lem answers _ node _) (
              set_channel-IsSound w node (with_channel_id p id scid) scid _ h k
                (HasComeUp-next c _ (stored_channel p scid c k e) (ready c id))))
    ]

pub channel_ready-IsSound :
    (answers : Answers) (w : World Service) (user_channel_id : ℕ) (id : ChannelId)
    (node : PublicKey)
    → IsSound w
    → IsSound (channel_ready answers w user_channel_id id node).0
unfolding channel_ready
channel_ready-IsSound answers w u id node h = elim (Option-cases (peer w node)) [
  | inl e ↦ rw (e, channel_ready) h
  | inr (p, e) ↦ elim (Option-cases (Maps.get u p.intercept_scid_by_user_channel_id)) [
    | inl i ↦ rw (e, channel_ready) (rw i h)
    | inr (scid, i) ↦
        rw (e, channel_ready)
          (rw i (
            ready_in-IsSound answers (index_channel w id node) node p u id scid h
              (peer-IsSoundPeer w node p h e)))
  ]
]
