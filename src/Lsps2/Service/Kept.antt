-- ===== src/Lsps2/Service/Kept.antt =====
-- An intercepted HTLC at `LSPS2ServiceHandler` of src/lsps2/service.rs keeps every stored channel one
-- that has come up.
use lightning_liquidity.Base.{ℕ, ◌≡◌, refl, Option, none, some, Option-cases, inl, inr, arith}
use lightning_liquidity.Base.Keys.{nat_eq}
use lightning_liquidity.Base.Maps
use lightning_liquidity.Base.Maps.{
  insert-AllValues, insert_again-AllValues, remove-AllValues, get-AllValues,
}
use lightning_liquidity.Base.Results.{Result, ok, err}
use lightning_liquidity.Types.{PublicKey}
use lightning_liquidity.Lsps2.PaymentQueue.{InterceptedHtlc}
use lightning_liquidity.Lsps2.JitChannel.{
  HtlcInterceptedAction, open_channel, forward_htlc, forward_payment, ChannelStateError,
}
use lightning_liquidity.Lsps2.JitChannel.Channel
use lightning_liquidity.Lsps2.JitChannel.Channel.{OutboundJitChannel}
use lightning_liquidity.Lsps2.JitChannel.Reach.{intercepted}
use lightning_liquidity.World.{World, Answers, call}
use lightning_liquidity.Lsps2.Service.{PeerState, Service, peer}
use lightning_liquidity.Lsps2.Service.Channels.{
  set_channel, drop_channel, act_on_intercepted, htlc_intercepted,
}
use lightning_liquidity.Lsps2.Service.Stored.{
  HasComeUp, HasComeUp-next, stored_channel, IsSoundPeer, IsSound, FailsHtlcs, peer-IsSoundPeer,
  set_channel-IsSound, handler-forward_fee_payment, same_handler,
}

act_on_ok :
    (answers : Answers) (w : World Service) (node : PublicKey) (p : PeerState) (scid : ℕ)
    (c : OutboundJitChannel) (x : InterceptedHtlc) (a : Option HtlcInterceptedAction)
    → (act_on_intercepted answers w node p scid c x (ok a)).0.handler ≡ w.handler
unfolding act_on_intercepted call
act_on_ok answers w node p scid c x none = refl
act_on_ok answers w node p scid c x (some (open_channel params)) = refl
act_on_ok answers w node p scid c x (some (forward_htlc id)) = refl
act_on_ok answers w node p scid c x (some (forward_payment id payment)) =
    handler-forward_fee_payment answers id node payment w

-- The HTLC is failed and its channel dropped.
act_on_refusal :
    (answers : Answers) (w : World Service) (node : PublicKey) (p : PeerState) (scid : ℕ)
    (c : OutboundJitChannel) (x : InterceptedHtlc) (e : ChannelStateError)
    → FailsHtlcs answers
    → (act_on_intercepted answers w node p scid c x (err e)).0.handler
      ≡ (drop_channel w node p scid).handler
unfolding act_on_intercepted call
act_on_refusal answers w node p scid c x e f = ground (arith, f w.calls x.intercept_id)

htlc_act-IsSound :
    (answers : Answers) (w : World Service) (node : PublicKey) (p : PeerState) (scid : ℕ)
    (c : OutboundJitChannel) (x : InterceptedHtlc)
    → FailsHtlcs answers
    → IsSound w
    → IsSoundPeer p
    → HasComeUp c
    → let r = Channel.htlc_intercepted c x in
      (o : Result ChannelStateError (Option HtlcInterceptedAction))
      → r.1 ≡ o
      → IsSound (act_on_intercepted answers (set_channel w node p scid r.0) node p scid r.0 x o).0
htlc_act-IsSound answers w node p scid c x f h k g (ok a) e =
    let c' = (Channel.htlc_intercepted c x).0 in
    same_handler (act_on_ok answers (set_channel w node p scid c') node p scid c' x a)
      (set_channel-IsSound w node p scid c' h k (HasComeUp-next c c' g (intercepted c x a e)))
htlc_act-IsSound answers w node p scid c x f h k g (err b) e =
    let c' = (Channel.htlc_intercepted c x).0 in
    same_handler (act_on_refusal answers (set_channel w node p scid c') node p scid c' x b f) (
      insert_again-AllValues IsSoundPeer node _ _ w.handler.per_peer_state
        (remove-AllValues HasComeUp scid p.outbound_channels_by_intercept_scid k) h)

pub htlc_intercepted-IsSound :
    (answers : Answers) (w : World Service) (scid : ℕ) (x : InterceptedHtlc)
    → FailsHtlcs answers
    → IsSound w
    → IsSound (htlc_intercepted answers w scid x).0
unfolding htlc_intercepted
htlc_intercepted-IsSound answers w scid x f h =
    elim (Option-cases (Maps.get scid w.handler.peer_by_intercept_scid)) [
      | inl e ↦ rw (e, htlc_intercepted) h
      | inr (node, e) ↦ elim (Option-cases (peer w node)) [
        | inl e' ↦ rw (e, htlc_intercepted) (rw e' h)
        | inr (p, e') ↦ elim (Option-cases (Maps.get scid p.outbound_channels_by_intercept_scid)) [
          | inl e'' ↦ rw (e, htlc_intercepted) (rw e' (rw e'' h))
          | inr (c, e'') ↦
              let k = peer-IsSoundPeer w node p h e' in
              rw (e, htlc_intercepted)
                (rw e' (
                  rw e'' (
                    htlc_act-IsSound answers w node p scid c x f h k (stored_channel p scid c k e'')
                      _ refl)))
        ]
      ]
    ]
