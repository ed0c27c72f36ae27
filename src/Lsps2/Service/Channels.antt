-- ===== src/Lsps2/Service/Channels.antt =====
-- The events of the channel manager that the user forwards to `LSPS2ServiceHandler` of
-- src/lsps2/service.rs. `answers` is what the channel manager answers to the calls made here.
use lightning_liquidity.Base.{ℕ, Option, none, some, List, map}
use lightning_liquidity.Base.Keys.{nat_eq}
use lightning_liquidity.Base.Maps
use lightning_liquidity.Base.Results.{Result, ok, err}
use lightning_liquidity.Types.{PublicKey, ChannelId, InterceptId}
use lightning_liquidity.Lsps2.PaymentQueue.{InterceptedHtlc}
use lightning_liquidity.Lsps2.Split.{calculate_amount_to_forward_per_htlc}
use lightning_liquidity.Lsps2.JitChannel.{
  HtlcInterceptedAction, open_channel, forward_htlc, forward_payment, FeePayment,
  ForwardPaymentAction, ForwardHtlcsAction, ChannelStateError,
}
use lightning_liquidity.Lsps2.JitChannel.Channel
use lightning_liquidity.Lsps2.JitChannel.Channel.{OutboundJitChannel}
use lightning_liquidity.Lsps2.Event
use lightning_liquidity.Events.{lsps2_service}
use lightning_liquidity.World.{
  World, Outcome, done, failed, panicked, ApiError, no_counterparty_for_scid, channel_state_error,
  unable_to_fail_htlc, forwarded_payment_not_applicable, failed_to_become_ready,
  no_counterparty_state, no_state_for_channel_id, no_channel_with_user_channel_id,
  unknown_user_channel_id, Answers, forward, fail, emit, call, forward_all,
}
use lightning_liquidity.Lsps2.Service.{PeerState, Service, peer, set_peer}

abbrev pub Step : Type 0
Step = World Service × Outcome ApiError

-- `outbound_channels_by_intercept_scid.get_mut`: the channel that was mutated in place.
abbrev pub set_channel :
    World Service → PublicKey → PeerState → ℕ → OutboundJitChannel → World Service
set_channel w node p scid c = set_peer w node (record p {
  outbound_channels_by_intercept_scid = Maps.insert scid c p.outbound_channels_by_intercept_scid;
})

abbrev pub drop_channel : World Service → PublicKey → PeerState → ℕ → World Service
drop_channel w node p scid = set_peer w node (record p {
  outbound_channels_by_intercept_scid = Maps.remove scid p.outbound_channels_by_intercept_scid;
})

-- Forwards the HTLCs of a payment with the opening fee taken out of them.
unfoldable pub forward_fee_payment :
    Answers → ChannelId → PublicKey → FeePayment → World Service → Step
forward_fee_payment answers channel_id node payment w =
    elim (calculate_amount_to_forward_per_htlc payment.htlcs payment.opening_fee_msat) [
      | none ↦ (w, panicked)
      | some amounts ↦ forward_all answers channel_id node amounts w
    ]

-- The HTLC is failed first; if that fails the channel stays.
abbrev pub after_fail :
    World Service → PublicKey → PeerState → ℕ → ChannelStateError → Outcome ApiError → Step
after_fail w node p scid e done = (drop_channel w node p scid, failed (channel_state_error e))
after_fail w node p scid e (failed a) = (w, failed a)
after_fail w node p scid e panicked = (w, panicked)

-- What is done with the channel's answer; `p` is the peer's state before, `w` the world with the
-- mutated channel.
unfoldable pub act_on_intercepted :
    Answers
    → World Service
    → PublicKey
    → PeerState
    → ℕ
    → OutboundJitChannel
    → InterceptedHtlc
    → Result ChannelStateError (Option HtlcInterceptedAction)
    → Step
unfolding forward_fee_payment
act_on_intercepted answers w node p scid c htlc (ok (some (open_channel params))) = (
  emit w (
      lsps2_service (
        Event.open_channel (record {
          their_network_key = node;
          amt_to_forward_msat = params.amt_to_forward_msat;
          opening_fee_msat = params.opening_fee_msat;
          user_channel_id = c.user_channel_id;
          intercept_scid = scid;
        }))),
  done,
)
act_on_intercepted answers w node p scid c htlc (ok (some (forward_htlc channel_id))) =
    call answers (forward htlc.intercept_id channel_id node htlc.expected_outbound_amount_msat) w
act_on_intercepted answers w node p scid c htlc (ok (some (forward_payment channel_id payment))) =
    forward_fee_payment answers channel_id node payment w
act_on_intercepted answers w node p scid c htlc (ok none) = (w, done)
act_on_intercepted answers w node p scid c htlc (err e) =
    let r = call answers (fail htlc.intercept_id) w in after_fail r.0 node p scid e r.1

unfoldable pub htlc_intercepted : Answers → World Service → ℕ → InterceptedHtlc → Step
unfolding act_on_intercepted
htlc_intercepted answers w scid htlc = elim (Maps.get scid w.handler.peer_by_intercept_scid) [
  | none ↦ (w, done)
  | some node ↦ elim (peer w node) [
    | none ↦ (w, failed (no_counterparty_for_scid scid))
    | some p ↦ elim (Maps.get scid p.outbound_channels_by_intercept_scid) [
      | none ↦ (w, done)
      | some c ↦
          let r = Channel.htlc_intercepted c htlc in
          act_on_intercepted answers (set_channel w node p scid r.0) node p scid r.0 htlc r.1
    ]
  ]
]

-- `HTLCDestination`; only `NextHopChannel` is looked at.
pub data HtlcDestination : Type 0 where
  next_hop_channel : ChannelId → HtlcDestination
  other_destination : HtlcDestination

unfoldable pub act_on_failed :
    Answers
    → World Service
    → PublicKey
    → Result ChannelStateError (Option ForwardPaymentAction)
    → Step
act_on_failed answers w node (ok (some a)) =
    forward_fee_payment answers a.channel_id node a.payment w
act_on_failed answers w node (ok none) = (w, done)
act_on_failed answers w node (err e) = (w, failed (unable_to_fail_htlc e))

unfoldable pub htlc_handling_failed : Answers → World Service → HtlcDestination → Step
unfolding act_on_failed
htlc_handling_failed answers w other_destination = (w, done)
htlc_handling_failed answers w (next_hop_channel channel_id) =
    elim (Maps.get channel_id w.handler.peer_by_channel_id) [
      | none ↦ (w, done)
      | some node ↦ elim (peer w node) [
        | none ↦ (w, done)
        | some p ↦ elim (Maps.get channel_id p.intercept_scid_by_channel_id) [
          | none ↦ (w, done)
          | some scid ↦ elim (Maps.get scid p.outbound_channels_by_intercept_scid) [
            | none ↦ (w, done)
            | some c ↦
                let r = Channel.htlc_handling_failed c in
                act_on_failed answers (set_channel w node p scid r.0) node r.1
          ]
        ]
      ]
    ]

-- Each HTLC with its whole amount.
abbrev pub whole_amounts : List InterceptedHtlc → List (InterceptId × ℕ)
whole_amounts = map λ htlc. (htlc.intercept_id, htlc.expected_outbound_amount_msat)

unfoldable pub act_on_forwarded :
    Answers
    → World Service
    → PublicKey
    → Result ChannelStateError (Option ForwardHtlcsAction)
    → Step
act_on_forwarded answers w node (ok (some a)) =
    forward_all answers a.channel_id node (whole_amounts a.htlcs) w
act_on_forwarded answers w node (ok none) = (w, done)
act_on_forwarded answers w node (err e) = (w, failed (forwarded_payment_not_applicable e))

-- `LSPS2ServiceHandler::payment_forwarded`.
unfoldable pub on_payment_forwarded : Answers → World Service → ChannelId → Step
unfolding act_on_forwarded
on_payment_forwarded answers w channel_id =
    elim (Maps.get channel_id w.handler.peer_by_channel_id) [
      | none ↦ (w, done)
      | some node ↦ elim (peer w node) [
        | none ↦ (w, failed (no_counterparty_state node))
        | some p ↦ elim (Maps.get channel_id p.intercept_scid_by_channel_id) [
          | none ↦ (w, failed (no_state_for_channel_id channel_id))
          | some scid ↦ elim (Maps.get scid p.outbound_channels_by_intercept_scid) [
            | none ↦ (w, done)
            | some c ↦
                let r = Channel.on_payment_forwarded c in
                act_on_forwarded answers (set_channel w node p scid r.0) node r.1
          ]
        ]
      ]
    ]

unfoldable pub act_on_ready :
    Answers → World Service → PublicKey → Result ChannelStateError ForwardPaymentAction → Step
act_on_ready answers w node (ok a) = forward_fee_payment answers a.channel_id node a.payment w
act_on_ready answers w node (err e) = (w, failed (failed_to_become_ready e))

-- The two indices of a channel that has become ready.
abbrev pub index_channel : World Service → ChannelId → PublicKey → World Service
index_channel w channel_id node = record w {
  handler = record w.handler {
    peer_by_channel_id = Maps.insert channel_id node w.handler.peer_by_channel_id;
  };
}

abbrev pub with_channel_id : PeerState → ChannelId → ℕ → PeerState
with_channel_id p channel_id scid = record p {
  intercept_scid_by_channel_id = Maps.insert channel_id scid p.intercept_scid_by_channel_id;
}

unfoldable pub ready_in : Answers → World Service → PublicKey → PeerState → ℕ → ChannelId → ℕ → Step
unfolding act_on_ready
ready_in answers w node p user_channel_id channel_id scid =
    let p' = with_channel_id p channel_id scid in
    elim (Maps.get scid p'.outbound_channels_by_intercept_scid) [
      | none ↦ (set_peer w node p', failed (no_channel_with_user_channel_id user_channel_id))
      | some c ↦
          let r = Channel.channel_ready c channel_id in
          act_on_ready answers (set_channel w node p' scid r.0) node r.1
    ]

unfoldable pub channel_ready : Answers → World Service → ℕ → ChannelId → PublicKey → Step
unfolding ready_in
channel_ready answers w user_channel_id channel_id node =
    let w' = index_channel w channel_id node in
    elim (peer w' node) [
      | none ↦ (w', failed (no_counterparty_state node))
      | some p ↦ elim (Maps.get user_channel_id p.intercept_scid_by_user_channel_id) [
        | none ↦ (w', failed (unknown_user_channel_id user_channel_id))
        | some scid ↦ ready_in answers w' node p user_channel_id channel_id scid
      ]
    ]
