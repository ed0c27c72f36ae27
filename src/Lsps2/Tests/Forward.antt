-- ===== src/Lsps2/Tests/Forward.antt =====
-- The theorems on the calls that src/lsps2/service.rs makes, at concrete inputs.
use lightning_liquidity.Base.{refl, none, some, [], ◌∷◌, arith}
use lightning_liquidity.Base.Keys.{nat_eq}
use lightning_liquidity.Base.Maps
use lightning_liquidity.Lsps2.PaymentQueue
use lightning_liquidity.Lsps2.PaymentQueue.{PaymentQueue, InterceptedHtlc}
use lightning_liquidity.Lsps2.JitChannel.{payment_size_violates_limits}
use lightning_liquidity.Lsps2.JitChannel.Channel.{OutboundJitChannel, new_channel}
use lightning_liquidity.Lsps2.JitChannel.Conserve.{held_htlcs}
use lightning_liquidity.Lsps2.JitChannel.Reach.{start, next, intercepted}
use lightning_liquidity.World.{World, forward_all, Answers}
use lightning_liquidity.Lsps2.Service.{PeerState, Service}
use lightning_liquidity.Lsps2.Service.Channels.{channel_ready, htlc_intercepted}
use lightning_liquidity.Lsps2.Service.Forward.{Forwards, forwards, forward_all-Forwards}
use lightning_liquidity.Lsps2.Service.Ready.{ForwardsReady, channel_ready-ForwardsReady}
use lightning_liquidity.Lsps2.Service.Refusal.{Refused, htlc_intercepted-Refused}
use lightning_liquidity.Lsps2.Tests.Data.{
  params, htlc, world, waiting_channel, opened_channel, opened_queue, opens, opened_state, refused,
}

-- The channel manager accepts every call.
abbrev accepting : Answers
accepting earlier c = none

abbrev peer_with : OutboundJitChannel → PeerState
peer_with c = record {
  outbound_channels_by_intercept_scid = (42, c) ∷ [];
  intercept_scid_by_user_channel_id = (9, 42) ∷ [];
  intercept_scid_by_channel_id = [];
  pending_requests = [];
}

abbrev world_with : OutboundJitChannel → World Service
world_with c = record world {
  handler = record world.handler {
    per_peer_state = (5, peer_with c) ∷ [];
    peer_by_intercept_scid = (42, 5) ∷ [];
  };
}

channel_ready-ForwardsReady_example :
    ForwardsReady accepting 11 5 100 opened_queue.payments []
      (channel_ready accepting (world_with opened_channel) 9 11 5)
unfolding Maps.get PaymentQueue.all_htlcs
channel_ready-ForwardsReady_example =
    channel_ready-ForwardsReady accepting (world_with opened_channel) 9 11 5
      (peer_with opened_channel) 42 opened_channel (some 9000) params opened_queue 100 refl refl
      refl (next start (intercepted waiting_channel (htlc 1 9000 7) _ opens)) opened_state
      (omega arith) (omega arith, tt)

htlc_intercepted-Refused_example :
    Refused accepting
      (world_with (new_channel none params 9))
      5
      42
      (htlc 1 50 7)
      (held_htlcs (new_channel none params 9).state)
      (payment_size_violates_limits 50 1000 1000000)
      (htlc_intercepted accepting (world_with (new_channel none params 9)) 42 (htlc 1 50 7))
unfolding Maps.get
htlc_intercepted-Refused_example =
    htlc_intercepted-Refused accepting (world_with (new_channel none params 9)) 42 (htlc 1 50 7) 5
      (peer_with (new_channel none params 9)) (new_channel none params 9)
      (payment_size_violates_limits 50 1000 1000000) refl refl refl refused

-- The channel manager accepts the first call only.
abbrev accepting_one : Answers
accepting_one [] c = none
accepting_one (d ∷ ds) c = some 1

forward_all-Forwards_example :
    Forwards accepting_one []
      (forward_all accepting_one 11 5 ((1, 5934) ∷ (2, 2966) ∷ []) world).0.calls
      (forwards 11 5 ((1, 5934) ∷ (2, 2966) ∷ []))
      (forward_all accepting_one 11 5 ((1, 5934) ∷ (2, 2966) ∷ []) world).1
forward_all-Forwards_example =
    forward_all-Forwards accepting_one 11 5 ((1, 5934) ∷ (2, 2966) ∷ []) world
