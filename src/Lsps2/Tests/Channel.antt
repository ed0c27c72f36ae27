-- ===== src/Lsps2/Tests/Channel.antt =====
-- The theorems on the just-in-time channels of src/lsps2/service.rs at concrete inputs.
use mathlib.Core.List.{Perm}
use lightning_liquidity.Base.{List, ◌++◌, ◌≡◌, none, some, [], ◌∷◌}
use lightning_liquidity.Base.Keys.{nat_eq}
use lightning_liquidity.Lsps2.JitChannel.{payment_size_violates_limits}
use lightning_liquidity.Lsps2.JitChannel.Channel
use lightning_liquidity.Lsps2.JitChannel.Channel.{OutboundJitChannel, new_channel}
use lightning_liquidity.Lsps2.JitChannel.Conserve.{held_htlcs}
use lightning_liquidity.Lsps2.JitChannel.Reach.{
  Reachable, start, next, intercepted, IsValidChannel, Reachable-IsValidChannel,
  refused_htlc_strands_none,
}
use lightning_liquidity.Lsps2.JitChannel.Run.{
  ChannelCall, intercept, become_ready, fail_handling, complete_forward, all_brought, run, run-perm,
}
use lightning_liquidity.Lsps2.Tests.Data.{
  params, htlc, waiting_channel, opened_channel, opens, refused,
}

opened-Reachable : Reachable (some 9000) params 9 opened_channel
opened-Reachable = next start (intercepted waiting_channel (htlc 1 9000 7) _ opens)

Reachable-IsValidChannel_example :
    (opened_channel.opening_fee_params ≡ params)
    × (opened_channel.payment_size_msat ≡ some 9000)
    × (opened_channel.user_channel_id ≡ 9)
    × IsValidChannel opened_channel
Reachable-IsValidChannel_example =
    Reachable-IsValidChannel (some 9000) params 9 opened_channel opened-Reachable

refused_htlc_strands_none_example :
    (held_htlcs (new_channel none params 9).state ≡ [])
    × (held_htlcs (Channel.htlc_intercepted (new_channel none params 9) (htlc 1 50 7)).0.state
        ≡ htlc 1 50 7 ∷ [])
refused_htlc_strands_none_example =
    refused_htlc_strands_none none params 9 (new_channel none params 9) (htlc 1 50 7)
      (payment_size_violates_limits 50 1000 1000000) start refused

-- Two HTLCs open the channel, which then is ready and hands them over.
abbrev calls : List ChannelCall
calls =
    intercept (htlc 1 4000 7)
    ∷ intercept (htlc 2 5000 7)
    ∷ become_ready 3
    ∷ fail_handling
    ∷ complete_forward
    ∷ intercept (htlc 3 10 8)
    ∷ []

run-perm_example :
    Perm
      (all_brought calls ++ held_htlcs waiting_channel.state)
      ((run calls waiting_channel).1 ++ held_htlcs (run calls waiting_channel).0.state)
run-perm_example = run-perm calls waiting_channel
