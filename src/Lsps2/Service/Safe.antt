-- ===== src/Lsps2/Service/Safe.antt =====
-- What `LSPS2ServiceHandler` of src/lsps2/service.rs stores after any calls, and what is lost when it
-- drops a channel.
use lightning_liquidity.Base.{ℕ, ◌≡◌, refl, Option, none, some, List, [], ◌∷◌, ◌++◌, subst, sym}
use lightning_liquidity.Base.Keys.{nat_eq, list_eq}
use lightning_liquidity.Base.Maps
use lightning_liquidity.Base.Results.{err}
use lightning_liquidity.Types.{PublicKey}
use lightning_liquidity.Lsps2.Promise.{Crypto}
use lightning_liquidity.Lsps2.PaymentQueue.{InterceptedHtlc}
use lightning_liquidity.Lsps2.JitChannel.{ChannelStateError}
use lightning_liquidity.Lsps2.JitChannel.Channel
use lightning_liquidity.Lsps2.JitChannel.Channel.{OutboundJitChannel}
use lightning_liquidity.Lsps2.JitChannel.Conserve.{held_htlcs}
use lightning_liquidity.Lsps2.JitChannel.Reach.{
  refused_htlc_strands_none, IsValidChannel, Reachable-IsValidChannel,
}
use lightning_liquidity.World.{World, Answers, fail, failed, channel_state_error}
use lightning_liquidity.Lsps2.Service.{PeerState, Service, new, peer}
use lightning_liquidity.Lsps2.Service.Channels.{htlc_intercepted}
use lightning_liquidity.Lsps2.Service.Refusal.{channel_in, channel_of, htlc_intercepted-Refused}
use lightning_liquidity.Lsps2.Service.Stored.{
  HasComeUp, IsSound, IsSoundService, FailsHtlcs, peer-IsSoundPeer, stored_channel,
}
use lightning_liquidity.Lsps2.Service.Run.{ServiceCall, run, run-IsSound}

new-IsSound : (secret : List ℕ) (w : World Service) → w.handler ≡ new secret → IsSound w
unfolding new
new-IsSound secret w e = subst IsSoundService (sym e) tt

-- A peer whose channel is stored.
record Found (w : World Service) (node : PublicKey) (scid : ℕ) (c : OutboundJitChannel)
    : Type 0 where
  pub state : PeerState
  pub at_node : peer w node ≡ some state
  pub at_scid : Maps.get scid state.outbound_channels_by_intercept_scid ≡ some c

find :
    (w : World Service) (node : PublicKey) (scid : ℕ) (ch : OutboundJitChannel)
    (o : Option PeerState)
    → peer w node ≡ o
    → channel_in o scid ≡ some ch
    → Found w node scid ch
find w node scid ch none e i = cc
find w node scid ch (some p) e i = record { state = p; at_node = e; at_scid = i }

stored-HasComeUp :
    (w : World Service) (node : PublicKey) (scid : ℕ) (ch : OutboundJitChannel)
    → IsSound w
    → channel_of w node scid ≡ some ch
    → HasComeUp ch
stored-HasComeUp w node scid ch h i =
    let f = find w node scid ch _ refl i in
    stored_channel f.state scid ch (peer-IsSoundPeer w node f.state h f.at_node) f.at_scid

-- After any calls on a new service, whose channel manager never refuses to fail an HTLC, every
-- stored channel is valid: its queue is, it holds HTLCs at first only for an accepted payment size,
-- it is opened only for a payment that is worth more than the fee, and it waits for a payment only
-- while none of its payments is large enough.
pub run-IsValidChannel :
    (c : Crypto) (answers : Answers) (calls : List ServiceCall) (w : World Service)
    (secret : List ℕ) (node : PublicKey) (scid : ℕ) (ch : OutboundJitChannel)
    → FailsHtlcs answers
    → w.handler ≡ new secret
    → channel_of (run c answers calls w) node scid ≡ some ch
    → IsValidChannel ch
run-IsValidChannel c answers calls w secret node scid ch f e i =
    let h =
      stored-HasComeUp (run c answers calls w) node scid ch
        (run-IsSound c answers calls w f (new-IsSound secret w e)) i in
    (Reachable-IsValidChannel h.size h.params h.user_channel_id ch h.reached).3

-- After any calls on a new service, whose channel manager never refuses to fail an HTLC, a stored
-- channel that refuses an intercepted HTLC, and that the index of intercept scids leads to, holds
-- no HTLC. The service has the refused one failed by one call, drops the channel and returns its
-- error, so no HTLC is lost with the channel.
pub run-strands_none :
    (c : Crypto) (answers : Answers) (calls : List ServiceCall) (w : World Service)
    (secret : List ℕ) (node : PublicKey) (scid : ℕ) (ch : OutboundJitChannel) (x : InterceptedHtlc)
    (error : ChannelStateError)
    → FailsHtlcs answers
    → w.handler ≡ new secret
    → Maps.get scid (run c answers calls w).handler.peer_by_intercept_scid ≡ some node
    → channel_of (run c answers calls w) node scid ≡ some ch
    → (Channel.htlc_intercepted ch x).1 ≡ err error
    → let before = run c answers calls w in
      let after = htlc_intercepted answers before scid x in
      (held_htlcs ch.state ≡ [])
      × (after.0.calls ≡ before.calls ++ fail x.intercept_id ∷ [])
      × (after.1 ≡ failed (channel_state_error error))
      × (channel_of after.0 node scid ≡ none)
run-strands_none c answers calls w secret node scid ch x error f e at_peer i refused =
    let before = run c answers calls w in
    let h =
      stored-HasComeUp before node scid ch
        (run-IsSound c answers calls w f (new-IsSound secret w e)) i in
    let found = find before node scid ch _ refl i in
    let r =
      htlc_intercepted-Refused answers before scid x node found.state ch error at_peer found.at_node
        found.at_scid refused in
    let dropped = r.1 (f before.calls x.intercept_id) in
    (
      (refused_htlc_strands_none h.size h.params h.user_channel_id ch x error h.reached refused).0,
      r.0,
      dropped.0,
      dropped.1,
    )
