-- ===== src/Lsps2/Service/Refusal.antt =====
-- What src/lsps2/service.rs does with an HTLC that the channel refuses.
use mathlib.Core.List.{Perm}
use lightning_liquidity.Base.{
  ℕ, ◌≡◌, ◌≢◌, refl, ap, ◌∙◌, Option, none, some, List, [], ◌∷◌, ◌++◌, Option-cases, inl, inr,
}
use lightning_liquidity.Base.Keys.{nat_eq}
use lightning_liquidity.Base.Maps
use lightning_liquidity.Base.Maps.{get-insert_self, get-remove_self}
use lightning_liquidity.Base.Results.{err}
use lightning_liquidity.Types.{PublicKey}
use lightning_liquidity.Lsps2.PaymentQueue.{InterceptedHtlc}
use lightning_liquidity.Lsps2.JitChannel.{ChannelStateError}
use lightning_liquidity.Lsps2.JitChannel.Channel
use lightning_liquidity.Lsps2.JitChannel.Channel.{OutboundJitChannel}
use lightning_liquidity.Lsps2.JitChannel.Conserve.{held_htlcs}
use lightning_liquidity.Lsps2.JitChannel.Run.{intercept, perform-perm}
use lightning_liquidity.World.{
  World, failed, fail, Answers, call, channel_state_error, from_channel_manager,
}
use lightning_liquidity.Lsps2.Service.{PeerState, Service, peer}
use lightning_liquidity.Lsps2.Service.Peers.{peer-set_peer_self, peer-set_peer_other}
use lightning_liquidity.Lsps2.Service.Channels.{
  Step, set_channel, drop_channel, act_on_intercepted, htlc_intercepted,
}

abbrev pub channel_in : Option PeerState → ℕ → Option OutboundJitChannel
channel_in none scid = none
channel_in (some p) scid = Maps.get scid p.outbound_channels_by_intercept_scid

-- The channel of a peer under an intercept scid.
abbrev pub channel_of : World Service → PublicKey → ℕ → Option OutboundJitChannel
channel_of w node scid = channel_in (peer w node) scid

-- The channel is in place and holds the HTLC besides those of `held`.
abbrev Holds : World Service → PublicKey → ℕ → InterceptedHtlc → List InterceptedHtlc → Type 0
Holds w node scid x held =
    (c : OutboundJitChannel) × (channel_of w node scid ≡ some c)
    × Perm (x ∷ held) (held_htlcs c.state)

-- The HTLC is failed. If the channel manager accepts that, the channel is dropped and its error
-- returned; if not, the channel stays and holds the HTLC too, and the manager's error is returned.
-- The other peers are as they were.
abbrev pub Refused :
    Answers
    → World Service
    → PublicKey
    → ℕ
    → InterceptedHtlc
    → List InterceptedHtlc
    → ChannelStateError
    → Step
    → Type 0
Refused answers w node scid x held e (w', outcome) =
    (w'.calls ≡ w.calls ++ fail x.intercept_id ∷ [])
    × (answers w.calls (fail x.intercept_id) ≡ none
        → (outcome ≡ failed (channel_state_error e)) × (channel_of w' node scid ≡ none))
    × ((code : ℕ)
        → answers w.calls (fail x.intercept_id) ≡ some code
        → (outcome ≡ failed (from_channel_manager code)) × Holds w' node scid x held)
    × ((other : PublicKey) → node ≢ other → peer w' other ≡ peer w other)

set_channel-channel_of :
    (w : World Service) (node : PublicKey) (p : PeerState) (scid : ℕ) (c : OutboundJitChannel)
    → channel_of (set_channel w node p scid c) node scid ≡ some c
set_channel-channel_of w node p scid c =
    ap (λ (o : Option PeerState). channel_in o scid) (peer-set_peer_self w node _)
    ∙ get-insert_self scid c p.outbound_channels_by_intercept_scid

drop_channel-channel_of :
    (w : World Service) (node : PublicKey) (p : PeerState) (scid : ℕ)
    → channel_of (drop_channel w node p scid) node scid ≡ none
drop_channel-channel_of w node p scid =
    ap (λ (o : Option PeerState). channel_in o scid) (peer-set_peer_self w node _)
    ∙ get-remove_self scid p.outbound_channels_by_intercept_scid

-- A channel that refuses an HTLC has taken it into its queue.
refused_is_held :
    (c : OutboundJitChannel) (x : InterceptedHtlc) (e : ChannelStateError)
    → (Channel.htlc_intercepted c x).1 ≡ err e
    → Perm (x ∷ held_htlcs c.state) (held_htlcs (Channel.htlc_intercepted c x).0.state)
refused_is_held c x e refused = rw refused at (perform-perm (intercept x) c)

module _ (answers : Answers) (w : World Service) (node : PublicKey) (p : PeerState) (scid : ℕ)
    (c : OutboundJitChannel) (x : InterceptedHtlc) (e : ChannelStateError) where
  act_on_intercepted-Refused :
      (held : List InterceptedHtlc)
      → Perm (x ∷ held) (held_htlcs c.state)
      → Refused answers w node scid x held e
          (act_on_intercepted answers (set_channel w node p scid c) node p scid c x (err e))
  unfolding act_on_intercepted call
  act_on_intercepted-Refused held keeps =
      elim (Option-cases (answers w.calls (fail x.intercept_id))) [
        | inl a ↦
            rw (a, act_on_intercepted)
              (
                refl,
                (λ _. (
                  refl,
                  drop_channel-channel_of
                      (call answers (fail x.intercept_id) (set_channel w node p scid c)).0 node p
                      scid,
                )),
                (λ code b. cc),
                λ other n.
                    peer-set_peer_other (set_channel w node p scid c) node other _ n
                    ∙ peer-set_peer_other w node other _ n,
              )
        | inr (code, a) ↦
            rw (a, act_on_intercepted)
              (
                refl,
                (λ b. cc),
                (λ code' b. (cc, (c, set_channel-channel_of w node p scid c, keeps))),
                λ other n. peer-set_peer_other w node other _ n,
              )
      ]

-- An HTLC that is intercepted for a stored channel, to which the index of intercept scids leads, and
-- that the channel refuses, is failed by one call. If the channel manager accepts the call, the
-- channel is dropped and its error returned; if the manager answers with an error, this error is
-- returned and the channel stays, holding the refused HTLC besides those that it held. In both
-- cases the other peers are as they were.
pub htlc_intercepted-Refused :
    (answers : Answers) (w : World Service) (scid : ℕ) (x : InterceptedHtlc) (node : PublicKey)
    (p : PeerState) (c : OutboundJitChannel) (e : ChannelStateError)
    → Maps.get scid w.handler.peer_by_intercept_scid ≡ some node
    → peer w node ≡ some p
    → Maps.get scid p.outbound_channels_by_intercept_scid ≡ some c
    → (Channel.htlc_intercepted c x).1 ≡ err e
    → Refused answers w node scid x (held_htlcs c.state) e (htlc_intercepted answers w scid x)
unfolding htlc_intercepted
htlc_intercepted-Refused answers w scid x node p c e at_scid at_node at_channel refused =
    rw (at_scid, at_node, at_channel, htlc_intercepted, refused)
      (act_on_intercepted-Refused answers w node p scid (Channel.htlc_intercepted c x).0 x e
        (held_htlcs c.state) (refused_is_held c x e refused))
