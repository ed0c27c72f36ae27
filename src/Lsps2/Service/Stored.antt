-- ===== src/Lsps2/Service/Stored.antt =====
-- Every channel that `LSPS2ServiceHandler` of src/lsps2/service.rs stores has come up by the calls
-- on a channel: what each operation of the service keeps.
use lightning_liquidity.Base.{
  ℕ, ◌≡◌, refl, sym, subst, Option, none, some, List, [], ◌∷◌, Option-cases, inl, inr, arith,
}
use lightning_liquidity.Base.Keys.{nat_eq, list_eq}
use lightning_liquidity.Base.Maps
use lightning_liquidity.Base.Maps.{
  AllValues, insert-AllValues, insert_again-AllValues, remove-AllValues, get-AllValues,
}
use lightning_liquidity.Types.{PublicKey, ChannelId, InterceptId}
use lightning_liquidity.Lsps2.Msgs.{OpeningFeeParams}
use lightning_liquidity.Lsps2.Split.{calculate_amount_to_forward_per_htlc}
use lightning_liquidity.Lsps2.JitChannel.{FeePayment}
use lightning_liquidity.Lsps2.JitChannel.Channel.{OutboundJitChannel}
use lightning_liquidity.Lsps2.JitChannel.Reach
use lightning_liquidity.Lsps2.JitChannel.Reach.{
  Reachable, start, next, intercepted, ready, handling_failed, forwarded,
}
use lightning_liquidity.World.{World, Answers, Call, forward, fail, call, forward_all}
use lightning_liquidity.Lsps2.Service.{PeerState, Service, peer, set_peer}
use lightning_liquidity.Lsps2.Service.Channels.{set_channel, forward_fee_payment}

-- A channel that comes up from a new one.
pub record HasComeUp (c : OutboundJitChannel) : Type 0 where
  pub size : Option ℕ
  pub params : OpeningFeeParams
  pub user_channel_id : ℕ
  pub reached : Reachable size params user_channel_id c

-- The same after one more call on it.
pub HasComeUp-next : (c d : OutboundJitChannel) → HasComeUp c → Reach.Step c d → HasComeUp d
HasComeUp-next c d h step = record {
  size = h.size;
  params = h.params;
  user_channel_id = h.user_channel_id;
  reached = next h.reached step;
}

abbrev pub IsSoundPeer : PeerState → Type 0
IsSoundPeer p = AllValues HasComeUp p.outbound_channels_by_intercept_scid

-- Every stored channel of every peer has come up.
abbrev pub IsSoundService : Service → Type 0
IsSoundService s = AllValues IsSoundPeer s.per_peer_state

abbrev pub IsSound : World Service → Type 0
IsSound w = IsSoundService w.handler

-- The channel manager never refuses to fail an HTLC.
abbrev pub FailsHtlcs : Answers → Type 0
FailsHtlcs answers = (calls : List Call) (id : InterceptId) → answers calls (fail id) ≡ none

pub set_peer-IsSound :
    (w : World Service) (node : PublicKey) (p : PeerState)
    → IsSound w
    → IsSoundPeer p
    → IsSound (set_peer w node p)
set_peer-IsSound w node p h k = insert-AllValues IsSoundPeer node p w.handler.per_peer_state k h

pub peer-IsSoundPeer :
    (w : World Service) (node : PublicKey) (p : PeerState)
    → IsSound w
    → peer w node ≡ some p
    → IsSoundPeer p
peer-IsSoundPeer w node p h e = get-AllValues IsSoundPeer node p w.handler.per_peer_state h e

pub set_channel-IsSound :
    (w : World Service) (node : PublicKey) (p : PeerState) (scid : ℕ) (c : OutboundJitChannel)
    → IsSound w
    → IsSoundPeer p
    → HasComeUp c
    → IsSound (set_channel w node p scid c)
set_channel-IsSound w node p scid c h k g =
    set_peer-IsSound w node _ h
      (insert-AllValues HasComeUp scid c p.outbound_channels_by_intercept_scid g k)

-- The calls of the channel manager leave the handler alone.
pub handler-forward_all :
    (answers : Answers) (id : ChannelId) (node : PublicKey) (amounts : List (InterceptId × ℕ))
    (w : World Service)
    → (forward_all answers id node amounts w).0.handler ≡ w.handler
unfolding forward_all call
handler-forward_all answers id node [] w = refl
handler-forward_all answers id node ((i, amount) ∷ rest) w =
    ground (
      arith,
      handler-forward_all answers id node rest (call answers (forward i id node amount) w).0,
    )

pub handler-forward_fee_payment :
    (answers : Answers) (id : ChannelId) (node : PublicKey) (payment : FeePayment)
    (w : World Service)
    → (forward_fee_payment answers id node payment w).0.handler ≡ w.handler
unfolding forward_fee_payment
handler-forward_fee_payment answers id node payment w =
    elim (Option-cases
      (calculate_amount_to_forward_per_htlc payment.htlcs payment.opening_fee_msat)) [
        | inl e ↦ rw (e, forward_fee_payment) refl
        | inr (amounts, e) ↦
            rw (e, forward_fee_payment) (handler-forward_all answers id node amounts w)
      ]

pub same_handler : {s s' : Service} → s' ≡ s → IsSoundService s → IsSoundService s'
same_handler e h = subst IsSoundService (sym e) h

-- The channel of a sound peer.
pub stored_channel :
    (p : PeerState) (scid : ℕ) (c : OutboundJitChannel)
    → IsSoundPeer p
    → Maps.get scid p.outbound_channels_by_intercept_scid ≡ some c
    → HasComeUp c
stored_channel p scid c h e =
    get-AllValues HasComeUp scid c p.outbound_channels_by_intercept_scid h e
