-- ===== src/Lsps2/Service/Flow.antt =====
-- A purchase from the request to the opening of the channel, in src/lsps2/service.rs.
use lightning_liquidity.Base.{
  ℕ, ◌-◌, ◌≤◌, ◌<◌, ◌≡◌, refl, subst, Bool, Option, none, some, [], ◌∷◌, ◌++◌, arith,
}
use lightning_liquidity.Base.Keys.{nat_eq, list_eq}
use lightning_liquidity.Base.Maps
use lightning_liquidity.Base.Results.{ok, err}
use lightning_liquidity.Types.{PublicKey, RequestId}
use lightning_liquidity.Lsps2.Msgs.{BuyRequest, Request, buy}
use lightning_liquidity.Lsps2.Fee.{compute_opening_fee}
use lightning_liquidity.Lsps2.Promise.{Crypto}
use lightning_liquidity.Lsps2.PaymentQueue
use lightning_liquidity.Lsps2.PaymentQueue.{InterceptedHtlc, PaymentQueue, add_htlc}
use lightning_liquidity.Lsps2.JitChannel
use lightning_liquidity.Lsps2.JitChannel.{
  State, HtlcInterceptedAction, open_channel, Transition, ChannelStateError, pending_channel_open,
}
use lightning_liquidity.Lsps2.JitChannel.Channel
use lightning_liquidity.Lsps2.JitChannel.Channel.{OutboundJitChannel, new_channel, settle}
use lightning_liquidity.Lsps2.Event
use lightning_liquidity.Events.{lsps2_service}
use lightning_liquidity.World.{World, done, Answers}
use lightning_liquidity.Lsps2.Service.{PeerState, Service, peer, invoice_parameters_generated}
use lightning_liquidity.Lsps2.Service.Requests.{handle_buy_request}
use lightning_liquidity.Lsps2.Service.Channels.{
  Step, htlc_intercepted, act_on_intercepted, set_channel,
}
use lightning_liquidity.Lsps2.Service.Buy.{
  events, events-emit, BuyHandled, handle_buy_request-BuyHandled,
}
use lightning_liquidity.Lsps2.Service.Bought.{accepted_buy_opens}
use lightning_liquidity.Lsps2.Service.Refusal.{channel_of, channel_in}
use lightning_liquidity.Lsps2.Service.Invoice.{
  invoice, BuyAnswered, invoice_parameters_generated-BuyAnswered,
}

settle_action :
    {A : Type 0} (c : OutboundJitChannel) (t : Transition A) (s : State) (a : A)
    → t.1 ≡ ok (s, a)
    → ((settle c t).1 ≡ ok a) × ((settle c t).0.user_channel_id ≡ c.user_channel_id)
settle_action c (self, ok (s', a')) s a e = (grind arith, refl)
settle_action c (self, err f) s a e = cc

-- The event that asks for the channel, and no call.
abbrev pub AsksToOpen : World Service → PublicKey → ℕ → ℕ → ℕ → ℕ → Step → Type 0
AsksToOpen w node scid user_channel_id size fee (w', outcome) =
    (outcome ≡ done)
    × (w'.calls ≡ w.calls)
    × (events w'
        ≡ events w
          ++ lsps2_service (
              Event.open_channel (record {
                their_network_key = node;
                amt_to_forward_msat = size - fee;
                opening_fee_msat = fee;
                user_channel_id = user_channel_id;
                intercept_scid = scid;
              }))
            ∷ [])

act_on_open-AsksToOpen :
    (answers : Answers) (w : World Service) (node : PublicKey) (p : PeerState) (scid size fee : ℕ)
    (c : OutboundJitChannel) (x : InterceptedHtlc)
    → AsksToOpen w node scid c.user_channel_id size fee (
        act_on_intercepted answers (set_channel w node p scid c) node p scid c x (
          ok (
            some (
              open_channel (record { opening_fee_msat = fee; amt_to_forward_msat = size - fee })))))
unfolding act_on_intercepted
act_on_open-AsksToOpen answers w node p scid size fee c x = (refl, refl, events-emit w _)

known_channel :
    (o : Option PeerState) (scid : ℕ) (c : OutboundJitChannel)
    → channel_in o scid ≡ some c
    → (p : PeerState) × (o ≡ some p)
      × (Maps.get scid p.outbound_channels_by_intercept_scid ≡ some c)
known_channel none scid c e = cc
known_channel (some p) scid c e = (p, refl, e)

opening_channel-AsksToOpen :
    (answers : Answers) (w : World Service) (node : PublicKey) (scid size fee u : ℕ)
    (c : OutboundJitChannel) (x : InterceptedHtlc)
    → Maps.get scid w.handler.peer_by_intercept_scid ≡ some node
    → channel_of w node scid ≡ some c
    → (Channel.htlc_intercepted c x).1
      ≡ ok (
          some (open_channel (record { opening_fee_msat = fee; amt_to_forward_msat = size - fee })))
    → (Channel.htlc_intercepted c x).0.user_channel_id ≡ u
    → AsksToOpen w node scid u size fee (htlc_intercepted answers w scid x)
unfolding htlc_intercepted
opening_channel-AsksToOpen answers w node scid size fee u c x at_scid at_channel opens same =
    let (p, at_node, found) = known_channel (peer w node) scid c at_channel in
    subst (λ (v : ℕ). AsksToOpen w node scid v size fee (htlc_intercepted answers w scid x)) same
      (rw (at_scid, at_node, found, htlc_intercepted, opens)
        (act_on_open-AsksToOpen answers w node p scid size fee (Channel.htlc_intercepted c x).0 x))

-- The new channel of an accepted request opens when a whole payment arrives.
new_channel_opens :
    (c : Crypto) (now : ℕ) (w w' : World Service) (id : RequestId) (node : PublicKey)
    (r : BuyRequest) (size user_channel_id : ℕ) (x : InterceptedHtlc)
    → handle_buy_request c now w id node r ≡ (w', done)
    → r.payment_size_msat ≡ some size
    → size ≤ x.expected_outbound_amount_msat
    → (fee : ℕ) × (compute_opening_fee size r.opening_fee_params.min_fee_msat
          r.opening_fee_params.proportional
        ≡ some fee)
      × (fee < size)
      × (let d = new_channel r.payment_size_msat r.opening_fee_params user_channel_id in
          ((Channel.htlc_intercepted d x).1
            ≡ ok (
                some (
                  open_channel
                    (record { opening_fee_msat = fee; amt_to_forward_msat = size - fee }))))
          × ((Channel.htlc_intercepted d x).0.user_channel_id ≡ user_channel_id))
unfolding Channel.htlc_intercepted new_channel JitChannel.new PaymentQueue.new add_htlc
new_channel_opens c now w w' id node r size u x h e enough =
    let (fee, computed, covered, cases) =
      accepted_buy_opens c now w w' id node r size PaymentQueue.new x h e in
    (
      fee,
      computed,
      covered,
      settle_action (new_channel r.payment_size_msat r.opening_fee_params u) _ _ _ (cases.0 enough),
    )

-- The purchase works from end to end: after the service has accepted a buy request for a payment
-- size and the user has answered it with a scid, an intercepted HTLC for this scid that pays the
-- size makes the service ask for a channel to the client, with the opening fee of the request and
-- the rest of the size to forward, and neither fails nor calls the channel manager.
pub bought_channel_opens :
    (c : Crypto) (now : ℕ) (w w' : World Service) (id : RequestId) (node : PublicKey)
    (r : BuyRequest) (size scid delta : ℕ) (trusts : Bool) (user_channel_id : ℕ) (answers : Answers)
    (x : InterceptedHtlc)
    → handle_buy_request c now w id node r ≡ (w', done)
    → r.payment_size_msat ≡ some size
    → size ≤ x.expected_outbound_amount_msat
    → let w'' = (invoice_parameters_generated w' node id scid delta trusts user_channel_id).0 in
      (fee : ℕ) × (compute_opening_fee size r.opening_fee_params.min_fee_msat
          r.opening_fee_params.proportional
        ≡ some fee)
      × (fee < size)
      × AsksToOpen w'' node scid user_channel_id size fee (htlc_intercepted answers w'' scid x)
bought_channel_opens c now w w' id node r size scid delta trusts u answers x h e enough =
    let (fee, computed, covered, opens) =
      new_channel_opens c now w w' id node r size u x h e enough in
    (
      fee,
      computed,
      covered,
      opening_channel-AsksToOpen answers _ node scid size fee u
          (new_channel r.payment_size_msat r.opening_fee_params u) x invoiced.3 invoiced.4 opens.0
          opens.1,
    )
  where
    handled : BuyHandled c now w id node r (w', done)
    handled =
        subst (BuyHandled c now w id node r) h (handle_buy_request-BuyHandled c now w id node r)

    invoiced :
        BuyAnswered w' node id scid
          (invoice scid delta trusts)
          u
          (some (buy r))
          (invoice_parameters_generated w' node id scid delta trusts u)
    invoiced =
        subst
          (λ (o : Option Request).
            BuyAnswered w' node id scid (invoice scid delta trusts) u o
              (invoice_parameters_generated w' node id scid delta trusts u))
          handled.2 (invoice_parameters_generated-BuyAnswered w' node id scid delta trusts u)
