-- ===== src/Lsps2/Service/Run.antt =====
-- `LSPS2ServiceHandler` of src/lsps2/service.rs over any calls of its peers, its user and the channel
-- manager.
use lightning_liquidity.Base.{
  ℕ, Bool, true, false, Option, none, some, List, [], ◌∷◌, Option-cases, inl, inr,
}
use lightning_liquidity.Base.Keys.{nat_eq, list_eq}
use lightning_liquidity.Base.Maps.{insert-AllValues}
use lightning_liquidity.Types.{PublicKey, ChannelId, RequestId}
use lightning_liquidity.Lsps2.Msgs.{
  BuyRequest, RawOpeningFeeParams, Request, Response, get_info, buy, Message, request, response,
}
use lightning_liquidity.Lsps2.Promise.{Crypto}
use lightning_liquidity.Lsps2.PaymentQueue.{InterceptedHtlc}
use lightning_liquidity.Lsps2.JitChannel.Reach.{start}
use lightning_liquidity.World.{World, Answers}
use lightning_liquidity.Lsps2.Service.{
  PeerState, Service, new_peer, peer, set_peer, without_request, answer_get_info,
  invalid_token_provided, opening_fee_params_generated, with_channel, index_scid, answer_buy,
  invoice_parameters_generated,
}
use lightning_liquidity.Lsps2.Service.Requests.{
  entry_of, store_request, handle_get_info_request, handle_buy_request, check_promise, check_size,
  refuse, accept_buy, handle_message,
}
use lightning_liquidity.Lsps2.Service.Channels.{
  HtlcDestination, htlc_intercepted, htlc_handling_failed, on_payment_forwarded, channel_ready,
}
use lightning_liquidity.Lsps2.Service.Stored.{
  HasComeUp, IsSoundPeer, IsSound, FailsHtlcs, peer-IsSoundPeer, set_peer-IsSound,
}
use lightning_liquidity.Lsps2.Service.Kept.{htlc_intercepted-IsSound}
use lightning_liquidity.Lsps2.Service.Settled.{
  htlc_handling_failed-IsSound, on_payment_forwarded-IsSound, channel_ready-IsSound,
}

-- A call on the service; a message comes at a time.
pub data ServiceCall : Type 0 where
  receive : ℕ → Message → PublicKey → ServiceCall
  refuse_token : PublicKey → RequestId → ServiceCall
  offer : PublicKey → RequestId → List RawOpeningFeeParams → ServiceCall
  invoice : PublicKey → RequestId → ℕ → ℕ → Bool → ℕ → ServiceCall
  intercept : ℕ → InterceptedHtlc → ServiceCall
  handling_fails : HtlcDestination → ServiceCall
  payment_forwards : ChannelId → ServiceCall
  becomes_ready : ℕ → ChannelId → PublicKey → ServiceCall

abbrev pub perform : Crypto → Answers → ServiceCall → World Service → World Service
perform c answers (receive now msg node) w = (handle_message c now w msg node).0
perform c answers (refuse_token node id) w = (invalid_token_provided w node id).0
perform c answers (offer node id menu) w = (opening_fee_params_generated c w node id menu).0
perform c answers (invoice node id scid delta trusts user_channel_id) w =
    (invoice_parameters_generated w node id scid delta trusts user_channel_id).0
perform c answers (intercept scid htlc) w = (htlc_intercepted answers w scid htlc).0
perform c answers (handling_fails d) w = (htlc_handling_failed answers w d).0
perform c answers (payment_forwards id) w = (on_payment_forwarded answers w id).0
perform c answers (becomes_ready user_channel_id id node) w =
    (channel_ready answers w user_channel_id id node).0

abbrev pub run : Crypto → Answers → List ServiceCall → World Service → World Service
run c answers [] w = w
run c answers (call ∷ rest) w = run c answers rest (perform c answers call w)

entry_of-IsSoundPeer :
    (w : World Service) (node : PublicKey) → IsSound w → IsSoundPeer (entry_of (peer w node))
unfolding new_peer
entry_of-IsSoundPeer w node h = elim (Option-cases (peer w node)) [
  | inl e ↦ rw e tt
  | inr (p, e) ↦ rw e (peer-IsSoundPeer w node p h e)
]

store_request-IsSound :
    (w : World Service) (node : PublicKey) (id : RequestId) (r : Request)
    → IsSound w
    → IsSound (store_request w node id r)
store_request-IsSound w node id r h = set_peer-IsSound w node _ h (entry_of-IsSoundPeer w node h)

check_promise-IsSound :
    (w : World Service) (id : RequestId) (node : PublicKey) (r : BuyRequest) (o : Option Bool)
    → IsSound w
    → IsSound (check_promise w id node r o).0
unfolding check_promise refuse accept_buy
check_promise-IsSound w id node r none h = h
check_promise-IsSound w id node r (some false) h = h
check_promise-IsSound w id node r (some true) h = store_request-IsSound w node id (buy r) h

handle_buy_request-IsSound :
    (c : Crypto) (now : ℕ) (w : World Service) (id : RequestId) (node : PublicKey) (r : BuyRequest)
    → IsSound w
    → IsSound (handle_buy_request c now w id node r).0
unfolding handle_buy_request refuse
handle_buy_request-IsSound c now w id node r h =
    elim (Option-cases (check_size r.opening_fee_params r.payment_size_msat)) [
      | inl e ↦ rw (e, handle_buy_request) (check_promise-IsSound w id node r _ h)
      | inr (refusal, e) ↦ rw (e, handle_buy_request) h
    ]

handle_message-IsSound :
    (c : Crypto) (now : ℕ) (w : World Service) (msg : Message) (node : PublicKey)
    → IsSound w
    → IsSound (handle_message c now w msg node).0
unfolding handle_message handle_get_info_request
handle_message-IsSound c now w (request id (get_info r)) node h =
    store_request-IsSound w node id (get_info r) h
handle_message-IsSound c now w (request id (buy r)) node h =
    handle_buy_request-IsSound c now w id node r h
handle_message-IsSound c now w (response id r) node h = h

answer_get_info-IsSound :
    (w : World Service) (node : PublicKey) (id : RequestId) (r : Response) (o : Option Request)
    → IsSound w
    → IsSound (answer_get_info w node id r o).0
unfolding answer_get_info
answer_get_info-IsSound w node id r none h = h
answer_get_info-IsSound w node id r (some (get_info q)) h = h
answer_get_info-IsSound w node id r (some (buy q)) h = h

invalid_token_provided-IsSound :
    (w : World Service) (node : PublicKey) (id : RequestId)
    → IsSound w
    → IsSound (invalid_token_provided w node id).0
unfolding invalid_token_provided
invalid_token_provided-IsSound w node id h = elim (Option-cases (peer w node)) [
  | inl e ↦ rw (e, invalid_token_provided) h
  | inr (p, e) ↦
      rw (e, invalid_token_provided)
        (answer_get_info-IsSound (set_peer w node (without_request p id)) node id _ _
          (set_peer-IsSound w node (without_request p id) h (peer-IsSoundPeer w node p h e)))
]

opening_fee_params_generated-IsSound :
    (c : Crypto) (w : World Service) (node : PublicKey) (id : RequestId)
    (menu : List RawOpeningFeeParams)
    → IsSound w
    → IsSound (opening_fee_params_generated c w node id menu).0
unfolding opening_fee_params_generated
opening_fee_params_generated-IsSound c w node id menu h = elim (Option-cases (peer w node)) [
  | inl e ↦ rw (e, opening_fee_params_generated) h
  | inr (p, e) ↦
      rw (e, opening_fee_params_generated)
        (answer_get_info-IsSound (set_peer w node (without_request p id)) node id _ _
          (set_peer-IsSound w node (without_request p id) h (peer-IsSoundPeer w node p h e)))
]

-- A channel that was bought is a new one.
answer_buy-IsSound :
    (w : World Service) (node : PublicKey) (p : PeerState) (id : RequestId) (scid delta : ℕ)
    (trusts : Bool) (u : ℕ) (o : Option Request)
    → IsSound w
    → IsSoundPeer p
    → IsSound (answer_buy w node p id scid delta trusts u o).0
unfolding answer_buy
answer_buy-IsSound w node p id scid delta trusts u none h k = set_peer-IsSound w node p h k
answer_buy-IsSound w node p id scid delta trusts u (some (get_info q)) h k =
    set_peer-IsSound w node p h k
answer_buy-IsSound w node p id scid delta trusts u (some (buy r)) h k =
    set_peer-IsSound (index_scid w scid node) node (with_channel p scid u r) h (
      insert-AllValues HasComeUp scid _ p.outbound_channels_by_intercept_scid
        (record {
          size = r.payment_size_msat;
          params = r.opening_fee_params;
          user_channel_id = u;
          reached = start;
        })
        k)

invoice_parameters_generated-IsSound :
    (w : World Service) (node : PublicKey) (id : RequestId) (scid delta : ℕ) (trusts : Bool) (u : ℕ)
    → IsSound w
    → IsSound (invoice_parameters_generated w node id scid delta trusts u).0
unfolding invoice_parameters_generated
invoice_parameters_generated-IsSound w node id scid delta trusts u h =
    elim (Option-cases (peer w node)) [
      | inl e ↦ rw (e, invoice_parameters_generated) h
      | inr (p, e) ↦
          rw (e, invoice_parameters_generated)
            (answer_buy-IsSound w node (without_request p id) id scid delta trusts u _ h
              (peer-IsSoundPeer w node p h e))
    ]

perform-IsSound :
    (c : Crypto) (answers : Answers) (call : ServiceCall) (w : World Service)
    → FailsHtlcs answers
    → IsSound w
    → IsSound (perform c answers call w)
perform-IsSound c answers (receive now msg node) w f h = handle_message-IsSound c now w msg node h
perform-IsSound c answers (refuse_token node id) w f h = invalid_token_provided-IsSound w node id h
perform-IsSound c answers (offer node id menu) w f h =
    opening_fee_params_generated-IsSound c w node id menu h
perform-IsSound c answers (invoice node id scid delta trusts u) w f h =
    invoice_parameters_generated-IsSound w node id scid delta trusts u h
perform-IsSound c answers (intercept scid htlc) w f h =
    htlc_intercepted-IsSound answers w scid htlc f h
perform-IsSound c answers (handling_fails d) w f h = htlc_handling_failed-IsSound answers w d h
perform-IsSound c answers (payment_forwards id) w f h = on_payment_forwarded-IsSound answers w id h
perform-IsSound c answers (becomes_ready u id node) w f h =
    channel_ready-IsSound answers w u id node h

pub run-IsSound :
    (c : Crypto) (answers : Answers) (calls : List ServiceCall) (w : World Service)
    → FailsHtlcs answers
    → IsSound w
    → IsSound (run c answers calls w)
run-IsSound c answers [] w f h = h
run-IsSound c answers (call ∷ rest) w f h =
    run-IsSound c answers rest (perform c answers call w) f (perform-IsSound c answers call w f h)
