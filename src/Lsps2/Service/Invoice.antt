-- ===== src/Lsps2/Service/Invoice.antt =====
-- How `LSPS2ServiceHandler` of src/lsps2/service.rs answers buy requests that wait.
use lightning_liquidity.Base.{
  ℕ, ◌≡◌, ◌≢◌, refl, ap, ◌∙◌, Bool, Option, none, some, [], ◌∷◌, ◌++◌, Option-cases, inl, inr,
}
use lightning_liquidity.Base.Keys.{nat_eq, list_eq}
use lightning_liquidity.Base.Maps
use lightning_liquidity.Base.Maps.{get-insert_self, get-remove_self}
use lightning_liquidity.Types.{PublicKey, RequestId}
use lightning_liquidity.Utils.Scid.{intercept_scid_from}
use lightning_liquidity.Lsps2.Msgs.{Request, get_info, buy, Response, buy_ok, response}
use lightning_liquidity.Lsps2.JitChannel.Channel.{new_channel}
use lightning_liquidity.MessageQueue
use lightning_liquidity.MessageQueue.{lsps2}
use lightning_liquidity.World.{World, Outcome, done, ApiError}
use lightning_liquidity.Lsps2.Service.{
  PeerState, Service, peer, without_request, with_channel, index_scid, answer_buy,
  invoice_parameters_generated,
}
use lightning_liquidity.Lsps2.Service.Peers.{
  waiting, request_of, waiting-set_peer, peer-set_peer_self,
}
use lightning_liquidity.Lsps2.Service.Buy.{messages}
use lightning_liquidity.Lsps2.Service.Refusal.{channel_of, channel_in}

abbrev pub invoice : ℕ → ℕ → Bool → Response
invoice scid cltv_expiry_delta client_trusts_lsp = buy_ok (record {
  intercept_scid = record { text = intercept_scid_from scid };
  lsp_cltv_expiry_delta = cltv_expiry_delta;
  client_trusts_lsp = client_trusts_lsp;
})

-- How an answer to a buy request ends: if such a request waits, the answer is sent and a new
-- channel stands under the scid; and whatever waited under the id waits no more.
abbrev pub BuyAnswered :
    World Service
    → PublicKey
    → RequestId
    → ℕ
    → Response
    → ℕ
    → Option Request
    → World Service × Outcome ApiError
    → Type 0
BuyAnswered w node id scid answer user_channel_id (some (buy r)) (w', outcome) =
    (outcome ≡ done)
    × (messages w' ≡ messages w ++ (node, lsps2 (response id answer)) ∷ [])
    × (waiting w' node id ≡ none)
    × (Maps.get scid w'.handler.peer_by_intercept_scid ≡ some node)
    × (channel_of w' node scid
        ≡ some (new_channel r.payment_size_msat r.opening_fee_params user_channel_id))
BuyAnswered w node id scid answer user_channel_id _ (w', outcome) =
    (outcome ≢ done) × (messages w' ≡ messages w) × (waiting w' node id ≡ none)

answer_buy-BuyAnswered :
    (w : World Service) (node : PublicKey) (p : PeerState) (id : RequestId) (scid delta : ℕ)
    (trusts : Bool) (user_channel_id : ℕ) (taken : Option Request)
    → BuyAnswered w node id scid
        (invoice scid delta trusts)
        user_channel_id
        taken
        (answer_buy w node (without_request p id) id scid delta trusts user_channel_id taken)
unfolding answer_buy MessageQueue.enqueue
answer_buy-BuyAnswered w node p id scid delta trusts u (some (buy r)) = (
  refl,
  refl,
  waiting-set_peer (index_scid w scid node) node (with_channel (without_request p id) scid u r) id
      ∙ get-remove_self id p.pending_requests,
  get-insert_self scid node w.handler.peer_by_intercept_scid,
  ap (λ (o : Option PeerState). channel_in o scid)
        (peer-set_peer_self (index_scid w scid node) node
          (with_channel (without_request p id) scid u r))
      ∙ get-insert_self scid _ p.outbound_channels_by_intercept_scid,
)
answer_buy-BuyAnswered w node p id scid delta trusts u (some (get_info r)) = (
  λ e. cc,
  refl,
  waiting-set_peer w node (without_request p id) id ∙ get-remove_self id p.pending_requests,
)
answer_buy-BuyAnswered w node p id scid delta trusts u none = (
  λ e. cc,
  refl,
  waiting-set_peer w node (without_request p id) id ∙ get-remove_self id p.pending_requests,
)

-- The invoice parameters are sent exactly if a buy request waits under the id; a new channel with
-- the parameters and the payment size of the request then stands under the scid, which leads to the
-- peer. Nothing waits under the id afterwards, whatever was there.
pub invoice_parameters_generated-BuyAnswered :
    (w : World Service) (node : PublicKey) (id : RequestId) (scid delta : ℕ) (trusts : Bool)
    (user_channel_id : ℕ)
    → BuyAnswered w node id scid
        (invoice scid delta trusts)
        user_channel_id
        (waiting w node id)
        (invoice_parameters_generated w node id scid delta trusts user_channel_id)
unfolding invoice_parameters_generated
invoice_parameters_generated-BuyAnswered w node id scid delta trusts u =
    elim (Option-cases (peer w node)) [
      | inl e ↦
          rw (e, invoice_parameters_generated)
            (λ f. cc, refl, ap (λ (o : Option PeerState). request_of o id) e)
      | inr (p, e) ↦
          rw (e, invoice_parameters_generated)
            (answer_buy-BuyAnswered w node p id scid delta trusts u
              (Maps.get id p.pending_requests))
    ]
