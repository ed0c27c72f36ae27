-- ===== src/Lsps2/Client/Requests.antt =====
-- What becomes of the requests of src/lsps2/client.rs.
use lightning_liquidity.Base.{
  ℕ, ◌<◌, ◌≡◌, ◌≢◌, refl, ap, ◌∙◌, Bool, Option, none, some, List, [], ◌∷◌, ◌++◌, Option-cases, inl,
  inr, arith,
}
use lightning_liquidity.Base.Keys.{nat_eq, list_eq}
use lightning_liquidity.Base.Maps
use lightning_liquidity.Base.Maps.{get-insert_self, get-remove_self}
use lightning_liquidity.Base.Words.{u64_mod}
use lightning_liquidity.Types.{PublicKey, RequestId}
use lightning_liquidity.Utils.{generate_request_id}
use lightning_liquidity.Utils.Scid.{intercept_scid_from}
use lightning_liquidity.Utils.Scid.Roundtrip.{to_scid-intercept_scid_from}
use lightning_liquidity.Lsps2.Msgs.{BuyResponse, OpeningFeeParams}
use lightning_liquidity.Lsps2.Event
use lightning_liquidity.Events
use lightning_liquidity.Events.{lsps2_client}
use lightning_liquidity.World.{World, done}
use lightning_liquidity.Lsps2.Client.{
  Client, PeerState, InboundJitChannel, peer, set_peer, with_buy, without_buy, entry_of,
  select_opening_params, handle_buy_response, announce_invoice, Handled,
}

abbrev buying_in : Option PeerState → RequestId → Option InboundJitChannel
buying_in none id = none
buying_in (some p) id = Maps.get id p.pending_buy_requests

-- The buy request `id` to the LSP `node` that waits for an answer.
abbrev pub buying : World Client → PublicKey → RequestId → Option InboundJitChannel
buying w node id = buying_in (peer w node) id

peer-set_peer :
    (w : World Client) (node : PublicKey) (p : PeerState) → peer (set_peer w node p) node ≡ some p
peer-set_peer w node p = get-insert_self node p w.handler.per_peer_state

-- The service's answer to a buy request.
abbrev pub answer : ℕ → ℕ → Bool → BuyResponse
answer scid cltv_expiry_delta client_trusts_lsp = record {
  intercept_scid = record { text = intercept_scid_from scid };
  lsp_cltv_expiry_delta = cltv_expiry_delta;
  client_trusts_lsp = client_trusts_lsp;
}

buying-with_buy :
    (w : World Client) (node : PublicKey) (p : PeerState) (id : RequestId) (size : Option ℕ)
    → buying (set_peer w node (with_buy p id size)) node id
      ≡ some (record { payment_size_msat = size })
buying-with_buy w node p id size =
    ap (λ (o : Option PeerState). buying_in o id) (peer-set_peer w node _)
    ∙ get-insert_self id _ p.pending_buy_requests

select_opening_params-buying :
    (bytes : List ℕ) (w : World Client) (node : PublicKey) (size : Option ℕ)
    (params : OpeningFeeParams)
    → let r = select_opening_params bytes w node size params in
      buying r.0 node r.1.1 ≡ some (record { payment_size_msat = size })
unfolding select_opening_params
select_opening_params-buying bytes w node size params =
    elim (Option-cases
      (Maps.get (generate_request_id bytes) (entry_of (peer w node)).pending_buy_requests)) [
        | inl e ↦
            rw (e, select_opening_params)
              (buying-with_buy w node (entry_of (peer w node)) (generate_request_id bytes) size)
        | inr (c, e) ↦
            rw (e, select_opening_params)
              (buying-with_buy w node (entry_of (peer w node)) (generate_request_id bytes) size)
      ]

-- The answer is announced with the id that the service chose and the payment size that was asked
-- for, and the request waits no more.
abbrev pub Announced : World Client → RequestId → PublicKey → ℕ → ℕ → Option ℕ → Handled → Type 0
Announced w id node scid delta size (w', outcome) =
    (outcome ≡ done)
    × (w'.pending_events.queue
        ≡ w.pending_events.queue
          ++ lsps2_client (Event.invoice_parameters_ready id node scid delta size) ∷ [])
    × (buying w' node id ≡ none)

announce_invoice-Announced :
    (w : World Client) (id : RequestId) (node : PublicKey) (p : PeerState) (scid delta : ℕ)
    (trusts : Bool) (c : InboundJitChannel) (text : Option ℕ)
    → text ≡ some scid
    → Announced w id node scid delta c.payment_size_msat (
        announce_invoice
          (set_peer w node (without_buy p id))
          id
          node
          (answer scid delta trusts)
          c
          text)
unfolding announce_invoice Events.enqueue
announce_invoice-Announced w id node p scid delta trusts c none e = cc
announce_invoice-Announced w id node p scid delta trusts c (some s) e = (
  refl,
  ground arith,
  ap (λ (o : Option PeerState). buying_in o id) (peer-set_peer w node _)
      ∙ get-remove_self id p.pending_buy_requests,
)

buying_peer :
    (o : Option PeerState) (id : RequestId) (c : InboundJitChannel)
    → buying_in o id ≡ some c
    → (p : PeerState) × (o ≡ some p) × (Maps.get id p.pending_buy_requests ≡ some c)
buying_peer none id c e = cc
buying_peer (some p) id c e = (p, refl, e)

known_buy-Announced :
    (w : World Client) (id : RequestId) (node : PublicKey) (scid delta : ℕ) (trusts : Bool)
    (c : InboundJitChannel)
    → scid < u64_mod
    → buying w node id ≡ some c
    → Announced w id node scid delta c.payment_size_msat
        (handle_buy_response w id node (answer scid delta trusts))
unfolding handle_buy_response
known_buy-Announced w id node scid delta trusts c h waits =
    let (p, at_node, found) = buying_peer (peer w node) id c waits in
    rw (at_node, handle_buy_response, found)
      (announce_invoice-Announced w id node p scid delta trusts c _
        (to_scid-intercept_scid_from scid h))

-- A service's answer to a buy request that the client has just sent is announced with the scid that the service sent and the payment size that the request
-- asked for, and the request waits no more.
pub select_opening_params-Announced :
    (bytes : List ℕ) (w : World Client) (node : PublicKey) (size : Option ℕ)
    (params : OpeningFeeParams) (scid delta : ℕ) (trusts : Bool)
    → scid < u64_mod
    → let r = select_opening_params bytes w node size params in
      Announced r.0 r.1.1 node scid delta size
        (handle_buy_response r.0 r.1.1 node (answer scid delta trusts))
select_opening_params-Announced bytes w node size params scid delta trusts h =
    let r = select_opening_params bytes w node size params in
    known_buy-Announced r.0 r.1.1 node scid delta trusts (record { payment_size_msat = size }) h
      (select_opening_params-buying bytes w node size params)

-- An answer to a buy request that does not wait is refused and changes nothing.
unknown_buy_response_refused :
    (w : World Client) (id : RequestId) (node : PublicKey) (result : BuyResponse)
    → buying w node id ≡ none
    → ((handle_buy_response w id node result).0 ≡ w)
      × ((handle_buy_response w id node result).1 ≢ done)
unfolding handle_buy_response
unknown_buy_response_refused w id node result e = elim (Option-cases (peer w node)) [
  | inl at_node ↦ rw (at_node, handle_buy_response) (refl, λ f. cc)
  | inr (p, at_node) ↦ rw (at_node, handle_buy_response, rw at_node at e) (refl, λ f. cc)
]
