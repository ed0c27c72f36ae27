-- ===== src/Manager/Exchange.antt =====
-- A whole exchange between two `LiquidityManager`s of src/manager.rs: a node asks another for its
-- protocols.
use lightning_liquidity.Base.{ℕ, ◌≡◌, refl, ap, ◌∙◌, Option, none, some, List, [], ◌∷◌, ◌++◌, arith}
use lightning_liquidity.Base.Keys.{nat_eq, list_eq}
use lightning_liquidity.Base.Maps
use lightning_liquidity.Base.Maps.{get-insert_self}
use lightning_liquidity.Types.{PublicKey, RequestId, Text}
use lightning_liquidity.Utils.{generate_request_id}
use lightning_liquidity.Events
use lightning_liquidity.Events.{Event, lsps0_client}
use lightning_liquidity.MessageQueue.{LspsMessage, lsps0, enqueue, get_and_clear_pending_msgs}
use lightning_liquidity.Lsps0.Msgs.{list_protocols, list_protocols_ok, request, response}
use lightning_liquidity.Lsps0.Method.{
  LspsMethod, get_request_id_and_method, method_of_lsps0, lsps0_list_protocols,
}
use lightning_liquidity.Lsps0.Json.{Serde, to_string}
use lightning_liquidity.Lsps0.Json.Faithful.{IsFaithful}
use lightning_liquidity.Lsps0.Json.RoundTrip.{to_string-some}
use lightning_liquidity.Lsps0.Client as Client
use lightning_liquidity.Lsps0.Service as Service
use lightning_liquidity.World.{World, Outcome, done, LightningError}
use lightning_liquidity.Manager.{
  Manager, Environment, within, handle_lsps_message, handle_lsps0_message,
}
use lightning_liquidity.Manager.Wire.{
  handle_custom_message, get_and_clear_pending_msg, with_methods, insert_method, insert_methods,
  payloads,
}
use lightning_liquidity.Manager.Transport.{handle_custom_message-to_string}

-- `manager.lsps0_client_handler().list_protocols(..)`.
abbrev pub ask_protocols : List ℕ → World Manager → PublicKey → World Manager
ask_protocols bytes w node =
    let w' = Client.list_protocols bytes (within w w.handler.lsps0_client_handler) node in
    record w { pending_messages = w'.pending_messages; pending_events = w'.pending_events }

abbrev pub question : RequestId → LspsMessage
question id = lsps0 (request id (list_protocols (record {})))

abbrev pub answer : RequestId → List ℕ → LspsMessage
answer id protocols = lsps0 (response id (list_protocols_ok (record { protocols = protocols })))

abbrev pub emptied : World Manager → World Manager
emptied w = record w { pending_messages = record w.pending_messages { queue = [] } }

-- After the drain of one message.
abbrev pub drained : World Manager → Option (RequestId × LspsMethod) → World Manager
drained w asked = with_methods (emptied w) (insert_method asked w.handler.request_id_to_method_map)

module _ {V : Type 0} (s : Serde V) where
  -- The messages of a node's queue reach a peer one after the other.
  abbrev pub receive :
      Environment
      → World Manager
      → PublicKey
      → List (PublicKey × Text)
      → World Manager × List (Outcome LightningError)
  receive env w from [] = (w, [])
  receive env w from ((_, payload) ∷ rest) =
      let r = handle_custom_message s env w payload from in
      let (w', outcomes) = receive env r.0 from rest in (w', r.1 ∷ outcomes)

  -- The client asks, the service answers, the client reads the answer.
  abbrev pub exchange :
      Environment
      → List ℕ
      → World Manager
      → World Manager
      → PublicKey
      → PublicKey
      → World Manager × List (Outcome LightningError)
  exchange env bytes client service client_node service_node =
      let (client', asked) =
        get_and_clear_pending_msg s (ask_protocols bytes client service_node) in
      let (service', _) = receive env service client_node asked in
      let (_, answered) = get_and_clear_pending_msg s service' in
      receive env client' service_node answered

  module _ (h : IsFaithful s) where
    -- A queue with one message is drained to its text.
    drain_one :
        (w : World Manager) (node : PublicKey) (msg : LspsMessage) (payload : Text)
        → w.pending_messages.queue ≡ (node, msg) ∷ []
        → to_string s msg ≡ some payload
        → get_and_clear_pending_msg s w
          ≡ (drained w (get_request_id_and_method msg), (node, payload) ∷ [])
    unfolding get_and_clear_pending_msg get_and_clear_pending_msgs payloads insert_methods
    drain_one w node msg payload e written =
        ap
          (λ (l : List (PublicKey × LspsMessage)). (
            with_methods (emptied w) (insert_methods l w.handler.request_id_to_method_map),
            payloads s l,
          ))
          e
        ∙ rw (written, payloads) refl

    service_answers :
        (env : Environment) (w : World Manager) (id : RequestId) (payload : Text) (node : PublicKey)
        (provider : Service.Service)
        → Maps.get node w.handler.ignored_peers ≡ none
        → w.handler.lsps0_service_handler ≡ some provider
        → to_string s (question id) ≡ some payload
        → (handle_custom_message s env w payload node).0.pending_messages.queue
          ≡ w.pending_messages.queue ++ (node, answer id provider.protocols) ∷ []
    unfolding handle_lsps_message handle_lsps0_message Service.handle_message Service.handle_request
        enqueue
    service_answers env w id payload node provider heard k written =
        rw (handle_custom_message-to_string s h env w (question id) payload node heard tt written)
          (ground (arith, k))

    client_reads :
        (env : Environment) (w : World Manager) (id : RequestId) (protocols : List ℕ)
        (payload : Text) (node : PublicKey)
        → Maps.get node w.handler.ignored_peers ≡ none
        → Maps.get id w.handler.request_id_to_method_map ≡ some lsps0_list_protocols
        → to_string s (answer id protocols) ≡ some payload
        → ((handle_custom_message s env w payload node).1 ≡ done)
          × ((handle_custom_message s env w payload node).0.pending_events.queue
              ≡ w.pending_events.queue ++ lsps0_client node protocols ∷ [])
    unfolding handle_lsps_message handle_lsps0_message Client.handle_message Client.handle_response
        Events.enqueue
    client_reads env w id protocols payload node heard k written =
        rw
          (handle_custom_message-to_string s h env w (answer id protocols) payload node heard k
            written)
          (refl, ground arith)

    -- With faithful serde crates, a node whose queue is empty asks another, that has a service
    -- and an empty queue, for its protocols; if neither ignores the other, the exchange ends with
    -- one event at the asking node, the protocols of the other's service.
    pub exchange-lists_protocols :
        (env : Environment) (bytes : List ℕ) (client service : World Manager)
        (client_node service_node : PublicKey) (provider : Service.Service)
        → client.pending_messages.queue ≡ []
        → service.pending_messages.queue ≡ []
        → Maps.get service_node client.handler.ignored_peers ≡ none
        → Maps.get client_node service.handler.ignored_peers ≡ none
        → service.handler.lsps0_service_handler ≡ some provider
        → let r = exchange env bytes client service client_node service_node in
          (r.1 ≡ done ∷ [])
          × (r.0.pending_events.queue
              ≡ client.pending_events.queue ++ lsps0_client service_node provider.protocols ∷ [])
    unfolding Client.list_protocols enqueue get_request_id_and_method method_of_lsps0
    exchange-lists_protocols env bytes client service client_node service_node provider empty empty'
          heard heard' k =
        let id = generate_request_id bytes in
        let (p, wp) = to_string-some s h (question id) in
        let (q, wq) = to_string-some s h (answer id provider.protocols) in
        let asked =
          drain_one (ask_protocols bytes client service_node) service_node (question id) p
            (ap (λ (l : List (PublicKey × LspsMessage)). l ++ (service_node, question id) ∷ [])
              empty)
            wp in
        let answered =
          drain_one (handle_custom_message s env service p client_node).0 client_node
            (answer id provider.protocols) q
            (service_answers env service id p client_node provider heard' k wp
              ∙ ap
                  (λ (l : List (PublicKey × LspsMessage)).
                    l ++ (client_node, answer id provider.protocols) ∷ [])
                  empty')
            wq in
        let read =
          client_reads env
            (drained (ask_protocols bytes client service_node)
              (get_request_id_and_method (question id)))
            id provider.protocols q service_node heard
            (get-insert_self id lsps0_list_protocols client.handler.request_id_to_method_map) wq in
        rw asked (rw answered (ap (λ (o : Outcome LightningError). o ∷ []) read.0, read.1))
