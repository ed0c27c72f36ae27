-- ===== src/Manager/Transport.antt =====
-- The JSON between two `LiquidityManager`s of src/manager.rs changes nothing: what one drains, the
-- other dispatches.
use lightning_liquidity.Base.{
  ◌≡◌, ◌≢◌, ◌⊎◌, inl, inr, refl, sym, ap, subst, ◌∙◌, Option, none, some, List, [], ◌∷◌, arith,
}
use lightning_liquidity.Base.Keys.{nat_eq, list_eq, list_beq_iff}
use lightning_liquidity.Base.Maps
use lightning_liquidity.Base.Maps.{Map, get-insert, get-insert_self}
use lightning_liquidity.Types.{PublicKey, RequestId, Text}
use lightning_liquidity.MessageQueue.{LspsMessage, get_and_clear_pending_msgs}
use lightning_liquidity.Lsps0.Method.{LspsMethod, get_request_id_and_method}
use lightning_liquidity.Lsps0.Json.{Serde, to_string}
use lightning_liquidity.Lsps0.Json.Read.{from_str_with_id_map}
use lightning_liquidity.Lsps0.Json.Faithful.{IsFaithful}
use lightning_liquidity.Lsps0.Json.RoundTrip.{
  IsExpected, methods_after, to_string-some, from_str_with_id_map-to_string,
}
use lightning_liquidity.World.{World}
use lightning_liquidity.Manager.{Manager, Environment, handle_lsps_message}
use lightning_liquidity.Manager.Wire.{
  dispatch, handle_custom_message, with_methods, insert_method, insert_methods, payloads,
  get_and_clear_pending_msg,
}
use lightning_liquidity.Manager.Ignored.{handle_custom_message-dispatch}

-- The id of a message is not the id of a request in the list.
abbrev pub IsNew : RequestId → Option (RequestId × LspsMethod) → Type 0
IsNew id none = Unit
IsNew id (some (id', m)) = id ≢ id'

abbrev pub IsAbsent : RequestId → List (PublicKey × LspsMessage) → Type 0
IsAbsent id [] = Unit
IsAbsent id ((node, msg) ∷ rest) = IsNew id (get_request_id_and_method msg) × IsAbsent id rest

abbrev pub IsAbsentOf : Option (RequestId × LspsMethod) → List (PublicKey × LspsMessage) → Type 0
IsAbsentOf none rest = Unit
IsAbsentOf (some (id, m)) rest = IsAbsent id rest

-- No two requests of the list have the same id.
abbrev pub HasDistinctIds : List (PublicKey × LspsMessage) → Type 0
HasDistinctIds [] = Unit
HasDistinctIds ((node, msg) ∷ rest) =
    IsAbsentOf (get_request_id_and_method msg) rest × HasDistinctIds rest

-- Whether a request with the id and the method is in the list.
abbrev pub Asks : List (PublicKey × LspsMessage) → RequestId → LspsMethod → Type 0
Asks [] id m = ⊥
Asks ((node, msg) ∷ rest) id m = (get_request_id_and_method msg ≡ some (id, m)) ⊎ Asks rest id m

get-insert_method :
    (id : RequestId) (request : Option (RequestId × LspsMethod))
    (methods : Map RequestId LspsMethod)
    → IsNew id request
    → Maps.get id (insert_method request methods) ≡ Maps.get id methods
get-insert_method id none methods k = refl
get-insert_method id (some (id', m)) methods k =
    ground (arith, get-insert id' id m methods, list_beq_iff id' id, k)

get-insert_methods :
    (id : RequestId) (queue : List (PublicKey × LspsMessage)) (methods : Map RequestId LspsMethod)
    → IsAbsent id queue
    → Maps.get id (insert_methods queue methods) ≡ Maps.get id methods
unfolding insert_methods
get-insert_methods id [] methods k = refl
get-insert_methods id ((node, msg) ∷ rest) methods k =
    get-insert_methods id rest _ k.1
    ∙ get-insert_method id (get_request_id_and_method msg) methods k.0

-- The payloads are the messages, in order, for the same peers.
abbrev pub Written :
    {V : Type 0} → Serde V → List (PublicKey × LspsMessage) → List (PublicKey × Text) → Type 0
Written s [] [] = Unit
Written s ((node, msg) ∷ queue) ((node', payload) ∷ out) =
    (node ≡ node') × (to_string s msg ≡ some payload) × Written s queue out
Written s [] (p ∷ out) = ⊥
Written s (m ∷ queue) [] = ⊥

-- After the messages are drained, a response to any request among them, of an id that no other of
-- them has, finds the request's method under the id.
pub insert_methods-Asks :
    (queue : List (PublicKey × LspsMessage)) (methods : Map RequestId LspsMethod) (id : RequestId)
    (m : LspsMethod)
    → HasDistinctIds queue
    → Asks queue id m
    → Maps.get id (insert_methods queue methods) ≡ some m
unfolding insert_methods
insert_methods-Asks [] methods id m d a = elim a [ ]
insert_methods-Asks ((node, msg) ∷ rest) methods id m d (inl e) =
    let absent : IsAbsent id rest = subst (λ o. IsAbsentOf o rest) e d.0 in
    get-insert_methods id rest _ absent ∙ rw e (get-insert_self id m methods)
insert_methods-Asks ((node, msg) ∷ rest) methods id m d (inr a) =
    insert_methods-Asks rest _ id m d.1 a

module _ {V : Type 0} (s : Serde V) (h : IsFaithful s) where
  -- With faithful serde crates every message of a queue is written, for its peer and in its place.
  pub payloads-Written :
      (queue : List (PublicKey × LspsMessage)) → Written s queue (payloads s queue)
  unfolding payloads
  payloads-Written [] = tt
  payloads-Written ((node, msg) ∷ queue) =
      let (payload, written) = to_string-some s h msg in
      rw (written, payloads) (refl, written, payloads-Written queue)

  -- With faithful serde crates, the text that a message is written as is dispatched, at a manager
  -- that does not ignore the sender and expects the message, as the message itself, with the
  -- request that it answers taken off the waiting ones.
  pub handle_custom_message-to_string :
      (env : Environment) (w : World Manager) (msg : LspsMessage) (payload : Text)
      (node : PublicKey)
      → Maps.get node w.handler.ignored_peers ≡ none
      → IsExpected w.handler.request_id_to_method_map msg
      → to_string s msg ≡ some payload
      → handle_custom_message s env w payload node
        ≡ handle_lsps_message env
            (with_methods w (methods_after w.handler.request_id_to_method_map msg))
            msg
            node
  unfolding dispatch
  handle_custom_message-to_string env w msg payload node k e written =
      let (payload', written', read) =
        from_str_with_id_map-to_string s h w.handler.request_id_to_method_map msg e in
      let same : payload' ≡ payload = cc in
      handle_custom_message-dispatch s env w payload node k
      ∙ ap (dispatch env w node) (
          ap (λ (p : Text). from_str_with_id_map s p w.handler.request_id_to_method_map) (sym same)
          ∙ read)

abbrev pub IsWaiting : Map RequestId LspsMethod → Option (RequestId × LspsMethod) → Type 0
IsWaiting methods none = Unit
IsWaiting methods (some (id, m)) = Maps.get id methods ≡ some m

-- Every request of the list waits for its response, under its id and method.
abbrev pub AllWait : Map RequestId LspsMethod → List (PublicKey × LspsMessage) → Type 0
AllWait methods [] = Unit
AllWait methods ((node, msg) ∷ rest) =
    IsWaiting methods (get_request_id_and_method msg) × AllWait methods rest

waits :
    (methods : Map RequestId LspsMethod) (request : Option (RequestId × LspsMethod))
    → ((id : RequestId) (m : LspsMethod) → request ≡ some (id, m) → Maps.get id methods ≡ some m)
    → IsWaiting methods request
waits methods none f = tt
waits methods (some (id, m)) f = f id m refl

all_wait :
    (methods : Map RequestId LspsMethod) (queue : List (PublicKey × LspsMessage))
    → ((id : RequestId) (m : LspsMethod) → Asks queue id m → Maps.get id methods ≡ some m)
    → AllWait methods queue
all_wait methods [] f = tt
all_wait methods ((node, msg) ∷ rest) f = (
  waits methods (get_request_id_and_method msg) (λ id m e. f id m (inl e)),
  all_wait methods rest (λ id m a. f id m (inr a)),
)

-- What a drain of the queue leaves and gives.
pub record Drained {V : Type 0} (s : Serde V) (w w' : World Manager) (out : List (PublicKey × Text))
    : Type 0 where
  pub emptied : w'.pending_messages.queue ≡ []
  pub written : Written s w.pending_messages.queue out
  pub waiting : AllWait w'.handler.request_id_to_method_map w.pending_messages.queue

-- With faithful serde crates, draining messages of which no two requests share an id empties the
-- queue, gives each message's text for its peer, in order, and makes each request wait for its
-- response under its id and method.
pub get_and_clear_pending_msg-Drained :
    {V : Type 0} (s : Serde V) (h : IsFaithful s) (w : World Manager)
    → HasDistinctIds w.pending_messages.queue
    → Drained s w (get_and_clear_pending_msg s w).0 (get_and_clear_pending_msg s w).1
unfolding get_and_clear_pending_msg get_and_clear_pending_msgs
get_and_clear_pending_msg-Drained s h w d = record {
  emptied = refl;
  written = payloads-Written s h w.pending_messages.queue;
  waiting = all_wait _ w.pending_messages.queue λ id m a.
      insert_methods-Asks w.pending_messages.queue w.handler.request_id_to_method_map id m d a;
}
