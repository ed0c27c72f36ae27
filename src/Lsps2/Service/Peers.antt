-- ===== src/Lsps2/Service/Peers.antt =====
-- Looking up and storing the state of a peer of `LSPS2ServiceHandler` of src/lsps2/service.rs.
use lightning_liquidity.Base.{◌≡◌, ◌≢◌, arith, ap, ◌∙◌, Option, none, some, ◌==◌, if◌then◌else◌}
use lightning_liquidity.Base.Keys.{nat_eq, list_eq}
use lightning_liquidity.Base.Maps
use lightning_liquidity.Base.Maps.{get-insert, get-insert_self}
use lightning_liquidity.Types.{PublicKey, RequestId}
use lightning_liquidity.Lsps2.Msgs.{Request}
use lightning_liquidity.World.{World}
use lightning_liquidity.Lsps2.Service.{PeerState, Service, peer, set_peer}
use lightning_liquidity.Lsps2.Service.Requests.{store_request, entry_of}

pub peer-set_peer :
    (w : World Service) (node j : PublicKey) (p : PeerState)
    → peer (set_peer w node p) j ≡ (if node == j then some p else peer w j)
peer-set_peer w node j p = get-insert node j p w.handler.per_peer_state

pub peer-set_peer_self :
    (w : World Service) (node : PublicKey) (p : PeerState) → peer (set_peer w node p) node ≡ some p
peer-set_peer_self w node p = get-insert_self node p w.handler.per_peer_state

pub peer-set_peer_other :
    (w : World Service) (node j : PublicKey) (p : PeerState)
    → node ≢ j
    → peer (set_peer w node p) j ≡ peer w j
peer-set_peer_other w node j p n = ground (arith, peer-set_peer w node j p)

abbrev pub request_of : Option PeerState → RequestId → Option Request
request_of none id = none
request_of (some p) id = Maps.get id p.pending_requests

-- The request `id` of the peer `node` that waits for an answer.
abbrev pub waiting : World Service → PublicKey → RequestId → Option Request
waiting w node id = request_of (peer w node) id

pub waiting-set_peer :
    (w : World Service) (node : PublicKey) (p : PeerState) (id : RequestId)
    → waiting (set_peer w node p) node id ≡ Maps.get id p.pending_requests
waiting-set_peer w node p id =
    ap (λ (o : Option PeerState). request_of o id) (peer-set_peer_self w node p)

pub waiting-store_request :
    (w : World Service) (node : PublicKey) (id : RequestId) (r : Request)
    → waiting (store_request w node id r) node id ≡ some r
waiting-store_request w node id r =
    waiting-set_peer w node _ id ∙ get-insert_self id r (entry_of (peer w node)).pending_requests
