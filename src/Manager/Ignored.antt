-- ===== src/Manager/Ignored.antt =====
-- The peers that `LiquidityManager` of src/manager.rs ignores because they sent it bogus data.
use lightning_liquidity.Base.{
  ℕ, ◌≡◌, ◌≢◌, ◌↔◌, ◌⊎◌, refl, ap, ◌∙◌, none, some, List, [], ◌∷◌, arith, inl, inr, Option-cases,
}
use lightning_liquidity.Base.Keys.{nat_eq, list_eq}
use lightning_liquidity.Base.Maps
use lightning_liquidity.Base.Maps.{Map, get-insert, get-insert_self, get-remove_self}
use lightning_liquidity.Types.{PublicKey, Text}
use lightning_liquidity.Lsps0.Json.{Serde}
use lightning_liquidity.Lsps0.Json.Read.{Reading, from_str_with_id_map}
use lightning_liquidity.World.{World, failed, ignoring_message}
use lightning_liquidity.Manager.{Manager, Environment}
use lightning_liquidity.Manager.Wire.{
  dispatch, handle_custom_message, get_and_clear_pending_msg, with_methods,
}
use lightning_liquidity.Manager.Chain.{Header, filtered_block_connected, block_disconnected}
use lightning_liquidity.Manager.Dispatch.{ignored_peers-handle_lsps_message}

abbrev pub IsIgnored : World Manager → PublicKey → Type 0
IsIgnored w node = Maps.get node w.handler.ignored_peers ≡ some tt

-- What the environment does to the manager.
pub data Action : Type 0 where
  deliver : Environment → Text → PublicKey → Action
  drain : Action
  connect : Header → ℕ → Action
  disconnect : Header → ℕ → Action

-- A reading never takes a peer off the ignored ones; one that fails puts its sender there.
dispatch-IsIgnored :
    (env : Environment) (w : World Manager) (from node : PublicKey) (r : Reading)
    → IsIgnored w node
    → IsIgnored (dispatch env w from r).0 node
unfolding dispatch
dispatch-IsIgnored env w from node (methods, some msg) k =
    ap (Maps.get node) (ignored_peers-handle_lsps_message env (with_methods w methods) msg from) ∙ k
dispatch-IsIgnored env w from node (methods, none) k =
    ground (arith, get-insert from node tt w.handler.ignored_peers)

dispatch_unread-IsIgnored :
    (env : Environment) (w : World Manager) (node : PublicKey) (r : Reading)
    → r.1 ≡ none
    → IsIgnored (dispatch env w node r).0 node
unfolding dispatch
dispatch_unread-IsIgnored env w node (methods, none) k =
    get-insert_self node tt w.handler.ignored_peers
dispatch_unread-IsIgnored env w node (methods, some msg) k = absurd (cc)

-- Only a reading that fails puts a peer there, and only its sender.
dispatch-unread :
    (env : Environment) (w : World Manager) (node : PublicKey) (r : Reading)
    → Maps.get node w.handler.ignored_peers ≡ none
    → IsIgnored (dispatch env w node r).0 node
    → r.1 ≡ none
unfolding dispatch
dispatch-unread env w node (methods, none) e k = refl
dispatch-unread env w node (methods, some msg) e k = absurd (
    cc (
      ap (Maps.get node) (ignored_peers-handle_lsps_message env (with_methods w methods) msg node)))

dispatch_others :
    (env : Environment) (w : World Manager) (from other : PublicKey) (r : Reading)
    → from ≢ other
    → Maps.get other (dispatch env w from r).0.handler.ignored_peers
      ≡ Maps.get other w.handler.ignored_peers
unfolding dispatch
dispatch_others env w from other (methods, some msg) n =
    ap (Maps.get other) (ignored_peers-handle_lsps_message env (with_methods w methods) msg from)
dispatch_others env w from other (methods, none) n =
    ground (arith, get-insert from other tt w.handler.ignored_peers)

module _ {V : Type 0} (s : Serde V) where
  pub handle_custom_message-ignored :
      (env : Environment) (w : World Manager) (payload : Text) (node : PublicKey)
      → IsIgnored w node
      → handle_custom_message s env w payload node ≡ (w, failed (ignoring_message node))
  unfolding handle_custom_message
  handle_custom_message-ignored env w payload node k = ground arith

  pub handle_custom_message-dispatch :
      (env : Environment) (w : World Manager) (payload : Text) (node : PublicKey)
      → Maps.get node w.handler.ignored_peers ≡ none
      → handle_custom_message s env w payload node
        ≡ dispatch env w node (from_str_with_id_map s payload w.handler.request_id_to_method_map)
  unfolding handle_custom_message
  handle_custom_message-dispatch env w payload node k = ground arith

  handle_custom_message-IsIgnored :
      (env : Environment) (w : World Manager) (payload : Text) (from node : PublicKey)
      → IsIgnored w node
      → IsIgnored (handle_custom_message s env w payload from).0 node
  handle_custom_message-IsIgnored env w payload from node k =
      elim (Option-cases (Maps.get from w.handler.ignored_peers)) [
        | inl e ↦
            rw (handle_custom_message-dispatch env w payload from e)
              (dispatch-IsIgnored env w from node _ k)
        | inr (tt, e) ↦ rw (handle_custom_message-ignored env w payload from e) k
      ]

  abbrev pub act : Action → World Manager → World Manager
  act (deliver env payload node) w = (handle_custom_message s env w payload node).0
  act drain w = (get_and_clear_pending_msg s w).0
  act (connect header height) w = (filtered_block_connected w header height).0
  act (disconnect header height) w = (block_disconnected w header height).0

  abbrev pub run : List Action → World Manager → World Manager
  run [] w = w
  run (a ∷ rest) w = run rest (act a w)

  act-IsIgnored :
      (a : Action) (w : World Manager) (node : PublicKey)
      → IsIgnored w node
      → IsIgnored (act a w) node
  unfolding get_and_clear_pending_msg filtered_block_connected block_disconnected
  act-IsIgnored (deliver env payload from) w node k =
      handle_custom_message-IsIgnored env w payload from node k
  act-IsIgnored drain w node k = k
  act-IsIgnored (connect header height) w node k = ground arith
  act-IsIgnored (disconnect header height) w node k = ground arith

  run-IsIgnored :
      (actions : List Action) (w : World Manager) (node : PublicKey)
      → IsIgnored w node
      → IsIgnored (run actions w) node
  run-IsIgnored [] w node k = k
  run-IsIgnored (a ∷ rest) w node k = run-IsIgnored rest (act a w) node (act-IsIgnored a w node k)

  abbrev pub reading : World Manager → Text → Reading
  reading w payload = from_str_with_id_map s payload w.handler.request_id_to_method_map

  pub unread-IsIgnored :
      (env : Environment) (w : World Manager) (payload : Text) (node : PublicKey)
      → (reading w payload).1 ≡ none
      → IsIgnored (handle_custom_message s env w payload node).0 node
  unread-IsIgnored env w payload node k =
      elim (Option-cases (Maps.get node w.handler.ignored_peers)) [
        | inl e ↦
            rw (handle_custom_message-dispatch env w payload node e)
              (dispatch_unread-IsIgnored env w node _ k)
        | inr (tt, e) ↦ rw (handle_custom_message-ignored env w payload node e) e
      ]

  -- Once a peer has sent a message that cannot be read, then after any messages of any peers,
  -- drained queues, connected and disconnected blocks, every further message of this peer changes
  -- nothing and is answered with the error that the peer is ignored.
  pub unread_ignores_peer :
      (env env' : Environment) (w : World Manager) (payload payload' : Text) (node : PublicKey)
      (actions : List Action)
      → (reading w payload).1 ≡ none
      → let w' = run actions (handle_custom_message s env w payload node).0 in
        handle_custom_message s env' w' payload' node ≡ (w', failed (ignoring_message node))
  unread_ignores_peer env env' w payload payload' node actions k =
      handle_custom_message-ignored env' _ payload' node
        (run-IsIgnored actions _ node (unread-IsIgnored env w payload node k))

  -- A message, whatever the handlers do with it, leaves its sender ignored exactly if the sender was
  -- ignored before or the message cannot be read; whether another peer is ignored does not change.
  pub handle_custom_message-IsIgnored_iff :
      (env : Environment) (w : World Manager) (payload : Text) (node : PublicKey)
      → (IsIgnored (handle_custom_message s env w payload node).0 node
          ↔ (IsIgnored w node ⊎ ((reading w payload).1 ≡ none)))
        × ((other : PublicKey)
            → node ≢ other
            → Maps.get other (handle_custom_message s env w payload node).0.handler.ignored_peers
              ≡ Maps.get other w.handler.ignored_peers)
  handle_custom_message-IsIgnored_iff env w payload node =
      elim (Option-cases (Maps.get node w.handler.ignored_peers)) [
        | inl e ↦ rw (handle_custom_message-dispatch env w payload node e) (
          (
            (λ k. inr (dispatch-unread env w node _ e k)),
            λ d. elim d [
              | inl k ↦ dispatch-IsIgnored env w node node _ k
              | inr n ↦ dispatch_unread-IsIgnored env w node _ n
            ],
          ),
          λ other n. dispatch_others env w node other _ n,
        )
        | inr (tt, e) ↦
            rw (handle_custom_message-ignored env w payload node e)
              (((λ k. inl e), λ d. e), λ other n. refl)
      ]
