-- ===== src/Lsps1/Inbound/Reach.antt =====
-- The lifecycle of an order of `InboundCRChannel` of src/lsps1/client.rs over its transitions.
use lightning_liquidity.Base.{ℕ, ◌≡◌, refl, ap, subst, Option, none, some, Bool-cases, inl, inr}
use lightning_liquidity.Lsps1.Msgs.{OptionsSupported, OrderId, OrderParams}
use lightning_liquidity.Lsps1.Order.{
  is_valid, order_beq, order_beq_iff, IsValidOrder, is_valid-IsValidOrder,
}
use lightning_liquidity.Lsps1.Inbound.{
  State, info_requested, options_support, order_requested, pending_payment, awaiting_confirmation,
  InboundCrChannel, new_channel, channel_info_received, channel_order_requested,
  channel_order_received, channel_pay_for_channel, info_received, request_order, order_received,
  pay_for_channel,
}

-- What passed between the client and the LSP: the options that the LSP sent, the order that the
-- client placed, and the order that the LSP's answer repeats.
pub record Past : Type 0 where
  pub offered : Option OptionsSupported
  pub placed : Option OrderParams
  pub confirmed : Option OrderParams

abbrev pub nothing : Past
nothing = record { offered = none; placed = none; confirmed = none }

-- The channels that the handler's calls lead to, when each of them succeeds.
pub data Reachable : Past → InboundCrChannel → Type 0 where
  start : (user_channel_id : ℕ) → Reachable nothing (new_channel user_channel_id)
  informed :
      {past : Past} {c : InboundCrChannel} (c' : InboundCrChannel) (options : OptionsSupported)
      → channel_info_received c options ≡ (c', none)
      → Reachable past c
      → Reachable (record past { offered = some options }) c'
  ordered :
      {past : Past} {c : InboundCrChannel} (c' : InboundCrChannel) (order : OrderParams)
      → channel_order_requested c order ≡ (c', none)
      → Reachable past c
      → Reachable (record past { placed = some order }) c'
  answered :
      {past : Past} {c : InboundCrChannel} (c' : InboundCrChannel) (order : OrderParams)
      (order_id : OrderId)
      → channel_order_received c order order_id ≡ (c', none)
      → Reachable past c
      → Reachable (record past { confirmed = some order }) c'
  paid :
      {past : Past} {c : InboundCrChannel} (c' : InboundCrChannel) (user_channel_id : ℕ)
      → channel_pay_for_channel c user_channel_id ≡ (c', none)
      → Reachable past c
      → Reachable past c'

-- An order for which the LSP's answer, the client's order and the LSP's options agree.
pub record Agreed (past : Past) : Type 0 where
  pub options : OptionsSupported
  pub order : OrderParams
  pub was_offered : past.offered ≡ some options
  pub was_placed : past.placed ≡ some order
  pub was_confirmed : past.confirmed ≡ some order
  pub is_valid_order : IsValidOrder order options

pub record Placed (past : Past) (order : OrderParams) : Type 0 where
  pub options : OptionsSupported
  pub was_offered : past.offered ≡ some options
  pub was_placed : past.placed ≡ some order
  pub is_valid_order : IsValidOrder order options

abbrev pub Explained : Past → State → Type 0
Explained past info_requested = past ≡ nothing
Explained past (options_support options) = past.offered ≡ some options
Explained past (order_requested order) = Placed past order
Explained past (pending_payment order_id) = Agreed past
Explained past (awaiting_confirmation user_channel_id order_id) = Agreed past

abbrev pub at : ℕ → State → InboundCrChannel
at user_channel_id s = record { user_channel_id = user_channel_id; state = s }

informed-Explained :
    (past : Past) (i : ℕ) (s : State) (c' : InboundCrChannel) (options : OptionsSupported)
    → channel_info_received (at i s) options ≡ (c', none)
    → Explained past s
    → Explained (record past { offered = some options }) c'.state
unfolding channel_info_received info_received
informed-Explained past i info_requested c' options e k =
    subst (λ (c : InboundCrChannel). Explained (record past { offered = some options }) c.state)
      (ap (λ r. r.0) e) refl
informed-Explained past i (options_support o) c' options e k = absurd (cc)
informed-Explained past i (order_requested o) c' options e k = absurd (cc)
informed-Explained past i (pending_payment o) c' options e k = absurd (cc)
informed-Explained past i (awaiting_confirmation u o) c' options e k = absurd (cc)

ordered-Explained :
    (past : Past) (i : ℕ) (s : State) (c' : InboundCrChannel) (order : OrderParams)
    → channel_order_requested (at i s) order ≡ (c', none)
    → Explained past s
    → Explained (record past { placed = some order }) c'.state
unfolding channel_order_requested request_order
ordered-Explained past i info_requested c' order e k = absurd (cc)
ordered-Explained past i (options_support options) c' order e k =
    elim (Bool-cases (is_valid order options)) [
      | inl v ↦
          subst (λ (c : InboundCrChannel). Explained (record past { placed = some order }) c.state)
            (ap (λ r. r.0) (rw v at e))
            (record {
              options = options;
              was_offered = k;
              was_placed = refl;
              is_valid_order = is_valid-IsValidOrder order options v;
            })
      | inr v ↦ absurd (cc (rw v at e))
    ]
ordered-Explained past i (order_requested o) c' order e k = absurd (cc)
ordered-Explained past i (pending_payment o) c' order e k = absurd (cc)
ordered-Explained past i (awaiting_confirmation u o) c' order e k = absurd (cc)

answered-Explained :
    (past : Past) (i : ℕ) (s : State) (c' : InboundCrChannel) (order : OrderParams)
    (order_id : OrderId)
    → channel_order_received (at i s) order order_id ≡ (c', none)
    → Explained past s
    → Explained (record past { confirmed = some order }) c'.state
unfolding channel_order_received order_received
answered-Explained past i info_requested c' order order_id e k = absurd (cc)
answered-Explained past i (options_support o) c' order order_id e k = absurd (cc)
answered-Explained past i (order_requested o) c' order order_id e k =
    elim (Bool-cases (order_beq order o)) [
      | inl v ↦
          subst
            (λ (c : InboundCrChannel). Explained (record past { confirmed = some order }) c.state)
            (ap (λ r. r.0) (rw v at e))
            (record {
              options = k.options;
              order = o;
              was_offered = k.was_offered;
              was_placed = k.was_placed;
              was_confirmed = ap some ((order_beq_iff order o).0 v);
              is_valid_order = k.is_valid_order;
            })
      | inr v ↦ absurd (cc (rw v at e))
    ]
answered-Explained past i (pending_payment o) c' order order_id e k = absurd (cc)
answered-Explained past i (awaiting_confirmation u o) c' order order_id e k = absurd (cc)

paid-Explained :
    (past : Past) (i : ℕ) (s : State) (c' : InboundCrChannel) (user_channel_id : ℕ)
    → channel_pay_for_channel (at i s) user_channel_id ≡ (c', none)
    → Explained past s
    → Explained past c'.state
unfolding channel_pay_for_channel pay_for_channel
paid-Explained past i info_requested c' u e k = absurd (cc)
paid-Explained past i (options_support o) c' u e k = absurd (cc)
paid-Explained past i (order_requested o) c' u e k = absurd (cc)
paid-Explained past i (pending_payment o) c' u e k =
    subst (λ (c : InboundCrChannel). Explained past c.state) (ap (λ r. r.0) e) k
paid-Explained past i (awaiting_confirmation v o) c' u e k = absurd (cc)

-- In every channel that the calls lead to, the state is explained by what passed: a requested order
-- is the client's last and is valid for the LSP's options; and once a payment is pending, the order
-- in the LSP's answer, too, is the client's order, valid for the LSP's options.
pub Reachable-Explained :
    (past : Past) (c : InboundCrChannel) → Reachable past c → Explained past c.state
unfolding new_channel
Reachable-Explained past c (start i) = refl
Reachable-Explained past c (informed {past = past'} {c = b} c' options e r) =
    informed-Explained past' b.user_channel_id b.state c' options e (Reachable-Explained past' b r)
Reachable-Explained past c (ordered {past = past'} {c = b} c' order e r) =
    ordered-Explained past' b.user_channel_id b.state c' order e (Reachable-Explained past' b r)
Reachable-Explained past c (answered {past = past'} {c = b} c' order order_id e r) =
    answered-Explained past' b.user_channel_id b.state c' order order_id e
      (Reachable-Explained past' b r)
Reachable-Explained past c (paid {past = past'} {c = b} c' u e r) =
    paid-Explained past' b.user_channel_id b.state c' u e (Reachable-Explained past' b r)
