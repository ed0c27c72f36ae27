-- ===== src/Lsps2/JitChannel/Open.antt =====
-- The refusals of the first state, and the readiness of an opened channel, in src/lsps2/service.rs.
use lightning_liquidity.Base.{
  ℕ, ◌-◌, ◌≤◌, ◌<◌, ◌≡◌, refl, sym, ap, subst, ◌∙◌, inl, inr, Option, none, some, List, [], ◌∷◌,
  ◌++◌, length, All, arith,
}
use lightning_liquidity.Base.Words.{u64_mod}
use lightning_liquidity.Base.Results.{Result, ok, err}
use lightning_liquidity.Types.{ChannelId, InterceptId}
use lightning_liquidity.Lsps2.Msgs.{OpeningFeeParams}
use lightning_liquidity.Lsps2.PaymentQueue.{
  InterceptedHtlc, Payment, PaymentQueue, all_htlcs, add_to, add_htlc, pop_greater_than_msat,
  sum_msat,
}
use lightning_liquidity.Lsps2.PaymentQueue.Contents.{
  total, total-append, Popped, Takes, pop_greater_than_msat-Popped, sum_msat-exact,
}
use lightning_liquidity.Lsps2.Split.{calculate_amount_to_forward_per_htlc}
use lightning_liquidity.Lsps2.Split.Bounds.{Splits, calculate_amount_to_forward_per_htlc-Splits}
use lightning_liquidity.Lsps2.JitChannel.{
  State, pending_initial_payment, pending_channel_open, pending_payment_forward, pending_payment,
  payment_forwarded, ForwardPaymentAction, Transition, HtlcInterceptedAction, ChannelStateError,
  htlc_intercepted, channel_ready, ready_with,
}
use lightning_liquidity.Lsps2.JitChannel.Conserve.{held_htlcs}
use lightning_liquidity.Lsps2.JitChannel.Invariant.{Covered, IsValidState, IsOk, Accepted-IsOk}

all_htlcs-add_to_nil :
    (x : InterceptedHtlc) (ps : List Payment) → ps ≡ [] → all_htlcs (add_to x ps).0 ≡ x ∷ []
unfolding all_htlcs add_to
all_htlcs-add_to_nil x [] e = refl
all_htlcs-add_to_nil x (p ∷ ps) e = cc

-- A valid channel refuses an intercepted HTLC only while it awaits its first payment and holds no
-- other HTLC: the refused one is all that it holds then, so that failing it fails everything.
pub refused_htlc_is_alone :
    (params : OpeningFeeParams) (size : Option ℕ) (s self : State) (x : InterceptedHtlc)
    (e : ChannelStateError)
    → IsValidState params size s
    → htlc_intercepted params size s x ≡ (self, err e)
    → (held_htlcs s ≡ []) × (held_htlcs self ≡ x ∷ [])
unfolding htlc_intercepted add_htlc all_htlcs
refused_htlc_is_alone params size (pending_initial_payment q) self x e (v, inl empty) h = (
  rw empty,
  ap held_htlcs (sym (ap (λ (t : Transition (Option HtlcInterceptedAction)). t.0) h))
      ∙ all_htlcs-add_to_nil x q.payments empty,
)
refused_htlc_is_alone params size (pending_initial_payment q) self x e (v, inr accepted) h =
    absurd (
      subst IsOk (ap (λ (t : Transition (Option HtlcInterceptedAction)). t.1) h)
        (Accepted-IsOk params size (add_htlc q x).0 _ _ accepted))
refused_htlc_is_alone params size (pending_channel_open q fee) self x e v h = cc
refused_htlc_is_alone params size (pending_payment_forward q fee id) self x e v h = cc
refused_htlc_is_alone params size (pending_payment q fee id) self x e v h = cc
refused_htlc_is_alone params size (payment_forwarded id) self x e v h = cc

Covered-not-TooSmall :
    (fee : ℕ) (ps : List Payment)
    → total (all_htlcs ps) < u64_mod
    → Covered fee ps
    → All (λ (p : Payment). sum_msat p.1 < fee) ps
    → ⊥
unfolding all_htlcs
Covered-not-TooSmall fee [] b c small = c
Covered-not-TooSmall fee (p ∷ ps) b (inl c) small =
    omega (arith, total-append p.1 (all_htlcs ps), sum_msat-exact p.1)
Covered-not-TooSmall fee (p ∷ ps) b (inr c) small =
    Covered-not-TooSmall fee ps (omega (arith, total-append p.1 (all_htlcs ps))) c small.1

-- Every payment is worth something.
abbrev pub IsFunded : List Payment → Type 0
IsFunded = All (λ (p : Payment). 0 < total p.1)

middle_payment :
    (before after : List Payment) (p : Payment)
    → IsFunded (before ++ p ∷ after)
    → (0 < total p.1) × (total p.1 ≤ total (all_htlcs (before ++ p ∷ after)))
unfolding all_htlcs
middle_payment [] after p f = (f.0, omega (arith, total-append p.1 (all_htlcs after)))
middle_payment (r ∷ before) after p f =
    let rest = middle_payment before after p f.1 in
    (rest.0, omega (arith, rest.1, total-append r.1 (all_htlcs (before ++ p ∷ after))))

-- A payment that the pop of a funded and bounded queue takes can be forwarded whole.
popped_payment :
    (fee : ℕ) (ps qs : List Payment) (p : Payment)
    → total (all_htlcs ps) < u64_mod
    → IsFunded ps
    → Takes fee ps qs p
    → (fs : List (InterceptId × ℕ)) × (calculate_amount_to_forward_per_htlc p.1 fee ≡ some fs)
      × Splits p.1 fee (length p.1 - 1) fs
popped_payment fee ps qs p b f t =
    calculate_amount_to_forward_per_htlc-Splits p.1 fee middle.0 bounded
      (omega (arith, t.reached, sum_msat-exact p.1 bounded))
  where
    middle : (0 < total p.1) × (total p.1 ≤ total (all_htlcs (t.before ++ p ∷ t.after)))
    middle = middle_payment t.before t.after p (subst IsFunded t.was f)

    bounded : total p.1 < u64_mod
    bounded = omega (arith, middle.1, ap (λ (r : List Payment). total (all_htlcs r)) t.was)

-- What a fee payment has to be: forwards for all its HTLCs that take the fee out of them.
pub record Forwardable (a : ForwardPaymentAction) : Type 0 where
  pub forwards : List (InterceptId × ℕ)
  pub computed :
      calculate_amount_to_forward_per_htlc a.payment.htlcs a.payment.opening_fee_msat
      ≡ some forwards
  pub splits :
      Splits a.payment.htlcs a.payment.opening_fee_msat (length a.payment.htlcs - 1) forwards

-- The transition hands over the first payment of the queue that pays the fee.
abbrev pub ReadyWith :
    ℕ → ChannelId → List Payment → Result ChannelStateError (State × ForwardPaymentAction) → Type 0
ReadyWith fee id ps r =
    (s : State) × (a : ForwardPaymentAction) × (p : Payment) × (qs : List Payment) × (r ≡ ok (s, a))
    × Takes fee ps qs p
    × (a.payment.htlcs ≡ p.1)
    × (a.channel_id ≡ id)
    × (a.payment.opening_fee_msat ≡ fee)
    × Forwardable a

ready_with-ReadyWith :
    (fee : ℕ) (id : ChannelId) (q q' : PaymentQueue) (p : Option Payment)
    → total (all_htlcs q.payments) < u64_mod
    → IsFunded q.payments
    → Covered fee q.payments
    → Popped fee q.payments (q'.payments, p)
    → ReadyWith fee id q.payments (ready_with q' fee id p)
unfolding ready_with
ready_with-ReadyWith fee id q q' none b f c pop =
    absurd (Covered-not-TooSmall fee q.payments b c pop.1)
ready_with-ReadyWith fee id q q' (some p) b f c pop =
    let (fs, e, s) = popped_payment fee q.payments q'.payments p b f pop in
    (
      _,
      _,
      p,
      q'.payments,
      refl,
      pop,
      refl,
      refl,
      refl,
      record { forwards = fs; computed = e; splits = s },
    )

-- When a channel that was opened becomes ready, there is a payment to forward: the transition
-- succeeds, hands over the first payment that pays the fee, and the fee can be taken out of its
-- HTLCs. The payments that wait must be worth something each, and fit a `u64` together.
pub channel_ready_forwards :
    (params : OpeningFeeParams) (size : Option ℕ) (q : PaymentQueue) (fee : ℕ) (id : ChannelId)
    → IsValidState params size (pending_channel_open q fee)
    → total (all_htlcs q.payments) < u64_mod
    → IsFunded q.payments
    → ReadyWith fee id q.payments (channel_ready (pending_channel_open q fee) id).1
unfolding channel_ready
channel_ready_forwards params size q fee id v b f =
    ready_with-ReadyWith fee id q (pop_greater_than_msat q fee).0 _ b f v.1
      (pop_greater_than_msat-Popped q fee)
