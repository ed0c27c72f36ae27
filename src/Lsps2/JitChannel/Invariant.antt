-- ===== src/Lsps2/JitChannel/Invariant.antt =====
-- The valid states of a just-in-time channel of src/lsps2/service.rs.
use lightning_liquidity.Base.{
  ℕ, ◌≤◌, ◌<◌, ◌≡◌, refl, ◌⊎◌, inl, inr, Bool, true, false, Option, none, some, List, [], ◌∷◌, ◌++◌,
  ◌==◌, All, arith, Bool-cases,
}
use lightning_liquidity.Base.Results.{Result, ok, err, ◌>>=◌}
use lightning_liquidity.Lsps2.Msgs.{OpeningFeeParams}
use lightning_liquidity.Lsps2.Fee.{compute_opening_fee}
use lightning_liquidity.Lsps2.PaymentQueue
use lightning_liquidity.Lsps2.PaymentQueue.{
  InterceptedHtlc, Payment, PaymentQueue, all_htlcs, add_to, add_htlc, pop_greater_than_msat, clear,
  sum_msat,
}
use lightning_liquidity.Lsps2.PaymentQueue.Contents.{total, total-append, sum_msat-eq-mod}
use lightning_liquidity.Lsps2.PaymentQueue.Invariant.{IsValid, new-IsValid}
use lightning_liquidity.Lsps2.JitChannel
use lightning_liquidity.Lsps2.JitChannel.{
  State, pending_initial_payment, pending_channel_open, pending_payment_forward, pending_payment,
  payment_forwarded, HtlcInterceptedAction, ForwardPaymentAction, Transition, ChannelStateError,
  forward_or_wait, ready_with, htlc_intercepted, channel_ready, htlc_handling_failed,
  on_payment_forwarded, as_intercepted, initial_payment, open_or_wait, expected_size, check_limits,
  fee_or_error,
}

-- The payment size of the invoice is known, within the limits, and has an opening fee.
abbrev pub Accepted : OpeningFeeParams → Option ℕ → Type 0
Accepted params none = ⊥
Accepted params (some size) =
    (params.min_payment_size_msat ≤ size)
    × (size ≤ params.max_payment_size_msat)
    × (fee : ℕ) × (compute_opening_fee size params.min_fee_msat params.proportional ≡ some fee)

-- Some payment is worth more than the fee.
abbrev pub Covered : ℕ → List Payment → Type 0
Covered fee [] = ⊥
Covered fee (p ∷ ps) = (fee < total p.1) ⊎ Covered fee ps

abbrev pub TooSmall : ℕ → List Payment → Type 0
TooSmall fee = All (λ (p : Payment). sum_msat p.1 < fee)

-- In every state the queue is valid. The first state holds HTLCs only for an accepted payment
-- size; a channel is opened only for a payment that is worth more than the fee; and a queue waits
-- for a payment only while none of its payments is large enough.
abbrev pub IsValidState : OpeningFeeParams → Option ℕ → State → Type 0
IsValidState params size (pending_initial_payment q) =
    IsValid q × ((q.payments ≡ []) ⊎ Accepted params size)
IsValidState params size (pending_channel_open q fee) = IsValid q × Covered fee q.payments
IsValidState params size (pending_payment_forward q fee id) = IsValid q
IsValidState params size (pending_payment q fee id) = IsValid q × TooSmall fee q.payments
IsValidState params size (payment_forwarded id) = Unit

pub new-IsValidState :
    (params : OpeningFeeParams) (size : Option ℕ) → IsValidState params size JitChannel.new
unfolding JitChannel.new PaymentQueue.new
new-IsValidState params size = (new-IsValid, inl refl)

pub Covered-add_to :
    (fee : ℕ) (x : InterceptedHtlc) (ps : List Payment)
    → Covered fee ps
    → Covered fee (add_to x ps).0
unfolding add_to
Covered-add_to fee x [] c = absurd c
Covered-add_to fee x ((hash, htlcs) ∷ rest) (inl c) = elim (Bool-cases (hash == x.payment_hash)) [
  | inl e ↦ rw e (inl (omega (arith, total-append htlcs (x ∷ []))))
  | inr e ↦ rw e (inl c)
]
Covered-add_to fee x ((hash, htlcs) ∷ rest) (inr c) = elim (Bool-cases (hash == x.payment_hash)) [
  | inl e ↦ rw e (inr c)
  | inr e ↦ rw e (inr (Covered-add_to fee x rest c))
]

pub sum_msat-le-total : (xs : List InterceptedHtlc) → sum_msat xs ≤ total xs
sum_msat-le-total xs = omega (arith, sum_msat-eq-mod xs)

-- A payment that an HTLC has just joined covers a fee that its reported total exceeds.
pub add_to-Covered :
    (fee : ℕ) (x : InterceptedHtlc) (ps : List Payment)
    → fee < (add_to x ps).1.0
    → Covered fee (add_to x ps).0
unfolding add_to
add_to-Covered fee x [] h = inl (omega arith)
add_to-Covered fee x ((hash, htlcs) ∷ rest) h = elim (Bool-cases (hash == x.payment_hash)) [
  | inl e ↦ rw e (inl (omega (arith, rw e at h, sum_msat-le-total (htlcs ++ x ∷ []))))
  | inr e ↦ rw e (inr (add_to-Covered fee x rest (rw e at h)))
]

-- What the first state may turn into.
abbrev pub Opens :
    OpeningFeeParams
    → Option ℕ
    → PaymentQueue
    → ℕ
    → Result ChannelStateError (State × Option HtlcInterceptedAction)
    → Type 0
Opens params size q sum (ok (pending_initial_payment q', a)) = (q' ≡ q) × Accepted params size
Opens params size q sum (ok (pending_channel_open q' fee, a)) = (q' ≡ q) × (fee < sum)
Opens params size q sum (ok (_, a)) = ⊥
Opens params size q sum (err e) = Unit

open_or_wait-Opens :
    (params : OpeningFeeParams) (size : Option ℕ) (q : PaymentQueue) (sum expected : ℕ) (mpp : Bool)
    (fee : ℕ)
    → (mpp ≡ true → Accepted params size)
    → Opens params size q sum (open_or_wait q sum expected mpp fee)
unfolding open_or_wait
open_or_wait-Opens params size q sum expected true fee h = ground (arith, h refl)
open_or_wait-Opens params size q sum expected false fee h = ground arith

mpp_size-Accepted :
    (params : OpeningFeeParams) (size : Option ℕ) (sum num fee : ℕ) (s : ℕ × Bool)
    → expected_size size sum num ≡ ok s
    → check_limits params s.0 ≡ ok tt
    → fee_or_error params s.0 ≡ ok fee
    → s.1 ≡ true
    → Accepted params size
unfolding expected_size check_limits fee_or_error
mpp_size-Accepted params none sum num fee s e l f m = ground arith
mpp_size-Accepted params (some size) sum num fee s e l f m =
    (ground arith, ground arith, fee, ground arith)

Opens-bind :
    {A : Type 0} (params : OpeningFeeParams) (size : Option ℕ) (q : PaymentQueue) (sum : ℕ)
    (m : Result ChannelStateError A)
    (f : A → Result ChannelStateError (State × Option HtlcInterceptedAction))
    → ((a : A) → m ≡ ok a → Opens params size q sum (f a))
    → Opens params size q sum (m >>= f)
Opens-bind params size q sum (ok a) f k = k a refl
Opens-bind params size q sum (err e) f k = tt

pub initial_payment-Opens :
    (params : OpeningFeeParams) (size : Option ℕ) (q : PaymentQueue) (sum num : ℕ)
    → Opens params size q sum (initial_payment params size q sum num)
unfolding initial_payment
initial_payment-Opens params size q sum num =
    Opens-bind params size q sum (expected_size size sum num) _ λ s e.
      Opens-bind params size q sum (check_limits params s.0) _ λ u l.
        Opens-bind params size q sum (fee_or_error params s.0) _ λ fee f.
          open_or_wait-Opens params size q sum s.0 s.1 fee
            (mpp_size-Accepted params size sum num fee s e l f)

-- An accepted payment size is never refused later.
abbrev pub IsOk : {A : Type 0} → Result ChannelStateError A → Type 0
IsOk (ok a) = Unit
IsOk (err e) = ⊥

pub Accepted-IsOk :
    (params : OpeningFeeParams) (size : Option ℕ) (q : PaymentQueue) (sum num : ℕ)
    → Accepted params size
    → IsOk (initial_payment params size q sum num)
unfolding initial_payment expected_size check_limits fee_or_error open_or_wait
Accepted-IsOk params none q sum num a = absurd a
Accepted-IsOk params (some size) q sum num a = ground arith
