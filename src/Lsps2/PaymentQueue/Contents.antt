-- ===== src/Lsps2/PaymentQueue/Contents.antt =====
-- What src/lsps2/payment_queue.rs holds: by payment hash in order of arrival, and as a multiset.
use mathlib.Core.List.{Perm, append_assoc, perm_middle}
use mathlib.Core.List.Perm
use lightning_liquidity.Base.{
  ℕ, ◌+◌, ◌%◌, ◌<◌, ◌≤◌, ◌≡◌, refl, ap, inl, inr, Option, none, some, append_left_comm-perm, List,
  [], ◌∷◌, ◌++◌, ◌==◌, leb, if◌then◌else◌, length, All, arith, Bool-cases,
}
use lightning_liquidity.Base.Words.{u64_mod, wrapping_add}
use lightning_liquidity.Types.{PaymentHash}
use lightning_liquidity.Lsps2.PaymentQueue.{
  InterceptedHtlc, Payment, PaymentQueue, sum_from, sum_msat, add_to, add_htlc, pop_from,
  pop_greater_than_msat, all_htlcs,
}

-- The sum without wrap-around.
abbrev pub total : List InterceptedHtlc → ℕ
total [] = 0
total (x ∷ xs) = x.expected_outbound_amount_msat + total xs

pub total-append : (xs ys : List InterceptedHtlc) → total (xs ++ ys) ≡ total xs + total ys
total-append [] ys = omega arith
total-append (x ∷ xs) ys = omega (arith, total-append xs ys)

sum_from-eq-mod :
    (acc : ℕ) (xs : List InterceptedHtlc)
    → acc < u64_mod
    → sum_from acc xs ≡ (acc + total xs) % u64_mod
unfolding sum_from wrapping_add
sum_from-eq-mod acc [] h = omega arith
sum_from-eq-mod acc (x ∷ xs) h =
    omega
      (arith, sum_from-eq-mod (wrapping_add acc x.expected_outbound_amount_msat) xs (omega arith))

pub sum_msat-eq-mod : (xs : List InterceptedHtlc) → sum_msat xs ≡ total xs % u64_mod
unfolding sum_msat
sum_msat-eq-mod xs = omega (arith, sum_from-eq-mod 0 xs (omega arith))

pub sum_msat-exact : (xs : List InterceptedHtlc) → total xs < u64_mod → sum_msat xs ≡ total xs
sum_msat-exact xs h = omega (arith, sum_msat-eq-mod xs)

-- What is held for a payment hash, oldest first.
abbrev pub held_in : PaymentHash → List Payment → List InterceptedHtlc
held_in h [] = []
held_in h ((hash, htlcs) ∷ rest) = if hash == h then htlcs else held_in h rest

abbrev pub held : PaymentHash → PaymentQueue → List InterceptedHtlc
held h q = held_in h q.payments

held_in-add_to :
    (h : PaymentHash) (x : InterceptedHtlc) (ps : List Payment)
    → held_in h (add_to x ps).0
      ≡ (if x.payment_hash == h then held_in h ps ++ x ∷ [] else held_in h ps)
unfolding add_to
held_in-add_to h x [] = ground arith
held_in-add_to h x ((hash, htlcs) ∷ rest) = ground (arith, held_in-add_to h x rest)

-- An added HTLC comes last among those of its payment hash; the other hashes keep theirs.
pub held-add_htlc :
    (h : PaymentHash) (x : InterceptedHtlc) (q : PaymentQueue)
    → held h (add_htlc q x).0 ≡ (if x.payment_hash == h then held h q ++ x ∷ [] else held h q)
unfolding add_htlc
held-add_htlc h x q = held_in-add_to h x q.payments

add_to_result :
    (x : InterceptedHtlc) (ps : List Payment)
    → x.expected_outbound_amount_msat < u64_mod
    → (add_to x ps).1
      ≡ (let now = held_in x.payment_hash ps ++ x ∷ [] in (sum_msat now, length now))
unfolding add_to sum_msat sum_from wrapping_add
add_to_result x [] h = ap (λ (n : ℕ). (n, 1)) (omega arith)
add_to_result x ((hash, htlcs) ∷ rest) h = ground (arith, add_to_result x rest h)

-- What is reported for an added HTLC of a `u64` amount is the sum and the number of all HTLCs that
-- are now held for its payment hash.
add_htlc_result :
    (x : InterceptedHtlc) (q : PaymentQueue)
    → x.expected_outbound_amount_msat < u64_mod
    → (add_htlc q x).1 ≡ (let now = held x.payment_hash q ++ x ∷ [] in (sum_msat now, length now))
unfolding add_htlc
add_htlc_result x q h = add_to_result x q.payments h

add_to-perm :
    (x : InterceptedHtlc) (ps : List Payment) → Perm (all_htlcs (add_to x ps).0) (x ∷ all_htlcs ps)
unfolding add_to all_htlcs
add_to-perm x [] = Perm.refl (x ∷ [])
add_to-perm x ((hash, htlcs) ∷ rest) = elim (Bool-cases (hash == x.payment_hash)) [
  | inl e ↦ rw (e, append_assoc) (perm_middle htlcs (all_htlcs rest))
  | inr e ↦ rw e (
      Perm.trans (Perm.append (Perm.refl htlcs) (add_to-perm x rest))
        (perm_middle htlcs (all_htlcs rest)))
]

pub add_htlc-perm :
    (x : InterceptedHtlc) (q : PaymentQueue)
    → Perm (all_htlcs (add_htlc q x).0.payments) (x ∷ all_htlcs q.payments)
unfolding add_htlc
add_htlc-perm x q = add_to-perm x q.payments

-- The payment that a pop takes is the first whose total reaches the amount: `before` stays in
-- front of `after`.
pub record Takes (amount : ℕ) (ps qs : List Payment) (p : Payment) : Type 0 where
  pub before : List Payment
  pub after : List Payment
  pub was : ps ≡ before ++ p ∷ after
  pub now : qs ≡ before ++ after
  pub reached : amount ≤ sum_msat p.1
  pub too_small : All (λ r. sum_msat r.1 < amount) before

abbrev pub Popped : ℕ → List Payment → List Payment × Option Payment → Type 0
Popped amount ps (qs, none) = (qs ≡ ps) × All (λ r. sum_msat r.1 < amount) ps
Popped amount ps (qs, some p) = Takes amount ps qs p

Popped-skip :
    (amount : ℕ) (p : Payment) (ps : List Payment) (r : List Payment × Option Payment)
    → sum_msat p.1 < amount
    → Popped amount ps r
    → Popped amount (p ∷ ps) (p ∷ r.0, r.1)
Popped-skip amount p ps (qs, none) h pop = (ap (◌∷◌ p) pop.0, (h, pop.1))
Popped-skip amount p ps (qs, some t) h pop = record {
  before = p ∷ pop.before;
  after = pop.after;
  was = ap (◌∷◌ p) pop.was;
  now = ap (◌∷◌ p) pop.now;
  reached = pop.reached;
  too_small = (h, pop.too_small);
}

pop_from-Popped : (amount : ℕ) (ps : List Payment) → Popped amount ps (pop_from amount ps)
unfolding pop_from
pop_from-Popped amount [] = (refl, tt)
pop_from-Popped amount ((hash, htlcs) ∷ rest) = elim (Bool-cases (leb amount (sum_msat htlcs))) [
  | inl e ↦ rw e (record {
    before = [];
    after = rest;
    was = refl;
    now = refl;
    reached = ground arith;
    too_small = tt;
  })
  | inr e ↦ rw e (
      Popped-skip amount (hash, htlcs) rest (pop_from amount rest) (ground arith)
        (pop_from-Popped amount rest))
]

-- The queue after a pop and what was popped.
abbrev pub popping : PaymentQueue → ℕ → List Payment × Option Payment
popping q amount = let r = pop_greater_than_msat q amount in (r.0.payments, r.1)

-- A pop takes out the first payment whose total reaches the amount and keeps the others in order;
-- it takes none, and changes nothing, exactly if no total reaches the amount.
pub pop_greater_than_msat-Popped :
    (q : PaymentQueue) (amount : ℕ) → Popped amount q.payments (popping q amount)
unfolding pop_greater_than_msat
pop_greater_than_msat-Popped q amount = pop_from-Popped amount q.payments

pub all_htlcs-append : (ps qs : List Payment) → all_htlcs (ps ++ qs) ≡ all_htlcs ps ++ all_htlcs qs
unfolding all_htlcs
all_htlcs-append [] qs = refl
all_htlcs-append ((hash, htlcs) ∷ ps) qs = simp (all_htlcs-append ps qs, append_assoc)

-- Taking a payment out of the queue removes its HTLCs and no other.
pub Takes-perm :
    {amount : ℕ} {ps qs : List Payment} {p : Payment}
    → Takes amount ps qs p
    → Perm (all_htlcs ps) (p.1 ++ all_htlcs qs)
unfolding all_htlcs
Takes-perm {p = p} t =
    rw (t.was, t.now, all_htlcs-append, all_htlcs-append)
      (append_left_comm-perm (all_htlcs t.before) p.1 (all_htlcs t.after))
