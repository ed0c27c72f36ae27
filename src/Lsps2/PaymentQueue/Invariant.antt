-- ===== src/Lsps2/PaymentQueue/Invariant.antt =====
-- Well-formed queues of src/lsps2/payment_queue.rs: what its two `debug_assert!`s rely on.
use lightning_liquidity.Base.{
  ℕ, ◌<◌, ◌≡◌, ◌≢◌, refl, sym, ap, ◌∙◌, subst, inl, inr, Option, some, List, [], ◌∷◌, ◌++◌, ◌==◌,
  length, length-append, All, All-append, arith, Bool-cases, ==_iff,
}
use lightning_liquidity.Types.{PaymentHash}
use lightning_liquidity.Lsps2.PaymentQueue.{
  InterceptedHtlc, Payment, PaymentQueue, new, add_to, add_htlc, pop_greater_than_msat,
}
use lightning_liquidity.Lsps2.PaymentQueue.Contents.{
  Takes, Popped, popping, held_in, held, pop_greater_than_msat-Popped,
}

-- A payment is not empty, and its HTLCs have its hash.
pub record IsValidPayment (p : Payment) : Type 0 where
  pub some_htlc : 0 < length p.1
  pub same_hash : All (λ (x : InterceptedHtlc). x.payment_hash ≡ p.0) p.1

abbrev pub Absent : PaymentHash → List Payment → Type 0
Absent h = All (λ (p : Payment). p.0 ≢ h)

-- No two payments have one hash.
abbrev pub Distinct : List Payment → Type 0
Distinct [] = Unit
Distinct (p ∷ ps) = Absent p.0 ps × Distinct ps

pub record IsValid (q : PaymentQueue) : Type 0 where
  pub distinct : Distinct q.payments
  pub payments : All IsValidPayment q.payments

pub new-IsValid : IsValid new
unfolding new
new-IsValid = record { distinct = tt; payments = tt }

Absent-add_to :
    (h : PaymentHash) (x : InterceptedHtlc) (ps : List Payment)
    → x.payment_hash ≢ h
    → Absent h ps
    → Absent h (add_to x ps).0
unfolding add_to
Absent-add_to h x [] n a = (n, tt)
Absent-add_to h x ((hash, htlcs) ∷ rest) n a = elim (Bool-cases (hash == x.payment_hash)) [
  | inl e ↦ rw e a
  | inr e ↦ rw e (a.0, Absent-add_to h x rest n a.1)
]

add_to-Distinct : (x : InterceptedHtlc) (ps : List Payment) → Distinct ps → Distinct (add_to x ps).0
unfolding add_to
add_to-Distinct x [] d = (tt, tt)
add_to-Distinct x ((hash, htlcs) ∷ rest) d = elim (Bool-cases (hash == x.payment_hash)) [
  | inl e ↦ rw e d
  | inr e ↦ rw e (
    Absent-add_to hash x rest (λ p. ground (arith, ==_iff hash x.payment_hash)) d.0,
    add_to-Distinct x rest d.1,
  )
]

add_to-IsValidPayment :
    (x : InterceptedHtlc) (ps : List Payment)
    → All IsValidPayment ps
    → All IsValidPayment (add_to x ps).0
unfolding add_to
add_to-IsValidPayment x [] v = (record { some_htlc = omega arith; same_hash = (refl, tt) }, tt)
add_to-IsValidPayment x ((hash, htlcs) ∷ rest) v = elim (Bool-cases (hash == x.payment_hash)) [
  | inl e ↦ rw e (
    record {
      some_htlc = omega (arith, length-append htlcs (x ∷ []));
      same_hash =
          All-append _ htlcs (x ∷ []) v.0.same_hash (sym ((==_iff hash x.payment_hash).0 e), tt);
    },
    v.1,
  )
  | inr e ↦ rw e (v.0, add_to-IsValidPayment x rest v.1)
]

-- Adding an HTLC keeps a queue valid: no payment is empty, its HTLCs have its hash, and no two
-- payments have one hash.
pub add_htlc-IsValid :
    (q : PaymentQueue) (x : InterceptedHtlc) → IsValid q → IsValid (add_htlc q x).0
unfolding add_htlc
add_htlc-IsValid q x v = record {
  distinct = add_to-Distinct x q.payments v.distinct;
  payments = add_to-IsValidPayment x q.payments v.payments;
}

Absent-remove :
    (h : PaymentHash) (before after : List Payment) (p : Payment)
    → Absent h (before ++ p ∷ after)
    → (p.0 ≢ h) × Absent h (before ++ after)
Absent-remove h [] after p a = a
Absent-remove h (r ∷ before) after p a =
    let b = Absent-remove h before after p a.1 in (b.0, (a.0, b.1))

Distinct-remove :
    (before after : List Payment) (p : Payment)
    → Distinct (before ++ p ∷ after)
    → Distinct (before ++ after) × Absent p.0 (before ++ after)
Distinct-remove [] after p d = (d.1, d.0)
Distinct-remove (r ∷ before) after p d =
    let rest = Distinct-remove before after p d.1 in
    let apart = Absent-remove r.0 before after p d.0 in
    ((apart.1, rest.0), ((λ e. apart.0 (sym e)), rest.1))

All-remove :
    (before after : List Payment) (p : Payment)
    → All IsValidPayment (before ++ p ∷ after)
    → IsValidPayment p × All IsValidPayment (before ++ after)
All-remove [] after p v = v
All-remove (r ∷ before) after p v =
    let rest = All-remove before after p v.1 in (rest.0, (v.0, rest.1))

held_in-Absent : (h : PaymentHash) (ps : List Payment) → Absent h ps → held_in h ps ≡ []
held_in-Absent h [] a = refl
held_in-Absent h ((hash, htlcs) ∷ rest) a =
    ground (arith, ==_iff hash h, a.0, held_in-Absent h rest a.1)

held_in-middle :
    (before after : List Payment) (p : Payment)
    → Distinct (before ++ p ∷ after)
    → held_in p.0 (before ++ p ∷ after) ≡ p.1
held_in-middle [] after (hash, htlcs) d = ground arith
held_in-middle ((other, htlcs) ∷ before) after p d =
    ground (arith, (Absent-remove other before after p d.0).0, held_in-middle before after p d.1)

-- What a pop does to a valid queue: the popped payment is valid and was all that was held for its
-- hash, nothing is held for it any more, and the rest is valid.
pub record Removes (q q' : PaymentQueue) (p : Payment) : Type 0 where
  pub rest_valid : IsValid q'
  pub payment_valid : IsValidPayment p
  pub whole : p.1 ≡ held p.0 q
  pub gone : held p.0 q' ≡ []

Takes-Removes :
    (amount : ℕ) (q q' : PaymentQueue) (p : Payment)
    → IsValid q
    → Takes amount q.payments q'.payments p
    → Removes q q' p
Takes-Removes amount q q' p v t = record {
  rest_valid = record {
    distinct = subst Distinct (sym t.now) d.0;
    payments = subst (All IsValidPayment) (sym t.now) a.1;
  };
  payment_valid = a.0;
  whole = sym (ap (held_in p.0) t.was ∙ held_in-middle t.before t.after p d');
  gone = held_in-Absent p.0 q'.payments (subst (Absent p.0) (sym t.now) d.1);
}
  where
    d' : Distinct (t.before ++ p ∷ t.after)
    d' = subst Distinct t.was v.distinct

    d : Distinct (t.before ++ t.after) × Absent p.0 (t.before ++ t.after)
    d = Distinct-remove t.before t.after p d'

    a : IsValidPayment p × All IsValidPayment (t.before ++ t.after)
    a = All-remove t.before t.after p (subst (All IsValidPayment) t.was v.payments)

-- A payment that is popped from a valid queue is all that the queue held for its hash, the queue
-- holds nothing for this hash afterwards, and both are valid.
pub pop-Removes :
    (q : PaymentQueue) (amount : ℕ) (p : Payment)
    → IsValid q
    → (pop_greater_than_msat q amount).1 ≡ some p
    → Removes q (pop_greater_than_msat q amount).0 p
pop-Removes q amount p v e = Takes-Removes amount q _ p v (
    subst (λ (o : Option Payment). Popped amount q.payments ((popping q amount).0, o)) e
      (pop_greater_than_msat-Popped q amount))
