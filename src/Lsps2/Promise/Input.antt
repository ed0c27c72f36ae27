-- ===== src/Lsps2/Promise/Input.antt =====
-- The input of the HMAC that makes the promise of src/lsps2/msgs.rs.
use lightning_liquidity.Base.{ℕ, ◌<◌, ◌≡◌, List, ◌++◌, length, length-append, arith}
use lightning_liquidity.Base.Bytes.{
  be_bytes, byte_bound, length-be_bytes, be_bytes-injective, append-injective, append-injective_end,
}
use lightning_liquidity.Base.Keys.{nat_eq}
use lightning_liquidity.Lsps2.Msgs.{RawOpeningFeeParams}
use lightning_liquidity.Lsps2.Promise.{Crypto, hmac_input}

-- Numbers that fit the fields' types.
pub record InRange (r : RawOpeningFeeParams) : Type 0 where
  pub min_fee : r.min_fee_msat < byte_bound 8
  pub share : r.proportional < byte_bound 4
  pub lifetime : r.min_lifetime < byte_bound 4
  pub delay : r.max_client_to_self_delay < byte_bound 4
  pub min_size : r.min_payment_size_msat < byte_bound 8
  pub max_size : r.max_payment_size_msat < byte_bound 8

abbrev pub input_of : Crypto → RawOpeningFeeParams → List ℕ
input_of c r =
    hmac_input c r.min_fee_msat r.proportional r.valid_until r.min_lifetime
      r.max_client_to_self_delay r.min_payment_size_msat r.max_payment_size_msat

same_width : (w a b : ℕ) → length (be_bytes w a) ≡ length (be_bytes w b)
same_width w a b = omega (arith, length-be_bytes w a, length-be_bytes w b)

-- The last four fields have a fixed width.
abbrev tail_bytes : RawOpeningFeeParams → List ℕ
tail_bytes r =
    be_bytes 4 r.min_lifetime
    ++ (be_bytes 4 r.max_client_to_self_delay
        ++ (be_bytes 8 r.min_payment_size_msat ++ be_bytes 8 r.max_payment_size_msat))

length-tail_bytes : (r : RawOpeningFeeParams) → length (tail_bytes r) ≡ 24
length-tail_bytes r = omega (
  arith,
  length-append (be_bytes 4 r.min_lifetime) (
      be_bytes 4 r.max_client_to_self_delay
      ++ (be_bytes 8 r.min_payment_size_msat ++ be_bytes 8 r.max_payment_size_msat)),
  length-append (be_bytes 4 r.max_client_to_self_delay)
      (be_bytes 8 r.min_payment_size_msat ++ be_bytes 8 r.max_payment_size_msat),
  length-append (be_bytes 8 r.min_payment_size_msat) (be_bytes 8 r.max_payment_size_msat),
  length-be_bytes 4 r.min_lifetime,
  length-be_bytes 4 r.max_client_to_self_delay,
  length-be_bytes 8 r.min_payment_size_msat,
  length-be_bytes 8 r.max_payment_size_msat,
)

take_field :
    (w a b : ℕ) (rest rest' : List ℕ)
    → a < byte_bound w
    → b < byte_bound w
    → be_bytes w a ++ rest ≡ be_bytes w b ++ rest'
    → (a ≡ b) × (rest ≡ rest')
take_field w a b rest rest' h k e =
    let parts = append-injective (be_bytes w a) (be_bytes w b) rest rest' (same_width w a b) e in
    (be_bytes-injective w a b h k parts.0, parts.1)

-- Two sets of parameters that fit their types have one HMAC input only if they are equal, provided
-- that the text of a time determines the time.
pub hmac_input-injective :
    (c : Crypto) (r s : RawOpeningFeeParams)
    → (c.to_rfc3339 r.valid_until ≡ c.to_rfc3339 s.valid_until → r.valid_until ≡ s.valid_until)
    → InRange r
    → InRange s
    → input_of c r ≡ input_of c s
    → r ≡ s
unfolding hmac_input
hmac_input-injective c r s text u v e =
    ground (arith, fee.0, share.0, text time.0, lifetime.0, delay.0, min_size.0, max_size)
  where
    fee :
        (r.min_fee_msat ≡ s.min_fee_msat)
        × (be_bytes 4 r.proportional ++ (c.to_rfc3339 r.valid_until ++ tail_bytes r)
            ≡ be_bytes 4 s.proportional ++ (c.to_rfc3339 s.valid_until ++ tail_bytes s))
    fee = take_field 8 r.min_fee_msat s.min_fee_msat _ _ u.min_fee v.min_fee e

    share :
        (r.proportional ≡ s.proportional)
        × (c.to_rfc3339 r.valid_until ++ tail_bytes r ≡ c.to_rfc3339 s.valid_until ++ tail_bytes s)
    share = take_field 4 r.proportional s.proportional _ _ u.share v.share fee.1

    time : (c.to_rfc3339 r.valid_until ≡ c.to_rfc3339 s.valid_until) × (tail_bytes r ≡ tail_bytes s)
    time =
        append-injective_end (c.to_rfc3339 r.valid_until) (c.to_rfc3339 s.valid_until)
          (tail_bytes r) (tail_bytes s) (omega (arith, length-tail_bytes r, length-tail_bytes s))
          share.1

    lifetime :
        (r.min_lifetime ≡ s.min_lifetime)
        × (be_bytes 4 r.max_client_to_self_delay
              ++ (be_bytes 8 r.min_payment_size_msat ++ be_bytes 8 r.max_payment_size_msat)
            ≡ be_bytes 4 s.max_client_to_self_delay
              ++ (be_bytes 8 s.min_payment_size_msat ++ be_bytes 8 s.max_payment_size_msat))
    lifetime = take_field 4 r.min_lifetime s.min_lifetime _ _ u.lifetime v.lifetime time.1

    delay :
        (r.max_client_to_self_delay ≡ s.max_client_to_self_delay)
        × (be_bytes 8 r.min_payment_size_msat ++ be_bytes 8 r.max_payment_size_msat
            ≡ be_bytes 8 s.min_payment_size_msat ++ be_bytes 8 s.max_payment_size_msat)
    delay =
        take_field 4 r.max_client_to_self_delay s.max_client_to_self_delay _ _ u.delay v.delay
          lifetime.1

    min_size :
        (r.min_payment_size_msat ≡ s.min_payment_size_msat)
        × (be_bytes 8 r.max_payment_size_msat ≡ be_bytes 8 s.max_payment_size_msat)
    min_size =
        take_field 8 r.min_payment_size_msat s.min_payment_size_msat _ _ u.min_size v.min_size
          delay.1

    max_size : r.max_payment_size_msat ≡ s.max_payment_size_msat
    max_size =
        be_bytes-injective 8 r.max_payment_size_msat s.max_payment_size_msat u.max_size v.max_size
          min_size.1
