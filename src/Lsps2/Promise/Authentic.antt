-- ===== src/Lsps2/Promise/Authentic.antt =====
-- Which opening fee parameters of src/lsps2/msgs.rs carry a valid promise.
use lightning_liquidity.Base.{
  ℕ, ◌≤◌, ◌≡◌, ◌↔◌, refl, sym, ap, ◌∙◌, true, false, some, List, ltb, if◌then◌else◌, arith,
}
use lightning_liquidity.Base.Keys.{list_beq_iff, nat_eq}
use lightning_liquidity.Types.{pos}
use lightning_liquidity.Utils.{hex_str}
use lightning_liquidity.Utils.Hex.{IsBytes, hex_str-injective}
use lightning_liquidity.Lsps2.Msgs.{RawOpeningFeeParams, OpeningFeeParams}
use lightning_liquidity.Lsps2.Promise.Input.{InRange, input_of, hmac_input-injective}
use lightning_liquidity.Lsps2.Promise.{
  Crypto, into_opening_fee_params, promise_matches, is_valid_opening_fee_params,
}

-- The parameters without the promise.
abbrev pub raw_of : OpeningFeeParams → RawOpeningFeeParams
raw_of p = record {
  min_fee_msat = p.min_fee_msat;
  proportional = p.proportional;
  valid_until = p.valid_until;
  min_lifetime = p.min_lifetime;
  max_client_to_self_delay = p.max_client_to_self_delay;
  min_payment_size_msat = p.min_payment_size_msat;
  max_payment_size_msat = p.max_payment_size_msat;
}

promise_matches_iff :
    (c : Crypto) (p : OpeningFeeParams) (secret : List ℕ)
    → (promise_matches c p secret ≡ true) ↔ (into_opening_fee_params c (raw_of p) secret ≡ p)
unfolding promise_matches into_opening_fee_params
promise_matches_iff c p secret = (
  λ h. ap (λ (t : List ℕ). record p { promise = t }) ((list_beq_iff _ p.promise).0 h),
  λ e. (list_beq_iff _ p.promise).1 (ap (λ (q : OpeningFeeParams). q.promise) e),
)

is_valid_value :
    (c : Crypto) (now expiry : ℕ) (p : OpeningFeeParams) (secret : List ℕ)
    → c.timestamp p.valid_until ≡ pos expiry
    → is_valid_opening_fee_params c now p secret
      ≡ (if ltb expiry now then some false else some (promise_matches c p secret))
unfolding is_valid_opening_fee_params
is_valid_value c now expiry p secret t = rw (t, is_valid_opening_fee_params)

-- Parameters are valid exactly if they are what the service itself would have given out under its
-- secret, and their time has not passed.
pub is_valid_iff_issued :
    (c : Crypto) (now expiry : ℕ) (p : OpeningFeeParams) (secret : List ℕ)
    → c.timestamp p.valid_until ≡ pos expiry
    → (is_valid_opening_fee_params c now p secret ≡ some true)
      ↔ ((now ≤ expiry) × (into_opening_fee_params c (raw_of p) secret ≡ p))
is_valid_iff_issued c now expiry p secret t = (
  λ h. (ground (arith, value), (promise_matches_iff c p secret).0 (ground (arith, value))),
  λ both. ground (arith, value, (promise_matches_iff c p secret).1 both.1),
)
  where
    value :
        is_valid_opening_fee_params c now p secret
        ≡ (if ltb expiry now then some false else some (promise_matches c p secret))
    value = is_valid_value c now expiry p secret t

-- What the service gives out it accepts until the time has passed.
pub is_valid-into :
    (c : Crypto) (now expiry : ℕ) (raw : RawOpeningFeeParams) (secret : List ℕ)
    → c.timestamp raw.valid_until ≡ pos expiry
    → now ≤ expiry
    → is_valid_opening_fee_params c now (into_opening_fee_params c raw secret) secret ≡ some true
is_valid-into c now expiry raw secret t h =
    (is_valid_iff_issued c now expiry (into_opening_fee_params c raw secret) secret
        (unfold into_opening_fee_params in t)).1
      (h, unfold into_opening_fee_params in refl)

promise_of :
    (c : Crypto) (raw : RawOpeningFeeParams) (secret : List ℕ)
    → hex_str (c.hmac_sha256 secret (input_of c raw))
      ≡ (into_opening_fee_params c raw secret).promise
unfolding into_opening_fee_params
promise_of c raw secret = refl

valid-matches :
    (c : Crypto) (now : ℕ) (p : OpeningFeeParams) (secret : List ℕ)
    → is_valid_opening_fee_params c now p secret ≡ some true
    → promise_matches c p secret ≡ true
unfolding is_valid_opening_fee_params
valid-matches c now p secret h = ground arith

-- A promise is good for the parameters that it was given out with and for no others: parameters
-- that carry the promise of `raw` and are accepted under the same secret are those of `raw`. The
-- HMAC must not collide on the two inputs and give bytes, and the text of a time must determine it.
pub promise_binds :
    (c : Crypto) (now : ℕ) (raw : RawOpeningFeeParams) (p : OpeningFeeParams) (secret : List ℕ)
    → ((m : List ℕ) → IsBytes (c.hmac_sha256 secret m))
    → (c.hmac_sha256 secret (input_of c (raw_of p)) ≡ c.hmac_sha256 secret (input_of c raw)
        → input_of c (raw_of p) ≡ input_of c raw)
    → (c.to_rfc3339 p.valid_until ≡ c.to_rfc3339 raw.valid_until → p.valid_until ≡ raw.valid_until)
    → InRange (raw_of p)
    → InRange raw
    → p.promise ≡ (into_opening_fee_params c raw secret).promise
    → is_valid_opening_fee_params c now p secret ≡ some true
    → raw_of p ≡ raw
promise_binds c now raw p secret bytes collision text u v same valid =
    hmac_input-injective c (raw_of p) raw text u v (
      collision
        (hex_str-injective _ _ (bytes (input_of c (raw_of p))) (bytes (input_of c raw)) same_text))
  where
    issued : into_opening_fee_params c (raw_of p) secret ≡ p
    issued = (promise_matches_iff c p secret).0 (valid-matches c now p secret valid)

    same_text :
        hex_str (c.hmac_sha256 secret (input_of c (raw_of p)))
        ≡ hex_str (c.hmac_sha256 secret (input_of c raw))
    same_text =
        promise_of c (raw_of p) secret
        ∙ ap (λ (q : OpeningFeeParams). q.promise) issued
        ∙ same
        ∙ sym (promise_of c raw secret)
