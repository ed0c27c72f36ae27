-- ===== src/Lsps0/Json/Faithful.antt =====
-- What the code of src/lsps0/ser.rs relies on of the crates `serde` and `serde_json`, and what the
-- loop of its visitor makes of the objects that it writes.
use lightning_liquidity.Base.{ℕ, ◌≡◌, Option, none, some, List, ◌≤◌, ◌≢◌, All, arith}
use lightning_liquidity.Base.Keys.{nat_eq, list_eq}
use lightning_liquidity.Types.{Text, RequestId}
use lightning_liquidity.Lsps0.Ser.{ResponseError}
use lightning_liquidity.Lsps0.Method.{
  LspsMethod, lsps0_list_protocols, lsps1_get_info, lsps1_get_order, lsps1_create_order,
  lsps2_get_info, lsps2_buy, print, from_str-print,
}
use lightning_liquidity.Lsps0.Json.{Codec, Serde, request_entries, result_entries, error_entries}
use lightning_liquidity.Lsps0.Json.Read.{no_fields, set_field, read_fields}

-- A text that JSON writes without an escape.
abbrev pub IsPlain : Text → Type 0
IsPlain = All (λ (c : ℕ). (32 ≤ c) × (c ≢ b'"') × (c ≢ b'\\'))

abbrev pub HasPlainKeys : {V : Type 0} → List (Text × V) → Type 0
HasPlainKeys {V} = All (λ (e : Text × V). IsPlain e.0)

abbrev pub IsFaithfulCodec : {V A : Type 0} → Codec V A → Type 0
IsFaithfulCodec {A = A} c = (a : A) → c.from_value (c.to_value a) ≡ some a

-- What the documentation of `serde` and `serde_json` says of values that were serialized: each is
-- read back as it was, an object with plain keys is written and read back entry by entry.
pub record IsFaithful {V : Type 0} (s : Serde V) : Type 0 where
  pub null_lem : s.from_optional s.null ≡ some none
  pub optional : (t : Text) → s.from_optional (s.text t) ≡ some (some t)
  pub string : (t : Text) → s.from_string (s.text t) ≡ some t
  pub plain : (t : Text) → IsPlain t → s.from_str (s.text t) ≡ some t
  pub response_error : IsFaithfulCodec s.response_error
  pub list_protocols_response : IsFaithfulCodec s.list_protocols_response
  pub lsps1_get_info_request : IsFaithfulCodec s.lsps1_get_info_request
  pub lsps1_get_info_response : IsFaithfulCodec s.lsps1_get_info_response
  pub create_order_request : IsFaithfulCodec s.create_order_request
  pub create_order_response : IsFaithfulCodec s.create_order_response
  pub get_order_request : IsFaithfulCodec s.get_order_request
  pub lsps2_get_info_request : IsFaithfulCodec s.lsps2_get_info_request
  pub lsps2_get_info_response : IsFaithfulCodec s.lsps2_get_info_response
  pub buy_request : IsFaithfulCodec s.buy_request
  pub buy_response : IsFaithfulCodec s.buy_response
  pub object :
      (entries : List (Text × V))
      → HasPlainKeys entries
      → (payload : Text) × (s.write_object entries ≡ some payload)
        × (s.read_object payload ≡ some entries)

print-IsPlain : (m : LspsMethod) → IsPlain (print m)
unfolding print
print-IsPlain lsps0_list_protocols = omega arith
print-IsPlain lsps1_get_info = omega arith
print-IsPlain lsps1_get_order = omega arith
print-IsPlain lsps1_create_order = omega arith
print-IsPlain lsps2_get_info = omega arith
print-IsPlain lsps2_buy = omega arith

module _ {V : Type 0} (s : Serde V) (h : IsFaithful s) where
  pub read_fields-request :
      (id : RequestId) (m : LspsMethod) (params : V)
      → read_fields s (no_fields s) (request_entries s id m params)
        ≡ some (record {
          id = some id;
          method = some m;
          params = some params;
          result = none;
          error = none;
        })
  unfolding no_fields read_fields set_field
  read_fields-request id m params =
      ground (arith, h.optional id, h.plain (print m) (print-IsPlain m), from_str-print m)

  pub read_fields-result :
      (id : RequestId) (result : V)
      → read_fields s (no_fields s) (result_entries s id result)
        ≡ some (record {
          id = some id;
          method = none;
          params = none;
          result = some result;
          error = none;
        })
  unfolding no_fields read_fields set_field
  read_fields-result id result = ground (arith, h.optional id)

  pub read_fields-error :
      (value : V) (id : Option RequestId) (e : ResponseError)
      → s.from_optional value ≡ some id
      → read_fields s (no_fields s) (error_entries s value e)
        ≡ some (record { id = id; method = none; params = none; result = none; error = some e })
  unfolding no_fields read_fields set_field
  read_fields-error value id e k = ground (arith, k, h.response_error e)
