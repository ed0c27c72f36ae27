-- ===== src/Lsps0/Method.antt =====
-- `LSPSMethod` of src/lsps0/ser.rs, with the method names of the three msgs.rs.
use lightning_liquidity.Base.{◌≡◌, refl, Option, none, some, if◌then◌else◌}
use lightning_liquidity.Base.Texts.{codes}
use lightning_liquidity.Base.Keys.{nat_eq, list_beq}
use lightning_liquidity.Types.{Text, RequestId}
use lightning_liquidity.Lsps0.Msgs as Lsps0Msgs
use lightning_liquidity.Lsps1.Msgs as Lsps1Msgs
use lightning_liquidity.Lsps2.Msgs as Lsps2Msgs
use lightning_liquidity.MessageQueue.{LspsMessage, invalid, lsps0, lsps1, lsps2}

pub data LspsMethod : Type 0 where
  lsps0_list_protocols : LspsMethod
  lsps1_get_info : LspsMethod
  lsps1_get_order : LspsMethod
  lsps1_create_order : LspsMethod
  lsps2_get_info : LspsMethod
  lsps2_buy : LspsMethod

-- `Display`, with the constants of the method names.
unfoldable pub print : LspsMethod → Text
print lsps0_list_protocols = codes "lsps0.list_protocols"
print lsps1_get_info = codes "lsps1.get_info"
print lsps1_create_order = codes "lsps1.create_order"
print lsps1_get_order = codes "lsps1.get_order"
print lsps2_get_info = codes "lsps2.get_info"
print lsps2_buy = codes "lsps2.buy"

-- `FromStr`: the names are tried in the order of the source.
unfoldable pub from_str : Text → Option LspsMethod
unfolding print
from_str s =
    if list_beq s (print lsps0_list_protocols)
    then some lsps0_list_protocols
    else if list_beq s (print lsps1_get_info)
    then some lsps1_get_info
    else if list_beq s (print lsps1_create_order)
    then some lsps1_create_order
    else if list_beq s (print lsps1_get_order)
    then some lsps1_get_order
    else if list_beq s (print lsps2_get_info)
    then some lsps2_get_info
    else if list_beq s (print lsps2_buy)
    then some lsps2_buy
    else none

-- `From<&LSPS0Request>`, `From<&LSPS1Request>` and `From<&LSPS2Request>`.
unfoldable pub method_of_lsps0 : Lsps0Msgs.Request → LspsMethod
method_of_lsps0 (Lsps0Msgs.list_protocols r) = lsps0_list_protocols

unfoldable pub method_of_lsps1 : Lsps1Msgs.Request → LspsMethod
method_of_lsps1 (Lsps1Msgs.get_info r) = lsps1_get_info
method_of_lsps1 (Lsps1Msgs.create_order r) = lsps1_create_order
method_of_lsps1 (Lsps1Msgs.get_order r) = lsps1_get_order

unfoldable pub method_of_lsps2 : Lsps2Msgs.Request → LspsMethod
method_of_lsps2 (Lsps2Msgs.get_info r) = lsps2_get_info
method_of_lsps2 (Lsps2Msgs.buy r) = lsps2_buy

unfoldable pub get_request_id_and_method : LspsMessage → Option (RequestId × LspsMethod)
unfolding method_of_lsps0 method_of_lsps1 method_of_lsps2
get_request_id_and_method (lsps0 (Lsps0Msgs.request id r)) = some (id, method_of_lsps0 r)
get_request_id_and_method (lsps1 (Lsps1Msgs.request id r)) = some (id, method_of_lsps1 r)
get_request_id_and_method (lsps2 (Lsps2Msgs.request id r)) = some (id, method_of_lsps2 r)
get_request_id_and_method (invalid e) = none
get_request_id_and_method (lsps0 (Lsps0Msgs.response id r)) = none
get_request_id_and_method (lsps1 (Lsps1Msgs.response id r)) = none
get_request_id_and_method (lsps2 (Lsps2Msgs.response id r)) = none

-- The name of a method is read back as the method.
pub from_str-print : (m : LspsMethod) → from_str (print m) ≡ some m
unfolding from_str print
from_str-print lsps0_list_protocols = refl
from_str-print lsps1_get_info = refl
from_str-print lsps1_get_order = refl
from_str-print lsps1_create_order = refl
from_str-print lsps2_get_info = refl
from_str-print lsps2_buy = refl
