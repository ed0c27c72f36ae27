-- ===== src/Lsps0/Msgs.antt =====
-- src/lsps0/msgs.rs: the messages of the base protocol.
use lightning_liquidity.Base.{ℕ, List}
use lightning_liquidity.Types.{RequestId}
use lightning_liquidity.Lsps0.Ser.{ResponseError}

pub record ListProtocolsRequest : Type 0 where

pub record ListProtocolsResponse : Type 0 where
  pub protocols : List ℕ

pub data Request : Type 0 where
  list_protocols : ListProtocolsRequest → Request

pub data Response : Type 0 where
  list_protocols_ok : ListProtocolsResponse → Response
  list_protocols_error : ResponseError → Response

pub data Message : Type 0 where
  request : RequestId → Request → Message
  response : RequestId → Response → Message
