-- ===== src/Manager/Protocol.antt =====
-- ta_manager/src/protocol.rs: the messages. Its `ParamType` is the enumeration of src/parameter.rs.
use optee_utee.Prelude.{ℕ, List}
use optee_utee.Prelude.Array4.{Array4}
use optee_utee.Param.{ParamType}

pub record Value : Type 0 where
  pub a : ℕ
  pub b : ℕ

-- The field `data` of the source is `bytes` here.
pub record TeeParam : Type 0 where
  pub bytes : List ℕ
  pub values : Value

pub record Parameter : Type 0 where
  pub param : TeeParam
  pub param_type : ParamType

abbrev pub Parameters : Type 0
Parameters = Array4 Parameter

pub data TeeRequest : Type 0 where
  open_session : List ℕ → ℕ → Parameters → TeeRequest
  close_session : ℕ → TeeRequest
  invoke_command : ℕ → ℕ → Parameters → TeeRequest
  request_cancellation : ℕ → TeeRequest

pub data TeeResponse : Type 0 where
  open_session : ℕ → ℕ → TeeResponse
  close_session : ℕ → TeeResponse
  invoke_command : Parameters → ℕ → TeeResponse
  request_cancellation : ℕ → TeeResponse
