-- ===== src/Net/Failure.antt =====
-- src/net/error.rs.
use optee_utee.Prelude.{ℕ, ◌==◌, if◌then◌else◌}
use optee_utee.Codes.{
  tee_isocket_error_protocol, tee_isocket_error_remote_closed, tee_isocket_error_timeout,
  tee_isocket_error_out_of_resources, tee_isocket_error_large_buffer, tee_isocket_warning_protocol,
  tee_isocket_error_hostname, tee_error_cancel, tee_error_communication, tee_error_out_of_memory,
  tee_error_bad_parameters,
}
use optee_utee.Error
use optee_utee.Error.{ErrorKind}

pub data SocketError : Type 0 where
  error_protocol : ℕ → SocketError
  remote_closed timeout out_of_resource : SocketError
  warning_protocol : ℕ → SocketError
  large_buffer hostname : SocketError
  tee : ErrorKind → SocketError
  unknown : ℕ → SocketError

unfoldable pub from_raw_error : ℕ → ℕ → SocketError
from_raw_error code protocol_error =
    if code == tee_isocket_error_protocol
    then error_protocol protocol_error
    else if code == tee_isocket_error_remote_closed
    then remote_closed
    else if code == tee_isocket_error_timeout
    then timeout
    else if code == tee_isocket_error_out_of_resources
    then out_of_resource
    else if code == tee_isocket_error_large_buffer
    then large_buffer
    else if code == tee_isocket_warning_protocol
    then warning_protocol protocol_error
    else if code == tee_isocket_error_hostname
    then hostname
    else if code == tee_error_cancel
    then tee (Error.from_raw_error code).kind
    else if code == tee_error_communication
    then tee (Error.from_raw_error code).kind
    else if code == tee_error_out_of_memory
    then tee (Error.from_raw_error code).kind
    else if code == tee_error_bad_parameters
    then tee (Error.from_raw_error code).kind
    else unknown code

-- `SocketError::from(error)`.
unfoldable pub from_error : Error.Error → SocketError
from_error e = tee e.kind
