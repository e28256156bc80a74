-- ===== src/Net/Std.antt =====
-- src/net/optee_std.rs: connecting, reading and writing with the errors of the standard library. The
-- loops over `read` and `write` are the standard library's own.
use optee_utee.Prelude.{ℕ, List}
use Prim.Native.String.{String}
use optee_utee.Error.{Error, ErrorKind, Result, ok, err, as_str}
use optee_utee.Net.Failure.{SocketError}
use optee_utee.Net.{SocketAdapter, Socket, open_socket, send, recv}
use optee_utee.Net.Adapter.{Setup, IpVersion, ip_version_4, ip_version_6, new}

-- The kinds of `std::io::Error` that the file uses.
pub data IoErrorKind : Type 0 where
  other connection_aborted timed_out out_of_memory : IoErrorKind

-- A text, or a text that is followed by a number in eight hexadecimal digits or more.
pub data Message : Type 0 where
  plain : String → Message
  with_code : String → ℕ → Message

pub record IoError : Type 0 where
  pub kind : IoErrorKind
  pub message : Message

pub io_error : IoErrorKind → Message → IoError
io_error kind message = record { kind = kind; message = message }

-- `Into<std::io::Error> for SocketError`.
unfoldable pub into_io_error : SocketError → IoError
unfolding io_error
into_io_error (SocketError.error_protocol protocol_error) =
    io_error other (with_code "TEE_ISOCKET_ERROR_PROTOCOL: 0x" protocol_error)
into_io_error SocketError.remote_closed =
    io_error connection_aborted (plain "TEE_ISOCKET_ERROR_REMOTE_CLOSED")
into_io_error SocketError.timeout = io_error timed_out (plain "TEE_ISOCKET_ERROR_TIMEOUT")
into_io_error SocketError.out_of_resource =
    io_error other (plain "TEE_ISOCKET_ERROR_OUT_OF_RESOURCES")
into_io_error SocketError.large_buffer = io_error other (plain "TEE_ISOCKET_ERROR_LARGE_BUFFER")
into_io_error (SocketError.warning_protocol protocol_error) =
    io_error other (with_code "TEE_ISOCKET_WARNING_PROTOCOL: 0x" protocol_error)
into_io_error SocketError.hostname = io_error other (plain "TEE_ISOCKET_ERROR_HOSTNAME")
into_io_error (SocketError.tee ErrorKind.out_of_memory) =
    io_error IoErrorKind.out_of_memory (plain "TEE_ERROR_OUT_OF_MEMORY")
into_io_error (SocketError.tee kind) = io_error other (plain (as_str kind))
into_io_error (SocketError.unknown code) = io_error other (with_code "Unknown: " code)

abbrev pub with_io_error : {A : Type 0} → Result SocketError A → Result IoError A
with_io_error (ok a) = ok a
with_io_error (err e) = err (into_io_error e)

module _ {W H : Type 0} (adapter : SocketAdapter W Setup H) where
  -- The socket of the setup, or the one error for an address with a NUL in it.
  unfoldable pub opened_std : Result Error Setup → W → Result IoError (Socket H) × W
  unfolding into_io_error open_socket
  opened_std (ok setup) w =
      let (result, w') = open_socket adapter setup w in (with_io_error result, w')
  opened_std (err e) w = (err (io_error other (plain "Invalid address")), w)

  unfoldable pub connect_with_ip_version :
      List ℕ → ℕ → IpVersion → W → Result IoError (Socket H) × W
  unfolding opened_std new
  connect_with_ip_version address port ip_version w = opened_std (new address port ip_version) w

  unfoldable pub connect_v4 : List ℕ → ℕ → W → Result IoError (Socket H) × W
  unfolding connect_with_ip_version
  connect_v4 address port w = connect_with_ip_version address port ip_version_4 w

  unfoldable pub connect_v6 : List ℕ → ℕ → W → Result IoError (Socket H) × W
  unfolding connect_with_ip_version
  connect_v6 address port w = connect_with_ip_version address port ip_version_6 w

  unfoldable pub connect : List ℕ → ℕ → W → Result IoError (Socket H) × W
  unfolding connect_v4
  connect address port w = connect_v4 address port w

  -- The buffer is given by its length, and what the call writes to it is returned.
  unfoldable pub read : Socket H → ℕ → W → Result IoError ℕ × List ℕ × W
  unfolding into_io_error recv
  read s len w = let (result, bytes, w') = recv adapter s len w in (with_io_error result, bytes, w')

  unfoldable pub write : Socket H → List ℕ → W → Result IoError ℕ × W
  unfolding into_io_error send
  write s buf w = let (result, w') = send adapter s buf w in (with_io_error result, w')

  unfoldable pub flush : Socket H → W → Result IoError (Unit {0}) × W
  flush s w = (ok tt, w)
