-- ===== src/Net/System/Loops.antt =====
-- src/net/optee_no_std.rs and src/net/optee.rs: the loops of a socket over the system's TCP table.
use optee_utee.Prelude.{Option, some, Outcome, returns, ◌<◌, ◌⊎◌, ℕ, ◌≡◌, List, ◌++◌, length}
use optee_utee.Error.{Result, ok, err}
use optee_utee.Net.Failure.{SocketError}
use optee_utee.Net.Adapter.{Call, Reply, tcp_adapter}
use optee_utee.Net.{Socket, write_all, read_exact}
use optee_utee.Net.WriteAll.{write_all-Written}
use optee_utee.Net.ReadExact.{read_exact-Read}
use optee_utee.Net.System.{accepted, Transfers, pending}
use optee_utee.Net.System.Keeps.{tcp-SendsPrefix, tcp-ReceivesPrefix}

-- What `write_all` leaves on the system: the sends that succeed have taken the whole buffer, or the
-- part of it before some rest, and then there is an error.
abbrev pub WrittenTcp :
    (List Call → Reply)
    → ℕ
    → List ℕ
    → List Call
    → Option (Outcome (Result SocketError (Unit {0})) × List Call)
    → Type 0
WrittenTcp tee handle buf h r =
    (h' : List Call) × (((r ≡ some (returns (ok tt), h'))
        × (accepted tee handle h' ≡ accepted tee handle h ++ buf))
      ⊎ ((e : SocketError) × (r ≡ some (returns (err e), h'))
          × ((part rest : List ℕ) × (buf ≡ part ++ rest)
              × (accepted tee handle h' ≡ accepted tee handle h ++ part))))

-- What `read_exact` leaves on the system: the bytes in the buffer are the next ones of the stream.
abbrev pub ReadTcp :
    (List Call → Reply)
    → ℕ
    → List ℕ
    → ℕ
    → List Call
    → Option (Outcome (Result SocketError (Unit {0})) × List ℕ × List Call)
    → Type 0
ReadTcp tee handle stream len h r =
    (bytes : List ℕ) × ((h' : List Call) × ((pending tee handle stream h
          ≡ bytes ++ pending tee handle stream h')
        × (((r ≡ some (returns (ok tt), bytes, h')) × (length bytes ≡ len))
            ⊎ ((e : SocketError) × (r ≡ some (returns (err e), bytes, h'))
                × (length bytes < len)))))

-- Over the system's TCP table, both loops return, on every history of calls. `write_all`: the sends on
-- the handle that succeed report, taken together, exactly the buffer if the result is `Ok`, and a
-- first part of it if it is an error. `read_exact`: the buffer holds the next bytes of the stream,
-- and none is lost or repeated; all of its length if the result is `Ok`, fewer if it is an error. The
-- system's functions report at most the length that they were given, and a receive that succeeds
-- delivers the bytes of the stream behind those that were delivered before.
pub tcp_loops :
    (tee : List Call → Reply) (s : Socket ℕ) (stream : List ℕ)
    → Transfers tee s.handle stream
    → (buf : List ℕ) (len : ℕ) (h : List Call)
    → WrittenTcp tee s.handle buf h (write_all (tcp_adapter tee) s buf h)
      × ReadTcp tee s.handle stream len h (read_exact (tcp_adapter tee) s len h)
tcp_loops tee s stream law buf len h = (
  write_all-Written (tcp_adapter tee) (accepted tee s.handle) s
      (tcp-SendsPrefix tee s.handle stream law) buf h,
  read_exact-Read (tcp_adapter tee) (pending tee s.handle stream) s
      (tcp-ReceivesPrefix tee s.handle stream law) len h,
)
