-- ===== src/Net/Tests.antt =====
-- Runs of the sockets of src/net on a pipe that moves at most two bytes in a call.
use optee_utee.Prelude.{
  ℕ, ap, ◌≤◌, ◌<◌, ◌≡◌, refl, sym, ◌⊎◌, arith, min, List, [], ◌∷◌, ◌++◌, take, drop, length,
  length-take, take-append-drop, take-take, some, none, returns,
}
use optee_utee.Codes.{tee_isocket_error_protocol}
use optee_utee.Error
use optee_utee.Error.{ErrorKind, Result, ok, err, bad_parameters}
use optee_utee.Net.Failure.{SocketError}
use optee_utee.Net.Adapter.{
  Call, Reply, udp, connect, connect_v4, connect_v6, tcp_adapter, Sent, sending, send_buffer-Sent,
  send_buffer,
}
use optee_utee.Net.Std
use optee_utee.Net.Compat.{SameConnection, same_connections}
use optee_utee.Net.WriteAll.{SendsPrefix, Written, write_all-Written}
use optee_utee.Net.ReadExact.{ReceivesPrefix, Read, read_exact-Read}
use optee_utee.Net.Timeout.{set_recv_timeout-recv}
use optee_utee.Net.{SocketAdapter, Socket, write_all, read_exact, recv, send, set_recv_timeout}

-- What is outside is the bytes in the pipe.
abbrev pipe : SocketAdapter (List ℕ) (Unit {0}) ℕ
pipe = record {
  open_handle = λ setup w. (ok 1, w);
  send = λ h buf timeout w. (ok (length (take 2 buf)), w ++ take 2 buf);
  recv =
      λ h len timeout w. (ok (length (take (min 2 len) w)), take (min 2 len) w, drop (min 2 len) w);
}

pipe-sent :
    (h : ℕ) (buf : List ℕ) (timeout : ℕ) (w : List ℕ) (n : ℕ)
    → (pipe.send h buf timeout w).0 ≡ ok n
    → (n ≤ length buf) × ((pipe.send h buf timeout w).1 ≡ w ++ take n buf)
pipe-sent h buf timeout w n e =
    let q : length (take 2 buf) ≡ n = cc e in
    (omega (arith, q, length-take 2 buf), rw (sym q) (ap (λ ys. w ++ ys) (sym (take-take 2 buf))))

pipe-unsent :
    (h : ℕ) (buf : List ℕ) (timeout : ℕ) (w : List ℕ) (e : SocketError)
    → (pipe.send h buf timeout w).0 ≡ err e
    → (pipe.send h buf timeout w).1 ≡ w
pipe-unsent h buf timeout w e q = absurd (cc q)

pipe-SendsPrefix : SendsPrefix pipe 1 (λ w. w)
pipe-SendsPrefix = record { sent = pipe-sent 1; unsent = pipe-unsent 1 }

pipe-received :
    (h len timeout : ℕ) (w : List ℕ) (n : ℕ)
    → (pipe.recv h len timeout w).0 ≡ ok n
    → (n ≤ len)
      × (length (pipe.recv h len timeout w).1 ≡ n)
      × (w ≡ (pipe.recv h len timeout w).1 ++ (pipe.recv h len timeout w).2)
pipe-received h len timeout w n e =
    let q : length (take (min 2 len) w) ≡ n = cc e in
    (omega (arith, q, length-take (min 2 len) w), q, sym (take-append-drop (min 2 len) w))

pipe-unreceived :
    (h len timeout : ℕ) (w : List ℕ) (e : SocketError)
    → (pipe.recv h len timeout w).0 ≡ err e
    → (pipe.recv h len timeout w).2 ≡ w
pipe-unreceived h len timeout w e q = absurd (cc q)

pipe-ReceivesPrefix : ReceivesPrefix pipe 1 (λ w. w)
pipe-ReceivesPrefix = record { received = pipe-received 1; unreceived = pipe-unreceived 1 }

abbrev socket : Socket ℕ
socket = record { handle = 1; recv_timeout = 0xFFFFFFFF; send_timeout = 0xFFFFFFFF }

write_all_test :
    write_all pipe socket (7 ∷ 8 ∷ 9 ∷ []) (6 ∷ []) ≡ some (returns (ok tt), (6 ∷ 7 ∷ 8 ∷ 9 ∷ []))
unfolding write_all send
write_all_test = refl

write_all-Written_example :
    Written pipe
      (λ w. w)
      socket
      pipe-SendsPrefix
      (7 ∷ 8 ∷ 9 ∷ [])
      (6 ∷ [])
      (write_all pipe socket (7 ∷ 8 ∷ 9 ∷ []) (6 ∷ []))
write_all-Written_example =
    write_all-Written pipe (λ w. w) socket pipe-SendsPrefix (7 ∷ 8 ∷ 9 ∷ []) (6 ∷ [])

-- The stream has more bytes than the buffer.
read_exact_test :
    read_exact pipe socket 3 (6 ∷ 7 ∷ 8 ∷ 9 ∷ [])
    ≡ some (returns (ok tt), (6 ∷ 7 ∷ 8 ∷ []), (9 ∷ []))
unfolding read_exact recv
read_exact_test = refl

-- The stream ends early.
read_exact_short_test :
    read_exact pipe socket 3 (6 ∷ [])
    ≡ some (returns (err (SocketError.tee ErrorKind.generic)), (6 ∷ []), [])
unfolding read_exact recv
read_exact_short_test = refl

read_exact-Read_example :
    Read pipe
      (λ w. w)
      socket
      pipe-ReceivesPrefix
      3
      []
      (6 ∷ 7 ∷ 8 ∷ 9 ∷ [])
      (read_exact pipe socket 3 (6 ∷ 7 ∷ 8 ∷ 9 ∷ []))
read_exact-Read_example =
    read_exact-Read pipe (λ w. w) socket pipe-ReceivesPrefix 3 (6 ∷ 7 ∷ 8 ∷ 9 ∷ [])

set_recv_timeout-recv_example :
    (((250 ≤ 0xFFFFFFFF)
        × ((set_recv_timeout socket (some 250)).1 ≡ ok tt)
        × (recv pipe (set_recv_timeout socket (some 250)).0 3 (6 ∷ 7 ∷ [])
            ≡ pipe.recv 1 3 250 (6 ∷ 7 ∷ []))
        × (send pipe (set_recv_timeout socket (some 250)).0 (1 ∷ []) (6 ∷ 7 ∷ [])
            ≡ send pipe socket (1 ∷ []) (6 ∷ 7 ∷ [])))
      ⊎ ((0xFFFFFFFF < 250)
          × (set_recv_timeout socket (some 250) ≡ (socket, err (Error.new bad_parameters)))))
    × (recv pipe (set_recv_timeout socket (some 0xFFFFFFFF)).0 3 (6 ∷ 7 ∷ [])
        ≡ recv pipe (set_recv_timeout socket none).0 3 (6 ∷ 7 ∷ []))
set_recv_timeout-recv_example = set_recv_timeout-recv pipe socket 250 3 (1 ∷ []) (6 ∷ 7 ∷ [])

-- A system in which every call fails with a protocol error.
abbrev broken : List Call → Reply
broken h = record {
  code = tee_isocket_error_protocol;
  handle = 0;
  protocol_error = 5;
  length = 0;
  bytes = [];
}

-- The error of a UDP socket is asked for in the table of TCP.
send_buffer-Sent_example :
    Sent broken 4 (sending udp 4 (1 ∷ 2 ∷ []) 100 []) (send_buffer broken udp 4 (1 ∷ 2 ∷ []) 100 [])
send_buffer-Sent_example = send_buffer-Sent broken udp 4 (1 ∷ 2 ∷ []) 100 []

same_connections_example :
    SameConnection
      (tcp_adapter broken)
      (49 ∷ 50 ∷ [])
      []
      (connect_v4 (tcp_adapter broken) (49 ∷ 50 ∷ []) 80 [])
      (Std.connect_v4 (tcp_adapter broken) (49 ∷ 50 ∷ []) 80 [])
    × SameConnection
        (tcp_adapter broken)
        (49 ∷ 50 ∷ [])
        []
        (connect_v6 (tcp_adapter broken) (49 ∷ 50 ∷ []) 80 [])
        (Std.connect_v6 (tcp_adapter broken) (49 ∷ 50 ∷ []) 80 [])
    × SameConnection
        (tcp_adapter broken)
        (49 ∷ 50 ∷ [])
        []
        (connect (tcp_adapter broken) (49 ∷ 50 ∷ []) 80 [])
        (Std.connect (tcp_adapter broken) (49 ∷ 50 ∷ []) 80 [])
same_connections_example = same_connections (tcp_adapter broken) (49 ∷ 50 ∷ []) 80 []
