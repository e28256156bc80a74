-- ===== src/Net/Adapter.antt =====
-- src/net/optee.rs: the adapters of the operating system's TCP and UDP sockets, and connecting
-- (src/net/optee_no_std.rs).
use optee_utee.Prelude.{
  ℕ, ◌%◌, ◌≡◌, ◌≢◌, refl, ◌⊎◌, inl, inr, ◌==◌, ==_iff, Bool-cases, if◌then◌else◌, Bool, true, false,
  ◌||◌, List, [], ◌∷◌, length, u32_mod,
}
use optee_utee.Codes.{tee_success, tee_isocket_error_protocol, tee_isocket_warning_protocol}
use optee_utee.Error
use optee_utee.Error.{Error, ErrorKind, Result, ok, err, bad_parameters}
use optee_utee.Net.Failure.{
  SocketError, from_raw_error, from_error, error_protocol, warning_protocol,
}
use optee_utee.Net.{SocketAdapter, Socket, open_socket}

pub data IpVersion : Type 0 where
  ip_version_dc ip_version_4 ip_version_6 : IpVersion

pub record Setup : Type 0 where
  pub addr : List ℕ
  pub port : ℕ
  pub version : IpVersion

-- The two tables of functions, TEE_tcpSocket and TEE_udpSocket.
pub data Protocol : Type 0 where
  tcp udp : Protocol

-- A buffer is passed as its bytes, or as its length where the function writes to it.
pub data Call : Type 0 where
  open_call : Protocol → Setup → Call
  send_call : Protocol → ℕ → List ℕ → ℕ → ℕ → Call
  recv_call : Protocol → ℕ → ℕ → ℕ → Call
  error_call : Protocol → ℕ → Call
  close_call : Protocol → ℕ → Call

-- The status, and what the call writes; for `error_call` the status is what it returns.
pub record Reply : Type 0 where
  pub code : ℕ
  pub handle : ℕ
  pub protocol_error : ℕ
  pub length : ℕ
  pub bytes : List ℕ

abbrev pub has_nul : List ℕ → Bool
has_nul [] = false
has_nul (c ∷ cs) = (c == 0) || has_nul cs

-- `CString::new` refuses a string with a `\0` in it.
unfoldable pub new : List ℕ → ℕ → IpVersion → Result Error Setup
new addr port version =
    if has_nul addr
    then err (Error.new bad_parameters)
    else ok (record { addr = addr; port = port; version = version })

unfoldable pub new_v4 : List ℕ → ℕ → Result Error Setup
unfolding new
new_v4 addr port = new addr port ip_version_4

unfoldable pub new_v6 : List ℕ → ℕ → Result Error Setup
unfolding new
new_v6 addr port = new addr port ip_version_6

module _ (tee : List Call → Reply) where
  -- The table that is asked is that of TCP, also for an error of a UDP socket.
  unfoldable pub handle_socket_operation_error : ℕ → ℕ → List Call → SocketError × List Call
  unfolding from_raw_error
  handle_socket_operation_error handle code h =
      if code == tee_isocket_error_protocol
      then (error_protocol (tee (error_call tcp handle ∷ h)).code, error_call tcp handle ∷ h)
      else if code == tee_isocket_warning_protocol
      then (warning_protocol (tee (error_call tcp handle ∷ h)).code, error_call tcp handle ∷ h)
      else (from_raw_error code 0, h)

  unfoldable pub open_handle : Protocol → Setup → List Call → Result SocketError ℕ × List Call
  open_handle p setup h =
      let r = tee (open_call p setup ∷ h) in
      (
        (if r.code == tee_success
            then ok r.handle
            else err (from_raw_error r.code r.protocol_error)),
        open_call p setup ∷ h,
      )

  unfoldable pub send_buffer :
      Protocol → ℕ → List ℕ → ℕ → List Call → Result SocketError ℕ × List Call
  unfolding handle_socket_operation_error
  send_buffer p handle buf timeout h =
      let c = send_call p handle buf (length buf % u32_mod) timeout in
      let r = tee (c ∷ h) in
      let failure = handle_socket_operation_error handle r.code (c ∷ h) in
      if r.code == tee_success then (ok r.length, c ∷ h) else (err failure.0, failure.1)

  unfoldable pub recv_buffer :
      Protocol → ℕ → ℕ → ℕ → List Call → Result SocketError ℕ × List ℕ × List Call
  unfolding handle_socket_operation_error
  recv_buffer p handle len timeout h =
      let c = recv_call p handle (len % u32_mod) timeout in
      let r = tee (c ∷ h) in
      let failure = handle_socket_operation_error handle r.code (c ∷ h) in
      if r.code == tee_success
      then (ok r.length, r.bytes, c ∷ h)
      else (err failure.0, r.bytes, failure.1)

  unfoldable pub tcp_adapter : SocketAdapter (List Call) Setup ℕ
  unfolding open_handle send_buffer recv_buffer
  tcp_adapter = record {
    open_handle = open_handle tcp;
    send = send_buffer tcp;
    recv = recv_buffer tcp;
  }

  unfoldable pub udp_adapter : SocketAdapter (List Call) Setup ℕ
  unfolding open_handle send_buffer recv_buffer
  udp_adapter = record {
    open_handle = open_handle udp;
    send = send_buffer udp;
    recv = recv_buffer udp;
  }

-- `Drop`: an error on close is ignored.
unfoldable pub drop : Protocol → ℕ → List Call → List Call
drop p handle h = close_call p handle ∷ h

-- `let setup = Setup::new_v4(address, port)?; Self::open(setup)`, for any adapter of `Setup`.
module _ {W H : Type 0} (adapter : SocketAdapter W Setup H) where
  unfoldable pub opening : Result Error Setup → W → Result SocketError (Socket H) × W
  unfolding from_error
  opening (ok setup) w = open_socket adapter setup w
  opening (err e) w = (err (from_error e), w)

  unfoldable pub connect_v4 : List ℕ → ℕ → W → Result SocketError (Socket H) × W
  unfolding opening new_v4
  connect_v4 address port w = opening (new_v4 address port) w

  unfoldable pub connect_v6 : List ℕ → ℕ → W → Result SocketError (Socket H) × W
  unfolding opening new_v6
  connect_v6 address port w = opening (new_v6 address port) w

  unfoldable pub connect : List ℕ → ℕ → W → Result SocketError (Socket H) × W
  unfolding connect_v4
  connect address port w = connect_v4 address port w

abbrev pub sending : Protocol → ℕ → List ℕ → ℕ → List Call → List Call
sending p handle buf timeout h = send_call p handle buf (length buf % u32_mod) timeout ∷ h

-- What a send leaves on each status.
abbrev pub Sent : (List Call → Reply) → ℕ → List Call → Result SocketError ℕ × List Call → Type 0
Sent tee handle h' r =
    (((tee h').code ≡ tee_success) × (r ≡ (ok (tee h').length, h')))
    ⊎ ((((tee h').code ≡ tee_isocket_error_protocol)
          × (r ≡ (
            err (error_protocol (tee (error_call tcp handle ∷ h')).code),
            error_call tcp handle ∷ h',
          )))
        ⊎ ((((tee h').code ≡ tee_isocket_warning_protocol)
              × (r ≡ (
                err (warning_protocol (tee (error_call tcp handle ∷ h')).code),
                error_call tcp handle ∷ h',
              )))
            ⊎ (((tee h').code ≢ tee_success)
                × ((tee h').code ≢ tee_isocket_error_protocol)
                × ((tee h').code ≢ tee_isocket_warning_protocol)
                × (r ≡ (err (from_raw_error (tee h').code 0), h')))))

module _ (tee : List Call → Reply) where
  -- A send makes one call. If it succeeds its length is the answer; if it fails with a protocol
  -- error or a protocol warning, a second call asks the TCP table, whichever protocol the socket
  -- has, for the error of the handle; if it fails otherwise, no second call is made.
  pub send_buffer-Sent :
      (p : Protocol) (handle : ℕ) (buf : List ℕ) (timeout : ℕ) (h : List Call)
      → Sent tee handle (sending p handle buf timeout h) (send_buffer tee p handle buf timeout h)
  unfolding send_buffer handle_socket_operation_error
  send_buffer-Sent p handle buf timeout h =
      let code = (tee (sending p handle buf timeout h)).code in
      elim (Bool-cases (code == tee_success)) [
        | inl e ↦ inl ((==_iff _ _).0 e, rw (e, send_buffer) refl)
        | inr e ↦ elim (Bool-cases (code == tee_isocket_error_protocol)) [
          | inl f ↦
              inr
                (inl ((==_iff _ _).0 f, rw (e, f, send_buffer, handle_socket_operation_error) refl))
          | inr f ↦ elim (Bool-cases (code == tee_isocket_warning_protocol)) [
            | inl g ↦ inr (
                inr (
                  inl (
                    (==_iff _ _).0 g,
                    rw (e, f, g, send_buffer, handle_socket_operation_error) refl,
                  )))
            | inr g ↦ inr (
                inr (
                  inr (
                    (λ q. cc ((==_iff _ _).1 q, e)),
                    (λ q. cc ((==_iff _ _).1 q, f)),
                    (λ q. cc ((==_iff _ _).1 q, g)),
                    rw (e, f, g, send_buffer, handle_socket_operation_error) refl,
                  )))
          ]
        ]
      ]

-- A connection to an address with a `\0` in it is `BadParameters` and makes no call; any other
-- address is passed as it is to the one call that opens the socket.
connect_lem :
    (tee : List Call → Reply) (address : List ℕ) (port : ℕ) (h : List Call)
    → ((has_nul address ≡ true)
        × (connect (tcp_adapter tee) address port h ≡ (err (SocketError.tee bad_parameters), h)))
      ⊎ ((has_nul address ≡ false)
          × ((connect (tcp_adapter tee) address port h).1
              ≡ open_call tcp (record { addr = address; port = port; version = ip_version_4 }) ∷ h))
unfolding connect connect_v4 new_v4 new open_socket tcp_adapter open_handle opening from_error
    Error.new
connect_lem tee address port h = elim (Bool-cases (has_nul address)) [
  | inl e ↦ inl (e, rw e refl)
  | inr e ↦ inr (e, rw e refl)
]
