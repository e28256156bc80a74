-- ===== src/Net/System.antt =====
-- src/net/optee.rs: what the system's functions have sent and received, and what they promise.
pub mod Keeps
pub mod Loops
mod Tests
use optee_utee.Prelude.{
  ℕ, zero, suc, ◌+◌, ◌%◌, ◌≤◌, ◌≡◌, refl, sym, ap, ap₂, ◌∙◌, arith, u32_mod, Bool, true, false,
  ◌&&◌, ◌==◌, ==_iff, Bool-cases, inl, inr, if◌then◌else◌, List, [], ◌∷◌, ◌++◌, append-nil, length,
  length-append, take, drop, take-append-drop,
}
use optee_utee.Codes.{tee_success, tee_isocket_error_protocol, tee_isocket_warning_protocol}
use optee_utee.Error.{Result, ok, err}
use optee_utee.Net.Failure.{SocketError}
use optee_utee.Net.{SocketAdapter}
use optee_utee.Net.Adapter.{
  Protocol, tcp, udp, Setup, Call, open_call, send_call, recv_call, error_call, close_call, Reply,
  handle_socket_operation_error, send_buffer, recv_buffer, tcp_adapter, udp_adapter,
}
use optee_utee.Net.WriteAll.{SendsPrefix}
use optee_utee.Net.ReadExact.{ReceivesPrefix}

abbrev pub is_tcp : Protocol → Bool
is_tcp tcp = true
is_tcp udp = false

module _ (tee : List Call → Reply) (handle : ℕ) where
  -- The bytes that a call on the table of TCP has taken from the handle: those that a send which
  -- succeeds reports.
  unfoldable pub sent_by : Call → Reply → List ℕ
  sent_by (send_call q k buf len timeout) r =
      if is_tcp q && (k == handle) && (r.code == tee_success) then take r.length buf else []
  sent_by (open_call q setup) r = []
  sent_by (recv_call q k len timeout) r = []
  sent_by (error_call q k) r = []
  sent_by (close_call q k) r = []

  -- The bytes that a call on the table of TCP has put into a buffer for the handle, if it succeeds.
  unfoldable pub received_by : Call → Reply → List ℕ
  received_by (recv_call q k len timeout) r =
      if is_tcp q && (k == handle) && (r.code == tee_success) then r.bytes else []
  received_by (open_call q setup) r = []
  received_by (send_call q k buf len timeout) r = []
  received_by (error_call q k) r = []
  received_by (close_call q k) r = []

  -- What the calls so far, latest first, have taken and delivered.
  unfoldable pub accepted : List Call → List ℕ
  unfolding sent_by
  accepted [] = []
  accepted (c ∷ h) = accepted h ++ sent_by c (tee (c ∷ h))

  unfoldable pub delivered : List Call → List ℕ
  unfolding received_by
  delivered [] = []
  delivered (c ∷ h) = delivered h ++ received_by c (tee (c ∷ h))

  -- What is documented of the functions of a TCP socket, a stream socket: a send that succeeds reports
  -- at most the length that it was given; a receive that succeeds fills in, and reports, the next
  -- bytes of what the peer sends, at most the length that it was given, and a failure before it has
  -- lost none of them. `stream` is all that the peer sends to the handle.
  pub record Transfers (stream : List ℕ) : Type 0 where
    pub sends :
        (buf : List ℕ) (len timeout : ℕ) (h : List Call)
        → (tee (send_call tcp handle buf len timeout ∷ h)).code ≡ tee_success
        → (tee (send_call tcp handle buf len timeout ∷ h)).length ≤ len
    pub receives :
        (len timeout : ℕ) (h : List Call)
        → let r = tee (recv_call tcp handle len timeout ∷ h) in
          r.code ≡ tee_success
          → (r.length ≤ len)
            × (length r.bytes ≡ r.length)
            × (r.bytes ≡ take r.length (drop (length (delivered h)) stream))

  unfoldable pub pending : List ℕ → List Call → List ℕ
  pending stream h = drop (length (delivered h)) stream
