-- ===== src/Net/System/Tests.antt =====
-- A system that moves at most two bytes in a call, and receives in the first call only.
use optee_utee.Prelude.{
  ℕ, ◌≤◌, ◌≡◌, refl, sym, arith, min, List, [], ◌∷◌, length, take, drop, length-take, take-take,
}
use optee_utee.Codes.{tee_success}
use optee_utee.Net.Adapter.{tcp, tcp_adapter, Call, send_call, recv_call, Reply}
use optee_utee.Net.{Socket, write_all, read_exact}
use optee_utee.Net.System.{delivered, Transfers}
use optee_utee.Net.System.Loops.{WrittenTcp, ReadTcp, tcp_loops}

abbrev stream : List ℕ
stream = 7 ∷ 8 ∷ 9 ∷ []

abbrev moved : ℕ → List ℕ → Reply
moved n got = record { code = 0; handle = 4; protocol_error = 0; length = n; bytes = got }

abbrev narrow : List Call → Reply
narrow (send_call p handle buf len timeout ∷ h) = moved (min 2 len) []
narrow (recv_call p handle len timeout ∷ []) =
    moved (length (take (min 2 len) stream)) (take (min 2 len) stream)
narrow _ = moved 0 []

narrow-receives :
    (len timeout : ℕ) (h : List Call)
    → let r = narrow (recv_call tcp 4 len timeout ∷ h) in
      r.code ≡ tee_success
      → (r.length ≤ len)
        × (length r.bytes ≡ r.length)
        × (r.bytes ≡ take r.length (drop (length (delivered narrow 4 h)) stream))
unfolding delivered
narrow-receives len timeout [] e =
    (omega (arith, length-take (min 2 len) stream), refl, sym (take-take (min 2 len) stream))
narrow-receives len timeout (c ∷ h) e = (omega arith, refl, refl)

narrow-Transfers : Transfers narrow 4 stream
narrow-Transfers = record { sends = λ buf len timeout h e. omega arith; receives = narrow-receives }

abbrev socket : Socket ℕ
socket = record { handle = 4; recv_timeout = 100; send_timeout = 100 }

tcp_loops_example :
    WrittenTcp narrow 4
      (1 ∷ 2 ∷ 3 ∷ [])
      []
      (write_all (tcp_adapter narrow) socket (1 ∷ 2 ∷ 3 ∷ []) [])
    × ReadTcp narrow 4 stream 2 [] (read_exact (tcp_adapter narrow) socket 2 [])
tcp_loops_example = tcp_loops narrow socket stream narrow-Transfers (1 ∷ 2 ∷ 3 ∷ []) 2 []
