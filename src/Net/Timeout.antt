-- ===== src/Net/Timeout.antt =====
-- src/net/socket.rs: which durations are accepted as a timeout, and what they do.
use optee_utee.Prelude.{
  ℕ, ◌≤◌, ◌<◌, ◌≡◌, refl, ◌⊎◌, inl, inr, arith, ltb, Bool-cases, List, some, none,
}
use optee_utee.Error
use optee_utee.Error.{Error, ErrorKind, ok, err, bad_parameters}
use optee_utee.Net.{
  SocketAdapter, Socket, send, recv, set_recv_timeout, convert_duration_option_to_timeout,
}

module _ {W Setup H : Type 0} (adapter : SocketAdapter W Setup H) where
  -- A timeout of at most 2^32 - 1 milliseconds is given to every receive after it, and the sends stay
  -- as they are; a longer one is `BadParameters`, and leaves the socket as it is. The longest
  -- duration that is accepted is the same as none at all: the socket waits for ever.
  pub set_recv_timeout-recv :
      (s : Socket H) (milliseconds len : ℕ) (buf : List ℕ) (w : W)
      → (((milliseconds ≤ 0xFFFFFFFF)
            × ((set_recv_timeout s (some milliseconds)).1 ≡ ok tt)
            × (recv adapter (set_recv_timeout s (some milliseconds)).0 len w
                ≡ adapter.recv s.handle len milliseconds w)
            × (send adapter (set_recv_timeout s (some milliseconds)).0 buf w
                ≡ send adapter s buf w))
          ⊎ ((0xFFFFFFFF < milliseconds)
              × (set_recv_timeout s (some milliseconds) ≡ (s, err (Error.new bad_parameters)))))
        × (recv adapter (set_recv_timeout s (some 0xFFFFFFFF)).0 len w
            ≡ recv adapter (set_recv_timeout s none).0 len w)
  unfolding set_recv_timeout convert_duration_option_to_timeout send recv
  set_recv_timeout-recv s milliseconds len buf w = (
    elim (Bool-cases (ltb 0xFFFFFFFF milliseconds)) [
      | inl e ↦
          inr (ground arith, rw (e, set_recv_timeout, convert_duration_option_to_timeout) refl)
      | inr e ↦ inl (
        ground arith,
        rw (e, set_recv_timeout, convert_duration_option_to_timeout) refl,
        rw (e, set_recv_timeout, convert_duration_option_to_timeout) refl,
        rw (e, set_recv_timeout, convert_duration_option_to_timeout) refl,
      )
    ],
    refl,
  )
