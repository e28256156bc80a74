-- ===== src/Net/Compat.antt =====
-- src/net/optee_std.rs against src/net/optee_no_std.rs.
use optee_utee.Prelude.{ℕ, ◌≡◌, refl, ◌⊎◌, inl, inr, Bool-cases, true, false, List}
use optee_utee.Error
use optee_utee.Error.{Error, Result, ok, err, bad_parameters}
use optee_utee.Net.Failure.{SocketError, from_error}
use optee_utee.Net.{SocketAdapter, Socket}
use optee_utee.Net.Adapter.{
  Setup, IpVersion, ip_version_4, ip_version_6, has_nul, new, new_v4, new_v6, opening,
}
use optee_utee.Net.Adapter
use optee_utee.Net.Std.{
  IoErrorKind, IoError, Message, io_error, plain, with_io_error, opened_std,
  connect_with_ip_version,
}
use optee_utee.Net.Std

module _ {W H : Type 0} (adapter : SocketAdapter W Setup H) where
  -- The two outcomes of one connection: an address with a NUL is `BadParameters` in one and the one
  -- error of kind `Other` in the other; else they have the same socket and make the same calls, and
  -- the error is translated.
  abbrev pub SameConnection :
      List ℕ → W → Result SocketError (Socket H) × W → Result IoError (Socket H) × W → Type 0
  SameConnection address w r s =
      ((has_nul address ≡ true)
        × (r ≡ (err (SocketError.tee bad_parameters), w))
        × (s ≡ (err (io_error IoErrorKind.other (plain "Invalid address")), w)))
      ⊎ ((has_nul address ≡ false) × (s ≡ (with_io_error r.0, r.1)))

  same_connection :
      (address : List ℕ) (port : ℕ) (version : IpVersion) (w : W)
      → SameConnection address w
          (opening adapter (new address port version) w)
          (connect_with_ip_version adapter address port version w)
  unfolding connect_with_ip_version opening opened_std new from_error Error.new
  same_connection address port version w = elim (Bool-cases (has_nul address)) [
    | inl e ↦ rw e (inl (refl, refl, refl))
    | inr e ↦ rw e (inr (refl, refl))
  ]

  -- A connection with the errors of the standard library, by IP version 4, 6 or the default, is the
  -- one without: an address with a NUL in it is refused by both before any call, as `BadParameters`
  -- there and as the one error of kind `Other` here; any other address gives the same socket by the
  -- same calls, or the same error in the translation of `into`.
  pub same_connections :
      (address : List ℕ) (port : ℕ) (w : W)
      → SameConnection address w
          (Adapter.connect_v4 adapter address port w)
          (Std.connect_v4 adapter address port w)
        × SameConnection address w
            (Adapter.connect_v6 adapter address port w)
            (Std.connect_v6 adapter address port w)
        × SameConnection address w
            (Adapter.connect adapter address port w)
            (Std.connect adapter address port w)
  unfolding Adapter.connect_v4 Adapter.connect_v6 Adapter.connect Std.connect_v4 Std.connect_v6
      Std.connect new_v4 new_v6
  same_connections address port w = (
    same_connection address port ip_version_4 w,
    same_connection address port ip_version_6 w,
    same_connection address port ip_version_4 w,
  )
