-- ===== src/Net.antt =====
-- src/net: sockets over an adapter, the adapters of the operating system, and the loops that write
-- or read a whole buffer.
pub mod Failure
pub mod Adapter
pub mod Std
pub mod Compat
pub mod WriteAll
pub mod ReadExact
pub mod Timeout
pub mod System
mod Tests
use optee_utee.Prelude.{
  ℕ, zero, suc, ◌-◌, ◌*◌, ◌+◌, u32_mod, ltb, ◌==◌, if◌then◌else◌, List, [], ◌∷◌, ◌++◌, Option, none,
  some, length, take, drop, Outcome, returns, panics,
}
use optee_utee.Codes.{tee_timeout_infinite}
use optee_utee.Error
use optee_utee.Error.{Error, Result, ok, err, ErrorKind}
use Failure.{SocketError, tee, from_error}

-- `SocketAdapter` is an interface of the crate: `H` is the handle, and `W` what is outside, the
-- network. `recv` also returns the bytes that it has put at the start of the buffer.
pub record SocketAdapter (W Setup H : Type 0) : Type 0 where
  pub open_handle : Setup → W → Result SocketError H × W
  pub send : H → List ℕ → ℕ → W → Result SocketError ℕ × W
  pub recv : H → ℕ → ℕ → W → Result SocketError ℕ × List ℕ × W

pub record Socket (H : Type 0) : Type 0 where
  pub handle : H
  pub recv_timeout : ℕ
  pub send_timeout : ℕ

unfoldable pub set_recv_timeout_in_milli : {H : Type 0} → Socket H → ℕ → Socket H
set_recv_timeout_in_milli s milliseconds = record s { recv_timeout = milliseconds }

unfoldable pub set_send_timeout_in_milli : {H : Type 0} → Socket H → ℕ → Socket H
set_send_timeout_in_milli s milliseconds = record s { send_timeout = milliseconds }

-- The duration is given by its `as_millis`.
unfoldable pub convert_duration_option_to_timeout : Option ℕ → Result Error ℕ
convert_duration_option_to_timeout none = ok tee_timeout_infinite
convert_duration_option_to_timeout (some milliseconds) =
    if ltb 0xFFFFFFFF milliseconds
    then err (Error.new ErrorKind.bad_parameters)
    else ok milliseconds

-- `let milliseconds = convert…(dur)?; self.set_recv_timeout_in_milli(milliseconds)`.
unfoldable pub set_recv_timeout :
    {H : Type 0} → Socket H → Option ℕ → Socket H × Result Error (Unit {0})
unfolding set_recv_timeout_in_milli
set_recv_timeout s dur = elim (convert_duration_option_to_timeout dur) [
  | ok milliseconds ↦ (set_recv_timeout_in_milli s milliseconds, ok tt)
  | err e ↦ (s, err e)
]

unfoldable pub set_send_timeout :
    {H : Type 0} → Socket H → Option ℕ → Socket H × Result Error (Unit {0})
unfolding set_send_timeout_in_milli
set_send_timeout s dur = elim (convert_duration_option_to_timeout dur) [
  | ok milliseconds ↦ (set_send_timeout_in_milli s milliseconds, ok tt)
  | err e ↦ (s, err e)
]

-- `Ok(Self { handle, … })`, behind `T::open(setup)?`.
opened : {H : Type 0} → Result SocketError H → Result SocketError (Socket H)
opened (ok handle) = ok (record {
  handle = handle;
  recv_timeout = tee_timeout_infinite;
  send_timeout = tee_timeout_infinite;
})
opened (err e) = err e

module _ {W Setup H : Type 0} (adapter : SocketAdapter W Setup H) where
  unfoldable pub open_socket : Setup → W → Result SocketError (Socket H) × W
  unfolding opened
  open_socket setup w = let (result, w') = adapter.open_handle setup w in (opened result, w')

  unfoldable pub send : Socket H → List ℕ → W → Result SocketError ℕ × W
  send s buf w = adapter.send s.handle buf s.send_timeout w

  unfoldable pub recv : Socket H → ℕ → W → Result SocketError ℕ × List ℕ × W
  recv s len w = adapter.recv s.handle len s.recv_timeout w

  -- `StdCompatWrite::write_all`, and `StdCompatRead::read_exact`, on the fuel that bounds the rounds;
  -- `none` means that it ran out. A slice past the end of the buffer panics.
  unfoldable pub write_rounds :
      ℕ → Socket H → List ℕ → W → Option (Outcome (Result SocketError (Unit {0})) × W)
  write_rounds zero s buf w = none
  write_rounds (suc fuel) s [] w = some (returns (ok tt), w)
  write_rounds (suc fuel) s (b ∷ buf) w =
      let (result, w') = send s (b ∷ buf) w in
      elim result [
        | err e ↦ some (returns (err e), w')
        | ok n ↦
            let rest = write_rounds fuel s (drop n (b ∷ buf)) w' in
            if n == 0
            then some (returns (err (tee ErrorKind.generic)), w')
            else if ltb (length (b ∷ buf)) n
            then some (panics, w')
            else rest
      ]

  unfoldable pub write_all :
      Socket H → List ℕ → W → Option (Outcome (Result SocketError (Unit {0})) × W)
  unfolding write_rounds
  write_all s buf w = write_rounds (suc (length buf)) s buf w

  -- The bytes read so far go along; `len` is what is left of the buffer.
  unfoldable pub read_rounds :
      ℕ → Socket H → ℕ → List ℕ → W → Option (Outcome (Result SocketError (Unit {0})) × List ℕ × W)
  read_rounds zero s len got w = none
  read_rounds (suc fuel) s zero got w = some (returns (ok tt), got, w)
  read_rounds (suc fuel) s (suc len) got w =
      let (result, bytes, w') = recv s (suc len) w in
      elim result [
        | err e ↦ some (returns (err e), got, w')
        | ok n ↦
            let rest = read_rounds fuel s (suc len - n) (got ++ bytes) w' in
            if n == 0
            then some (returns (err (tee ErrorKind.generic)), got, w')
            else if ltb (suc len) n
            then some (panics, got, w')
            else rest
      ]

  unfoldable pub read_exact :
      Socket H → ℕ → W → Option (Outcome (Result SocketError (Unit {0})) × List ℕ × W)
  unfolding read_rounds
  read_exact s len w = read_rounds (suc len) s len [] w
