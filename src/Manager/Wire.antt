-- ===== src/Manager/Wire.antt =====
-- ta_manager/src/lib.rs: `handle_ca_request` on the bytes of its streams.
pub mod Delivered
mod Sample
mod Tests
use optee_utee.Prelude.{
  ℕ, ◌+◌, ◌<◌, u32_mod, ◌≡◌, refl, sym, ap, ◌∙◌, arith, Bool, true, false, if◌then◌else◌, List, [],
  ◌∷◌, ◌++◌, map, Option, none, some, length, take, append-nil,
}
use optee_utee.Manager.Protocol.{TeeRequest, TeeResponse}
use optee_utee.Manager.Framing.{frame, read_message, read_message-frame, read_message-cut}
use optee_utee.Manager.{TrustedApplication, Manager, Answer, replies, fails, panics, handle_request}
use optee_utee.Manager.Serving.{Connection, broken, delivers, answered, handle_ca_request}

-- The crate bincode under its standard configuration, a parameter. Encoding may fail; decoding gives
-- the value and the number of bytes that it took.
pub record Codec : Type 0 where
  pub encode_request : TeeRequest → List ℕ
  pub decode_request : List ℕ → Option (TeeRequest × ℕ)
  pub encode_response : TeeResponse → Option (List ℕ)
  pub decode_response : List ℕ → Option (TeeResponse × ℕ)

-- What bincode documents of the two message types, whose encodings are derived: an encoding decodes
-- to the value and is read whole, and a response can be encoded.
pub record IsFaithful (c : Codec) : Type 0 where
  pub requests :
      (r : TeeRequest)
      → c.decode_request (c.encode_request r) ≡ some (r, length (c.encode_request r))
  pub responses :
      (q : TeeResponse)
      → (bytes : List ℕ) × (c.encode_response q ≡ some bytes)
        × (c.decode_response bytes ≡ some (q, length bytes))

-- A stream that the listener hands over, or fails to: what its client sends until it stops sending,
-- and whether it takes the response.
pub record Stream : Type 0 where
  pub accepted : Bool
  pub incoming : List ℕ
  pub writable : Bool

-- What comes of a stream: the bytes written to it, an error that `?` carries out of the loop, or a
-- panic.
pub data Served : Type 0 where
  written : List ℕ → Served
  failed panicked : Served

module _ (c : Codec) where
  -- `decode_from_slice`; whatever it did not take is ignored.
  unfoldable pub decoded : Option (List ℕ × List ℕ) → Option TeeRequest
  decoded none = none
  decoded (some (buf, rest)) = elim (c.decode_request buf) [ none ↦ none | some (r, n) ↦ some r ]

  -- From the start of the loop to `match req`.
  unfoldable pub receive_request : Stream → Option TeeRequest
  unfolding decoded
  receive_request s = if s.accepted then decoded (read_message s.incoming) else none

  -- From `encode_to_vec` to the end of each handler.
  unfoldable pub send_response : Bool → Answer → Served
  send_response writable (replies q) = elim (c.encode_response q) [
    | none ↦ failed
    | some bytes ↦ if writable then written (frame bytes) else failed
  ]
  send_response writable fails = failed
  send_response writable panics = panicked

  -- The loop goes on behind a response that was written.
  unfoldable pub goes_on :
      {S C : Type 0} → Served → Manager S C → List Served × Manager S C → List Served × Manager S C
  goes_on (written bytes) n rest = (written bytes ∷ rest.0, rest.1)
  goes_on failed n rest = (failed ∷ [], n)
  goes_on panicked n rest = (panicked ∷ [], n)

  unfoldable pub serve_streams :
      {S C : Type 0}
      → TrustedApplication S C
      → Manager S C
      → List Stream
      → List Served × Manager S C
  unfolding goes_on
  serve_streams ta m [] = ([], m)
  serve_streams ta m (s ∷ ss) = elim (receive_request s) [
    | none ↦ (failed ∷ [], m)
    | some r ↦
        let (a, n) = handle_request ta m r in
        goes_on (send_response s.writable a) n (serve_streams ta n ss)
  ]

-- A client sends a request, whatever it sends behind it, and takes the response or not; or it sends
-- no more than the first bytes of a request; or the listener fails on it.
pub data Client : Type 0 where
  asks : TeeRequest → List ℕ → Bool → Client
  hangs_up : TeeRequest → ℕ → Client
  unaccepted : Client

module _ (c : Codec) where
  abbrev pub stream_of : Client → Stream
  stream_of (asks r more takes) = record {
    accepted = true;
    incoming = frame (c.encode_request r) ++ more;
    writable = takes;
  }
  stream_of (hangs_up r sent) = record {
    accepted = true;
    incoming = take sent (frame (c.encode_request r));
    writable = true;
  }
  stream_of unaccepted = record { accepted = false; incoming = []; writable = true }

  -- A request has less than 2^32 bytes, and a client that hangs up leaves a byte of its out.
  abbrev pub IsPossible : Client → Type 0
  IsPossible (asks r more takes) = length (c.encode_request r) < u32_mod
  IsPossible (hangs_up r sent) =
      (length (c.encode_request r) < u32_mod) × (sent < 4 + length (c.encode_request r))
  IsPossible unaccepted = Unit {0}

  abbrev pub AllPossible : List Client → Type 0
  AllPossible [] = Unit {0}
  AllPossible (k ∷ ks) = IsPossible k × AllPossible ks

  -- A response has less than 2^32 bytes.
  abbrev pub IsShort : Answer → Type 0
  IsShort (replies q) = elim (c.encode_response q) [
    | none ↦ Unit {0}
    | some bytes ↦ length bytes < u32_mod
  ]
  IsShort fails = Unit {0}
  IsShort panics = Unit {0}

  abbrev pub AllShort : List Answer → Type 0
  AllShort [] = Unit {0}
  AllShort (a ∷ rest) = IsShort a × AllShort rest

  -- What the client makes of the bytes that it is sent.
  unfoldable pub understood : Option (List ℕ × List ℕ) → Answer
  understood none = fails
  understood (some (buf, rest)) = elim (c.decode_response buf) [
    | none ↦ fails
    | some (q, n) ↦ replies q
  ]

  unfoldable pub read_response : Served → Answer
  unfolding understood
  read_response (written bytes) = understood (read_message bytes)
  read_response failed = fails
  read_response panicked = panics

-- The connection that a client makes, as the loop over requests has it.
abbrev pub connection_of : Client → Connection
connection_of (asks r more takes) = delivers r takes
connection_of (hangs_up r sent) = broken
connection_of unaccepted = broken
