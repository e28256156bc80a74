-- ===== src/Manager/Framing.antt =====
-- ta_manager/src/lib.rs: a message on a stream is its length as a `u32` in the machine's byte order
-- (little-endian here), and its bytes.
use optee_utee.Prelude.{
  ℕ, ◌+◌, ◌*◌, ◌/◌, ◌%◌, ◌<◌, u32_mod, ◌≡◌, ap, ◌∙◌, arith, ltb, if◌then◌else◌, List, [], ◌∷◌, ◌++◌,
  Option, none, some, zero, suc, length-take, length, take, drop, length-append, take-append,
  drop-append,
}

-- `u32::to_ne_bytes`.
to_ne_bytes : ℕ → List ℕ
to_ne_bytes n = n % 256 ∷ n / 256 % 256 ∷ n / 65536 % 256 ∷ n / 16777216 % 256 ∷ []

-- `u32::from_ne_bytes`; its argument has four bytes.
from_ne_bytes : List ℕ → ℕ
from_ne_bytes [] = 0
from_ne_bytes (b ∷ bs) = b + 256 * from_ne_bytes bs

-- The end of each handler: the length, `resp_data.len() as u32`, and the data.
unfoldable pub frame : List ℕ → List ℕ
unfolding to_ne_bytes
frame bytes = to_ne_bytes (length bytes % u32_mod) ++ bytes

-- `read_exact`: the bytes, and the stream behind them; an error if the stream ends before.
pub read_exact : ℕ → List ℕ → Option (List ℕ × List ℕ)
read_exact n stream = if ltb (length stream) n then none else some (take n stream, drop n stream)

read_body : Option (List ℕ × List ℕ) → Option (List ℕ × List ℕ)
read_body none = none
read_body (some (len_buf, stream)) = read_exact (from_ne_bytes len_buf) stream

-- How `handle_ca_request` reads one message.
pub read_message : List ℕ → Option (List ℕ × List ℕ)
unfolding read_body
read_message stream = read_body (read_exact 4 stream)

from_ne_bytes-to_ne_bytes : (n : ℕ) → n < u32_mod → from_ne_bytes (to_ne_bytes n) ≡ n
unfolding from_ne_bytes to_ne_bytes
from_ne_bytes-to_ne_bytes n h = omega arith

read_exact-append : (xs ys : List ℕ) → read_exact (length xs) (xs ++ ys) ≡ some (xs, ys)
unfolding read_exact
read_exact-append xs ys =
    rw (take-append xs ys, drop-append xs ys) (ground (arith, length-append xs ys))

-- A framed message of less than 2^32 bytes is read back whole, and what follows it on the stream is
-- left for the next read.
pub read_message-frame :
    (bytes rest : List ℕ)
    → length bytes < u32_mod
    → read_message (frame bytes ++ rest) ≡ some (bytes, rest)
unfolding read_message frame read_body to_ne_bytes
read_message-frame bytes rest h =
    let n = length bytes % u32_mod in
    ap read_body (read_exact-append (to_ne_bytes n) (bytes ++ rest))
    ∙ (ap (λ k. read_exact k (bytes ++ rest))
          (from_ne_bytes-to_ne_bytes n (omega arith) ∙ omega arith)
        ∙ read_exact-append bytes rest)

read_exact_short : (n : ℕ) (stream : List ℕ) → length stream < n → read_exact n stream ≡ none
unfolding read_exact
read_exact_short n stream h = ground arith

-- Of a framed message that is cut short nothing is read.
pub read_message-cut :
    (k : ℕ) (bytes : List ℕ)
    → length bytes < u32_mod
    → k < 4 + length bytes
    → read_message (take k (frame bytes)) ≡ none
unfolding read_message frame read_body to_ne_bytes
read_message-cut zero bytes h cut = ap read_body (read_exact_short 4 _ (omega arith))
read_message-cut (suc zero) bytes h cut = ap read_body (read_exact_short 4 _ (omega arith))
read_message-cut (suc (suc zero)) bytes h cut = ap read_body (read_exact_short 4 _ (omega arith))
read_message-cut (suc (suc (suc zero))) bytes h cut =
    ap read_body (read_exact_short 4 _ (omega arith))
read_message-cut (suc (suc (suc (suc k)))) bytes h cut =
    let n = length bytes % u32_mod in
    ap read_body (read_exact-append (to_ne_bytes n) (take k bytes))
    ∙ (ap (λ j. read_exact j (take k bytes))
          (from_ne_bytes-to_ne_bytes n (omega arith) ∙ omega arith)
        ∙ read_exact_short (length bytes) (take k bytes) (omega (arith, length-take k bytes)))
