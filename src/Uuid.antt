-- ===== src/Uuid.antt =====
-- src/uuid.rs: UUIDs from bytes and text, and their text. Text is a list of ASCII codes.
pub mod Hex
pub mod Text
mod Tests
use optee_utee.Prelude.{
  ℕ, zero, suc, ◌+◌, ◌-◌, ◌/◌, ◌%◌, ltb, if◌then◌else◌, Option, some, none, List, [], ◌∷◌, ◌++◌,
  length, take, drop, replicate,
}
use optee_utee.Error
use optee_utee.Error.{Error, Result, ok, err, bad_format}

-- The `TEE_UUID`; the last field is eight bytes.
pub record Uuid : Type 0 where
  pub time_low : ℕ
  pub time_mid : ℕ
  pub time_hi_and_version : ℕ
  pub clock_seq_and_node : List ℕ

-- What the file uses of the crate `uuid`.
pub record UuidCrate (X : Type 0) : Type 0 where
  pub parse_str : List ℕ → Option X
  pub from_bytes : List ℕ → X
  pub from_slice : List ℕ → Option X
  pub as_fields : X → ℕ × ℕ × ℕ × List ℕ

pub new_raw : ℕ → ℕ → ℕ → List ℕ → Uuid
new_raw time_low time_mid time_hi_and_version clock_seq_and_nod = record {
  time_low = time_low;
  time_mid = time_mid;
  time_hi_and_version = time_hi_and_version;
  clock_seq_and_node = clock_seq_and_nod;
}

module _ {X : Type 0} (uuid_crate : UuidCrate X) where
  unfoldable pub from_bytes : List ℕ → Uuid
  unfolding new_raw
  from_bytes bytes =
      let (time_low, time_mid, time_hi_and_version, clock_seq_and_node) =
        uuid_crate.as_fields (uuid_crate.from_bytes bytes) in
      new_raw time_low time_mid time_hi_and_version clock_seq_and_node

  -- `uuid_crate::Uuid::…(…).map_err(|_| ErrorKind::BadFormat)?` and the fields.
  unfoldable pub checked : Option X → Result Error Uuid
  unfolding new_raw
  checked (some uuid) =
      let (time_low, time_mid, time_hi_and_version, clock_seq_and_node) =
        uuid_crate.as_fields uuid in
      ok (new_raw time_low time_mid time_hi_and_version clock_seq_and_node)
  checked none = err (Error.new bad_format)

  unfoldable pub parse_str : List ℕ → Result Error Uuid
  unfolding checked
  parse_str input = checked (uuid_crate.parse_str input)

  unfoldable pub from_slice : List ℕ → Result Error Uuid
  unfolding checked
  from_slice b = checked (uuid_crate.from_slice b)

abbrev pub hex_digit : ℕ → ℕ
hex_digit d = if ltb d 10 then 48 + d else 87 + d

-- The hexadecimal digits of a number, no more than the fuel.
unfoldable pub digits : ℕ → ℕ → List ℕ
digits zero n = []
digits (suc fuel) n =
    let rest = digits fuel (n / 16) in
    if ltb n 16 then hex_digit n ∷ [] else rest ++ hex_digit (n % 16) ∷ []

-- `{:0…x}` of a `u32` or a `u16`, which has eight digits at most.
unfoldable pub lower_hex : ℕ → ℕ → List ℕ
unfolding digits
lower_hex width n = let s = digits 8 n in replicate (width - length s) 48 ++ s

-- `Display`; `encode` is `hex::encode`.
unfoldable pub to_string : (List ℕ → List ℕ) → Uuid → List ℕ
unfolding lower_hex
to_string encode u =
    lower_hex 8 u.time_low
    ++ 45 ∷ lower_hex 4 u.time_mid
    ++ 45 ∷ lower_hex 4 u.time_hi_and_version
    ++ 45 ∷ encode (take 2 u.clock_seq_and_node)
    ++ 45 ∷ encode (take 6 (drop 2 u.clock_seq_and_node))
