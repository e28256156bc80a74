-- ===== src/Property.antt =====
-- src/property.rs and src/identity.rs: reading the properties of the system, of the application and
-- of its client.
pub mod Sized
pub mod Keys
pub mod Asking
pub mod Stored
mod Tests
use optee_utee.Prelude.{
  ℕ, ◌+◌, ◌==◌, if◌then◌else◌, Bool, true, false, ◌||◌, not, Option, some, none, List, [], ◌∷◌,
  ◌++◌, length, take, drop, replicate, Outcome, returns, panics,
}
use optee_utee.Codes.{tee_success, tee_error_short_buffer}
use optee_utee.Ffi.{ask}
use optee_utee.Error
use optee_utee.Error.{Error, Result, ok, err, generic, bad_format}

pub data PropertySet : Type 0 where
  tee_implementation current_client current_ta : PropertySet

unfoldable pub set_as_raw : PropertySet → ℕ
set_as_raw tee_implementation = 0xFFFFFFFD
set_as_raw current_client = 0xFFFFFFFE
set_as_raw current_ta = 0xFFFFFFFF

pub record Identity : Type 0 where
  pub login : ℕ
  pub uuid : ℕ

pub data LoginType : Type 0 where
  public user group application application_user application_group trusted_app : LoginType

unfoldable pub login_type : Identity → Outcome LoginType
login_type i =
    if i.login == 0x00000000
    then returns public
    else if i.login == 0x00000001
    then returns user
    else if i.login == 0x00000002
    then returns group
    else if i.login == 0x00000004
    then returns application
    else if i.login == 0x00000005
    then returns application_user
    else if i.login == 0x00000006
    then returns application_group
    else if i.login == 0xF0000000
    then returns trusted_app
    else panics

-- The key is its bytes; the two functions that write to a buffer are passed its length, 0 with the
-- null pointer.
pub data Call : Type 0 where
  get_property_as_string get_property_as_binary_block : ℕ → List ℕ → ℕ → Call
  get_property_as_bool get_property_as_u32 get_property_as_u64 get_property_as_uuid
        get_property_as_identity :
      ℕ → List ℕ → Call

-- The status, the size that the call writes, what it writes to the buffer, and the values of the
-- other types.
pub record Reply : Type 0 where
  pub code : ℕ
  pub out_size : ℕ
  pub bytes : List ℕ
  pub flag : Bool
  pub value : ℕ
  pub identity : Identity

-- The buffer after bytes were written at its start; it does not grow.
unfoldable pub overwrite : List ℕ → List ℕ → List ℕ
overwrite buffer bytes = take (length buffer) (bytes ++ drop (length bytes) buffer)

-- `CStr::from_bytes_with_nul`: the bytes before a `\0` that is the last byte and the only one.
unfoldable pub from_bytes_with_nul : List ℕ → Option (List ℕ)
from_bytes_with_nul [] = none
from_bytes_with_nul (c ∷ cs) = elim (c == 0) [
  | true ↦ elim cs [ [] ↦ some [] | d ∷ ds ↦ none ]
  | false ↦ elim (from_bytes_with_nul cs) [ some s ↦ some (c ∷ s) | none ↦ none ]
]

module _ (lossy : List ℕ → List ℕ) (tee : List Call → Reply) where
  -- The string of the buffer; `lossy` is `to_string_lossy`.
  pub string_of : Option (List ℕ) → Result Error (List ℕ)
  string_of (some s) = ok (lossy s)
  string_of none = err (Error.new bad_format)

  unfoldable pub get_string : ℕ → List ℕ → List Call → Result Error (List ℕ) × List Call
  unfolding string_of from_bytes_with_nul overwrite
  get_string set key h =
      let h₁ = get_property_as_string set key 0 ∷ h in
      let size = (tee h₁).out_size in
      let h₂ = get_property_as_string set key size ∷ h₁ in
      let res₂ = (tee h₂).code in
      if (tee h₁).code == tee_success
      then ((if size == 0 then ok [] else err (Error.new generic)), h₁)
      else if (tee h₁).code == tee_error_short_buffer
      then (
        (if res₂ == tee_success
            then string_of (from_bytes_with_nul (overwrite (replicate size 0) (tee h₂).bytes))
            else err (Error.from_raw_error res₂)),
        h₂,
      )
      else (err (Error.from_raw_error (tee h₁).code), h₁)

  unfoldable pub get_binary_block : ℕ → List ℕ → List Call → Result Error (List ℕ) × List Call
  unfolding overwrite
  get_binary_block set key h =
      let h₁ = get_property_as_binary_block set key 0 ∷ h in
      let size = (tee h₁).out_size in
      let h₂ = get_property_as_binary_block set key size ∷ h₁ in
      let res₂ = (tee h₂).code in
      if (tee h₁).code == tee_success
      then ((if size == 0 then ok [] else err (Error.new generic)), h₁)
      else if (tee h₁).code == tee_error_short_buffer
      then (
        (if res₂ == tee_success
            then ok (overwrite (replicate size 0) (tee h₂).bytes)
            else err (Error.from_raw_error res₂)),
        h₂,
      )
      else (err (Error.from_raw_error (tee h₁).code), h₁)

  unfoldable pub get_bool : ℕ → List ℕ → List Call → Result Error Bool × List Call
  unfolding ask
  get_bool set key h = ask tee (λ r. r.code) (λ r. r.flag) (get_property_as_bool set key) h

  unfoldable pub get_u32 : ℕ → List ℕ → List Call → Result Error ℕ × List Call
  unfolding ask
  get_u32 set key h = ask tee (λ r. r.code) (λ r. r.value) (get_property_as_u32 set key) h

  unfoldable pub get_u64 : ℕ → List ℕ → List Call → Result Error ℕ × List Call
  unfolding ask
  get_u64 set key h = ask tee (λ r. r.code) (λ r. r.value) (get_property_as_u64 set key) h

  unfoldable pub get_uuid : ℕ → List ℕ → List Call → Result Error ℕ × List Call
  unfolding ask
  get_uuid set key h = ask tee (λ r. r.code) (λ r. r.value) (get_property_as_uuid set key) h

  unfoldable pub get_identity : ℕ → List ℕ → List Call → Result Error Identity × List Call
  unfolding ask
  get_identity set key h =
      ask tee (λ r. r.code) (λ r. r.identity) (get_property_as_identity set key) h
