-- ===== src/Error.antt =====
-- src/error.rs: the kinds of error, their codes, and the error values.
pub mod RoundTrip
mod Tests
use Prim.Native.String.{String}
use optee_utee.Prelude.{ℕ, ◌≡◌, refl, ◌⊎◌, inl, inr, Option, none, some, ◌==◌, if◌then◌else◌}
use optee_utee.Codes.{
  tee_error_access_conflict, tee_error_access_denied, tee_error_bad_format,
  tee_error_bad_parameters, tee_error_bad_state, tee_error_busy, tee_error_cancel,
  tee_error_communication, tee_error_corrupt_object, tee_error_corrupt_object_2,
  tee_error_excess_data, tee_error_external_cancel, tee_error_generic, tee_error_item_not_found,
  tee_error_mac_invalid, tee_error_no_data, tee_error_not_implemented, tee_error_not_supported,
  tee_error_out_of_memory, tee_error_overflow, tee_error_security, tee_error_short_buffer,
  tee_error_signature_invalid, tee_error_storage_no_space, tee_error_storage_not_available,
  tee_error_storage_not_available_2, tee_error_target_dead, tee_error_time_needs_reset,
  tee_error_time_not_set, tee_success, tee_origin_api, tee_origin_comms, tee_origin_tee,
  tee_origin_trusted_app,
}

pub data ErrorKind : Type 0 where
  corrupt_object corrupt_object_2 storage_not_available storage_not_available_2 generic
        access_denied cancel access_conflict excess_data bad_format bad_parameters bad_state
        item_not_found not_implemented not_supported no_data out_of_memory busy communication
        security short_buffer external_cancel overflow target_dead storage_no_space mac_invalid
        signature_invalid time_not_set time_needs_reset unknown :
      ErrorKind

-- `kind as u32`: the discriminants. `Unknown` has none of its own, so it takes the one after
-- `TimeNeedsReset`.
pub to_u32 : ErrorKind → ℕ
to_u32 corrupt_object = tee_error_corrupt_object
to_u32 corrupt_object_2 = tee_error_corrupt_object_2
to_u32 storage_not_available = tee_error_storage_not_available
to_u32 storage_not_available_2 = tee_error_storage_not_available_2
to_u32 generic = tee_error_generic
to_u32 access_denied = tee_error_access_denied
to_u32 cancel = tee_error_cancel
to_u32 access_conflict = tee_error_access_conflict
to_u32 excess_data = tee_error_excess_data
to_u32 bad_format = tee_error_bad_format
to_u32 bad_parameters = tee_error_bad_parameters
to_u32 bad_state = tee_error_bad_state
to_u32 item_not_found = tee_error_item_not_found
to_u32 not_implemented = tee_error_not_implemented
to_u32 not_supported = tee_error_not_supported
to_u32 no_data = tee_error_no_data
to_u32 out_of_memory = tee_error_out_of_memory
to_u32 busy = tee_error_busy
to_u32 communication = tee_error_communication
to_u32 security = tee_error_security
to_u32 short_buffer = tee_error_short_buffer
to_u32 external_cancel = tee_error_external_cancel
to_u32 overflow = tee_error_overflow
to_u32 target_dead = tee_error_target_dead
to_u32 storage_no_space = tee_error_storage_no_space
to_u32 mac_invalid = tee_error_mac_invalid
to_u32 signature_invalid = tee_error_signature_invalid
to_u32 time_not_set = tee_error_time_not_set
to_u32 time_needs_reset = tee_error_time_needs_reset
to_u32 unknown = 0xFFFF5002

-- `ErrorKind::from(code)`, arm by arm.
pub from_u32 : ℕ → ErrorKind
from_u32 code =
    if code == tee_error_corrupt_object
    then corrupt_object
    else if code == tee_error_corrupt_object_2
    then corrupt_object_2
    else if code == tee_error_storage_not_available
    then storage_not_available
    else if code == tee_error_storage_not_available_2
    then storage_not_available_2
    else if code == tee_error_generic
    then generic
    else if code == tee_error_access_denied
    then access_denied
    else if code == tee_error_cancel
    then cancel
    else if code == tee_error_access_conflict
    then access_conflict
    else if code == tee_error_excess_data
    then excess_data
    else if code == tee_error_bad_format
    then bad_format
    else if code == tee_error_bad_parameters
    then bad_parameters
    else if code == tee_error_bad_state
    then bad_state
    else if code == tee_error_item_not_found
    then item_not_found
    else if code == tee_error_not_implemented
    then not_implemented
    else if code == tee_error_not_supported
    then not_supported
    else if code == tee_error_no_data
    then no_data
    else if code == tee_error_out_of_memory
    then out_of_memory
    else if code == tee_error_busy
    then busy
    else if code == tee_error_communication
    then communication
    else if code == tee_error_security
    then security
    else if code == tee_error_short_buffer
    then short_buffer
    else if code == tee_error_external_cancel
    then external_cancel
    else if code == tee_error_overflow
    then overflow
    else if code == tee_error_target_dead
    then target_dead
    else if code == tee_error_storage_no_space
    then storage_no_space
    else if code == tee_error_mac_invalid
    then mac_invalid
    else if code == tee_error_signature_invalid
    then signature_invalid
    else if code == tee_error_time_not_set
    then time_not_set
    else if code == tee_error_time_needs_reset
    then time_needs_reset
    else unknown

pub as_str : ErrorKind → String
as_str corrupt_object = "Object corruption."
as_str corrupt_object_2 = "Persistent object corruption."
as_str storage_not_available = "Object storage is not available."
as_str storage_not_available_2 = "Persistent object storage is not available."
as_str generic = "Non-specific cause."
as_str access_denied = "Access privileges are not sufficient."
as_str cancel = "The operation was canceled."
as_str access_conflict = "Concurrent accesses caused conflict."
as_str excess_data = "Too much data for the requested operation was passed."
as_str bad_format = "Input data was of invalid format."
as_str bad_parameters = "Input parameters were invalid."
as_str bad_state = "Operation is not valid in the current state."
as_str item_not_found = "The requested data item is not found."
as_str not_implemented = "The requested operation should exist but is not yet implemented."
as_str not_supported =
    "The requested operation is valid but is not supported in this implementation."
as_str no_data = "Expected data was missing."
as_str out_of_memory = "System ran out of resources."
as_str busy = "The system is busy working on something else."
as_str communication = "Communication with a remote party failed."
as_str security = "A security fault was detected."
as_str short_buffer = "The supplied buffer is too short for the generated output."
as_str external_cancel = "Undocumented."
as_str overflow = "Data overflow."
as_str target_dead = "Trusted Application has panicked during the operation."
as_str storage_no_space = "Insufficient space is available."
as_str mac_invalid = "MAC is invalid."
as_str signature_invalid = "Signature is invalid."
as_str time_not_set = "The persistent time has not been set."
as_str time_needs_reset =
    "The persistent time has been set but may have been corrupted and SHALL no longer be trusted."
as_str unknown = "Unknown error."

pub data ErrorOrigin : Type 0 where
  api comms tee ta unknown : ErrorOrigin

pub origin_to_u32 : ErrorOrigin → ℕ
origin_to_u32 ErrorOrigin.api = tee_origin_api
origin_to_u32 ErrorOrigin.comms = tee_origin_comms
origin_to_u32 ErrorOrigin.tee = tee_origin_tee
origin_to_u32 ErrorOrigin.ta = tee_origin_trusted_app
origin_to_u32 ErrorOrigin.unknown = 5

pub origin_from_u32 : ℕ → ErrorOrigin
origin_from_u32 code =
    if code == tee_origin_api
    then ErrorOrigin.api
    else if code == tee_origin_comms
    then ErrorOrigin.comms
    else if code == tee_origin_tee
    then ErrorOrigin.tee
    else if code == tee_origin_trusted_app
    then ErrorOrigin.ta
    else ErrorOrigin.unknown

pub record Error : Type 0 where
  pub kind : ErrorKind
  pub origin : Option ErrorOrigin

-- `Error::new`, and `Error::from` at a kind.
unfoldable pub new : ErrorKind → Error
new kind = record { kind = kind; origin = none }

unfoldable pub from_raw_error : ℕ → Error
from_raw_error code = record { kind = from_u32 code; origin = none }

unfoldable pub with_origin : Error → ErrorOrigin → Error
with_origin e origin = record e { origin = some origin }

unfoldable pub raw_code : Error → ℕ
raw_code e = to_u32 e.kind

unfoldable pub message : Error → String
message e = as_str e.kind

-- `core::result::Result`, at the crate's two error types.
pub data Result (E A : Type 0) : Type 0 where
  ok : A → Result E A
  err : E → Result E A

pub Result-cases :
    {E A : Type 0} (r : Result E A) → ((a : A) × (r ≡ ok a)) ⊎ ((e : E) × (r ≡ err e))
Result-cases (ok a) = inl (a, refl)
Result-cases (err e) = inr (e, refl)

-- `match code { raw::TEE_SUCCESS => Ok(value), code => Err(Error::from_raw_error(code)) }`, the way
-- in which the wrappers read a status.
unfoldable pub check : {A : Type 0} → ℕ → A → Result Error A
check code value = if code == tee_success then ok value else err (from_raw_error code)
