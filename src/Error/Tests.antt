-- ===== src/Error/Tests.antt =====
-- The error codes at concrete values.
use optee_utee.Prelude.{◌≡◌, refl, ◌⊎◌}
use optee_utee.Codes.{tee_success}
use optee_utee.Error.{
  ErrorKind, ErrorOrigin, to_u32, from_u32, origin_to_u32, origin_from_u32, from_raw_error,
  raw_code,
}
use optee_utee.Error.RoundTrip.{Made, raw_code-from_raw_error, codes_round_trip}

security_code : from_u32 0xFFFF000F ≡ ErrorKind.security
unfolding from_u32
security_code = refl

-- `TEE_ERROR_TIMEOUT` is no kind of the crate.
raw_code-from_raw_error_example :
    Made 0xFFFF3001 × (raw_code (from_raw_error tee_success) ≡ 0xFFFF5002)
raw_code-from_raw_error_example = raw_code-from_raw_error 0xFFFF3001

codes_round_trip_example :
    (from_u32 (to_u32 ErrorKind.mac_invalid) ≡ ErrorKind.mac_invalid)
    × (origin_from_u32 (origin_to_u32 ErrorOrigin.tee) ≡ ErrorOrigin.tee)
    × ((origin_to_u32 (origin_from_u32 9) ≡ 9) ⊎ (origin_from_u32 9 ≡ ErrorOrigin.unknown))
codes_round_trip_example = codes_round_trip ErrorKind.mac_invalid ErrorOrigin.tee 9
