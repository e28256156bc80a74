-- ===== src/Codes.antt =====
-- The constants of optee-utee-sys/src/tee_api_defines.rs and optee-utee-sys/src/tee_isocket.rs
-- that the crate compares with.
pub mod Flags
pub mod Objects
pub mod Algorithms
pub mod Operations
pub mod Parameters
mod Panics
pub mod Header
pub mod Names
pub mod Agree
mod Tests
use optee_utee.Prelude.{ℕ, ◌*◌, ◌%◌, ◌^◌, bit_or, u32_mod}

abbrev pub tee_timeout_infinite : ℕ
tee_timeout_infinite = 0xFFFFFFFF

abbrev pub tee_success : ℕ
tee_success = 0x00000000

abbrev pub tee_error_corrupt_object : ℕ
tee_error_corrupt_object = 0xF0100001

abbrev pub tee_error_corrupt_object_2 : ℕ
tee_error_corrupt_object_2 = 0xF0100002

abbrev pub tee_error_storage_not_available : ℕ
tee_error_storage_not_available = 0xF0100003

abbrev pub tee_error_storage_not_available_2 : ℕ
tee_error_storage_not_available_2 = 0xF0100004

abbrev pub tee_error_unsupported_version : ℕ
tee_error_unsupported_version = 0xF0100005

abbrev pub tee_error_ciphertext_invalid : ℕ
tee_error_ciphertext_invalid = 0xF0100006

abbrev pub tee_error_generic : ℕ
tee_error_generic = 0xFFFF0000

abbrev pub tee_error_access_denied : ℕ
tee_error_access_denied = 0xFFFF0001

abbrev pub tee_error_cancel : ℕ
tee_error_cancel = 0xFFFF0002

abbrev pub tee_error_access_conflict : ℕ
tee_error_access_conflict = 0xFFFF0003

abbrev pub tee_error_excess_data : ℕ
tee_error_excess_data = 0xFFFF0004

abbrev pub tee_error_bad_format : ℕ
tee_error_bad_format = 0xFFFF0005

abbrev pub tee_error_bad_parameters : ℕ
tee_error_bad_parameters = 0xFFFF0006

abbrev pub tee_error_bad_state : ℕ
tee_error_bad_state = 0xFFFF0007

abbrev pub tee_error_item_not_found : ℕ
tee_error_item_not_found = 0xFFFF0008

abbrev pub tee_error_not_implemented : ℕ
tee_error_not_implemented = 0xFFFF0009

abbrev pub tee_error_not_supported : ℕ
tee_error_not_supported = 0xFFFF000A

abbrev pub tee_error_no_data : ℕ
tee_error_no_data = 0xFFFF000B

abbrev pub tee_error_out_of_memory : ℕ
tee_error_out_of_memory = 0xFFFF000C

abbrev pub tee_error_busy : ℕ
tee_error_busy = 0xFFFF000D

abbrev pub tee_error_communication : ℕ
tee_error_communication = 0xFFFF000E

abbrev pub tee_error_security : ℕ
tee_error_security = 0xFFFF000F

abbrev pub tee_error_short_buffer : ℕ
tee_error_short_buffer = 0xFFFF0010

abbrev pub tee_error_external_cancel : ℕ
tee_error_external_cancel = 0xFFFF0011

abbrev pub tee_error_timeout : ℕ
tee_error_timeout = 0xFFFF3001

abbrev pub tee_error_overflow : ℕ
tee_error_overflow = 0xFFFF300F

abbrev pub tee_error_target_dead : ℕ
tee_error_target_dead = 0xFFFF3024

abbrev pub tee_error_storage_no_space : ℕ
tee_error_storage_no_space = 0xFFFF3041

abbrev pub tee_error_mac_invalid : ℕ
tee_error_mac_invalid = 0xFFFF3071

abbrev pub tee_error_signature_invalid : ℕ
tee_error_signature_invalid = 0xFFFF3072

abbrev pub tee_error_time_not_set : ℕ
tee_error_time_not_set = 0xFFFF5000

abbrev pub tee_error_time_needs_reset : ℕ
tee_error_time_needs_reset = 0xFFFF5001

abbrev pub tee_login_public : ℕ
tee_login_public = 0x00000000

abbrev pub tee_login_user : ℕ
tee_login_user = 0x00000001

abbrev pub tee_login_group : ℕ
tee_login_group = 0x00000002

abbrev pub tee_login_application : ℕ
tee_login_application = 0x00000004

abbrev pub tee_login_application_user : ℕ
tee_login_application_user = 0x00000005

abbrev pub tee_login_application_group : ℕ
tee_login_application_group = 0x00000006

abbrev pub tee_login_trusted_app : ℕ
tee_login_trusted_app = 0xF0000000

abbrev pub tee_origin_api : ℕ
tee_origin_api = 0x00000001

abbrev pub tee_origin_comms : ℕ
tee_origin_comms = 0x00000002

abbrev pub tee_origin_tee : ℕ
tee_origin_tee = 0x00000003

abbrev pub tee_origin_trusted_app : ℕ
tee_origin_trusted_app = 0x00000004

abbrev pub tee_isocket_error_protocol : ℕ
tee_isocket_error_protocol = 0xF1007001

abbrev pub tee_isocket_error_remote_closed : ℕ
tee_isocket_error_remote_closed = 0xF1007002

abbrev pub tee_isocket_error_timeout : ℕ
tee_isocket_error_timeout = 0xF1007003

abbrev pub tee_isocket_error_out_of_resources : ℕ
tee_isocket_error_out_of_resources = 0xF1007004

abbrev pub tee_isocket_error_large_buffer : ℕ
tee_isocket_error_large_buffer = 0xF1007005

abbrev pub tee_isocket_warning_protocol : ℕ
tee_isocket_warning_protocol = 0xF1007006

abbrev pub tee_isocket_error_hostname : ℕ
tee_isocket_error_hostname = 0xF1007007

-- `TEE_PARAM_TYPES`, on `u32`.
unfoldable pub tee_param_types : ℕ → ℕ → ℕ → ℕ → ℕ
tee_param_types t0 t1 t2 t3 =
    bit_or (bit_or (bit_or t0 (t1 * 2 ^ 4 % u32_mod)) (t2 * 2 ^ 8 % u32_mod))
      (t3 * 2 ^ 12 % u32_mod)
