-- ===== src/Codes/Flags.antt =====
-- optee-utee-sys/src/tee_api_defines.rs: the flags of data objects, of their usage and of handles.
use optee_utee.Prelude.{ℕ}

pub data TeeDataFlag : Type 0 where
  tee_data_flag_access_read tee_data_flag_access_write tee_data_flag_access_write_meta
        tee_data_flag_share_read tee_data_flag_share_write tee_data_flag_overwrite :
      TeeDataFlag

unfoldable pub data_flag_value : TeeDataFlag → ℕ
data_flag_value TeeDataFlag.tee_data_flag_access_read = 0x00000001
data_flag_value TeeDataFlag.tee_data_flag_access_write = 0x00000002
data_flag_value TeeDataFlag.tee_data_flag_access_write_meta = 0x00000004
data_flag_value TeeDataFlag.tee_data_flag_share_read = 0x00000010
data_flag_value TeeDataFlag.tee_data_flag_share_write = 0x00000020
data_flag_value TeeDataFlag.tee_data_flag_overwrite = 0x00000400

pub data TeeUsage : Type 0 where
  tee_usage_extractable tee_usage_encrypt tee_usage_decrypt tee_usage_mac tee_usage_sign
        tee_usage_verify tee_usage_derive :
      TeeUsage

unfoldable pub usage_value : TeeUsage → ℕ
usage_value TeeUsage.tee_usage_extractable = 0x00000001
usage_value TeeUsage.tee_usage_encrypt = 0x00000002
usage_value TeeUsage.tee_usage_decrypt = 0x00000004
usage_value TeeUsage.tee_usage_mac = 0x00000008
usage_value TeeUsage.tee_usage_sign = 0x00000010
usage_value TeeUsage.tee_usage_verify = 0x00000020
usage_value TeeUsage.tee_usage_derive = 0x00000040

pub data TeeHandleFlag : Type 0 where
  tee_handle_flag_persistent tee_handle_flag_initialized tee_handle_flag_key_set
        tee_handle_flag_expect_two_keys tee_handle_flag_extracting :
      TeeHandleFlag

unfoldable pub handle_flag_value : TeeHandleFlag → ℕ
handle_flag_value TeeHandleFlag.tee_handle_flag_persistent = 0x00010000
handle_flag_value TeeHandleFlag.tee_handle_flag_initialized = 0x00020000
handle_flag_value TeeHandleFlag.tee_handle_flag_key_set = 0x00040000
handle_flag_value TeeHandleFlag.tee_handle_flag_expect_two_keys = 0x00080000
handle_flag_value TeeHandleFlag.tee_handle_flag_extracting = 0x00100000
