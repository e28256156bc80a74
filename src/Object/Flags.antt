-- ===== src/Object/Flags.antt =====
-- src/object/object_define.rs: the sets of flags, and the other constants.
use optee_utee.Prelude.{ℕ}

pub data DataFlag : Type 0 where
  access_read access_write access_write_meta share_read share_write overwrite : DataFlag

unfoldable pub data_bits : DataFlag → ℕ
data_bits access_read = 0x00000001
data_bits access_write = 0x00000002
data_bits access_write_meta = 0x00000004
data_bits share_read = 0x00000010
data_bits share_write = 0x00000020
data_bits overwrite = 0x00000400

pub data UsageFlag : Type 0 where
  extractable encrypt decrypt mac sign verify derive : UsageFlag

unfoldable pub usage_bits : UsageFlag → ℕ
usage_bits extractable = 0x00000001
usage_bits encrypt = 0x00000002
usage_bits decrypt = 0x00000004
usage_bits mac = 0x00000008
usage_bits sign = 0x00000010
usage_bits verify = 0x00000020
usage_bits derive = 0x00000040

pub data HandleFlag : Type 0 where
  persistent initialized key_set expect_two_keys : HandleFlag

unfoldable pub handle_bits : HandleFlag → ℕ
handle_bits persistent = 0x00010000
handle_bits initialized = 0x00020000
handle_bits key_set = 0x00040000
handle_bits expect_two_keys = 0x00080000

pub data MiscellaneousConstants : Type 0 where
  tee_data_max_position tee_object_id_max_len : MiscellaneousConstants

unfoldable pub miscellaneous_code : MiscellaneousConstants → ℕ
miscellaneous_code tee_data_max_position = 0xFFFFFFFF
miscellaneous_code tee_object_id_max_len = 64
