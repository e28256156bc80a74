-- ===== src/Object/Info.antt =====
-- src/object/object_info.rs: what is read from the information on an object.
use optee_utee.Prelude.{ℕ}
use optee_utee.Object.{RawObjectInfo}

pub record ObjectInfo : Type 0 where
  pub raw : RawObjectInfo

unfoldable pub from_raw : RawObjectInfo → ObjectInfo
from_raw raw = record { raw = raw }

unfoldable pub data_size : ObjectInfo → ℕ
data_size info = info.raw.data_size

unfoldable pub object_size : ObjectInfo → ℕ
object_size info = info.raw.object_size

unfoldable pub object_type : ObjectInfo → ℕ
object_type info = info.raw.object_type
