-- ===== src/Object.antt =====
-- src/object: handles of objects, and the operations that every object has.
pub mod Types
pub mod Attributes
pub mod Info
pub mod Flags
pub mod Transient
pub mod Persistent
pub mod Enumerator
pub mod Released
pub mod Lifetime
mod Tests
use optee_utee.Prelude.{ℕ, ◌%◌, u32_mod, ℤ, ◌==◌, if◌then◌else◌, Bool, List, [], ◌∷◌, length}
use optee_utee.Ffi.{ask, tell}
use optee_utee.Error
use optee_utee.Error.{Error, Result, ok, err, bad_parameters}

-- A handle is a pointer, and null is 0. Buffers are passed as their bytes, or as their length where
-- the function only writes to them; attributes pass through as numbers.
pub data Call : Type 0 where
  close_object : ℕ → Call
  get_object_info : ℕ → Call
  restrict_object_usage : ℕ → ℕ → Call
  get_object_buffer_attribute : ℕ → ℕ → ℕ → Call
  get_object_value_attribute : ℕ → ℕ → Call
  allocate_transient_object : ℕ → ℕ → Call
  reset_transient_object : ℕ → Call
  populate_transient_object : ℕ → List ℕ → ℕ → Call
  copy_object_attributes : ℕ → ℕ → Call
  generate_key : ℕ → ℕ → List ℕ → ℕ → Call
  open_persistent_object : ℕ → List ℕ → ℕ → Call
  create_persistent_object : ℕ → List ℕ → ℕ → ℕ → List ℕ → Call
  close_and_delete_persistent_object : ℕ → Call
  rename_persistent_object : ℕ → List ℕ → Call
  read_object_data : ℕ → ℕ → Call
  write_object_data : ℕ → List ℕ → Call
  truncate_object_data : ℕ → ℕ → Call
  seek_object_data : ℕ → ℤ → ℕ → Call

-- `TEE_ObjectInfo`.
pub record RawObjectInfo : Type 0 where
  pub object_type : ℕ
  pub object_size : ℕ
  pub max_object_size : ℕ
  pub object_usage : ℕ
  pub data_size : ℕ
  pub data_position : ℕ
  pub handle_flags : ℕ

-- The status, and what the call writes through the pointers that it was given.
pub record Reply : Type 0 where
  pub code : ℕ
  pub handle : ℕ
  pub size : ℕ
  pub value_a : ℕ
  pub value_b : ℕ
  pub info : RawObjectInfo

pub record ObjectHandle : Type 0 where
  pub raw : ℕ

abbrev null : ℕ
null = 0

-- `ObjectHandle::from_raw`.
unfoldable pub from_raw : ℕ → Result Error ObjectHandle
from_raw raw = if raw == 0 then err (Error.new bad_parameters) else ok (record { raw = raw })

unfoldable pub is_null : ObjectHandle → Bool
is_null o = o.raw == 0

unfoldable pub new_null : ObjectHandle
new_null = record { raw = 0 }

-- `Drop for ObjectHandle`.
unfoldable pub drop : ObjectHandle → List Call → List Call
unfolding is_null
drop o h = if is_null o then h else close_object o.raw ∷ h

-- The handle is set to null, and then dropped as every value is.
unfoldable pub forget : ObjectHandle → List Call → List Call
unfolding drop
forget o h = drop (record o { raw = 0 }) h

-- `Ok(Self(ObjectHandle::from_raw(handle)?))`, behind a successful call.
unfoldable pub wrap : Result Error ℕ → Result Error ObjectHandle
unfolding from_raw
wrap (ok raw) = from_raw raw
wrap (err e) = err e

module _ (tee : List Call → Reply) where
  -- The provided methods of `GenericObject`.
  unfoldable pub info : ObjectHandle → List Call → Result Error RawObjectInfo × List Call
  unfolding ask
  info o h = ask tee (λ r. r.code) (λ r. r.info) (get_object_info o.raw) h

  unfoldable pub restrict_usage : ObjectHandle → ℕ → List Call → Result Error (Unit {0}) × List Call
  unfolding ask
  restrict_usage o usage h = ask tee (λ r. r.code) (λ r. tt) (restrict_object_usage o.raw usage) h

  unfoldable pub ref_attribute : ObjectHandle → ℕ → ℕ → List Call → Result Error ℕ × List Call
  unfolding ask
  ref_attribute o id len h =
      ask tee (λ r. r.code) (λ r. r.size) (get_object_buffer_attribute o.raw id len) h

  unfoldable pub value_attribute : ObjectHandle → ℕ → List Call → Result Error (ℕ × ℕ) × List Call
  unfolding ask
  value_attribute o id h =
      ask tee (λ r. r.code) (λ r. (r.value_a, r.value_b)) (get_object_value_attribute o.raw id) h
