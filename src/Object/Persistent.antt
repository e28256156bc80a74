-- ===== src/Object/Persistent.antt =====
-- src/object/persistent_object.rs.
use optee_utee.Prelude.{ℕ, ◌%◌, u32_mod, ℤ, List, Option, none, some}
use optee_utee.Ffi.{ask}
use optee_utee.Error.{Error, Result}
use optee_utee.Object.Types.{Whence, whence_code, ObjectStorageConstants, storage_code}
use optee_utee.Object.{Call, Reply, ObjectHandle, wrap, drop, forget}

-- `match attributes { Some(a) => a.handle(), None => null_mut() }`: the handle moves into the arm
-- and is dropped at the end of it, before the number is used.
unfoldable pub take_attributes : Option ObjectHandle → List Call → ℕ × List Call
unfolding drop
take_attributes (some a) h = (a.raw, drop a h)
take_attributes none h = (0, h)

module _ (tee : List Call → Reply) where
  -- `open` is a word of the language: this is `PersistentObject::open`.
  unfoldable pub open_object :
      ObjectStorageConstants → List ℕ → ℕ → List Call → Result Error ObjectHandle × List Call
  unfolding ask wrap
  open_object storage_id object_id flags h =
      let (result, h') =
        ask tee (λ r. r.code) (λ r. r.handle)
          (Call.open_persistent_object (storage_code storage_id) object_id flags) h in
      (wrap result, h')

  unfoldable pub create :
      ObjectStorageConstants
      → List ℕ
      → ℕ
      → Option ObjectHandle
      → List ℕ
      → List Call
      → Result Error ObjectHandle × List Call
  unfolding ask wrap take_attributes
  create storage_id object_id flags attributes initial_data h =
      let (raw_attributes, h') = take_attributes attributes h in
      let (result, h'') =
        ask tee (λ r. r.code) (λ r. r.handle)
          (Call.create_persistent_object (storage_code storage_id) object_id flags raw_attributes
            initial_data)
          h' in
      (wrap result, h'')

  unfoldable pub close_and_delete : ObjectHandle → List Call → Result Error (Unit {0}) × List Call
  unfolding ask forget
  close_and_delete o h =
      let (result, h') =
        ask tee (λ r. r.code) (λ r. tt) (Call.close_and_delete_persistent_object o.raw) h in
      (result, forget o h')

  unfoldable pub rename : ObjectHandle → List ℕ → List Call → Result Error (Unit {0}) × List Call
  unfolding ask
  rename o new_object_id h =
      ask tee (λ r. r.code) (λ r. tt) (Call.rename_persistent_object o.raw new_object_id) h

  -- The count is a `usize` and is cut to a `u32`.
  unfoldable pub read : ObjectHandle → ℕ → List Call → Result Error ℕ × List Call
  unfolding ask
  read o len h = ask tee (λ r. r.code) (λ r. r.size % u32_mod) (Call.read_object_data o.raw len) h

  unfoldable pub write : ObjectHandle → List ℕ → List Call → Result Error (Unit {0}) × List Call
  unfolding ask
  write o buf h = ask tee (λ r. r.code) (λ r. tt) (Call.write_object_data o.raw buf) h

  unfoldable pub truncate : ObjectHandle → ℕ → List Call → Result Error (Unit {0}) × List Call
  unfolding ask
  truncate o size h = ask tee (λ r. r.code) (λ r. tt) (Call.truncate_object_data o.raw size) h

  unfoldable pub seek : ObjectHandle → ℤ → Whence → List Call → Result Error (Unit {0}) × List Call
  unfolding ask
  seek o offset whence h =
      ask tee (λ r. r.code) (λ r. tt) (Call.seek_object_data o.raw offset (whence_code whence)) h
