-- ===== src/Object/Transient.antt =====
-- src/object/transient_object.rs.
use optee_utee.Prelude.{ℕ, ◌%◌, u32_mod, Bool, List, length}
use optee_utee.Ffi.{ask, tell}
use optee_utee.Error.{Error, Result}
use optee_utee.Object.Types.{TransientObjectType, type_code}
use optee_utee.Object
use optee_utee.Object.{Call, Reply, ObjectHandle, wrap}

-- `TransientObject` holds the handle, and its drop is that of the handle.
unfoldable pub null_object : ObjectHandle
unfolding Object.new_null
null_object = Object.new_null

unfoldable pub is_null_object : ObjectHandle → Bool
unfolding Object.is_null
is_null_object o = Object.is_null o

module _ (tee : List Call → Reply) where
  unfoldable pub allocate :
      TransientObjectType → ℕ → List Call → Result Error ObjectHandle × List Call
  unfolding ask wrap
  allocate object_type max_object_size h =
      let (result, h') =
        ask tee (λ r. r.code) (λ r. r.handle)
          (Call.allocate_transient_object (type_code object_type) (max_object_size % u32_mod)) h in
      (wrap result, h')

  unfoldable pub reset : ObjectHandle → List Call → List Call
  unfolding tell
  reset o h = tell tee (Call.reset_transient_object o.raw) h

  unfoldable pub populate : ObjectHandle → List ℕ → List Call → Result Error (Unit {0}) × List Call
  unfolding ask
  populate o attrs h =
      ask tee (λ r. r.code) (λ r. tt)
        (Call.populate_transient_object o.raw attrs (length attrs % u32_mod)) h

  unfoldable pub copy_attribute_from :
      ObjectHandle → ObjectHandle → List Call → Result Error (Unit {0}) × List Call
  unfolding ask
  copy_attribute_from o src_object h =
      ask tee (λ r. r.code) (λ r. tt) (Call.copy_object_attributes o.raw src_object.raw) h

  unfoldable pub generate_key :
      ObjectHandle → ℕ → List ℕ → List Call → Result Error (Unit {0}) × List Call
  unfolding ask
  generate_key o key_size params h =
      ask tee (λ r. r.code) (λ r. tt)
        (Call.generate_key o.raw (key_size % u32_mod) params (length params % u32_mod)) h
