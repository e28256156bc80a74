-- ===== src/Crypto.antt =====
-- src/crypto_op.rs: the handle of an operation, which stands in a box.
pub mod Types
pub mod Operations
pub mod Lifetime
pub mod Typed
mod Tests
use optee_utee.Prelude.{ℕ, ◌%◌, u32_mod, List, [], ◌∷◌, length}
use optee_utee.Ffi.{ask, tell}
use optee_utee.Error.{Error, Result, ok, err}
use Types.{OperationMode, AlgorithmId, mode_code, algorithm_code}

-- Allocating and freeing the box stand among the calls; `box_free_null` is the drop of a box that is
-- made from the null pointer. Attributes pass through as numbers. A buffer that a function reads is
-- passed as its bytes, one that it writes to as its length.
pub data Call : Type 0 where
  box_new box_free box_free_null : Call
  allocate_operation : ℕ → ℕ → ℕ → Call
  free_operation : ℕ → Call
  get_operation_info : ℕ → Call
  get_operation_info_multiple : ℕ → ℕ → Call
  reset_operation : ℕ → Call
  set_operation_key : ℕ → ℕ → Call
  set_operation_key2 : ℕ → ℕ → ℕ → Call
  copy_operation : ℕ → ℕ → Call
  is_algorithm_supported_call : ℕ → ℕ → Call
  digest_update : ℕ → List ℕ → Call
  digest_do_final : ℕ → List ℕ → ℕ → Call
  cipher_init mac_init mac_update ae_update_aad : ℕ → List ℕ → Call
  cipher_update cipher_do_final mac_compute_final ae_update : ℕ → List ℕ → ℕ → Call
  mac_compare_final : ℕ → List ℕ → List ℕ → Call
  ae_init : ℕ → List ℕ → ℕ → ℕ → ℕ → Call
  ae_encrypt_final : ℕ → List ℕ → ℕ → ℕ → Call
  ae_decrypt_final : ℕ → List ℕ → ℕ → List ℕ → Call
  asymmetric_encrypt asymmetric_decrypt asymmetric_sign_digest : ℕ → List ℕ → List ℕ → ℕ → Call
  asymmetric_verify_digest : ℕ → List ℕ → List ℕ → List ℕ → Call
  derive_key : ℕ → List ℕ → ℕ → Call
  generate_random : ℕ → Call

pub record OperationInfo : Type 0 where
  pub key_size : ℕ
  pub max_key_size : ℕ

-- The status, the handle, the sizes and the bytes that a call writes.
pub record Reply : Type 0 where
  pub code : ℕ
  pub handle : ℕ
  pub size : ℕ
  pub tag_size : ℕ
  pub bytes : List ℕ
  pub info : OperationInfo

-- A null pointer, or a box with the handle in it.
pub data OperationHandle : Type 0 where
  null : OperationHandle
  boxed : ℕ → OperationHandle

-- `Drop for OperationHandle`: the box is dropped in either case.
unfoldable pub drop : OperationHandle → List Call → List Call
drop null h = box_free_null ∷ h
drop (boxed handle) h = box_free ∷ free_operation handle ∷ h

module _ (tee : List Call → Reply) where
  -- The box is left alone where the call fails.
  unfoldable pub allocate :
      AlgorithmId → OperationMode → ℕ → List Call → Result Error OperationHandle × List Call
  unfolding ask
  allocate algo mode max_key_size h =
      ask tee (λ r. r.code) (λ r. boxed r.handle)
        (allocate_operation (algorithm_code algo) (mode_code mode) (max_key_size % u32_mod))
        (box_new ∷ h)

  -- The methods, on the handle in the box: with a null pointer there is none to read.
  unfoldable pub info : ℕ → List Call → OperationInfo × List Call
  info op h = let h' = get_operation_info op ∷ h in ((tee h').info, h')

  -- The size that is passed is 0, whatever the buffer has room for.
  unfoldable pub info_multiple : ℕ → ℕ → List Call → Result Error ℕ × List Call
  unfolding ask
  info_multiple op buffer_len h =
      ask tee (λ r. r.code) (λ r. r.size) (get_operation_info_multiple op 0) h

  unfoldable pub reset : ℕ → List Call → List Call
  unfolding tell
  reset op h = tell tee (reset_operation op) h

  unfoldable pub set_key : ℕ → ℕ → List Call → Result Error (Unit {0}) × List Call
  unfolding ask
  set_key op object h = ask tee (λ r. r.code) (λ r. tt) (set_operation_key op object) h

  unfoldable pub copy : ℕ → ℕ → List Call → List Call
  unfolding tell
  copy op src h = tell tee (copy_operation op src) h

  unfoldable pub is_algorithm_supported : ℕ → ℕ → List Call → Result Error (Unit {0}) × List Call
  unfolding ask
  is_algorithm_supported alg_id element h =
      ask tee (λ r. r.code) (λ r. tt) (is_algorithm_supported_call alg_id element) h
