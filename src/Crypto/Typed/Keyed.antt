-- ===== src/Crypto/Typed/Keyed.antt =====
-- src/crypto_op.rs: the methods that are passed on, of authenticated encryption, asymmetric operations and derived keys.
use optee_utee.Prelude.{ℕ, Option, none, some, List}
use optee_utee.Error.{Error, Result}
use optee_utee.Crypto.Types.{AlgorithmId, OperationMode}
use optee_utee.Crypto.{
  Reply, OperationHandle, OperationInfo, info, info_multiple, reset, set_key, copy, allocate,
}
use optee_utee.Crypto.Operations.{derive_allocate}
use optee_utee.Crypto.Typed.{handle, on_handle, around, Ae, Asymmetric, DeriveKey}
use optee_utee.Crypto

module _ (tee : List Crypto.Call → Reply) where
  unfoldable pub ae_allocated :
      AlgorithmId → OperationMode → ℕ → List Crypto.Call → Result Error Ae × List Crypto.Call
  unfolding allocate
  ae_allocated algo mode max_key_size h =
      around (λ op. record { op = op }) (allocate tee algo mode max_key_size h)

  unfoldable pub ae_info : Ae → List Crypto.Call → Option (OperationInfo × List Crypto.Call)
  unfolding info
  ae_info d h = on_handle d.op (λ op. info tee op h)

  unfoldable pub ae_info_multiple :
      Ae → ℕ → List Crypto.Call → Option (Result Error ℕ × List Crypto.Call)
  unfolding info_multiple
  ae_info_multiple d buffer_len h = on_handle d.op (λ op. info_multiple tee op buffer_len h)

  unfoldable pub ae_reset : Ae → List Crypto.Call → Option (List Crypto.Call)
  unfolding reset
  ae_reset d h = on_handle d.op (λ op. reset tee op h)

  unfoldable pub ae_set_key :
      Ae → ℕ → List Crypto.Call → Option (Result Error (Unit {0}) × List Crypto.Call)
  unfolding set_key
  ae_set_key d object h = on_handle d.op (λ op. set_key tee op object h)

  -- The source is the handle of any type.
  unfoldable pub ae_copy : Ae → OperationHandle → List Crypto.Call → Option (List Crypto.Call)
  unfolding copy
  ae_copy d src h = elim (handle src) [
    | none ↦ none
    | some from ↦ on_handle d.op (λ op. copy tee op from h)
  ]

  unfoldable pub asymmetric_allocated :
      AlgorithmId
      → OperationMode
      → ℕ
      → List Crypto.Call
      → Result Error Asymmetric × List Crypto.Call
  unfolding allocate
  asymmetric_allocated algo mode max_key_size h =
      around (λ op. record { op = op }) (allocate tee algo mode max_key_size h)

  unfoldable pub asymmetric_info :
      Asymmetric → List Crypto.Call → Option (OperationInfo × List Crypto.Call)
  unfolding info
  asymmetric_info d h = on_handle d.op (λ op. info tee op h)

  unfoldable pub asymmetric_info_multiple :
      Asymmetric → ℕ → List Crypto.Call → Option (Result Error ℕ × List Crypto.Call)
  unfolding info_multiple
  asymmetric_info_multiple d buffer_len h = on_handle d.op (λ op. info_multiple tee op buffer_len h)

  unfoldable pub asymmetric_set_key :
      Asymmetric → ℕ → List Crypto.Call → Option (Result Error (Unit {0}) × List Crypto.Call)
  unfolding set_key
  asymmetric_set_key d object h = on_handle d.op (λ op. set_key tee op object h)

  -- The source is the handle of any type.
  unfoldable pub asymmetric_copy :
      Asymmetric → OperationHandle → List Crypto.Call → Option (List Crypto.Call)
  unfolding copy
  asymmetric_copy d src h = elim (handle src) [
    | none ↦ none
    | some from ↦ on_handle d.op (λ op. copy tee op from h)
  ]

  unfoldable pub derive_key_allocated :
      AlgorithmId → ℕ → List Crypto.Call → Result Error DeriveKey × List Crypto.Call
  unfolding derive_allocate
  derive_key_allocated algo max_key_size h =
      around (λ op. record { op = op }) (derive_allocate tee algo max_key_size h)

  unfoldable pub derive_key_info :
      DeriveKey → List Crypto.Call → Option (OperationInfo × List Crypto.Call)
  unfolding info
  derive_key_info d h = on_handle d.op (λ op. info tee op h)

  unfoldable pub derive_key_info_multiple :
      DeriveKey → ℕ → List Crypto.Call → Option (Result Error ℕ × List Crypto.Call)
  unfolding info_multiple
  derive_key_info_multiple d buffer_len h = on_handle d.op (λ op. info_multiple tee op buffer_len h)

  unfoldable pub derive_key_set_key :
      DeriveKey → ℕ → List Crypto.Call → Option (Result Error (Unit {0}) × List Crypto.Call)
  unfolding set_key
  derive_key_set_key d object h = on_handle d.op (λ op. set_key tee op object h)

  -- The source is the handle of any type.
  unfoldable pub derive_key_copy :
      DeriveKey → OperationHandle → List Crypto.Call → Option (List Crypto.Call)
  unfolding copy
  derive_key_copy d src h = elim (handle src) [
    | none ↦ none
    | some from ↦ on_handle d.op (λ op. copy tee op from h)
  ]
