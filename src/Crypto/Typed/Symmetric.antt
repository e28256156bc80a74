-- ===== src/Crypto/Typed/Symmetric.antt =====
-- src/crypto_op.rs: the methods that are passed on, of digests, ciphers and codes of messages.
use optee_utee.Prelude.{ℕ, Option, none, some, List}
use optee_utee.Error.{Error, Result}
use optee_utee.Crypto.Types.{AlgorithmId, OperationMode}
use optee_utee.Crypto.{
  Reply, OperationHandle, OperationInfo, info, info_multiple, reset, set_key, copy, allocate,
}
use optee_utee.Crypto.Operations.{digest_allocate, mac_allocate}
use optee_utee.Crypto.Typed.{handle, on_handle, around, Digest, Cipher, Mac}
use optee_utee.Crypto

module _ (tee : List Crypto.Call → Reply) where
  unfoldable pub digest_allocated :
      AlgorithmId → List Crypto.Call → Result Error Digest × List Crypto.Call
  unfolding digest_allocate
  digest_allocated algo h = around (λ op. record { op = op }) (digest_allocate tee algo h)

  unfoldable pub digest_info : Digest → List Crypto.Call → Option (OperationInfo × List Crypto.Call)
  unfolding info
  digest_info d h = on_handle d.op (λ op. info tee op h)

  unfoldable pub digest_info_multiple :
      Digest → ℕ → List Crypto.Call → Option (Result Error ℕ × List Crypto.Call)
  unfolding info_multiple
  digest_info_multiple d buffer_len h = on_handle d.op (λ op. info_multiple tee op buffer_len h)

  unfoldable pub digest_reset : Digest → List Crypto.Call → Option (List Crypto.Call)
  unfolding reset
  digest_reset d h = on_handle d.op (λ op. reset tee op h)

  -- The source is the handle of any type.
  unfoldable pub digest_copy :
      Digest → OperationHandle → List Crypto.Call → Option (List Crypto.Call)
  unfolding copy
  digest_copy d src h = elim (handle src) [
    | none ↦ none
    | some from ↦ on_handle d.op (λ op. copy tee op from h)
  ]

  unfoldable pub cipher_allocated :
      AlgorithmId → OperationMode → ℕ → List Crypto.Call → Result Error Cipher × List Crypto.Call
  unfolding allocate
  cipher_allocated algo mode max_key_size h =
      around (λ op. record { op = op }) (allocate tee algo mode max_key_size h)

  unfoldable pub cipher_info : Cipher → List Crypto.Call → Option (OperationInfo × List Crypto.Call)
  unfolding info
  cipher_info d h = on_handle d.op (λ op. info tee op h)

  unfoldable pub cipher_info_multiple :
      Cipher → ℕ → List Crypto.Call → Option (Result Error ℕ × List Crypto.Call)
  unfolding info_multiple
  cipher_info_multiple d buffer_len h = on_handle d.op (λ op. info_multiple tee op buffer_len h)

  unfoldable pub cipher_set_key :
      Cipher → ℕ → List Crypto.Call → Option (Result Error (Unit {0}) × List Crypto.Call)
  unfolding set_key
  cipher_set_key d object h = on_handle d.op (λ op. set_key tee op object h)

  -- The source is the handle of any type.
  unfoldable pub cipher_copy :
      Cipher → OperationHandle → List Crypto.Call → Option (List Crypto.Call)
  unfolding copy
  cipher_copy d src h = elim (handle src) [
    | none ↦ none
    | some from ↦ on_handle d.op (λ op. copy tee op from h)
  ]

  unfoldable pub mac_allocated :
      AlgorithmId → ℕ → List Crypto.Call → Result Error Mac × List Crypto.Call
  unfolding mac_allocate
  mac_allocated algo max_key_size h =
      around (λ op. record { op = op }) (mac_allocate tee algo max_key_size h)

  unfoldable pub mac_info : Mac → List Crypto.Call → Option (OperationInfo × List Crypto.Call)
  unfolding info
  mac_info d h = on_handle d.op (λ op. info tee op h)

  unfoldable pub mac_info_multiple :
      Mac → ℕ → List Crypto.Call → Option (Result Error ℕ × List Crypto.Call)
  unfolding info_multiple
  mac_info_multiple d buffer_len h = on_handle d.op (λ op. info_multiple tee op buffer_len h)

  unfoldable pub mac_reset : Mac → List Crypto.Call → Option (List Crypto.Call)
  unfolding reset
  mac_reset d h = on_handle d.op (λ op. reset tee op h)

  unfoldable pub mac_set_key :
      Mac → ℕ → List Crypto.Call → Option (Result Error (Unit {0}) × List Crypto.Call)
  unfolding set_key
  mac_set_key d object h = on_handle d.op (λ op. set_key tee op object h)

  -- The source is the handle of any type.
  unfoldable pub mac_copy : Mac → OperationHandle → List Crypto.Call → Option (List Crypto.Call)
  unfolding copy
  mac_copy d src h = elim (handle src) [
    | none ↦ none
    | some from ↦ on_handle d.op (λ op. copy tee op from h)
  ]
