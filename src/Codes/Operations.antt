-- ===== src/Codes/Operations.antt =====
-- optee-utee-sys/src/tee_api_defines.rs: the modes, classes and states of operations, and the curves.
use optee_utee.Prelude.{ℕ}

pub data TeeMode : Type 0 where
  tee_mode_encrypt tee_mode_decrypt tee_mode_sign tee_mode_verify tee_mode_mac tee_mode_digest
        tee_mode_derive tee_mode_illegal_value :
      TeeMode

unfoldable pub mode_value : TeeMode → ℕ
mode_value TeeMode.tee_mode_encrypt = 0x00000000
mode_value TeeMode.tee_mode_decrypt = 0x00000001
mode_value TeeMode.tee_mode_sign = 0x00000002
mode_value TeeMode.tee_mode_verify = 0x00000003
mode_value TeeMode.tee_mode_mac = 0x00000004
mode_value TeeMode.tee_mode_digest = 0x00000005
mode_value TeeMode.tee_mode_derive = 0x00000006
mode_value TeeMode.tee_mode_illegal_value = 0x7FFFFFFF

pub data TeeOperation : Type 0 where
  tee_operation_cipher tee_operation_mac tee_operation_ae tee_operation_digest
        tee_operation_asymmetric_cipher tee_operation_asymmetric_signature
        tee_operation_key_derivation :
      TeeOperation

unfoldable pub operation_value : TeeOperation → ℕ
operation_value TeeOperation.tee_operation_cipher = 1
operation_value TeeOperation.tee_operation_mac = 3
operation_value TeeOperation.tee_operation_ae = 4
operation_value TeeOperation.tee_operation_digest = 5
operation_value TeeOperation.tee_operation_asymmetric_cipher = 6
operation_value TeeOperation.tee_operation_asymmetric_signature = 7
operation_value TeeOperation.tee_operation_key_derivation = 8

pub data TeeOperationState : Type 0 where
  tee_operation_state_initial tee_operation_state_active tee_operation_state_extracting :
      TeeOperationState

unfoldable pub operation_state_value : TeeOperationState → ℕ
operation_state_value TeeOperationState.tee_operation_state_initial = 0x00000000
operation_state_value TeeOperationState.tee_operation_state_active = 0x00000001
operation_state_value TeeOperationState.tee_operation_state_extracting = 0x00000002

pub data TeeElement : Type 0 where
  tee_crypto_element_none tee_ecc_curve_nist_p192 tee_ecc_curve_nist_p224 tee_ecc_curve_nist_p256
        tee_ecc_curve_nist_p384 tee_ecc_curve_nist_p521 tee_ecc_curve_sm2 :
      TeeElement

unfoldable pub element_value : TeeElement → ℕ
element_value TeeElement.tee_crypto_element_none = 0x00000000
element_value TeeElement.tee_ecc_curve_nist_p192 = 0x00000001
element_value TeeElement.tee_ecc_curve_nist_p224 = 0x00000002
element_value TeeElement.tee_ecc_curve_nist_p256 = 0x00000003
element_value TeeElement.tee_ecc_curve_nist_p384 = 0x00000004
element_value TeeElement.tee_ecc_curve_nist_p521 = 0x00000005
element_value TeeElement.tee_ecc_curve_sm2 = 0x00000300
