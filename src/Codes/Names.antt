-- ===== src/Codes/Names.antt =====
-- The crate's enumerations and the constants of optee-utee-sys/src/tee_api_defines.rs that have the
-- same names, where the constants have the enumeration's prefix.
use optee_utee.Prelude.{Option, none, some}
use optee_utee.Object.Types.{TransientObjectType, AttributeId, Whence, ObjectStorageConstants}
use optee_utee.Param.{ParamType}
use optee_utee.Property.{PropertySet}
use optee_utee.Codes.Parameters.{TeeParamType, TeePropset, TeeSeek, TeeStorage, TeeObjectLimit}
use optee_utee.Crypto.Types.{
  OperationMode, OperationStates, OperationConstant, AlgorithmId, ElementId,
}
use optee_utee.Object.Flags.{DataFlag, UsageFlag, HandleFlag, MiscellaneousConstants}
use optee_utee.Codes.Flags.{TeeDataFlag, TeeUsage, TeeHandleFlag}
use optee_utee.Codes.Objects.{TeeType, TeeAttr}
use optee_utee.Codes.Algorithms.{TeeAlg}
use optee_utee.Codes.Operations.{TeeMode, TeeOperation, TeeOperationState, TeeElement}

unfoldable pub type_name : TransientObjectType → Option TeeType
type_name TransientObjectType.aes = some TeeType.tee_type_aes
type_name TransientObjectType.des = some TeeType.tee_type_des
type_name TransientObjectType.des3 = some TeeType.tee_type_des3
type_name TransientObjectType.hmac_md5 = some TeeType.tee_type_hmac_md5
type_name TransientObjectType.hmac_sha1 = some TeeType.tee_type_hmac_sha1
type_name TransientObjectType.hmac_sha224 = some TeeType.tee_type_hmac_sha224
type_name TransientObjectType.hmac_sha256 = some TeeType.tee_type_hmac_sha256
type_name TransientObjectType.hmac_sha384 = some TeeType.tee_type_hmac_sha384
type_name TransientObjectType.hmac_sha512 = some TeeType.tee_type_hmac_sha512
type_name TransientObjectType.rsa_public_key = some TeeType.tee_type_rsa_public_key
type_name TransientObjectType.rsa_keypair = some TeeType.tee_type_rsa_keypair
type_name TransientObjectType.dsa_public_key = some TeeType.tee_type_dsa_public_key
type_name TransientObjectType.dsa_keypair = some TeeType.tee_type_dsa_keypair
type_name TransientObjectType.dh_keypair = some TeeType.tee_type_dh_keypair
type_name TransientObjectType.ecdsa_public_key = some TeeType.tee_type_ecdsa_public_key
type_name TransientObjectType.ecdsa_keypair = some TeeType.tee_type_ecdsa_keypair
type_name TransientObjectType.ecdh_public_key = some TeeType.tee_type_ecdh_public_key
type_name TransientObjectType.ecdh_keypair = some TeeType.tee_type_ecdh_keypair
type_name TransientObjectType.generic_secret = some TeeType.tee_type_generic_secret
type_name TransientObjectType.corrupted_object = some TeeType.tee_type_corrupted_object
type_name TransientObjectType.data_object = some TeeType.tee_type_data
type_name _ = none

unfoldable pub attribute_name : AttributeId → Option TeeAttr
attribute_name AttributeId.secret_value = some TeeAttr.tee_attr_secret_value
attribute_name AttributeId.rsa_modulus = some TeeAttr.tee_attr_rsa_modulus
attribute_name AttributeId.rsa_public_exponent = some TeeAttr.tee_attr_rsa_public_exponent
attribute_name AttributeId.rsa_private_exponent = some TeeAttr.tee_attr_rsa_private_exponent
attribute_name AttributeId.rsa_prime1 = some TeeAttr.tee_attr_rsa_prime1
attribute_name AttributeId.rsa_prime2 = some TeeAttr.tee_attr_rsa_prime2
attribute_name AttributeId.rsa_exponent1 = some TeeAttr.tee_attr_rsa_exponent1
attribute_name AttributeId.rsa_exponent2 = some TeeAttr.tee_attr_rsa_exponent2
attribute_name AttributeId.rsa_coefficient = some TeeAttr.tee_attr_rsa_coefficient
attribute_name AttributeId.dsa_prime = some TeeAttr.tee_attr_dsa_prime
attribute_name AttributeId.dsa_subprime = some TeeAttr.tee_attr_dsa_subprime
attribute_name AttributeId.dsa_base = some TeeAttr.tee_attr_dsa_base
attribute_name AttributeId.dsa_public_value = some TeeAttr.tee_attr_dsa_public_value
attribute_name AttributeId.dsa_private_value = some TeeAttr.tee_attr_dsa_private_value
attribute_name AttributeId.dh_prime = some TeeAttr.tee_attr_dh_prime
attribute_name AttributeId.dh_subprime = some TeeAttr.tee_attr_dh_subprime
attribute_name AttributeId.dh_base = some TeeAttr.tee_attr_dh_base
attribute_name AttributeId.dh_xbits = some TeeAttr.tee_attr_dh_x_bits
attribute_name AttributeId.dh_public_value = some TeeAttr.tee_attr_dh_public_value
attribute_name AttributeId.dh_private_value = some TeeAttr.tee_attr_dh_private_value
attribute_name AttributeId.rsa_oaep_label = some TeeAttr.tee_attr_rsa_oaep_label
attribute_name AttributeId.rsa_pss_salt_length = some TeeAttr.tee_attr_rsa_pss_salt_length
attribute_name AttributeId.ecc_public_value_x = some TeeAttr.tee_attr_ecc_public_value_x
attribute_name AttributeId.ecc_public_value_y = some TeeAttr.tee_attr_ecc_public_value_y
attribute_name AttributeId.ecc_private_value = some TeeAttr.tee_attr_ecc_private_value
attribute_name AttributeId.ecc_curve = some TeeAttr.tee_attr_ecc_curve
attribute_name AttributeId.bit_protected = some TeeAttr.tee_attr_bit_protected
attribute_name AttributeId.bit_value = some TeeAttr.tee_attr_bit_value
attribute_name _ = none

unfoldable pub algorithm_name : AlgorithmId → Option TeeAlg
algorithm_name AlgorithmId.aes_ecb_nopad = some TeeAlg.tee_alg_aes_ecb_nopad
algorithm_name AlgorithmId.aes_cbc_nopad = some TeeAlg.tee_alg_aes_cbc_nopad
algorithm_name AlgorithmId.aes_ctr = some TeeAlg.tee_alg_aes_ctr
algorithm_name AlgorithmId.aes_cts = some TeeAlg.tee_alg_aes_cts
algorithm_name AlgorithmId.aes_xts = some TeeAlg.tee_alg_aes_xts
algorithm_name AlgorithmId.aes_cbc_mac_nopad = some TeeAlg.tee_alg_aes_cbc_mac_nopad
algorithm_name AlgorithmId.aes_cbc_mac_pkcs5 = some TeeAlg.tee_alg_aes_cbc_mac_pkcs5
algorithm_name AlgorithmId.aes_cmac = some TeeAlg.tee_alg_aes_cmac
algorithm_name AlgorithmId.aes_ccm = some TeeAlg.tee_alg_aes_ccm
algorithm_name AlgorithmId.aes_gcm = some TeeAlg.tee_alg_aes_gcm
algorithm_name AlgorithmId.des_ecb_nopad = some TeeAlg.tee_alg_des_ecb_nopad
algorithm_name AlgorithmId.des_cbc_nopad = some TeeAlg.tee_alg_des_cbc_nopad
algorithm_name AlgorithmId.des_cbc_mac_nopad = some TeeAlg.tee_alg_des_cbc_mac_nopad
algorithm_name AlgorithmId.des_cbc_mac_pkcs5 = some TeeAlg.tee_alg_des_cbc_mac_pkcs5
algorithm_name AlgorithmId.des3_ecb_nopad = some TeeAlg.tee_alg_des3_ecb_nopad
algorithm_name AlgorithmId.des3_cbc_nopad = some TeeAlg.tee_alg_des3_cbc_nopad
algorithm_name AlgorithmId.des3_cbc_mac_nopad = some TeeAlg.tee_alg_des3_cbc_mac_nopad
algorithm_name AlgorithmId.des3_cbc_mac_pkcs5 = some TeeAlg.tee_alg_des3_cbc_mac_pkcs5
algorithm_name AlgorithmId.rsassa_pkcs1_v15_md5 = some TeeAlg.tee_alg_rsassa_pkcs1_v1_5_md5
algorithm_name AlgorithmId.rsassa_pkcs1_v15_sha1 = some TeeAlg.tee_alg_rsassa_pkcs1_v1_5_sha1
algorithm_name AlgorithmId.rsassa_pkcs1_v15_sha224 = some TeeAlg.tee_alg_rsassa_pkcs1_v1_5_sha224
algorithm_name AlgorithmId.rsassa_pkcs1_v15_sha256 = some TeeAlg.tee_alg_rsassa_pkcs1_v1_5_sha256
algorithm_name AlgorithmId.rsassa_pkcs1_v15_sha384 = some TeeAlg.tee_alg_rsassa_pkcs1_v1_5_sha384
algorithm_name AlgorithmId.rsassa_pkcs1_v15_sha512 = some TeeAlg.tee_alg_rsassa_pkcs1_v1_5_sha512
algorithm_name AlgorithmId.rsassa_pkcs1_v15_md5_sha1 = some TeeAlg.tee_alg_rsassa_pkcs1_v1_5_md5sha1
algorithm_name AlgorithmId.rsassa_pkcs1_pss_mgf1_sha1 =
    some TeeAlg.tee_alg_rsassa_pkcs1_pss_mgf1_sha1
algorithm_name AlgorithmId.rsassa_pkcs1_pss_mgf1_sha224 =
    some TeeAlg.tee_alg_rsassa_pkcs1_pss_mgf1_sha224
algorithm_name AlgorithmId.rsassa_pkcs1_pss_mgf1_sha256 =
    some TeeAlg.tee_alg_rsassa_pkcs1_pss_mgf1_sha256
algorithm_name AlgorithmId.rsassa_pkcs1_pss_mgf1_sha384 =
    some TeeAlg.tee_alg_rsassa_pkcs1_pss_mgf1_sha384
algorithm_name AlgorithmId.rsassa_pkcs1_pss_mgf1_sha512 =
    some TeeAlg.tee_alg_rsassa_pkcs1_pss_mgf1_sha512
algorithm_name AlgorithmId.rsaes_pkcs1_v15 = some TeeAlg.tee_alg_rsaes_pkcs1_v1_5
algorithm_name AlgorithmId.rsaes_pkcs1_o_aep_mgf1_sha1 =
    some TeeAlg.tee_alg_rsaes_pkcs1_oaep_mgf1_sha1
algorithm_name AlgorithmId.rsaes_pkcs1_o_aep_mgf1_sha224 =
    some TeeAlg.tee_alg_rsaes_pkcs1_oaep_mgf1_sha224
algorithm_name AlgorithmId.rsaes_pkcs1_o_aep_mgf1_sha256 =
    some TeeAlg.tee_alg_rsaes_pkcs1_oaep_mgf1_sha256
algorithm_name AlgorithmId.rsaes_pkcs1_o_aep_mgf1_sha384 =
    some TeeAlg.tee_alg_rsaes_pkcs1_oaep_mgf1_sha384
algorithm_name AlgorithmId.rsaes_pkcs1_o_aep_mgf1_sha512 =
    some TeeAlg.tee_alg_rsaes_pkcs1_oaep_mgf1_sha512
algorithm_name AlgorithmId.rsa_nopad = some TeeAlg.tee_alg_rsa_nopad
algorithm_name AlgorithmId.dsa_sha1 = some TeeAlg.tee_alg_dsa_sha1
algorithm_name AlgorithmId.dsa_sha224 = some TeeAlg.tee_alg_dsa_sha224
algorithm_name AlgorithmId.dsa_sha256 = some TeeAlg.tee_alg_dsa_sha256
algorithm_name AlgorithmId.dh_derive_shared_secret = some TeeAlg.tee_alg_dh_derive_shared_secret
algorithm_name AlgorithmId.md5 = some TeeAlg.tee_alg_md5
algorithm_name AlgorithmId.sha1 = some TeeAlg.tee_alg_sha1
algorithm_name AlgorithmId.sha224 = some TeeAlg.tee_alg_sha224
algorithm_name AlgorithmId.sha256 = some TeeAlg.tee_alg_sha256
algorithm_name AlgorithmId.sha384 = some TeeAlg.tee_alg_sha384
algorithm_name AlgorithmId.sha512 = some TeeAlg.tee_alg_sha512
algorithm_name AlgorithmId.md5_sha1 = some TeeAlg.tee_alg_md5sha1
algorithm_name AlgorithmId.hmac_md5 = some TeeAlg.tee_alg_hmac_md5
algorithm_name AlgorithmId.hmac_sha1 = some TeeAlg.tee_alg_hmac_sha1
algorithm_name AlgorithmId.hmac_sha224 = some TeeAlg.tee_alg_hmac_sha224
algorithm_name AlgorithmId.hmac_sha256 = some TeeAlg.tee_alg_hmac_sha256
algorithm_name AlgorithmId.hmac_sha384 = some TeeAlg.tee_alg_hmac_sha384
algorithm_name AlgorithmId.hmac_sha512 = some TeeAlg.tee_alg_hmac_sha512
algorithm_name AlgorithmId.illegal_value = some TeeAlg.tee_alg_illegal_value
algorithm_name _ = none

unfoldable pub mode_name : OperationMode → Option TeeMode
mode_name OperationMode.encrypt = some TeeMode.tee_mode_encrypt
mode_name OperationMode.decrypt = some TeeMode.tee_mode_decrypt
mode_name OperationMode.sign = some TeeMode.tee_mode_sign
mode_name OperationMode.verify = some TeeMode.tee_mode_verify
mode_name OperationMode.mac = some TeeMode.tee_mode_mac
mode_name OperationMode.digest = some TeeMode.tee_mode_digest
mode_name OperationMode.derive = some TeeMode.tee_mode_derive
mode_name OperationMode.illegal_value = some TeeMode.tee_mode_illegal_value

unfoldable pub operation_name : OperationConstant → Option TeeOperation
operation_name OperationConstant.cipher = some TeeOperation.tee_operation_cipher
operation_name OperationConstant.mac = some TeeOperation.tee_operation_mac
operation_name OperationConstant.ae = some TeeOperation.tee_operation_ae
operation_name OperationConstant.digest = some TeeOperation.tee_operation_digest
operation_name OperationConstant.asymmetric_cipher =
    some TeeOperation.tee_operation_asymmetric_cipher
operation_name OperationConstant.asymmetric_signature =
    some TeeOperation.tee_operation_asymmetric_signature
operation_name OperationConstant.key_derivation = some TeeOperation.tee_operation_key_derivation

unfoldable pub state_name : OperationStates → Option TeeOperationState
state_name OperationStates.initial = some TeeOperationState.tee_operation_state_initial
state_name OperationStates.active = some TeeOperationState.tee_operation_state_active

unfoldable pub element_name : ElementId → Option TeeElement
element_name ElementId.ecc_curve_nist_p192 = some TeeElement.tee_ecc_curve_nist_p192
element_name ElementId.ecc_curve_nist_p224 = some TeeElement.tee_ecc_curve_nist_p224
element_name ElementId.ecc_curve_nist_p256 = some TeeElement.tee_ecc_curve_nist_p256
element_name ElementId.ecc_curve_nist_p384 = some TeeElement.tee_ecc_curve_nist_p384
element_name ElementId.ecc_curve_nist_p521 = some TeeElement.tee_ecc_curve_nist_p521
element_name _ = none

unfoldable pub data_flag_name : DataFlag → TeeDataFlag
data_flag_name DataFlag.access_read = TeeDataFlag.tee_data_flag_access_read
data_flag_name DataFlag.access_write = TeeDataFlag.tee_data_flag_access_write
data_flag_name DataFlag.access_write_meta = TeeDataFlag.tee_data_flag_access_write_meta
data_flag_name DataFlag.share_read = TeeDataFlag.tee_data_flag_share_read
data_flag_name DataFlag.share_write = TeeDataFlag.tee_data_flag_share_write
data_flag_name DataFlag.overwrite = TeeDataFlag.tee_data_flag_overwrite

unfoldable pub usage_name : UsageFlag → TeeUsage
usage_name UsageFlag.extractable = TeeUsage.tee_usage_extractable
usage_name UsageFlag.encrypt = TeeUsage.tee_usage_encrypt
usage_name UsageFlag.decrypt = TeeUsage.tee_usage_decrypt
usage_name UsageFlag.mac = TeeUsage.tee_usage_mac
usage_name UsageFlag.sign = TeeUsage.tee_usage_sign
usage_name UsageFlag.verify = TeeUsage.tee_usage_verify
usage_name UsageFlag.derive = TeeUsage.tee_usage_derive

unfoldable pub handle_flag_name : HandleFlag → TeeHandleFlag
handle_flag_name HandleFlag.persistent = TeeHandleFlag.tee_handle_flag_persistent
handle_flag_name HandleFlag.initialized = TeeHandleFlag.tee_handle_flag_initialized
handle_flag_name HandleFlag.key_set = TeeHandleFlag.tee_handle_flag_key_set
handle_flag_name HandleFlag.expect_two_keys = TeeHandleFlag.tee_handle_flag_expect_two_keys

unfoldable pub param_type_name : ParamType → TeeParamType
param_type_name ParamType.none = TeeParamType.tee_param_type_none
param_type_name ParamType.value_input = TeeParamType.tee_param_type_value_input
param_type_name ParamType.value_output = TeeParamType.tee_param_type_value_output
param_type_name ParamType.value_inout = TeeParamType.tee_param_type_value_inout
param_type_name ParamType.memref_input = TeeParamType.tee_param_type_memref_input
param_type_name ParamType.memref_output = TeeParamType.tee_param_type_memref_output
param_type_name ParamType.memref_inout = TeeParamType.tee_param_type_memref_inout

unfoldable pub propset_name : PropertySet → TeePropset
propset_name PropertySet.tee_implementation = TeePropset.tee_propset_tee_implementation
propset_name PropertySet.current_client = TeePropset.tee_propset_current_client
propset_name PropertySet.current_ta = TeePropset.tee_propset_current_ta

unfoldable pub seek_name : Whence → TeeSeek
seek_name Whence.data_seek_set = TeeSeek.tee_data_seek_set
seek_name Whence.data_seek_cur = TeeSeek.tee_data_seek_cur
seek_name Whence.data_seek_end = TeeSeek.tee_data_seek_end

unfoldable pub storage_name : ObjectStorageConstants → Option TeeStorage
storage_name ObjectStorageConstants.private = some TeeStorage.tee_storage_private
storage_name ObjectStorageConstants.illegal_value = none

unfoldable pub object_limit_name : MiscellaneousConstants → TeeObjectLimit
object_limit_name MiscellaneousConstants.tee_data_max_position =
    TeeObjectLimit.tee_data_max_position
object_limit_name MiscellaneousConstants.tee_object_id_max_len =
    TeeObjectLimit.tee_object_id_max_len
