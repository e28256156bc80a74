-- ===== src/Crypto/Types.antt =====
-- src/crypto_op.rs: the enumerations, and their discriminants.
use optee_utee.Prelude.{ℕ}

pub data OperationMode : Type 0 where
  encrypt decrypt sign verify mac digest derive illegal_value : OperationMode

unfoldable pub mode_code : OperationMode → ℕ
mode_code OperationMode.encrypt = 0
mode_code OperationMode.decrypt = 1
mode_code OperationMode.sign = 2
mode_code OperationMode.verify = 3
mode_code OperationMode.mac = 4
mode_code OperationMode.digest = 5
mode_code OperationMode.derive = 6
mode_code OperationMode.illegal_value = 0x7FFFFFFF

pub data OperationStates : Type 0 where
  initial active : OperationStates

unfoldable pub state_code : OperationStates → ℕ
state_code OperationStates.initial = 0x00000000
state_code OperationStates.active = 0x00000001

pub data OperationConstant : Type 0 where
  cipher mac ae digest asymmetric_cipher asymmetric_signature key_derivation : OperationConstant

unfoldable pub constant_code : OperationConstant → ℕ
constant_code OperationConstant.cipher = 1
constant_code OperationConstant.mac = 3
constant_code OperationConstant.ae = 4
constant_code OperationConstant.digest = 5
constant_code OperationConstant.asymmetric_cipher = 6
constant_code OperationConstant.asymmetric_signature = 7
constant_code OperationConstant.key_derivation = 8

pub data AlgorithmId : Type 0 where
  aes_ecb_nopad aes_cbc_nopad aes_ctr aes_cts aes_xts aes_cbc_mac_nopad aes_cbc_mac_pkcs5 aes_cmac
        aes_ccm aes_gcm des_ecb_nopad des_cbc_nopad des_cbc_mac_nopad des_cbc_mac_pkcs5
        des3_ecb_nopad des3_cbc_nopad des3_cbc_mac_nopad des3_cbc_mac_pkcs5 rsassa_pkcs1_v15
        rsassa_pkcs1_v15_md5 rsassa_pkcs1_v15_sha1 rsassa_pkcs1_v15_sha224 rsassa_pkcs1_v15_sha256
        rsassa_pkcs1_v15_sha384 rsassa_pkcs1_v15_sha512 rsassa_pkcs1_v15_md5_sha1
        rsassa_pkcs1_pss_mgf1_md5 rsassa_pkcs1_pss_mgf1_sha1 rsassa_pkcs1_pss_mgf1_sha224
        rsassa_pkcs1_pss_mgf1_sha256 rsassa_pkcs1_pss_mgf1_sha384 rsassa_pkcs1_pss_mgf1_sha512
        rsaes_pkcs1_v15 rsaes_pkcs1_o_aep_mgf1_md5 rsaes_pkcs1_o_aep_mgf1_sha1
        rsaes_pkcs1_o_aep_mgf1_sha224 rsaes_pkcs1_o_aep_mgf1_sha256 rsaes_pkcs1_o_aep_mgf1_sha384
        rsaes_pkcs1_o_aep_mgf1_sha512 rsa_nopad dsa_sha1 dsa_sha224 dsa_sha256
        dh_derive_shared_secret ec_dh_derive_shared_secret ec_dsa_sha1 ec_dsa_sha224 ec_dsa_sha256
        ec_dsa_sha384 ec_dsa_sha512 ed25519 x25519 md5 sha1 sha224 sha256 sha384 sha512 md5_sha1
        hmac_md5 hmac_sha1 hmac_sha224 hmac_sha256 hmac_sha384 hmac_sha512 illegal_value :
      AlgorithmId

unfoldable pub algorithm_code : AlgorithmId → ℕ
algorithm_code AlgorithmId.aes_ecb_nopad = 0x10000010
algorithm_code AlgorithmId.aes_cbc_nopad = 0x10000110
algorithm_code AlgorithmId.aes_ctr = 0x10000210
algorithm_code AlgorithmId.aes_cts = 0x10000310
algorithm_code AlgorithmId.aes_xts = 0x10000410
algorithm_code AlgorithmId.aes_cbc_mac_nopad = 0x30000110
algorithm_code AlgorithmId.aes_cbc_mac_pkcs5 = 0x30000510
algorithm_code AlgorithmId.aes_cmac = 0x30000610
algorithm_code AlgorithmId.aes_ccm = 0x40000710
algorithm_code AlgorithmId.aes_gcm = 0x40000810
algorithm_code AlgorithmId.des_ecb_nopad = 0x10000011
algorithm_code AlgorithmId.des_cbc_nopad = 0x10000111
algorithm_code AlgorithmId.des_cbc_mac_nopad = 0x30000111
algorithm_code AlgorithmId.des_cbc_mac_pkcs5 = 0x30000511
algorithm_code AlgorithmId.des3_ecb_nopad = 0x10000013
algorithm_code AlgorithmId.des3_cbc_nopad = 0x10000113
algorithm_code AlgorithmId.des3_cbc_mac_nopad = 0x30000113
algorithm_code AlgorithmId.des3_cbc_mac_pkcs5 = 0x30000513
algorithm_code AlgorithmId.rsassa_pkcs1_v15 = 0xF0000830
algorithm_code AlgorithmId.rsassa_pkcs1_v15_md5 = 0x70001830
algorithm_code AlgorithmId.rsassa_pkcs1_v15_sha1 = 0x70002830
algorithm_code AlgorithmId.rsassa_pkcs1_v15_sha224 = 0x70003830
algorithm_code AlgorithmId.rsassa_pkcs1_v15_sha256 = 0x70004830
algorithm_code AlgorithmId.rsassa_pkcs1_v15_sha384 = 0x70005830
algorithm_code AlgorithmId.rsassa_pkcs1_v15_sha512 = 0x70006830
algorithm_code AlgorithmId.rsassa_pkcs1_v15_md5_sha1 = 0x7000F830
algorithm_code AlgorithmId.rsassa_pkcs1_pss_mgf1_md5 = 0xF0111930
algorithm_code AlgorithmId.rsassa_pkcs1_pss_mgf1_sha1 = 0x70212930
algorithm_code AlgorithmId.rsassa_pkcs1_pss_mgf1_sha224 = 0x70313930
algorithm_code AlgorithmId.rsassa_pkcs1_pss_mgf1_sha256 = 0x70414930
algorithm_code AlgorithmId.rsassa_pkcs1_pss_mgf1_sha384 = 0x70515930
algorithm_code AlgorithmId.rsassa_pkcs1_pss_mgf1_sha512 = 0x70616930
algorithm_code AlgorithmId.rsaes_pkcs1_v15 = 0x60000130
algorithm_code AlgorithmId.rsaes_pkcs1_o_aep_mgf1_md5 = 0xF0110230
algorithm_code AlgorithmId.rsaes_pkcs1_o_aep_mgf1_sha1 = 0x60210230
algorithm_code AlgorithmId.rsaes_pkcs1_o_aep_mgf1_sha224 = 0x60310230
algorithm_code AlgorithmId.rsaes_pkcs1_o_aep_mgf1_sha256 = 0x60410230
algorithm_code AlgorithmId.rsaes_pkcs1_o_aep_mgf1_sha384 = 0x60510230
algorithm_code AlgorithmId.rsaes_pkcs1_o_aep_mgf1_sha512 = 0x60610230
algorithm_code AlgorithmId.rsa_nopad = 0x60000030
algorithm_code AlgorithmId.dsa_sha1 = 0x70002131
algorithm_code AlgorithmId.dsa_sha224 = 0x70003131
algorithm_code AlgorithmId.dsa_sha256 = 0x70004131
algorithm_code AlgorithmId.dh_derive_shared_secret = 0x80000032
algorithm_code AlgorithmId.ec_dh_derive_shared_secret = 0x80000042
algorithm_code AlgorithmId.ec_dsa_sha1 = 0x70001042
algorithm_code AlgorithmId.ec_dsa_sha224 = 0x70002042
algorithm_code AlgorithmId.ec_dsa_sha256 = 0x70003042
algorithm_code AlgorithmId.ec_dsa_sha384 = 0x70004042
algorithm_code AlgorithmId.ec_dsa_sha512 = 0x70005042
algorithm_code AlgorithmId.ed25519 = 0x70006043
algorithm_code AlgorithmId.x25519 = 0x80000044
algorithm_code AlgorithmId.md5 = 0x50000001
algorithm_code AlgorithmId.sha1 = 0x50000002
algorithm_code AlgorithmId.sha224 = 0x50000003
algorithm_code AlgorithmId.sha256 = 0x50000004
algorithm_code AlgorithmId.sha384 = 0x50000005
algorithm_code AlgorithmId.sha512 = 0x50000006
algorithm_code AlgorithmId.md5_sha1 = 0x5000000F
algorithm_code AlgorithmId.hmac_md5 = 0x30000001
algorithm_code AlgorithmId.hmac_sha1 = 0x30000002
algorithm_code AlgorithmId.hmac_sha224 = 0x30000003
algorithm_code AlgorithmId.hmac_sha256 = 0x30000004
algorithm_code AlgorithmId.hmac_sha384 = 0x30000005
algorithm_code AlgorithmId.hmac_sha512 = 0x30000006
algorithm_code AlgorithmId.illegal_value = 0xEFFFFFFF

pub data ElementId : Type 0 where
  element_none ecc_curve_nist_p192 ecc_curve_nist_p224 ecc_curve_nist_p256 ecc_curve_nist_p384
        ecc_curve_nist_p521 ecc_curve25519 :
      ElementId

unfoldable pub element_code : ElementId → ℕ
element_code ElementId.element_none = 0x00000000
element_code ElementId.ecc_curve_nist_p192 = 0x00000001
element_code ElementId.ecc_curve_nist_p224 = 0x00000002
element_code ElementId.ecc_curve_nist_p256 = 0x00000003
element_code ElementId.ecc_curve_nist_p384 = 0x00000004
element_code ElementId.ecc_curve_nist_p521 = 0x00000005
element_code ElementId.ecc_curve25519 = 0x00000300
