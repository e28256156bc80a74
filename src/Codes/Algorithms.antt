-- ===== src/Codes/Algorithms.antt =====
-- optee-utee-sys/src/tee_api_defines.rs: the algorithms.
use optee_utee.Prelude.{ℕ}

pub data TeeAlg : Type 0 where
  tee_alg_aes_ecb_nopad tee_alg_aes_cbc_nopad tee_alg_aes_ctr tee_alg_aes_cts tee_alg_aes_xts
        tee_alg_aes_cbc_mac_nopad tee_alg_aes_cbc_mac_pkcs5 tee_alg_aes_cmac tee_alg_aes_ccm
        tee_alg_aes_gcm tee_alg_des_ecb_nopad tee_alg_des_cbc_nopad tee_alg_des_cbc_mac_nopad
        tee_alg_des_cbc_mac_pkcs5 tee_alg_des3_ecb_nopad tee_alg_des3_cbc_nopad
        tee_alg_des3_cbc_mac_nopad tee_alg_des3_cbc_mac_pkcs5 tee_alg_sm4_ecb_nopad
        tee_alg_sm4_cbc_nopad tee_alg_sm4_ctr tee_alg_rsassa_pkcs1_v1_5_md5
        tee_alg_rsassa_pkcs1_v1_5_sha1 tee_alg_rsassa_pkcs1_v1_5_sha224
        tee_alg_rsassa_pkcs1_v1_5_sha256 tee_alg_rsassa_pkcs1_v1_5_sha384
        tee_alg_rsassa_pkcs1_v1_5_sha512 tee_alg_rsassa_pkcs1_v1_5_md5sha1
        tee_alg_rsassa_pkcs1_pss_mgf1_sha1 tee_alg_rsassa_pkcs1_pss_mgf1_sha224
        tee_alg_rsassa_pkcs1_pss_mgf1_sha256 tee_alg_rsassa_pkcs1_pss_mgf1_sha384
        tee_alg_rsassa_pkcs1_pss_mgf1_sha512 tee_alg_rsaes_pkcs1_v1_5
        tee_alg_rsaes_pkcs1_oaep_mgf1_sha1 tee_alg_rsaes_pkcs1_oaep_mgf1_sha224
        tee_alg_rsaes_pkcs1_oaep_mgf1_sha256 tee_alg_rsaes_pkcs1_oaep_mgf1_sha384
        tee_alg_rsaes_pkcs1_oaep_mgf1_sha512 tee_alg_rsa_nopad tee_alg_dsa_sha1 tee_alg_dsa_sha224
        tee_alg_dsa_sha256 tee_alg_sm2_dsa_sm3 tee_alg_dh_derive_shared_secret tee_alg_sm2_kep
        tee_alg_md5 tee_alg_sha1 tee_alg_sha224 tee_alg_sha256 tee_alg_sha384 tee_alg_sha512
        tee_alg_md5sha1 tee_alg_hmac_md5 tee_alg_hmac_sha1 tee_alg_hmac_sha224 tee_alg_hmac_sha256
        tee_alg_hmac_sha384 tee_alg_hmac_sha512 tee_alg_hmac_sm3 tee_alg_ecdsa_p192
        tee_alg_ecdsa_p224 tee_alg_ecdsa_p256 tee_alg_ecdsa_p384 tee_alg_ecdsa_p521
        tee_alg_ecdh_p192 tee_alg_ecdh_p224 tee_alg_ecdh_p256 tee_alg_ecdh_p384 tee_alg_ecdh_p521
        tee_alg_sm2_pke tee_alg_sm3 tee_alg_illegal_value :
      TeeAlg

unfoldable pub alg_value : TeeAlg → ℕ
alg_value TeeAlg.tee_alg_aes_ecb_nopad = 0x10000010
alg_value TeeAlg.tee_alg_aes_cbc_nopad = 0x10000110
alg_value TeeAlg.tee_alg_aes_ctr = 0x10000210
alg_value TeeAlg.tee_alg_aes_cts = 0x10000310
alg_value TeeAlg.tee_alg_aes_xts = 0x10000410
alg_value TeeAlg.tee_alg_aes_cbc_mac_nopad = 0x30000110
alg_value TeeAlg.tee_alg_aes_cbc_mac_pkcs5 = 0x30000510
alg_value TeeAlg.tee_alg_aes_cmac = 0x30000610
alg_value TeeAlg.tee_alg_aes_ccm = 0x40000710
alg_value TeeAlg.tee_alg_aes_gcm = 0x40000810
alg_value TeeAlg.tee_alg_des_ecb_nopad = 0x10000011
alg_value TeeAlg.tee_alg_des_cbc_nopad = 0x10000111
alg_value TeeAlg.tee_alg_des_cbc_mac_nopad = 0x30000111
alg_value TeeAlg.tee_alg_des_cbc_mac_pkcs5 = 0x30000511
alg_value TeeAlg.tee_alg_des3_ecb_nopad = 0x10000013
alg_value TeeAlg.tee_alg_des3_cbc_nopad = 0x10000113
alg_value TeeAlg.tee_alg_des3_cbc_mac_nopad = 0x30000113
alg_value TeeAlg.tee_alg_des3_cbc_mac_pkcs5 = 0x30000513
alg_value TeeAlg.tee_alg_sm4_ecb_nopad = 0x10000014
alg_value TeeAlg.tee_alg_sm4_cbc_nopad = 0x10000114
alg_value TeeAlg.tee_alg_sm4_ctr = 0x10000214
alg_value TeeAlg.tee_alg_rsassa_pkcs1_v1_5_md5 = 0x70001830
alg_value TeeAlg.tee_alg_rsassa_pkcs1_v1_5_sha1 = 0x70002830
alg_value TeeAlg.tee_alg_rsassa_pkcs1_v1_5_sha224 = 0x70003830
alg_value TeeAlg.tee_alg_rsassa_pkcs1_v1_5_sha256 = 0x70004830
alg_value TeeAlg.tee_alg_rsassa_pkcs1_v1_5_sha384 = 0x70005830
alg_value TeeAlg.tee_alg_rsassa_pkcs1_v1_5_sha512 = 0x70006830
alg_value TeeAlg.tee_alg_rsassa_pkcs1_v1_5_md5sha1 = 0x7000F830
alg_value TeeAlg.tee_alg_rsassa_pkcs1_pss_mgf1_sha1 = 0x70212930
alg_value TeeAlg.tee_alg_rsassa_pkcs1_pss_mgf1_sha224 = 0x70313930
alg_value TeeAlg.tee_alg_rsassa_pkcs1_pss_mgf1_sha256 = 0x70414930
alg_value TeeAlg.tee_alg_rsassa_pkcs1_pss_mgf1_sha384 = 0x70515930
alg_value TeeAlg.tee_alg_rsassa_pkcs1_pss_mgf1_sha512 = 0x70616930
alg_value TeeAlg.tee_alg_rsaes_pkcs1_v1_5 = 0x60000130
alg_value TeeAlg.tee_alg_rsaes_pkcs1_oaep_mgf1_sha1 = 0x60210230
alg_value TeeAlg.tee_alg_rsaes_pkcs1_oaep_mgf1_sha224 = 0x60310230
alg_value TeeAlg.tee_alg_rsaes_pkcs1_oaep_mgf1_sha256 = 0x60410230
alg_value TeeAlg.tee_alg_rsaes_pkcs1_oaep_mgf1_sha384 = 0x60510230
alg_value TeeAlg.tee_alg_rsaes_pkcs1_oaep_mgf1_sha512 = 0x60610230
alg_value TeeAlg.tee_alg_rsa_nopad = 0x60000030
alg_value TeeAlg.tee_alg_dsa_sha1 = 0x70002131
alg_value TeeAlg.tee_alg_dsa_sha224 = 0x70003131
alg_value TeeAlg.tee_alg_dsa_sha256 = 0x70004131
alg_value TeeAlg.tee_alg_sm2_dsa_sm3 = 0x70006045
alg_value TeeAlg.tee_alg_dh_derive_shared_secret = 0x80000032
alg_value TeeAlg.tee_alg_sm2_kep = 0x60000045
alg_value TeeAlg.tee_alg_md5 = 0x50000001
alg_value TeeAlg.tee_alg_sha1 = 0x50000002
alg_value TeeAlg.tee_alg_sha224 = 0x50000003
alg_value TeeAlg.tee_alg_sha256 = 0x50000004
alg_value TeeAlg.tee_alg_sha384 = 0x50000005
alg_value TeeAlg.tee_alg_sha512 = 0x50000006
alg_value TeeAlg.tee_alg_md5sha1 = 0x5000000F
alg_value TeeAlg.tee_alg_hmac_md5 = 0x30000001
alg_value TeeAlg.tee_alg_hmac_sha1 = 0x30000002
alg_value TeeAlg.tee_alg_hmac_sha224 = 0x30000003
alg_value TeeAlg.tee_alg_hmac_sha256 = 0x30000004
alg_value TeeAlg.tee_alg_hmac_sha384 = 0x30000005
alg_value TeeAlg.tee_alg_hmac_sha512 = 0x30000006
alg_value TeeAlg.tee_alg_hmac_sm3 = 0x30000007
alg_value TeeAlg.tee_alg_ecdsa_p192 = 0x70001041
alg_value TeeAlg.tee_alg_ecdsa_p224 = 0x70002041
alg_value TeeAlg.tee_alg_ecdsa_p256 = 0x70003041
alg_value TeeAlg.tee_alg_ecdsa_p384 = 0x70004041
alg_value TeeAlg.tee_alg_ecdsa_p521 = 0x70005041
alg_value TeeAlg.tee_alg_ecdh_p192 = 0x80001042
alg_value TeeAlg.tee_alg_ecdh_p224 = 0x80002042
alg_value TeeAlg.tee_alg_ecdh_p256 = 0x80003042
alg_value TeeAlg.tee_alg_ecdh_p384 = 0x80004042
alg_value TeeAlg.tee_alg_ecdh_p521 = 0x80005042
alg_value TeeAlg.tee_alg_sm2_pke = 0x80000045
alg_value TeeAlg.tee_alg_sm3 = 0x50000007
alg_value TeeAlg.tee_alg_illegal_value = 0xEFFFFFFF
