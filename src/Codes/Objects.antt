-- ===== src/Codes/Objects.antt =====
-- optee-utee-sys/src/tee_api_defines.rs: the object types and the attributes.
use optee_utee.Prelude.{ℕ, ◌^◌}

pub data TeeType : Type 0 where
  tee_type_aes tee_type_des tee_type_des3 tee_type_sm4 tee_type_hmac_md5 tee_type_hmac_sha1
        tee_type_hmac_sha224 tee_type_hmac_sha256 tee_type_hmac_sha384 tee_type_hmac_sha512
        tee_type_hmac_sm3 tee_type_rsa_public_key tee_type_rsa_keypair tee_type_dsa_public_key
        tee_type_dsa_keypair tee_type_dh_keypair tee_type_ecdsa_public_key tee_type_ecdsa_keypair
        tee_type_ecdh_public_key tee_type_ecdh_keypair tee_type_sm2_dsa_public_key
        tee_type_sm2_dsa_keypair tee_type_sm2_kep_public_key tee_type_sm2_kep_keypair
        tee_type_sm2_pke_public_key tee_type_sm2_pke_keypair tee_type_generic_secret
        tee_type_corrupted_object tee_type_data :
      TeeType

unfoldable pub type_value : TeeType → ℕ
type_value TeeType.tee_type_aes = 0xA0000010
type_value TeeType.tee_type_des = 0xA0000011
type_value TeeType.tee_type_des3 = 0xA0000013
type_value TeeType.tee_type_sm4 = 0xA0000014
type_value TeeType.tee_type_hmac_md5 = 0xA0000001
type_value TeeType.tee_type_hmac_sha1 = 0xA0000002
type_value TeeType.tee_type_hmac_sha224 = 0xA0000003
type_value TeeType.tee_type_hmac_sha256 = 0xA0000004
type_value TeeType.tee_type_hmac_sha384 = 0xA0000005
type_value TeeType.tee_type_hmac_sha512 = 0xA0000006
type_value TeeType.tee_type_hmac_sm3 = 0xA0000007
type_value TeeType.tee_type_rsa_public_key = 0xA0000030
type_value TeeType.tee_type_rsa_keypair = 0xA1000030
type_value TeeType.tee_type_dsa_public_key = 0xA0000031
type_value TeeType.tee_type_dsa_keypair = 0xA1000031
type_value TeeType.tee_type_dh_keypair = 0xA1000032
type_value TeeType.tee_type_ecdsa_public_key = 0xA0000041
type_value TeeType.tee_type_ecdsa_keypair = 0xA1000041
type_value TeeType.tee_type_ecdh_public_key = 0xA0000042
type_value TeeType.tee_type_ecdh_keypair = 0xA1000042
type_value TeeType.tee_type_sm2_dsa_public_key = 0xA0000045
type_value TeeType.tee_type_sm2_dsa_keypair = 0xA1000045
type_value TeeType.tee_type_sm2_kep_public_key = 0xA0000046
type_value TeeType.tee_type_sm2_kep_keypair = 0xA1000046
type_value TeeType.tee_type_sm2_pke_public_key = 0xA0000047
type_value TeeType.tee_type_sm2_pke_keypair = 0xA1000047
type_value TeeType.tee_type_generic_secret = 0xA0000000
type_value TeeType.tee_type_corrupted_object = 0xA00000BE
type_value TeeType.tee_type_data = 0xA00000BF

pub data TeeAttr : Type 0 where
  tee_attr_secret_value tee_attr_rsa_modulus tee_attr_rsa_public_exponent
        tee_attr_rsa_private_exponent tee_attr_rsa_prime1 tee_attr_rsa_prime2 tee_attr_rsa_exponent1
        tee_attr_rsa_exponent2 tee_attr_rsa_coefficient tee_attr_dsa_prime tee_attr_dsa_subprime
        tee_attr_dsa_base tee_attr_dsa_public_value tee_attr_dsa_private_value tee_attr_dh_prime
        tee_attr_dh_subprime tee_attr_dh_base tee_attr_dh_x_bits tee_attr_dh_public_value
        tee_attr_dh_private_value tee_attr_rsa_oaep_label tee_attr_rsa_pss_salt_length
        tee_attr_ecc_public_value_x tee_attr_ecc_public_value_y tee_attr_ecc_private_value
        tee_attr_ecc_curve tee_attr_sm2_id_initiator tee_attr_sm2_id_responder tee_attr_sm2_kep_user
        tee_attr_sm2_kep_confirmation_in tee_attr_sm2_kep_confirmation_out
        tee_attr_ecc_ephemeral_public_value_x tee_attr_ecc_ephemeral_public_value_y
        tee_attr_flag_public tee_attr_flag_value tee_attr_bit_protected tee_attr_bit_value :
      TeeAttr

unfoldable pub attr_value : TeeAttr → ℕ
attr_value TeeAttr.tee_attr_secret_value = 0xC0000000
attr_value TeeAttr.tee_attr_rsa_modulus = 0xD0000130
attr_value TeeAttr.tee_attr_rsa_public_exponent = 0xD0000230
attr_value TeeAttr.tee_attr_rsa_private_exponent = 0xC0000330
attr_value TeeAttr.tee_attr_rsa_prime1 = 0xC0000430
attr_value TeeAttr.tee_attr_rsa_prime2 = 0xC0000530
attr_value TeeAttr.tee_attr_rsa_exponent1 = 0xC0000630
attr_value TeeAttr.tee_attr_rsa_exponent2 = 0xC0000730
attr_value TeeAttr.tee_attr_rsa_coefficient = 0xC0000830
attr_value TeeAttr.tee_attr_dsa_prime = 0xD0001031
attr_value TeeAttr.tee_attr_dsa_subprime = 0xD0001131
attr_value TeeAttr.tee_attr_dsa_base = 0xD0001231
attr_value TeeAttr.tee_attr_dsa_public_value = 0xD0000131
attr_value TeeAttr.tee_attr_dsa_private_value = 0xC0000231
attr_value TeeAttr.tee_attr_dh_prime = 0xD0001032
attr_value TeeAttr.tee_attr_dh_subprime = 0xD0001132
attr_value TeeAttr.tee_attr_dh_base = 0xD0001232
attr_value TeeAttr.tee_attr_dh_x_bits = 0xF0001332
attr_value TeeAttr.tee_attr_dh_public_value = 0xD0000132
attr_value TeeAttr.tee_attr_dh_private_value = 0xC0000232
attr_value TeeAttr.tee_attr_rsa_oaep_label = 0xD0000930
attr_value TeeAttr.tee_attr_rsa_pss_salt_length = 0xF0000A30
attr_value TeeAttr.tee_attr_ecc_public_value_x = 0xD0000141
attr_value TeeAttr.tee_attr_ecc_public_value_y = 0xD0000241
attr_value TeeAttr.tee_attr_ecc_private_value = 0xC0000341
attr_value TeeAttr.tee_attr_ecc_curve = 0xF0000441
attr_value TeeAttr.tee_attr_sm2_id_initiator = 0xD0000446
attr_value TeeAttr.tee_attr_sm2_id_responder = 0xD0000546
attr_value TeeAttr.tee_attr_sm2_kep_user = 0xF0000646
attr_value TeeAttr.tee_attr_sm2_kep_confirmation_in = 0xD0000746
attr_value TeeAttr.tee_attr_sm2_kep_confirmation_out = 0xD0000846
attr_value TeeAttr.tee_attr_ecc_ephemeral_public_value_x = 0xD0000946
attr_value TeeAttr.tee_attr_ecc_ephemeral_public_value_y = 0xD0000A46
attr_value TeeAttr.tee_attr_flag_public = 2 ^ 28
attr_value TeeAttr.tee_attr_flag_value = 2 ^ 29
attr_value TeeAttr.tee_attr_bit_protected = 2 ^ 28
attr_value TeeAttr.tee_attr_bit_value = 2 ^ 29
