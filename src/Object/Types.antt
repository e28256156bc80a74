-- ===== src/Object/Types.antt =====
-- src/object/object_define.rs, the enumerations of src/object/transient_object.rs and
-- src/object/attribute.rs, and their discriminants.
use optee_utee.Prelude.{ℕ, ◌^◌}

pub data Whence : Type 0 where
  data_seek_set data_seek_cur data_seek_end : Whence

-- `raw::TEE_Whence::from`, as the number of the C enumeration.
unfoldable pub whence_code : Whence → ℕ
whence_code data_seek_set = 0
whence_code data_seek_cur = 1
whence_code data_seek_end = 2

pub data ObjectStorageConstants : Type 0 where
  private illegal_value : ObjectStorageConstants

unfoldable pub storage_code : ObjectStorageConstants → ℕ
storage_code ObjectStorageConstants.private = 0x00000001
storage_code ObjectStorageConstants.illegal_value = 0x7FFFFFFF

pub data TransientObjectType : Type 0 where
  aes des des3 hmac_md5 hmac_sha1 hmac_sha224 hmac_sha256 hmac_sha384 hmac_sha512 rsa_public_key
        rsa_keypair dsa_public_key dsa_keypair dh_keypair ecdsa_public_key ecdsa_keypair
        ecdh_public_key ecdh_keypair ed25519public_key ed25519keypair x25519public_key x25519keypair
        generic_secret corrupted_object data_object :
      TransientObjectType

unfoldable pub type_code : TransientObjectType → ℕ
type_code TransientObjectType.aes = 0xA0000010
type_code TransientObjectType.des = 0xA0000011
type_code TransientObjectType.des3 = 0xA0000013
type_code TransientObjectType.hmac_md5 = 0xA0000001
type_code TransientObjectType.hmac_sha1 = 0xA0000002
type_code TransientObjectType.hmac_sha224 = 0xA0000003
type_code TransientObjectType.hmac_sha256 = 0xA0000004
type_code TransientObjectType.hmac_sha384 = 0xA0000005
type_code TransientObjectType.hmac_sha512 = 0xA0000006
type_code TransientObjectType.rsa_public_key = 0xA0000030
type_code TransientObjectType.rsa_keypair = 0xA1000030
type_code TransientObjectType.dsa_public_key = 0xA0000031
type_code TransientObjectType.dsa_keypair = 0xA1000031
type_code TransientObjectType.dh_keypair = 0xA1000032
type_code TransientObjectType.ecdsa_public_key = 0xA0000041
type_code TransientObjectType.ecdsa_keypair = 0xA1000041
type_code TransientObjectType.ecdh_public_key = 0xA0000042
type_code TransientObjectType.ecdh_keypair = 0xA1000042
type_code TransientObjectType.ed25519public_key = 0xA0000043
type_code TransientObjectType.ed25519keypair = 0xA1000043
type_code TransientObjectType.x25519public_key = 0xA0000044
type_code TransientObjectType.x25519keypair = 0xA1000044
type_code TransientObjectType.generic_secret = 0xA0000000
type_code TransientObjectType.corrupted_object = 0xA00000BE
type_code TransientObjectType.data_object = 0xA00000BF

pub data AttributeId : Type 0 where
  secret_value rsa_modulus rsa_public_exponent rsa_private_exponent rsa_prime1 rsa_prime2
        rsa_exponent1 rsa_exponent2 rsa_coefficient dsa_prime dsa_subprime dsa_base dsa_public_value
        dsa_private_value dh_prime dh_subprime dh_base dh_xbits dh_public_value dh_private_value
        rsa_oaep_label rsa_oaep_mgf1hash rsa_pss_salt_length ecc_public_value_x ecc_public_value_y
        ecc_private_value ed25519public_value ed25519private_value x25519public_value
        x25519private_value ecc_curve bit_protected bit_value :
      AttributeId

unfoldable pub attribute_code : AttributeId → ℕ
attribute_code AttributeId.secret_value = 0xC0000000
attribute_code AttributeId.rsa_modulus = 0xD0000130
attribute_code AttributeId.rsa_public_exponent = 0xD0000230
attribute_code AttributeId.rsa_private_exponent = 0xC0000330
attribute_code AttributeId.rsa_prime1 = 0xC0000430
attribute_code AttributeId.rsa_prime2 = 0xC0000530
attribute_code AttributeId.rsa_exponent1 = 0xC0000630
attribute_code AttributeId.rsa_exponent2 = 0xC0000730
attribute_code AttributeId.rsa_coefficient = 0xC0000830
attribute_code AttributeId.dsa_prime = 0xD0001031
attribute_code AttributeId.dsa_subprime = 0xD0001131
attribute_code AttributeId.dsa_base = 0xD0001231
attribute_code AttributeId.dsa_public_value = 0xD0000131
attribute_code AttributeId.dsa_private_value = 0xC0000231
attribute_code AttributeId.dh_prime = 0xD0001032
attribute_code AttributeId.dh_subprime = 0xD0001132
attribute_code AttributeId.dh_base = 0xD0001232
attribute_code AttributeId.dh_xbits = 0xF0001332
attribute_code AttributeId.dh_public_value = 0xD0000132
attribute_code AttributeId.dh_private_value = 0xC0000232
attribute_code AttributeId.rsa_oaep_label = 0xD0000930
attribute_code AttributeId.rsa_oaep_mgf1hash = 0xD0000931
attribute_code AttributeId.rsa_pss_salt_length = 0xF0000A30
attribute_code AttributeId.ecc_public_value_x = 0xD0000141
attribute_code AttributeId.ecc_public_value_y = 0xD0000241
attribute_code AttributeId.ecc_private_value = 0xC0000341
attribute_code AttributeId.ed25519public_value = 0xD0000743
attribute_code AttributeId.ed25519private_value = 0xC0000843
attribute_code AttributeId.x25519public_value = 0xD0000944
attribute_code AttributeId.x25519private_value = 0xC0000A44
attribute_code AttributeId.ecc_curve = 0xF0000441
attribute_code AttributeId.bit_protected = 2 ^ 28
attribute_code AttributeId.bit_value = 2 ^ 29
