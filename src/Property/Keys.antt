-- ===== src/Property/Keys.antt =====
-- src/property.rs: the keys that `define_property_key` defines.
use optee_utee.Prelude.{ℕ, Bool, ◌==◌, if◌then◌else◌, Option, some, none, List, [], ◌∷◌}
use optee_utee.Error.{Error, Result, ok, err}
use optee_utee.Property.{
  PropertySet, set_as_raw, Identity, Call, Reply, get_string, get_binary_block, get_bool, get_u32,
  get_uuid, get_identity,
}
use Prim.Native.Char
use Prim.Native.String.{String}

pub data PropertyKey : Type 0 where
  ta_app_id ta_single_instance ta_multi_session ta_instance_keep_alive ta_data_size ta_stack_size
        ta_version ta_description ta_endian ta_does_not_close_handle_on_corrupt_object
        client_identity client_endian tee_api_version tee_internal_core_version tee_description
        tee_device_id tee_system_time_protection_level tee_ta_persistent_time_protection_level
        tee_arith_max_big_int_size tee_cryptography_ecc tee_cryptography_nist tee_cryptography_bsi_r
        tee_cryptography_bsi_t tee_cryptography_ietf tee_cryptography_octa
        tee_trusted_storage_private_rollback_protection
        tee_trusted_storage_perso_rollback_protection
        tee_trusted_storage_protected_rollback_protection
        tee_trusted_storage_anti_rollback_protection_level
        tee_trusted_storage_rollback_detection_protection_level
        tee_trusted_os_implementation_version tee_trusted_os_implementation_binary_version
        tee_trusted_os_manufacturer tee_firmware_implementation_version
        tee_firmware_implementation_binary_version tee_firmware_manufacturer tee_event_max_sources :
      PropertyKey

unfoldable pub set : PropertyKey → PropertySet
set PropertyKey.ta_app_id = PropertySet.current_ta
set PropertyKey.ta_single_instance = PropertySet.current_ta
set PropertyKey.ta_multi_session = PropertySet.current_ta
set PropertyKey.ta_instance_keep_alive = PropertySet.current_ta
set PropertyKey.ta_data_size = PropertySet.current_ta
set PropertyKey.ta_stack_size = PropertySet.current_ta
set PropertyKey.ta_version = PropertySet.current_ta
set PropertyKey.ta_description = PropertySet.current_ta
set PropertyKey.ta_endian = PropertySet.current_ta
set PropertyKey.ta_does_not_close_handle_on_corrupt_object = PropertySet.current_ta
set PropertyKey.client_identity = PropertySet.current_client
set PropertyKey.client_endian = PropertySet.current_client
set _ = PropertySet.tee_implementation

unfoldable pub literal : PropertyKey → String
literal PropertyKey.ta_app_id = "gpd.ta.appID"
literal PropertyKey.ta_single_instance = "gpd.ta.singleInstance"
literal PropertyKey.ta_multi_session = "gpd.ta.multiSession"
literal PropertyKey.ta_instance_keep_alive = "gpd.ta.instanceKeepAlive"
literal PropertyKey.ta_data_size = "gpd.ta.dataSize"
literal PropertyKey.ta_stack_size = "gpd.ta.stackSize"
literal PropertyKey.ta_version = "gpd.ta.version"
literal PropertyKey.ta_description = "gpd.ta.description"
literal PropertyKey.ta_endian = "gpd.ta.endian"
literal PropertyKey.ta_does_not_close_handle_on_corrupt_object =
    "gpd.ta.doesNotCloseHandleOnCorruptObject"
literal PropertyKey.client_identity = "gpd.client.identity"
literal PropertyKey.client_endian = "gpd.client.endian"
literal PropertyKey.tee_api_version = "gpd.tee.apiversion"
literal PropertyKey.tee_internal_core_version = "gpd.tee.internalCore.version"
literal PropertyKey.tee_description = "gpd.tee.description"
literal PropertyKey.tee_device_id = "gpd.tee.deviceID"
literal PropertyKey.tee_system_time_protection_level = "gpd.tee.systemTime.protectionLevel"
literal PropertyKey.tee_ta_persistent_time_protection_level =
    "gpd.tee.TAPersistentTime.protectionLevel"
literal PropertyKey.tee_arith_max_big_int_size = "gpd.tee.arith.maxBigIntSize"
literal PropertyKey.tee_cryptography_ecc = "gpd.tee.cryptography.ecc"
literal PropertyKey.tee_cryptography_nist = "gpd.tee.cryptography.nist"
literal PropertyKey.tee_cryptography_bsi_r = "gpd.tee.cryptography.bsi-r"
literal PropertyKey.tee_cryptography_bsi_t = "gpd.tee.cryptography.bsi-t"
literal PropertyKey.tee_cryptography_ietf = "gpd.tee.cryptography.ietf"
literal PropertyKey.tee_cryptography_octa = "gpd.tee.cryptography.octa"
literal PropertyKey.tee_trusted_storage_private_rollback_protection =
    "gpd.tee.trustedStorage.private.rollbackProtection"
literal PropertyKey.tee_trusted_storage_perso_rollback_protection =
    "gpd.tee.trustedStorage.perso.rollbackProtection"
literal PropertyKey.tee_trusted_storage_protected_rollback_protection =
    "gpd.tee.trustedStorage.protected.rollbackProtection"
literal PropertyKey.tee_trusted_storage_anti_rollback_protection_level =
    "gpd.tee.trustedStorage.antiRollback.protectionLevel"
literal PropertyKey.tee_trusted_storage_rollback_detection_protection_level =
    "gpd.tee.trustedStorage.rollbackDetection.protectionLevel"
literal PropertyKey.tee_trusted_os_implementation_version =
    "gpd.tee.trustedos.implementation.version"
literal PropertyKey.tee_trusted_os_implementation_binary_version =
    "gpd.tee.trustedos.implementation.binaryversion"
literal PropertyKey.tee_trusted_os_manufacturer = "gpd.tee.trustedos.manufacturer"
literal PropertyKey.tee_firmware_implementation_version = "gpd.tee.firmware.implementation.version"
literal PropertyKey.tee_firmware_implementation_binary_version =
    "gpd.tee.firmware.implementation.binaryversion"
literal PropertyKey.tee_firmware_manufacturer = "gpd.tee.firmware.manufacturer"
literal PropertyKey.tee_event_max_sources = "gpd.tee.event.maxSources"

pub data Output : Type 0 where
  string bool u32 uuid identity block : Output

unfoldable pub output : PropertyKey → Output
output PropertyKey.ta_app_id = Output.uuid
output PropertyKey.ta_single_instance = Output.bool
output PropertyKey.ta_multi_session = Output.bool
output PropertyKey.ta_instance_keep_alive = Output.bool
output PropertyKey.ta_data_size = Output.u32
output PropertyKey.ta_stack_size = Output.u32
output PropertyKey.ta_version = Output.string
output PropertyKey.ta_description = Output.string
output PropertyKey.ta_endian = Output.u32
output PropertyKey.ta_does_not_close_handle_on_corrupt_object = Output.bool
output PropertyKey.client_identity = Output.identity
output PropertyKey.client_endian = Output.u32
output PropertyKey.tee_api_version = Output.string
output PropertyKey.tee_internal_core_version = Output.u32
output PropertyKey.tee_description = Output.string
output PropertyKey.tee_device_id = Output.uuid
output PropertyKey.tee_system_time_protection_level = Output.u32
output PropertyKey.tee_ta_persistent_time_protection_level = Output.u32
output PropertyKey.tee_arith_max_big_int_size = Output.u32
output PropertyKey.tee_cryptography_ecc = Output.bool
output PropertyKey.tee_cryptography_nist = Output.bool
output PropertyKey.tee_cryptography_bsi_r = Output.bool
output PropertyKey.tee_cryptography_bsi_t = Output.bool
output PropertyKey.tee_cryptography_ietf = Output.bool
output PropertyKey.tee_cryptography_octa = Output.bool
output PropertyKey.tee_trusted_storage_private_rollback_protection = Output.u32
output PropertyKey.tee_trusted_storage_perso_rollback_protection = Output.u32
output PropertyKey.tee_trusted_storage_protected_rollback_protection = Output.u32
output PropertyKey.tee_trusted_storage_anti_rollback_protection_level = Output.u32
output PropertyKey.tee_trusted_storage_rollback_detection_protection_level = Output.u32
output PropertyKey.tee_trusted_os_implementation_version = Output.string
output PropertyKey.tee_trusted_os_implementation_binary_version = Output.block
output PropertyKey.tee_trusted_os_manufacturer = Output.string
output PropertyKey.tee_firmware_implementation_version = Output.string
output PropertyKey.tee_firmware_implementation_binary_version = Output.block
output PropertyKey.tee_firmware_manufacturer = Output.string
output PropertyKey.tee_event_max_sources = Output.u32

-- The bytes of a text of ASCII characters.
unfoldable pub bytes : String → List ℕ
bytes String.[] = []
bytes (String.◌∷◌ c s) = Char.code c ∷ bytes s

-- `CString::new`, which refuses a text with a NUL in it.
unfoldable pub cstring_new : List ℕ → Option (List ℕ)
cstring_new [] = some []
cstring_new (c ∷ cs) =
    let rest = cstring_new cs in
    if c == 0 then none else elim rest [ some s ↦ some (c ∷ s) | none ↦ none ]

unfoldable pub unwrap_or_default : Option (List ℕ) → List ℕ
unwrap_or_default (some s) = s
unwrap_or_default none = []

unfoldable pub key : PropertyKey → List ℕ
unfolding unwrap_or_default cstring_new bytes literal
key k = unwrap_or_default (cstring_new (bytes (literal k)))

-- A value of one of the types that the keys have.
pub data Value : Type 0 where
  of_string of_block : List ℕ → Value
  of_bool : Bool → Value
  of_u32 of_uuid : ℕ → Value
  of_identity : Identity → Value

abbrev pub as_value : {A : Type 0} → (A → Value) → Result Error A → Result Error Value
as_value f (ok a) = ok (f a)
as_value f (err e) = err e

module _ (lossy : List ℕ → List ℕ) (tee : List Call → Reply) where
  unfoldable pub get_by : Output → ℕ → List ℕ → List Call → Result Error Value × List Call
  get_by Output.string set key h =
      let (r, h') = get_string lossy tee set key h in (as_value of_string r, h')
  get_by Output.block set key h =
      let (r, h') = get_binary_block lossy tee set key h in (as_value of_block r, h')
  get_by Output.bool set key h =
      let (r, h') = get_bool lossy tee set key h in (as_value of_bool r, h')
  get_by Output.u32 set key h = let (r, h') = get_u32 lossy tee set key h in (as_value of_u32 r, h')
  get_by Output.uuid set key h =
      let (r, h') = get_uuid lossy tee set key h in (as_value of_uuid r, h')
  get_by Output.identity set key h =
      let (r, h') = get_identity lossy tee set key h in (as_value of_identity r, h')

  unfoldable pub get : PropertyKey → List Call → Result Error Value × List Call
  unfolding get_by
  get k h = get_by (output k) (set_as_raw (set k)) (key k) h
