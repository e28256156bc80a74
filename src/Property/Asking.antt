-- ===== src/Property/Asking.antt =====
-- src/property.rs: what a property key asks the system for.
use optee_utee.Prelude.{
  ℕ, ◌≡◌, refl, ◌⊎◌, inl, inr, ◌==◌, Bool-cases, if◌then◌else◌, Bool, true, false, ◌&&◌, Option,
  some, none, List, [], ◌∷◌,
}
use Prim.Native.String.{String}
use optee_utee.Codes.{tee_success, tee_error_short_buffer}
use optee_utee.Property.{
  PropertySet, set_as_raw, Call, Reply, get_property_as_string, get_property_as_binary_block,
  get_property_as_bool, get_property_as_u32, get_property_as_u64, get_property_as_uuid,
  get_property_as_identity, get_string, get_binary_block, get_bool, get_u32, get_uuid, get_identity,
}
use optee_utee.Property.Keys.{PropertyKey, Output, set, key, literal, output, bytes, get, get_by}

-- The prefix that GlobalPlatform gives the names of the properties of a set.
abbrev pub prefix_of : PropertySet → String
prefix_of PropertySet.tee_implementation = "gpd.tee."
prefix_of PropertySet.current_client = "gpd.client."
prefix_of PropertySet.current_ta = "gpd.ta."

unfoldable pub starts_with : List ℕ → List ℕ → Bool
starts_with [] s = true
starts_with (c ∷ cs) [] = false
starts_with (c ∷ cs) (d ∷ s) = (c == d) && starts_with cs s

unfoldable pub same_bytes : List ℕ → List ℕ → Bool
same_bytes [] [] = true
same_bytes (c ∷ cs) (d ∷ ds) = (c == d) && same_bytes cs ds
same_bytes _ _ = false

unfoldable pub find_key : List PropertyKey → List ℕ → Option PropertyKey
find_key [] s = none
find_key (k ∷ ks) s =
    let rest = find_key ks s in if same_bytes (bytes (literal k)) s then some k else rest

abbrev all_keys : List PropertyKey
all_keys =
    PropertyKey.ta_app_id ∷ PropertyKey.ta_single_instance ∷ PropertyKey.ta_multi_session
    ∷ PropertyKey.ta_instance_keep_alive ∷ PropertyKey.ta_data_size ∷ PropertyKey.ta_stack_size
    ∷ PropertyKey.ta_version ∷ PropertyKey.ta_description ∷ PropertyKey.ta_endian
    ∷ PropertyKey.ta_does_not_close_handle_on_corrupt_object ∷ PropertyKey.client_identity
    ∷ PropertyKey.client_endian ∷ PropertyKey.tee_api_version
    ∷ PropertyKey.tee_internal_core_version ∷ PropertyKey.tee_description
    ∷ PropertyKey.tee_device_id ∷ PropertyKey.tee_system_time_protection_level
    ∷ PropertyKey.tee_ta_persistent_time_protection_level ∷ PropertyKey.tee_arith_max_big_int_size
    ∷ PropertyKey.tee_cryptography_ecc ∷ PropertyKey.tee_cryptography_nist
    ∷ PropertyKey.tee_cryptography_bsi_r ∷ PropertyKey.tee_cryptography_bsi_t
    ∷ PropertyKey.tee_cryptography_ietf ∷ PropertyKey.tee_cryptography_octa
    ∷ PropertyKey.tee_trusted_storage_private_rollback_protection
    ∷ PropertyKey.tee_trusted_storage_perso_rollback_protection
    ∷ PropertyKey.tee_trusted_storage_protected_rollback_protection
    ∷ PropertyKey.tee_trusted_storage_anti_rollback_protection_level
    ∷ PropertyKey.tee_trusted_storage_rollback_detection_protection_level
    ∷ PropertyKey.tee_trusted_os_implementation_version
    ∷ PropertyKey.tee_trusted_os_implementation_binary_version
    ∷ PropertyKey.tee_trusted_os_manufacturer ∷ PropertyKey.tee_firmware_implementation_version
    ∷ PropertyKey.tee_firmware_implementation_binary_version ∷ PropertyKey.tee_firmware_manufacturer
    ∷ PropertyKey.tee_event_max_sources ∷ []

-- The key with this name.
unfoldable pub from_key : List ℕ → Option PropertyKey
unfolding find_key same_bytes bytes literal
from_key s = find_key all_keys s

pub key-literal :
    (k : PropertyKey)
    → (key k ≡ bytes (literal k))
      × (from_key (bytes (literal k)) ≡ some k)
      × (starts_with (bytes (prefix_of (set k))) (bytes (literal k)) ≡ true)
unfolding from_key starts_with set key
key-literal PropertyKey.ta_app_id = (refl, refl, refl)
key-literal PropertyKey.ta_single_instance = (refl, refl, refl)
key-literal PropertyKey.ta_multi_session = (refl, refl, refl)
key-literal PropertyKey.ta_instance_keep_alive = (refl, refl, refl)
key-literal PropertyKey.ta_data_size = (refl, refl, refl)
key-literal PropertyKey.ta_stack_size = (refl, refl, refl)
key-literal PropertyKey.ta_version = (refl, refl, refl)
key-literal PropertyKey.ta_description = (refl, refl, refl)
key-literal PropertyKey.ta_endian = (refl, refl, refl)
key-literal PropertyKey.ta_does_not_close_handle_on_corrupt_object = (refl, refl, refl)
key-literal PropertyKey.client_identity = (refl, refl, refl)
key-literal PropertyKey.client_endian = (refl, refl, refl)
key-literal PropertyKey.tee_api_version = (refl, refl, refl)
key-literal PropertyKey.tee_internal_core_version = (refl, refl, refl)
key-literal PropertyKey.tee_description = (refl, refl, refl)
key-literal PropertyKey.tee_device_id = (refl, refl, refl)
key-literal PropertyKey.tee_system_time_protection_level = (refl, refl, refl)
key-literal PropertyKey.tee_ta_persistent_time_protection_level = (refl, refl, refl)
key-literal PropertyKey.tee_arith_max_big_int_size = (refl, refl, refl)
key-literal PropertyKey.tee_cryptography_ecc = (refl, refl, refl)
key-literal PropertyKey.tee_cryptography_nist = (refl, refl, refl)
key-literal PropertyKey.tee_cryptography_bsi_r = (refl, refl, refl)
key-literal PropertyKey.tee_cryptography_bsi_t = (refl, refl, refl)
key-literal PropertyKey.tee_cryptography_ietf = (refl, refl, refl)
key-literal PropertyKey.tee_cryptography_octa = (refl, refl, refl)
key-literal PropertyKey.tee_trusted_storage_private_rollback_protection = (refl, refl, refl)
key-literal PropertyKey.tee_trusted_storage_perso_rollback_protection = (refl, refl, refl)
key-literal PropertyKey.tee_trusted_storage_protected_rollback_protection = (refl, refl, refl)
key-literal PropertyKey.tee_trusted_storage_anti_rollback_protection_level = (refl, refl, refl)
key-literal PropertyKey.tee_trusted_storage_rollback_detection_protection_level = (refl, refl, refl)
key-literal PropertyKey.tee_trusted_os_implementation_version = (refl, refl, refl)
key-literal PropertyKey.tee_trusted_os_implementation_binary_version = (refl, refl, refl)
key-literal PropertyKey.tee_trusted_os_manufacturer = (refl, refl, refl)
key-literal PropertyKey.tee_firmware_implementation_version = (refl, refl, refl)
key-literal PropertyKey.tee_firmware_implementation_binary_version = (refl, refl, refl)
key-literal PropertyKey.tee_firmware_manufacturer = (refl, refl, refl)
key-literal PropertyKey.tee_event_max_sources = (refl, refl, refl)

-- The property set and the name that a call is about.
abbrev pub subject : Call → ℕ × List ℕ
subject (get_property_as_string set key room) = (set, key)
subject (get_property_as_binary_block set key room) = (set, key)
subject (get_property_as_bool set key) = (set, key)
subject (get_property_as_u32 set key) = (set, key)
subject (get_property_as_u64 set key) = (set, key)
subject (get_property_as_uuid set key) = (set, key)
subject (get_property_as_identity set key) = (set, key)

-- One call or two, about one property.
abbrev pub Asks : ℕ → List ℕ → List Call → List Call → Type 0
Asks handle name h h' =
    ((c : Call) × ((h' ≡ c ∷ h) × (subject c ≡ (handle, name))))
    ⊎ ((c : Call) × ((d : Call) × ((h' ≡ d ∷ c ∷ h)
            × (subject c ≡ (handle, name))
            × (subject d ≡ (handle, name)))))

module _ (lossy : List ℕ → List ℕ) (tee : List Call → Reply) where
  get_by-Asks :
      (o : Output) (handle : ℕ) (name : List ℕ) (h : List Call)
      → Asks handle name h (get_by lossy tee o handle name h).1
  unfolding get_by get_string get_binary_block get_bool get_u32 get_uuid get_identity
      optee_utee.Ffi.ask
  get_by-Asks Output.string handle name h =
      let first = get_property_as_string handle name 0 in
      let second = get_property_as_string handle name (tee (first ∷ h)).out_size in
      elim (Bool-cases ((tee (first ∷ h)).code == tee_success)) [
        | inl e ↦ rw e (inl (first, (refl, refl)))
        | inr e ↦ elim (Bool-cases ((tee (first ∷ h)).code == tee_error_short_buffer)) [
          | inl f ↦ rw (e, f) (inr (first, (second, (refl, refl, refl))))
          | inr f ↦ rw (e, f) (inl (first, (refl, refl)))
        ]
      ]
  get_by-Asks Output.block handle name h =
      let first = get_property_as_binary_block handle name 0 in
      let second = get_property_as_binary_block handle name (tee (first ∷ h)).out_size in
      elim (Bool-cases ((tee (first ∷ h)).code == tee_success)) [
        | inl e ↦ rw e (inl (first, (refl, refl)))
        | inr e ↦ elim (Bool-cases ((tee (first ∷ h)).code == tee_error_short_buffer)) [
          | inl f ↦ rw (e, f) (inr (first, (second, (refl, refl, refl))))
          | inr f ↦ rw (e, f) (inl (first, (refl, refl)))
        ]
      ]
  get_by-Asks Output.bool handle name h = inl (get_property_as_bool handle name, (refl, refl))
  get_by-Asks Output.u32 handle name h = inl (get_property_as_u32 handle name, (refl, refl))
  get_by-Asks Output.uuid handle name h = inl (get_property_as_uuid handle name, (refl, refl))
  get_by-Asks Output.identity handle name h =
      inl (get_property_as_identity handle name, (refl, refl))

  -- `get` of any key makes one call or two, all about the property with the key's text as its name
  -- in the key's set; no two keys have the same text, since the key can be found from it; and the
  -- text has the prefix that GlobalPlatform gives the names in that set.
  pub get-Asks :
      (k : PropertyKey) (h : List Call)
      → Asks (set_as_raw (set k)) (bytes (literal k)) h (get lossy tee k h).1
        × (from_key (bytes (literal k)) ≡ some k)
        × (starts_with (bytes (prefix_of (set k))) (bytes (literal k)) ≡ true)
  unfolding get
  get-Asks k h =
      let (same, found, prefixed) = key-literal k in
      (rw same (get_by-Asks (output k) (set_as_raw (set k)) _ h), found, prefixed)
