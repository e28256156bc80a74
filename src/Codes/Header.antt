-- ===== src/Codes/Header.antt =====
-- optee-utee-sys/src/user_ta_header.rs: the flags of an application, and the names of the properties
-- that its header sets.
use optee_utee.Prelude.{ℕ, ◌^◌, ◌≡◌, refl, ◌++◌, [], ◌∷◌, Option, none, some}
use Prim.Native.String.{String}
use optee_utee.Property.{PropertySet}
use optee_utee.Property.Keys.{PropertyKey, set, literal, key, bytes}

pub data TaFlag : Type 0 where
  single_instance multi_session instance_keep_alive secure_data_path remap_support cache_maintenance
        exec_ddr user_mode :
      TaFlag

unfoldable pub ta_flag_value : TaFlag → ℕ
ta_flag_value single_instance = 2 ^ 2
ta_flag_value multi_session = 2 ^ 3
ta_flag_value instance_keep_alive = 2 ^ 4
ta_flag_value secure_data_path = 2 ^ 5
ta_flag_value remap_support = 2 ^ 6
ta_flag_value cache_maintenance = 2 ^ 7
ta_flag_value exec_ddr = 0
ta_flag_value user_mode = 0

-- `TA_PROP_STR_…`, of which `PropertyKey` has the first seven.
pub data TaPropStr : Type 0 where
  single_instance multi_session keep_alive data_size stack_size version description unsafe_param
        remap cache_sync :
      TaPropStr

unfoldable pub ta_prop_str : TaPropStr → String
ta_prop_str TaPropStr.single_instance = "gpd.ta.singleInstance\0"
ta_prop_str TaPropStr.multi_session = "gpd.ta.multiSession\0"
ta_prop_str TaPropStr.keep_alive = "gpd.ta.instanceKeepAlive\0"
ta_prop_str TaPropStr.data_size = "gpd.ta.dataSize\0"
ta_prop_str TaPropStr.stack_size = "gpd.ta.stackSize\0"
ta_prop_str TaPropStr.version = "gpd.ta.version\0"
ta_prop_str TaPropStr.description = "gpd.ta.description\0"
ta_prop_str TaPropStr.unsafe_param = "op-tee.unsafe_param\0"
ta_prop_str TaPropStr.remap = "op-tee.remap\0"
ta_prop_str TaPropStr.cache_sync = "op-tee.cache_sync\0"

-- The key of a property that the header sets.
unfoldable pub key_of : TaPropStr → Option PropertyKey
key_of TaPropStr.single_instance = some PropertyKey.ta_single_instance
key_of TaPropStr.multi_session = some PropertyKey.ta_multi_session
key_of TaPropStr.keep_alive = some PropertyKey.ta_instance_keep_alive
key_of TaPropStr.data_size = some PropertyKey.ta_data_size
key_of TaPropStr.stack_size = some PropertyKey.ta_stack_size
key_of TaPropStr.version = some PropertyKey.ta_version
key_of TaPropStr.description = some PropertyKey.ta_description
key_of _ = none

-- A key asks the application's set for the name that the header has, with one NUL behind it.
abbrev Reads : Option PropertyKey → TaPropStr → Type 0
Reads none s = Unit {0}
Reads (some k) s = (key k ++ 0 ∷ [] ≡ bytes (ta_prop_str s)) × (set k ≡ PropertySet.current_ta)

key_of-Reads : (s : TaPropStr) → Reads (key_of s) s
unfolding key_of key set bytes literal ta_prop_str
key_of-Reads TaPropStr.single_instance = (refl, refl)
key_of-Reads TaPropStr.multi_session = (refl, refl)
key_of-Reads TaPropStr.keep_alive = (refl, refl)
key_of-Reads TaPropStr.data_size = (refl, refl)
key_of-Reads TaPropStr.stack_size = (refl, refl)
key_of-Reads TaPropStr.version = (refl, refl)
key_of-Reads TaPropStr.description = (refl, refl)
key_of-Reads TaPropStr.unsafe_param = tt
key_of-Reads TaPropStr.remap = tt
key_of-Reads TaPropStr.cache_sync = tt
