-- ===== src/Codes/Parameters.antt =====
-- optee-utee-sys/src/tee_api_defines.rs: the types of parameters, the sets of properties, the rights
-- of memory and of allocations, and the constants of data objects.
use optee_utee.Prelude.{ℕ}

pub data TeeParamType : Type 0 where
  tee_param_type_none tee_param_type_value_input tee_param_type_value_output
        tee_param_type_value_inout tee_param_type_memref_input tee_param_type_memref_output
        tee_param_type_memref_inout :
      TeeParamType

unfoldable pub param_type_value : TeeParamType → ℕ
param_type_value TeeParamType.tee_param_type_none = 0
param_type_value TeeParamType.tee_param_type_value_input = 1
param_type_value TeeParamType.tee_param_type_value_output = 2
param_type_value TeeParamType.tee_param_type_value_inout = 3
param_type_value TeeParamType.tee_param_type_memref_input = 5
param_type_value TeeParamType.tee_param_type_memref_output = 6
param_type_value TeeParamType.tee_param_type_memref_inout = 7

pub data TeePropset : Type 0 where
  tee_propset_tee_implementation tee_propset_current_client tee_propset_current_ta : TeePropset

unfoldable pub propset_value : TeePropset → ℕ
propset_value TeePropset.tee_propset_tee_implementation = 0xFFFFFFFD
propset_value TeePropset.tee_propset_current_client = 0xFFFFFFFE
propset_value TeePropset.tee_propset_current_ta = 0xFFFFFFFF

pub data TeeMemoryAccess : Type 0 where
  tee_memory_access_read tee_memory_access_write tee_memory_access_any_owner : TeeMemoryAccess

unfoldable pub memory_access_value : TeeMemoryAccess → ℕ
memory_access_value TeeMemoryAccess.tee_memory_access_read = 0x00000001
memory_access_value TeeMemoryAccess.tee_memory_access_write = 0x00000002
memory_access_value TeeMemoryAccess.tee_memory_access_any_owner = 0x00000004

pub data TeeMalloc : Type 0 where
  tee_malloc_fill_zero tee_malloc_no_fill tee_malloc_no_share : TeeMalloc

unfoldable pub malloc_value : TeeMalloc → ℕ
malloc_value TeeMalloc.tee_malloc_fill_zero = 0x00000000
malloc_value TeeMalloc.tee_malloc_no_fill = 0x00000001
malloc_value TeeMalloc.tee_malloc_no_share = 0x00000002

pub data TeeSeek : Type 0 where
  tee_data_seek_set tee_data_seek_cur tee_data_seek_end tee_whence_illegal_value : TeeSeek

unfoldable pub seek_value : TeeSeek → ℕ
seek_value TeeSeek.tee_data_seek_set = 0x00000000
seek_value TeeSeek.tee_data_seek_cur = 0x00000001
seek_value TeeSeek.tee_data_seek_end = 0x00000002
seek_value TeeSeek.tee_whence_illegal_value = 0x7FFFFFFF

pub data TeeStorage : Type 0 where
  tee_storage_private : TeeStorage

unfoldable pub storage_value : TeeStorage → ℕ
storage_value TeeStorage.tee_storage_private = 0x00000001

pub data TeeObjectLimit : Type 0 where
  tee_data_max_position tee_object_id_max_len : TeeObjectLimit

unfoldable pub object_limit_value : TeeObjectLimit → ℕ
object_limit_value TeeObjectLimit.tee_data_max_position = 0xFFFFFFFF
object_limit_value TeeObjectLimit.tee_object_id_max_len = 64

abbrev pub tee_num_params : ℕ
tee_num_params = 4
