-- ===== src/Codes/Tests.antt =====
-- The comparison of the tables at one entry each.
use optee_utee.Prelude.{◌≡◌, true}
use optee_utee.Object.Types.{
  TransientObjectType, AttributeId, type_code, attribute_code, Whence, whence_code,
  ObjectStorageConstants, storage_code,
}
use optee_utee.Param.{ParamType, type_to_u32}
use optee_utee.Property.{PropertySet, set_as_raw}
use optee_utee.Codes.Parameters.{
  param_type_value, propset_value, seek_value, storage_value, object_limit_value,
}
use optee_utee.Crypto.Types.{
  OperationMode, OperationStates, OperationConstant, AlgorithmId, ElementId, mode_code, state_code,
  constant_code, algorithm_code, element_code,
}
use optee_utee.Object.Flags.{
  DataFlag, UsageFlag, HandleFlag, data_bits, usage_bits, handle_bits, MiscellaneousConstants,
  miscellaneous_code,
}
use optee_utee.Codes.Flags.{data_flag_value, usage_value, handle_flag_value}
use optee_utee.Codes.Objects.{type_value, attr_value}
use optee_utee.Codes.Algorithms.{alg_value}
use optee_utee.Codes.Operations.{mode_value, operation_value, operation_state_value, element_value}
use optee_utee.Codes.Names.{
  type_name, attribute_name, algorithm_name, mode_name, operation_name, state_name, element_name,
  data_flag_name, usage_name, handle_flag_name, param_type_name, propset_name, seek_name,
  storage_name, object_limit_name,
}
use optee_utee.Codes.Agree.{agrees, codes_agree}

codes_agree_example :
    (agrees type_value (type_name TransientObjectType.aes) (type_code TransientObjectType.aes)
      ≡ true)
    × (agrees attr_value
          (attribute_name AttributeId.ecc_curve)
          (attribute_code AttributeId.ecc_curve)
        ≡ true)
    × (agrees alg_value (algorithm_name AlgorithmId.sha256) (algorithm_code AlgorithmId.sha256)
        ≡ true)
    × (agrees mode_value (mode_name OperationMode.mac) (mode_code OperationMode.mac) ≡ true)
    × (agrees operation_value
          (operation_name OperationConstant.cipher)
          (constant_code OperationConstant.cipher)
        ≡ true)
    × (agrees operation_state_value
          (state_name OperationStates.active)
          (state_code OperationStates.active)
        ≡ true)
    × (agrees element_value
          (element_name ElementId.ecc_curve_nist_p256)
          (element_code ElementId.ecc_curve_nist_p256)
        ≡ true)
    × (data_flag_value (data_flag_name DataFlag.share_read) ≡ data_bits DataFlag.share_read)
    × (usage_value (usage_name UsageFlag.mac) ≡ usage_bits UsageFlag.mac)
    × (handle_flag_value (handle_flag_name HandleFlag.key_set) ≡ handle_bits HandleFlag.key_set)
    × (param_type_value (param_type_name ParamType.memref_inout)
        ≡ type_to_u32 ParamType.memref_inout)
    × (propset_value (propset_name PropertySet.current_ta) ≡ set_as_raw PropertySet.current_ta)
    × (seek_value (seek_name Whence.data_seek_end) ≡ whence_code Whence.data_seek_end)
    × (agrees storage_value
          (storage_name ObjectStorageConstants.private)
          (storage_code ObjectStorageConstants.private)
        ≡ true)
    × (object_limit_value (object_limit_name MiscellaneousConstants.tee_object_id_max_len)
        ≡ miscellaneous_code MiscellaneousConstants.tee_object_id_max_len)
codes_agree_example =
    codes_agree TransientObjectType.aes AttributeId.ecc_curve AlgorithmId.sha256 OperationMode.mac
      OperationConstant.cipher OperationStates.active ElementId.ecc_curve_nist_p256
      DataFlag.share_read UsageFlag.mac HandleFlag.key_set ParamType.memref_inout
      PropertySet.current_ta Whence.data_seek_end ObjectStorageConstants.private
      MiscellaneousConstants.tee_object_id_max_len
