-- ===== src/Codes/Agree.antt =====
-- The discriminants of the crate's enumerations against optee-utee-sys/src/tee_api_defines.rs.
use optee_utee.Prelude.{ℕ, ◌≡◌, arith, Bool, true, ◌==◌, Option, none, some}
use optee_utee.Object.Types.{
  TransientObjectType, AttributeId, type_code, attribute_code, Whence, whence_code,
  ObjectStorageConstants, storage_code,
}
use optee_utee.Param.{ParamType, type_to_u32}
use optee_utee.Property.{PropertySet, set_as_raw}
use optee_utee.Codes.Parameters.{
  param_type_value, propset_value, seek_value, storage_value, object_limit_value,
}
use optee_utee.Crypto.Types.{
  OperationMode, OperationStates, OperationConstant, AlgorithmId, ElementId, mode_code, state_code,
  constant_code, algorithm_code, element_code,
}
use optee_utee.Object.Flags.{
  DataFlag, UsageFlag, HandleFlag, data_bits, usage_bits, handle_bits, MiscellaneousConstants,
  miscellaneous_code,
}
use optee_utee.Codes.Flags.{data_flag_value, usage_value, handle_flag_value}
use optee_utee.Codes.Objects.{type_value, attr_value}
use optee_utee.Codes.Algorithms.{alg_value}
use optee_utee.Codes.Operations.{mode_value, operation_value, operation_state_value, element_value}
use optee_utee.Codes.Names.{
  type_name, attribute_name, algorithm_name, mode_name, operation_name, state_name, element_name,
  data_flag_name, usage_name, handle_flag_name, param_type_name, propset_name, seek_name,
  storage_name, object_limit_name,
}

-- The constant, where there is one, has this value.
abbrev pub agrees : {A : Type 0} → (A → ℕ) → Option A → ℕ → Bool
agrees value none n = true
agrees value (some c) n = value c == n

type_code-agrees : (t : TransientObjectType) → agrees type_value (type_name t) (type_code t) ≡ true
unfolding type_value type_name type_code
type_code-agrees t = ground arith

attribute_code-agrees :
    (a : AttributeId) → agrees attr_value (attribute_name a) (attribute_code a) ≡ true
unfolding attr_value attribute_name attribute_code
attribute_code-agrees a = ground arith

algorithm_code-agrees :
    (g : AlgorithmId) → agrees alg_value (algorithm_name g) (algorithm_code g) ≡ true
unfolding alg_value algorithm_name algorithm_code
algorithm_code-agrees g = ground arith

mode_code-agrees : (m : OperationMode) → agrees mode_value (mode_name m) (mode_code m) ≡ true
unfolding mode_value mode_name mode_code
mode_code-agrees m = ground arith

constant_code-agrees :
    (o : OperationConstant) → agrees operation_value (operation_name o) (constant_code o) ≡ true
unfolding operation_value operation_name constant_code
constant_code-agrees o = ground arith

state_code-agrees :
    (s : OperationStates) → agrees operation_state_value (state_name s) (state_code s) ≡ true
unfolding operation_state_value state_name state_code
state_code-agrees s = ground arith

element_code-agrees :
    (e : ElementId) → agrees element_value (element_name e) (element_code e) ≡ true
unfolding element_value element_name element_code
element_code-agrees e = ground arith

data_bits_agree : (d : DataFlag) → data_flag_value (data_flag_name d) ≡ data_bits d
unfolding data_flag_value data_flag_name data_bits
data_bits_agree d = ground arith

usage_bits_agree : (u : UsageFlag) → usage_value (usage_name u) ≡ usage_bits u
unfolding usage_value usage_name usage_bits
usage_bits_agree u = ground arith

handle_bits_agree : (h : HandleFlag) → handle_flag_value (handle_flag_name h) ≡ handle_bits h
unfolding handle_flag_value handle_flag_name handle_bits
handle_bits_agree h = ground arith

param_types_agree : (p : ParamType) → param_type_value (param_type_name p) ≡ type_to_u32 p
unfolding param_type_value param_type_name type_to_u32
param_types_agree p = ground arith

propsets_agree : (s : PropertySet) → propset_value (propset_name s) ≡ set_as_raw s
unfolding propset_value propset_name set_as_raw
propsets_agree s = ground arith

seeks_agree : (w : Whence) → seek_value (seek_name w) ≡ whence_code w
unfolding seek_value seek_name whence_code
seeks_agree w = ground arith

storage_code-agrees :
    (k : ObjectStorageConstants) → agrees storage_value (storage_name k) (storage_code k) ≡ true
unfolding storage_value storage_name storage_code
storage_code-agrees k = ground arith

object_limits_agree :
    (c : MiscellaneousConstants) → object_limit_value (object_limit_name c) ≡ miscellaneous_code c
unfolding object_limit_value object_limit_name miscellaneous_code
object_limits_agree c = ground arith

-- The types of transient objects, the attributes, the algorithms, and the modes, classes, states and
-- curves of operations have the discriminants that optee-utee-sys gives the constants of the same
-- names, wherever it has such a constant, and so have the storages; for the flags of data objects, of
-- their usage and of handles, the types of parameters, the sets of properties, the starts of a seek
-- and the limits of objects it has one each.
pub codes_agree :
    (t : TransientObjectType) (a : AttributeId) (g : AlgorithmId) (m : OperationMode)
    (o : OperationConstant) (s : OperationStates) (e : ElementId) (d : DataFlag) (u : UsageFlag)
    (h : HandleFlag) (p : ParamType) (r : PropertySet) (w : Whence) (k : ObjectStorageConstants)
    (c : MiscellaneousConstants)
    → (agrees type_value (type_name t) (type_code t) ≡ true)
      × (agrees attr_value (attribute_name a) (attribute_code a) ≡ true)
      × (agrees alg_value (algorithm_name g) (algorithm_code g) ≡ true)
      × (agrees mode_value (mode_name m) (mode_code m) ≡ true)
      × (agrees operation_value (operation_name o) (constant_code o) ≡ true)
      × (agrees operation_state_value (state_name s) (state_code s) ≡ true)
      × (agrees element_value (element_name e) (element_code e) ≡ true)
      × (data_flag_value (data_flag_name d) ≡ data_bits d)
      × (usage_value (usage_name u) ≡ usage_bits u)
      × (handle_flag_value (handle_flag_name h) ≡ handle_bits h)
      × (param_type_value (param_type_name p) ≡ type_to_u32 p)
      × (propset_value (propset_name r) ≡ set_as_raw r)
      × (seek_value (seek_name w) ≡ whence_code w)
      × (agrees storage_value (storage_name k) (storage_code k) ≡ true)
      × (object_limit_value (object_limit_name c) ≡ miscellaneous_code c)
codes_agree t a g m o s e d u h p r w k c = (
  type_code-agrees t,
  attribute_code-agrees a,
  algorithm_code-agrees g,
  mode_code-agrees m,
  constant_code-agrees o,
  state_code-agrees s,
  element_code-agrees e,
  data_bits_agree d,
  usage_bits_agree u,
  handle_bits_agree h,
  param_types_agree p,
  propsets_agree r,
  seeks_agree w,
  storage_code-agrees k,
  object_limits_agree c,
)
