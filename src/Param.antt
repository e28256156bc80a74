-- ===== src/Param.antt =====
-- src/parameter.rs: the parameters that a trusted application is called with.
pub mod Access
mod Tests
use optee_utee.Prelude.{ℕ, ◌+◌, ◌*◌, ◌/◌, ◌%◌, ◌^◌, u32_mod, bit_and, ◌==◌, if◌then◌else◌}
use optee_utee.Prelude.Array4.{Array4}
use optee_utee.Error
use optee_utee.Error.{Error, Result, ok, err, bad_parameters}

pub data ParamType : Type 0 where
  none value_input value_output value_inout memref_input memref_output memref_inout : ParamType

-- `param_type as u32`.
unfoldable pub type_to_u32 : ParamType → ℕ
type_to_u32 none = 0
type_to_u32 value_input = 1
type_to_u32 value_output = 2
type_to_u32 value_inout = 3
type_to_u32 memref_input = 5
type_to_u32 memref_output = 6
type_to_u32 memref_inout = 7

unfoldable pub type_from_u32 : ℕ → ParamType
type_from_u32 value =
    if value == 0
    then none
    else if value == 1
    then value_input
    else if value == 2
    then value_output
    else if value == 3
    then value_inout
    else if value == 5
    then memref_input
    else if value == 6
    then memref_output
    else if value == 7
    then memref_inout
    else none

-- `ParamTypes::into_flags`: four masks of the word, each shifted down.
unfoldable pub into_flags : ℕ → Array4 ParamType
into_flags word = record {
  e0 = type_from_u32 (bit_and 0x000f word);
  e1 = type_from_u32 (bit_and 0x00f0 word / 2 ^ 4);
  e2 = type_from_u32 (bit_and 0x0f00 word / 2 ^ 8);
  e3 = type_from_u32 (bit_and 0xf000 word / 2 ^ 12);
}

-- The union `TEE_Param` in its 64-bit little-endian layout: a memory reference is a pointer and a
-- size, a value is two `u32` in the place of the pointer.
pub record RawParam : Type 0 where
  pub lo : ℕ
  pub hi : ℕ

abbrev pub size_of : RawParam → ℕ
size_of r = r.hi

abbrev pub a_of : RawParam → ℕ
a_of r = r.lo % u32_mod

abbrev pub b_of : RawParam → ℕ
b_of r = r.lo / u32_mod % u32_mod

-- The memory that the raw pointers point into.
abbrev pub Memory : Type 0
Memory = ℕ → RawParam

abbrev pub store : Memory → ℕ → RawParam → Memory
store m p r q = if q == p then r else m q

pub record Parameter : Type 0 where
  pub raw : ℕ
  pub param_type : ParamType

-- `Parameters::from_raw` on an array whose elements lie at the four addresses from `base` on.
unfoldable pub from_raw : ℕ → ℕ → Array4 Parameter
unfolding into_flags
from_raw base param_types = record {
  e0 = record { raw = base; param_type = (into_flags param_types).e0 };
  e1 = record { raw = base + 1; param_type = (into_flags param_types).e1 };
  e2 = record { raw = base + 2; param_type = (into_flags param_types).e2 };
  e3 = record { raw = base + 3; param_type = (into_flags param_types).e3 };
}

pub record ParamValue : Type 0 where
  pub raw : ℕ
  pub param_type : ParamType

pub record ParamMemref : Type 0 where
  pub raw : ℕ
  pub param_type : ParamType

-- `Parameter::as_value`, by the type.
value_at : ℕ → ParamType → Result Error ParamValue
value_at raw value_input = ok (record { raw = raw; param_type = value_input })
value_at raw value_inout = ok (record { raw = raw; param_type = value_inout })
value_at raw value_output = ok (record { raw = raw; param_type = value_output })
value_at raw _ = err (Error.new bad_parameters)

unfoldable pub as_value : Parameter → Result Error ParamValue
unfolding value_at
as_value p = value_at p.raw p.param_type

-- `Parameter::as_memref`, by the type.
memref_at : ℕ → ParamType → Result Error ParamMemref
memref_at raw memref_inout = ok (record { raw = raw; param_type = memref_inout })
memref_at raw memref_input = ok (record { raw = raw; param_type = memref_input })
memref_at raw memref_output = ok (record { raw = raw; param_type = memref_output })
memref_at raw _ = err (Error.new bad_parameters)

unfoldable pub as_memref : Parameter → Result Error ParamMemref
unfolding memref_at
as_memref p = memref_at p.raw p.param_type

unfoldable pub a : ParamValue → Memory → ℕ
a v m = a_of (m v.raw)

unfoldable pub b : ParamValue → Memory → ℕ
b v m = b_of (m v.raw)

unfoldable pub set_a : ParamValue → ℕ → Memory → Memory
set_a v x m = store m v.raw (record (m v.raw) { lo = x + b_of (m v.raw) * u32_mod })

unfoldable pub set_b : ParamValue → ℕ → Memory → Memory
set_b v x m = store m v.raw (record (m v.raw) { lo = a_of (m v.raw) + x * u32_mod })

-- A slice as Rust passes it: where it starts, and its length in bytes.
pub record Slice : Type 0 where
  pub start : ℕ
  pub len : ℕ

unfoldable pub buffer : ParamMemref → Memory → Slice
buffer v m = record { start = (m v.raw).lo; len = (m v.raw).hi }

unfoldable pub set_updated_size : ParamMemref → ℕ → Memory → Memory
set_updated_size v size m = store m v.raw (record (m v.raw) { hi = size })
