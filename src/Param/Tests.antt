-- ===== src/Param/Tests.antt =====
-- The views of parameters at concrete values.
use optee_utee.Prelude.{◌≡◌, refl}
use optee_utee.Param.{ParamType, Parameter, Memory, from_raw, type_from_u32}

abbrev blank : Memory
blank = λ p. record { lo = 0; hi = 0 }

abbrev first : Parameter
first = record { raw = 10; param_type = ParamType.value_input }

abbrev second : Parameter
second = record { raw = 11; param_type = ParamType.memref_output }

-- The word 0x0061: a value input, then an output memory reference.
from_raw_example : ((from_raw 10 0x0061).e0 ≡ first) × ((from_raw 10 0x0061).e1 ≡ second)
unfolding from_raw type_from_u32
from_raw_example = (refl, refl)
