-- ===== src/TeeParams.antt =====
-- src/tee_parameter.rs: the parameters that a session passes to another trusted application.
pub mod Pack
pub mod Update
pub mod Written
pub mod Called
mod Tests
use optee_utee.Prelude.{
  ℕ, zero, ◌+◌, ◌*◌, ◌^◌, u32_mod, bit_or, ltb, if◌then◌else◌, List, [], ◌∷◌, Option, some, Outcome,
  returns, panics,
}
use optee_utee.Prelude.Array4.{Array4, Index, arg0, arg1, arg2, arg3, at, put, map4}
use optee_utee.Error
use optee_utee.Error.{Error, Result, ok, err, bad_parameters, bad_format}
use optee_utee.Param.{ParamType, Slice, RawParam, size_of, a_of, b_of, type_to_u32}

-- `ParamIndex`, and `to_usize`.
abbrev pub ParamIndex : Type 0
ParamIndex = Index

unfoldable pub to_usize : ParamIndex → ℕ
to_usize arg0 = 0
to_usize arg1 = 1
to_usize arg2 = 2
to_usize arg3 = 3

-- `ParamContent`, the one field of `Param`.
pub data Param : Type 0 where
  none : Param
  memref_input : Slice → Param
  memref_output : Slice → ℕ → Param
  memref_inout : Slice → ℕ → Param
  value_input : ℕ → ℕ → Param
  value_output : ℕ → ℕ → Param
  value_inout : ℕ → ℕ → Param

-- `&buffer[..n]`, which panics past the end.
unfoldable pub prefix : Slice → ℕ → Outcome (Option Slice)
prefix s n = if ltb s.len n then panics else returns (some (record s { len = n }))

unfoldable pub written_slice : Param → Outcome (Option Slice)
unfolding prefix
written_slice (memref_output buffer written) = prefix buffer written
written_slice (memref_inout buffer written) = prefix buffer written
written_slice _ = returns Option.none

unfoldable pub output_value : Param → Option (ℕ × ℕ)
output_value (value_output a b) = some (a, b)
output_value (value_inout a b) = some (a, b)
output_value _ = Option.none

unfoldable pub get_type : Param → ParamType
get_type none = ParamType.none
get_type (memref_input buffer) = ParamType.memref_input
get_type (memref_output buffer written) = ParamType.memref_output
get_type (memref_inout buffer written) = ParamType.memref_inout
get_type (value_input a b) = ParamType.value_input
get_type (value_output a b) = ParamType.value_output
get_type (value_inout a b) = ParamType.value_inout

unfoldable pub get_raw_type : Param → ℕ
unfolding get_type type_to_u32
get_raw_type p = type_to_u32 (get_type p)

unfoldable pub memref : ℕ → ℕ → RawParam
memref start size = record { lo = start; hi = size }

-- The half of the union that a value leaves uninitialised is 0 here.
unfoldable pub value : ℕ → ℕ → RawParam
value a b = record { lo = a + b * u32_mod; hi = 0 }

unfoldable pub as_raw : Param → RawParam
unfolding memref value
as_raw none = memref 0 0
as_raw (memref_input buffer) = memref buffer.start buffer.len
as_raw (memref_output buffer written) = memref buffer.start buffer.len
as_raw (memref_inout buffer written) = memref buffer.start buffer.len
as_raw (value_input a b) = value a b
as_raw (value_inout a b) = value a b
as_raw (value_output a b) = value a b

-- A method on `&mut self` returns what it leaves there, beside its result.
unfoldable pub update_size_from_raw : Param → RawParam → Param × Result Error (Unit {0})
update_size_from_raw (memref_output buffer written) raw =
    if ltb buffer.len (size_of raw)
    then (memref_output buffer written, err (Error.new bad_parameters))
    else (memref_output buffer (size_of raw), ok tt)
update_size_from_raw (memref_inout buffer written) raw =
    if ltb buffer.len (size_of raw)
    then (memref_inout buffer written, err (Error.new bad_parameters))
    else (memref_inout buffer (size_of raw), ok tt)
update_size_from_raw p raw = (p, err (Error.new bad_format))

unfoldable pub update_value_from_raw : Param → RawParam → Param
update_value_from_raw (value_inout a b) raw = value_inout (a_of raw) (b_of raw)
update_value_from_raw (value_output a b) raw = value_output (a_of raw) (b_of raw)
update_value_from_raw p raw = p

-- `[Param; 4]`, the one field of `TeeParams`.
abbrev pub TeeParams : Type 0
TeeParams = Array4 Param

unfoldable pub new : TeeParams
new = record { e0 = none; e1 = none; e2 = none; e3 = none }

-- The `with_*` methods take the parameters and return them; the `set_*` methods change them in place.
unfoldable pub with_memref_in : TeeParams → ParamIndex → Slice → TeeParams
with_memref_in ps i buffer = put ps i (memref_input buffer)

unfoldable pub with_memref_out : TeeParams → ParamIndex → Slice → TeeParams
with_memref_out ps i buffer = put ps i (memref_output buffer 0)

unfoldable pub with_memref_inout : TeeParams → ParamIndex → Slice → TeeParams
with_memref_inout ps i buffer = put ps i (memref_inout buffer 0)

unfoldable pub with_value_in : TeeParams → ParamIndex → ℕ → ℕ → TeeParams
with_value_in ps i a b = put ps i (value_input a b)

unfoldable pub with_value_out : TeeParams → ParamIndex → ℕ → ℕ → TeeParams
with_value_out ps i a b = put ps i (value_output a b)

unfoldable pub with_value_inout : TeeParams → ParamIndex → ℕ → ℕ → TeeParams
with_value_inout ps i a b = put ps i (value_inout a b)

unfoldable pub set_memref_in : TeeParams → ParamIndex → Slice → TeeParams
set_memref_in ps i buffer = put ps i (memref_input buffer)

unfoldable pub set_memref_out : TeeParams → ParamIndex → Slice → TeeParams
set_memref_out ps i buffer = put ps i (memref_output buffer 0)

unfoldable pub set_memref_inout : TeeParams → ParamIndex → Slice → TeeParams
set_memref_inout ps i buffer = put ps i (memref_inout buffer 0)

unfoldable pub set_value_in : TeeParams → ParamIndex → ℕ → ℕ → TeeParams
set_value_in ps i a b = put ps i (value_input a b)

unfoldable pub set_value_out : TeeParams → ParamIndex → ℕ → ℕ → TeeParams
set_value_out ps i a b = put ps i (value_output a b)

unfoldable pub set_value_inout : TeeParams → ParamIndex → ℕ → ℕ → TeeParams
set_value_inout ps i a b = put ps i (value_inout a b)

-- The loop of `raw_param_types`, from the index `i` on.
unfoldable pub pack_from : ℕ → ℕ → List Param → ℕ
pack_from i param_types [] = param_types
pack_from i param_types (p ∷ ps) =
    pack_from (i + 1) (bit_or param_types (get_raw_type p * 2 ^ (i * 4))) ps

unfoldable pub raw_param_types : TeeParams → ℕ
unfolding pack_from
raw_param_types ps = pack_from 0 0 (ps.e0 ∷ ps.e1 ∷ ps.e2 ∷ ps.e3 ∷ [])

unfoldable pub as_raw_params : TeeParams → Array4 RawParam
as_raw_params = map4 as_raw

-- The body of the loop of `update_from_raw`, by the type of the parameter.
unfoldable pub update_by_type : ParamType → Param → RawParam → Param × Result Error (Unit {0})
update_by_type ParamType.memref_output p raw = update_size_from_raw p raw
update_by_type ParamType.memref_inout p raw = update_size_from_raw p raw
update_by_type ParamType.value_output p raw = (update_value_from_raw p raw, ok tt)
update_by_type ParamType.value_inout p raw = (update_value_from_raw p raw, ok tt)
update_by_type _ p raw = (p, ok tt)

unfoldable pub update_param : Param → RawParam → Param × Result Error (Unit {0})
unfolding update_by_type
update_param p raw = update_by_type (get_type p) p raw

-- The loop stops at the first error, with the parameters before it already written.
unfoldable pub update_loop :
    List Index → TeeParams → Array4 RawParam → TeeParams × Result Error (Unit {0})
update_loop [] ps raws = (ps, ok tt)
update_loop (i ∷ is) ps raws =
    let (p, result) = update_param (at ps i) (at raws i) in
    elim result [ ok _ ↦ update_loop is (put ps i p) raws | err e ↦ (put ps i p, err e) ]

unfoldable pub update_from_raw : TeeParams → Array4 RawParam → TeeParams × Result Error (Unit {0})
unfolding update_loop
update_from_raw = update_loop (arg0 ∷ arg1 ∷ arg2 ∷ arg3 ∷ [])
