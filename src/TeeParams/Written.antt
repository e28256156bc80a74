-- ===== src/TeeParams/Written.antt =====
-- src/tee_parameter.rs: the length that an output reports stays inside its buffer.
use optee_utee.Prelude.{ℕ, ◌≤◌, ◌≢◌, inl, inr, arith, List, [], ◌∷◌, panics}
use optee_utee.Prelude.Array4.{Array4, Index, arg0, arg1, arg2, arg3, at, All4, All4-put, All4-at}
use optee_utee.Error.{Result-cases}
use optee_utee.Param.{Slice, RawParam}
use optee_utee.TeeParams.{
  Param, memref_input, memref_output, memref_inout, value_input, value_output, value_inout,
  TeeParams, written_slice, update_size_from_raw, update_value_from_raw, get_type, update_param,
  update_loop, update_from_raw, new, set_memref_in, set_memref_out, set_memref_inout, set_value_in,
  set_value_out, set_value_inout, with_memref_in, with_memref_out, with_memref_inout, with_value_in,
  with_value_out, with_value_inout,
}

abbrev pub Fits : Param → Type 0
Fits (memref_output buffer written) = written ≤ buffer.len
Fits (memref_inout buffer written) = written ≤ buffer.len
Fits _ = Unit {0}

-- Every output of the command has written no more than its buffer holds.
abbrev pub IsValid : TeeParams → Type 0
IsValid = All4 Fits

update_param-Fits : (p : Param) (raw : RawParam) → Fits p → Fits (update_param p raw).0
unfolding update_param update_size_from_raw update_value_from_raw get_type
update_param-Fits (memref_output buffer written) raw h = ground arith
update_param-Fits (memref_inout buffer written) raw h = ground arith
update_param-Fits _ raw h = tt

update_loop-IsValid :
    (is : List Index) (ps : TeeParams) (raws : Array4 RawParam)
    → IsValid ps
    → IsValid (update_loop is ps raws).0
unfolding update_loop
update_loop-IsValid [] ps raws v = v
update_loop-IsValid (i ∷ is) ps raws v =
    let fits = update_param-Fits (at ps i) (at raws i) (All4-at Fits ps i v) in
    let v' = All4-put Fits ps i (update_param (at ps i) (at raws i)).0 v fits in
    elim (Result-cases (update_param (at ps i) (at raws i)).1) [
      | inl (a, e) ↦ rw (e, update_loop) (update_loop-IsValid is _ raws v')
      | inr (x, e) ↦ rw (e, update_loop) v'
    ]

update_from_raw-IsValid :
    (ps : TeeParams) (raws : Array4 RawParam) → IsValid ps → IsValid (update_from_raw ps raws).0
unfolding update_from_raw
update_from_raw-IsValid ps raws v = update_loop-IsValid (arg0 ∷ arg1 ∷ arg2 ∷ arg3 ∷ []) ps raws v

-- The calls that a client makes on its parameters.
pub data Use : Type 0 where
  memref_in memref_out both_ways : Index → Slice → Use
  value_in value_out value_both_ways : Index → ℕ → ℕ → Use
  sets_memref_in sets_memref_out sets_both_ways : Index → Slice → Use
  sets_value_in sets_value_out sets_value_both_ways : Index → ℕ → ℕ → Use
  replied : Array4 RawParam → Use

pub step : TeeParams → Use → TeeParams
step ps (memref_in i buffer) = with_memref_in ps i buffer
step ps (memref_out i buffer) = with_memref_out ps i buffer
step ps (both_ways i buffer) = with_memref_inout ps i buffer
step ps (value_in i a b) = with_value_in ps i a b
step ps (value_out i a b) = with_value_out ps i a b
step ps (value_both_ways i a b) = with_value_inout ps i a b
step ps (sets_memref_in i buffer) = set_memref_in ps i buffer
step ps (sets_memref_out i buffer) = set_memref_out ps i buffer
step ps (sets_both_ways i buffer) = set_memref_inout ps i buffer
step ps (sets_value_in i a b) = set_value_in ps i a b
step ps (sets_value_out i a b) = set_value_out ps i a b
step ps (sets_value_both_ways i a b) = set_value_inout ps i a b
step ps (replied raws) = (update_from_raw ps raws).0

pub run : TeeParams → List Use → TeeParams
run ps [] = ps
run ps (u ∷ us) = run (step ps u) us

step-IsValid : (ps : TeeParams) (u : Use) → IsValid ps → IsValid (step ps u)
unfolding step with_memref_in with_memref_out with_memref_inout with_value_in with_value_out
    with_value_inout set_memref_in set_memref_out set_memref_inout set_value_in set_value_out
    set_value_inout
step-IsValid ps (memref_in i buffer) v = All4-put Fits ps i (memref_input buffer) v tt
step-IsValid ps (memref_out i buffer) v =
    All4-put Fits ps i (memref_output buffer 0) v (omega arith)
step-IsValid ps (both_ways i buffer) v = All4-put Fits ps i (memref_inout buffer 0) v (omega arith)
step-IsValid ps (value_in i a b) v = All4-put Fits ps i (value_input a b) v tt
step-IsValid ps (value_out i a b) v = All4-put Fits ps i (value_output a b) v tt
step-IsValid ps (value_both_ways i a b) v = All4-put Fits ps i (value_inout a b) v tt
step-IsValid ps (sets_memref_in i buffer) v = All4-put Fits ps i (memref_input buffer) v tt
step-IsValid ps (sets_memref_out i buffer) v =
    All4-put Fits ps i (memref_output buffer 0) v (omega arith)
step-IsValid ps (sets_both_ways i buffer) v =
    All4-put Fits ps i (memref_inout buffer 0) v (omega arith)
step-IsValid ps (sets_value_in i a b) v = All4-put Fits ps i (value_input a b) v tt
step-IsValid ps (sets_value_out i a b) v = All4-put Fits ps i (value_output a b) v tt
step-IsValid ps (sets_value_both_ways i a b) v = All4-put Fits ps i (value_inout a b) v tt
step-IsValid ps (replied raws) v = update_from_raw-IsValid ps raws v

pub run-IsValid : (us : List Use) (ps : TeeParams) → IsValid ps → IsValid (run ps us)
unfolding run
run-IsValid [] ps v = v
run-IsValid (u ∷ us) ps v = run-IsValid us (step ps u) (step-IsValid ps u v)

written_slice-returns : (p : Param) → Fits p → written_slice p ≢ panics
unfolding written_slice
written_slice-returns (memref_output buffer written) h = ground arith
written_slice-returns (memref_inout buffer written) h = ground arith
written_slice-returns _ h = cc

-- However a client sets its parameters and whatever a called application replies, in any order,
-- `written_slice` of any of the four does not panic.
pub written_slice-run : (us : List Use) (i : Index) → written_slice (at (run new us) i) ≢ panics
unfolding new
written_slice-run us i =
    written_slice-returns _ (All4-at Fits (run new us) i (run-IsValid us new (tt, tt, tt, tt)))
