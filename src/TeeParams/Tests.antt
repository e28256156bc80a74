-- ===== src/TeeParams/Tests.antt =====
-- The parameters of a command at concrete values.
use optee_utee.Prelude.{ℕ, ◌≡◌, ◌≢◌, refl, arith, List, [], ◌∷◌, panics}
use optee_utee.Prelude.Array4.{Array4, arg0, arg1, at, map4}
use optee_utee.Param.{Slice, RawParam, Memory, store, into_flags}
use optee_utee.TeeParams.{
  Param, memref_output, value_inout, TeeParams, new, written_slice, get_type, get_raw_type,
  raw_param_types, as_raw, as_raw_params, update_from_raw,
}
use optee_utee.TeeParams.Called.{received, Shows, Shows-received}
use optee_utee.Codes.{tee_param_types}
use optee_utee.TeeParams.Pack.{raw_param_types-tee_param_types, into_flags-raw_param_types}
use optee_utee.TeeParams.Update.{Updates, update_from_raw_lem}
use optee_utee.TeeParams.Written.{run, memref_out, value_both_ways, replied, written_slice-run, Use}

abbrev four_bytes : Slice
four_bytes = record { start = 100; len = 4 }

abbrev mixed : TeeParams
mixed = record {
  e0 = memref_output four_bytes 0;
  e1 = value_inout 1 2;
  e2 = Param.none;
  e3 = Param.memref_input four_bytes;
}

abbrev reply : ℕ → Array4 RawParam
reply size = record {
  e0 = record { lo = 100; hi = size };
  e1 = record { lo = 9; hi = 0 };
  e2 = record { lo = 0; hi = 0 };
  e3 = record { lo = 100; hi = 4 };
}

mixed_types : raw_param_types mixed ≡ 0x5036
unfolding raw_param_types get_raw_type
mixed_types = refl

into_flags-raw_param_types_example : into_flags (raw_param_types mixed) ≡ map4 get_type mixed
into_flags-raw_param_types_example = into_flags-raw_param_types mixed

update_from_raw_lem_example : Updates mixed (reply 5) (update_from_raw mixed (reply 5))
update_from_raw_lem_example = update_from_raw_lem mixed (reply 5)

abbrev uses : List Use
uses = memref_out arg0 four_bytes ∷ value_both_ways arg1 1 2 ∷ replied (reply 3) ∷ []

written_slice-run_example : written_slice (at (run new uses) arg0) ≢ panics
written_slice-run_example = written_slice-run uses arg0

raw_param_types-tee_param_types_example :
    raw_param_types mixed
    ≡ tee_param_types
        (get_raw_type mixed.e0)
        (get_raw_type mixed.e1)
        (get_raw_type mixed.e2)
        (get_raw_type mixed.e3)
raw_param_types-tee_param_types_example = raw_param_types-tee_param_types mixed

-- The parameters in the memory of the application that they are passed to.
abbrev passed : Memory
passed =
    store
      (store (store (store (λ q. as_raw Param.none) 10 (as_raw mixed.e0)) 11 (as_raw mixed.e1)) 13
        (as_raw mixed.e3))
      14 (as_raw mixed.e3)

Shows-received_example : Shows mixed.e1 (at (received 10 mixed) arg1) passed
unfolding as_raw as_raw_params
Shows-received_example = Shows-received 10 mixed arg1 passed (omega arith) refl
