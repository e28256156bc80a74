-- ===== src/TaSession/Tests.antt =====
-- Sessions with a called application that answers in one way.
use optee_utee.Prelude.{refl, arith, ◌≡◌, ◌≢◌, ◌⊎◌, List, [], ◌∷◌, ◌++◌, some, length}
use optee_utee.Codes.{tee_success}
use optee_utee.Error.{ok, err}
use optee_utee.Param.{Slice, RawParam, Memory, store, from_raw}
use optee_utee.TeeParams.{Param, TeeParams, as_raw_params}
use optee_utee.TeeParams.Update.{Updates}
use optee_utee.TaSession.{
  Call, close_ta_session, invoke_ta_command, Reply, TaSessionBuilder, TaSession, build,
  invoke_command_with_timeout,
}
use optee_utee.Prelude.Array4.{Array4, arg0}
use optee_utee.TeeParams.Called.{gathered}
use optee_utee.TeeParams.Called.Answer.{sets_size, changes}
use optee_utee.TaSession.Command.{Application, Runs, invoke-changes}
use optee_utee.TaSession.Laws.{opening, refusal, build_lem, invoking, invoke_lem}
use optee_utee.TaSession.Lifetime.{Command, live, AllInvokeOn, live_lem, opened}

abbrev four_bytes : Slice
four_bytes = record { start = 100; len = 4 }

abbrev one_output : TeeParams
one_output = record {
  e0 = Param.memref_output four_bytes 0;
  e1 = Param.none;
  e2 = Param.none;
  e3 = Param.none;
}

abbrev blank : RawParam
blank = record { lo = 0; hi = 0 }

-- Every call succeeds, gives session 3, and claims 9 bytes in the first output.
tee : List Call → Reply
tee h = record {
  code = 0;
  session = 3;
  origin = 4;
  params = record { e0 = record { lo = 100; hi = 9 }; e1 = blank; e2 = blank; e3 = blank };
}

abbrev builder : TaSessionBuilder
builder = record { target_uuid = 77; timeout = 1000; params = some one_output }

build_lem_example :
    ((build tee builder []).1 ≡ opening tee builder [])
    × ((((tee (opening tee builder [])).code ≡ tee_success)
          × ((build tee builder []).0
              ≡ ok (record { raw = (tee (opening tee builder [])).session })))
        ⊎ (((tee (opening tee builder [])).code ≢ tee_success)
            × ((build tee builder []).0 ≡ err (refusal (tee (opening tee builder []))))))
build_lem_example = build_lem tee builder []

abbrev session : TaSession
session = record { raw = 3 }

invoke_lem_example :
    let h = invoking tee session 5 one_output 1000 [] in
    let (out, h') = invoke_command_with_timeout tee session 5 one_output 1000 [] in
    (h' ≡ h)
    × ((((tee h).code ≡ tee_success) × Updates one_output (tee h).params out)
        ⊎ (((tee h).code ≢ tee_success) × (out ≡ (one_output, err (refusal (tee h))))))
invoke_lem_example = invoke_lem tee session 5 one_output 1000 []

abbrev command : Command
command = record { id = 5; params = one_output; timeout = 1000 }

live_lem_example :
    (((tee (opened tee builder (command ∷ []))).code ≡ tee_success)
      × ((made : List Call) × (live tee builder (command ∷ [])
            ≡ close_ta_session (tee (opened tee builder (command ∷ []))).session
              ∷ (made ++ opened tee builder (command ∷ [])))
          × AllInvokeOn (tee (opened tee builder (command ∷ []))).session made
          × (length made ≡ length (command ∷ []))))
    ⊎ (((tee (opened tee builder (command ∷ []))).code ≢ tee_success)
        × (live tee builder (command ∷ []) ≡ opened tee builder (command ∷ [])))
live_lem_example = live_lem tee builder (command ∷ [])

-- An application that sets the size of the first output to 2.
abbrev sizing : Application
sizing = λ command ps m. (arg0, sets_size 2) ∷ []

-- The raw parameters from address 10 on.
abbrev at_ten : Array4 RawParam → Memory
at_ten raws = store (store (store (store (λ p. blank) 10 raws.e0) 11 raws.e1) 12 raws.e2) 13 raws.e3

running : List Call → Reply
unfolding as_raw_params from_raw
running (invoke_ta_command raw timeout command types raws ∷ h) = record {
  code = 0;
  session = 0;
  origin = 0;
  params = gathered 10 (
      changes (from_raw 10 types) (sizing command (from_raw 10 types) (at_ten raws)) (at_ten raws));
}
running h = tee h

running-Runs : Runs running 3 sizing
unfolding running
running-Runs = record {
  base = λ h. 10;
  memory = λ raws h. at_ten raws;
  laid_out = λ raws h. refl;
  answers = λ timeout command types raws h. (refl, refl);
}

invoke-changes_example :
    (invoke_command_with_timeout running (record { raw = 3 }) 5 one_output 1000 []).0
    ≡ (record one_output { e0 = Param.memref_output four_bytes 2 }, ok tt)
invoke-changes_example =
    invoke-changes running (record { raw = 3 }) sizing running-Runs 5 one_output 1000 []
      (omega arith) (omega arith)
