-- ===== src/TaSession/Command.antt =====
-- src/ta_session.rs, src/tee_parameter.rs and src/parameter.rs: a command, from the client to the
-- application and back.
use optee_utee.Prelude.{ℕ, ◌≡◌, ap, ◌∙◌, ==_iff, List, ◌∷◌}
use optee_utee.Prelude.Array4.{Array4, Index, map4, All4}
use optee_utee.Codes.{tee_success}
use optee_utee.Error.{ok}
use optee_utee.Param.{Parameter, RawParam, Memory, from_raw}
use optee_utee.TeeParams.{TeeParams, as_raw_params, raw_param_types, update_from_raw}
use optee_utee.TeeParams.Called.{gathered, received, InRange}
use optee_utee.TeeParams.Called.Answer.{
  Change, changes, AllAllowed, untouched, all_changed, update_from_raw-changes,
}
use optee_utee.TaSession.{Call, invoke_ta_command, Reply, TaSession, invoke_command_with_timeout}

-- What an application does with the parameters of a command that it answers with success.
abbrev pub Application : Type 0
Application = ℕ → Array4 Parameter → Memory → List (Index × Change)

-- What the system does with a command to the session `raw`, where the application answers with
-- success: it lays the raw parameters out in the memory of the application, calls it with their
-- types, and returns what is then in their place.
pub record Runs (tee : List Call → Reply) (raw : ℕ) (app : Application) : Type 0 where
  pub base : List Call → ℕ
  pub memory : Array4 RawParam → List Call → Memory
  pub laid_out : (raws : Array4 RawParam) (h : List Call) → gathered (base h) (memory raws h) ≡ raws
  pub answers :
      (timeout command types : ℕ) (raws : Array4 RawParam) (h : List Call)
      → let r = tee (invoke_ta_command raw timeout command types raws ∷ h) in
        let ps = from_raw (base h) types in
        let m = memory raws h in
        (r.code ≡ tee_success) × (r.params ≡ gathered (base h) (changes ps (app command ps m) m))

module _ (tee : List Call → Reply) (s : TaSession) (app : Application)
    (runs : Runs tee s.raw app) where
  -- What the application does with this command.
  abbrev pub done : ℕ → TeeParams → List Call → List (Index × Change)
  done command ps h = app command (received (runs.base h) ps) (runs.memory (as_raw_params ps) h)

  -- After a command that the application answers with success, the client's parameters hold what the
  -- application did with its own, change by change: each output the last change that was made to it,
  -- or what it was if there was none, a buffer then counting as full; and every input what it was.
  -- The values of both are `u32`, and no size that the application sets passes its buffer.
  pub invoke-changes :
      (command : ℕ) (ps : TeeParams) (timeout : ℕ) (h : List Call)
      → All4 InRange ps
      → AllAllowed ps (done command ps h)
      → (invoke_command_with_timeout tee s command ps timeout h).0
        ≡ (all_changed (map4 untouched ps) (done command ps h), ok tt)
  unfolding invoke_command_with_timeout
  invoke-changes command ps timeout h range allowed =
      let raws = as_raw_params ps in
      let (success, params) = runs.answers timeout command (raw_param_types ps) raws h in
      rw ((==_iff _ _).1 success, invoke_command_with_timeout)
        (ap (update_from_raw ps) params
          ∙ update_from_raw-changes (runs.base h) ps (runs.memory raws h) (done command ps h) range
              (runs.laid_out raws h) allowed)
