-- ===== src/TaSession.antt =====
-- src/ta_session.rs: sessions with other trusted applications. The system calls are a parameter:
-- `tee` answers a call by the calls made so far, latest first, with the one to answer at the head.
pub mod Laws
pub mod Lifetime
pub mod Command
mod Tests
use optee_utee.Prelude.{ℕ, ◌==◌, if◌then◌else◌, List, [], ◌∷◌, Option, none, some}
use optee_utee.Prelude.Array4.{Array4}
use optee_utee.Codes.{tee_success, tee_timeout_infinite}
use optee_utee.Error
use optee_utee.Error.{Error, Result, ok, err, origin_from_u32}
use optee_utee.Param.{RawParam}
use optee_utee.TeeParams.{TeeParams, as_raw_params, raw_param_types, update_from_raw}

-- A `Uuid` only passes through, so it is any number here, and so is a session handle.
pub data Call : Type 0 where
  open_ta_session : ℕ → ℕ → ℕ → Option (Array4 RawParam) → Call
  invoke_ta_command : ℕ → ℕ → ℕ → ℕ → Array4 RawParam → Call
  close_ta_session : ℕ → Call

-- The status, and what the call leaves in its out parameters and in the raw parameters.
pub record Reply : Type 0 where
  pub code : ℕ
  pub session : ℕ
  pub origin : ℕ
  pub params : Array4 RawParam

pub record TaSessionBuilder : Type 0 where
  pub target_uuid : ℕ
  pub timeout : ℕ
  pub params : Option TeeParams

unfoldable pub new : ℕ → TaSessionBuilder
new uuid = record { target_uuid = uuid; timeout = tee_timeout_infinite; params = none }

unfoldable pub with_timeout : TaSessionBuilder → ℕ → TaSessionBuilder
with_timeout b timeout = record b { timeout = timeout }

unfoldable pub with_params : TaSessionBuilder → TeeParams → TaSessionBuilder
with_params b params = record b { params = some params }

pub record TaSession : Type 0 where
  pub raw : ℕ

-- `raw_params` moves into the third part of the tuple after its address was taken: the call writes
-- to the old place, `pointee`, and `moved` keeps the values from before the call.
pub record Prepared : Type 0 where
  pub raw_param_types : ℕ
  pub pointee : Option (Array4 RawParam)
  pub moved : Option (Array4 RawParam)

unfoldable pub prepare : Option TeeParams → Prepared
prepare none = record { raw_param_types = 0; pointee = none; moved = none }
prepare (some params) = record {
  raw_param_types = raw_param_types params;
  pointee = some (as_raw_params params);
  moved = some (as_raw_params params);
}

-- `if let (Some(params), Some(raw_params)) = …`, then the session. The parameters are dropped with
-- the builder.
unfoldable pub finish : Option TeeParams → Option (Array4 RawParam) → ℕ → Result Error TaSession
finish none raw_params session = ok (record { raw = session })
finish (some params) none session = ok (record { raw = session })
finish (some params) (some raw_params) session = elim (update_from_raw params raw_params).1 [
  | ok _ ↦ ok (record { raw = session })
  | err e ↦ err e
]

module _ (tee : List Call → Reply) where
  unfoldable pub build : TaSessionBuilder → List Call → Result Error TaSession × List Call
  unfolding prepare finish
  build b h =
      let p = prepare b.params in
      let h' = open_ta_session b.target_uuid b.timeout p.raw_param_types p.pointee ∷ h in
      let r = tee h' in
      (
        if r.code == tee_success
            then finish b.params p.moved r.session
            else err (Error.with_origin (Error.from_raw_error r.code) (origin_from_u32 r.origin)),
        h',
      )

  unfoldable pub invoke_command_with_timeout :
      TaSession → ℕ → TeeParams → ℕ → List Call → (TeeParams × Result Error (Unit {0})) × List Call
  invoke_command_with_timeout s command_id params timeout h =
      let h' =
        invoke_ta_command s.raw timeout command_id (raw_param_types params) (as_raw_params params)
        ∷ h in
      let r = tee h' in
      (
        if r.code == tee_success then update_from_raw params r.params else (
          params,
          err (Error.with_origin (Error.from_raw_error r.code) (origin_from_u32 r.origin)),
        ),
        h',
      )

  unfoldable pub invoke_command :
      TaSession → ℕ → TeeParams → List Call → (TeeParams × Result Error (Unit {0})) × List Call
  unfolding invoke_command_with_timeout
  invoke_command s command_id params h =
      invoke_command_with_timeout s command_id params tee_timeout_infinite h

-- `Drop for TaSession`.
unfoldable pub drop : TaSession → List Call → List Call
drop s h = close_ta_session s.raw ∷ h
