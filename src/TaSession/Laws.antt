-- ===== src/TaSession/Laws.antt =====
-- src/ta_session.rs: what a session tells its client of the replies.
use optee_utee.Prelude.{
  ℕ, ◌≡◌, ◌≢◌, refl, ◌⊎◌, inl, inr, arith, Bool-cases, ◌==◌, ==_iff, List, ◌∷◌, Option, none, some,
  false,
}
use optee_utee.Codes.{tee_success}
use optee_utee.Error
use optee_utee.Error.{Error, Result, ok, err, origin_from_u32}
use optee_utee.TeeParams.{Param, TeeParams, as_raw, as_raw_params, raw_param_types, update_from_raw}
use optee_utee.TeeParams
use optee_utee.TeeParams.Update.{Updates, overflows, update_from_raw_lem}
use optee_utee.TaSession.{
  Call, open_ta_session, invoke_ta_command, Reply, TaSessionBuilder, TaSession, prepare, finish,
  build, invoke_command_with_timeout,
}

-- No parameter overflows by its own raw form.
overflows-as_raw : (p : Param) → overflows p (as_raw p) ≡ false
unfolding as_raw TeeParams.memref
overflows-as_raw (Param.memref_output buffer written) = ground arith
overflows-as_raw (Param.memref_inout buffer written) = ground arith
overflows-as_raw _ = refl

update_from_raw-as_raw_params : (ps : TeeParams) → (update_from_raw ps (as_raw_params ps)).1 ≡ ok tt
unfolding as_raw_params
update_from_raw-as_raw_params ps = ground (
  arith,
  update_from_raw_lem ps (as_raw_params ps),
  overflows-as_raw ps.e0,
  overflows-as_raw ps.e1,
  overflows-as_raw ps.e2,
  overflows-as_raw ps.e3,
)

finish-ok :
    (params : Option TeeParams) (session : ℕ)
    → finish params (prepare params).moved session ≡ ok (record { raw = session })
unfolding prepare finish
finish-ok none session = refl
finish-ok (some ps) session = rw (update_from_raw-as_raw_params ps, finish)

-- The error that a refused call leaves.
abbrev pub refusal : Reply → Error
refusal r = Error.with_origin (Error.from_raw_error r.code) (origin_from_u32 r.origin)

module _ (tee : List Call → Reply) (b : TaSessionBuilder) (h : List Call) where
  -- The one call that `build` makes.
  abbrev pub opening : List Call
  opening =
      open_ta_session b.target_uuid b.timeout (prepare b.params).raw_param_types
        (prepare b.params).pointee
      ∷ h

  -- `build` makes one call, with the target, the timeout and the packed parameters. On success the
  -- session is the handle of the reply, whatever sizes the reply has left in the raw parameters: no
  -- reply is refused with `BadParameters`. Otherwise the error has the code and the origin.
  pub build_lem :
      ((build tee b h).1 ≡ opening)
      × ((((tee opening).code ≡ tee_success)
            × ((build tee b h).0 ≡ ok (record { raw = (tee opening).session })))
          ⊎ (((tee opening).code ≢ tee_success)
              × ((build tee b h).0 ≡ err (refusal (tee opening)))))
  unfolding build
  build_lem = (
    refl,
    elim (Bool-cases ((tee opening).code == tee_success)) [
      | inl e ↦ inl ((==_iff _ _).0 e, rw e (finish-ok b.params (tee opening).session))
      | inr e ↦ inr ((λ q. ground arith), rw e)
    ],
  )

module _ (tee : List Call → Reply) (s : TaSession) (command_id : ℕ) (params : TeeParams)
    (timeout : ℕ) (h : List Call) where
  -- The one call that a command makes.
  abbrev pub invoking : List Call
  invoking =
      invoke_ta_command s.raw timeout command_id (raw_param_types params) (as_raw_params params) ∷ h

  -- A command makes one call, on its session, with the timeout and the packed parameters. On success
  -- the parameters take the reply, or the command is refused because of an output that overflows;
  -- otherwise they are as they were, and the error has the code and the origin of the reply.
  pub invoke_lem :
      let (out, h') = invoke_command_with_timeout tee s command_id params timeout h in
      (h' ≡ invoking)
      × ((((tee invoking).code ≡ tee_success) × Updates params (tee invoking).params out)
          ⊎ (((tee invoking).code ≢ tee_success) × (out ≡ (params, err (refusal (tee invoking))))))
  unfolding invoke_command_with_timeout
  invoke_lem = (
    refl,
    elim (Bool-cases ((tee invoking).code == tee_success)) [
      | inl e ↦ inl ((==_iff _ _).0 e, rw e (update_from_raw_lem params (tee invoking).params))
      | inr e ↦ inr ((λ q. ground arith), rw e)
    ],
  )
