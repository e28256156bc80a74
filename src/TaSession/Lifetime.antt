-- ===== src/TaSession/Lifetime.antt =====
-- src/ta_session.rs: the calls over the life of one session.
use optee_utee.Prelude.{
  ℕ, ◌≡◌, refl, sym, ◌≢◌, ◌⊎◌, inl, inr, ◌∙◌, ap, arith, List, [], ◌∷◌, ◌++◌, append_assoc, length,
  length-append,
}
use optee_utee.Codes.{tee_success}
use optee_utee.Error.{ok, err}
use optee_utee.TeeParams.{TeeParams, raw_param_types, as_raw_params}
use optee_utee.TaSession.{
  Call, open_ta_session, invoke_ta_command, close_ta_session, Reply, TaSessionBuilder, TaSession,
  build, invoke_command_with_timeout, drop,
}
use optee_utee.TaSession.Laws.{opening, build_lem}

-- A command that the client gives: its number, its parameters and its timeout.
pub record Command : Type 0 where
  pub id : ℕ
  pub params : TeeParams
  pub timeout : ℕ

-- The call is a command on this session.
abbrev pub InvokesOn : ℕ → Call → Type 0
InvokesOn raw (open_ta_session uuid timeout types params) = ⊥
InvokesOn raw (invoke_ta_command session timeout id types params) = session ≡ raw
InvokesOn raw (close_ta_session session) = ⊥

abbrev pub AllInvokeOn : ℕ → List Call → Type 0
AllInvokeOn raw [] = Unit {0}
AllInvokeOn raw (c ∷ cs) = InvokesOn raw c × AllInvokeOn raw cs

module _ (tee : List Call → Reply) where
  pub commands : TaSession → List Command → List Call → List Call
  commands s [] h = h
  commands s (c ∷ cs) h =
      commands s cs (invoke_command_with_timeout tee s c.id c.params c.timeout h).1

  -- Open, give the commands in order, and let the session go out of scope; a session that did not
  -- open gets none of this.
  pub live : TaSessionBuilder → List Command → List Call
  live b cs = elim (build tee b []).0 [
    | ok s ↦ drop s (commands s cs (build tee b []).1)
    | err e ↦ (build tee b []).1
  ]

AllInvokeOn-append :
    (raw : ℕ) (xs ys : List Call)
    → AllInvokeOn raw xs
    → AllInvokeOn raw ys
    → AllInvokeOn raw (xs ++ ys)
AllInvokeOn-append raw [] ys h k = k
AllInvokeOn-append raw (x ∷ xs) ys h k = (h.0, AllInvokeOn-append raw xs ys h.1 k)

abbrev Added : ℕ → List Call → List Command → List Call → Type 0
Added raw h cs h' =
    (made : List Call) × (h' ≡ made ++ h) × AllInvokeOn raw made × (length made ≡ length cs)

module _ (tee : List Call → Reply) where
  commands-Added :
      (s : TaSession) (cs : List Command) (h : List Call) → Added s.raw h cs (commands tee s cs h)
  unfolding commands invoke_command_with_timeout
  commands-Added s [] h = ([], refl, tt, refl)
  commands-Added s (c ∷ cs) h =
      let call =
        invoke_ta_command s.raw c.timeout c.id (raw_param_types c.params)
          (as_raw_params c.params) in
      let (made, e, on, n) = commands-Added s cs (call ∷ h) in
      (
        made ++ call ∷ [],
        e ∙ sym (append_assoc made (call ∷ []) h),
        AllInvokeOn-append s.raw made (call ∷ []) on (refl, tt),
        omega (arith, n, length-append made (call ∷ [])),
      )

module _ (tee : List Call → Reply) (b : TaSessionBuilder) (cs : List Command) where
  -- The first call of a session's life, as the only one so far.
  abbrev pub opened : List Call
  opened = opening tee b []

  -- A session that opens makes, between its opening and its one close, exactly one call for each
  -- command, on the handle that the opening gave; the close is the last call, on the same handle. A
  -- session that does not open makes no call but the failed one.
  pub live_lem :
      (((tee opened).code ≡ tee_success)
        × ((made : List Call) × (live tee b cs
              ≡ close_ta_session (tee opened).session ∷ (made ++ opened))
            × AllInvokeOn (tee opened).session made
            × (length made ≡ length cs)))
      ⊎ (((tee opened).code ≢ tee_success) × (live tee b cs ≡ opened))
  unfolding live drop
  live_lem = elim (build_lem tee b []).1 [
    | inl (e, r) ↦
        let added = commands-Added tee (record { raw = (tee opened).session }) cs opened in
        inl (
          e,
          (
            added.0,
            rw (r, live, (build_lem tee b []).0)
                (ap (λ t. close_ta_session (tee opened).session ∷ t) added.1),
            added.2,
            added.3,
          ),
        )
    | inr (e, r) ↦ inr (e, rw (r, live) (build_lem tee b []).0)
  ]
