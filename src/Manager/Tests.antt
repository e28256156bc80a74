-- ===== src/Manager/Tests.antt =====
-- A small application, run by the manager, and the theorems about it at this run.
use optee_utee.Prelude.{ℕ, zero, suc, ◌+◌, ◌≡◌, ◌≢◌, refl, arith, true, List, [], ◌∷◌, ◌++◌, some}
use optee_utee.Error
use optee_utee.Error.{ok, err, busy}
use optee_utee.Param.{ParamType}
use optee_utee.Manager.Protocol.{Parameter, Parameters, TeeRequest}
use optee_utee.Manager.Sessions.{lookup, insert}
use optee_utee.Manager.{
  TrustedApplication, Manager, waiting, ended, new, next_session_id, handle_request,
  handle_open_session, handle_invoke_command,
}
use optee_utee.Manager.Framing.{frame}
use optee_utee.Manager.Invariant.{Inv, handle_request_others}
use optee_utee.Manager.Lifetime.{Life, handle_request-Life}
use optee_utee.Manager.Serving.{
  delivers, answered, handle_ca_request, handle_ca_request-Inv, used_after_close,
}
use optee_utee.Manager.Liveness.{AllRespond, handle_ca_request_responds}

-- Each session counts its commands; command 0 is refused.
abbrev pub counting : TrustedApplication ℕ ℕ
counting = record {
  create = λ s. (s, ok tt);
  open_session = λ s params. (s + 1, params, ok 0);
  close_session = λ s ctx. (s, ctx, ok tt);
  invoke_command = λ s cmd_id params ctx. elim cmd_id [
    | zero ↦ (s, params, ctx, err (Error.new busy))
    | suc n ↦ (s, params, ctx + 1, ok tt)
  ];
}

abbrev pub no_param : ParamType → List ℕ → Parameter
no_param t bytes = record {
  param = record { bytes = bytes; values = record { a = 0; b = 0 } };
  param_type = t;
}

abbrev pub no_params : Parameters
no_params = record {
  e0 = no_param ParamType.none [];
  e1 = no_param ParamType.none [];
  e2 = no_param ParamType.none [];
  e3 = no_param ParamType.none [];
}

abbrev pub opens : TeeRequest
opens = TeeRequest.open_session [] 0 no_params

-- One live session, number 1, that has had two commands.
abbrev live : Manager ℕ ℕ
live = record { state = 1; sessions = (1, waiting 2) ∷ []; session_id = 2 }

live_reached :
    (handle_ca_request counting (new 0) (
      delivers opens true
      ∷ delivers (TeeRequest.invoke_command 1 5 no_params) true
      ∷ delivers (TeeRequest.invoke_command 1 6 no_params) true
      ∷ [])).1
    ≡ live
unfolding handle_ca_request answered handle_request handle_open_session handle_invoke_command new
    next_session_id lookup insert
live_reached = refl

handle_request_others_example :
    lookup 1 (handle_request counting live opens).1.sessions ≡ some (waiting 2)
unfolding lookup
handle_request_others_example = handle_request_others counting live opens 1 (λ e. omega arith)

handle_ca_request-Inv_example :
    Inv (handle_ca_request counting (new 0) (delivers opens true ∷ [])).1
unfolding new
handle_ca_request-Inv_example =
    handle_ca_request-Inv counting (delivers opens true ∷ []) (new 0) (omega arith) tt

handle_request-Life_example :
    Life
      (some (waiting 2))
      (lookup 1 (handle_request counting live (TeeRequest.close_session 1)).1.sessions)
unfolding lookup
handle_request-Life_example =
    handle_request-Life counting live (TeeRequest.close_session 1) 1 (omega arith, tt)

used_after_close_example :
    handle_ca_request counting live (
      delivers (TeeRequest.close_session 1) true ∷ (delivers opens true ∷ [])
      ++ delivers (TeeRequest.invoke_command 1 5 no_params) true ∷ delivers opens true ∷ [])
    ≡ handle_ca_request counting live (
        delivers (TeeRequest.close_session 1) true ∷ (delivers opens true ∷ [])
        ++ delivers (TeeRequest.invoke_command 1 5 no_params) true ∷ [])
unfolding lookup
used_after_close_example =
    used_after_close counting live 1 2 (delivers opens true ∷ [])
      (TeeRequest.invoke_command 1 5 no_params) true true (delivers opens true ∷ []) (omega arith)
      (omega arith, tt) refl refl

live_waiting : (i : ℕ) → lookup i live.sessions ≢ some ended
unfolding lookup
live_waiting i e = ground arith

handle_ca_request_responds_example :
    AllRespond
      (delivers opens true ∷ delivers (TeeRequest.invoke_command 7 5 no_params) true ∷ [])
      (handle_ca_request counting live
        (delivers opens true ∷ delivers (TeeRequest.invoke_command 7 5 no_params) true ∷ [])).0
handle_ca_request_responds_example =
    handle_ca_request_responds counting
      (delivers opens true ∷ delivers (TeeRequest.invoke_command 7 5 no_params) true ∷ []) live
      live_waiting ((tt, refl), ((tt, refl), tt))

abbrev short_message : List ℕ
short_message = 7 ∷ 8 ∷ []

frame-short : frame short_message ≡ 2 ∷ 0 ∷ 0 ∷ 0 ∷ 7 ∷ 8 ∷ []
unfolding frame
frame-short = refl
