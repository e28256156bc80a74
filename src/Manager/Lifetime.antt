-- ===== src/Manager/Lifetime.antt =====
-- ta_manager/src/lib.rs: the life of one session.
use optee_utee.Prelude.{ℕ, ◌≡◌, refl, arith, ◌==◌, Option, none, some, Bool-cases, ==_iff, inl, inr}
use optee_utee.Error.{Error, Result, ok, err}
use optee_utee.Manager.Protocol.{Parameters, TeeRequest}
use optee_utee.Manager.Sessions.{lookup, lookup-insert, lookup_above}
use optee_utee.Manager.Invariant.{Inv, target, handle_request_others}
use optee_utee.Manager.{
  TrustedApplication, Thread, waiting, ended, Manager, opened, closed, invoked, handle_open_session,
  handle_close_session, handle_invoke_command, handle_request,
}

-- The steps that a session can take: it is born with the context that the application made, works,
-- and ends. There is no step out of the end, and none from the middle back to the beginning.
pub data Life {C : Type 0} : Option (Thread C) → Option (Thread C) → Type 0 where
  stays : {t : Option (Thread C)} → Life t t
  born : {t u : Option (Thread C)} (ctx : C) → t ≡ none → u ≡ some (waiting ctx) → Life t u
  works :
      {t u : Option (Thread C)} (ctx ctx' : C)
      → t ≡ some (waiting ctx)
      → u ≡ some (waiting ctx')
      → Life t u
  dies : {t u : Option (Thread C)} (ctx : C) → t ≡ some (waiting ctx) → u ≡ some ended → Life t u

module _ {S C : Type 0} (ta : TrustedApplication S C) (m : Manager S C) where
  opened-Life :
      (s : S) (result : Result Error C)
      → Inv m
      → Life
          (lookup m.session_id m.sessions)
          (lookup m.session_id (opened ta m s result).1.sessions)
  unfolding opened
  opened-Life s (ok ctx) v =
      born ctx (lookup_above m.session_id m.session_id m.sessions v (omega arith))
        (ground (arith, lookup-insert m.session_id m.session_id (waiting ctx) m.sessions))
  opened-Life s (err e) v = stays

  closed-Life :
      (i : ℕ) (t : Option (Thread C))
      → lookup i m.sessions ≡ t
      → Life (lookup i m.sessions) (lookup i (closed ta m i t).1.sessions)
  unfolding closed
  closed-Life i none e = stays
  closed-Life i (some ended) e = stays
  closed-Life i (some (waiting ctx)) e =
      dies ctx e (ground (arith, lookup-insert i i ended m.sessions))

  invoked-Life :
      (i cmd_id : ℕ) (params : Parameters) (t : Option (Thread C))
      → lookup i m.sessions ≡ t
      → Life (lookup i m.sessions) (lookup i (invoked ta m i cmd_id params t).1.sessions)
  unfolding invoked
  invoked-Life i cmd_id params none e = stays
  invoked-Life i cmd_id params (some ended) e = stays
  invoked-Life i cmd_id params (some (waiting ctx)) e =
      let left = (ta.invoke_command m.state cmd_id params ctx).2 in
      works ctx left e (ground (arith, lookup-insert i i (waiting left) m.sessions))

  target-Life :
      (r : TeeRequest)
      → Inv m
      → Life
          (lookup (target m r) m.sessions)
          (lookup (target m r) (handle_request ta m r).1.sessions)
  unfolding handle_request handle_open_session handle_close_session handle_invoke_command
  target-Life (TeeRequest.open_session uuid connection_method params) v =
      opened-Life (ta.open_session m.state params).0 (ta.open_session m.state params).2 v
  target-Life (TeeRequest.close_session id) v = closed-Life id _ refl
  target-Life (TeeRequest.invoke_command id cmd_id params) v = invoked-Life id cmd_id params _ refl
  target-Life (TeeRequest.request_cancellation id) v = stays

  -- Where no session has a number that is yet to be given out, a request leaves a session as it is
  -- or takes it one step on: a number that is not in the map gets a waiting thread, a waiting thread
  -- goes on waiting or ends; an ended one stays as it is.
  pub handle_request-Life :
      (r : TeeRequest) (i : ℕ)
      → Inv m
      → Life (lookup i m.sessions) (lookup i (handle_request ta m r).1.sessions)
  handle_request-Life r i v = elim (Bool-cases (i == target m r)) [
    | inl e ↦ rw ((==_iff _ _).0 e) (target-Life r v)
    | inr e ↦ rw (handle_request_others ta m r i (λ q. ground arith)) stays
  ]

Life-ended : {C : Type 0} {t u : Option (Thread C)} → Life t u → t ≡ some ended → u ≡ some ended
Life-ended stays e = e
Life-ended (born ctx p q) e = cc
Life-ended (works ctx ctx' p q) e = cc
Life-ended (dies ctx p q) e = q

-- A session that has been closed stays closed through every request, and keeps its number.
pub handle_request_ended :
    {S C : Type 0} (ta : TrustedApplication S C) (m : Manager S C) (r : TeeRequest) (i : ℕ)
    → Inv m
    → lookup i m.sessions ≡ some ended
    → lookup i (handle_request ta m r).1.sessions ≡ some ended
handle_request_ended ta m r i v = Life-ended (handle_request-Life ta m r i v)
