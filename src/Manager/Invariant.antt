-- ===== src/Manager/Invariant.antt =====
-- ta_manager/src/lib.rs: which sessions a request can touch.
use optee_utee.Prelude.{ℕ, ◌+◌, ◌≤◌, ◌<◌, u32_mod, ◌≡◌, ◌≢◌, refl, arith, Option, none, some}
use optee_utee.Error.{Error, Result, ok, err}
use optee_utee.Manager.Protocol.{Parameters, TeeRequest}
use optee_utee.Manager.Sessions.{
  lookup, insert, lookup-insert, Below, Below-mono, insert-Below, lookup-lt,
}
use optee_utee.Manager.{
  TrustedApplication, Thread, waiting, ended, Manager, next_session_id, opened, closed, invoked,
  handle_open_session, handle_close_session, handle_invoke_command, handle_request,
}

-- No identifier in the map has yet to be given out.
abbrev pub Inv : {S C : Type 0} → Manager S C → Type 0
Inv m = Below m.session_id m.sessions

-- The session that a request is about.
abbrev pub target : {S C : Type 0} → Manager S C → TeeRequest → ℕ
target m (TeeRequest.open_session uuid connection_method params) = m.session_id
target m (TeeRequest.close_session id) = id
target m (TeeRequest.invoke_command id cmd_id params) = id
target m (TeeRequest.request_cancellation id) = id

-- How a request on the session `i` changes the manager.
record Touches {S C : Type 0} (m n : Manager S C) (i : ℕ) : Type 0 where
  others : (j : ℕ) → j ≢ i → lookup j n.sessions ≡ lookup j m.sessions
  counter : n.session_id ≤ m.session_id + 1
  keeps : m.session_id + 1 < u32_mod → Inv m → Inv n

module _ {S C : Type 0} where
  unchanged : (m : Manager S C) (i : ℕ) → Touches m m i
  unchanged m i = record { others = λ j ne. refl; counter = omega arith; keeps = λ h v. v }

  -- A session that is in the map is given a new thread.
  writes :
      (m : Manager S C) (s : S) (i : ℕ) (t u : Thread C)
      → lookup i m.sessions ≡ some t
      → Touches m (record m { state = s; sessions = insert i u m.sessions }) i
  writes m s i t u e = record {
    others = λ j ne. ground (arith, lookup-insert i j u m.sessions);
    counter = omega arith;
    keeps = λ h v.
        insert-Below m.session_id i u m.sessions (lookup-lt m.session_id i m.sessions t v e) v;
  }

module _ {S C : Type 0} (ta : TrustedApplication S C) where
  opened-Touches :
      (m : Manager S C) (s : S) (result : Result Error C)
      → Touches m (opened ta m s result).1 m.session_id
  unfolding opened next_session_id
  opened-Touches m s (ok ctx) = record {
    others = λ j ne. ground (arith, lookup-insert m.session_id j (waiting ctx) m.sessions);
    counter = omega arith;
    keeps = λ h v.
        insert-Below _ m.session_id (waiting ctx) m.sessions (omega arith)
          (Below-mono m.session_id _ m.sessions (omega arith) v);
  }
  opened-Touches m s (err e) = record {
    others = λ j ne. refl;
    counter = omega arith;
    keeps = λ h v. Below-mono m.session_id _ m.sessions (omega arith) v;
  }

  closed-Touches :
      (m : Manager S C) (i : ℕ) (t : Option (Thread C))
      → lookup i m.sessions ≡ t
      → Touches m (closed ta m i t).1 i
  unfolding closed
  closed-Touches m i none e = unchanged m i
  closed-Touches m i (some ended) e = unchanged m i
  closed-Touches m i (some (waiting ctx)) e = writes m _ i (waiting ctx) ended e

  invoked-Touches :
      (m : Manager S C) (i cmd_id : ℕ) (params : Parameters) (t : Option (Thread C))
      → lookup i m.sessions ≡ t
      → Touches m (invoked ta m i cmd_id params t).1 i
  unfolding invoked
  invoked-Touches m i cmd_id params none e = unchanged m i
  invoked-Touches m i cmd_id params (some ended) e = unchanged m i
  invoked-Touches m i cmd_id params (some (waiting ctx)) e = writes m _ i (waiting ctx) _ e

  handle_request-Touches :
      (m : Manager S C) (r : TeeRequest) → Touches m (handle_request ta m r).1 (target m r)
  unfolding handle_request handle_open_session handle_close_session handle_invoke_command
  handle_request-Touches m (TeeRequest.open_session uuid connection_method params) =
      opened-Touches m (ta.open_session m.state params).0 (ta.open_session m.state params).2
  handle_request-Touches m (TeeRequest.close_session id) = closed-Touches m id _ refl
  handle_request-Touches m (TeeRequest.invoke_command id cmd_id params) =
      invoked-Touches m id cmd_id params _ refl
  handle_request-Touches m (TeeRequest.request_cancellation id) = unchanged m id

  -- A request leaves every session but the one that it is about as it was: its thread and its
  -- context. An open is about the session whose number is given out next.
  pub handle_request_others :
      (m : Manager S C) (r : TeeRequest) (j : ℕ)
      → j ≢ target m r
      → lookup j (handle_request ta m r).1.sessions ≡ lookup j m.sessions
  handle_request_others m r = (handle_request-Touches m r).others

  pub handle_request_counter :
      (m : Manager S C) (r : TeeRequest) → (handle_request ta m r).1.session_id ≤ m.session_id + 1
  handle_request_counter m r = (handle_request-Touches m r).counter

  -- While the counter does not wrap, every request keeps the numbers in the map below the next one.
  pub handle_request-Inv :
      (m : Manager S C) (r : TeeRequest)
      → m.session_id + 1 < u32_mod
      → Inv m
      → Inv (handle_request ta m r).1
  handle_request-Inv m r = (handle_request-Touches m r).keeps
