-- ===== src/Manager.antt =====
-- ta_manager/src/lib.rs and ta_manager/src/protocol.rs: the simulator's manager, which serves the
-- requests of client applications and runs one thread for each session.
pub mod Protocol
pub mod Sessions
pub mod Framing
pub mod Invariant
pub mod Lifetime
pub mod Serving
pub mod Liveness
pub mod Threads
pub mod Running
pub mod Wire
mod Tests
use optee_utee.Prelude.{
  ℕ, ◌+◌, ◌%◌, u32_mod, Bool, if◌then◌else◌, List, [], ◌∷◌, Option, none, some,
}
use optee_utee.Error
use optee_utee.Error.{Error, Result, ok, err, to_u32, item_not_found}
use Protocol.{Parameters, TeeRequest, TeeResponse}
use Sessions.{SessionMap, lookup, insert}

-- `trait TrustedApplication`, a parameter: `S` is what the application shares between its sessions,
-- `C` the context of one session. A method returns the state, the parameters and the context that
-- it leaves, beside its result.
pub record TrustedApplication (S C : Type 0) : Type 0 where
  pub create : S → S × Result Error (Unit {0})
  pub open_session : S → Parameters → S × Parameters × Result Error C
  pub close_session : S → C → S × C × Result Error (Unit {0})
  pub invoke_command : S → ℕ → Parameters → C → S × Parameters × C × Result Error (Unit {0})

-- A session thread waits for a message with its context, or has returned. Then its receiver is
-- gone, and sending to it fails.
pub data Thread (C : Type 0) : Type 0 where
  waiting : C → Thread C
  ended : Thread C

pub record Manager (S C : Type 0) : Type 0 where
  pub state : S
  pub sessions : SessionMap (Thread C)
  pub session_id : ℕ

-- What comes of a connection: a response, an error that `?` carries out of the loop, or a panic.
pub data Answer : Type 0 where
  replies : TeeResponse → Answer
  fails : Answer
  panics : Answer

-- The code of a result: 0, or that of the error.
unfoldable pub result_code : {A : Type 0} → Result Error A → ℕ
result_code (ok a) = 0
result_code (err e) = Error.raw_code e

unfoldable pub new : {S C : Type 0} → S → Manager S C
new s = record { state = s; sessions = []; session_id = 1 }

-- `fetch_add` returns the old value, and wraps.
unfoldable pub next_session_id : ℕ → ℕ
next_session_id id = (id + 1) % u32_mod

module _ {S C : Type 0} (ta : TrustedApplication S C) where
  -- `handle_open_session`: the identifier is used up whether the session opens or not.
  opened : Manager S C → S → Result Error C → Answer × Manager S C
  opened m s (ok ctx) = (
    replies (TeeResponse.open_session m.session_id 0),
    record {
      state = s;
      sessions = insert m.session_id (waiting ctx) m.sessions;
      session_id = next_session_id m.session_id;
    },
  )
  opened m s (err e) = (
    replies (TeeResponse.open_session m.session_id (Error.raw_code e)),
    record m { state = s; session_id = next_session_id m.session_id },
  )

  unfoldable pub handle_open_session : Manager S C → Parameters → Answer × Manager S C
  unfolding opened
  handle_open_session m params =
      let (s, params', result) = ta.open_session m.state params in opened m s result

  -- `handle_close_session` with the thread's part, `SessionMessage::Close`: the thread answers and
  -- returns. Nothing takes the session out of the map.
  closed : Manager S C → ℕ → Option (Thread C) → Answer × Manager S C
  closed m id none = (replies (TeeResponse.close_session (to_u32 item_not_found)), m)
  closed m id (some ended) = (fails, m)
  closed m id (some (waiting ctx)) =
      let (s, ctx', result) = ta.close_session m.state ctx in
      (
        replies (TeeResponse.close_session (result_code result)),
        record m { state = s; sessions = insert id ended m.sessions },
      )

  unfoldable pub handle_close_session : Manager S C → ℕ → Answer × Manager S C
  unfolding closed result_code
  handle_close_session m id = closed m id (lookup id m.sessions)

  -- `handle_invoke_command` with the thread's part, `SessionMessage::Invoke`.
  invoked : Manager S C → ℕ → ℕ → Parameters → Option (Thread C) → Answer × Manager S C
  invoked m id cmd_id params none =
      (replies (TeeResponse.invoke_command params (to_u32 item_not_found)), m)
  invoked m id cmd_id params (some ended) = (fails, m)
  invoked m id cmd_id params (some (waiting ctx)) =
      let (s, params', ctx', result) = ta.invoke_command m.state cmd_id params ctx in
      (
        replies (TeeResponse.invoke_command params' (result_code result)),
        record m { state = s; sessions = insert id (waiting ctx') m.sessions },
      )

  unfoldable pub handle_invoke_command : Manager S C → ℕ → ℕ → Parameters → Answer × Manager S C
  unfolding invoked result_code
  handle_invoke_command m id cmd_id params = invoked m id cmd_id params (lookup id m.sessions)

  -- The `match req` of `handle_ca_request`; a cancellation is `todo!()`.
  unfoldable pub handle_request : Manager S C → TeeRequest → Answer × Manager S C
  handle_request m (TeeRequest.open_session uuid connection_method params) =
      handle_open_session m params
  handle_request m (TeeRequest.close_session id) = handle_close_session m id
  handle_request m (TeeRequest.invoke_command id cmd_id params) =
      handle_invoke_command m id cmd_id params
  handle_request m (TeeRequest.request_cancellation id) = (panics, m)
