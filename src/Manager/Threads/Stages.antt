-- ===== src/Manager/Threads/Stages.antt =====
-- ta_manager/src/lib.rs: how far a request is, between the manager and the threads.
use optee_utee.Prelude.{
  ℕ, ◌≡◌, ◌≢◌, refl, ap, sym, ◌∙◌, arith, List, [], ◌∷◌, ◌++◌, Option, none, some,
}
use optee_utee.Error
use optee_utee.Error.{Error, Result, ok, err, to_u32, item_not_found}
use optee_utee.Manager.Protocol.{TeeRequest, TeeResponse}
use optee_utee.Manager.Sessions.{SessionMap, lookup, insert}
use optee_utee.Manager.{
  TrustedApplication, Manager, Thread, waiting, ended, Answer, replies, fails, panics, result_code,
  opened, closed, invoked, handle_open_session, handle_close_session, handle_invoke_command,
  handle_request,
}
use optee_utee.Manager.Threads.{
  SessionMessage, invoke, close, Cell, listening, leaving, gone, idle, receiving, received,
  finished, Config, send, open_cell, start, handle,
}
use optee_utee.Manager.Threads.View.{
  thread, threads, queue_of, Quiet, as_thread, lookup-threads, threads-insert, queue_of-insert,
  threads_same, view,
}

abbrev pub request_of : ℕ → SessionMessage → TeeRequest
request_of id (invoke cmd_id params) = TeeRequest.invoke_command id cmd_id params
request_of id close = TeeRequest.close_session id

abbrev pub missing_of : SessionMessage → TeeResponse
missing_of (invoke cmd_id params) = TeeResponse.invoke_command params (to_u32 item_not_found)
missing_of close = TeeResponse.close_session (to_u32 item_not_found)

module _ {S C : Type 0} (ta : TrustedApplication S C) where
  -- The response of a thread to a message.
  abbrev pub response_of : S → C → SessionMessage → TeeResponse
  response_of s ctx (invoke cmd_id params) =
      let (s', params', ctx', result) = ta.invoke_command s cmd_id params ctx in
      TeeResponse.invoke_command params' (result_code result)
  response_of s ctx close =
      let (s', ctx', result) = ta.close_session s ctx in
      TeeResponse.close_session (result_code result)

  -- How far the request is: `m` is the manager before it.
  pub data Stage (m : Manager S C) (r : TeeRequest) (c : Config S C) : Type 0 where
    before : c.main ≡ idle → view c ≡ m → Quiet c.cells → Stage m r c
    waits :
        (id : ℕ) (msg : SessionMessage)
        → c.main ≡ receiving
        → r ≡ request_of id msg
        → view c ≡ m
        → queue_of (lookup id c.cells) ≡ msg ∷ []
        → ((j : ℕ) → j ≢ id → queue_of (lookup j c.cells) ≡ [])
        → Stage m r c
    responded :
        (response : TeeResponse)
        → c.main ≡ received response
        → handle_request ta m r ≡ (replies response, view c)
        → Quiet c.cells
        → Stage m r c
    over :
        (a : Answer)
        → c.main ≡ finished a
        → handle_request ta m r ≡ (a, view c)
        → Quiet c.cells
        → Stage m r c

  opened-view :
      (c : Config S C) (s : S) (result : Result Error C)
      → (a : Answer) × (((open_cell c s result).main ≡ finished a)
          × (opened ta (view c) s result ≡ (a, view (open_cell c s result))))
  unfolding opened open_cell
  opened-view c s (ok ctx) = (
    replies (TeeResponse.open_session c.session_id 0),
    (refl, rw (threads-insert c.session_id (listening ctx []) c.cells) refl),
  )
  opened-view c s (err e) =
      (replies (TeeResponse.open_session c.session_id (Error.raw_code e)), (refl, refl))

  open_cell-Quiet :
      (c : Config S C) (s : S) (result : Result Error C)
      → Quiet c.cells
      → Quiet (open_cell c s result).cells
  unfolding open_cell
  open_cell-Quiet c s (ok ctx) q j =
      ground (arith, queue_of-insert c.session_id j (listening ctx []) c.cells, q j)
  open_cell-Quiet c s (err e) q j = q j

  -- A request about a session that is not in the map, or whose thread has ended.
  served_none :
      (m : Manager S C) (id : ℕ) (msg : SessionMessage)
      → lookup id m.sessions ≡ none
      → handle_request ta m (request_of id msg) ≡ (replies (missing_of msg), m)
  unfolding handle_request handle_close_session handle_invoke_command
  served_none m id (invoke cmd_id params) e = rw (e, invoked) refl
  served_none m id close e = rw (e, closed) refl

  pub served_ended :
      (m : Manager S C) (id : ℕ) (msg : SessionMessage)
      → lookup id m.sessions ≡ some ended
      → handle_request ta m (request_of id msg) ≡ (fails, m)
  unfolding handle_request handle_close_session handle_invoke_command
  served_ended m id (invoke cmd_id params) e = rw (e, invoked) refl
  served_ended m id close e = rw (e, closed) refl

  pub served_waiting :
      (c : Config S C) (id : ℕ) (ctx : C) (msg : SessionMessage) (queue : List SessionMessage)
      → lookup id (threads c.cells) ≡ some (waiting ctx)
      → handle_request ta (view c) (request_of id msg)
        ≡ (replies (response_of c.state ctx msg), view (handle ta c id ctx msg queue))
  unfolding handle_request handle_close_session handle_invoke_command handle
  served_waiting c id ctx (invoke cmd_id params) queue e =
      rw
        (
          e,
          invoked,
          threads-insert id (listening (ta.invoke_command c.state cmd_id params ctx).2 queue)
              c.cells,
        )
        refl
  served_waiting c id ctx close queue e =
      rw (e, closed, threads-insert id (leaving queue) c.cells) refl

  -- A manager that has sent a message to an open channel waits.
  sent-Stage :
      (c d : Config S C) (id : ℕ) (msg : SessionMessage) (v w : Cell C)
      → lookup id c.cells ≡ some v
      → Quiet c.cells
      → thread w ≡ thread v
      → queue_of (some w) ≡ queue_of (some v) ++ msg ∷ []
      → d ≡ record c { cells = insert id w c.cells; main = receiving }
      → Stage (view c) (request_of id msg) d
  sent-Stage c d id msg v w e q t k p =
      let empty : queue_of (some v) ≡ [] = sym (ap queue_of e) ∙ q id in
      rw p (
        waits id msg refl refl
          (ap
            (λ (s : SessionMap (Thread C)). record {
              state = c.state;
              sessions = s;
              session_id = c.session_id;
            })
            (threads_same id v w c.cells e t))
          (ground (
            arith,
            queue_of-insert id id w c.cells,
            ap (λ (l : List SessionMessage). l ++ msg ∷ []) empty,
            k,
          ))
          (λ j ne. ground (arith, queue_of-insert id j w c.cells, q j)))

  send-Stage :
      (c : Config S C) (id : ℕ) (msg : SessionMessage) (o : Option (Cell C))
      → lookup id c.cells ≡ o
      → Quiet c.cells
      → Stage (view c) (request_of id msg) (send c id msg (missing_of msg) o)
  unfolding send
  send-Stage c id msg none e q =
      over (replies (missing_of msg)) refl
        (served_none (view c) id msg (lookup-threads id c.cells ∙ ap as_thread e)) q
  send-Stage c id msg (some (listening ctx queue)) e q =
      sent-Stage c _ id msg (listening ctx queue) (listening ctx (queue ++ msg ∷ [])) e q refl refl
        refl
  send-Stage c id msg (some (leaving queue)) e q =
      sent-Stage c _ id msg (leaving queue) (leaving (queue ++ msg ∷ [])) e q refl refl refl
  send-Stage c id msg (some gone) e q =
      over fails refl (served_ended (view c) id msg (lookup-threads id c.cells ∙ ap as_thread e)) q

  pub start-Stage :
      (c : Config S C) (r : TeeRequest) → Quiet c.cells → Stage (view c) r (start ta c r)
  unfolding start handle_request handle_open_session
  start-Stage c (TeeRequest.open_session uuid connection_method params) q =
      let s = (ta.open_session c.state params).0 in
      let result = (ta.open_session c.state params).2 in
      let o = opened-view c s result in over o.0 o.1.0 o.1.1 (open_cell-Quiet c s result q)
  start-Stage c (TeeRequest.close_session id) q = send-Stage c id close (lookup id c.cells) refl q
  start-Stage c (TeeRequest.invoke_command id cmd_id params) q =
      send-Stage c id (invoke cmd_id params) (lookup id c.cells) refl q
  start-Stage c (TeeRequest.request_cancellation id) q = over panics refl refl q
