-- ===== src/Manager/Serving.antt =====
-- ta_manager/src/lib.rs: the loop of `handle_ca_request` over the connections, in the order in which
-- the listener accepts them.
use optee_utee.Prelude.{
  ℕ, ◌+◌, ◌<◌, u32_mod, ◌≡◌, ◌++◌, refl, ap, arith, Bool, true, false, List, [], ◌∷◌, some, length,
}
use optee_utee.Manager.Protocol.{TeeRequest}
use optee_utee.Manager.Sessions.{lookup, lookup-insert}
use optee_utee.Manager.Invariant.{Inv, handle_request_counter, handle_request-Inv}
use optee_utee.Manager.Lifetime.{handle_request_ended}
use optee_utee.Manager.{
  TrustedApplication, waiting, ended, Manager, Answer, replies, fails, panics, handle_close_session,
  handle_invoke_command, handle_request,
}

-- A connection is broken if it cannot be accepted, read or decoded. Else it delivers a request, and
-- the response can be written to it or cannot.
pub data Connection : Type 0 where
  broken : Connection
  delivers : TeeRequest → Bool → Connection

-- After an answer: the loop goes on only behind a response that could be written.
unfoldable pub answered :
    {S C : Type 0}
    → Answer
    → Bool
    → Manager S C
    → List Answer × Manager S C
    → List Answer × Manager S C
answered (replies response) true n rest = (replies response ∷ rest.0, rest.1)
answered (replies response) false n rest = (fails ∷ [], n)
answered fails writable n rest = (fails ∷ [], n)
answered panics writable n rest = (panics ∷ [], n)

-- The answers that are written, with the error or the panic that ends the loop.
unfoldable pub handle_ca_request :
    {S C : Type 0}
    → TrustedApplication S C
    → Manager S C
    → List Connection
    → List Answer × Manager S C
unfolding answered
handle_ca_request ta m [] = ([], m)
handle_ca_request ta m (broken ∷ cs) = (fails ∷ [], m)
handle_ca_request ta m (delivers r writable ∷ cs) =
    let (a, n) = handle_request ta m r in answered a writable n (handle_ca_request ta n cs)

answered_cases :
    {S C : Type 0} (P : Manager S C → Type 0) (a : Answer) (writable : Bool) (n : Manager S C)
    (rest : List Answer × Manager S C)
    → P n
    → P rest.1
    → P (answered a writable n rest).1
unfolding answered
answered_cases P (replies response) true n rest here there = there
answered_cases P (replies response) false n rest here there = here
answered_cases P fails writable n rest here there = here
answered_cases P panics writable n rest here there = here

-- The request uses the session: it closes it, or gives it a command.
abbrev pub Uses : ℕ → TeeRequest → Type 0
Uses i (TeeRequest.open_session uuid connection_method params) = ⊥
Uses i (TeeRequest.close_session id) = id ≡ i
Uses i (TeeRequest.invoke_command id cmd_id params) = id ≡ i
Uses i (TeeRequest.request_cancellation id) = ⊥

module _ {S C : Type 0} (ta : TrustedApplication S C) where
  -- Over any connections, as long as the counter does not reach its last value, no session in the
  -- map has a number that is yet to be given out.
  pub handle_ca_request-Inv :
      (cs : List Connection) (m : Manager S C)
      → m.session_id + length cs < u32_mod
      → Inv m
      → Inv (handle_ca_request ta m cs).1
  unfolding handle_ca_request
  handle_ca_request-Inv [] m h v = v
  handle_ca_request-Inv (broken ∷ cs) m h v = v
  handle_ca_request-Inv (delivers r writable ∷ cs) m h v =
      let n = (handle_request ta m r).1 in
      let v' = handle_request-Inv ta m r (omega arith) v in
      answered_cases Inv (handle_request ta m r).0 writable n (handle_ca_request ta n cs) v'
        (handle_ca_request-Inv cs n (omega (arith, handle_request_counter ta m r)) v')

  -- Using an ended session is an error, and changes nothing.
  Uses-ended :
      (m : Manager S C) (i : ℕ) (r : TeeRequest)
      → Uses i r
      → lookup i m.sessions ≡ some ended
      → handle_request ta m r ≡ (fails, m)
  unfolding handle_request handle_close_session handle_invoke_command
  Uses-ended m i (TeeRequest.open_session uuid connection_method params) u e = absurd u
  Uses-ended m i (TeeRequest.close_session id) u e = rw (u, e)
  Uses-ended m i (TeeRequest.invoke_command id cmd_id params) u e = rw (u, e)
  Uses-ended m i (TeeRequest.request_cancellation id) u e = absurd u

  ended_stops :
      (mid : List Connection) (m : Manager S C) (i : ℕ) (r : TeeRequest) (writable : Bool)
      (cs : List Connection)
      → m.session_id + length mid < u32_mod
      → Inv m
      → lookup i m.sessions ≡ some ended
      → Uses i r
      → handle_ca_request ta m (mid ++ delivers r writable ∷ cs)
        ≡ handle_ca_request ta m (mid ++ delivers r writable ∷ [])
  unfolding handle_ca_request
  ended_stops [] m i r writable cs h v e u = rw (Uses-ended m i r u e)
  ended_stops (broken ∷ mid) m i r writable cs h v e u = refl
  ended_stops (delivers q w ∷ mid) m i r writable cs h v e u =
      let n = (handle_request ta m q).1 in
      ap (answered (handle_request ta m q).0 w n) (
        ended_stops mid n i r writable cs (omega (arith, handle_request_counter ta m q))
          (handle_request-Inv ta m q (omega arith) v) (handle_request_ended ta m q i v e) u)

  close_ends :
      (m : Manager S C) (i : ℕ) (ctx : C)
      → lookup i m.sessions ≡ some (waiting ctx)
      → lookup i (handle_request ta m (TeeRequest.close_session i)).1.sessions ≡ some ended
  unfolding handle_request handle_close_session
  close_ends m i ctx e = rw e (ground (arith, lookup-insert i i ended m.sessions))

  -- Once a live session has been closed, the next connection that uses its number again is the last
  -- one that the manager serves, whatever comes between: what is behind it makes no difference to
  -- the answers or to the manager that is left.
  pub used_after_close :
      (m : Manager S C) (i : ℕ) (ctx : C) (mid : List Connection) (r : TeeRequest)
      (w writable : Bool) (cs : List Connection)
      → m.session_id + length mid + 1 < u32_mod
      → Inv m
      → lookup i m.sessions ≡ some (waiting ctx)
      → Uses i r
      → handle_ca_request ta m
          (delivers (TeeRequest.close_session i) w ∷ (mid ++ delivers r writable ∷ cs))
        ≡ handle_ca_request ta m
            (delivers (TeeRequest.close_session i) w ∷ (mid ++ delivers r writable ∷ []))
  unfolding handle_ca_request
  used_after_close m i ctx mid r w writable cs h v e u =
      let close = TeeRequest.close_session i in
      let n = (handle_request ta m close).1 in
      ap (answered (handle_request ta m close).0 w n) (
        ended_stops mid n i r writable cs (omega (arith, handle_request_counter ta m close))
          (handle_request-Inv ta m close (omega arith) v) (close_ends m i ctx e) u)
