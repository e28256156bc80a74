-- ===== src/Manager/Liveness.antt =====
-- ta_manager/src/lib.rs: when the loop goes on.
use optee_utee.Prelude.{ℕ, ◌≡◌, ◌≢◌, refl, arith, true, List, [], ◌∷◌, Option, none, some}
use optee_utee.Error.{Error, Result, ok, err}
use optee_utee.Manager.Protocol.{Parameters, TeeRequest, TeeResponse}
use optee_utee.Manager.Sessions.{lookup, insert, lookup-insert}
use optee_utee.Manager.Serving.{Connection, broken, delivers, answered, handle_ca_request}
use optee_utee.Manager.{
  TrustedApplication, Thread, waiting, ended, Manager, Answer, replies, next_session_id, opened,
  invoked, handle_open_session, handle_invoke_command, handle_request,
}

-- No session in the map has ended.
abbrev pub AllWaiting : {S C : Type 0} → Manager S C → Type 0
AllWaiting m = (i : ℕ) → lookup i m.sessions ≢ some ended

-- The request opens a session or gives a command.
abbrev pub OpensOrInvokes : TeeRequest → Type 0
OpensOrInvokes (TeeRequest.open_session uuid connection_method params) = Unit {0}
OpensOrInvokes (TeeRequest.close_session id) = ⊥
OpensOrInvokes (TeeRequest.invoke_command id cmd_id params) = Unit {0}
OpensOrInvokes (TeeRequest.request_cancellation id) = ⊥

-- Such a request is delivered, and the client takes its response.
abbrev pub IsServable : Connection → Type 0
IsServable broken = ⊥
IsServable (delivers r w) = OpensOrInvokes r × (w ≡ true)

abbrev pub AllServable : List Connection → Type 0
AllServable [] = Unit {0}
AllServable (c ∷ cs) = IsServable c × AllServable cs

-- The response is of the kind of the request.
abbrev pub SameKind : TeeRequest → TeeResponse → Type 0
SameKind (TeeRequest.open_session uuid method params) (TeeResponse.open_session id result) =
    Unit {0}
SameKind (TeeRequest.close_session id) (TeeResponse.close_session result) = Unit {0}
SameKind (TeeRequest.invoke_command id cmd_id params) (TeeResponse.invoke_command params' result) =
    Unit {0}
SameKind _ _ = ⊥

abbrev pub Responds : Connection → Answer → Type 0
Responds broken a = ⊥
Responds (delivers r w) a = (response : TeeResponse) × (a ≡ replies response) × SameKind r response

abbrev pub AllRespond : List Connection → List Answer → Type 0
AllRespond [] [] = Unit {0}
AllRespond [] (a ∷ rest) = ⊥
AllRespond (c ∷ cs) [] = ⊥
AllRespond (c ∷ cs) (a ∷ rest) = Responds c a × AllRespond cs rest

module _ {S C : Type 0} where
  insert-AllWaiting :
      (m : Manager S C) (s : S) (i n : ℕ) (ctx : C)
      → AllWaiting m
      → AllWaiting
          (record { state = s; sessions = insert i (waiting ctx) m.sessions; session_id = n })
  insert-AllWaiting m s i n ctx v j e =
      v j (ground (arith, lookup-insert i j (waiting ctx) m.sessions))

module _ {S C : Type 0} (ta : TrustedApplication S C) (m : Manager S C) (v : AllWaiting m) where
  -- What one request leads to: a response of its kind, and a manager with no ended session.
  abbrev GoesOn : TeeRequest → Answer × Manager S C → Type 0
  GoesOn r out =
      ((response : TeeResponse) × (out.0 ≡ replies response) × SameKind r response)
      × AllWaiting out.1

  opened-GoesOn :
      (uuid : List ℕ) (method : ℕ) (params : Parameters) (s : S) (result : Result Error C)
      → GoesOn (TeeRequest.open_session uuid method params) (opened ta m s result)
  unfolding opened
  opened-GoesOn uuid method params s (ok ctx) =
      ((_, refl, tt), insert-AllWaiting m s m.session_id (next_session_id m.session_id) ctx v)
  opened-GoesOn uuid method params s (err e) = ((_, refl, tt), v)

  invoked-GoesOn :
      (id cmd_id : ℕ) (params : Parameters) (t : Option (Thread C))
      → lookup id m.sessions ≡ t
      → GoesOn (TeeRequest.invoke_command id cmd_id params) (invoked ta m id cmd_id params t)
  unfolding invoked
  invoked-GoesOn id cmd_id params none e = ((_, refl, tt), v)
  invoked-GoesOn id cmd_id params (some ended) e = absurd (v id e)
  invoked-GoesOn id cmd_id params (some (waiting ctx)) e =
      let out = ta.invoke_command m.state cmd_id params ctx in
      ((_, refl, tt), insert-AllWaiting m out.0 id m.session_id out.2 v)

  request-GoesOn : (r : TeeRequest) → OpensOrInvokes r → GoesOn r (handle_request ta m r)
  unfolding handle_request handle_open_session handle_invoke_command
  request-GoesOn (TeeRequest.open_session uuid method params) c =
      let out = ta.open_session m.state params in opened-GoesOn uuid method params out.0 out.2
  request-GoesOn (TeeRequest.close_session id) c = absurd c
  request-GoesOn (TeeRequest.invoke_command id cmd_id params) c =
      invoked-GoesOn id cmd_id params _ refl
  request-GoesOn (TeeRequest.request_cancellation id) c = absurd c

-- A manager with no ended session answers every connection of clients that open sessions, give
-- commands to any session number and take their responses: one response for each, in order, of the
-- kind of its request.
pub handle_ca_request_responds :
    {S C : Type 0} (ta : TrustedApplication S C) (cs : List Connection) (m : Manager S C)
    → AllWaiting m
    → AllServable cs
    → AllRespond cs (handle_ca_request ta m cs).0
unfolding handle_ca_request
handle_ca_request_responds ta [] m v h = tt
handle_ca_request_responds ta (broken ∷ cs) m v h = absurd h.0
handle_ca_request_responds ta (delivers r w ∷ cs) m v h =
    let ((response, e, kind), v') = request-GoesOn ta m v r h.0.0 in
    let rest = handle_ca_request_responds ta cs (handle_request ta m r).1 v' h.1 in
    rw (h.0.1, e, answered) ((response, refl, kind), rest)
