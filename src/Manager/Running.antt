-- ===== src/Manager/Running.antt =====
-- ta_manager/src/lib.rs: `run_ta`, from the creation of the trusted application to its last client.
use optee_utee.Prelude.{Bool, if◌then◌else◌, List}
use optee_utee.Error.{Error, ok, err}
use optee_utee.Manager.{TrustedApplication, Manager, Answer}
use optee_utee.Manager.Serving.{Connection, handle_ca_request}

-- Whether the registration can be sent to the server, whether the listener can be bound to its path,
-- and the connections that the listener then accepts.
pub record Surroundings : Type 0 where
  pub registered : Bool
  pub bound : Bool
  pub connections : List Connection

-- How the call ends: at the error of `create`, at one of the sockets, or behind the connections.
pub data RunEnd : Type 0 where
  not_created : Error → RunEnd
  not_registered not_bound : RunEnd
  served : List Answer → RunEnd

module _ {S C : Type 0} (ta : TrustedApplication S C) where
  serve : Surroundings → Manager S C → RunEnd × Manager S C
  unfolding handle_ca_request
  serve around m =
      let (answers, n) = handle_ca_request ta m around.connections in
      if around.registered
      then if around.bound then (served answers, n) else (not_bound, m)
      else (not_registered, m)

  unfoldable pub run_ta : Surroundings → Manager S C → RunEnd × Manager S C
  unfolding serve
  run_ta around m =
      let (s, result) = ta.create m.state in
      let created : Manager S C = record m { state = s } in
      elim result [ ok u ↦ serve around created | err e ↦ (not_created e, created) ]
