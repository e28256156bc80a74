-- ===== src/Manager/Threads.antt =====
-- ta_manager/src/lib.rs: one request as the steps of the manager and of the session threads, which
-- run at the same time and talk through channels.
pub mod View
pub mod Stages
pub mod Refines
pub mod Progress
pub mod Loop
pub mod Served
mod Tests
use optee_utee.Prelude.{ℕ, ◌+◌, ◌≡◌, List, [], ◌∷◌, ◌++◌, Option, none, some}
use optee_utee.Error
use optee_utee.Error.{Error, Result, ok, err, to_u32, item_not_found}
use optee_utee.Manager.Protocol.{Parameters, TeeRequest, TeeResponse}
use optee_utee.Manager.Sessions.{SessionMap, lookup, insert}
use optee_utee.Manager.{
  TrustedApplication, Answer, replies, fails, panics, result_code, next_session_id,
}

-- Each message also holds the sender of the channel on which the manager awaits the response.
pub data SessionMessage : Type 0 where
  invoke : ℕ → Parameters → SessionMessage
  close : SessionMessage

-- A thread in its loop, with its context and the messages in its channel; a thread behind its
-- `break`, whose receiver is not dropped yet; and one that has returned.
pub data Cell (C : Type 0) : Type 0 where
  listening : C → List SessionMessage → Cell C
  leaving : List SessionMessage → Cell C
  gone : Cell C

-- The manager: before the request, in `resp_rx.recv()`, with a response in that channel, and behind
-- the request.
pub data Main : Type 0 where
  idle receiving : Main
  received : TeeResponse → Main
  finished : Answer → Main

pub record Config (S C : Type 0) : Type 0 where
  pub state : S
  pub cells : SessionMap (Cell C)
  pub session_id : ℕ
  pub main : Main

-- `resp_tx.send(resp)`: nothing happens where nobody receives.
unfoldable pub deliver : TeeResponse → Main → Main
deliver response receiving = received response
deliver response other = other

-- The receiver of a thread is dropped, and the messages in its channel with the senders that they
-- hold: `recv` fails if it waits on one of them.
unfoldable pub disconnect : List SessionMessage → Main → Main
disconnect [] main = main
disconnect (msg ∷ queue) receiving = finished fails
disconnect (msg ∷ queue) other = other

module _ {S C : Type 0} where
  -- `tx.send(msg)?`, or the response where the session is not found.
  unfoldable pub send : Config S C → ℕ → SessionMessage → TeeResponse → Option (Cell C) → Config S C
  send c id msg missing none = record c { main = finished (replies missing) }
  send c id msg missing (some (listening ctx queue)) = record c {
    cells = insert id (listening ctx (queue ++ msg ∷ [])) c.cells;
    main = receiving;
  }
  send c id msg missing (some (leaving queue)) = record c {
    cells = insert id (leaving (queue ++ msg ∷ [])) c.cells;
    main = receiving;
  }
  send c id msg missing (some gone) = record c { main = finished fails }

  unfoldable pub open_cell : Config S C → S → Result Error C → Config S C
  open_cell c s (ok ctx) = record {
    state = s;
    cells = insert c.session_id (listening ctx []) c.cells;
    session_id = next_session_id c.session_id;
    main = finished (replies (TeeResponse.open_session c.session_id 0));
  }
  open_cell c s (err e) = record c {
    state = s;
    session_id = next_session_id c.session_id;
    main = finished (replies (TeeResponse.open_session c.session_id (Error.raw_code e)));
  }

  module _ (ta : TrustedApplication S C) where
    -- What the manager does with a request until it waits or is done.
    unfoldable pub start : Config S C → TeeRequest → Config S C
    unfolding open_cell send
    start c (TeeRequest.open_session uuid connection_method params) =
        let (s, params', result) = ta.open_session c.state params in open_cell c s result
    start c (TeeRequest.close_session id) =
        send c id close (TeeResponse.close_session (to_u32 item_not_found)) (lookup id c.cells)
    start c (TeeRequest.invoke_command id cmd_id params) =
        send c id (invoke cmd_id params) (TeeResponse.invoke_command params (to_u32 item_not_found))
          (lookup id c.cells)
    start c (TeeRequest.request_cancellation id) = record c { main = finished panics }

    -- One round of `session_thread`, for the thread `id`, on a message; `queue` is behind it.
    unfoldable pub handle : Config S C → ℕ → C → SessionMessage → List SessionMessage → Config S C
    unfolding deliver
    handle c id ctx (invoke cmd_id params) queue =
        let (s, params', ctx', result) = ta.invoke_command c.state cmd_id params ctx in
        record c {
          state = s;
          cells = insert id (listening ctx' queue) c.cells;
          main = deliver (TeeResponse.invoke_command params' (result_code result)) c.main;
        }
    handle c id ctx close queue =
        let (s, ctx', result) = ta.close_session c.state ctx in
        record c {
          state = s;
          cells = insert id (leaving queue) c.cells;
          main = deliver (TeeResponse.close_session (result_code result)) c.main;
        }

    -- One step, of the manager or of any thread.
    pub data Step (r : TeeRequest) (c d : Config S C) : Type 0 where
      starts : c.main ≡ idle → d ≡ start c r → Step r c d
      handles :
          (id : ℕ) (ctx : C) (msg : SessionMessage) (queue : List SessionMessage)
          → lookup id c.cells ≡ some (listening ctx (msg ∷ queue))
          → d ≡ handle c id ctx msg queue
          → Step r c d
      departs :
          (id : ℕ) (queue : List SessionMessage)
          → lookup id c.cells ≡ some (leaving queue)
          → d ≡ record c { cells = insert id gone c.cells; main = disconnect queue c.main }
          → Step r c d
      receives :
          (response : TeeResponse)
          → c.main ≡ received response
          → d ≡ record c { main = finished (replies response) }
          → Step r c d

    -- So many steps.
    pub data Steps (r : TeeRequest) (c : Config S C) : ℕ → Config S C → Type 0 where
      here : {n : ℕ} → n ≡ 0 → Steps r c n c
      further :
          {n k : ℕ} {d e : Config S C} → Steps r c n d → Step r d e → k ≡ n + 1 → Steps r c k e
