-- ===== src/Manager/Threads/Tests.antt =====
-- A request to close a session, as the steps of the manager and of the session's thread.
use optee_utee.Prelude.{true, ℕ, ◌≤◌, ◌≡◌, refl, ◌⊎◌, arith, [], ◌∷◌}
use optee_utee.Manager.Protocol.{TeeRequest, TeeResponse}
use optee_utee.Manager.Sessions.{lookup, insert}
use optee_utee.Manager.{Answer, replies, fails, result_code}
use optee_utee.Manager.Tests.{counting}
use optee_utee.Manager.Threads.{
  close, listening, leaving, idle, receiving, finished, Config, deliver, send, start, handle, Step,
  starts, handles, receives, Steps, here, further,
}
use optee_utee.Manager.Threads.View.{Quiet, view}
use optee_utee.Manager.Threads.Served.{handle_ca_request-Serves}
use optee_utee.Manager.Threads.Loop.{Serves, goes_on, breaks, Serves-handle_ca_request}
use optee_utee.Manager.Serving.{broken, delivers, handle_ca_request}
use optee_utee.Manager.Threads.Progress.{rounds, Steps-end}

abbrev open_one : Config ℕ ℕ
open_one = record { state = 1; cells = (1, listening 2 []) ∷ []; session_id = 2; main = idle }

open_one-Quiet : Quiet open_one.cells
unfolding lookup
open_one-Quiet j = ground arith

abbrev sent_one : Config ℕ ℕ
sent_one = record open_one { cells = (1, listening 2 (close ∷ [])) ∷ []; main = receiving }

abbrev closed_one : Config ℕ ℕ
closed_one = record open_one {
  cells = (1, leaving []) ∷ [];
  main = finished (replies (TeeResponse.close_session 0));
}

abbrev closing : TeeRequest
closing = TeeRequest.close_session 1

open_one-sent : Steps counting closing open_one 1 sent_one
unfolding start send lookup insert
open_one-sent = further (here refl) (starts refl refl) refl

open_one-closed : Steps counting closing open_one 3 closed_one
unfolding handle deliver lookup insert result_code
open_one-closed =
    further (further open_one-sent (handles 1 2 close [] refl refl) refl)
      (receives (TeeResponse.close_session 0) refl refl) refl

Steps-end_example :
    (1 ≤ rounds open_one)
    × (((a : Answer) × (sent_one.main ≡ finished a))
        ⊎ ((e : Config ℕ ℕ) × Step counting closing sent_one e))
Steps-end_example = Steps-end counting closing open_one sent_one 1 open_one-Quiet refl open_one-sent

Serves-handle_ca_request_example :
    handle_ca_request counting (view open_one) (delivers closing true ∷ broken ∷ [])
    ≡ (replies (TeeResponse.close_session 0) ∷ fails ∷ [], view closed_one)
Serves-handle_ca_request_example =
    Serves-handle_ca_request counting (delivers closing true ∷ broken ∷ []) open_one closed_one
      (replies (TeeResponse.close_session 0) ∷ fails ∷ []) open_one-Quiet
      (goes_on closing (broken ∷ []) (TeeResponse.close_session 0) 3 closed_one (fails ∷ []) refl
        open_one-closed refl (breaks [] refl refl refl) refl)

handle_ca_request-Serves_example :
    (e : Config ℕ ℕ) × (Serves counting
        (delivers closing true ∷ delivers closing true ∷ [])
        open_one
        (handle_ca_request counting
          (view open_one)
          (delivers closing true ∷ delivers closing true ∷ [])).0
        e
      × ((handle_ca_request counting
            (view open_one)
            (delivers closing true ∷ delivers closing true ∷ [])).1
          ≡ view e))
handle_ca_request-Serves_example =
    handle_ca_request-Serves counting (delivers closing true ∷ delivers closing true ∷ []) open_one
      open_one-Quiet
