-- ===== src/Manager/Threads/Progress.antt =====
-- ta_manager/src/lib.rs: the manager and its threads come to an end with each request.
use optee_utee.Prelude.{
  ℕ, ◌+◌, ◌≤◌, ◌≡◌, refl, ap, ◌∙◌, ◌⊎◌, inl, inr, arith, List, [], ◌∷◌, ◌++◌, length, length-append,
  Option, none, some,
}
use optee_utee.Error.{Error, Result, ok, err}
use optee_utee.Manager.Protocol.{TeeRequest, TeeResponse}
use optee_utee.Manager.Sessions.{SessionMap, lookup, insert}
use optee_utee.Manager.{TrustedApplication, Manager, Answer, result_code}
use optee_utee.Manager.Threads.{
  SessionMessage, invoke, close, Cell, listening, leaving, gone, Main, idle, receiving, received,
  finished, Config, deliver, disconnect, send, open_cell, start, handle, Step, starts, handles,
  departs, receives, Steps, here, further,
}
use optee_utee.Manager.Threads.View.{queue_of, Quiet, view}
use optee_utee.Manager.Threads.Stages.{Stage, before, waits, responded, over}
use optee_utee.Manager.Threads.Refines.{Steps-Stage}

-- The rounds that are left to a thread, to all of them and to the manager, at most.
module _ {C : Type 0} where
  abbrev cell_rounds : Cell C → ℕ
  cell_rounds (listening ctx queue) = 2 + length queue
  cell_rounds (leaving queue) = 1
  cell_rounds gone = 0

  abbrev rounds_at : Option (Cell C) → ℕ
  rounds_at none = 0
  rounds_at (some v) = cell_rounds v

  unfoldable pub total_rounds : SessionMap (Cell C) → ℕ
  total_rounds [] = 0
  total_rounds ((i, v) ∷ m) = cell_rounds v + total_rounds m

  total_rounds-insert :
      (i : ℕ) (v : Cell C) (m : SessionMap (Cell C))
      → total_rounds (insert i v m) + rounds_at (lookup i m) ≡ total_rounds m + cell_rounds v
  unfolding lookup insert total_rounds
  total_rounds-insert i v [] = omega arith
  total_rounds-insert i v ((j, w) ∷ m) = ground (arith, total_rounds-insert i v m)

abbrev main_rounds : Main → ℕ
main_rounds idle = 3
main_rounds receiving = 1
main_rounds (received response) = 1
main_rounds (finished a) = 0

abbrev pub rounds : {S C : Type 0} → Config S C → ℕ
rounds c = main_rounds c.main + total_rounds c.cells

main_rounds-deliver :
    (response : TeeResponse) (n : Main) → main_rounds (deliver response n) ≤ main_rounds n
unfolding deliver
main_rounds-deliver response idle = omega arith
main_rounds-deliver response receiving = omega arith
main_rounds-deliver response (received other) = omega arith
main_rounds-deliver response (finished a) = omega arith

main_rounds-disconnect :
    (queue : List SessionMessage) (n : Main) → main_rounds (disconnect queue n) ≤ main_rounds n
unfolding disconnect
main_rounds-disconnect [] n = omega arith
main_rounds-disconnect (msg ∷ queue) idle = omega arith
main_rounds-disconnect (msg ∷ queue) receiving = omega arith
main_rounds-disconnect (msg ∷ queue) (received other) = omega arith
main_rounds-disconnect (msg ∷ queue) (finished a) = omega arith

module _ {S C : Type 0} (ta : TrustedApplication S C) where
  rounds-open_cell :
      (c : Config S C) (s : S) (result : Result Error C)
      → rounds (open_cell c s result) ≤ total_rounds c.cells + 2
  unfolding open_cell
  rounds-open_cell c s (ok ctx) =
      omega (arith, total_rounds-insert c.session_id (listening ctx []) c.cells)
  rounds-open_cell c s (err e) = omega arith

  rounds-send :
      (c : Config S C) (id : ℕ) (msg : SessionMessage) (response : TeeResponse)
      (o : Option (Cell C))
      → lookup id c.cells ≡ o
      → rounds (send c id msg response o) ≤ total_rounds c.cells + 2
  unfolding send
  rounds-send c id msg response none e = omega arith
  rounds-send c id msg response (some (listening ctx queue)) e = omega (
    arith,
    total_rounds-insert id (listening ctx (queue ++ msg ∷ [])) c.cells,
    ap rounds_at e,
    length-append queue (msg ∷ []),
  )
  rounds-send c id msg response (some (leaving queue)) e =
      omega (arith, total_rounds-insert id (leaving (queue ++ msg ∷ [])) c.cells, ap rounds_at e)
  rounds-send c id msg response (some gone) e = omega arith

  rounds-start :
      (c : Config S C) (r : TeeRequest) → rounds (start ta c r) ≤ total_rounds c.cells + 2
  unfolding start
  rounds-start c (TeeRequest.open_session uuid connection_method params) =
      rounds-open_cell c (ta.open_session c.state params).0 (ta.open_session c.state params).2
  rounds-start c (TeeRequest.close_session id) = rounds-send c id close _ (lookup id c.cells) refl
  rounds-start c (TeeRequest.invoke_command id cmd_id params) =
      rounds-send c id (invoke cmd_id params) _ (lookup id c.cells) refl
  rounds-start c (TeeRequest.request_cancellation id) = omega arith

  rounds-handle :
      (c : Config S C) (id : ℕ) (ctx : C) (msg : SessionMessage) (queue : List SessionMessage)
      → lookup id c.cells ≡ some (listening ctx (msg ∷ queue))
      → rounds (handle ta c id ctx msg queue) + 1 ≤ rounds c
  unfolding handle
  rounds-handle c id ctx (invoke cmd_id params) queue e =
      let result = ta.invoke_command c.state cmd_id params ctx in
      omega (
        arith,
        total_rounds-insert id (listening result.2 queue) c.cells,
        ap rounds_at e,
        main_rounds-deliver (TeeResponse.invoke_command result.1 (result_code result.3)) c.main,
      )
  rounds-handle c id ctx close queue e =
      let result = ta.close_session c.state ctx in
      omega (
        arith,
        total_rounds-insert id (leaving queue) c.cells,
        ap rounds_at e,
        main_rounds-deliver (TeeResponse.close_session (result_code result.2)) c.main,
      )

  pub rounds-Step : (r : TeeRequest) (c d : Config S C) → Step ta r c d → rounds d + 1 ≤ rounds c
  rounds-Step r c d (starts w p) = rw p (omega (arith, ap main_rounds w, rounds-start c r))
  rounds-Step r c d (handles id ctx msg queue l p) = rw p (rounds-handle c id ctx msg queue l)
  rounds-Step r c d (departs id queue l p) = rw p (
      omega (
        arith,
        total_rounds-insert id gone c.cells,
        ap rounds_at l,
        main_rounds-disconnect queue c.main,
      ))
  rounds-Step r c d (receives response w p) = rw p (omega (arith, ap main_rounds w))

  rounds-Steps :
      (r : TeeRequest) (c d : Config S C) (n : ℕ) → Steps ta r c n d → rounds d + n ≤ rounds c
  rounds-Steps r c d n (here z) = omega arith
  rounds-Steps r c e k (further {n = n} {d = d} steps step z) =
      omega (arith, rounds-Steps r c d n steps, rounds-Step r d e step)

  -- The thread with a message in its channel takes the message, or drops its receiver.
  queue_of-Step :
      (r : TeeRequest) (d : Config S C) (id : ℕ) (msg : SessionMessage) (o : Option (Cell C))
      → lookup id d.cells ≡ o
      → queue_of o ≡ msg ∷ []
      → (e : Config S C) × Step ta r d e
  queue_of-Step r d id msg none l k = absurd (cc k)
  queue_of-Step r d id msg (some (listening ctx queue)) l k =
      (_, handles id ctx msg [] (l ∙ ap (λ q. some (listening ctx q)) k) refl)
  queue_of-Step r d id msg (some (leaving queue)) l k = (_, departs id queue l refl)
  queue_of-Step r d id msg (some gone) l k = absurd (cc k)

  Stage-Step :
      (r : TeeRequest) (m : Manager S C) (d : Config S C)
      → Stage ta m r d
      → ((a : Answer) × (d.main ≡ finished a)) ⊎ ((e : Config S C) × Step ta r d e)
  Stage-Step r m d (before w v q) = inr (_, starts w refl)
  Stage-Step r m d (waits id msg w e v n q) =
      inr (queue_of-Step r d id msg (lookup id d.cells) refl n)
  Stage-Step r m d (responded a w e q) = inr (_, receives a w refl)
  Stage-Step r m d (over a w e q) = inl (a, w)

  -- From the arrival of a request with no message in a channel, the manager and the threads take at
  -- most three steps and two more for each thread in its loop and one for each behind it; and as
  -- long as the manager is not done with the request, there is a next step.
  pub Steps-end :
      (r : TeeRequest) (c d : Config S C) (n : ℕ)
      → Quiet c.cells
      → c.main ≡ idle
      → Steps ta r c n d
      → (n ≤ rounds c)
        × (((a : Answer) × (d.main ≡ finished a)) ⊎ ((e : Config S C) × Step ta r d e))
  Steps-end r c d n q w steps = (
    omega (arith, rounds-Steps r c d n steps),
    Stage-Step r (view c) d (Steps-Stage ta (view c) r steps (before w refl q)),
  )
