-- ===== src/Manager/Threads/Refines.antt =====
-- ta_manager/src/lib.rs: however the manager and the threads take turns, a request is one step.
use optee_utee.Prelude.{
  ℕ, ◌≡◌, ◌≢◌, refl, ap, sym, ◌∙◌, inl, inr, arith, ◌==◌, Bool-cases, List, [], ◌∷◌, some,
}
use optee_utee.Manager.Protocol.{TeeRequest, TeeResponse}
use optee_utee.Manager.Sessions.{SessionMap, lookup, insert}
use optee_utee.Manager.{TrustedApplication, Manager, Thread, Answer, replies, fails, handle_request}
use optee_utee.Manager.Threads.{
  SessionMessage, invoke, close, listening, leaving, gone, Main, idle, receiving, received,
  finished, Config, deliver, disconnect, handle, Step, starts, handles, departs, receives, Steps,
  here, further,
}
use optee_utee.Manager.Threads.View.{
  queue_of, Quiet, as_thread, lookup-threads, queue_of-insert, threads_same, view,
}
use optee_utee.Manager.Threads.Stages.{
  request_of, response_of, Stage, before, waits, responded, over, served_ended, served_waiting,
  start-Stage,
}

module _ {S C : Type 0} (ta : TrustedApplication S C) where
  handle_main :
      (c : Config S C) (id : ℕ) (ctx : C) (msg : SessionMessage) (queue : List SessionMessage)
      → (handle ta c id ctx msg queue).main ≡ deliver (response_of ta c.state ctx msg) c.main
  unfolding handle
  handle_main c id ctx (invoke cmd_id params) queue = refl
  handle_main c id ctx close queue = refl

  handle-Quiet :
      (c : Config S C) (id : ℕ) (ctx : C) (msg : SessionMessage)
      → ((j : ℕ) → j ≢ id → queue_of (lookup j c.cells) ≡ [])
      → Quiet (handle ta c id ctx msg []).cells
  unfolding handle
  handle-Quiet c id ctx (invoke cmd_id params) q j = elim (Bool-cases (id == j)) [
    | inl e ↦ ground (
      arith,
      queue_of-insert id j (listening (ta.invoke_command c.state cmd_id params ctx).2 []) c.cells,
    )
    | inr e ↦ ground (
      arith,
      queue_of-insert id j (listening (ta.invoke_command c.state cmd_id params ctx).2 []) c.cells,
      q j (λ k. ground arith),
    )
  ]
  handle-Quiet c id ctx close q j = elim (Bool-cases (id == j)) [
    | inl e ↦ ground (arith, queue_of-insert id j (leaving []) c.cells)
    | inr e ↦ ground (arith, queue_of-insert id j (leaving []) c.cells, q j (λ k. ground arith))
  ]

  module _ (m : Manager S C) (r : TeeRequest) where
    -- The thread that the manager waits for answers.
    handled-Stage :
        (c d : Config S C) (id : ℕ) (ctx : C) (msg : SessionMessage) (queue : List SessionMessage)
        → c.main ≡ receiving
        → r ≡ request_of id msg
        → view c ≡ m
        → lookup id c.cells ≡ some (listening ctx (msg ∷ queue))
        → queue ≡ []
        → ((j : ℕ) → j ≢ id → queue_of (lookup j c.cells) ≡ [])
        → d ≡ handle ta c id ctx msg queue
        → Stage ta m r d
    unfolding deliver
    handled-Stage c d id ctx msg queue w e v l empty q p =
        rw (p, empty)
          (responded (response_of ta c.state ctx msg)
            (handle_main c id ctx msg [] ∙ ap (λ n. deliver (response_of ta c.state ctx msg) n) w)
            (rw (e, sym v)
              (served_waiting ta c id ctx msg [] (lookup-threads id c.cells ∙ ap as_thread l)))
            (handle-Quiet c id ctx msg q))

    handles-Stage :
        {c d : Config S C} (id : ℕ) (ctx : C) (msg : SessionMessage) (queue : List SessionMessage)
        → lookup id c.cells ≡ some (listening ctx (msg ∷ queue))
        → d ≡ handle ta c id ctx msg queue
        → Stage ta m r c
        → Stage ta m r d
    handles-Stage id ctx msg queue l p (before w v q) = absurd (cc (ap queue_of l, q id))
    handles-Stage {c} {d} id ctx msg queue l p (waits i k w e v n q) = elim (Bool-cases (id == i)) [
      | inl t ↦
          let same : id ≡ i = ground arith in
          let here : msg ∷ queue ≡ k ∷ [] = cc (n, same) in
          let first : msg ≡ k = cc in
          let rest : queue ≡ [] = cc in
          handled-Stage c d id ctx msg queue w (rw (same, first) e) v l rest (rw same q) p
      | inr t ↦ absurd (cc (ap queue_of l, q id (λ o. ground arith)))
    ]
    handles-Stage id ctx msg queue l p (responded a w e q) = absurd (cc (ap queue_of l, q id))
    handles-Stage id ctx msg queue l p (over a w e q) = absurd (cc (ap queue_of l, q id))

    -- Two configurations that look the same.
    same-Stage :
        (c d : Config S C)
        → d.main ≡ c.main
        → view d ≡ view c
        → ((j : ℕ) → queue_of (lookup j d.cells) ≡ queue_of (lookup j c.cells))
        → Stage ta m r c
        → Stage ta m r d
    same-Stage c d x y z (before w v q) = before (x ∙ w) (y ∙ v) (λ j. z j ∙ q j)
    same-Stage c d x y z (waits i k w e v n q) =
        waits i k (x ∙ w) e (y ∙ v) (z i ∙ n) (λ j o. z j ∙ q j o)
    same-Stage c d x y z (responded a w e q) = responded a (x ∙ w) (rw y e) (λ j. z j ∙ q j)
    same-Stage c d x y z (over a w e q) = over a (x ∙ w) (rw y e) (λ j. z j ∙ q j)

    left-view :
        (c : Config S C) (id : ℕ) (queue : List SessionMessage) (n : Main)
        → lookup id c.cells ≡ some (leaving queue)
        → view (record c { cells = insert id gone c.cells; main = n }) ≡ view c
    left-view c id queue n l =
        ap
          (λ (s : SessionMap (Thread C)). record {
            state = c.state;
            sessions = s;
            session_id = c.session_id;
          })
          (threads_same id (leaving queue) gone c.cells l refl)

    -- Nobody waits for a thread whose channel is empty.
    left-Stage :
        (c d : Config S C) (id : ℕ) (queue : List SessionMessage)
        → lookup id c.cells ≡ some (leaving queue)
        → queue ≡ []
        → d ≡ record c { cells = insert id gone c.cells; main = disconnect queue c.main }
        → Stage ta m r c
        → Stage ta m r d
    unfolding disconnect
    left-Stage c d id queue l empty p s =
        rw (p, empty)
          (same-Stage c _ refl (left-view c id queue c.main l)
            (λ j. ground (arith, queue_of-insert id j gone c.cells, l)) s)

    dropped-Stage :
        (c d : Config S C) (id : ℕ) (msg : SessionMessage) (queue : List SessionMessage)
        → c.main ≡ receiving
        → r ≡ request_of id msg
        → view c ≡ m
        → lookup id c.cells ≡ some (leaving queue)
        → queue ≡ msg ∷ []
        → ((j : ℕ) → j ≢ id → queue_of (lookup j c.cells) ≡ [])
        → d ≡ record c { cells = insert id gone c.cells; main = disconnect queue c.main }
        → Stage ta m r d
    unfolding disconnect
    dropped-Stage c d id msg queue w e v l one q p =
        rw (p, one, w)
          (over fails refl
            (rw (e, left-view c id queue (finished fails) l, sym v)
              (served_ended ta (view c) id msg (lookup-threads id c.cells ∙ ap as_thread l)))
            (λ j. elim (Bool-cases (id == j)) [
              | inl t ↦ ground (arith, queue_of-insert id j gone c.cells)
              | inr t ↦ ground (arith, queue_of-insert id j gone c.cells, q j (λ o. ground arith))
            ]))

    departs-Stage :
        {c d : Config S C} (id : ℕ) (queue : List SessionMessage)
        → lookup id c.cells ≡ some (leaving queue)
        → d ≡ record c { cells = insert id gone c.cells; main = disconnect queue c.main }
        → Stage ta m r c
        → Stage ta m r d
    departs-Stage {c} {d} id queue l p (before w v q) =
        left-Stage c d id queue l (sym (ap queue_of l) ∙ q id) p (before w v q)
    departs-Stage {c} {d} id queue l p (waits i k w e v n q) = elim (Bool-cases (id == i)) [
      | inl t ↦
          let same : id ≡ i = ground arith in
          dropped-Stage c d id k queue w (rw same e) v l (cc (n, same)) (rw same q) p
      | inr t ↦
          left-Stage c d id queue l (sym (ap queue_of l) ∙ q id (λ o. ground arith)) p
            (waits i k w e v n q)
    ]
    departs-Stage {c} {d} id queue l p (responded a w e q) =
        left-Stage c d id queue l (sym (ap queue_of l) ∙ q id) p (responded a w e q)
    departs-Stage {c} {d} id queue l p (over a w e q) =
        left-Stage c d id queue l (sym (ap queue_of l) ∙ q id) p (over a w e q)

    received-Stage :
        (c d : Config S C) (response answer : TeeResponse)
        → c.main ≡ received response
        → d ≡ record c { main = finished (replies response) }
        → c.main ≡ received answer
        → handle_request ta m r ≡ (replies answer, view c)
        → Quiet c.cells
        → Stage ta m r d
    received-Stage c d response answer w p w' e q =
        let same : response ≡ answer = cc in rw p (over (replies response) refl (rw same e) q)

    pub Step-Stage : {c d : Config S C} → Step ta r c d → Stage ta m r c → Stage ta m r d
    Step-Stage {c} (starts w p) (before w' v q) = rw (p, sym v) (start-Stage ta c r q)
    Step-Stage (starts w p) (waits i k w' e v n q) = absurd (cc (w, w'))
    Step-Stage (starts w p) (responded a w' e q) = absurd (cc (w, w'))
    Step-Stage (starts w p) (over a w' e q) = absurd (cc (w, w'))
    Step-Stage (handles id ctx msg queue l p) s = handles-Stage id ctx msg queue l p s
    Step-Stage (departs id queue l p) s = departs-Stage id queue l p s
    Step-Stage (receives response w p) (before w' v q) = absurd (cc (w, w'))
    Step-Stage (receives response w p) (waits i k w' e v n q) = absurd (cc (w, w'))
    Step-Stage {c} {d} (receives response w p) (responded a w' e q) =
        received-Stage c d response a w p w' e q
    Step-Stage (receives response w p) (over a w' e q) = absurd (cc (w, w'))

    pub Steps-Stage :
        {c d : Config S C} {n : ℕ} → Steps ta r c n d → Stage ta m r c → Stage ta m r d
    Steps-Stage (here z) s = s
    Steps-Stage (further steps step z) s = Step-Stage step (Steps-Stage steps s)

  over-Stage :
      (m : Manager S C) (r : TeeRequest) (c : Config S C) (a : Answer)
      → c.main ≡ finished a
      → Stage ta m r c
      → (handle_request ta m r ≡ (a, view c)) × Quiet c.cells
  over-Stage m r c a w (before w' v q) = absurd (cc (w, w'))
  over-Stage m r c a w (waits i k w' e v n q) = absurd (cc (w, w'))
  over-Stage m r c a w (responded b w' e q) = absurd (cc (w, w'))
  over-Stage m r c a w (over b w' e q) = let same : a ≡ b = cc in (rw same e, q)

  -- The manager and the session threads take their steps in any order, from the arrival of a request
  -- with no message in a channel. If the manager is done with the request after some of them, its
  -- answer, the trusted application's state, the live sessions and the next session id are those
  -- that `handle_request` has for it in one step, and no channel holds a message.
  pub Steps-handle_request :
      (r : TeeRequest) (c d : Config S C) (n : ℕ) (a : Answer)
      → Quiet c.cells
      → c.main ≡ idle
      → Steps ta r c n d
      → d.main ≡ finished a
      → (handle_request ta (view c) r ≡ (a, view d)) × Quiet d.cells
  Steps-handle_request r c d n a q w steps f =
      over-Stage (view c) r d a f (Steps-Stage (view c) r steps (before w refl q))
