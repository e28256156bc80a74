-- ===== src/Manager/Threads/Served.antt =====
-- ta_manager/src/lib.rs: the manager and its threads come to the end of any connections.
use optee_utee.Prelude.{
  ℕ, zero, suc, ◌+◌, ◌≤◌, ◌≡◌, refl, ap, inl, inr, arith, Bool, true, false, List, [], ◌∷◌,
}
use optee_utee.Manager.Protocol.{TeeRequest}
use optee_utee.Manager.{TrustedApplication, Answer, replies, fails, panics}
use optee_utee.Manager.Serving.{Connection, broken, delivers, handle_ca_request}
use optee_utee.Manager.Threads.{Config, idle, finished, Steps, here, further}
use optee_utee.Manager.Threads.View.{Quiet, view}
use optee_utee.Manager.Threads.Refines.{Steps-handle_request}
use optee_utee.Manager.Threads.Progress.{rounds, rounds-Step, Steps-end}
use optee_utee.Manager.Threads.Loop.{
  Serves, closes, breaks, goes_on, unwritable, ends, Serves-handle_ca_request,
}

module _ {S C : Type 0} (ta : TrustedApplication S C) where
  -- A run of a request that ends with an answer.
  Done : TeeRequest → Config S C → Type 0
  Done r c =
      (n : ℕ) × ((e : Config S C) × ((a : Answer) × (Steps ta r c n e × (e.main ≡ finished a))))

  done :
      (fuel n : ℕ) (r : TeeRequest) (c d : Config S C)
      → Quiet c.cells
      → c.main ≡ idle
      → Steps ta r c n d
      → rounds d ≤ fuel
      → Done r c
  unfolding Done
  done zero n r c d q w steps k = elim (Steps-end ta r c d n q w steps).1 [
    | inl f ↦ (n, (d, (f.0, (steps, f.1))))
    | inr g ↦ absurd (omega (arith, rounds-Step ta r d g.0 g.1))
  ]
  done (suc fuel) n r c d q w steps k = elim (Steps-end ta r c d n q w steps).1 [
    | inl f ↦ (n, (d, (f.0, (steps, f.1))))
    | inr g ↦
        done fuel (n + 1) r c g.0 q w (further steps g.1 refl)
          (omega (arith, rounds-Step ta r d g.0 g.1))
  ]

  request-Done : (r : TeeRequest) (c : Config S C) → Quiet c.cells → c.main ≡ idle → Done r c
  request-Done r c q w = done (rounds c) 0 r c c q w (here refl) (omega arith)

  Served : List Connection → Config S C → Type 0
  Served cs c = (answers : List Answer) × ((e : Config S C) × Serves ta cs c answers e)

  serve_on :
      (r : TeeRequest) (writable : Bool) (rest : List Connection) (c d : Config S C) (n : ℕ)
      (a : Answer)
      → Steps ta r (record c { main = idle }) n d
      → d.main ≡ finished a
      → Served rest d
      → Served (delivers r writable ∷ rest) c
  unfolding Served
  serve_on r true rest c d n (replies response) steps f (behind, (e, serves)) =
      (_, (e, goes_on r rest response n d behind refl steps f serves refl))
  serve_on r false rest c d n (replies response) steps f s =
      (_, (d, unwritable r rest response n refl steps f refl))
  serve_on r writable rest c d n fails steps f s =
      (_, (d, ends r writable rest fails n refl steps f (inl refl) refl))
  serve_on r writable rest c d n panics steps f s =
      (_, (d, ends r writable rest panics n refl steps f (inr refl) refl))

  Served-all : (cs : List Connection) (c : Config S C) → Quiet c.cells → Served cs c
  unfolding Served Done
  Served-all [] c q = ([], (c, closes refl refl refl))
  Served-all (broken ∷ rest) c q = (_, (c, breaks rest refl refl refl))
  Served-all (delivers r writable ∷ rest) c q =
      let (n, (d, (a, (steps, f)))) = request-Done r (record c { main = idle }) q refl in
      let quiet = (Steps-handle_request ta r (record c { main = idle }) d n a q refl steps f).1 in
      serve_on r writable rest c d n a steps f (Served-all rest d quiet)

  -- From a state with no message in a channel, the manager and its threads can always go on until
  -- they have come to the end of the connections, or to the error or the panic that ends the
  -- service; the answers, the trusted application's state, the live sessions and the next session id
  -- are then those of `handle_ca_request`.
  pub handle_ca_request-Serves :
      (cs : List Connection) (c : Config S C)
      → Quiet c.cells
      → (e : Config S C) × (Serves ta cs c (handle_ca_request ta (view c) cs).0 e
          × ((handle_ca_request ta (view c) cs).1 ≡ view e))
  unfolding Served
  handle_ca_request-Serves cs c q =
      let (answers, (e, serves)) = Served-all cs c q in
      let same : handle_ca_request ta (view c) cs ≡ (answers, view e) =
        Serves-handle_ca_request ta cs c e answers q serves in
      (e, (rw same serves, ap (λ p. p.1) same))
