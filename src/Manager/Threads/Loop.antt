-- ===== src/Manager/Threads/Loop.antt =====
-- ta_manager/src/lib.rs: `handle_ca_request` with the threads beside it, over any connections.
use optee_utee.Prelude.{ℕ, ◌≡◌, refl, ap, ◌∙◌, ◌⊎◌, inl, inr, Bool, true, false, List, [], ◌∷◌}
use optee_utee.Manager.Protocol.{TeeRequest, TeeResponse}
use optee_utee.Manager.{TrustedApplication, Answer, replies, fails, panics}
use optee_utee.Manager.Serving.{Connection, broken, delivers, answered, handle_ca_request}
use optee_utee.Manager.Threads.{Config, idle, finished, Steps}
use optee_utee.Manager.Threads.View.{Quiet, view}
use optee_utee.Manager.Threads.Refines.{Steps-handle_request}

module _ {S C : Type 0} (ta : TrustedApplication S C) where
  -- The connections, the manager before them, the answers with the error or the panic that ends the
  -- loop, and the manager after them. Between two requests any thread may go on.
  pub data Serves : List Connection → Config S C → List Answer → Config S C → Type 0 where
    closes :
        {cs : List Connection} {c e : Config S C} {answers : List Answer}
        → cs ≡ []
        → answers ≡ []
        → e ≡ c
        → Serves cs c answers e
    breaks :
        {cs : List Connection} {c e : Config S C} {answers : List Answer} (rest : List Connection)
        → cs ≡ broken ∷ rest
        → answers ≡ fails ∷ []
        → e ≡ c
        → Serves cs c answers e
    goes_on :
        {cs : List Connection} {c e : Config S C} {answers : List Answer} (r : TeeRequest)
        (rest : List Connection) (response : TeeResponse) (n : ℕ) (d : Config S C)
        (behind : List Answer)
        → cs ≡ delivers r true ∷ rest
        → Steps ta r (record c { main = idle }) n d
        → d.main ≡ finished (replies response)
        → Serves rest d behind e
        → answers ≡ replies response ∷ behind
        → Serves cs c answers e
    unwritable :
        {cs : List Connection} {c e : Config S C} {answers : List Answer} (r : TeeRequest)
        (rest : List Connection) (response : TeeResponse) (n : ℕ)
        → cs ≡ delivers r false ∷ rest
        → Steps ta r (record c { main = idle }) n e
        → e.main ≡ finished (replies response)
        → answers ≡ fails ∷ []
        → Serves cs c answers e
    ends :
        {cs : List Connection} {c e : Config S C} {answers : List Answer} (r : TeeRequest)
        (writable : Bool) (rest : List Connection) (a : Answer) (n : ℕ)
        → cs ≡ delivers r writable ∷ rest
        → Steps ta r (record c { main = idle }) n e
        → e.main ≡ finished a
        → (a ≡ fails) ⊎ (a ≡ panics)
        → answers ≡ a ∷ []
        → Serves cs c answers e

  -- One request, as `handle_ca_request` has it.
  delivered :
      (c d : Config S C) (r : TeeRequest) (writable : Bool) (rest : List Connection) (n : ℕ)
      (a : Answer)
      → Quiet c.cells
      → Steps ta r (record c { main = idle }) n d
      → d.main ≡ finished a
      → (handle_ca_request ta (view c) (delivers r writable ∷ rest)
          ≡ answered a writable (view d) (handle_ca_request ta (view d) rest))
        × Quiet d.cells
  unfolding handle_ca_request
  delivered c d r writable rest n a q steps f =
      let (served, quiet) =
        Steps-handle_request ta r (record c { main = idle }) d n a q refl steps f in
      (rw served refl, quiet)

  -- The manager serves connections one after the other, while the session threads take their steps
  -- in any order, from a state with no message in a channel. Whenever it comes to the end of the
  -- connections, or to the error or the panic that ends the service, its answers, the trusted
  -- application's state, the live sessions and the next session id are those of `handle_ca_request`,
  -- where each request with its thread's part is one step.
  pub Serves-handle_ca_request :
      (cs : List Connection) (c e : Config S C) (answers : List Answer)
      → Quiet c.cells
      → Serves cs c answers e
      → handle_ca_request ta (view c) cs ≡ (answers, view e)
  unfolding handle_ca_request answered
  Serves-handle_ca_request cs c e answers q (closes x y z) = rw (x, y, z) refl
  Serves-handle_ca_request cs c e answers q (breaks rest x y z) = rw (x, y, z) refl
  Serves-handle_ca_request cs c e answers q
        (goes_on r rest response n d behind x steps f serves y) =
      let (served, quiet) = delivered c d r true rest n (replies response) q steps f in
      rw (x, y)
        (served
          ∙ ap (λ p. (replies response ∷ p.0, p.1))
              (Serves-handle_ca_request rest d e behind quiet serves))
  Serves-handle_ca_request cs c e answers q (unwritable r rest response n x steps f y) =
      rw (x, y) (delivered c e r false rest n (replies response) q steps f).0
  Serves-handle_ca_request cs c e answers q (ends r writable rest a n x steps f (inl z) y) =
      rw (x, y, z) (delivered c e r writable rest n fails q steps (f ∙ ap finished z)).0
  Serves-handle_ca_request cs c e answers q (ends r writable rest a n x steps f (inr z) y) =
      rw (x, y, z) (delivered c e r writable rest n panics q steps (f ∙ ap finished z)).0
