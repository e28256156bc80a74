-- ===== src/Manager/Threads/View.antt =====
-- ta_manager/src/lib.rs: the threads as the rest of the model sees them, and what their channels hold.
use optee_utee.Prelude.{
  ℕ, ◌≡◌, refl, ap, ◌∙◌, arith, ◌==◌, if◌then◌else◌, List, [], ◌∷◌, Option, none, some,
}
use optee_utee.Manager.Sessions.{SessionMap, lookup, insert, lookup-insert}
use optee_utee.Manager.{Manager, Thread, waiting, ended}
use optee_utee.Manager.Threads.{Config, Cell, SessionMessage, listening, leaving, gone}

module _ {C : Type 0} where
  -- A thread behind its loop counts as ended, also while its receiver is there.
  abbrev pub thread : Cell C → Thread C
  thread (listening ctx queue) = waiting ctx
  thread (leaving queue) = ended
  thread gone = ended

  unfoldable pub threads : SessionMap (Cell C) → SessionMap (Thread C)
  threads [] = []
  threads ((i, v) ∷ m) = (i, thread v) ∷ threads m

  abbrev pub queue_of : Option (Cell C) → List SessionMessage
  queue_of none = []
  queue_of (some (listening ctx queue)) = queue
  queue_of (some (leaving queue)) = queue
  queue_of (some gone) = []

  -- No channel holds a message.
  abbrev pub Quiet : SessionMap (Cell C) → Type 0
  Quiet m = (j : ℕ) → queue_of (lookup j m) ≡ []

  abbrev pub as_thread : Option (Cell C) → Option (Thread C)
  as_thread none = none
  as_thread (some v) = some (thread v)

  pub lookup-threads :
      (i : ℕ) (m : SessionMap (Cell C)) → lookup i (threads m) ≡ as_thread (lookup i m)
  unfolding lookup threads
  lookup-threads i [] = refl
  lookup-threads i ((j, v) ∷ m) = ground (arith, lookup-threads i m)

  pub threads-insert :
      (i : ℕ) (v : Cell C) (m : SessionMap (Cell C))
      → threads (insert i v m) ≡ insert i (thread v) (threads m)
  unfolding insert threads
  threads-insert i v [] = refl
  threads-insert i v ((j, w) ∷ m) = ground (arith, threads-insert i v m)

  pub queue_of-insert :
      (i j : ℕ) (v : Cell C) (m : SessionMap (Cell C))
      → queue_of (lookup j (insert i v m))
        ≡ (if i == j then queue_of (some v) else queue_of (lookup j m))
  queue_of-insert i j v m = ground (arith, lookup-insert i j v m)

pub insert_same :
    {V : Type 0} (i : ℕ) (v : V) (m : SessionMap V) → lookup i m ≡ some v → insert i v m ≡ m
unfolding lookup insert
insert_same i v [] e = cc
insert_same i v ((j, w) ∷ m) e = ground (arith, insert_same i v m)

-- A thread that changes to one that looks the same is not seen.
pub threads_same :
    {C : Type 0} (i : ℕ) (v w : Cell C) (m : SessionMap (Cell C))
    → lookup i m ≡ some v
    → thread w ≡ thread v
    → threads (insert i w m) ≡ threads m
threads_same i v w m e s =
    threads-insert i w m
    ∙ ap (λ t. insert i t (threads m)) s
    ∙ insert_same i (thread v) (threads m) (lookup-threads i m ∙ ap as_thread e)

abbrev pub view : {S C : Type 0} → Config S C → Manager S C
view c = record { state = c.state; sessions = threads c.cells; session_id = c.session_id }
