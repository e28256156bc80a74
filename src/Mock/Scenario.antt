-- ===== src/Mock/Scenario.antt =====
-- optee-utee-mock/src/object.rs and src/object: a test of an object on the mock, its expectations and
-- its calls.
use optee_utee.Prelude.{
  ℕ, ◌≡◌, ◌≢◌, refl, ◌==◌, arith, if◌then◌else◌, Outcome, returns, panics, List, [], ◌∷◌,
}
use optee_utee.Error.{check}
use optee_utee.Object.Types.{type_code, storage_code}
use optee_utee.Object.{Call, Reply, ObjectHandle, wrap}
use optee_utee.Object.Transient
use optee_utee.Object.Persistent
use optee_utee.Object.Released.{Origin, opens, creates, allocates, obtain}
use optee_utee.Object.Lifetime.{End, finish}
use optee_utee.Prelude.{◌%◌, u32_mod}
use optee_utee.Mock.{
  Method, close_object, allocate_transient_object, open_persistent_object, create_persistent_object,
  close_and_delete_persistent_object, Body, Mockall, reply, object_of, GlobalObjectMock,
  forward_to_mock, expect_allocate_transient_object_success_once,
  expect_allocate_transient_object_fail_once, expect_create_persistent_object_success_once,
  expect_create_persistent_object_fail_once, expect_open_persistent_object_success_once,
  expect_open_persistent_object_fail_once, expect_close_and_delete_persistent_object_success_once,
  expect_close_and_delete_persistent_object_fail_once, expect_close_object_once,
}

-- How a test ends its object: it drops it, or deletes it with success or with an error.
pub data Ending : Type 0 where
  drops deletes : Ending
  fails_to_delete : ℕ → Ending

abbrev pub end_of : Ending → End
end_of drops = End.drops
end_of deletes = End.deletes
end_of (fails_to_delete code) = End.deletes

-- The two calls of a test.
abbrev pub call_of : Origin → Call
call_of (opens storage id flags) = Call.open_persistent_object (storage_code storage) id flags
call_of (creates storage id flags initial) =
    Call.create_persistent_object (storage_code storage) id flags 0 initial
call_of (allocates t size) = Call.allocate_transient_object (type_code t) (size % u32_mod)

abbrev pub ending_of : ℕ → Ending → Call
ending_of handle drops = Call.close_object handle
ending_of handle deletes = Call.close_and_delete_persistent_object handle
ending_of handle (fails_to_delete code) = Call.close_and_delete_persistent_object handle

-- What a call writes; a panic writes nothing.
abbrev pub written : Outcome Reply → Reply
written (returns r) = r
written panics = reply 0 0

module _ (M : Mockall) where
  -- The mock after some calls, the latest of which stands first.
  unfoldable pub replay : GlobalObjectMock M → List Call → GlobalObjectMock M
  replay mock [] = mock
  replay mock (c ∷ h) = (forward_to_mock M c (replay mock h)).1

  -- The system that the mock stands in for.
  abbrev pub tee_of : GlobalObjectMock M → List Call → Reply
  tee_of mock [] = reply 0 0
  tee_of mock (c ∷ h) = written (forward_to_mock M c (replay mock h)).0

  -- No call panics.
  abbrev pub Passes : GlobalObjectMock M → List Call → Type 0
  Passes mock [] = Unit {0}
  Passes mock (c ∷ h) = Passes mock h × ((forward_to_mock M c (replay mock h)).0 ≢ panics)

  -- What a test expects: the object is obtained with this handle, and then ended.
  abbrev pub expects_origin : Origin → ℕ → M.MockObjectController → M.MockObjectController
  expects_origin (opens storage id flags) = expect_open_persistent_object_success_once M
  expects_origin (creates storage id flags initial) = expect_create_persistent_object_success_once M
  expects_origin (allocates t size) = expect_allocate_transient_object_success_once M

  abbrev pub expects_failure : Origin → ℕ → M.MockObjectController → M.MockObjectController
  expects_failure (opens storage id flags) = expect_open_persistent_object_fail_once M
  expects_failure (creates storage id flags initial) = expect_create_persistent_object_fail_once M
  expects_failure (allocates t size) = expect_allocate_transient_object_fail_once M

  abbrev pub expects_ending : Ending → ℕ → M.MockObjectController → M.MockObjectController
  expects_ending drops handle = expect_close_object_once M handle
  expects_ending deletes handle = expect_close_and_delete_persistent_object_success_once M handle
  expects_ending (fails_to_delete code) handle =
      expect_close_and_delete_persistent_object_fail_once M code

module _ (tee : List Call → Reply) where
  pub obtain-call_of :
      (w : Origin)
      → obtain tee w []
        ≡ (wrap (check (tee (call_of w ∷ [])).code (tee (call_of w ∷ [])).handle), call_of w ∷ [])
  unfolding obtain Persistent.open_object Persistent.create Transient.allocate
  obtain-call_of (opens storage id flags) = refl
  obtain-call_of (creates storage id flags initial) = refl
  obtain-call_of (allocates t size) = refl

  pub finish-ending_of :
      (e : Ending) (handle : ℕ) (h : List Call)
      → handle ≢ 0
      → finish tee (record { raw = handle }) (end_of e) h ≡ ending_of handle e ∷ h
  unfolding finish Persistent.close_and_delete optee_utee.Object.drop
  finish-ending_of drops handle h ne = ground arith
  finish-ending_of deletes handle h ne = refl
  finish-ending_of (fails_to_delete code) handle h ne = refl

abbrev pub origin_method : Origin → Method
origin_method (opens storage id flags) = open_persistent_object
origin_method (creates storage id flags initial) = create_persistent_object
origin_method (allocates t size) = allocate_transient_object

abbrev pub ending_method : Ending → Method
ending_method drops = close_object
ending_method deletes = close_and_delete_persistent_object
ending_method (fails_to_delete code) = close_and_delete_persistent_object

pub origin_method-ne : (w : Origin) (e : Ending) → origin_method w ≢ ending_method e
origin_method-ne (opens storage id flags) drops q = cc
origin_method-ne (opens storage id flags) _ q = cc
origin_method-ne (creates storage id flags initial) drops q = cc
origin_method-ne (creates storage id flags initial) _ q = cc
origin_method-ne (allocates t size) drops q = cc
origin_method-ne (allocates t size) _ q = cc

abbrev pub ending_body : ℕ → Ending → Body
ending_body handle drops = λ c. if object_of c == handle then returns (reply 0 0) else panics
ending_body handle deletes = λ c. if object_of c == handle then returns (reply 0 0) else panics
ending_body handle (fails_to_delete code) = λ c. returns (reply code 0)
