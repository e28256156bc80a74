-- ===== src/Mock.antt =====
-- optee-utee-mock/src/object.rs: the mock of the object functions, which the tests of src/object run
-- on.
pub mod Scenario
pub mod Expected
pub mod Passing
mod Tests
use optee_utee.Prelude.{
  ℕ, ◌≡◌, ◌≢◌, ◌==◌, if◌then◌else◌, Option, none, some, Outcome, returns, panics, List, [], ◌∷◌,
}
use optee_utee.Object.{Call, Reply, RawObjectInfo}

-- The methods of the trait `ObjectController`.
pub data Method : Type 0 where
  close_object allocate_transient_object open_persistent_object create_persistent_object
        close_and_delete_persistent_object :
      Method

-- The method of a call; the other object functions are not in the mock.
unfoldable pub method_of : Call → Option Method
method_of (Call.close_object object) = some close_object
method_of (Call.allocate_transient_object object_type max_object_size) =
    some allocate_transient_object
method_of (Call.open_persistent_object storage_id object_id flags) = some open_persistent_object
method_of (Call.create_persistent_object storage_id object_id flags attributes initial_data) =
    some create_persistent_object
method_of (Call.close_and_delete_persistent_object object) = some close_and_delete_persistent_object
method_of _ = none

-- The body that a test gives to a method: the status and what is written, or a panic.
abbrev pub Body : Type 0
Body = Call → Outcome Reply

-- `MockObjectController`, which the crate mockall makes of the trait, a parameter: `return_once` is
-- `expect_…().return_once_st(…)`.
pub record Mockall : Type 1 where
  pub MockObjectController : Type 0
  pub new : MockObjectController
  pub return_once : Method → Body → MockObjectController → MockObjectController
  pub call : Method → Call → MockObjectController → Outcome Reply × MockObjectController

-- What mockall documents, for at most one expectation on a method at a time: the body that is
-- expected of a method runs at the first call of it, and not again; a call that is not expected
-- panics; the methods do not affect each other.
pub record IsLawful (M : Mockall) (expected : Method → M.MockObjectController → Option Body)
    : Type 0 where
  pub expected-new : (k : Method) → expected k M.new ≡ none
  pub expected-return_once :
      (k : Method) (f : Body) (m : M.MockObjectController)
      → expected k m ≡ none
      → expected k (M.return_once k f m) ≡ some f
  pub expected-return_once_ne :
      (j k : Method) (f : Body) (m : M.MockObjectController)
      → j ≢ k
      → expected j (M.return_once k f m) ≡ expected j m
  pub call_expected :
      (k : Method) (c : Call) (f : Body) (m : M.MockObjectController)
      → expected k m ≡ some f
      → ((M.call k c m).0 ≡ f c) × (expected k (M.call k c m).1 ≡ none)
  pub call_unexpected :
      (k : Method) (c : Call) (m : M.MockObjectController)
      → expected k m ≡ none
      → (M.call k c m).0 ≡ panics
  pub expected-call_ne :
      (j k : Method) (c : Call) (m : M.MockObjectController)
      → j ≢ k
      → expected j (M.call k c m).1 ≡ expected j m

abbrev nothing : RawObjectInfo
nothing = record {
  object_type = 0;
  object_size = 0;
  max_object_size = 0;
  object_usage = 0;
  data_size = 0;
  data_position = 0;
  handle_flags = 0;
}

-- A status, and the handle that is written; a handle variable that is not written to is null.
abbrev pub reply : ℕ → ℕ → Reply
reply code handle = record {
  code = code;
  handle = handle;
  size = 0;
  value_a = 0;
  value_b = 0;
  info = nothing;
}

-- The handle that a call gives back.
unfoldable pub object_of : Call → ℕ
object_of (Call.close_object object) = object
object_of (Call.close_and_delete_persistent_object object) = object
object_of _ = 0

module _ (M : Mockall) where
  open M use {MockObjectController, return_once, call}

  -- `GLOBAL_OBJECT_MOCK`.
  abbrev pub GlobalObjectMock : Type 0
  GlobalObjectMock = Option MockObjectController

  unfoldable pub set_global_object_mock : MockObjectController → GlobalObjectMock → GlobalObjectMock
  set_global_object_mock mock value = some mock

  unfoldable pub with_global_object_mock :
      (MockObjectController → Outcome Reply × MockObjectController)
      → GlobalObjectMock
      → Outcome Reply × GlobalObjectMock
  with_global_object_mock f none = (panics, none)
  with_global_object_mock f (some mock) = let (r, mock') = f mock in (r, some mock')

  -- What `forward_to_mock!` makes of a function.
  forwarded_by : Option Method → Call → GlobalObjectMock → Outcome Reply × GlobalObjectMock
  forwarded_by none c mock = (panics, mock)
  forwarded_by (some k) c mock = with_global_object_mock (call k c) mock

  unfoldable pub forward_to_mock : Call → GlobalObjectMock → Outcome Reply × GlobalObjectMock
  unfolding forwarded_by with_global_object_mock method_of
  forward_to_mock c mock = forwarded_by (method_of c) c mock

  unfoldable pub expect_allocate_transient_object_success_once :
      ℕ → MockObjectController → MockObjectController
  expect_allocate_transient_object_success_once handle =
      return_once allocate_transient_object (λ c. returns (reply 0 handle))

  unfoldable pub expect_allocate_transient_object_fail_once :
      ℕ → MockObjectController → MockObjectController
  expect_allocate_transient_object_fail_once code =
      return_once allocate_transient_object (λ c. returns (reply code 0))

  unfoldable pub expect_create_persistent_object_success_once :
      ℕ → MockObjectController → MockObjectController
  expect_create_persistent_object_success_once handle =
      return_once create_persistent_object (λ c. returns (reply 0 handle))

  unfoldable pub expect_create_persistent_object_fail_once :
      ℕ → MockObjectController → MockObjectController
  expect_create_persistent_object_fail_once code =
      return_once create_persistent_object (λ c. returns (reply code 0))

  unfoldable pub expect_open_persistent_object_success_once :
      ℕ → MockObjectController → MockObjectController
  expect_open_persistent_object_success_once handle =
      return_once open_persistent_object (λ c. returns (reply 0 handle))

  unfoldable pub expect_open_persistent_object_fail_once :
      ℕ → MockObjectController → MockObjectController
  expect_open_persistent_object_fail_once code =
      return_once open_persistent_object (λ c. returns (reply code 0))

  -- `assert_eq!(obj, *exp_handle.get())`, and then success.
  unfoldable pub expect_close_and_delete_persistent_object_success_once :
      ℕ → MockObjectController → MockObjectController
  unfolding object_of
  expect_close_and_delete_persistent_object_success_once exp_handle =
      return_once close_and_delete_persistent_object
        (λ c. if object_of c == exp_handle then returns (reply 0 0) else panics)

  unfoldable pub expect_close_and_delete_persistent_object_fail_once :
      ℕ → MockObjectController → MockObjectController
  expect_close_and_delete_persistent_object_fail_once code =
      return_once close_and_delete_persistent_object (λ c. returns (reply code 0))

  unfoldable pub expect_close_object_once : ℕ → MockObjectController → MockObjectController
  unfolding object_of
  expect_close_object_once exp_handle =
      return_once close_object
        (λ c. if object_of c == exp_handle then returns (reply 0 0) else panics)
