-- ===== src/Mock/Expected.antt =====
-- optee-utee-mock/src/object.rs: what a mock does that expects two calls.
use optee_utee.Prelude.{ℕ, ◌≡◌, ◌≢◌, refl, sym, ◌∙◌, arith, Option, none, some, returns, panics}
use optee_utee.Object.{Call}
use optee_utee.Object.Released.{Origin, opens, creates, allocates}
use optee_utee.Mock.{
  Method, Body, Mockall, IsLawful, reply, object_of, forward_to_mock,
  expect_allocate_transient_object_success_once, expect_allocate_transient_object_fail_once,
  expect_create_persistent_object_success_once, expect_create_persistent_object_fail_once,
  expect_open_persistent_object_success_once, expect_open_persistent_object_fail_once,
  expect_close_and_delete_persistent_object_success_once,
  expect_close_and_delete_persistent_object_fail_once, expect_close_object_once,
}
use optee_utee.Mock.Scenario.{
  Ending, drops, deletes, fails_to_delete, call_of, ending_of, expects_origin, expects_failure,
  expects_ending, origin_method, ending_method, ending_body,
}

Method-discrete : Discrete Method
Method-discrete = hlevel

module _ (M : Mockall) (expected : Method → M.MockObjectController → Option Body)
    (law : IsLawful M expected) where
  open M use {new, return_once, call}

  -- Of two different methods each is expected once.
  module _ (k j : Method) (ne : k ≢ j) (f g : Body) (c d : Call) where
    abbrev pub two : M.MockObjectController
    two = return_once j g (return_once k f new)

    abbrev pub after_one : M.MockObjectController
    after_one = (call k c two).1

    pub first_expected : expected k two ≡ some f
    first_expected =
        law.expected-return_once_ne k j g (return_once k f new) ne
        ∙ law.expected-return_once k f new (law.expected-new k)

    second_expected : expected j two ≡ some g
    second_expected =
        law.expected-return_once j g (return_once k f new)
          (law.expected-return_once_ne j k f new (λ q. ne (sym q)) ∙ law.expected-new j)

    pub second_still_expected : expected j after_one ≡ some g
    second_still_expected = law.expected-call_ne j k c two (λ q. ne (sym q)) ∙ second_expected

    others_unexpected : (i : Method) → i ≢ k → i ≢ j → expected i (call j d after_one).1 ≡ none
    others_unexpected i nk nj =
        law.expected-call_ne i j d after_one nj
        ∙ law.expected-call_ne i k c two nk
        ∙ law.expected-return_once_ne i j g (return_once k f new) nj
        ∙ law.expected-return_once_ne i k f new nk
        ∙ law.expected-new i

    pub none_left : (i : Method) → expected i (call j d after_one).1 ≡ none
    none_left i = elim (Method-discrete i j) [
      | yes q ↦ rw q (law.call_expected j d g after_one second_still_expected).1
      | no nj ↦ elim (Method-discrete i k) [
        | yes q ↦ rw q (
            law.expected-call_ne k j d after_one ne
            ∙ (law.call_expected k c f two first_expected).1)
        | no nk ↦ others_unexpected i nk nj
      ]
    ]

  pub forward-call_of :
      (w : Origin) (m : M.MockObjectController)
      → forward_to_mock M (call_of w) (some m)
        ≡ ((call (origin_method w) (call_of w) m).0, some (call (origin_method w) (call_of w) m).1)
  unfolding forward_to_mock
  forward-call_of (opens storage id flags) m = refl
  forward-call_of (creates storage id flags initial) m = refl
  forward-call_of (allocates t size) m = refl

  pub forward-ending_of :
      (handle : ℕ) (e : Ending) (m : M.MockObjectController)
      → let d = ending_of handle e in
        forward_to_mock M d (some m)
        ≡ ((call (ending_method e) d m).0, some (call (ending_method e) d m).1)
  unfolding forward_to_mock
  forward-ending_of handle drops m = refl
  forward-ending_of handle deletes m = refl
  forward-ending_of handle (fails_to_delete code) m = refl

  pub expects_origin-return_once :
      (w : Origin) (handle : ℕ) (m : M.MockObjectController)
      → expects_origin M w handle m
        ≡ return_once (origin_method w) (λ c. returns (reply 0 handle)) m
  unfolding expect_open_persistent_object_success_once expect_create_persistent_object_success_once
      expect_allocate_transient_object_success_once
  expects_origin-return_once (opens storage id flags) handle m = refl
  expects_origin-return_once (creates storage id flags initial) handle m = refl
  expects_origin-return_once (allocates t size) handle m = refl

  pub expects_failure-return_once :
      (w : Origin) (code : ℕ) (m : M.MockObjectController)
      → expects_failure M w code m ≡ return_once (origin_method w) (λ c. returns (reply code 0)) m
  unfolding expect_open_persistent_object_fail_once expect_create_persistent_object_fail_once
      expect_allocate_transient_object_fail_once
  expects_failure-return_once (opens storage id flags) code m = refl
  expects_failure-return_once (creates storage id flags initial) code m = refl
  expects_failure-return_once (allocates t size) code m = refl

  pub expects_ending-return_once :
      (e : Ending) (handle : ℕ) (m : M.MockObjectController)
      → expects_ending M e handle m ≡ return_once (ending_method e) (ending_body handle e) m
  unfolding expect_close_object_once expect_close_and_delete_persistent_object_success_once
      expect_close_and_delete_persistent_object_fail_once
  expects_ending-return_once drops handle m = refl
  expects_ending-return_once deletes handle m = refl
  expects_ending-return_once (fails_to_delete code) handle m = refl

  -- The ending gives back the handle that is expected.
  pub ending_body-returns :
      (handle : ℕ) (e : Ending) → ending_body handle e (ending_of handle e) ≢ panics
  unfolding object_of
  ending_body-returns handle drops = ground arith
  ending_body-returns handle deletes = ground arith
  ending_body-returns handle (fails_to_delete code) = cc
