-- ===== src/Mock/Tests.antt =====
-- A mock that keeps one body for each method, and a test on it.
use optee_utee.Prelude.{
  ℕ, ◌≡◌, ◌≢◌, refl, ◌==◌, ==_iff, arith, false, if◌then◌else◌, Option, none, some, panics, [], ◌∷◌,
}
use optee_utee.Error
use optee_utee.Error.{ok, err, bad_state}
use optee_utee.Object.Types.{ObjectStorageConstants}
use optee_utee.Object.Released.{Origin, creates, obtain}
use optee_utee.Object.Lifetime.{life}
use optee_utee.Mock.{
  Method, close_object, allocate_transient_object, open_persistent_object, create_persistent_object,
  close_and_delete_persistent_object, Body, Mockall, IsLawful,
}
use optee_utee.Mock.Scenario.{deletes, end_of, call_of, ending_of, replay, tee_of, Passes}
use optee_utee.Mock.Passing.{mock_of, failing_mock_of, AllCalled, life-Passes}

abbrev number : Method → ℕ
number close_object = 0
number allocate_transient_object = 1
number open_persistent_object = 2
number create_persistent_object = 3
number close_and_delete_persistent_object = 4

abbrev run : Option Body → Body
run none c = panics
run (some f) c = f c

abbrev one_each : Mockall
one_each = record {
  MockObjectController = Method → Option Body;
  new = λ k. none;
  return_once = λ k f m j. if number j == number k then some f else m j;
  call = λ k c m. (run (m k) c, λ j. if number j == number k then none else m j);
}

number-ne : (j k : Method) → j ≢ k → (number j == number k) ≡ false
number-ne j k ne = ground arith

one_each-IsLawful : IsLawful one_each (λ k m. m k)
one_each-IsLawful = record {
  expected-new = λ k. refl;
  expected-return_once = λ k f m e. rw ((==_iff (number k) (number k)).1 refl) refl;
  expected-return_once_ne = λ j k f m ne. rw (number-ne j k ne) refl;
  call_expected = λ k c f m e. (rw e refl, rw ((==_iff (number k) (number k)).1 refl) refl);
  call_unexpected = λ k c m e. rw e refl;
  expected-call_ne = λ j k c m ne. rw (number-ne j k ne) refl;
}

abbrev creating : Origin
creating = creates ObjectStorageConstants.private [] 2 []

life-Passes_example :
    (let mock = mock_of one_each (λ k m. m k) one_each-IsLawful none creating deletes 7 in
      let h = life (tee_of one_each mock) creating [] (end_of deletes) [] in
      ((obtain (tee_of one_each mock) creating []).0 ≡ ok (record { raw = 7 }))
      × (h ≡ ending_of 7 deletes ∷ call_of creating ∷ [])
      × Passes one_each mock h
      × AllCalled one_each (λ k m. m k) one_each-IsLawful (replay one_each mock h))
    × (let mock = failing_mock_of one_each (λ k m. m k) one_each-IsLawful none creating 5 in
        let h = life (tee_of one_each mock) creating [] (end_of deletes) [] in
        ((obtain (tee_of one_each mock) creating []).0 ≡ err (Error.from_raw_error 5))
        × (h ≡ call_of creating ∷ [])
        × Passes one_each mock h)
life-Passes_example =
    life-Passes one_each (λ k m. m k) one_each-IsLawful none creating deletes 7 5 (omega arith)
      (omega arith)
