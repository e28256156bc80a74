-- ===== src/Mock/Passing.antt =====
-- optee-utee-mock/src/object.rs and src/object: the tests of the objects pass on the mock.
use optee_utee.Prelude.{
  ℕ, ◌≡◌, ◌≢◌, sym, ap, ◌∙◌, arith, Option, none, some, Outcome, returns, [], ◌∷◌,
}
use mathlib.Core.Path.{subst}
use optee_utee.Error
use optee_utee.Error.{Error, Result, ok, err, check}
use optee_utee.Object.{Call, Reply, ObjectHandle, wrap}
use optee_utee.Object.Released.{Origin, obtain}
use optee_utee.Object.Lifetime.{End, life, finish}
use optee_utee.Mock.{
  Method, Body, Mockall, IsLawful, reply, GlobalObjectMock, set_global_object_mock, forward_to_mock,
}
use optee_utee.Mock.Scenario.{
  Ending, end_of, call_of, ending_of, written, replay, tee_of, Passes, expects_origin,
  expects_failure, expects_ending, obtain-call_of, finish-ending_of, origin_method, ending_method,
  origin_method-ne, ending_body,
}
use optee_utee.Mock.Expected.{
  two, first_expected, second_still_expected, none_left, forward-call_of, forward-ending_of,
  expects_origin-return_once, expects_failure-return_once, expects_ending-return_once,
  ending_body-returns,
}

module _ (M : Mockall) (expected : Method → M.MockObjectController → Option Body)
    (law : IsLawful M expected) where
  open M use {new, return_once, call}

  -- Everything that was expected has been called.
  abbrev pub AllCalled : GlobalObjectMock M → Type 0
  AllCalled none = ⊥
  AllCalled (some m) = (k : Method) → expected k m ≡ none

  module _ (before : GlobalObjectMock M) (w : Origin) where
    -- The mock of a test in which the object is obtained.
    abbrev pub mock_of : Ending → ℕ → GlobalObjectMock M
    mock_of e handle =
        set_global_object_mock M (expects_ending M e handle (expects_origin M w handle new)) before

    module _ (e : Ending) (handle : ℕ) where
      -- The mock as two expectations, and what the first call of the test leaves of it.
      abbrev expecting : M.MockObjectController
      expecting =
          two M expected law (origin_method w) (ending_method e) (origin_method-ne w e)
            (λ c. returns (reply 0 handle)) (ending_body handle e) (call_of w) (ending_of handle e)

      abbrev obtained : M.MockObjectController
      obtained = (call (origin_method w) (call_of w) expecting).1

      mock_of-expecting : mock_of e handle ≡ some expecting
      unfolding set_global_object_mock
      mock_of-expecting = ap some (
          expects_ending-return_once M expected law e handle (expects_origin M w handle new)
          ∙ ap (return_once (ending_method e) (ending_body handle e))
              (expects_origin-return_once M expected law w handle new))

      first_call :
          forward_to_mock M (call_of w) (mock_of e handle)
          ≡ (returns (reply 0 handle), some obtained)
      first_call =
          ap (forward_to_mock M (call_of w)) mock_of-expecting
          ∙ forward-call_of M expected law w expecting
          ∙ ap (λ r. (r, some obtained))
              (law.call_expected (origin_method w) (call_of w) (λ c. returns (reply 0 handle))
                expecting
                (first_expected M expected law (origin_method w) (ending_method e)
                  (origin_method-ne w e) (λ c. returns (reply 0 handle)) (ending_body handle e)
                  (call_of w) (ending_of handle e))).0

      second_call : forward_to_mock M (ending_of handle e) (some obtained) ≡ (
        ending_body handle e (ending_of handle e),
        some (call (ending_method e) (ending_of handle e) obtained).1,
      )
      second_call =
          forward-ending_of M expected law handle e obtained
          ∙ ap (λ r. (r, some (call (ending_method e) (ending_of handle e) obtained).1))
              (law.call_expected (ending_method e) (ending_of handle e) (ending_body handle e)
                obtained
                (second_still_expected M expected law (origin_method w) (ending_method e)
                  (origin_method-ne w e) (λ c. returns (reply 0 handle)) (ending_body handle e)
                  (call_of w) (ending_of handle e))).0

      module _ (ne : handle ≢ 0) where
        obtains :
            obtain (tee_of M (mock_of e handle)) w []
            ≡ (ok (record { raw = handle }), call_of w ∷ [])
        unfolding wrap check replay optee_utee.Object.from_raw
        obtains =
            obtain-call_of (tee_of M (mock_of e handle)) w
            ∙ ap
                (λ (r : Outcome Reply × GlobalObjectMock M).
                  (wrap (check (written r.0).code (written r.0).handle), call_of w ∷ []))
                first_call
            ∙ ground arith

        -- The test makes two calls.
        lives :
            life (tee_of M (mock_of e handle)) w [] (end_of e) []
            ≡ ending_of handle e ∷ call_of w ∷ []
        unfolding life optee_utee.Object.Lifetime.uses
        lives =
            let tee = tee_of M (mock_of e handle) in
            rw (obtains, life)
              (ap (λ r. finish tee (record { raw = handle }) (end_of e) r.1) obtains
                ∙ finish-ending_of tee e handle (call_of w ∷ []) ne)

    -- The mock of a test in which the object is not obtained.
    abbrev pub failing_mock_of : ℕ → GlobalObjectMock M
    failing_mock_of code = set_global_object_mock M (expects_failure M w code new) before

    module _ (code : ℕ) where
      abbrev failing : M.MockObjectController
      failing = return_once (origin_method w) (λ c. returns (reply code 0)) new

      failing_call :
          forward_to_mock M (call_of w) (failing_mock_of code)
          ≡ (returns (reply code 0), some (call (origin_method w) (call_of w) failing).1)
      unfolding set_global_object_mock
      failing_call =
          ap (λ m. forward_to_mock M (call_of w) (some m))
            (expects_failure-return_once M expected law w code new)
          ∙ forward-call_of M expected law w failing
          ∙ ap (λ r. (r, some (call (origin_method w) (call_of w) failing).1))
              (law.call_expected (origin_method w) (call_of w) (λ c. returns (reply code 0)) failing
                (law.expected-return_once (origin_method w) (λ c. returns (reply code 0)) new
                  (law.expected-new (origin_method w)))).0

      module _ (ne : code ≢ 0) where
        fails :
            obtain (tee_of M (failing_mock_of code)) w []
            ≡ (err (Error.from_raw_error code), call_of w ∷ [])
        unfolding wrap check replay
        fails =
            obtain-call_of (tee_of M (failing_mock_of code)) w
            ∙ ap
                (λ (r : Outcome Reply × GlobalObjectMock M).
                  (wrap (check (written r.0).code (written r.0).handle), call_of w ∷ []))
                failing_call
            ∙ ground arith

        life_fails :
            (end : End) → life (tee_of M (failing_mock_of code)) w [] end [] ≡ call_of w ∷ []
        unfolding life
        life_fails end = rw (fails, life) (ap (λ r. r.1) fails)

  obtained-Passes :
      (before : GlobalObjectMock M) (w : Origin) (e : Ending) (handle : ℕ)
      → handle ≢ 0
      → let mock = mock_of before w e handle in
        let h = life (tee_of M mock) w [] (end_of e) [] in
        ((obtain (tee_of M mock) w []).0 ≡ ok (record { raw = handle }))
        × (h ≡ ending_of handle e ∷ call_of w ∷ [])
        × Passes M mock h
        × AllCalled (replay M mock h)
  unfolding replay
  obtained-Passes before w e handle ne =
      let mock = mock_of before w e handle in
      let first = first_call before w e handle in
      let second =
        ap (λ (r : Outcome Reply × GlobalObjectMock M). forward_to_mock M (ending_of handle e) r.1)
          first
        ∙ second_call before w e handle in
      (
        ap (λ r. r.0) (obtains before w e handle ne),
        lives before w e handle ne,
        rw (lives before w e handle ne) (
          (tt, λ q. cc (sym (ap (λ r. r.0) first) ∙ q)),
          λ q. ending_body-returns M expected law handle e (sym (ap (λ r. r.0) second) ∙ q),
        ),
        rw (lives before w e handle ne) (
            subst AllCalled (sym (ap (λ r. r.1) second)) (
              none_left M expected law (origin_method w) (ending_method e) (origin_method-ne w e)
                (λ c. returns (reply 0 handle)) (ending_body handle e) (call_of w)
                (ending_of handle e))),
      )

  failed-Passes :
      (before : GlobalObjectMock M) (w : Origin) (end : End) (code : ℕ)
      → code ≢ 0
      → let mock = failing_mock_of before w code in
        let h = life (tee_of M mock) w [] end [] in
        ((obtain (tee_of M mock) w []).0 ≡ err (Error.from_raw_error code))
        × (h ≡ call_of w ∷ [])
        × Passes M mock h
  unfolding replay
  failed-Passes before w end code ne = (
    ap (λ r. r.0) (fails before w code ne),
    life_fails before w code ne end,
    rw (life_fails before w code ne end)
        (tt, λ q. cc (sym (ap (λ r. r.0) (failing_call before w code)) ∙ q)),
  )

  -- The tests of an object pass, for every way to obtain it, every way to end it, and every handle but
  -- null. On a mock that expects the two calls, once each, the object is obtained with the handle, the
  -- calls of its life are those two, none of them panics, and every expected call is made. On a mock
  -- that expects the first call to fail with a code other than success, the error is that of the code,
  -- and this call is the only one, and does not panic. mockall runs an expectation once.
  pub life-Passes :
      (before : GlobalObjectMock M) (w : Origin) (e : Ending) (handle code : ℕ)
      → handle ≢ 0
      → code ≢ 0
      → (let mock = mock_of before w e handle in
          let h = life (tee_of M mock) w [] (end_of e) [] in
          ((obtain (tee_of M mock) w []).0 ≡ ok (record { raw = handle }))
          × (h ≡ ending_of handle e ∷ call_of w ∷ [])
          × Passes M mock h
          × AllCalled (replay M mock h))
        × (let mock = failing_mock_of before w code in
            let h = life (tee_of M mock) w [] (end_of e) [] in
            ((obtain (tee_of M mock) w []).0 ≡ err (Error.from_raw_error code))
            × (h ≡ call_of w ∷ [])
            × Passes M mock h)
  life-Passes before w e handle code hn cn =
      (obtained-Passes before w e handle hn, failed-Passes before w (end_of e) code cn)
