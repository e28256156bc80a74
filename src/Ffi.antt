-- ===== src/Ffi.antt =====
-- How the crate calls a C function that returns a status: the calls so far, latest first, determine
-- the reply, and the wrapper reads the status. Shared by the wrappers of src/object, src/time.rs,
-- src/crypto_op.rs and src/arithmetical.rs.
use optee_utee.Prelude.{
  ℕ, ◌≡◌, ◌≢◌, refl, ◌⊎◌, inl, inr, arith, ◌==◌, ==_iff, Bool-cases, List, ◌∷◌,
}
use optee_utee.Codes.{tee_success}
use optee_utee.Error
use optee_utee.Error.{Error, Result, ok, err, check}

module _ {Call Reply : Type 0} (tee : List Call → Reply) where
  -- `unsafe { raw::f(…) };`, for a function that returns nothing.
  unfoldable pub tell : Call → List Call → List Call
  tell c h = c ∷ h

  -- `match unsafe { raw::f(…) } { TEE_SUCCESS => Ok(value), code => Err(from_raw_error(code)) }`.
  unfoldable pub ask :
      {A : Type 0} → (Reply → ℕ) → (Reply → A) → Call → List Call → Result Error A × List Call
  unfolding check
  ask code value c h = (check (code (tee (c ∷ h))) (value (tee (c ∷ h))), c ∷ h)

  -- The call is made; on success its value is returned, and any other status is the error.
  pub ask_lem :
      {A : Type 0} (code : Reply → ℕ) (value : Reply → A) (c : Call) (h : List Call)
      → ((ask code value c h).1 ≡ c ∷ h)
        × (((code (tee (c ∷ h)) ≡ tee_success)
              × ((ask code value c h).0 ≡ ok (value (tee (c ∷ h)))))
            ⊎ ((code (tee (c ∷ h)) ≢ tee_success)
                × ((ask code value c h).0 ≡ err (Error.from_raw_error (code (tee (c ∷ h)))))))
  unfolding ask
  ask_lem code value c h = (
    refl,
    elim (Bool-cases (code (tee (c ∷ h)) == tee_success)) [
      | inl e ↦ inl ((==_iff _ _).0 e, rw e)
      | inr e ↦ inr ((λ q. ground arith), rw e)
    ],
  )
