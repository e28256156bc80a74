-- ===== src/Time.antt =====
-- src/time.rs: the clocks of the system, of the application and of the rich world.
mod Tests
use optee_utee.Prelude.{
  ℕ, ◌≡◌, ◌≢◌, refl, ◌⊎◌, inl, inr, arith, ◌==◌, ==_iff, Bool-cases, if◌then◌else◌, List, [], ◌∷◌,
}
use optee_utee.Codes.{tee_success}
use optee_utee.Ffi.{ask}
use optee_utee.Error
use optee_utee.Error.{Error, Result, ok, err, check}

pub record Time : Type 0 where
  pub seconds : ℕ
  pub millis : ℕ

pub data Call : Type 0 where
  get_system_time get_ree_time get_ta_persistent_time : Call
  tee_wait : ℕ → Call
  set_ta_persistent_time : Time → Call

-- The status, and what the call writes into the `Time` that it is given.
pub record Reply : Type 0 where
  pub code : ℕ
  pub written : Time → Time

unfoldable pub new : Time
new = record { seconds = 0; millis = 0 }

module _ (tee : List Call → Reply) where
  -- A method on `&mut self` returns the time that it leaves.
  unfoldable pub system_time : Time → List Call → Time × List Call
  system_time t h = let h' = get_system_time ∷ h in ((tee h').written t, h')

  unfoldable pub wait : ℕ → List Call → Result Error (Unit {0}) × List Call
  unfolding ask
  wait timeout h = ask tee (λ r. r.code) (λ r. tt) (tee_wait timeout) h

  unfoldable pub ta_time : Time → List Call → (Time × Result Error (Unit {0})) × List Call
  unfolding check
  ta_time t h =
      let h' = get_ta_persistent_time ∷ h in (((tee h').written t, check (tee h').code tt), h')

  unfoldable pub set_ta_time : Time → List Call → Result Error (Unit {0}) × List Call
  unfolding ask
  set_ta_time t h = ask tee (λ r. r.code) (λ r. tt) (set_ta_persistent_time t) h

  unfoldable pub ree_time : Time → List Call → Time × List Call
  ree_time t h = let h' = get_ree_time ∷ h in ((tee h').written t, h')
