-- ===== src/Time/Tests.antt =====
-- A run of src/time.rs on a system that keeps its time.
use optee_utee.Prelude.{◌≡◌, refl, List, [], ◌∷◌}
use optee_utee.Error.{ok}
use optee_utee.Time.{
  Call, Reply, get_ta_persistent_time, set_ta_persistent_time, set_ta_time, ta_time, Time, new,
}

abbrev clock : List Call → Reply
clock (get_ta_persistent_time ∷ set_ta_persistent_time t ∷ h) = record {
  code = 0;
  written = λ u. t;
}
clock _ = record { code = 0; written = λ u. u }

abbrev start : Time
start = record { seconds = 5; millis = 7 }

set_ta_time_test : (ta_time clock new (set_ta_time clock start []).1).0 ≡ (start, ok tt)
unfolding set_ta_time ta_time
set_ta_time_test = refl
