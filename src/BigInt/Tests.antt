-- ===== src/BigInt/Tests.antt =====
-- Runs of src/arithmetical.rs on a system that counts as many bits of a
-- number as its first word says.
use optee_utee.Prelude.{ℕ, ◌+◌, ◌*◌, ◌^◌, ◌<◌, ◌≡◌, refl, arith, List, [], ◌∷◌, true, pos}
use optee_utee.BigInt.{BigInt, Call, Reply, get_bit_count_call, add, sub, multiply, square, divide}
use optee_utee.BigInt.Capacity.{capacity, results_fit}

abbrev counted : List Call → ℕ
counted (get_bit_count_call (w ∷ ws) ∷ h) = w
counted _ = 0

abbrev counting : List Call → Reply
counting h = record { code = 0; count = counted h; flag = true; int = pos 1; words = []; rest = [] }

abbrev big : BigInt
big = record { words = 33 ∷ [] }

abbrev one : BigInt
one = record { words = 1 ∷ [] }

capacity_test : capacity (divide counting big one []).0.0 ≡ 32
unfolding divide
capacity_test = refl

results_fit_example :
    (7 + 1 < 2 ^ capacity (add counting big one []).0)
    × (7 + 1 < 2 ^ capacity (sub counting big one []).0)
    × (7 * 1 < 2 ^ capacity (multiply counting big one []).0)
    × (7 * 7 < 2 ^ capacity (square counting big []).0)
results_fit_example = results_fit counting big one [] 7 1 (omega arith) (omega arith) (omega arith)
