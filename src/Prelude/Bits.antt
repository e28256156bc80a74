-- ===== src/Prelude/Bits.antt =====
-- The bit operations on the sixteen bits that hold four parameter types, by exhaustion.
use Prim.Native.Nat.{ℕ, zero, suc, ◌+◌, ◌*◌, ◌/◌, ◌%◌, ◌<◌, bit_and, bit_or}
use mathlib.Core.Path.{◌≡◌, refl}
use mathlib.Core.Bool.{Bool, true, ◌&&◌}
use native.Mathlib.Omega.{arith}
use optee_utee.Prelude.Tests.{◌==◌, ==_iff}

-- Every number below the bound passes the test.
all_below : ℕ → (ℕ → Bool) → Bool
all_below zero test = true
all_below (suc n) test = test n && all_below n test

all_below-lt : (n : ℕ) (test : ℕ → Bool) (x : ℕ) → all_below n test ≡ true → x < n → test x ≡ true
unfolding all_below
all_below-lt zero test x h lt = absurd (omega arith)
all_below-lt (suc n) test x h lt = ground (arith, all_below-lt n test x)

-- Setting a nibble above the bits that are there adds it.
or_table : ℕ → ℕ → Bool
or_table m acc = all_below 16 (λ t. bit_or acc (t * m) == acc + t * m)

or_nibble :
    (m : ℕ)
    → all_below m (or_table m) ≡ true
    → (acc t : ℕ) → acc < m
    → t < 16
    → bit_or acc (t * m) ≡ acc + t * m
unfolding or_table
or_nibble m table acc t ha ht =
    (==_iff _ _).0 (all_below-lt 16 _ t (all_below-lt m (or_table m) acc table ha) ht)

pub or_nibble0 : (acc t : ℕ) → acc < 1 → t < 16 → bit_or acc (t * 1) ≡ acc + t * 1
unfolding all_below or_table
or_nibble0 = or_nibble 1 refl

pub or_nibble1 : (acc t : ℕ) → acc < 16 → t < 16 → bit_or acc (t * 16) ≡ acc + t * 16
unfolding all_below or_table
or_nibble1 = or_nibble 16 refl

pub or_nibble2 : (acc t : ℕ) → acc < 256 → t < 16 → bit_or acc (t * 256) ≡ acc + t * 256
unfolding all_below or_table
or_nibble2 = or_nibble 256 refl

pub or_nibble3 : (acc t : ℕ) → acc < 4096 → t < 16 → bit_or acc (t * 4096) ≡ acc + t * 4096
unfolding all_below or_table
or_nibble3 = or_nibble 4096 refl

-- Masking a nibble and shifting it down reads a hexadecimal digit.
and_table : ℕ → ℕ → Bool
and_table m x = bit_and (15 * m) x / m == x / m % 16

and_nibble :
    (m : ℕ)
    → all_below 65536 (and_table m) ≡ true
    → (x : ℕ) → x < 65536
    → bit_and (15 * m) x / m ≡ x / m % 16
unfolding and_table
and_nibble m table x h = (==_iff _ _).0 (all_below-lt 65536 _ x table h)

pub and_nibble0 : (x : ℕ) → x < 65536 → bit_and 15 x / 1 ≡ x / 1 % 16
unfolding all_below and_table
and_nibble0 = and_nibble 1 refl

pub and_nibble1 : (x : ℕ) → x < 65536 → bit_and 0x00f0 x / 16 ≡ x / 16 % 16
unfolding all_below and_table
and_nibble1 = and_nibble 16 refl

pub and_nibble2 : (x : ℕ) → x < 65536 → bit_and 0x0f00 x / 256 ≡ x / 256 % 16
unfolding all_below and_table
and_nibble2 = and_nibble 256 refl

pub and_nibble3 : (x : ℕ) → x < 65536 → bit_and 0xf000 x / 4096 ≡ x / 4096 % 16
unfolding all_below and_table
and_nibble3 = and_nibble 4096 refl
