-- ===== src/Error/RoundTrip.antt =====
-- src/error.rs: codes and kinds go into one another.
use optee_utee.Prelude.{
  ℕ, ◌≡◌, ◌≢◌, refl, ◌⊎◌, arith, inl, inr, ap, sym, ◌∙◌, ◌==◌, ==_iff, Bool-cases, true, false,
}
use optee_utee.Codes.{tee_success}
use optee_utee.Error.{
  ErrorKind, ErrorOrigin, to_u32, from_u32, origin_to_u32, origin_from_u32, from_raw_error,
  raw_code,
}

-- Every kind comes back from its code.
pub from_u32-to_u32 : (k : ErrorKind) → from_u32 (to_u32 k) ≡ k
unfolding from_u32 to_u32
from_u32-to_u32 ErrorKind.unknown = refl
from_u32-to_u32 _ = refl

to_u32-from_u32 : (code : ℕ) → (to_u32 (from_u32 code) ≡ code) ⊎ (from_u32 code ≡ ErrorKind.unknown)
unfolding from_u32 to_u32
to_u32-from_u32 code = ground arith

-- What an error made from a raw code is: the code is that of some kind, and the error has this kind
-- and this code; or no kind has the code, and the error is `Unknown`, with the code of `Unknown`.
abbrev pub Made : ℕ → Type 0
Made code =
    ((k : ErrorKind) × (to_u32 k ≡ code)
      × ((from_raw_error code).kind ≡ k)
      × (raw_code (from_raw_error code) ≡ code))
    ⊎ (((k : ErrorKind) → to_u32 k ≢ code)
        × ((from_raw_error code).kind ≡ ErrorKind.unknown)
        × (raw_code (from_raw_error code) ≡ 0xFFFF5002))

to_u32-unmade :
    (code : ℕ) → (to_u32 (from_u32 code) == code) ≡ false → (k : ErrorKind) → to_u32 k ≢ code
to_u32-unmade code e k q =
    let r : from_u32 code ≡ k = ap from_u32 (sym q) ∙ from_u32-to_u32 k in
    let z : (to_u32 (from_u32 code) == code) ≡ true = (==_iff _ _).1 (ap to_u32 r ∙ q) in cc (z, e)

-- An error made from the code of a kind has this kind and this code; an error made from any other
-- number is `Unknown`, with the code after the last known one. The success code is no kind's.
pub raw_code-from_raw_error :
    (code : ℕ) → Made code × (raw_code (from_raw_error tee_success) ≡ 0xFFFF5002)
unfolding raw_code from_raw_error from_u32 to_u32
raw_code-from_raw_error code = (
  elim (Bool-cases (to_u32 (from_u32 code) == code)) [
    | inl e ↦ let q = (==_iff _ _).0 e in inl (from_u32 code, q, refl, q)
    | inr e ↦ elim (to_u32-from_u32 code) [
      | inl q ↦ absurd (let z = (==_iff _ _).1 q in cc (z, e))
      | inr u ↦ inr (to_u32-unmade code e, u, ap to_u32 u)
    ]
  ],
  refl,
)

origin_from_u32-origin_to_u32 : (o : ErrorOrigin) → origin_from_u32 (origin_to_u32 o) ≡ o
unfolding origin_from_u32 origin_to_u32
origin_from_u32-origin_to_u32 ErrorOrigin.api = refl
origin_from_u32-origin_to_u32 _ = refl

origin_to_u32-origin_from_u32 :
    (n : ℕ) → (origin_to_u32 (origin_from_u32 n) ≡ n) ⊎ (origin_from_u32 n ≡ ErrorOrigin.unknown)
unfolding origin_from_u32 origin_to_u32
origin_to_u32-origin_from_u32 n = ground arith

-- Every kind comes back from its code and every origin from its number, and every number but those
-- of the four known origins is read as the origin `Unknown`.
pub codes_round_trip :
    (k : ErrorKind) (o : ErrorOrigin) (n : ℕ)
    → (from_u32 (to_u32 k) ≡ k)
      × (origin_from_u32 (origin_to_u32 o) ≡ o)
      × ((origin_to_u32 (origin_from_u32 n) ≡ n) ⊎ (origin_from_u32 n ≡ ErrorOrigin.unknown))
codes_round_trip k o n =
    (from_u32-to_u32 k, origin_from_u32-origin_to_u32 o, origin_to_u32-origin_from_u32 n)
