-- ===== src/Manager/Sessions.antt =====
-- The map of ta_manager/src/lib.rs from session identifiers to session threads.
use native.Mathlib.Decide.{dec_lt}
use optee_utee.Prelude.{
  ℕ, ◌<◌, ◌≤◌, ◌≡◌, refl, arith, ◌==◌, if◌then◌else◌, List, [], ◌∷◌, Option, none, some,
}

abbrev pub SessionMap : Type 0 → Type 0
SessionMap V = List (ℕ × V)

module _ {V : Type 0} where
  unfoldable pub lookup : ℕ → SessionMap V → Option V
  lookup id [] = none
  lookup id ((j, v) ∷ m) = if j == id then some v else lookup id m

  unfoldable pub insert : ℕ → V → SessionMap V → SessionMap V
  insert id v [] = (id, v) ∷ []
  insert id v ((j, w) ∷ m) = if j == id then (id, v) ∷ m else (j, w) ∷ insert id v m

  pub lookup-insert :
      (i j : ℕ) (v : V) (m : SessionMap V)
      → lookup j (insert i v m) ≡ (if i == j then some v else lookup j m)
  unfolding lookup insert
  lookup-insert i j v [] = refl
  lookup-insert i j v ((k, w) ∷ m) = ground (arith, lookup-insert i j v m)

  -- Every identifier in the map lies below the bound.
  abbrev pub Below : ℕ → SessionMap V → Type 0
  Below n [] = Unit {0}
  Below n ((i, v) ∷ m) = (i < n) × Below n m

  pub Below-mono : (n k : ℕ) (m : SessionMap V) → n ≤ k → Below n m → Below k m
  Below-mono n k [] le b = tt
  Below-mono n k ((i, v) ∷ m) le b = (omega arith, Below-mono n k m le b.1)

  pub insert-Below :
      (n id : ℕ) (v : V) (m : SessionMap V) → id < n → Below n m → Below n (insert id v m)
  unfolding insert
  insert-Below n id v [] lt b = (lt, tt)
  insert-Below n id v ((j, w) ∷ m) lt b = ground (arith, insert-Below n id v m lt b.1)

  pub lookup_above : (n id : ℕ) (m : SessionMap V) → Below n m → n ≤ id → lookup id m ≡ none
  unfolding lookup
  lookup_above n id [] b le = refl
  lookup_above n id ((j, v) ∷ m) b le = ground (arith, lookup_above n id m b.1 le)

  pub lookup-lt : (n id : ℕ) (m : SessionMap V) (v : V) → Below n m → lookup id m ≡ some v → id < n
  lookup-lt n id m v b e = elim (dec_lt id n) [
    | yes lt ↦ lt
    | no ge ↦ cc (lookup_above n id m b (omega arith))
  ]
