-- ===== src/Property/Sized.antt =====
-- src/property.rs: the values that are read in two calls, the first of which asks for the size.
use optee_utee.Prelude.{
  ℕ, ◌≡◌, refl, ap, sym, ◌∙◌, ◌⊎◌, inl, inr, arith, ◌==◌, if◌then◌else◌, Bool, true, false, Option,
  some, none, List, [], ◌∷◌, ◌++◌, replicate, Bool-cases, ==_iff,
}
use optee_utee.Codes.{tee_success, tee_error_short_buffer}
use optee_utee.Error
use optee_utee.Error.{Error, Result, ok, err, generic, bad_format}
use optee_utee.Property.{
  Call, Reply, overwrite, from_bytes_with_nul, get_string, get_property_as_string, string_of,
}

-- No byte is 0.
abbrev pub no_nul : List ℕ → Bool
no_nul [] = true
no_nul (c ∷ cs) = if c == 0 then false else no_nul cs

from_bytes_with_nul-append :
    (s : List ℕ) → no_nul s ≡ true → from_bytes_with_nul (s ++ 0 ∷ []) ≡ some s
unfolding from_bytes_with_nul
from_bytes_with_nul-append [] e = refl
from_bytes_with_nul-append (c ∷ s) e = elim (Bool-cases (c == 0)) [
  | inl z ↦ absurd (ground (arith, e, z))
  | inr z ↦
      let k : no_nul s ≡ true = ground (arith, e, z) in
      rw (z, from_bytes_with_nul, from_bytes_with_nul-append s k) refl
]

Sound : List ℕ → Option (List ℕ) → Type 0
Sound bytes none = Unit {0}
Sound bytes (some s) = (bytes ≡ s ++ 0 ∷ []) × (no_nul s ≡ true)

Sound-cons :
    (c : ℕ) (cs : List ℕ) (r : Option (List ℕ))
    → (c == 0) ≡ false
    → Sound cs r
    → Sound (c ∷ cs) (elim r [ some s ↦ some (c ∷ s) | none ↦ none ])
unfolding Sound
Sound-cons c cs none z k = tt
Sound-cons c cs (some s) z k = (ap (λ ys. c ∷ ys) k.0, rw z k.1)

Sound-zero :
    (c : ℕ) (cs : List ℕ) → c ≡ 0 → Sound (c ∷ cs) (elim cs [ [] ↦ some [] | d ∷ ds ↦ none ])
unfolding Sound
Sound-zero c [] z = (ap (λ d. d ∷ []) z, refl)
Sound-zero c (d ∷ ds) z = tt

from_bytes_with_nul-Sound : (bytes : List ℕ) → Sound bytes (from_bytes_with_nul bytes)
unfolding from_bytes_with_nul Sound
from_bytes_with_nul-Sound [] = tt
from_bytes_with_nul-Sound (c ∷ cs) = elim (Bool-cases (c == 0)) [
  | inl z ↦ rw (z, from_bytes_with_nul) (Sound-zero c cs ((==_iff c 0).0 z))
  | inr z ↦
      rw (z, from_bytes_with_nul)
        (Sound-cons c cs (from_bytes_with_nul cs) z (from_bytes_with_nul-Sound cs))
]

string_of-ok :
    (lossy : List ℕ → List ℕ) (tee : List Call → Reply) {bytes r : List ℕ} (o : Option (List ℕ))
    → Sound bytes o
    → string_of lossy tee o ≡ ok r
    → (s : List ℕ) × ((bytes ≡ s ++ 0 ∷ []) × (no_nul s ≡ true) × (r ≡ lossy s))
unfolding string_of Sound
string_of-ok lossy tee (some s) k e = (s, (k.0, k.1, cc e))
string_of-ok lossy tee none k e = absurd (cc e)

-- The buffer of `n` bytes after a reply that has written to it.
abbrev pub filled : (List Call → Reply) → List Call → ℕ → List ℕ
filled tee h n = overwrite (replicate n 0) (tee h).bytes

module _ (lossy : List ℕ → List ℕ) (tee : List Call → Reply) (set : ℕ) (key : List ℕ)
    (h : List Call) where
  abbrev pub sizing : List Call
  sizing = get_property_as_string set key 0 ∷ h

  abbrev pub size : ℕ
  size = (tee sizing).out_size

  abbrev pub reading : List Call
  reading = get_property_as_string set key size ∷ sizing

  of_buffer :
      (r : List ℕ)
      → string_of lossy tee (from_bytes_with_nul (filled tee reading size)) ≡ ok r
      → (s : List ℕ) × ((filled tee reading size ≡ s ++ 0 ∷ []) × (no_nul s ≡ true) × (r ≡ lossy s))
  unfolding string_of
  of_buffer r e =
      string_of-ok lossy tee (from_bytes_with_nul (filled tee reading size))
        (from_bytes_with_nul-Sound (filled tee reading size)) e

  -- A string property that is read is the empty string, of which the system has said in one call
  -- that its size is 0; or the size was asked for first, and the buffer of this size, as the second
  -- call has filled it, holds the string and one `\0`, at its end.
  pub get_string-ok :
      (r : List ℕ)
      → (get_string lossy tee set key h).0 ≡ ok r
      → (((tee sizing).code ≡ tee_success) × (size ≡ 0) × (r ≡ []))
        ⊎ (((tee sizing).code ≡ tee_error_short_buffer)
            × ((tee reading).code ≡ tee_success)
            × ((s : List ℕ) × ((filled tee reading size ≡ s ++ 0 ∷ [])
                  × (no_nul s ≡ true)
                  × (r ≡ lossy s))))
  unfolding get_string
  get_string-ok r e = elim (Bool-cases ((tee sizing).code == tee_success)) [
    | inl f ↦ elim (Bool-cases (size == 0)) [
      | inl g ↦
          let q : (get_string lossy tee set key h).0 ≡ ok [] = rw (f, g, get_string) refl in
          inl ((==_iff _ _).0 f, (==_iff _ _).0 g, cc (q, e))
      | inr g ↦
          let q : (get_string lossy tee set key h).0 ≡ err (Error.new generic) =
            rw (f, g, get_string) refl in
          absurd (cc (q, e))
    ]
    | inr f ↦ elim (Bool-cases ((tee sizing).code == tee_error_short_buffer)) [
      | inl g ↦ elim (Bool-cases ((tee reading).code == tee_success)) [
        | inl k ↦
            let q : (get_string lossy tee set key h).0
                ≡ string_of lossy tee (from_bytes_with_nul (filled tee reading size)) =
              rw (f, g, k, get_string) refl in
            inr ((==_iff _ _).0 g, (==_iff _ _).0 k, of_buffer r (sym q ∙ e))
        | inr k ↦
            let q : (get_string lossy tee set key h).0
                ≡ err (Error.from_raw_error (tee reading).code) =
              rw (f, g, k, get_string) refl in
            absurd (cc (q, e))
      ]
      | inr g ↦
          let q : (get_string lossy tee set key h).0
              ≡ err (Error.from_raw_error (tee sizing).code) =
            rw (f, g, get_string) refl in
          absurd (cc (q, e))
    ]
  ]

  -- And such a string is read: if the first call says that the buffer is too short, the second
  -- succeeds, and the buffer then holds a string and one `\0`, at its end, the string is the result.
  pub get_string_reads :
      (s : List ℕ)
      → (tee sizing).code ≡ tee_error_short_buffer
      → (tee reading).code ≡ tee_success
      → filled tee reading size ≡ s ++ 0 ∷ []
      → no_nul s ≡ true
      → get_string lossy tee set key h ≡ (ok (lossy s), reading)
  unfolding get_string string_of
  get_string_reads s f g e k =
      let b : from_bytes_with_nul (filled tee reading size) ≡ some s =
        ap from_bytes_with_nul e ∙ from_bytes_with_nul-append s k in
      rw (f, g, b, get_string) refl
