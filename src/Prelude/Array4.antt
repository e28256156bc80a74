-- ===== src/Prelude/Array4.antt =====
-- `[A; 4]`: the arrays of four that the parameters of a command are kept in, and their indices.
use mathlib.Core.Path.{◌≡◌, refl}
use mathlib.Core.Logic.{◌≢◌}

pub record Array4 (A : Type 0) : Type 0 where
  pub e0 : A
  pub e1 : A
  pub e2 : A
  pub e3 : A

pub data Index : Type 0 where
  arg0 arg1 arg2 arg3 : Index

abbrev pub at : {A : Type 0} → Array4 A → Index → A
at xs arg0 = xs.e0
at xs arg1 = xs.e1
at xs arg2 = xs.e2
at xs arg3 = xs.e3

abbrev pub put : {A : Type 0} → Array4 A → Index → A → Array4 A
put xs arg0 x = record xs { e0 = x }
put xs arg1 x = record xs { e1 = x }
put xs arg2 x = record xs { e2 = x }
put xs arg3 x = record xs { e3 = x }

abbrev pub map4 : {A B : Type 0} → (A → B) → Array4 A → Array4 B
map4 f xs = record { e0 = f xs.e0; e1 = f xs.e1; e2 = f xs.e2; e3 = f xs.e3 }

abbrev pub All4 : {A : Type 0} → (A → Type 0) → Array4 A → Type 0
All4 P xs = P xs.e0 × P xs.e1 × P xs.e2 × P xs.e3

pub at-put_self : {A : Type 0} (xs : Array4 A) (i : Index) (x : A) → at (put xs i x) i ≡ x
at-put_self xs arg0 x = refl
at-put_self xs _ x = refl

pub at-put_ne :
    {A : Type 0} (xs : Array4 A) (i j : Index) (x : A) → i ≢ j → at (put xs i x) j ≡ at xs j
at-put_ne xs arg0 arg0 x h = absurd (h refl)
at-put_ne xs arg1 arg1 x h = absurd (h refl)
at-put_ne xs arg2 arg2 x h = absurd (h refl)
at-put_ne xs arg3 arg3 x h = absurd (h refl)
at-put_ne xs _ _ x h = refl

pub at-map4 :
    {A B : Type 0} (f : A → B) (xs : Array4 A) (i : Index) → at (map4 f xs) i ≡ f (at xs i)
at-map4 f xs arg0 = refl
at-map4 f xs _ = refl

pub All4-put :
    {A : Type 0} (P : A → Type 0) (xs : Array4 A) (i : Index) (x : A)
    → All4 P xs
    → P x
    → All4 P (put xs i x)
All4-put P xs arg0 x h p = (p, h.1, h.2, h.3)
All4-put P xs arg1 x h p = (h.0, p, h.2, h.3)
All4-put P xs arg2 x h p = (h.0, h.1, p, h.3)
All4-put P xs arg3 x h p = (h.0, h.1, h.2, p)

pub All4-at : {A : Type 0} (P : A → Type 0) (xs : Array4 A) (i : Index) → All4 P xs → P (at xs i)
All4-at P xs arg0 h = h.0
All4-at P xs arg1 h = h.1
All4-at P xs arg2 h = h.2
All4-at P xs arg3 h = h.3
