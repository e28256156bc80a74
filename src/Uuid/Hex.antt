-- ===== src/Uuid/Hex.antt =====
-- src/uuid.rs: padded hexadecimal numbers, and the text of bytes.
use optee_utee.Prelude.{
  ℕ, zero, suc, ◌+◌, ◌-◌, ◌*◌, ◌/◌, ◌%◌, ◌≤◌, ◌<◌, ◌≡◌, refl, ap, sym, ◌∙◌, arith, ltb, inl, inr,
  Bool-cases, List, [], ◌∷◌, ◌++◌, append-nil, append_assoc, true, false, length, length-append,
  replicate,
}
use optee_utee.Uuid.{hex_digit, digits, lower_hex}

-- The last `w` digits of `n`, and that there are no more.
unfoldable pub fixed : ℕ → ℕ → List ℕ
fixed zero n = []
fixed (suc w) n = fixed w (n / 16) ++ hex_digit (n % 16) ∷ []

unfoldable pub Fits : ℕ → ℕ → Type 0
Fits zero n = n ≡ 0
Fits (suc w) n = Fits w (n / 16)

abbrev pad : ℕ → List ℕ → List ℕ
pad w s = replicate (w - length s) 48 ++ s

pad-append : (w : ℕ) (s : List ℕ) (d : ℕ) → pad (suc w) (s ++ d ∷ []) ≡ pad w s ++ d ∷ []
pad-append w s d =
    let e : suc w - length (s ++ d ∷ []) ≡ w - length s = omega (arith, length-append s (d ∷ [])) in
    rw e (sym (append_assoc (replicate (w - length s) 48) s (d ∷ [])))

pad-nil : (w : ℕ) → pad w [] ≡ replicate w 48
pad-nil w = let e : w - 0 ≡ w = omega arith in rw e (append-nil (replicate w 48))

replicate-append : (w a : ℕ) → replicate w a ++ a ∷ [] ≡ a ∷ replicate w a
replicate-append zero a = refl
replicate-append (suc w) a = ap (λ s. a ∷ s) (replicate-append w a)

fixed-zero : (w : ℕ) → fixed w 0 ≡ replicate w 48
unfolding fixed
fixed-zero zero = refl
fixed-zero (suc w) = ap (λ s. s ++ 48 ∷ []) (fixed-zero w) ∙ replicate-append w 48

digits_small : (f n : ℕ) → n < 16 → digits (suc f) n ≡ hex_digit (n % 16) ∷ []
unfolding digits
digits_small f n h =
    let e : ltb n 16 ≡ true = ground arith in let k : n % 16 ≡ n = omega arith in rw (e, k)

digits_large :
    (f n : ℕ) → ltb n 16 ≡ false → digits (suc f) n ≡ digits f (n / 16) ++ hex_digit (n % 16) ∷ []
unfolding digits
digits_large f n e = rw e

-- Digits padded with zeros are the last digits, if there are no more and the fuel is enough.
pad-digits : (w f n : ℕ) → Fits (suc w) n → w ≤ f → pad (suc w) (digits (suc f) n) ≡ fixed (suc w) n
unfolding fixed Fits
pad-digits zero f n k l = rw (digits_small f n (omega (arith, k)))
pad-digits (suc w) zero n k l = absurd (omega arith)
pad-digits (suc w) (suc f) n k l = elim (Bool-cases (ltb n 16)) [
  | inl e ↦
      let z : n / 16 ≡ 0 = ground (arith, e) in
      rw (digits_small (suc f) n (ground (arith, e))) (
        pad-append (suc w) [] (hex_digit (n % 16))
        ∙ ap (λ s. s ++ hex_digit (n % 16) ∷ [])
            (pad-nil (suc w) ∙ sym (ap (fixed (suc w)) z ∙ fixed-zero (suc w))))
  | inr e ↦ rw (digits_large (suc f) n e) (
      pad-append (suc w) (digits (suc f) (n / 16)) (hex_digit (n % 16))
      ∙ ap (λ s. s ++ hex_digit (n % 16) ∷ []) (pad-digits w f (n / 16) k (omega arith)))
]

-- Two digits for each byte.
unfoldable pub hexes : List ℕ → List ℕ
hexes [] = []
hexes (b ∷ bs) = hex_digit (b / 16) ∷ hex_digit (b % 16) ∷ hexes bs

abbrev pub Bytes : List ℕ → Type 0
Bytes [] = Unit {0}
Bytes (b ∷ bs) = (b < 256) × Bytes bs

-- The big-endian number of the bytes.
abbrev be_from : ℕ → List ℕ → ℕ
be_from n [] = n
be_from n (b ∷ bs) = be_from (n * 256 + b) bs

abbrev pub be : List ℕ → ℕ
be bs = be_from 0 bs

abbrev widths : ℕ → List ℕ → ℕ
widths w [] = w
widths w (b ∷ bs) = widths (suc (suc w)) bs

widths-eq : (w : ℕ) (bs : List ℕ) → widths w bs ≡ w + 2 * length bs
widths-eq w [] = omega arith
widths-eq w (b ∷ bs) = omega (arith, widths-eq (suc (suc w)) bs)

module _ (n b : ℕ) (h : b < 256) where
  upper : (n * 256 + b) / 16 / 16 ≡ n
  upper = omega arith

  middle : (n * 256 + b) / 16 % 16 ≡ b / 16
  middle = omega arith

  lower : (n * 256 + b) % 16 ≡ b % 16
  lower = omega arith

fixed-be_from :
    (w n : ℕ) (bs : List ℕ) → Bytes bs → fixed (widths w bs) (be_from n bs) ≡ fixed w n ++ hexes bs
unfolding fixed hexes
fixed-be_from w n [] h = sym (append-nil (fixed w n))
fixed-be_from w n (b ∷ bs) h =
    fixed-be_from (suc (suc w)) (n * 256 + b) bs h.1
    ∙ rw (upper n b h.0, middle n b h.0, lower n b h.0)
        (ap (λ s. s ++ hexes bs)
            (append_assoc (fixed w n) (hex_digit (b / 16) ∷ []) (hex_digit (b % 16) ∷ []))
          ∙ append_assoc (fixed w n) (hex_digit (b / 16) ∷ hex_digit (b % 16) ∷ []) (hexes bs))

Fits-be_from : (w n : ℕ) (bs : List ℕ) → Bytes bs → Fits w n → Fits (widths w bs) (be_from n bs)
unfolding Fits
Fits-be_from w n [] h k = k
Fits-be_from w n (b ∷ bs) h k =
    Fits-be_from (suc (suc w)) (n * 256 + b) bs h.1 (rw (upper n b h.0) k)

zero-Fits : Fits 0 0
unfolding Fits
zero-Fits = refl

-- A big-endian number of up to four bytes, in its full width.
pub lower_hex-be :
    (w : ℕ) (bs : List ℕ)
    → Bytes bs
    → 2 * length bs ≡ suc w
    → w ≤ 7
    → lower_hex (suc w) (be bs) ≡ hexes bs
unfolding lower_hex hexes fixed
lower_hex-be w bs h k l =
    let e : widths 0 bs ≡ suc w = omega (arith, widths-eq 0 bs) in
    pad-digits w 7 (be bs) (rw (sym e) (Fits-be_from 0 0 bs h zero-Fits)) l
    ∙ ap (λ v. fixed v (be bs)) (sym e)
    ∙ fixed-be_from 0 0 bs h
