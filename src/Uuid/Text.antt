-- ===== src/Uuid/Text.antt =====
-- src/uuid.rs: the text of a UUID that was made from bytes.
use optee_utee.Prelude.{
  ℕ, zero, suc, ◌+◌, ◌≤◌, ◌≡◌, refl, ap, ◌∙◌, arith, some, List, [], ◌∷◌, ◌++◌, length, take, drop,
  length-take, length-drop,
}
use optee_utee.Error.{ok}
use optee_utee.Uuid.{UuidCrate, new_raw, from_bytes, checked, parse_str, lower_hex, to_string}
use optee_utee.Uuid.Hex.{Bytes, hexes, be, lower_hex-be}

-- The text form of sixteen bytes: two digits each, with a dash behind the bytes 4, 6, 8 and 10.
unfoldable pub hyphenated : List ℕ → List ℕ
unfolding hexes
hyphenated b =
    hexes (take 4 b)
    ++ 45 ∷ hexes (take 2 (drop 4 b))
    ++ 45 ∷ hexes (take 2 (drop 6 b))
    ++ 45 ∷ hexes (take 2 (drop 8 b))
    ++ 45 ∷ hexes (drop 10 b)

-- The fields of the crate `uuid`, which are big-endian in the bytes.
abbrev pub be_fields : List ℕ → ℕ × ℕ × ℕ × List ℕ
be_fields b = (be (take 4 b), be (take 2 (drop 4 b)), be (take 2 (drop 6 b)), drop 8 b)

take-Bytes : (n : ℕ) (b : List ℕ) → Bytes b → Bytes (take n b)
take-Bytes zero b h = tt
take-Bytes (suc n) [] h = tt
take-Bytes (suc n) (x ∷ b) h = (h.0, take-Bytes n b h.1)

drop-Bytes : (n : ℕ) (b : List ℕ) → Bytes b → Bytes (drop n b)
drop-Bytes zero b h = h
drop-Bytes (suc n) [] h = tt
drop-Bytes (suc n) (x ∷ b) h = drop-Bytes n b h.1

drop-nil : (n : ℕ) → drop {A = ℕ} n [] ≡ []
drop-nil zero = refl
drop-nil (suc n) = refl

drop-drop : (m n : ℕ) (b : List ℕ) → drop m (drop n b) ≡ drop (n + m) b
drop-drop m zero b = ap (λ k. drop k b) (omega arith)
drop-drop m (suc n) [] = let e : suc n + m ≡ suc (n + m) = omega arith in rw e (drop-nil m)
drop-drop m (suc n) (x ∷ b) =
    let e : suc n + m ≡ suc (n + m) = omega arith in rw e (drop-drop m n b)

take_all : (n : ℕ) (b : List ℕ) → length b ≡ n → take n b ≡ b
take_all zero [] e = refl
take_all zero (x ∷ b) e = absurd (omega arith)
take_all (suc n) [] e = absurd (omega arith)
take_all (suc n) (x ∷ b) e = ap (λ s. x ∷ s) (take_all n b (omega arith))

module _ (b : List ℕ) (h : Bytes b) (l : length b ≡ 16) where
  low : lower_hex 8 (be (take 4 b)) ≡ hexes (take 4 b)
  low = lower_hex-be 7 (take 4 b) (take-Bytes 4 b h) (omega (arith, length-take 4 b)) (omega arith)

  pair : (n : ℕ) → n + 2 ≤ 16 → lower_hex 4 (be (take 2 (drop n b))) ≡ hexes (take 2 (drop n b))
  pair n k =
      lower_hex-be 3 (take 2 (drop n b)) (take-Bytes 2 _ (drop-Bytes n b h))
        (omega (arith, length-take 2 (drop n b), length-drop n b)) (omega arith)

  last : take 6 (drop 2 (drop 8 b)) ≡ drop 10 b
  last = take_all 6 _ (omega (arith, length-drop 2 (drop 8 b), length-drop 8 b)) ∙ drop-drop 2 8 b

  to_string-be_fields :
      (encode : List ℕ → List ℕ)
      → ((bs : List ℕ) → Bytes bs → encode bs ≡ hexes bs)
      → (let f = be_fields b in to_string encode (new_raw f.0 f.1 f.2 f.3)) ≡ hyphenated b
  unfolding to_string hyphenated new_raw
  to_string-be_fields encode hex i =
      low i
      ++ 45 ∷ pair 4 (omega arith) i
      ++ 45 ∷ pair 6 (omega arith) i
      ++ 45 ∷ hex (take 2 (drop 8 b)) (take-Bytes 2 _ (drop-Bytes 8 b h)) i
      ++ 45
        ∷ (hex (take 6 (drop 2 (drop 8 b))) (take-Bytes 6 _ (drop-Bytes 2 _ (drop-Bytes 8 b h)))
              ∙ ap hexes last)
            i

-- The crate `uuid` reads the fields of a UUID big-endian from its bytes and parses the hyphenated
-- text of the bytes, and `hex::encode` writes two digits for each byte, as they are documented. Then
-- a UUID that is made from sixteen bytes is written as their hyphenated text, and that text is
-- parsed to the same UUID.
pub to_string-from_bytes :
    {X : Type 0} (uuid_crate : UuidCrate X) (encode : List ℕ → List ℕ) (b : List ℕ)
    → Bytes b
    → length b ≡ 16
    → uuid_crate.as_fields (uuid_crate.from_bytes b) ≡ be_fields b
    → uuid_crate.parse_str (hyphenated b) ≡ some (uuid_crate.from_bytes b)
    → ((bs : List ℕ) → Bytes bs → encode bs ≡ hexes bs)
    → (to_string encode (from_bytes uuid_crate b) ≡ hyphenated b)
      × (parse_str uuid_crate (to_string encode (from_bytes uuid_crate b))
          ≡ ok (from_bytes uuid_crate b))
unfolding from_bytes checked parse_str
to_string-from_bytes uuid_crate encode b h l fields parsed hex =
    let written : to_string encode (from_bytes uuid_crate b) ≡ hyphenated b =
      ap (λ f. to_string encode (new_raw f.0 f.1 f.2 f.3)) fields
      ∙ to_string-be_fields b h l encode hex in
    (written, rw (written, parsed) refl)
