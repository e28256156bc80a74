-- ===== src/Uuid/Tests.antt =====
-- The sixteen bytes of an example of src/uuid.rs.
use optee_utee.Prelude.{ℕ, ◌≡◌, refl, arith, Bool, true, ◌&&◌, ltb, some, List, [], ◌∷◌}
use optee_utee.Error.{ok}
use optee_utee.Uuid.{UuidCrate, from_bytes, parse_str, to_string}
use optee_utee.Uuid.Hex.{Bytes, hexes}
use optee_utee.Uuid.Text.{hyphenated, be_fields, to_string-from_bytes}

abbrev sixteen : List ℕ
sixteen =
    70 ∷ 235 ∷ 208 ∷ 238 ∷ 14 ∷ 109 ∷ 67 ∷ 201 ∷ 185 ∷ 13 ∷ 204 ∷ 195 ∷ 90 ∷ 145 ∷ 63 ∷ 62 ∷ []

below_256 : List ℕ → Bool
below_256 [] = true
below_256 (b ∷ bs) = ltb b 256 && below_256 bs

below_256-Bytes : (bs : List ℕ) → below_256 bs ≡ true → Bytes bs
unfolding below_256
below_256-Bytes [] e = tt
below_256-Bytes (b ∷ bs) e = (ground (arith, e), below_256-Bytes bs (ground (arith, e)))

sixteen-Bytes : Bytes sixteen
unfolding below_256
sixteen-Bytes = below_256-Bytes sixteen refl

-- A UUID as its bytes, and one text that is parsed.
abbrev by_bytes : UuidCrate (List ℕ)
by_bytes = record {
  parse_str = λ s. some sixteen;
  from_bytes = λ b. b;
  from_slice = λ b. some b;
  as_fields = be_fields;
}

to_string-from_bytes_example :
    (to_string hexes (from_bytes by_bytes sixteen) ≡ hyphenated sixteen)
    × (parse_str by_bytes (to_string hexes (from_bytes by_bytes sixteen))
        ≡ ok (from_bytes by_bytes sixteen))
to_string-from_bytes_example =
    to_string-from_bytes by_bytes hexes sixteen sixteen-Bytes refl refl refl (λ bs h. refl)
