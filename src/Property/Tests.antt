-- ===== src/Property/Tests.antt =====
-- Runs of src/property.rs on a system whose string is two bytes and a NUL.
use optee_utee.Prelude.{
  ltb, inl, inr, Bool-cases, none, arith, ℕ, ◌≡◌, refl, some, ◌⊎◌, List, [], ◌∷◌, ◌++◌, true, ◌==◌,
  if◌then◌else◌,
}
use optee_utee.Codes.{tee_success, tee_error_short_buffer, tee_error_item_not_found}
use optee_utee.Error.{ok}
use optee_utee.Property.Stored.{Store, Keeps}
use optee_utee.Property.Stored.Found.{get-stored}
use optee_utee.Property.Keys.{output, of_string, PropertyKey, set, literal, bytes, get}
use optee_utee.Property.Asking.{subject, prefix_of, starts_with, from_key, Asks, get-Asks}
use optee_utee.Property.{Call, Reply, set_as_raw, get_string, get_property_as_string}
use optee_utee.Property.Sized.{no_nul, get_string-ok, size, reading, filled}

abbrev status : List Call → ℕ
status (get_property_as_string set key room ∷ h) =
    if room == 0 then tee_error_short_buffer else tee_success
status _ = 0

abbrev telling : List Call → Reply
telling h = record {
  code = status h;
  out_size = 3;
  bytes = 65 ∷ 66 ∷ 0 ∷ [];
  flag = true;
  value = 0;
  identity = record { login = 0; uuid = 0 };
}

abbrev two : List ℕ
two = 65 ∷ 66 ∷ []

get_string_test : (get_string (λ s. s) telling 1 (7 ∷ []) []).0 ≡ ok (65 ∷ 66 ∷ [])
unfolding get_string
get_string_test = refl

get_string-ok_example :
    ((tee_error_short_buffer ≡ tee_success)
      × (size (λ s. s) telling 1 (7 ∷ []) [] ≡ 0)
      × (two ≡ []))
    ⊎ ((tee_error_short_buffer ≡ tee_error_short_buffer)
        × (tee_success ≡ tee_success)
        × ((s : List ℕ) × ((filled telling (reading (λ s. s) telling 1 (7 ∷ []) []) 3 ≡ s ++ 0 ∷ [])
              × (no_nul s ≡ true)
              × (two ≡ s))))
get_string-ok_example = get_string-ok (λ s. s) telling 1 (7 ∷ []) [] (65 ∷ 66 ∷ []) get_string_test

get-Asks_example :
    Asks
      (set_as_raw (set PropertyKey.ta_version))
      (bytes (literal PropertyKey.ta_version))
      []
      (get (λ s. s) telling PropertyKey.ta_version []).1
    × (from_key (bytes (literal PropertyKey.ta_version)) ≡ some PropertyKey.ta_version)
    × (starts_with
          (bytes (prefix_of (set PropertyKey.ta_version)))
          (bytes (literal PropertyKey.ta_version))
        ≡ true)
get-Asks_example = get-Asks (λ s. s) telling PropertyKey.ta_version []

-- A system on which every property of the application is the string of two bytes, and no other
-- property is there.
abbrev two_letters : Store
two_letters (set, name) = if set == 0xFFFFFFFF then some (of_string two) else none

abbrev room_of : Call → ℕ
room_of (get_property_as_string set key room) = room
room_of _ = 3

abbrev keeping : List Call → Reply
keeping [] = telling []
keeping (c ∷ h) = record (telling []) {
  code =
      if (subject c).0 == 0xFFFFFFFF
      then (if ltb (room_of c) 3 then tee_error_short_buffer else tee_success)
      else tee_error_item_not_found;
}

keeping-Keeps : Keeps two_letters keeping
keeping-Keeps (get_property_as_string set key room) h = elim (Bool-cases (set == 0xFFFFFFFF)) [
  | inl e ↦ elim (Bool-cases (ltb room 3)) [
    | inl f ↦ rw (e, f) (refl, inl (ground arith, refl))
    | inr f ↦ rw (e, f) (refl, inr (ground arith, refl, refl))
  ]
  | inr e ↦ rw e refl
]
keeping-Keeps c h = elim (Bool-cases ((subject c).0 == 0xFFFFFFFF)) [
  | inl e ↦ rw e tt
  | inr e ↦ rw e refl
]

get-stored_example : (get (λ s. s) keeping PropertyKey.ta_version []).0 ≡ ok (of_string two)
unfolding output set_as_raw set literal bytes
get-stored_example =
    get-stored (λ s. s) keeping two_letters keeping-Keeps PropertyKey.ta_version [] (refl, refl)
