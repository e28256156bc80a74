-- ===== src/Property/Stored.antt =====
-- src/property.rs: a system that keeps its properties in a table.
pub mod Found
use optee_utee.Prelude.{
  ℕ, zero, suc, ◌+◌, ◌≤◌, ◌<◌, ◌≡◌, refl, sym, ap, ◌∙◌, ◌⊎◌, ◌==◌, ==_iff, inl, inr, Bool-cases,
  Option, none, some, List, [], ◌∷◌, ◌++◌, arith, length, length-append, length-replicate, take,
  take-append, take-append-drop, drop, replicate, true, false, append-nil,
}
use optee_utee.Codes.{tee_success, tee_error_short_buffer, tee_error_item_not_found}
use optee_utee.Error
use optee_utee.Error.{Error, Result, ok, err}
use optee_utee.Ffi.{ask}
use optee_utee.Property.{
  Identity, set_as_raw, Call, Reply, get_property_as_string, get_property_as_binary_block,
  get_property_as_bool, get_property_as_u32, get_property_as_uuid, get_property_as_identity,
  overwrite, get_string, get_binary_block, get_bool, get_u32, get_uuid, get_identity,
}
use optee_utee.Property.Sized.{no_nul, get_string_reads, size, reading, sizing, filled}
use optee_utee.Property.Asking.{subject, key-literal}
use optee_utee.Property.Keys.{
  PropertyKey, Output, set, key, literal, bytes, output, Value, of_string, of_block, of_bool,
  of_u32, of_uuid, of_identity, as_value, get, get_by,
}

-- What a call does that writes `content` to a buffer of `room` bytes: it writes the size of it,
-- and the bytes where there is room.
abbrev pub Fits : List ℕ → ℕ → Reply → Type 0
Fits content room r =
    (r.out_size ≡ length content)
    × (((room < length content) × (r.code ≡ tee_error_short_buffer))
        ⊎ ((length content ≤ room) × (r.code ≡ tee_success) × (r.bytes ≡ content)))

-- What is documented of the system's functions: a property that is not there is not found; a function
-- that asks for a property as what it is writes its value, a string with a `\0` behind it. Of a
-- function that asks for a property as something else, nothing is said.
abbrev pub Answers : Option Value → Call → Reply → Type 0
Answers none c r = r.code ≡ tee_error_item_not_found
Answers (some (of_string s)) (get_property_as_string set key room) r = Fits (s ++ 0 ∷ []) room r
Answers (some (of_block s)) (get_property_as_binary_block set key room) r = Fits s room r
Answers (some (of_bool b)) (get_property_as_bool set key) r = (r.code ≡ tee_success) × (r.flag ≡ b)
Answers (some (of_u32 n)) (get_property_as_u32 set key) r = (r.code ≡ tee_success) × (r.value ≡ n)
Answers (some (of_uuid n)) (get_property_as_uuid set key) r = (r.code ≡ tee_success) × (r.value ≡ n)
Answers (some (of_identity i)) (get_property_as_identity set key) r =
    (r.code ≡ tee_success) × (r.identity ≡ i)
Answers _ c r = Unit {0}

-- The properties of a system, by their set and their name.
abbrev pub Store : Type 0
Store = ℕ × List ℕ → Option Value

abbrev pub Keeps : Store → (List Call → Reply) → Type 0
Keeps store tee = (c : Call) (h : List Call) → Answers (store (subject c)) c (tee (c ∷ h))

-- A value of a type; a string has no `\0`, and `to_string_lossy` leaves it as it is.
abbrev pub HasType : (List ℕ → List ℕ) → Output → Value → Type 0
HasType lossy Output.string (of_string s) = (no_nul s ≡ true) × (lossy s ≡ s)
HasType lossy Output.block (of_block s) = Unit {0}
HasType lossy Output.bool (of_bool b) = Unit {0}
HasType lossy Output.u32 (of_u32 n) = Unit {0}
HasType lossy Output.uuid (of_uuid n) = Unit {0}
HasType lossy Output.identity (of_identity i) = Unit {0}
HasType lossy _ v = ⊥

-- A property that is there is of the type of its key.
abbrev pub Holds : (List ℕ → List ℕ) → Output → Option Value → Type 0
Holds lossy t none = Unit {0}
Holds lossy t (some v) = HasType lossy t v

-- What a client is to get of a property.
abbrev pub wanted : Option Value → Result Error Value
wanted none = err (Error.from_raw_error tee_error_item_not_found)
wanted (some v) = ok v
