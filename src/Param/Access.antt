-- ===== src/Param/Access.antt =====
-- src/parameter.rs: the typed views of a parameter.
use optee_utee.Prelude.{ℕ, ◌<◌, u32_mod, ◌≡◌, refl, ◌≢◌, ◌⊎◌, inl, inr, arith}
use optee_utee.Error
use optee_utee.Error.{Result, ok, err, bad_parameters}
use optee_utee.Param.{
  ParamType, Parameter, ParamValue, Memory, as_value, as_memref, a, b, set_a, set_b,
}

abbrev IsValue : ParamType → Type 0
IsValue ParamType.value_input = Unit {0}
IsValue ParamType.value_output = Unit {0}
IsValue ParamType.value_inout = Unit {0}
IsValue _ = ⊥

abbrev IsMemref : ParamType → Type 0
IsMemref ParamType.memref_input = Unit {0}
IsMemref ParamType.memref_output = Unit {0}
IsMemref ParamType.memref_inout = Unit {0}
IsMemref _ = ⊥

-- What `as_value` and `as_memref` answer, by the kind of the type.
abbrev Views : Parameter → Type 0
Views p =
    (IsValue p.param_type
      × (as_value p ≡ ok (record { raw = p.raw; param_type = p.param_type }))
      × (as_memref p ≡ err (Error.new bad_parameters)))
    ⊎ (IsMemref p.param_type
        × (as_value p ≡ err (Error.new bad_parameters))
        × (as_memref p ≡ ok (record { raw = p.raw; param_type = p.param_type })))
    ⊎ ((p.param_type ≡ ParamType.none)
        × (as_value p ≡ err (Error.new bad_parameters))
        × (as_memref p ≡ err (Error.new bad_parameters)))

Views-at : (raw : ℕ) (t : ParamType) → Views (record { raw = raw; param_type = t })
unfolding as_value as_memref
Views-at raw ParamType.none = inr (inr (refl, refl, refl))
Views-at raw ParamType.value_input = inl (tt, refl, refl)
Views-at raw ParamType.value_output = inl (tt, refl, refl)
Views-at raw ParamType.value_inout = inl (tt, refl, refl)
Views-at raw ParamType.memref_input = inr (inl (tt, refl, refl))
Views-at raw ParamType.memref_output = inr (inl (tt, refl, refl))
Views-at raw ParamType.memref_inout = inr (inl (tt, refl, refl))

-- A parameter of a value type opens as a value only, one of a memory reference type as a memory
-- reference only, and one of type none as neither: a refused view is `BadParameters`, and a granted
-- one has the pointer and the type of the parameter.
views : (p : Parameter) → Views p
views p = Views-at p.raw p.param_type

-- Writing `a`, then `b`, of a value reads back both, whichever is read, and changes no other
-- address of the memory.
set_value_lem :
    (v : ParamValue) (x y : ℕ) (m : Memory)
    → x < u32_mod
    → y < u32_mod
    → let m' = set_b v y (set_a v x m) in
      (a v m' ≡ x) × (b v m' ≡ y) × ((q : ℕ) → q ≢ v.raw → m' q ≡ m q)
unfolding a b set_a set_b
set_value_lem v x y m hx hy = (ground arith, ground arith, λ q ne. ground arith)

-- Writing one half of a value leaves the other half as it was.
set_one_half :
    (v : ParamValue) (x : ℕ) (m : Memory)
    → x < u32_mod
    → (b v (set_a v x m) ≡ b v m) × (a v (set_b v x m) ≡ a v m)
unfolding a b set_a set_b
set_one_half v x m hx = (ground arith, ground arith)
