-- ===== src/TeeParams/Called.antt =====
-- src/tee_parameter.rs and src/parameter.rs: what an application sees of the parameters that a client
-- calls it with.
pub mod Answer
use optee_utee.Prelude.{
  ℕ, ◌+◌, ◌≤◌, ◌<◌, u32_mod, ◌≡◌, refl, sym, ap, ◌∙◌, ◌≢◌, inl, inr, arith, false, List, [], ◌∷◌,
}
use optee_utee.Prelude.Array4.{
  Array4, Index, arg0, arg1, arg2, arg3, at, put, map4, All4, All4-at, at-put_self, at-put_ne,
  at-map4,
}
use mathlib.Core.Path.{subst}
use optee_utee.Error
use optee_utee.Error.{Error, Result, ok, err, bad_parameters}
use optee_utee.Param.{
  ParamType, Parameter, ParamValue, ParamMemref, into_flags, RawParam, Memory, Slice, from_raw,
  as_value, as_memref, a, b, set_a, set_b, buffer, set_updated_size,
}
use optee_utee.TeeParams.{
  Param, none, memref_input, memref_output, memref_inout, value_input, value_output, value_inout,
  TeeParams, to_usize, get_type, as_raw, as_raw_params, raw_param_types, update_from_raw,
}
use optee_utee.TeeParams.Pack.{into_flags-raw_param_types}
use optee_utee.TeeParams.Update.{overflows, taken, update_from_raw_fits}

-- The four raw parameters that lie in the memory from `base` on.
abbrev pub gathered : ℕ → Memory → Array4 RawParam
gathered base m = record { e0 = m base; e1 = m (base + 1); e2 = m (base + 2); e3 = m (base + 3) }

-- What the application is called with: the system passes the packed types unchanged.
abbrev pub received : ℕ → TeeParams → Array4 Parameter
received base ps = from_raw base (raw_param_types ps)

-- A parameter that lies at `raw`, with the type that the client gave it.
abbrev pub there : ℕ → Param → Parameter
there raw p = record { raw = raw; param_type = get_type p }

add-zero : (n : ℕ) → n ≡ n + 0
add-zero n = omega arith

pub received-at :
    (base : ℕ) (ps : TeeParams) (i : Index)
    → at (received base ps) i ≡ there (base + to_usize i) (at ps i)
unfolding from_raw into_flags to_usize
received-at base ps arg0 =
    λ j. record { raw = add-zero base j; param_type = (into_flags-raw_param_types ps j).e0 }
received-at base ps arg1 =
    λ j. record { raw = base + 1; param_type = (into_flags-raw_param_types ps j).e1 }
received-at base ps arg2 =
    λ j. record { raw = base + 2; param_type = (into_flags-raw_param_types ps j).e2 }
received-at base ps arg3 =
    λ j. record { raw = base + 3; param_type = (into_flags-raw_param_types ps j).e3 }

pub gathered-at :
    (base : ℕ) (m : Memory) (i : Index) → at (gathered base m) i ≡ m (base + to_usize i)
unfolding to_usize
gathered-at base m arg0 = ap m (add-zero base)
gathered-at base m _ = refl

-- The values of a client are `u32`.
abbrev pub InRange : Param → Type 0
InRange (value_input x y) = (x < u32_mod) × (y < u32_mod)
InRange (value_output x y) = (x < u32_mod) × (y < u32_mod)
InRange (value_inout x y) = (x < u32_mod) × (y < u32_mod)
InRange _ = Unit {0}

abbrev ShowsNothing : Parameter → Type 0
ShowsNothing q =
    (as_value q ≡ err (Error.new bad_parameters)) × (as_memref q ≡ err (Error.new bad_parameters))

abbrev ShowsBuffer : Parameter → Memory → Slice → Type 0
ShowsBuffer q m s =
    (as_value q ≡ err (Error.new bad_parameters))
    × (v : ParamMemref) × (as_memref q ≡ ok v)
    × (buffer v m ≡ s)

abbrev ShowsValue : Parameter → Memory → ℕ → ℕ → Type 0
ShowsValue q m x y =
    (as_memref q ≡ err (Error.new bad_parameters))
    × (v : ParamValue) × (as_value q ≡ ok v)
    × (a v m ≡ x)
    × (b v m ≡ y)

-- What the called application sees of a parameter.
abbrev pub Shows : Param → Parameter → Memory → Type 0
Shows none q m = ShowsNothing q
Shows (memref_input s) q m = ShowsBuffer q m s
Shows (memref_output s written) q m = ShowsBuffer q m s
Shows (memref_inout s written) q m = ShowsBuffer q m s
Shows (value_input x y) q m = ShowsValue q m x y
Shows (value_output x y) q m = ShowsValue q m x y
Shows (value_inout x y) q m = ShowsValue q m x y

Shows-there :
    (p : Param) (raw : ℕ) (m : Memory) → InRange p → m raw ≡ as_raw p → Shows p (there raw p) m
unfolding as_value as_memref a b buffer as_raw get_type
Shows-there none raw m h e = (refl, refl)
Shows-there (memref_input s) raw m h e = (refl, _, refl, ground arith)
Shows-there (memref_output s written) raw m h e = (refl, _, refl, ground arith)
Shows-there (memref_inout s written) raw m h e = (refl, _, refl, ground arith)
Shows-there (value_input x y) raw m h e = (refl, _, refl, ground arith, ground arith)
Shows-there (value_output x y) raw m h e = (refl, _, refl, ground arith, ground arith)
Shows-there (value_inout x y) raw m h e = (refl, _, refl, ground arith, ground arith)

-- Whatever a client passes, the application finds behind each of the four parameters what the client
-- put there: a buffer opens as a memory reference with the client's address and length, a value as a
-- value with the client's two halves, and every other view is refused with `BadParameters`. The
-- client's values are `u32`, and its array lies in the memory from `base` on.
pub Shows-received :
    (base : ℕ) (ps : TeeParams) (i : Index) (m : Memory)
    → InRange (at ps i)
    → gathered base m ≡ as_raw_params ps
    → Shows (at ps i) (at (received base ps) i) m
unfolding as_raw_params
Shows-received base ps i m h e =
    let here : m (base + to_usize i) ≡ as_raw (at ps i) =
      sym (gathered-at base m i) ∙ ap (λ rs. at rs i) e ∙ at-map4 as_raw ps i in
    rw (received-at base ps i) (Shows-there (at ps i) (base + to_usize i) m h here)
