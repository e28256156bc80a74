-- ===== src/TeeParams/Called/Answer.antt =====
-- src/tee_parameter.rs and src/parameter.rs: what a client gets back of the parameters that an
-- application changed.
use optee_utee.Prelude.{
  ℕ, ◌+◌, ◌≤◌, ◌<◌, u32_mod, ◌≡◌, refl, sym, ap, ◌∙◌, ◌≢◌, arith, false, List, [], ◌∷◌,
}
use optee_utee.Prelude.Array4.{
  Array4, Index, arg0, arg1, arg2, arg3, at, put, map4, All4, All4-at, at-put_self, at-put_ne,
  at-map4,
}
use mathlib.Core.Path.{subst}
use optee_utee.Error.{Error, Result, ok, err}
use optee_utee.Param.{
  Parameter, ParamValue, ParamMemref, RawParam, Memory, as_value, as_memref, set_a, set_b,
  set_updated_size,
}
use optee_utee.TeeParams.{
  Param, none, memref_output, memref_inout, value_output, value_inout, TeeParams, to_usize,
  get_type, as_raw, as_raw_params, update_from_raw,
}
use optee_utee.TeeParams.Update.{overflows, taken, update_from_raw_fits}
use optee_utee.TeeParams.Called.{gathered, gathered-at, received, received-at, there, InRange}

-- What an application does with one of its parameters: it sets both halves of a value, or the size
-- of a memory reference.
pub data Change : Type 0 where
  sets_value : ℕ → ℕ → Change
  sets_size : ℕ → Change

abbrev value_written : Result Error ParamValue → ℕ → ℕ → Memory → Memory
value_written (ok v) x y m = set_b v y (set_a v x m)
value_written (err e) x y m = m

abbrev size_written : Result Error ParamMemref → ℕ → Memory → Memory
size_written (ok v) n m = set_updated_size v n m
size_written (err e) n m = m

-- Where the view is refused, nothing is written.
pub change : Parameter → Change → Memory → Memory
change q (sets_value x y) m = value_written (as_value q) x y m
change q (sets_size n) m = size_written (as_memref q) n m

-- The application's changes, in their order.
pub changes : Array4 Parameter → List (Index × Change) → Memory → Memory
changes qs [] m = m
changes qs ((i, c) ∷ cs) m = changes qs cs (change (at qs i) c m)

-- A value has `u32` halves, and a size is no larger than the buffer.
abbrev pub Allowed : Param → Change → Type 0
Allowed p (sets_value x y) = (x < u32_mod) × (y < u32_mod)
Allowed (memref_output s written) (sets_size n) = n ≤ s.len
Allowed (memref_inout s written) (sets_size n) = n ≤ s.len
Allowed p (sets_size n) = Unit {0}

abbrev pub AllAllowed : TeeParams → List (Index × Change) → Type 0
AllAllowed ps [] = Unit {0}
AllAllowed ps ((i, c) ∷ cs) = Allowed (at ps i) c × AllAllowed ps cs

-- A parameter that the application leaves alone: an output is full.
abbrev pub untouched : Param → Param
untouched (memref_output s written) = memref_output s s.len
untouched (memref_inout s written) = memref_inout s s.len
untouched p = p

-- What a change means for the client: an output takes it, an input does not.
abbrev pub changed : Param → Change → Param
changed (value_output u v) (sets_value x y) = value_output x y
changed (value_inout u v) (sets_value x y) = value_inout x y
changed (memref_output s written) (sets_size n) = memref_output s n
changed (memref_inout s written) (sets_size n) = memref_inout s n
changed p c = p

abbrev pub all_changed : TeeParams → List (Index × Change) → TeeParams
all_changed ps [] = ps
all_changed ps ((i, c) ∷ cs) = all_changed (put ps i (changed (at ps i) c)) cs

change_elsewhere :
    (p : Param) (raw k : ℕ) (c : Change) (m : Memory) → k ≢ raw → change (there raw p) c m k ≡ m k
unfolding change as_value as_memref set_a set_b set_updated_size get_type
change_elsewhere none raw k (sets_value x y) m ne = refl
change_elsewhere none raw k (sets_size n) m ne = refl
change_elsewhere _ raw k (sets_value x y) m ne = ground arith
change_elsewhere _ raw k (sets_size n) m ne = ground arith

-- The raw parameter `r` carries `e` back to a client that passed `p`.
abbrev Carries : Param → RawParam → Param → Type 0
Carries p r e = (taken p r ≡ e) × (overflows p r ≡ false)

change_here :
    (p : Param) (raw : ℕ) (c : Change) (m : Memory)
    → Allowed p c
    → overflows p (m raw) ≡ false
    → Carries p (change (there raw p) c m raw) (changed (taken p (m raw)) c)
unfolding change as_value as_memref set_a set_b set_updated_size get_type
change_here none raw (sets_value x y) m h o = (refl, refl)
change_here none raw (sets_size n) m h o = (refl, refl)
change_here _ raw (sets_value x y) m h o = (ground arith, ground arith)
change_here _ raw (sets_size n) m h o = (ground arith, ground arith)

-- Four parameters carry `es` back to a client that passed `ps`.
abbrev AllCarry : ℕ → TeeParams → Memory → TeeParams → Type 0
AllCarry base ps m es = (j : Index) → Carries (at ps j) (m (base + to_usize j)) (at es j)

Index-discrete : Discrete Index
Index-discrete = hlevel

to_usize-ne : (i j : Index) → i ≢ j → to_usize j ≢ to_usize i
unfolding to_usize
to_usize-ne i j ne = ground arith

change-AllCarry :
    (base : ℕ) (ps es : TeeParams) (m : Memory) (i : Index) (c : Change)
    → Allowed (at ps i) c
    → AllCarry base ps m es
    → AllCarry base ps (change (at (received base ps) i) c m) (put es i (changed (at es i) c))
change-AllCarry base ps es m i c h v j = rw (received-at base ps i) (elim (Index-discrete i j) [
  | yes e ↦ subst (λ k. Carries (at ps k) (m' (base + to_usize k)) (at es' k)) e here
  | no ne ↦
      rw
        (
          change_elsewhere (at ps i) raw (base + to_usize j) c m
              (λ e. to_usize-ne i j ne (omega arith)),
          at-put_ne es i j (changed (at es i) c) ne,
        )
        (v j)
])
  where
    raw : ℕ
    raw = base + to_usize i

    m' : Memory
    m' = change (there raw (at ps i)) c m

    es' : TeeParams
    es' = put es i (changed (at es i) c)

    here : Carries (at ps i) (m' raw) (at es' i)
    here =
        rw (at-put_self es i (changed (at es i) c), ← (v i).0)
          (change_here (at ps i) raw c m h (v i).1)

changes-AllCarry :
    (base : ℕ) (ps es : TeeParams) (m : Memory) (cs : List (Index × Change))
    → AllAllowed ps cs
    → AllCarry base ps m es
    → AllCarry base ps (changes (received base ps) cs m) (all_changed es cs)
unfolding changes
changes-AllCarry base ps es m [] h v = v
changes-AllCarry base ps es m ((i, c) ∷ cs) h v =
    changes-AllCarry base ps (put es i (changed (at es i) c)) (change (at (received base ps) i) c m)
      cs h.1 (change-AllCarry base ps es m i c h.0 v)

as_raw-Carries : (p : Param) → InRange p → Carries p (as_raw p) (untouched p)
unfolding as_raw
as_raw-Carries none h = (refl, refl)
as_raw-Carries _ h = (ground arith, ground arith)

takes_all :
    (ps es : TeeParams) (raws : Array4 RawParam)
    → ((i : Index) → Carries (at ps i) (at raws i) (at es i))
    → update_from_raw ps raws ≡ (es, ok tt)
takes_all ps es raws v = update_from_raw_fits ps raws (λ i. (v i).1) ∙ λ j.
    (record { e0 = (v arg0).0 j; e1 = (v arg1).0 j; e2 = (v arg2).0 j; e3 = (v arg3).0 j }, ok tt)

-- After any sequence of changes that the application makes to the parameters that it was called
-- with, `update_from_raw` succeeds and leaves the client with each change that was made to an
-- output, the last one where there are several. Inputs are as they were, a value that was not
-- changed too, and a buffer of an output whose size was not set counts as full.
-- The client's values and the application's are `u32`, and no size passes its buffer.
pub update_from_raw-changes :
    (base : ℕ) (ps : TeeParams) (m : Memory) (cs : List (Index × Change))
    → All4 InRange ps
    → gathered base m ≡ as_raw_params ps
    → AllAllowed ps cs
    → update_from_raw ps (gathered base (changes (received base ps) cs m))
      ≡ (all_changed (map4 untouched ps) cs, ok tt)
unfolding as_raw_params
update_from_raw-changes base ps m cs h e allowed = takes_all ps _ _ (λ i.
    rw (gathered-at base (changes (received base ps) cs m) i)
      (changes-AllCarry base ps (map4 untouched ps) m cs allowed start i))
  where
    start : AllCarry base ps m (map4 untouched ps)
    start i =
        let here : m (base + to_usize i) ≡ as_raw (at ps i) =
          sym (gathered-at base m i) ∙ ap (λ rs. at rs i) e ∙ at-map4 as_raw ps i in
        rw (here, at-map4 untouched ps i) (as_raw-Carries (at ps i) (All4-at InRange ps i h))
