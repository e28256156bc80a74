-- ===== src/TeeParams/Pack.antt =====
-- src/tee_parameter.rs against src/parameter.rs: the packed types that a session sends are the types
-- that the called application unpacks.
use optee_utee.Prelude.{
  ℕ, ◌+◌, ◌*◌, ◌/◌, ◌%◌, ◌<◌, ◌≡◌, refl, sym, ◌∙◌, arith, bit_or, bit_and, u32_mod,
}
use optee_utee.Prelude.Array4.{map4}
use optee_utee.Prelude.Bits.{
  or_nibble0, or_nibble1, or_nibble2, or_nibble3, and_nibble0, and_nibble1, and_nibble2,
  and_nibble3,
}
use optee_utee.Codes.{tee_param_types}
use optee_utee.Param.{ParamType, type_to_u32, type_from_u32, into_flags}
use optee_utee.TeeParams.{Param, TeeParams, get_type, get_raw_type, raw_param_types}

pub type_from_u32-type_to_u32 : (t : ParamType) → type_from_u32 (type_to_u32 t) ≡ t
unfolding type_from_u32 type_to_u32
type_from_u32-type_to_u32 ParamType.none = refl
type_from_u32-type_to_u32 _ = refl

type_to_u32-lt : (t : ParamType) → type_to_u32 t < 16
unfolding type_to_u32
type_to_u32-lt ParamType.none = omega arith
type_to_u32-lt _ = omega arith

get_raw_type-lt : (p : Param) → get_raw_type p < 16
unfolding get_raw_type
get_raw_type-lt p = type_to_u32-lt (get_type p)

-- Four nibbles, lowest first.
abbrev pub nibbles : ℕ → ℕ → ℕ → ℕ → ℕ
nibbles t0 t1 t2 t3 = t0 + t1 * 16 + t2 * 256 + t3 * 4096

or_nibbles :
    (t0 t1 t2 t3 : ℕ)
    → t0 < 16
    → t1 < 16
    → t2 < 16
    → t3 < 16
    → bit_or (bit_or (bit_or (bit_or 0 (t0 * 1)) (t1 * 16)) (t2 * 256)) (t3 * 4096)
      ≡ nibbles t0 t1 t2 t3
or_nibbles t0 t1 t2 t3 h0 h1 h2 h3 = rw (or_nibble0 0 t0 (omega arith) h0) (
    rw (or_nibble1 (0 + t0 * 1) t1 (omega arith) h1) (
      rw (or_nibble2 (0 + t0 * 1 + t1 * 16) t2 (omega arith) h2)
        (or_nibble3 (0 + t0 * 1 + t1 * 16 + t2 * 256) t3 (omega arith) h3 ∙ omega arith)))

raw_param_types-eq-nibbles :
    (ps : TeeParams)
    → raw_param_types ps
      ≡ nibbles (get_raw_type ps.e0) (get_raw_type ps.e1) (get_raw_type ps.e2) (get_raw_type ps.e3)
unfolding raw_param_types
raw_param_types-eq-nibbles ps =
    or_nibbles _ _ _ _ (get_raw_type-lt ps.e0) (get_raw_type-lt ps.e1) (get_raw_type-lt ps.e2)
      (get_raw_type-lt ps.e3)

tee_param_types-eq-nibbles :
    (t0 t1 t2 t3 : ℕ)
    → t0 < 16
    → t1 < 16
    → t2 < 16
    → t3 < 16
    → tee_param_types t0 t1 t2 t3 ≡ nibbles t0 t1 t2 t3
unfolding tee_param_types
tee_param_types-eq-nibbles t0 t1 t2 t3 h0 h1 h2 h3 =
    let k1 : t1 * 16 % u32_mod ≡ t1 * 16 = omega arith in
    let k2 : t2 * 256 % u32_mod ≡ t2 * 256 = omega arith in
    let k3 : t3 * 4096 % u32_mod ≡ t3 * 4096 = omega arith in
    rw (
      k1,
      k2,
      k3,
      or_nibble1 t0 t1 (omega arith) h1,
      or_nibble2 (t0 + t1 * 16) t2 (omega arith) h2,
      or_nibble3 (t0 + t1 * 16 + t2 * 256) t3 (omega arith) h3,
    )

-- What `TeeParams` packs is what `TEE_PARAM_TYPES` of optee-utee-sys makes of the four types.
pub raw_param_types-tee_param_types :
    (ps : TeeParams)
    → raw_param_types ps
      ≡ tee_param_types
          (get_raw_type ps.e0)
          (get_raw_type ps.e1)
          (get_raw_type ps.e2)
          (get_raw_type ps.e3)
raw_param_types-tee_param_types ps =
    raw_param_types-eq-nibbles ps
    ∙ sym (
        tee_param_types-eq-nibbles _ _ _ _ (get_raw_type-lt ps.e0) (get_raw_type-lt ps.e1)
          (get_raw_type-lt ps.e2) (get_raw_type-lt ps.e3))

-- Each mask reads one nibble back.
module _ (t0 t1 t2 t3 : ℕ) (h0 : t0 < 16) (h1 : t1 < 16) (h2 : t2 < 16) (h3 : t3 < 16) where
  digit0 : bit_and 0x000f (nibbles t0 t1 t2 t3) ≡ t0
  digit0 = omega (arith, and_nibble0 (nibbles t0 t1 t2 t3) (omega arith))

  digit1 : bit_and 0x00f0 (nibbles t0 t1 t2 t3) / 16 ≡ t1
  digit1 = omega (arith, and_nibble1 (nibbles t0 t1 t2 t3) (omega arith))

  digit2 : bit_and 0x0f00 (nibbles t0 t1 t2 t3) / 256 ≡ t2
  digit2 = omega (arith, and_nibble2 (nibbles t0 t1 t2 t3) (omega arith))

  digit3 : bit_and 0xf000 (nibbles t0 t1 t2 t3) / 4096 ≡ t3
  digit3 = omega (arith, and_nibble3 (nibbles t0 t1 t2 t3) (omega arith))

  into_flags-nibbles : into_flags (nibbles t0 t1 t2 t3) ≡ record {
    e0 = type_from_u32 t0;
    e1 = type_from_u32 t1;
    e2 = type_from_u32 t2;
    e3 = type_from_u32 t3;
  }
  unfolding into_flags
  into_flags-nibbles = rw (digit0, digit1, digit2, digit3)

type_from_u32-get_raw_type : (p : Param) → type_from_u32 (get_raw_type p) ≡ get_type p
unfolding get_raw_type
type_from_u32-get_raw_type p = type_from_u32-type_to_u32 (get_type p)

-- What `TeeParams` packs, `ParamTypes` unpacks: each of the four flags is the type of its parameter.
pub into_flags-raw_param_types :
    (ps : TeeParams) → into_flags (raw_param_types ps) ≡ map4 get_type ps
into_flags-raw_param_types ps = rw (raw_param_types-eq-nibbles ps) (
    into_flags-nibbles _ _ _ _ (get_raw_type-lt ps.e0) (get_raw_type-lt ps.e1)
      (get_raw_type-lt ps.e2) (get_raw_type-lt ps.e3)
    ∙ λ i. record {
      e0 = type_from_u32-get_raw_type ps.e0 i;
      e1 = type_from_u32-get_raw_type ps.e1 i;
      e2 = type_from_u32-get_raw_type ps.e2 i;
      e3 = type_from_u32-get_raw_type ps.e3 i;
    })
