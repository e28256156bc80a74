-- ===== src/BigInt.antt =====
-- src/arithmetical.rs: big integers, whose words the system writes.
pub mod Fmm
pub mod Capacity
mod Tests
use optee_utee.Prelude.{
  ℕ, ◌+◌, ◌-◌, ◌*◌, ◌/◌, ◌%◌, max, u32_mod, ltb, ℤ, pos, negsuc, Bool, true, false, if◌then◌else◌,
  List, [], ◌∷◌, ◌++◌, length, take, drop, replicate,
}
use optee_utee.Ffi.{ask}
use optee_utee.Error.{Error, Result, ok, err}

pub record BigInt : Type 0 where
  pub words : List ℕ

-- A vector that the function reads is passed as its words, one that it writes to as its length.
pub data Call : Type 0 where
  init : ℕ → Call
  convert_from_octet_string_call : ℕ → List ℕ → ℤ → Call
  convert_to_octet_string_call : ℕ → List ℕ → Call
  convert_from_s32_call : ℕ → ℤ → Call
  convert_to_s32_call : List ℕ → Call
  cmp : List ℕ → List ℕ → Call
  cmp_s32 : List ℕ → ℤ → Call
  shift_right_call : ℕ → List ℕ → ℕ → Call
  get_bit_call : List ℕ → ℕ → Call
  get_bit_count_call : List ℕ → Call
  add_call sub_call mul_call mod_call : ℕ → List ℕ → List ℕ → Call
  neg_call square_call : ℕ → List ℕ → Call
  div : ℕ → ℕ → List ℕ → List ℕ → Call
  add_mod_call sub_mod_call mul_mod_call : ℕ → List ℕ → List ℕ → List ℕ → Call
  square_mod_call inv_mod_call : ℕ → List ℕ → List ℕ → Call
  relative_prime_call : List ℕ → List ℕ → Call
  is_probable_prime_call : List ℕ → ℕ → Call
  fmm_size_in_u32 fmm_context_size_in_u32 : ℕ → Call
  init_fmm : ℕ → Call
  init_fmm_context : ℕ → List ℕ → Call
  convert_to_fmm convert_from_fmm : ℕ → List ℕ → List ℕ → List ℕ → Call
  compute_fmm_call : ℕ → List ℕ → List ℕ → List ℕ → List ℕ → Call

-- What a call returns, by the type of its answer, and what it writes; `rest` is the remainder of a
-- division.
pub record Reply : Type 0 where
  pub code : ℕ
  pub count : ℕ
  pub flag : Bool
  pub int : ℤ
  pub words : List ℕ
  pub rest : List ℕ

-- A function that writes `ws` at the start of a vector does not change how long the vector is.
abbrev pub written : List ℕ → List ℕ → List ℕ
written vec ws = take (length vec) (ws ++ drop (length ws) vec)

-- `((size + 31) / 32) + 2` on `u32`.
unfoldable pub size_in_u32 : ℕ → ℕ
size_in_u32 size = ((size + 31) % u32_mod) / 32 + 2

-- `d >= 0`.
abbrev pub nonneg : ℤ → Bool
nonneg (pos n) = true
nonneg (negsuc n) = false

module _ (tee : List Call → Reply) where
  -- A call that writes to `res`.
  unfoldable pub compute : BigInt → Call → List Call → BigInt × List Call
  compute res c h = (record { words = written res.words (tee (c ∷ h)).words }, c ∷ h)

  unfoldable pub new : ℕ → List Call → BigInt × List Call
  unfolding size_in_u32 compute
  new bits h =
      compute (record { words = replicate (size_in_u32 bits) 0 }) (init (size_in_u32 bits)) h

  unfoldable pub convert_from_octet_string :
      BigInt → List ℕ → ℤ → List Call → Result Error (Unit {0}) × BigInt × List Call
  unfolding ask compute
  convert_from_octet_string n buffer sign h =
      let c = convert_from_octet_string_call (length n.words) buffer sign in
      let (n', h') = compute n c h in ((ask tee (λ r. r.code) (λ r. tt) c h).0, n', h')

  unfoldable pub convert_to_octet_string : BigInt → List Call → Result Error (List ℕ) × List Call
  unfolding ask
  convert_to_octet_string n h =
      let buffer_size = (length n.words - 2) * 4 in
      ask tee (λ r. r.code) (λ r. take r.count (written (replicate buffer_size 0) r.words))
        (convert_to_octet_string_call buffer_size n.words) h

  unfoldable pub convert_from_s32 : BigInt → ℤ → List Call → BigInt × List Call
  unfolding compute
  convert_from_s32 n short_val h = compute n (convert_from_s32_call (length n.words) short_val) h

  unfoldable pub convert_to_s32 : BigInt → List Call → Result Error ℤ × List Call
  unfolding ask
  convert_to_s32 n h = ask tee (λ r. r.code) (λ r. r.int) (convert_to_s32_call n.words) h

  unfoldable pub compare_big_int : BigInt → BigInt → List Call → ℤ × List Call
  compare_big_int n target h = let h' = cmp n.words target.words ∷ h in ((tee h').int, h')

  unfoldable pub compare_s32 : BigInt → ℤ → List Call → ℤ × List Call
  compare_s32 n target h = let h' = cmp_s32 n.words target ∷ h in ((tee h').int, h')

  unfoldable pub shift_right : BigInt → BigInt → ℕ → List Call → BigInt × List Call
  unfolding compute
  shift_right n op bits h = compute n (shift_right_call (length n.words) op.words bits) h

  unfoldable pub get_bit : BigInt → ℕ → List Call → Bool × List Call
  get_bit n bit_index h = let h' = get_bit_call n.words bit_index ∷ h in ((tee h').flag, h')

  unfoldable pub get_bit_count : BigInt → List Call → ℕ × List Call
  get_bit_count n h = let h' = get_bit_count_call n.words ∷ h in ((tee h').count, h')

  -- `u32` arithmetic wraps, as in a release build.
  unfoldable pub add : BigInt → BigInt → List Call → BigInt × List Call
  unfolding compute new get_bit_count
  add op1 op2 h =
      let (count1, h₁) = get_bit_count op1 h in
      let (count2, h₂) = get_bit_count op2 h₁ in
      let (res, h₃) = new ((max count1 count2 + 1) % u32_mod) h₂ in
      compute res (add_call (length res.words) op1.words op2.words) h₃

  unfoldable pub sub : BigInt → BigInt → List Call → BigInt × List Call
  unfolding compute new get_bit_count
  sub op1 op2 h =
      let (count1, h₁) = get_bit_count op1 h in
      let (count2, h₂) = get_bit_count op2 h₁ in
      let (res, h₃) = new ((max count1 count2 + 1) % u32_mod) h₂ in
      compute res (sub_call (length res.words) op1.words op2.words) h₃

  unfoldable pub neg : BigInt → List Call → BigInt × List Call
  unfolding compute new get_bit_count
  neg op h =
      let (count, h₁) = get_bit_count op h in
      let (res, h₂) = new count h₁ in compute res (neg_call (length res.words) op.words) h₂

  unfoldable pub multiply : BigInt → BigInt → List Call → BigInt × List Call
  unfolding compute new get_bit_count
  multiply op1 op2 h =
      let (count1, h₁) = get_bit_count op1 h in
      let (count2, h₂) = get_bit_count op2 h₁ in
      let (res, h₃) = new ((count1 + count2) % u32_mod) h₂ in
      compute res (mul_call (length res.words) op1.words op2.words) h₃

  unfoldable pub square : BigInt → List Call → BigInt × List Call
  unfolding compute new get_bit_count
  square op h =
      let (count, h₁) = get_bit_count op h in
      let (res, h₂) = new ((2 * count) % u32_mod) h₁ in
      compute res (square_call (length res.words) op.words) h₂

  -- The bits of the quotient, by the comparison; the subtraction is on `u32`.
  unfoldable pub quotient_bits : BigInt → BigInt → List Call → ℕ × List Call
  unfolding compare_big_int get_bit_count
  quotient_bits op1 op2 h =
      let (d, h₁) = compare_big_int op1 op2 h in
      let (count1, h₂) = get_bit_count op1 h₁ in
      let (count2, h₃) = get_bit_count op2 h₂ in
      if nonneg d then (max 1 ((count1 + u32_mod - count2) % u32_mod), h₃) else (0, h₁)

  unfoldable pub divide : BigInt → BigInt → List Call → (BigInt × BigInt) × List Call
  unfolding quotient_bits new get_bit_count
  divide op1 op2 h =
      let (q_bits, h₁) = quotient_bits op1 op2 h in
      let (r_bits, h₂) = get_bit_count op2 h₁ in
      let (quotient, h₃) = new q_bits h₂ in
      let (remainder, h₄) = new r_bits h₃ in
      let h₅ = div (length quotient.words) (length remainder.words) op1.words op2.words ∷ h₄ in
      (
        (
          record { words = written quotient.words (tee h₅).words },
          record { words = written remainder.words (tee h₅).rest },
        ),
        h₅,
      )

  -- The functions modulo `n`, whose results have the bits of `n`.
  unfoldable pub module_new : BigInt → List Call → BigInt × List Call
  unfolding new get_bit_count
  module_new n h = let (count, h') = get_bit_count n h in new count h'

  unfoldable pub module_of : BigInt → BigInt → List Call → BigInt × List Call
  unfolding module_new compute
  module_of op n h =
      let (res, h') = module_new n h in
      compute res (mod_call (length res.words) op.words n.words) h'

  unfoldable pub add_mod : BigInt → BigInt → BigInt → List Call → BigInt × List Call
  unfolding module_new compute
  add_mod op1 op2 n h =
      let (res, h') = module_new n h in
      compute res (add_mod_call (length res.words) op1.words op2.words n.words) h'

  unfoldable pub sub_mod : BigInt → BigInt → BigInt → List Call → BigInt × List Call
  unfolding module_new compute
  sub_mod op1 op2 n h =
      let (res, h') = module_new n h in
      compute res (sub_mod_call (length res.words) op1.words op2.words n.words) h'

  unfoldable pub mul_mod : BigInt → BigInt → BigInt → List Call → BigInt × List Call
  unfolding module_new compute
  mul_mod op1 op2 n h =
      let (res, h') = module_new n h in
      compute res (mul_mod_call (length res.words) op1.words op2.words n.words) h'

  unfoldable pub square_mod : BigInt → BigInt → List Call → BigInt × List Call
  unfolding module_new compute
  square_mod op n h =
      let (res, h') = module_new n h in
      compute res (square_mod_call (length res.words) op.words n.words) h'

  unfoldable pub inv_mod : BigInt → BigInt → List Call → BigInt × List Call
  unfolding module_new compute
  inv_mod op n h =
      let (res, h') = module_new n h in
      compute res (inv_mod_call (length res.words) op.words n.words) h'

  unfoldable pub relative_prime : BigInt → BigInt → List Call → Bool × List Call
  relative_prime op1 op2 h =
      let h' = relative_prime_call op1.words op2.words ∷ h in ((tee h').flag, h')

  unfoldable pub is_probable_prime : BigInt → ℕ → List Call → ℤ × List Call
  is_probable_prime n confidence_level h =
      let h' = is_probable_prime_call n.words confidence_level ∷ h in ((tee h').int, h')
