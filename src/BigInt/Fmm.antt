-- ===== src/BigInt/Fmm.antt =====
-- src/arithmetical.rs: the numbers for fast modular multiplication.
use optee_utee.Prelude.{ℕ, List, ◌∷◌, length, replicate}
use optee_utee.Error.{Error, Result, ok}
use optee_utee.BigInt.{
  BigInt, Call, Reply, compute, written, fmm_size_in_u32, fmm_context_size_in_u32, init_fmm,
  init_fmm_context, convert_to_fmm, compute_fmm_call,
}

pub record BigIntFmmContext : Type 0 where
  pub words : List ℕ

pub record BigIntFmm : Type 0 where
  pub words : List ℕ

module _ (tee : List Call → Reply) where
  unfoldable pub new_context : ℕ → BigInt → List Call → Result Error BigIntFmmContext × List Call
  new_context bits modulus h =
      let h₁ = fmm_context_size_in_u32 bits ∷ h in
      let size = (tee h₁).count in
      let h₂ = init_fmm_context size modulus.words ∷ h₁ in
      (ok (record { words = written (replicate size 0) (tee h₂).words }), h₂)

  unfoldable pub new_fmm : ℕ → List Call → BigIntFmm × List Call
  new_fmm bits h =
      let h₁ = fmm_size_in_u32 bits ∷ h in
      let size = (tee h₁).count in
      let h₂ = init_fmm size ∷ h₁ in
      (record { words = written (replicate size 0) (tee h₂).words }, h₂)

  unfoldable pub convert_from_big_int :
      BigIntFmm → BigInt → BigInt → BigIntFmmContext → List Call → BigIntFmm × List Call
  convert_from_big_int res src n context h =
      let h' = convert_to_fmm (length res.words) src.words n.words context.words ∷ h in
      (record { words = written res.words (tee h').words }, h')

  unfoldable pub compute_fmm :
      BigIntFmm
      → BigIntFmm
      → BigIntFmm
      → BigInt
      → BigIntFmmContext
      → List Call
      → BigIntFmm × List Call
  compute_fmm res op1 op2 n context h =
      let h' = compute_fmm_call (length res.words) op1.words op2.words n.words context.words ∷ h in
      (record { words = written res.words (tee h').words }, h')

  -- The function that is called is the one that converts to the other form.
  unfoldable pub convert_from_big_int_fmm :
      BigInt → BigIntFmm → BigInt → BigIntFmmContext → List Call → BigInt × List Call
  unfolding compute
  convert_from_big_int_fmm res src n context h =
      compute tee res (convert_to_fmm (length res.words) src.words n.words context.words) h
