-- ===== src/Crypto/Lifetime.antt =====
-- src/crypto_op.rs: the box and the operation over the life of a handle.
use optee_utee.Prelude.{
  ℕ, ◌+◌, ◌-◌, ◌≡◌, ◌≢◌, refl, ap, ◌∙◌, ◌⊎◌, inl, inr, arith, ◌==◌, ==_iff, if◌then◌else◌,
  Bool-cases, List, [], ◌∷◌,
}
use optee_utee.Codes.{tee_success}
use optee_utee.Ffi.{ask}
use optee_utee.Error
use optee_utee.Error.{Error, Result, ok, err, check}
use optee_utee.Crypto.Types.{AlgorithmId, OperationMode}
use optee_utee.Crypto.Operations.{
  cipher_set_key_2, digest_update, digest_do_final, cipher_init, cipher_update, cipher_do_final,
  mac_init, mac_update, mac_compute_final, mac_compare_final, ae_init, ae_update_aad, ae_update,
  encrypt_final, decrypt_final, encrypt, decrypt, sign_digest, verify_digest, derive,
}
use optee_utee.Crypto.{
  Call, Reply, OperationHandle, null, boxed, drop, allocate, info, info_multiple, reset, set_key,
  copy,
}

-- The boxes that are allocated and not yet freed.
abbrev pub boxes : List Call → ℕ
boxes [] = 0
boxes (Call.box_new ∷ h) = boxes h + 1
boxes (Call.box_free ∷ h) = boxes h - 1
boxes (_ ∷ h) = boxes h

abbrev pub freed : ℕ → List Call → ℕ
freed x [] = 0
freed x (Call.free_operation y ∷ h) = freed x h + (if y == x then 1 else 0)
freed x (_ ∷ h) = freed x h

-- What a client does with an operation that it keeps.
pub data Use : Type 0 where
  resets : Use
  asks_info : Use
  asks_info_multiple : ℕ → Use
  sets_key : ℕ → Use
  sets_key_2 : ℕ → ℕ → Use
  copies : ℕ → Use
  updates_digest : List ℕ → Use
  finishes_digest : List ℕ → ℕ → Use
  starts_cipher : List ℕ → Use
  updates_cipher : List ℕ → ℕ → Use
  finishes_cipher : List ℕ → ℕ → Use
  starts_mac : List ℕ → Use
  updates_mac : List ℕ → Use
  computes_mac : List ℕ → ℕ → Use
  compares_mac : List ℕ → List ℕ → Use
  starts_ae : List ℕ → ℕ → ℕ → ℕ → Use
  updates_aad : List ℕ → Use
  updates_ae : List ℕ → ℕ → Use
  encrypts_last : List ℕ → ℕ → ℕ → Use
  decrypts_last : List ℕ → ℕ → List ℕ → Use
  encrypts : List ℕ → List ℕ → Use
  decrypts : List ℕ → List ℕ → Use
  signs : List ℕ → List ℕ → ℕ → Use
  verifies : List ℕ → List ℕ → List ℕ → Use
  derives : List ℕ → ℕ → Use

module _ (tee : List Call → Reply) where
  unfoldable pub use_operation : ℕ → Use → List Call → List Call
  use_operation op resets h = reset tee op h
  use_operation op asks_info h = (info tee op h).1
  use_operation op (asks_info_multiple a) h = (info_multiple tee op a h).1
  use_operation op (sets_key a) h = (set_key tee op a h).1
  use_operation op (sets_key_2 a b) h = (cipher_set_key_2 tee op a b h).1
  use_operation op (copies a) h = copy tee op a h
  use_operation op (updates_digest a) h = digest_update tee op a h
  use_operation op (finishes_digest a b) h = (digest_do_final tee op a b h).1
  use_operation op (starts_cipher a) h = cipher_init tee op a h
  use_operation op (updates_cipher a b) h = (cipher_update tee op a b h).1
  use_operation op (finishes_cipher a b) h = (cipher_do_final tee op a b h).1
  use_operation op (starts_mac a) h = mac_init tee op a h
  use_operation op (updates_mac a) h = mac_update tee op a h
  use_operation op (computes_mac a b) h = (mac_compute_final tee op a b h).1
  use_operation op (compares_mac a b) h = (mac_compare_final tee op a b h).1
  use_operation op (starts_ae a b c d) h = (ae_init tee op a b c d h).1
  use_operation op (updates_aad a) h = ae_update_aad tee op a h
  use_operation op (updates_ae a b) h = (ae_update tee op a b h).1
  use_operation op (encrypts_last a b c) h = (encrypt_final tee op a b c h).1
  use_operation op (decrypts_last a b c) h = (decrypt_final tee op a b c h).1
  use_operation op (encrypts a b) h = (encrypt tee op a b h).1
  use_operation op (decrypts a b) h = (decrypt tee op a b h).1
  use_operation op (signs a b c) h = (sign_digest tee op a b c h).1
  use_operation op (verifies a b c) h = (verify_digest tee op a b c h).1
  use_operation op (derives a b) h = derive tee op a b h

  unfoldable pub uses : ℕ → List Use → List Call → List Call
  uses op [] h = h
  uses op (u ∷ us) h = uses op us (use_operation op u h)

  finish : Result Error OperationHandle → List Use → List Call → List Call
  finish (ok null) us h = drop null h
  finish (ok (boxed op)) us h = drop (boxed op) (uses op us h)
  finish (err e) us h = h

  -- Allocate an operation, use it, and let it go out of scope; nothing follows a failure.
  unfoldable pub life : AlgorithmId → OperationMode → ℕ → List Use → List Call → List Call
  unfolding finish
  life algo mode size us h =
      finish (allocate tee algo mode size h).0 us (allocate tee algo mode size h).1

  use_operation-boxes :
      (x op : ℕ) (u : Use) (h : List Call)
      → (boxes (use_operation op u h) ≡ boxes h) × (freed x (use_operation op u h) ≡ freed x h)
  unfolding use_operation reset info info_multiple set_key cipher_set_key_2 copy digest_update
      digest_do_final cipher_init cipher_update cipher_do_final mac_init mac_update
      mac_compute_final mac_compare_final ae_init ae_update_aad ae_update encrypt_final
      decrypt_final encrypt decrypt sign_digest verify_digest derive
  use_operation-boxes x op resets h = (refl, refl)
  use_operation-boxes x op _ h = (refl, refl)

  uses-boxes :
      (x op : ℕ) (us : List Use) (h : List Call)
      → (boxes (uses op us h) ≡ boxes h) × (freed x (uses op us h) ≡ freed x h)
  unfolding uses
  uses-boxes x op [] h = (refl, refl)
  uses-boxes x op (u ∷ us) h =
      let rest = uses-boxes x op us (use_operation op u h) in
      let one = use_operation-boxes x op u h in (rest.0 ∙ one.0, rest.1 ∙ one.1)

  -- The status of the allocation, and the handle that it has put into the box.
  abbrev pub status : AlgorithmId → OperationMode → ℕ → List Call → ℕ
  status algo mode size h = (tee (allocate tee algo mode size h).1).code

  abbrev pub allotted : AlgorithmId → OperationMode → ℕ → List Call → ℕ
  allotted algo mode size h = (tee (allocate tee algo mode size h).1).handle

  -- Over the life of an operation that was allocated, its box is freed, the operation is freed
  -- exactly once and no other is; where the allocation fails, no operation is freed, and the box
  -- stays allocated.
  pub life-freed :
      (algo : AlgorithmId) (mode : OperationMode) (size : ℕ) (us : List Use) (h : List Call) (x : ℕ)
      → ((status algo mode size h ≡ tee_success)
          × (boxes (life algo mode size us h) ≡ boxes h)
          × (freed x (life algo mode size us h)
              ≡ freed x h + (if allotted algo mode size h == x then 1 else 0)))
        ⊎ ((status algo mode size h ≢ tee_success)
            × (boxes (life algo mode size us h) ≡ boxes h + 1)
            × (freed x (life algo mode size us h) ≡ freed x h))
  unfolding life finish allocate ask check drop
  life-freed algo mode size us h x = elim (Bool-cases (status algo mode size h == tee_success)) [
    | inl e ↦
        let kept = uses-boxes x (allotted algo mode size h) us (allocate tee algo mode size h).1 in
        let q : (allocate tee algo mode size h).0 ≡ ok (boxed (allotted algo mode size h)) =
          rw e refl in
        inl (
          (==_iff _ _).0 e,
          rw (q, life) (omega (arith, kept.0)),
          rw (q, life) (ap (λ n. n + (if allotted algo mode size h == x then 1 else 0)) kept.1),
        )
    | inr e ↦
        let q : (allocate tee algo mode size h).0
            ≡ err (Error.from_raw_error (status algo mode size h)) =
          rw e refl in
        inr ((λ z. ground arith), rw (q, life) refl, rw (q, life) refl)
  ]
