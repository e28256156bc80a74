-- ===== src/Crypto/Operations.antt =====
-- src/crypto_op.rs: digests, ciphers, codes of messages, authenticated encryption, asymmetric
-- operations, derived keys and random bytes, on the handle in the box.
use optee_utee.Prelude.{ℕ, ◌%◌, u32_mod, List, ◌∷◌, ◌++◌, length, take, drop, replicate}
use optee_utee.Ffi.{ask, tell}
use optee_utee.Error.{Error, Result}
use optee_utee.Crypto.Types.{AlgorithmId, OperationMode}
use optee_utee.Crypto.{Reply, OperationHandle, info, allocate}
use optee_utee.Crypto

module _ (tee : List Crypto.Call → Reply) where
  unfoldable pub digest_allocate :
      AlgorithmId → List Crypto.Call → Result Error OperationHandle × List Crypto.Call
  unfolding allocate
  digest_allocate algo h = allocate tee algo OperationMode.digest 0 h

  unfoldable pub digest_update : ℕ → List ℕ → List Crypto.Call → List Crypto.Call
  unfolding tell
  digest_update op chunk h = tell tee (Crypto.digest_update op chunk) h

  unfoldable pub digest_do_final :
      ℕ → List ℕ → ℕ → List Crypto.Call → Result Error ℕ × List Crypto.Call
  unfolding ask
  digest_do_final op chunk hash_len h =
      ask tee (λ r. r.code) (λ r. r.size) (Crypto.digest_do_final op chunk hash_len) h

  unfoldable pub cipher_init : ℕ → List ℕ → List Crypto.Call → List Crypto.Call
  unfolding tell
  cipher_init op iv h = tell tee (Crypto.cipher_init op iv) h

  unfoldable pub cipher_update :
      ℕ → List ℕ → ℕ → List Crypto.Call → Result Error ℕ × List Crypto.Call
  unfolding ask
  cipher_update op src dest_len h =
      ask tee (λ r. r.code) (λ r. r.size) (Crypto.cipher_update op src dest_len) h

  unfoldable pub cipher_do_final :
      ℕ → List ℕ → ℕ → List Crypto.Call → Result Error ℕ × List Crypto.Call
  unfolding ask
  cipher_do_final op src dest_len h =
      ask tee (λ r. r.code) (λ r. r.size) (Crypto.cipher_do_final op src dest_len) h

  unfoldable pub cipher_set_key_2 :
      ℕ → ℕ → ℕ → List Crypto.Call → Result Error (Unit {0}) × List Crypto.Call
  unfolding ask
  cipher_set_key_2 op object1 object2 h =
      ask tee (λ r. r.code) (λ r. tt) (Crypto.set_operation_key2 op object1 object2) h

  unfoldable pub mac_allocate :
      AlgorithmId → ℕ → List Crypto.Call → Result Error OperationHandle × List Crypto.Call
  unfolding allocate
  mac_allocate algo max_key_size h = allocate tee algo OperationMode.mac max_key_size h

  unfoldable pub mac_init : ℕ → List ℕ → List Crypto.Call → List Crypto.Call
  unfolding tell
  mac_init op iv h = tell tee (Crypto.mac_init op iv) h

  unfoldable pub mac_update : ℕ → List ℕ → List Crypto.Call → List Crypto.Call
  unfolding tell
  mac_update op chunk h = tell tee (Crypto.mac_update op chunk) h

  unfoldable pub mac_compute_final :
      ℕ → List ℕ → ℕ → List Crypto.Call → Result Error ℕ × List Crypto.Call
  unfolding ask
  mac_compute_final op message mac_len h =
      ask tee (λ r. r.code) (λ r. r.size) (Crypto.mac_compute_final op message mac_len) h

  unfoldable pub mac_compare_final :
      ℕ → List ℕ → List ℕ → List Crypto.Call → Result Error (Unit {0}) × List Crypto.Call
  unfolding ask
  mac_compare_final op message mac h =
      ask tee (λ r. r.code) (λ r. tt) (Crypto.mac_compare_final op message mac) h

  unfoldable pub ae_init :
      ℕ → List ℕ → ℕ → ℕ → ℕ → List Crypto.Call → Result Error (Unit {0}) × List Crypto.Call
  unfolding ask
  ae_init op nonce tag_len aad_len pay_load_len h =
      ask tee (λ r. r.code) (λ r. tt)
        (Crypto.ae_init op nonce (tag_len % u32_mod) aad_len pay_load_len) h

  unfoldable pub ae_update_aad : ℕ → List ℕ → List Crypto.Call → List Crypto.Call
  unfolding tell
  ae_update_aad op aad_data h = tell tee (Crypto.ae_update_aad op aad_data) h

  unfoldable pub ae_update : ℕ → List ℕ → ℕ → List Crypto.Call → Result Error ℕ × List Crypto.Call
  unfolding ask
  ae_update op src dest_len h =
      ask tee (λ r. r.code) (λ r. r.size) (Crypto.ae_update op src dest_len) h

  unfoldable pub encrypt_final :
      ℕ → List ℕ → ℕ → ℕ → List Crypto.Call → Result Error (ℕ × ℕ) × List Crypto.Call
  unfolding ask
  encrypt_final op src dest_len tag_len h =
      ask tee (λ r. r.code) (λ r. (r.size, r.tag_size))
        (Crypto.ae_encrypt_final op src dest_len tag_len) h

  unfoldable pub decrypt_final :
      ℕ → List ℕ → ℕ → List ℕ → List Crypto.Call → Result Error ℕ × List Crypto.Call
  unfolding ask
  decrypt_final op src dest_len tag h =
      ask tee (λ r. r.code) (λ r. r.size) (Crypto.ae_decrypt_final op src dest_len tag) h

  -- The result vector, of the size of the key, as the call has filled and cut it.
  abbrev pub cut : ℕ → Reply → List ℕ
  cut res_size r =
      take r.size (take res_size (r.bytes ++ drop (length r.bytes) (replicate res_size 0)))

  unfoldable pub encrypt :
      ℕ → List ℕ → List ℕ → List Crypto.Call → Result Error (List ℕ) × List Crypto.Call
  unfolding ask info
  encrypt op params src h =
      let (i, h') = info tee op h in
      ask tee (λ r. r.code) (cut i.key_size) (Crypto.asymmetric_encrypt op params src i.key_size) h'

  unfoldable pub decrypt :
      ℕ → List ℕ → List ℕ → List Crypto.Call → Result Error (List ℕ) × List Crypto.Call
  unfolding ask info
  decrypt op params src h =
      let (i, h') = info tee op h in
      ask tee (λ r. r.code) (cut i.key_size) (Crypto.asymmetric_decrypt op params src i.key_size) h'

  unfoldable pub sign_digest :
      ℕ → List ℕ → List ℕ → ℕ → List Crypto.Call → Result Error ℕ × List Crypto.Call
  unfolding ask
  sign_digest op params digest signature_len h =
      ask tee (λ r. r.code) (λ r. r.size)
        (Crypto.asymmetric_sign_digest op params digest signature_len) h

  unfoldable pub verify_digest :
      ℕ → List ℕ → List ℕ → List ℕ → List Crypto.Call → Result Error (Unit {0}) × List Crypto.Call
  unfolding ask
  verify_digest op params digest signature h =
      ask tee (λ r. r.code) (λ r. tt) (Crypto.asymmetric_verify_digest op params digest signature) h

  unfoldable pub derive_allocate :
      AlgorithmId → ℕ → List Crypto.Call → Result Error OperationHandle × List Crypto.Call
  unfolding allocate
  derive_allocate algo max_key_size h = allocate tee algo OperationMode.derive max_key_size h

  unfoldable pub derive : ℕ → List ℕ → ℕ → List Crypto.Call → List Crypto.Call
  unfolding tell
  derive op params object h = tell tee (Crypto.derive_key op params object) h

  -- The bytes that are put into the buffer.
  unfoldable pub generate : ℕ → List Crypto.Call → List ℕ × List Crypto.Call
  generate len h = let h' = Crypto.generate_random len ∷ h in (take len (tee h').bytes, h')
