-- ===== src/Crypto/Tests.antt =====
-- Runs of src/crypto_op.rs on systems in which every call succeeds, or fails.
use optee_utee.Prelude.{◌+◌, ◌≡◌, ◌≢◌, refl, ◌⊎◌, ◌==◌, if◌then◌else◌, List, [], ◌∷◌}
use optee_utee.Codes.{tee_success}
use optee_utee.Crypto.Types.{AlgorithmId, OperationMode}
use optee_utee.Crypto.{Call, Reply}
use optee_utee.Crypto.Lifetime.{boxes, freed, status, allotted, life, life-freed, Use}

abbrev willing : List Call → Reply
willing h = record {
  code = 0;
  handle = 6;
  size = 2;
  tag_size = 0;
  bytes = [];
  info = record { key_size = 128; max_key_size = 128 };
}

abbrev refusing : List Call → Reply
refusing h = record (willing h) { code = 0xFFFF000C }

abbrev client : List Use
client = Use.sets_key 5 ∷ Use.starts_cipher (1 ∷ []) ∷ Use.updates_cipher (2 ∷ 3 ∷ []) 2 ∷ []

-- A box is left where the allocation fails.
life_test : boxes (life refusing AlgorithmId.aes_ctr OperationMode.encrypt 128 client []) ≡ 1
unfolding life optee_utee.Crypto.allocate
life_test = refl

life-freed_example :
    ((status willing AlgorithmId.aes_ctr OperationMode.encrypt 128 [] ≡ tee_success)
      × (boxes (life willing AlgorithmId.aes_ctr OperationMode.encrypt 128 client []) ≡ 0)
      × (freed 6 (life willing AlgorithmId.aes_ctr OperationMode.encrypt 128 client [])
          ≡ 0
            + (if allotted willing AlgorithmId.aes_ctr OperationMode.encrypt 128 [] == 6
                then 1
                else 0)))
    ⊎ ((status willing AlgorithmId.aes_ctr OperationMode.encrypt 128 [] ≢ tee_success)
        × (boxes (life willing AlgorithmId.aes_ctr OperationMode.encrypt 128 client []) ≡ 0 + 1)
        × (freed 6 (life willing AlgorithmId.aes_ctr OperationMode.encrypt 128 client []) ≡ 0))
life-freed_example = life-freed willing AlgorithmId.aes_ctr OperationMode.encrypt 128 client [] 6
