-- ===== src/Plugin/Tests.antt =====
-- Runs of src/extension.rs on a plugin that answers with two bytes.
use optee_utee.Prelude.{ℕ, ◌+◌, ◌≡◌, refl, arith, List, [], ◌∷◌, ◌++◌, replicate}
use optee_utee.Error.{ok}
use optee_utee.Plugin.{LoadablePlugin, Call, Reply, invoke}
use optee_utee.Plugin.Shared.{sharing, Returned, invoke-Returned}

abbrev answering : List Call → Reply
answering h = record { code = 0; bytes = 8 ∷ 9 ∷ []; outlen = 2 }

-- An allocator that gives two elements more than are needed.
abbrev generous : ℕ → ℕ → ℕ
generous c n = n + 2

abbrev plugin : LoadablePlugin
plugin = record { uuid = 11 }

invoke_test : (invoke generous answering plugin 1 2 (5 ∷ 6 ∷ 7 ∷ []) []).0 ≡ ok (8 ∷ 9 ∷ [])
unfolding invoke
invoke_test = refl

invoke-Returned_example :
    (zeros : ℕ) × (((invoke generous answering plugin 1 2 (5 ∷ 6 ∷ 7 ∷ []) []).1
        ≡ sharing generous answering plugin 1 2 (5 ∷ 6 ∷ 7 ∷ []) zeros [])
      × Returned generous answering
          (5 ∷ 6 ∷ 7 ∷ [] ++ replicate zeros 0)
          (invoke generous answering plugin 1 2 (5 ∷ 6 ∷ 7 ∷ []) []).1
          (invoke generous answering plugin 1 2 (5 ∷ 6 ∷ 7 ∷ []) []).0)
invoke-Returned_example =
    invoke-Returned generous answering plugin 1 2 (5 ∷ 6 ∷ 7 ∷ []) [] (λ c n. omega arith)
