-- ===== src/Plugin/Shared.antt =====
-- src/extension.rs: what a command shares with the plugin, and what it returns.
use optee_utee.Prelude.{
  ℕ, ◌-◌, ◌≤◌, ◌<◌, ◌≡◌, ◌≢◌, refl, ap, sym, ◌∙◌, ◌⊎◌, inl, inr, arith, ltb, ◌==◌, List, [], ◌∷◌,
  ◌++◌, length, take, drop, replicate, length-take, length-append, take-append, true, false, zero,
  suc, length-drop, length-replicate, Bool-cases, ==_iff,
}
use optee_utee.Codes.{tee_success}
use optee_utee.Error
use optee_utee.Error.{Error, Result, ok, err, short_buffer}
use optee_utee.Plugin.{
  LoadablePlugin, LoadablePluginCommand, Call, Reply, invoke_supp_plugin, resize, overwrite, call,
  new_with_capacity, write_body, chain_write_body, invoke_with_capacity, invoke,
}

length-resize : (buffer : List ℕ) (n : ℕ) → length (resize buffer n) ≡ n
unfolding resize
length-resize buffer n = omega (
  arith,
  length-take n (buffer ++ replicate (n - length buffer) 0),
  length-append buffer (replicate (n - length buffer) 0),
  length-replicate {A = ℕ} (n - length buffer) 0,
)

length-overwrite : (buffer bytes : List ℕ) → length (overwrite buffer bytes) ≡ length buffer
unfolding overwrite
length-overwrite buffer bytes = omega (
  arith,
  length-take (length buffer) (bytes ++ drop (length bytes) buffer),
  length-append bytes (drop (length bytes) buffer),
  length-drop (length bytes) buffer,
)

take-length : (xs : List ℕ) → take (length xs) xs ≡ xs
take-length [] = refl
take-length (x ∷ xs) = ap (λ ys. x ∷ ys) (take-length xs)

-- A buffer that grows keeps its bytes, and the rest are zeros.
resize_grows :
    (buffer : List ℕ) (n : ℕ)
    → length buffer ≤ n
    → resize buffer n ≡ buffer ++ replicate (n - length buffer) 0
unfolding resize
resize_grows buffer n le =
    let q : n ≡ length (buffer ++ replicate {A = ℕ} (n - length buffer) 0) = omega (
      arith,
      le,
      length-append buffer (replicate {A = ℕ} (n - length buffer) 0),
      length-replicate {A = ℕ} (n - length buffer) 0,
    ) in
    ap (λ k. take k (buffer ++ replicate (n - length buffer) 0)) q
    ∙ take-length (buffer ++ replicate (n - length buffer) 0)

take-append-take :
    (n m : ℕ) (xs ys : List ℕ) → n ≤ m → n ≤ length xs → take n (take m xs ++ ys) ≡ take n xs
take-append-take zero m xs ys h k = refl
take-append-take (suc n) zero xs ys h k = absurd (omega (arith, h))
take-append-take (suc n) (suc m) [] ys h k = absurd (omega (arith, k))
take-append-take (suc n) (suc m) (x ∷ xs) ys h k =
    ap (λ zs. x ∷ zs) (take-append-take n m xs ys (omega (arith, h)) (omega (arith, k)))

-- What is cut out of a buffer that was written to: the bytes written, then the bytes that were there.
cut-overwrite :
    (buffer bytes : List ℕ) (n : ℕ)
    → n ≤ length buffer
    → resize (overwrite buffer bytes) n ≡ take n (bytes ++ drop (length bytes) buffer)
unfolding resize overwrite
cut-overwrite buffer bytes n le =
    take-append-take n (length buffer) (bytes ++ drop (length bytes) buffer) _ le (
      omega (
        arith,
        length-append bytes (drop (length bytes) buffer),
        length-drop (length bytes) buffer,
      ))

-- Bytes that were written to the start of a buffer with room for them are what is cut out of it.
resize-overwrite :
    (buffer bytes : List ℕ)
    → length bytes ≤ length buffer
    → resize (overwrite buffer bytes) (length bytes) ≡ bytes
unfolding resize overwrite
resize-overwrite buffer bytes le =
    take-append-take (length bytes) (length buffer) (bytes ++ drop (length bytes) buffer) _ le
      (omega (arith, length-append bytes (drop (length bytes) buffer)))
    ∙ take-append bytes (drop (length bytes) buffer)

module _ (alloc : ℕ → ℕ → ℕ) (tee : List Call → Reply) where
  -- The calls of an invocation whose shared buffer has `zeros` bytes after the data.
  abbrev pub sharing : LoadablePlugin → ℕ → ℕ → List ℕ → ℕ → List Call → List Call
  sharing plugin command_id subcommand_id bytes zeros h =
      invoke_supp_plugin plugin.uuid command_id subcommand_id (bytes ++ replicate zeros 0) ∷ h

  -- What a command returns that has shared the buffer `shared`, for the calls `h'` made: of the bytes
  -- that the plugin wrote, and then of those that it left as they were, as many as it says.
  abbrev pub Returned : List ℕ → List Call → Result Error (List ℕ) → Type 0
  Returned shared h' result =
      let r = tee h' in
      ((r.code ≡ tee_success)
        × (r.outlen ≤ length shared)
        × (result ≡ ok (take r.outlen (r.bytes ++ drop (length r.bytes) shared))))
      ⊎ (((r.code ≡ tee_success)
            × (length shared < r.outlen)
            × (result ≡ err (Error.new short_buffer)))
          ⊎ ((r.code ≢ tee_success) × (result ≡ err (Error.from_raw_error r.code))))

  Returned-shared :
      {shared shared' : List ℕ} {h' : List Call} {result : Result Error (List ℕ)}
      → shared ≡ shared'
      → Returned shared' h' result
      → Returned shared h' result
  Returned-shared p z = rw p z

  call-Returned :
      (c : LoadablePluginCommand) (h : List Call)
      → Returned (resize c.buffer c.capacity) (call alloc tee c h).1 (call alloc tee c h).0
  unfolding call
  call-Returned c h =
      let h' = (call alloc tee c h).1 in
      let shared = resize c.buffer c.capacity in
      elim (Bool-cases ((tee h').code == tee_success)) [
        | inl e ↦ elim (Bool-cases (ltb (length shared) (tee h').outlen)) [
          | inl g ↦ inr (inl ((==_iff _ _).0 e, ground arith, rw (e, g) refl))
          | inr g ↦
              let le : (tee h').outlen ≤ length shared = ground arith in
              inl (
                (==_iff _ _).0 e,
                le,
                rw (e, g) (ap (λ b. ok b) (cut-overwrite shared (tee h').bytes (tee h').outlen le)),
              )
        ]
        | inr e ↦ inr (inr ((λ q. ground arith), rw e refl))
      ]

  call_returns :
      (c : LoadablePluginCommand) (answer : List ℕ) (h : List Call)
      → length answer ≤ c.capacity
      → (tee (call alloc tee c h).1).code ≡ tee_success
      → (tee (call alloc tee c h).1).bytes ≡ answer
      → (tee (call alloc tee c h).1).outlen ≡ length answer
      → (call alloc tee c h).0 ≡ ok answer
  unfolding call
  call_returns c answer h le e f g =
      let l = length-resize c.buffer c.capacity in
      let t : ((tee (call alloc tee c h).1).code == tee_success) ≡ true = (==_iff _ _).1 e in
      let u : ltb (length (resize c.buffer c.capacity)) (tee (call alloc tee c h).1).outlen
          ≡ false =
        ground (arith, l, g, le) in
      rw (t, u, f, g)
        (ap (λ b. ok b)
          (resize-overwrite (resize c.buffer c.capacity) answer (omega (arith, l, le))))

  -- `invoke` makes one call, which shares the data followed by zeros. If the plugin says that it has
  -- returned no more bytes than are shared, the result is that many bytes of the shared buffer as the
  -- plugin left it: those that it wrote to the start, and behind them those that were shared. If it
  -- says more, the result is `ShortBuffer`; a failure is the error of its status. An allocation gives
  -- at least the capacity that it is asked for.
  pub invoke-Returned :
      (plugin : LoadablePlugin) (command_id subcommand_id : ℕ) (bytes : List ℕ) (h : List Call)
      → ((c n : ℕ) → n ≤ alloc c n)
      → (zeros : ℕ) × (((invoke alloc tee plugin command_id subcommand_id bytes h).1
            ≡ sharing plugin command_id subcommand_id bytes zeros h)
          × Returned
              (bytes ++ replicate zeros 0)
              (invoke alloc tee plugin command_id subcommand_id bytes h).1
              (invoke alloc tee plugin command_id subcommand_id bytes h).0)
  unfolding invoke invoke_with_capacity new_with_capacity chain_write_body write_body call
  invoke-Returned plugin command_id subcommand_id bytes h enough =
      let a = enough 0 (length bytes) in
      let c =
        chain_write_body alloc tee
          (invoke_with_capacity alloc tee plugin command_id subcommand_id (length bytes)) bytes in
      let cap : length bytes ≤ c.capacity = ground (arith, a) in
      (
        c.capacity - length bytes,
        (
          ap (λ b. invoke_supp_plugin plugin.uuid command_id subcommand_id b ∷ h)
              (resize_grows bytes c.capacity cap),
          Returned-shared (sym (resize_grows bytes c.capacity cap)) (call-Returned c h),
        ),
      )

  -- The bytes that the plugin returns are the result, if they are not more than the data: they are
  -- written to the start of the shared buffer, and the plugin says how many they are.
  invoke_returns :
      (plugin : LoadablePlugin) (command_id subcommand_id : ℕ) (bytes answer : List ℕ)
      (h : List Call)
      → ((c n : ℕ) → n ≤ alloc c n)
      → length answer ≤ length bytes
      → (tee (invoke alloc tee plugin command_id subcommand_id bytes h).1).code ≡ tee_success
      → (tee (invoke alloc tee plugin command_id subcommand_id bytes h).1).bytes ≡ answer
      → (tee (invoke alloc tee plugin command_id subcommand_id bytes h).1).outlen ≡ length answer
      → (invoke alloc tee plugin command_id subcommand_id bytes h).0 ≡ ok answer
  unfolding invoke invoke_with_capacity new_with_capacity chain_write_body write_body
  invoke_returns plugin command_id subcommand_id bytes answer h enough le e f g =
      let a = enough 0 (length bytes) in
      let c =
        chain_write_body alloc tee
          (invoke_with_capacity alloc tee plugin command_id subcommand_id (length bytes)) bytes in
      let cap : length bytes ≤ c.capacity = ground (arith, a) in
      call_returns c answer h (omega (arith, le, cap)) e f g
