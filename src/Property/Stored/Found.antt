-- ===== src/Property/Stored/Found.antt =====
-- src/property.rs: what is read of a property is what the system's table has.
use optee_utee.Prelude.{
  ℕ, ◌≤◌, ◌≡◌, refl, sym, ap, ◌∙◌, ◌==◌, ==_iff, inl, inr, Option, none, some, List, [], ◌∷◌, ◌++◌,
  arith, length, length-append, length-replicate, take-append, replicate, true, false,
}
use optee_utee.Codes.{tee_success, tee_error_short_buffer, tee_error_item_not_found}
use optee_utee.Error
use optee_utee.Error.{Error, Result, ok, err}
use optee_utee.Ffi.{ask}
use optee_utee.Property.{
  set_as_raw, Call, Reply, get_property_as_string, get_property_as_binary_block,
  get_property_as_bool, get_property_as_u32, get_property_as_uuid, get_property_as_identity,
  overwrite, get_string, get_binary_block, get_bool, get_u32, get_uuid, get_identity,
}
use optee_utee.Property.Sized.{no_nul, get_string_reads, size, reading, sizing, filled}
use optee_utee.Property.Asking.{subject, key-literal}
use optee_utee.Property.Keys.{
  PropertyKey, Output, set, key, literal, bytes, output, Value, of_string, of_block, of_bool,
  of_u32, of_uuid, of_identity, as_value, get, get_by,
}
use optee_utee.Property.Stored.{Fits, Answers, Store, Keeps, HasType, Holds, wanted}

empty : (xs : List ℕ) → length xs ≤ 0 → xs ≡ []
empty [] e = refl
empty (x ∷ xs) e = absurd (omega (arith, e))

overwrite_zeros :
    (n : ℕ) (content : List ℕ) → n ≡ length content → overwrite (replicate n 0) content ≡ content
unfolding overwrite
overwrite_zeros n content e = rw (length-replicate {A = ℕ} n 0, e) (take-append content _)

module _ (lossy : List ℕ → List ℕ) (tee : List Call → Reply) (set : ℕ) (key : List ℕ)
    (h : List Call) where
  get_string-found :
      (s : List ℕ)
      → ((room : ℕ) (h : List Call)
          → Fits (s ++ 0 ∷ []) room (tee (get_property_as_string set key room ∷ h)))
      → (no_nul s ≡ true) × (lossy s ≡ s)
      → (get_string lossy tee set key h).0 ≡ ok s
  get_string-found s law text =
      let n = length-append s (0 ∷ []) in
      let (long, first) = law 0 h in
      let (long', second) = law (size lossy tee set key h) (sizing lossy tee set key h) in
      let short : (tee (sizing lossy tee set key h)).code ≡ tee_error_short_buffer = elim first [
        | inl (_, e) ↦ e
        | inr (le, _, _) ↦ absurd (omega (arith, n, le))
      ] in
      elim second [
        | inl (lt, _) ↦ absurd (omega (arith, lt, long))
        | inr (_, done, written) ↦
            let whole : filled tee (reading lossy tee set key h) (size lossy tee set key h)
                ≡ s ++ 0 ∷ [] =
              ap (overwrite (replicate (size lossy tee set key h) 0)) written
              ∙ overwrite_zeros (size lossy tee set key h) (s ++ 0 ∷ []) long in
            ap (λ r. r.0) (get_string_reads lossy tee set key h s short done whole text.0)
            ∙ ap (λ r. ok r) text.1
      ]

  get_binary_block-found :
      (s : List ℕ)
      → ((room : ℕ) (h : List Call)
          → Fits s room (tee (get_property_as_binary_block set key room ∷ h)))
      → (get_binary_block lossy tee set key h).0 ≡ ok s
  unfolding get_binary_block
  get_binary_block-found s law =
      let h₁ = get_property_as_binary_block set key 0 ∷ h in
      let n = (tee h₁).out_size in
      let (long, first) = law 0 h in
      let (long', second) = law n h₁ in
      elim first [
        | inl (lt, short) ↦
            let f : ((tee h₁).code == tee_success) ≡ false = ap (λ c. c == tee_success) short in
            let g : ((tee h₁).code == tee_error_short_buffer) ≡ true = (==_iff _ _).1 short in
            elim second [
              | inl (lt', _) ↦ absurd (omega (arith, lt', long))
              | inr (_, done, written) ↦
                  let k : ((tee (get_property_as_binary_block set key n ∷ h₁)).code == tee_success)
                      ≡ true =
                    (==_iff _ _).1 done in
                  rw (f, g, k, get_binary_block)
                    (ap (λ b. ok (overwrite (replicate n 0) b)) written
                      ∙ ap (λ b. ok b) (overwrite_zeros n s long))
            ]
        | inr (le, done, written) ↦
            let f : ((tee h₁).code == tee_success) ≡ true = (==_iff _ _).1 done in
            let g : (n == 0) ≡ true = (==_iff _ _).1 (omega (arith, long, le)) in
            rw (f, g, get_binary_block) (ap (λ b. ok b) (sym (empty s (omega (arith, le)))))
      ]

ask-found :
    {A : Type 0} (tee : List Call → Reply) (value : Reply → A) (c : Call) (h : List Call) (a : A)
    → ((tee (c ∷ h)).code ≡ tee_success) × (value (tee (c ∷ h)) ≡ a)
    → (ask tee (λ r. r.code) value c h).0 ≡ ok a
unfolding ask
ask-found tee value c h a (done, q) =
    let e : ((tee (c ∷ h)).code == tee_success) ≡ true = (==_iff _ _).1 done in
    rw (e, ask) (ap (λ b. ok b) q)

ask-missing :
    {A : Type 0} (tee : List Call → Reply) (value : Reply → A) (c : Call) (h : List Call)
    → (tee (c ∷ h)).code ≡ tee_error_item_not_found
    → (ask tee (λ r. r.code) value c h).0 ≡ err (Error.from_raw_error tee_error_item_not_found)
unfolding ask
ask-missing tee value c h q =
    let e : ((tee (c ∷ h)).code == tee_success) ≡ false = ap (λ k. k == tee_success) q in
    rw (e, ask) (ap (λ k. err (Error.from_raw_error k)) q)

module _ (lossy : List ℕ → List ℕ) (tee : List Call → Reply) where
  get_by-missing :
      (t : Output) (set : ℕ) (key : List ℕ) (h : List Call)
      → ((c : Call) (h : List Call)
          → subject c ≡ (set, key)
          → (tee (c ∷ h)).code ≡ tee_error_item_not_found)
      → (get_by lossy tee t set key h).0 ≡ wanted none
  unfolding get_by get_string get_binary_block get_bool get_u32 get_uuid get_identity
  get_by-missing Output.string set key h law =
      let q = law (get_property_as_string set key 0) h refl in
      let f : ((tee (get_property_as_string set key 0 ∷ h)).code == tee_success) ≡ false =
        ap (λ k. k == tee_success) q in
      let g : ((tee (get_property_as_string set key 0 ∷ h)).code == tee_error_short_buffer)
          ≡ false =
        ap (λ k. k == tee_error_short_buffer) q in
      rw (f, g, get_string) (ap (λ k. err (Error.from_raw_error k)) q)
  get_by-missing Output.block set key h law =
      let q = law (get_property_as_binary_block set key 0) h refl in
      let f : ((tee (get_property_as_binary_block set key 0 ∷ h)).code == tee_success) ≡ false =
        ap (λ k. k == tee_success) q in
      let g : ((tee (get_property_as_binary_block set key 0 ∷ h)).code == tee_error_short_buffer)
          ≡ false =
        ap (λ k. k == tee_error_short_buffer) q in
      rw (f, g, get_binary_block) (ap (λ k. err (Error.from_raw_error k)) q)
  get_by-missing Output.bool set key h law = ap (as_value of_bool) (
      ask-missing tee (λ r. r.flag) (get_property_as_bool set key) h
        (law (get_property_as_bool set key) h refl))
  get_by-missing Output.u32 set key h law = ap (as_value of_u32) (
      ask-missing tee (λ r. r.value) (get_property_as_u32 set key) h
        (law (get_property_as_u32 set key) h refl))
  get_by-missing Output.uuid set key h law = ap (as_value of_uuid) (
      ask-missing tee (λ r. r.value) (get_property_as_uuid set key) h
        (law (get_property_as_uuid set key) h refl))
  get_by-missing Output.identity set key h law = ap (as_value of_identity) (
      ask-missing tee (λ r. r.identity) (get_property_as_identity set key) h
        (law (get_property_as_identity set key) h refl))

  get_by-found :
      (t : Output) (v : Value) (set : ℕ) (key : List ℕ) (h : List Call)
      → ((c : Call) (h : List Call) → subject c ≡ (set, key) → Answers (some v) c (tee (c ∷ h)))
      → HasType lossy t v
      → (get_by lossy tee t set key h).0 ≡ ok v
  unfolding get_by get_bool get_u32 get_uuid get_identity
  get_by-found Output.string (of_string s) set key h law text = ap (as_value of_string) (
      get_string-found lossy tee set key h s
        (λ room h. law (get_property_as_string set key room) h refl) text)
  get_by-found Output.block (of_block s) set key h law text = ap (as_value of_block) (
      get_binary_block-found lossy tee set key h s
        (λ room h. law (get_property_as_binary_block set key room) h refl))
  get_by-found Output.bool (of_bool b) set key h law text = ap (as_value of_bool) (
      ask-found tee (λ r. r.flag) (get_property_as_bool set key) h b
        (law (get_property_as_bool set key) h refl))
  get_by-found Output.u32 (of_u32 n) set key h law text = ap (as_value of_u32) (
      ask-found tee (λ r. r.value) (get_property_as_u32 set key) h n
        (law (get_property_as_u32 set key) h refl))
  get_by-found Output.uuid (of_uuid n) set key h law text = ap (as_value of_uuid) (
      ask-found tee (λ r. r.value) (get_property_as_uuid set key) h n
        (law (get_property_as_uuid set key) h refl))
  get_by-found Output.identity (of_identity i) set key h law text = ap (as_value of_identity) (
      ask-found tee (λ r. r.identity) (get_property_as_identity set key) h i
        (law (get_property_as_identity set key) h refl))
  get_by-found _ v set key h law text = absurd text

  get_by-wanted :
      (t : Output) (o : Option Value) (set : ℕ) (key : List ℕ) (h : List Call)
      → ((c : Call) (h : List Call) → subject c ≡ (set, key) → Answers o c (tee (c ∷ h)))
      → Holds lossy t o
      → (get_by lossy tee t set key h).0 ≡ wanted o
  get_by-wanted t none set key h law holds = get_by-missing t set key h law
  get_by-wanted t (some v) set key h law holds = get_by-found t v set key h law holds

-- Reading a property gives what the system keeps under the key's name in the key's set, whatever was
-- asked before: its value, a string or a block of any length included, or `ItemNotFound` where there
-- is none. The system's functions answer from its store, the value is of the type of the key, and a
-- string has no `\0` and is one that `to_string_lossy` leaves as it is.
pub get-stored :
    (lossy : List ℕ → List ℕ) (tee : List Call → Reply) (store : Store)
    → Keeps store tee
    → (k : PropertyKey) (h : List Call)
    → Holds lossy (output k) (store (set_as_raw (set k), bytes (literal k)))
    → (get lossy tee k h).0 ≡ wanted (store (set_as_raw (set k), bytes (literal k)))
unfolding get
get-stored lossy tee store keeps k h holds =
    let q = (key-literal k).0 in
    ap (λ name. (get_by lossy tee (output k) (set_as_raw (set k)) name h).0) q
    ∙ get_by-wanted lossy tee (output k) (store (set_as_raw (set k), bytes (literal k)))
        (set_as_raw (set k)) (bytes (literal k)) h (λ c h e. rw (sym e) (keeps c h)) holds
