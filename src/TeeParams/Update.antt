-- ===== src/TeeParams/Update.antt =====
-- src/tee_parameter.rs: what `update_from_raw` takes from a reply.
use optee_utee.Prelude.{
  ◌≡◌, refl, ap, ◌∙◌, List, [], ◌∷◌, ◌⊎◌, inl, inr, Bool, true, false, ltb, Bool-cases,
}
use optee_utee.Prelude.Array4.{Array4, Index, arg0, arg1, arg2, arg3, at, put}
use optee_utee.Error
use optee_utee.Error.{Error, Result, ok, err, bad_parameters}
use optee_utee.Param.{RawParam, size_of, a_of, b_of}
use optee_utee.TeeParams.{
  Param, none, memref_input, memref_output, memref_inout, value_input, value_output, value_inout,
  TeeParams, get_type, update_param, update_loop, update_from_raw, update_size_from_raw,
  update_value_from_raw,
}

-- The reply claims more bytes than the output buffer has.
abbrev pub overflows : Param → RawParam → Bool
overflows (memref_output buffer written) raw = ltb buffer.len (size_of raw)
overflows (memref_inout buffer written) raw = ltb buffer.len (size_of raw)
overflows _ raw = false

-- The parameter with what the reply says of it.
abbrev pub taken : Param → RawParam → Param
taken none raw = none
taken (memref_input buffer) raw = memref_input buffer
taken (memref_output buffer written) raw = memref_output buffer (size_of raw)
taken (memref_inout buffer written) raw = memref_inout buffer (size_of raw)
taken (value_input a b) raw = value_input a b
taken (value_output a b) raw = value_output (a_of raw) (b_of raw)
taken (value_inout a b) raw = value_inout (a_of raw) (b_of raw)

update_param_fits :
    (p : Param) (raw : RawParam)
    → overflows p raw ≡ false
    → update_param p raw ≡ (taken p raw, ok tt)
unfolding update_param get_type update_size_from_raw update_value_from_raw
update_param_fits none raw h = refl
update_param_fits (memref_output buffer written) raw h = rw h
update_param_fits (memref_inout buffer written) raw h = rw h
update_param_fits _ raw h = refl

update_param-overflows :
    (p : Param) (raw : RawParam)
    → overflows p raw ≡ true
    → update_param p raw ≡ (p, err (Error.new bad_parameters))
unfolding update_param get_type update_size_from_raw
update_param-overflows (memref_output buffer written) raw h = rw h
update_param-overflows (memref_inout buffer written) raw h = rw h
update_param-overflows none raw h = cc
update_param-overflows _ raw h = cc

abbrev takes : TeeParams → Array4 RawParam → Index → TeeParams
takes ps raws i = put ps i (taken (at ps i) (at raws i))

-- Either no output overflows, and every parameter takes its part of the reply; or the call is
-- refused with `BadParameters` because of the first output that overflows: the parameters before it
-- have taken their part, it and those behind it are as they were.
abbrev pub Updates : TeeParams → Array4 RawParam → TeeParams × Result Error (Unit {0}) → Type 0
Updates ps raws out =
    ((overflows ps.e0 raws.e0 ≡ false)
      × (overflows ps.e1 raws.e1 ≡ false)
      × (overflows ps.e2 raws.e2 ≡ false)
      × (overflows ps.e3 raws.e3 ≡ false)
      × (out ≡ (takes (takes (takes (takes ps raws arg0) raws arg1) raws arg2) raws arg3, ok tt)))
    ⊎ ((overflows ps.e0 raws.e0 ≡ true) × (out ≡ (ps, err (Error.new bad_parameters))))
    ⊎ ((overflows ps.e0 raws.e0 ≡ false)
        × (overflows ps.e1 raws.e1 ≡ true)
        × (out ≡ (takes ps raws arg0, err (Error.new bad_parameters))))
    ⊎ ((overflows ps.e0 raws.e0 ≡ false)
        × (overflows ps.e1 raws.e1 ≡ false)
        × (overflows ps.e2 raws.e2 ≡ true)
        × (out ≡ (takes (takes ps raws arg0) raws arg1, err (Error.new bad_parameters))))
    ⊎ ((overflows ps.e0 raws.e0 ≡ false)
        × (overflows ps.e1 raws.e1 ≡ false)
        × (overflows ps.e2 raws.e2 ≡ false)
        × (overflows ps.e3 raws.e3 ≡ true)
        × (out ≡ (
          takes (takes (takes ps raws arg0) raws arg1) raws arg2,
          err (Error.new bad_parameters),
        )))

update_loop_nil : (ps : TeeParams) (raws : Array4 RawParam) → update_loop [] ps raws ≡ (ps, ok tt)
unfolding update_loop
update_loop_nil ps raws = refl

fits_next :
    (i : Index) (is : List Index) (ps : TeeParams) (raws : Array4 RawParam)
    → overflows (at ps i) (at raws i) ≡ false
    → update_loop (i ∷ is) ps raws ≡ update_loop is (takes ps raws i) raws
unfolding update_loop
fits_next i is ps raws h =
    let e = update_param_fits (at ps i) (at raws i) h in
    rw (e, update_loop) (ap (λ q. update_loop is (put ps i q.0) raws) e)

overflows_stops :
    (i : Index) (is : List Index) (ps : TeeParams) (raws : Array4 RawParam)
    → overflows (at ps i) (at raws i) ≡ true
    → update_loop (i ∷ is) ps raws ≡ (put ps i (at ps i), err (Error.new bad_parameters))
unfolding update_loop
overflows_stops i is ps raws h =
    let e = update_param-overflows (at ps i) (at raws i) h in
    rw (e, update_loop) (ap (λ q. (put ps i q.0, err (Error.new bad_parameters))) e)

-- Where no output overflows, `update_from_raw` takes the whole reply.
pub update_from_raw_fits :
    (ps : TeeParams) (raws : Array4 RawParam)
    → ((i : Index) → overflows (at ps i) (at raws i) ≡ false)
    → update_from_raw ps raws
      ≡ (takes (takes (takes (takes ps raws arg0) raws arg1) raws arg2) raws arg3, ok tt)
unfolding update_from_raw
update_from_raw_fits ps raws h =
    let ps1 = takes ps raws arg0 in
    let ps2 = takes ps1 raws arg1 in
    let ps3 = takes ps2 raws arg2 in
    fits_next arg0 (arg1 ∷ arg2 ∷ arg3 ∷ []) ps raws (h arg0)
    ∙ fits_next arg1 (arg2 ∷ arg3 ∷ []) ps1 raws (h arg1)
    ∙ fits_next arg2 (arg3 ∷ []) ps2 raws (h arg2)
    ∙ fits_next arg3 [] ps3 raws (h arg3)
    ∙ update_loop_nil _ raws

-- If no output size of the reply is larger than its buffer, `update_from_raw` takes the whole reply.
-- Otherwise it is `BadParameters` because of the first output that overflows: the parameters before
-- it have taken their part, it and those behind it are as they were.
pub update_from_raw_lem :
    (ps : TeeParams) (raws : Array4 RawParam) → Updates ps raws (update_from_raw ps raws)
unfolding update_from_raw
update_from_raw_lem ps raws = elim (Bool-cases (overflows ps.e0 raws.e0)) [
  | inl o0 ↦ inr (inl (o0, overflows_stops arg0 rest0 ps raws o0))
  | inr f0 ↦
      let s0 = fits_next arg0 rest0 ps raws f0 in
      let ps1 = takes ps raws arg0 in
      elim (Bool-cases (overflows ps.e1 raws.e1)) [
        | inl o1 ↦ inr (inr (inl (f0, o1, s0 ∙ overflows_stops arg1 rest1 ps1 raws o1)))
        | inr f1 ↦
            let s1 = s0 ∙ fits_next arg1 rest1 ps1 raws f1 in
            let ps2 = takes ps1 raws arg1 in
            elim (Bool-cases (overflows ps.e2 raws.e2)) [
              | inl o2 ↦
                  inr (inr (inr (inl (f0, f1, o2, s1 ∙ overflows_stops arg2 rest2 ps2 raws o2))))
              | inr f2 ↦
                  let s2 = s1 ∙ fits_next arg2 rest2 ps2 raws f2 in
                  let ps3 = takes ps2 raws arg2 in
                  elim (Bool-cases (overflows ps.e3 raws.e3)) [
                    | inl o3 ↦
                        inr (
                          inr
                            (inr (inr (f0, f1, f2, o3, s2 ∙ overflows_stops arg3 [] ps3 raws o3))))
                    | inr f3 ↦ inl (f0, f1, f2, f3, s2 ∙ (fits_next arg3 [] ps3 raws f3 ∙ done))
                  ]
            ]
      ]
]
  where
    rest2 : List Index
    rest2 = arg3 ∷ []

    rest1 : List Index
    rest1 = arg2 ∷ rest2

    rest0 : List Index
    rest0 = arg1 ∷ rest1

    done :
        update_loop []
          (takes (takes (takes (takes ps raws arg0) raws arg1) raws arg2) raws arg3)
          raws
        ≡ (takes (takes (takes (takes ps raws arg0) raws arg1) raws arg2) raws arg3, ok tt)
    done = update_loop_nil _ raws

get_type-taken : (p : Param) (raw : RawParam) → get_type (taken p raw) ≡ get_type p
unfolding get_type
get_type-taken none raw = refl
get_type-taken _ raw = refl
