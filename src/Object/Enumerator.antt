-- ===== src/Object/Enumerator.antt =====
-- src/object/enum_handle.rs: the enumerator of persistent objects, with the box that it keeps its
-- handle in.
use optee_utee.Prelude.{
  ℕ, ◌%◌, u32_mod, ◌≡◌, ◌≢◌, refl, ap, ◌⊎◌, inl, inr, arith, Bool-cases, ==_iff, ◌+◌, ◌-◌, ◌==◌,
  if◌then◌else◌, List, [], ◌∷◌,
}
use optee_utee.Codes.{tee_success}
use optee_utee.Ffi.{ask, tell}
use optee_utee.Error
use optee_utee.Error.{Error, Result, ok, err, check}
use optee_utee.Object.{RawObjectInfo}

-- Allocating and freeing the box stand among the calls, so that their order shows.
pub data Call : Type 0 where
  box_new box_free : Call
  allocate_enumerator : Call
  free_enumerator : ℕ → Call
  reset_enumerator : ℕ → Call
  start_enumerator : ℕ → ℕ → Call
  get_next_object : ℕ → ℕ → Call

pub record Reply : Type 0 where
  pub code : ℕ
  pub handle : ℕ
  pub object_id_len : ℕ
  pub info : RawObjectInfo

-- The handle in the box.
pub record ObjectEnumHandle : Type 0 where
  pub raw : ℕ

-- The failing arm of `allocate` frees the box.
pub allocated :
    Result Error ObjectEnumHandle × List Call → Result Error ObjectEnumHandle × List Call
allocated (ok e, h) = (ok e, h)
allocated (err x, h) = (err x, Call.box_free ∷ h)

module _ (tee : List Call → Reply) where
  unfoldable pub allocate : List Call → Result Error ObjectEnumHandle × List Call
  unfolding ask allocated
  allocate h = allocated (
      ask tee (λ r. r.code) (λ r. record { raw = r.handle }) Call.allocate_enumerator
        (Call.box_new ∷ h))

  unfoldable pub reset : ObjectEnumHandle → List Call → List Call
  unfolding tell
  reset e h = tell tee (Call.reset_enumerator e.raw) h

  unfoldable pub start : ObjectEnumHandle → ℕ → List Call → Result Error (Unit {0}) × List Call
  unfolding ask
  start e storage_id h = ask tee (λ r. r.code) (λ r. tt) (Call.start_enumerator e.raw storage_id) h

  -- `object_id_len` is 0 when the call is made, whatever the length of the buffer.
  unfoldable pub get_next : ObjectEnumHandle → ℕ → List Call → Result Error ℕ × List Call
  unfolding ask
  get_next e buffer_len h =
      ask tee (λ r. r.code) (λ r. r.object_id_len % u32_mod) (Call.get_next_object e.raw 0) h

-- `Drop for ObjectEnumHandle`.
unfoldable pub drop : ObjectEnumHandle → List Call → List Call
drop e h = Call.box_free ∷ Call.free_enumerator e.raw ∷ h

-- The boxes that are allocated and not yet freed, over the calls: one for each `box_new` that no
-- later `box_free` answers.
abbrev pub boxes : List Call → ℕ
boxes [] = 0
boxes (Call.box_new ∷ h) = boxes h + 1
boxes (Call.box_free ∷ h) = boxes h - 1
boxes (_ ∷ h) = boxes h

abbrev pub freed : ℕ → List Call → ℕ
freed x [] = 0
freed x (Call.free_enumerator y ∷ h) = freed x h + (if y == x then 1 else 0)
freed x (_ ∷ h) = freed x h

-- What a client does with an enumerator that it keeps.
pub data Use : Type 0 where
  resets : Use
  starts next_into : ℕ → Use

pub use_enumerator : (List Call → Reply) → ObjectEnumHandle → Use → List Call → List Call
use_enumerator tee e resets h = reset tee e h
use_enumerator tee e (starts storage_id) h = (start tee e storage_id h).1
use_enumerator tee e (next_into len) h = (get_next tee e len h).1

pub uses : (List Call → Reply) → ObjectEnumHandle → List Use → List Call → List Call
uses tee e [] h = h
uses tee e (u ∷ us) h = uses tee e us (use_enumerator tee e u h)

-- Allocate an enumerator, use it, and let it go out of scope; nothing follows a failure.
pub life : (List Call → Reply) → List Use → List Call → List Call
life tee us h = elim (allocate tee h).0 [
  | ok e ↦ drop e (uses tee e us (allocate tee h).1)
  | err x ↦ (allocate tee h).1
]

uses-boxes :
    (tee : List Call → Reply) (e : ObjectEnumHandle) (us : List Use) (h : List Call)
    → (boxes (uses tee e us h) ≡ boxes h) × ((x : ℕ) → freed x (uses tee e us h) ≡ freed x h)
unfolding uses use_enumerator reset start get_next
uses-boxes tee e [] h = (refl, λ x. refl)
uses-boxes tee e (resets ∷ us) h = uses-boxes tee e us (Call.reset_enumerator e.raw ∷ h)
uses-boxes tee e (starts storage_id ∷ us) h =
    uses-boxes tee e us (Call.start_enumerator e.raw storage_id ∷ h)
uses-boxes tee e (next_into len ∷ us) h = uses-boxes tee e us (Call.get_next_object e.raw 0 ∷ h)

-- The call that allocates the enumerator, behind the box.
abbrev pub allocating : List Call → List Call
allocating h = Call.allocate_enumerator ∷ Call.box_new ∷ h

-- What `allocate` leaves on either status.
allocate_lem :
    (tee : List Call → Reply) (h : List Call)
    → (((tee (allocating h)).code ≡ tee_success)
        × ((allocate tee h).0 ≡ ok (record { raw = (tee (allocating h)).handle }))
        × ((allocate tee h).1 ≡ allocating h))
      ⊎ (((tee (allocating h)).code ≢ tee_success)
          × ((x : Error) × ((allocate tee h).0 ≡ err x))
          × ((allocate tee h).1 ≡ Call.box_free ∷ allocating h))
unfolding allocate ask check allocated
allocate_lem tee h = elim (Bool-cases ((tee (allocating h)).code == tee_success)) [
  | inl e ↦ inl ((==_iff _ _).0 e, rw e, rw e)
  | inr e ↦ inr ((λ q. ground arith), (Error.from_raw_error (tee (allocating h)).code, rw e), rw e)
]

-- Every life of an enumerator frees the box that it allocates, also where the allocation of the
-- enumerator fails; and the enumerator is freed exactly once if it was allocated, no other is, and
-- none is if it was not.
pub life-boxes :
    (tee : List Call → Reply) (us : List Use) (h : List Call)
    → (boxes (life tee us h) ≡ boxes h)
      × ((((tee (allocating h)).code ≡ tee_success)
            × ((x : ℕ)
                → freed x (life tee us h)
                  ≡ freed x h + (if (tee (allocating h)).handle == x then 1 else 0)))
          ⊎ (((tee (allocating h)).code ≢ tee_success)
              × ((x : ℕ) → freed x (life tee us h) ≡ freed x h)))
unfolding life drop
life-boxes tee us h = elim (allocate_lem tee h) [
  | inl (c, e, l) ↦
      let kept = uses-boxes tee (record { raw = (tee (allocating h)).handle }) us (allocating h) in
      (
        rw (e, l, life) (omega (arith, kept.0)),
        inl (
          c,
          λ x.
              rw (e, l, life)
                (ap (λ n. n + (if (tee (allocating h)).handle == x then 1 else 0)) (kept.1 x)),
        ),
      )
  | inr (c, (x, e), l) ↦ (rw (e, l, life) (omega arith), inr (c, λ y. rw (e, l, life)))
]
