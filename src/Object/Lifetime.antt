-- ===== src/Object/Lifetime.antt =====
-- src/object: the handle of an object over its life.
use optee_utee.Prelude.{
  ℕ, ◌+◌, ◌≡◌, ◌≢◌, refl, ◌∙◌, ap, ◌⊎◌, inl, inr, arith, ◌==◌, if◌then◌else◌, List, [], ◌∷◌, some,
}
use optee_utee.Error.{Error, Result, ok, err, Result-cases}
use optee_utee.Object.Types.{ObjectStorageConstants, storage_code}
use optee_utee.Object.{Call, Reply, ObjectHandle, drop, forget, new_null}
use optee_utee.Object.Persistent
use optee_utee.Object.Released.{
  released, Origin, obtain, Use, use_object, released-use_object, released-obtain, obtain-ne_zero,
}

-- The end of an object: it goes out of scope, is deleted, or its handle is forgotten.
pub data End : Type 0 where
  drops deletes : End

-- The ways to get an object, with the one that takes the attributes of another: the object `a` is
-- given away to `PersistentObject::create`.
pub data Source : Type 0 where
  plain : Origin → Source
  with_attributes : ObjectStorageConstants → List ℕ → ℕ → ObjectHandle → List ℕ → Source

-- How often a handle is that of an object which is given away.
abbrev pub given : Source → ℕ → ℕ
given (plain w) x = 0
given (with_attributes storage id flags a initial) x =
    if a.raw == 0 then 0 else if a.raw == x then 1 else 0

module _ (tee : List Call → Reply) where
  unfoldable pub acquire : Source → List Call → Result Error ObjectHandle × List Call
  acquire (plain w) h = obtain tee w h
  acquire (with_attributes storage id flags a initial) h =
      Persistent.create tee storage id flags (some a) initial h

  unfoldable pub uses : ObjectHandle → List Use → List Call → List Call
  uses o [] h = h
  uses o (u ∷ us) h = uses o us (use_object tee o u h)

  unfoldable pub finish : ObjectHandle → End → List Call → List Call
  finish o drops h = drop o h
  finish o deletes h = (Persistent.close_and_delete tee o h).1

  -- Obtain an object, use it, end it; nothing follows a failure.
  unfoldable pub life : Origin → List Use → End → List Call → List Call
  life w us end h = elim (obtain tee w h).0 [
    | ok o ↦ finish o end (uses o us (obtain tee w h).1)
    | err e ↦ (obtain tee w h).1
  ]

  released-uses :
      (x : ℕ) (o : ObjectHandle) (us : List Use) (h : List Call)
      → released x (uses o us h) ≡ released x h
  unfolding uses
  released-uses x o [] h = refl
  released-uses x o (u ∷ us) h =
      released-uses x o us (use_object tee o u h) ∙ released-use_object tee x o u h

  released-finish :
      (x : ℕ) (o : ObjectHandle) (end : End) (h : List Call)
      → o.raw ≢ 0
      → released x (finish o end h) ≡ released x h + (if o.raw == x then 1 else 0)
  unfolding finish drop Persistent.close_and_delete
  released-finish x o drops h ne = ground arith
  released-finish x o deletes h ne = ground arith

  -- The same from any source.
  unfoldable pub whole_life : Source → List Use → End → List Call → List Call
  whole_life w us end h = elim (acquire w h).0 [
    | ok o ↦ finish o end (uses o us (acquire w h).1)
    | err e ↦ (acquire w h).1
  ]

  released-acquire :
      (x : ℕ) (w : Source) (h : List Call) → released x (acquire w h).1 ≡ released x h + given w x
  unfolding acquire Persistent.create drop
  released-acquire x (plain w) h = omega (arith, released-obtain tee x w h)
  released-acquire x (with_attributes storage id flags a initial) h = ground arith

  acquire-ne_zero :
      (w : Source) (h : List Call) {o : ObjectHandle} → (acquire w h).0 ≡ ok o → o.raw ≢ 0
  unfolding acquire Persistent.create
  acquire-ne_zero (plain w) h e = obtain-ne_zero tee w h e
  acquire-ne_zero (with_attributes storage id flags a initial) h e = ground arith

  -- Over the life of an object that was opened, allocated, or created with or without the attributes
  -- of another object, whatever is done with it and however it ends, its handle is given back exactly
  -- once. The handle of the object whose attributes were taken, if it is not null, is given back once
  -- too, whether or not the creation succeeds; and no other handle is given back.
  pub released-life :
      (w : Source) (us : List Use) (end : End) (h : List Call)
      → ((o : ObjectHandle) × ((acquire w h).0 ≡ ok o)
          × ((x : ℕ)
              → released x (whole_life w us end h)
                ≡ released x h + given w x + (if o.raw == x then 1 else 0)))
        ⊎ ((e : Error) × ((acquire w h).0 ≡ err e)
            × ((x : ℕ) → released x (whole_life w us end h) ≡ released x h + given w x))
  unfolding whole_life
  released-life w us end h = elim (Result-cases (acquire w h).0) [
    | inl (o, e) ↦ inl (
      o,
      e,
      λ x.
          rw (e, whole_life)
            (released-finish x o end (uses o us (acquire w h).1) (acquire-ne_zero w h e)
              ∙ ap (λ n. n + (if o.raw == x then 1 else 0))
                  (released-uses x o us (acquire w h).1 ∙ released-acquire x w h)),
    )
    | inr (x, e) ↦ inr (x, e, λ y. rw (e, whole_life) (released-acquire y w h))
  ]

  -- An object created from the attributes of another: the handle of the other is closed first, and
  -- is then passed to the call that creates the object.
  create-some :
      (storage : ObjectStorageConstants) (id : List ℕ) (flags : ℕ) (a : ObjectHandle)
      (initial : List ℕ) (h : List Call)
      → a.raw ≢ 0
      → (Persistent.create tee storage id flags (some a) initial h).1
        ≡ Call.create_persistent_object (storage_code storage) id flags a.raw initial
          ∷ Call.close_object a.raw
          ∷ h
  unfolding Persistent.create drop
  create-some storage id flags a initial h ne = ground arith

-- A forgotten handle is not given back, and neither is a null one.
pub forget_lem : (o : ObjectHandle) (h : List Call) → (forget o h ≡ h) × (drop new_null h ≡ h)
unfolding forget new_null
forget_lem o h = (refl, refl)
