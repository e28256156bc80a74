-- ===== src/Object/Released.antt =====
-- src/object: how often a handle is given back, counted over the calls.
use optee_utee.Prelude.{ℕ, ◌+◌, ◌≡◌, ◌≢◌, refl, arith, ◌==◌, if◌then◌else◌, List, [], ◌∷◌, none, ℤ}
use optee_utee.Error.{Error, Result, ok, err}
use optee_utee.Object.Types.{TransientObjectType, Whence, ObjectStorageConstants}
use optee_utee.Object.{
  Call, Reply, ObjectHandle, from_raw, wrap, info, restrict_usage, ref_attribute, value_attribute,
}
use optee_utee.Object.Transient
use optee_utee.Object.Persistent

-- Both closing and deleting give a handle back.
abbrev pub released : ℕ → List Call → ℕ
released x [] = 0
released x (Call.close_object y ∷ h) = released x h + (if y == x then 1 else 0)
released x (Call.close_and_delete_persistent_object y ∷ h) =
    released x h + (if y == x then 1 else 0)
released x (_ ∷ h) = released x h

-- The ways to get an object, but for the creation that takes the attributes of another.
pub data Origin : Type 0 where
  opens : ObjectStorageConstants → List ℕ → ℕ → Origin
  creates : ObjectStorageConstants → List ℕ → ℕ → List ℕ → Origin
  allocates : TransientObjectType → ℕ → Origin

unfoldable pub obtain :
    (List Call → Reply) → Origin → List Call → Result Error ObjectHandle × List Call
obtain tee (opens storage id flags) h = Persistent.open_object tee storage id flags h
obtain tee (creates storage id flags initial) h =
    Persistent.create tee storage id flags none initial h
obtain tee (allocates t size) h = Transient.allocate tee t size h

-- What a client does with an object that it keeps.
pub data Use : Type 0 where
  asks_info : Use
  restricts : ℕ → Use
  gets_buffer : ℕ → ℕ → Use
  gets_value : ℕ → Use
  resets : Use
  populates : List ℕ → Use
  copies_from : ObjectHandle → Use
  generates : ℕ → List ℕ → Use
  renames : List ℕ → Use
  reads : ℕ → Use
  writes : List ℕ → Use
  truncates : ℕ → Use
  seeks : ℤ → Whence → Use

unfoldable pub use_object : (List Call → Reply) → ObjectHandle → Use → List Call → List Call
use_object tee o asks_info h = (info tee o h).1
use_object tee o (restricts usage) h = (restrict_usage tee o usage h).1
use_object tee o (gets_buffer id len) h = (ref_attribute tee o id len h).1
use_object tee o (gets_value id) h = (value_attribute tee o id h).1
use_object tee o resets h = Transient.reset tee o h
use_object tee o (populates attrs) h = (Transient.populate tee o attrs h).1
use_object tee o (copies_from src) h = (Transient.copy_attribute_from tee o src h).1
use_object tee o (generates size params) h = (Transient.generate_key tee o size params h).1
use_object tee o (renames id) h = (Persistent.rename tee o id h).1
use_object tee o (reads len) h = (Persistent.read tee o len h).1
use_object tee o (writes buf) h = (Persistent.write tee o buf h).1
use_object tee o (truncates size) h = (Persistent.truncate tee o size h).1
use_object tee o (seeks offset whence) h = (Persistent.seek tee o offset whence h).1

module _ (tee : List Call → Reply) (x : ℕ) where
  pub released-use_object :
      (o : ObjectHandle) (u : Use) (h : List Call)
      → released x (use_object tee o u h) ≡ released x h
  unfolding use_object info restrict_usage ref_attribute value_attribute Transient.reset
      Transient.populate Transient.copy_attribute_from Transient.generate_key Persistent.rename
      Persistent.read Persistent.write Persistent.truncate Persistent.seek
  released-use_object o asks_info h = refl
  released-use_object o _ h = refl

  pub released-obtain : (w : Origin) (h : List Call) → released x (obtain tee w h).1 ≡ released x h
  unfolding obtain Persistent.open_object Persistent.create Transient.allocate
  released-obtain (opens storage id flags) h = refl
  released-obtain _ h = refl

wrap-ne_zero : (r : Result Error ℕ) {o : ObjectHandle} → wrap r ≡ ok o → o.raw ≢ 0
unfolding wrap from_raw
wrap-ne_zero (ok raw) e = ground arith
wrap-ne_zero (err x) e = cc

-- An object that was obtained has a handle that is not null.
pub obtain-ne_zero :
    (tee : List Call → Reply) (w : Origin) (h : List Call) {o : ObjectHandle}
    → (obtain tee w h).0 ≡ ok o
    → o.raw ≢ 0
unfolding obtain Persistent.open_object Persistent.create Transient.allocate
obtain-ne_zero tee (opens storage id flags) h e = ground arith
obtain-ne_zero tee (creates storage id flags initial) h e = ground arith
obtain-ne_zero tee (allocates t size) h e = ground arith
