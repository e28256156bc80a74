-- ===== src/Object/Tests.antt =====
-- Runs of the objects of src/object on a system that answers every call with success.
use optee_utee.Prelude.{ℕ, ◌+◌, ◌≡◌, ◌≢◌, refl, ◌⊎◌, ◌==◌, if◌then◌else◌, List, [], ◌∷◌}
use optee_utee.Codes.{tee_success}
use optee_utee.Error.{Error, ok, err}
use optee_utee.Object.Types.{ObjectStorageConstants, storage_code}
use optee_utee.Object.{
  Call, Reply, ObjectHandle, RawObjectInfo, close_object, close_and_delete_persistent_object,
}
use optee_utee.Object.Persistent
use optee_utee.Object.Released.{released, Origin, obtain, Use}
use optee_utee.Object.Lifetime.{life, End, released-life, Source, given, acquire, whole_life}
use optee_utee.Object.Enumerator

abbrev no_info : RawObjectInfo
no_info = record {
  object_type = 0;
  object_size = 0;
  max_object_size = 0;
  object_usage = 0;
  data_size = 0;
  data_position = 0;
  handle_flags = 0;
}

abbrev willing : List Call → Reply
willing h = record { code = 0; handle = 7; size = 3; value_a = 1; value_b = 2; info = no_info }

-- An object that was created, read and deleted is not closed as well.
life_test :
    life willing
      (Origin.creates ObjectStorageConstants.private (1 ∷ []) 0 [])
      (Use.reads 10 ∷ [])
      End.deletes
      []
    ≡ close_and_delete_persistent_object 7
      ∷ Call.read_object_data 7 10
      ∷ Call.create_persistent_object 1 (1 ∷ []) 0 0 []
      ∷ []
unfolding life obtain Persistent.create optee_utee.Object.Lifetime.finish
    Persistent.close_and_delete optee_utee.Object.Lifetime.uses
    optee_utee.Object.Released.use_object Persistent.read storage_code
life_test = refl

-- The attributes are those of the object 5.
abbrev created : Source
created = Source.with_attributes ObjectStorageConstants.private (1 ∷ []) 0 (record { raw = 5 }) []

released-life_example :
    ((o : ObjectHandle) × ((acquire willing created []).0 ≡ ok o)
      × ((x : ℕ)
          → released x (whole_life willing created (Use.reads 10 ∷ []) End.deletes [])
            ≡ released x [] + given created x + (if o.raw == x then 1 else 0)))
    ⊎ ((e : Error) × ((acquire willing created []).0 ≡ err e)
        × ((x : ℕ)
            → released x (whole_life willing created (Use.reads 10 ∷ []) End.deletes [])
              ≡ released x [] + given created x))
released-life_example = released-life willing created (Use.reads 10 ∷ []) End.deletes []

abbrev listing : List Enumerator.Call → Enumerator.Reply
listing h = record { code = 0; handle = 9; object_id_len = 2; info = no_info }

life-boxes_example :
    (Enumerator.boxes (Enumerator.life listing (Enumerator.Use.starts 1 ∷ []) []) ≡ 0)
    × (((0 ≡ tee_success)
          × ((x : ℕ)
              → Enumerator.freed x (Enumerator.life listing (Enumerator.Use.starts 1 ∷ []) [])
                ≡ 0 + (if 9 == x then 1 else 0)))
        ⊎ ((0 ≢ tee_success)
            × ((x : ℕ)
                → Enumerator.freed x (Enumerator.life listing (Enumerator.Use.starts 1 ∷ []) [])
                  ≡ 0)))
life-boxes_example = Enumerator.life-boxes listing (Enumerator.Use.starts 1 ∷ []) []
