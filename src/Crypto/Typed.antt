-- ===== src/Crypto/Typed.antt =====
-- src/crypto_op.rs: what the types of operations pass on to the handle that they hold. Reading the
-- handle through the null pointer has no behaviour, `none`.
pub mod Symmetric
pub mod Keyed
use optee_utee.Prelude.{ℕ, Option, none, some, List}
use optee_utee.Error.{Error, Result, ok, err}
use optee_utee.Crypto.{OperationHandle, null, boxed}
use optee_utee.Crypto

-- `OperationHandle::handle`, which reads through the pointer.
unfoldable pub handle : OperationHandle → Option ℕ
handle null = none
handle (boxed op) = some op

abbrev pub on_handle : {A : Type 0} → OperationHandle → (ℕ → A) → Option A
on_handle null f = none
on_handle (boxed op) f = some (f op)

-- A new value around the handle, or the error.
abbrev pub around :
    {A : Type 0}
    → (OperationHandle → A)
    → Result Error OperationHandle × List Crypto.Call
    → Result Error A × List Crypto.Call
around f (ok op, h) = (ok (f op), h)
around f (err e, h) = (err e, h)

-- Each type is a struct with the handle in it.
pub record Digest : Type 0 where
  pub op : OperationHandle

pub record Cipher : Type 0 where
  pub op : OperationHandle

pub record Mac : Type 0 where
  pub op : OperationHandle

pub record Ae : Type 0 where
  pub op : OperationHandle

pub record Asymmetric : Type 0 where
  pub op : OperationHandle

pub record DeriveKey : Type 0 where
  pub op : OperationHandle

unfoldable pub digest_null : Digest
digest_null = record { op = null }

unfoldable pub cipher_null : Cipher
cipher_null = record { op = null }

unfoldable pub mac_null : Mac
mac_null = record { op = null }

unfoldable pub ae_null : Ae
ae_null = record { op = null }

unfoldable pub asymmetric_null : Asymmetric
asymmetric_null = record { op = null }

unfoldable pub derive_key_null : DeriveKey
derive_key_null = record { op = null }
