-- ===== src/Object/Attributes.antt =====
-- src/object/attribute.rs: attributes that are passed to an object. Building one is a call of the
-- system, which is a parameter; a buffer is its address and its length.
use optee_utee.Prelude.{ℕ}
use optee_utee.Object.Types.{AttributeId, attribute_code}

-- `TEE_Attribute`, with the member of the union that was written.
pub data Content : Type 0 where
  memref value : ℕ → ℕ → Content

pub record RawAttribute : Type 0 where
  pub attribute_id : ℕ
  pub content : Content

pub record Attribute : Type 0 where
  pub raw : RawAttribute

pub record AttributeMemref : Type 0 where
  pub raw : RawAttribute

pub record AttributeValue : Type 0 where
  pub raw : RawAttribute

unfoldable pub from_memref : AttributeMemref → Attribute
from_memref attr = record { raw = attr.raw }

unfoldable pub from_attribute_value : AttributeValue → Attribute
from_attribute_value attr = record { raw = attr.raw }

unfoldable pub new_ref : AttributeMemref
new_ref = record { raw = record { attribute_id = 0; content = memref 0 0 } }

unfoldable pub new_value : AttributeValue
new_value = record { raw = record { attribute_id = 0; content = value 0 0 } }

-- `TEE_InitRefAttribute` and `TEE_InitValueAttribute`: what they make of the attribute.
pub record Initializers : Type 0 where
  pub init_ref : RawAttribute → ℕ → ℕ → ℕ → RawAttribute
  pub init_value : RawAttribute → ℕ → ℕ → ℕ → RawAttribute

module _ (tee : Initializers) where
  unfoldable pub from_ref : AttributeId → ℕ → ℕ → AttributeMemref
  unfolding new_ref
  from_ref id buffer len = record { raw = tee.init_ref new_ref.raw (attribute_code id) buffer len }

  unfoldable pub from_value : AttributeId → ℕ → ℕ → AttributeValue
  unfolding new_value
  from_value id a b = record { raw = tee.init_value new_value.raw (attribute_code id) a b }
