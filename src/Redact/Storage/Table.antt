-- ===== src/Redact/Storage/Table.antt =====
-- redact/storage_runtime.go: the side table, and what RedactStorage writes to it. The side table is a
-- ValueStore over its state S; an error ends an operation with the state it has reached. A receiver
-- that is nil is none.
use kratos_kit.Base.{String, Bool, true, false, Option, none, some, List, if◌then◌else◌}
use kratos_kit.Base.Int.{ℤ, pos, ltb_ℤ}
use kratos_kit.Redact.Policy.{Any, FieldPolicy}
use kratos_kit.Redact.Storage.{
  Bytes, StorageError, StorageProtector, Result, ok, failed, value_not_found, store_missing,
  bad_record, bad_tenant,
}

-- StorageFieldPolicy
pub record StorageFieldPolicy : Type 0 where
  pub id : ℤ
  pub tenant_id : ℤ
  pub table_name : String
  pub column_name : String
  pub rule : FieldPolicy

-- StorageValue; ID is the store's
pub record StorageValue : Type 0 where
  pub tenant_id : ℤ
  pub storage_policy_id : ℤ
  pub record_id : ℤ
  pub ciphertext : String
  pub digest_of : Bytes

-- StorageValueStore: each operation over the state of the table; an error of Save or Delete is none
-- when there is none
pub record ValueStore (S : Type 0) : Type 0 where
  pub find : ℤ → ℤ → ℤ → S → Result StorageValue
  pub list_by_records : ℤ → ℤ → List ℤ → S → Result (List StorageValue)
  pub list_by_digest : ℤ → ℤ → Bytes → S → Result (List StorageValue)
  pub save : StorageValue → S → S × Option StorageError
  pub delete : StorageValue → S → S × Option StorageError

-- EntityFieldAccessor, on entities of a type E. ValueOf gives the value and whether
-- it is zero; Set gives the entity it leaves, with an error or none.
pub record FieldAccessor (E : Type 0) : Type 0 where
  pub value_of : E → String → Result (Any × Bool)
  pub set_column : E → String → Any → E × Option StorageError

-- RedactStorage; the policy resolver is ListStoragePolicies
pub record RedactStorage (S E : Type 0) : Type 0 where
  pub value_store : Option (ValueStore S)
  pub policy_resolver : Option (ℤ → String → List StorageFieldPolicy)
  pub protector : Option StorageProtector
  pub field_accessor : Option (FieldAccessor E)

-- What an error leaves: errors.Is(err, ErrStorageValueNotFound)
abbrev pub is_not_found : StorageError → Bool
is_not_found value_not_found = true
is_not_found e = false

abbrev pub is_positive : ℤ → Bool
is_positive n = ltb_ℤ (pos 0) n

abbrev pub is_negative : ℤ → Bool
is_negative n = ltb_ℤ n (pos 0)

module _ {S : Type 0} where
  abbrev save_in : Option (ValueStore S) → StorageValue → ℤ → S → S × Option StorageError
  save_in none value record_id table = (table, some store_missing)
  save_in (some store) value record_id table =
      if is_positive record_id
      then store.save (record value { record_id = record_id }) table
      else (table, some bad_record)

  abbrev delete_found : ValueStore S → Result StorageValue → S → S × Option StorageError
  delete_found store (ok value) table = store.delete value table
  delete_found store (failed e) table = if is_not_found e then (table, none) else (table, some e)

  abbrev delete_in : Option (ValueStore S) → ℤ → ℤ → ℤ → S → S × Option StorageError
  delete_in none tenant_id policy_id record_id table = (table, some store_missing)
  delete_in (some store) tenant_id policy_id record_id table =
      if is_negative tenant_id
      then (table, some bad_tenant)
      else delete_found store (store.find tenant_id policy_id record_id table) table

module _ {S E : Type 0} where
  -- SavePrepared; value == nil is none
  unfoldable pub save_prepared :
      Option (RedactStorage S E) → Option StorageValue → ℤ → S → S × Option StorageError
  save_prepared s none record_id table = (table, none)
  save_prepared none (some value) record_id table = (table, some store_missing)
  save_prepared (some s) (some value) record_id table = save_in s.value_store value record_id table

  -- DeletePrepared
  unfoldable pub delete_prepared :
      Option (RedactStorage S E) → ℤ → ℤ → ℤ → S → S × Option StorageError
  delete_prepared none tenant_id policy_id record_id table = (table, some store_missing)
  delete_prepared (some s) tenant_id policy_id record_id table =
      delete_in s.value_store tenant_id policy_id record_id table
