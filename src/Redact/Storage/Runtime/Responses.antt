-- ===== src/Redact/Storage/Runtime/Responses.antt =====
-- redact/storage_runtime.go: RestoreEntities. An error leaves the entities as far as they have been
-- written.
use kratos_kit.Base.{Bool, ◌&&◌, not, Option, none, some, List, [], ◌∷◌, String, if◌then◌else◌}
use kratos_kit.Base.Int.{ℤ}
use kratos_kit.Redact.Policy.{string}
use kratos_kit.Redact.Storage.{
  Library, StorageError, StorageProtector, Result, ok, failed, decrypt, store_missing, bad_tenant,
  accessor_missing,
}
use kratos_kit.Redact.Storage.Table.{
  StorageFieldPolicy, StorageValue, ValueStore, FieldAccessor, RedactStorage, is_positive,
  is_negative,
}
use kratos_kit.Redact.Storage.Runtime.{storage_associated_data}
use kratos_kit.Redact.Storage.Runtime.Entities.{put_at, value_at}

-- ResponseEntity
pub record ResponseEntity (E : Type 0) : Type 0 where
  pub tenant_id : ℤ
  pub record_id : ℤ
  pub entity : E

-- Set on an entity, then the rest of the list, where there is no error
module _ {E : Type 0} where
  abbrev set_entity :
      ResponseEntity E → E × Option StorageError → ResponseEntity E × Option StorageError
  set_entity r (e, o) = (record r { entity = e }, o)

  abbrev keep_on :
      ResponseEntity E × Option StorageError
      → List (ResponseEntity E)
      → List (ResponseEntity E) × Option StorageError
      → List (ResponseEntity E) × Option StorageError
  keep_on (r, none) rs (done, o) = (r ∷ done, o)
  keep_on (r, some err) rs rest = (r ∷ rs, some err)

  abbrev set_plain :
      FieldAccessor E
      → String
      → ResponseEntity E
      → Result String
      → ResponseEntity E × Option StorageError
  set_plain acc column r (failed err) = (r, some err)
  set_plain acc column r (ok text) = set_entity r (acc.set_column r.entity column (string text))

  abbrev restore_entity :
      Library
      → FieldAccessor E
      → StorageProtector
      → StorageFieldPolicy
      → ResponseEntity E
      → Option StorageValue
      → ResponseEntity E × Option StorageError
  restore_entity lib acc protector p r none = (r, none)
  restore_entity lib acc protector p r (some v) =
      set_plain acc p.column_name r
        (decrypt lib (some protector) v.ciphertext (storage_associated_data lib p.tenant_id p.id))

  -- The loop over the entities, with the values of one policy by record
  unfoldable pub restore_column :
      Library
      → FieldAccessor E
      → StorageProtector
      → StorageFieldPolicy
      → List (ℤ × StorageValue)
      → List (ResponseEntity E)
      → List (ResponseEntity E) × Option StorageError
  restore_column lib acc protector p by_record [] = ([], none)
  restore_column lib acc protector p by_record (r ∷ rs) =
      keep_on (restore_entity lib acc protector p r (value_at r.record_id by_record)) rs
        (restore_column lib acc protector p by_record rs)

unfoldable pub values_by_record :
    List StorageValue → List (ℤ × StorageValue) → List (ℤ × StorageValue)
values_by_record [] m = m
values_by_record (v ∷ vs) m = values_by_record vs (put_at v.record_id v m)

module _ {E : Type 0} where
  unfoldable pub record_ids : (E → Bool) → List (ResponseEntity E) → List ℤ
  record_ids is_nil [] = []
  record_ids is_nil (r ∷ rs) =
      let rest = record_ids is_nil rs in
      if not (is_nil r.entity) && is_positive r.record_id then r.record_id ∷ rest else rest

  -- The loop over the policies
  abbrev goes_on :
      List (ResponseEntity E) × Option StorageError
      → (List (ResponseEntity E) → List (ResponseEntity E) × Option StorageError)
      → List (ResponseEntity E) × Option StorageError
  goes_on (rs, none) f = f rs
  goes_on (rs, some err) f = (rs, some err)

  abbrev restore_listed :
      Library
      → FieldAccessor E
      → StorageProtector
      → StorageFieldPolicy
      → List (ResponseEntity E)
      → Result (List StorageValue)
      → List (ResponseEntity E) × Option StorageError
  restore_listed lib acc protector p rs (failed err) = (rs, some err)
  restore_listed lib acc protector p rs (ok values) =
      restore_column lib acc protector p (values_by_record values []) rs

module _ (lib : Library) {S E : Type 0} where
  abbrev restore_policy :
      ValueStore S
      → FieldAccessor E
      → StorageProtector
      → List ℤ
      → S
      → StorageFieldPolicy
      → List (ResponseEntity E)
      → List (ResponseEntity E) × Option StorageError
  restore_policy store acc protector ids table p rs =
      if is_negative p.tenant_id
      then (rs, some bad_tenant)
      else restore_listed lib acc protector p rs (store.list_by_records p.tenant_id p.id ids table)

  unfoldable pub restore_policies :
      ValueStore S
      → FieldAccessor E
      → StorageProtector
      → List ℤ
      → S
      → List StorageFieldPolicy
      → List (ResponseEntity E)
      → List (ResponseEntity E) × Option StorageError
  restore_policies store acc protector ids table [] rs = (rs, none)
  restore_policies store acc protector ids table (p ∷ ps) rs =
      goes_on (restore_policy store acc protector ids table p rs)
        (λ rs. restore_policies store acc protector ids table ps rs)

  abbrev restore_with :
      (E → Bool)
      → Option (ValueStore S)
      → Option StorageProtector
      → Option (FieldAccessor E)
      → List StorageFieldPolicy
      → List (ResponseEntity E)
      → S
      → List (ResponseEntity E) × Option StorageError
  restore_with is_nil none protector acc ps rs table = (rs, some store_missing)
  restore_with is_nil (some store) none acc ps rs table = (rs, some store_missing)
  restore_with is_nil (some store) (some protector) none ps rs table = (rs, some accessor_missing)
  restore_with is_nil (some store) (some protector) (some acc) ps rs table =
      restore_policies store acc protector (record_ids is_nil rs) table ps rs

  -- RestoreEntities
  unfoldable pub restore_entities :
      (E → Bool)
      → Option (RedactStorage S E)
      → List StorageFieldPolicy
      → List (ResponseEntity E)
      → S
      → List (ResponseEntity E) × Option StorageError
  restore_entities is_nil none ps rs table = (rs, none)
  restore_entities is_nil (some s) [] rs table = (rs, none)
  restore_entities is_nil (some s) (p ∷ ps) [] table = ([], none)
  restore_entities is_nil (some s) (p ∷ ps) (r ∷ rs) table =
      restore_with is_nil s.value_store s.protector s.field_accessor (p ∷ ps) (r ∷ rs) table
