-- ===== src/Redact/Storage/Restore.antt =====
-- redact/storage_runtime.go: what comes back of a field that was prepared and saved.
use kratos_kit.Base.{
  ◌≡◌, refl, sym, ap, ◌∙◌, String, ◌<>◌, true, false, Option, none, some, List, ◌∷◌, ◌++◌, map,
  ◌==◌,
}
use mathlib.Core.List.{map-append}
use kratos_kit.Base.Int.{ℤ}
use kratos_kit.Redact.Policy.{string, apply}
use kratos_kit.Redact.Storage.{Bytes, Library, StorageProtector, ok, decrypt, digest, digest_key_of}
use kratos_kit.Redact.Storage.Seal.{Seals, decrypt-encrypt}
use kratos_kit.Redact.Storage.Table.{
  StorageFieldPolicy, StorageValue, ValueStore, RedactStorage, is_positive, is_negative,
  save_prepared,
}
use kratos_kit.Redact.Storage.Runtime.{
  is_invalid, has_rule, storage_associated_data, storage_digest_data, side_value, prepare_string,
  restore_string, find_record_ids_by_digest,
}

-- A policy that PrepareString takes
pub record IsUsable (p : StorageFieldPolicy) : Type 0 where
  pub valid : is_invalid p ≡ false
  pub tenant : is_negative p.tenant_id ≡ false
  pub ruled : has_rule p.rule.mode p.rule.transform ≡ true

-- A RedactStorage with its table and its protector, which has a key for digests
pub record IsSetUp {S E : Type 0} (s : RedactStorage S E) : Type 0 where
  pub store : ValueStore S
  pub protector : StorageProtector
  pub digest_key : Bytes
  pub has_store : s.value_store ≡ some store
  pub has_protector : s.protector ≡ some protector
  pub has_key : digest_key_of (some protector) ≡ ok digest_key

-- What the table promises: a value that was saved without an error is found again, and listed under
-- its digest.
pub record IsTable {S : Type 0} (store : ValueStore S) : Type 0 where
  pub finds :
      (v : StorageValue) (t : S)
      → (store.save v t).1 ≡ none
      → store.find v.tenant_id v.storage_policy_id v.record_id (store.save v t).0 ≡ ok v
  pub lists :
      (v : StorageValue) (t : S)
      → (store.save v t).1 ≡ none
      → (front : List StorageValue) × ((back : List StorageValue) × (store.list_by_digest
              v.tenant_id v.storage_policy_id v.digest_of
              (store.save v t).0
            ≡ ok (front ++ (v ∷ back))))

module _ {S E : Type 0} (s : RedactStorage S E) where
  saved_in :
      (v : StorageValue) (record_id : ℤ) (table : S) (set : IsSetUp s)
      → is_positive record_id ≡ true
      → save_prepared (some s) (some v) record_id table
        ≡ set.store.save (record v { record_id = record_id }) table
  unfolding save_prepared
  saved_in v record_id table set positive = rw (set.has_store, positive)

module _ (lib : Library) {S E : Type 0} (random : Option Bytes) (s : RedactStorage S E)
    (p : StorageFieldPolicy) where
  -- What PrepareString returns for a text that the rule changes
  prepare_string-masked :
      (value masked : String) (set : IsSetUp s)
      → IsUsable p
      → Seals lib random (some set.protector)
      → (value == "") ≡ false
      → (masked == value) ≡ false
      → apply p.rule (string value) ≡ string masked
      → (v : StorageValue) × ((prepare_string lib random (some s) p value ≡ ok (masked, some v))
          × ((decrypt lib
                  (some set.protector)
                  v.ciphertext
                  (storage_associated_data lib p.tenant_id p.id)
                ≡ ok value)
              × ((v.tenant_id ≡ p.tenant_id)
                  × ((v.storage_policy_id ≡ p.id)
                      × (digest lib
                            (some set.protector)
                            value
                            (storage_digest_data lib p.tenant_id p.id)
                          ≡ ok v.digest_of)))))
  unfolding prepare_string
  prepare_string-masked value masked set usable seals ne changed by_rule =
      let (text, (sealed, opened)) =
        decrypt-encrypt lib random (some set.protector) value
          (storage_associated_data lib p.tenant_id p.id) seals in
      let d =
        lib.hmac_sha256 set.digest_key
          (storage_digest_data lib p.tenant_id p.id <> ("\0" <> value)) in
      (
        side_value lib p text d,
        (
          rw (
            ne, usable.valid, usable.ruled, set.has_protector, by_rule, changed, sealed,
            set.has_key,
          ),
          (opened, (refl, (refl, rw set.has_key))),
        ),
      )

  restore_string-found :
      (w : StorageValue) (value masked : String) (record_id : ℤ) (table : S) (set : IsSetUp s)
      → IsUsable p
      → is_positive record_id ≡ true
      → set.store.find p.tenant_id p.id record_id table ≡ ok w
      → decrypt lib (some set.protector) w.ciphertext (storage_associated_data lib p.tenant_id p.id)
        ≡ ok value
      → restore_string lib (some s) p record_id masked table ≡ ok (value, true)
  unfolding restore_string
  restore_string-found w value masked record_id table set usable positive found opened =
      rw (set.has_store, set.has_protector, usable.tenant, positive, found, opened)

  find_record_ids-listed :
      (w : StorageValue) (value : String) (front back : List StorageValue) (table : S)
      (set : IsSetUp s)
      → IsUsable p
      → digest lib (some set.protector) value (storage_digest_data lib p.tenant_id p.id)
        ≡ ok w.digest_of
      → set.store.list_by_digest p.tenant_id p.id w.digest_of table ≡ ok (front ++ (w ∷ back))
      → find_record_ids_by_digest lib (some s) p value table
        ≡ ok (
            map (λ (v : StorageValue). v.record_id) front
            ++ (w.record_id ∷ map (λ (v : StorageValue). v.record_id) back))
  unfolding find_record_ids_by_digest
  find_record_ids-listed w value front back table set usable digested listed =
      rw (set.has_store, set.has_protector, usable.tenant, digested, listed, map-append)

  -- What the table promises of a value, at the keys of the policy
  found_at :
      (w : StorageValue) (tenant_id policy_id : ℤ) (store : ValueStore S) (table saved_table : S)
      → w.tenant_id ≡ tenant_id
      → w.storage_policy_id ≡ policy_id
      → (store.save w table).0 ≡ saved_table
      → (store.save w table).1 ≡ none
      → IsTable store
      → (store.find tenant_id policy_id w.record_id saved_table ≡ ok w)
        × ((front : List StorageValue) × ((back : List StorageValue) × (store.list_by_digest
                  tenant_id policy_id w.digest_of saved_table
                ≡ ok (front ++ (w ∷ back)))))
  found_at w tenant_id policy_id store table saved_table tenant policy after done is_table =
      rw (← tenant, ← policy, ← after) (is_table.finds w table done, is_table.lists w table done)

  -- Under a valid policy with a rule, with a protector that can seal and a table that saves what it is
  -- given and finds it again: a text that is not empty and that the rule changes is stored as the rule
  -- makes it, and once the side value that PrepareString gives is saved for a record, RestoreString gives
  -- the text back, and the record is among those that FindRecordIDsByDigest finds for it.
  pub restore_string-saved :
      (value masked : String) (record_id : ℤ) (table : S) (set : IsSetUp s)
      → IsUsable p
      → Seals lib random (some set.protector)
      → IsTable set.store
      → (value == "") ≡ false
      → (masked == value) ≡ false
      → apply p.rule (string value) ≡ string masked
      → is_positive record_id ≡ true
      → ((v : StorageValue) → (save_prepared (some s) (some v) record_id table).1 ≡ none)
      → (v : StorageValue) × ((prepare_string lib random (some s) p value ≡ ok (masked, some v))
          × ((restore_string lib
                  (some s)
                  p
                  record_id
                  masked
                  (save_prepared (some s) (some v) record_id table).0
                ≡ ok (value, true))
              × ((front : List ℤ) × ((back : List ℤ) × (find_record_ids_by_digest lib
                        (some s)
                        p
                        value
                        (save_prepared (some s) (some v) record_id table).0
                      ≡ ok (front ++ (record_id ∷ back)))))))
  restore_string-saved value masked record_id table set usable seals is_table ne changed by_rule
        positive saves =
      let (v, (prepared, (opened, (tenant, (policy, digested))))) =
        prepare_string-masked value masked set usable seals ne changed by_rule in
      let w = record v { record_id = record_id } in
      let save = saved_in s v record_id table set positive in
      (
        v,
        (
          prepared,
          let done : (set.store.save w table).1 ≡ none = ap (λ r. r.1) (sym save) ∙ saves v in
              let (found, (front, (back, listed))) =
                found_at w p.tenant_id p.id set.store table _ tenant policy
                  (ap (λ r. r.0) (sym save)) done is_table in
              (
                restore_string-found w value masked record_id _ set usable positive found opened,
                (
                  map (λ (v : StorageValue). v.record_id) front,
                  (
                    map (λ (v : StorageValue). v.record_id) back,
                    find_record_ids-listed w value front back _ set usable digested listed,
                  ),
                ),
              ),
        ),
      )
