-- ===== src/Redact/Storage/Runtime.antt =====
-- redact/storage_runtime.go: RedactStorage on one field: PrepareString, RestoreString and
-- FindRecordIDsByDigest.
pub mod Entities
pub mod Responses
pub mod Written
mod Tests
use kratos_kit.Base.{
  ℕ, String, ◌<>◌, Bool, true, false, ◌||◌, not, Option, none, some, List, map, ◌==◌, if◌then◌else◌,
}
use kratos_kit.Base.Int.{ℤ, pos}
use kratos_kit.Redact.Policy.{
  Any, PolicyMode, apply, nil, bool, int32, int64, enum_number, uint32, uint64, float32, float64,
  string, bytes, apply_rule, hide, full, unknown,
}
use kratos_kit.Redact.Storage.{
  Bytes, Library, StorageProtector, Result, ok, failed, ◌>>=◌, encrypt, decrypt, digest,
  protector_missing, bad_policy, bad_rule, rule_not_string, store_missing, bad_tenant,
}
use kratos_kit.Redact.Storage.Table.{
  StorageFieldPolicy, StorageValue, ValueStore, RedactStorage, is_not_found, is_positive,
  is_negative,
}

abbrev pub has_rule : PolicyMode → Option (Any → Any) → Bool
has_rule apply_rule (some f) = true
has_rule apply_rule none = false
has_rule hide f = false
has_rule full f = false
has_rule unknown f = false

abbrev pub is_invalid : StorageFieldPolicy → Bool
is_invalid p =
    not (is_positive p.id)
    || is_negative p.tenant_id
    || (p.table_name == "")
    || (p.column_name == "")

module _ (lib : Library) where
  -- storageAssociatedData and storageDigestData
  abbrev pub storage_associated_data : ℤ → ℤ → String
  storage_associated_data tenant_id policy_id =
      "tenant\0" <> (lib.format_int tenant_id <> ("\0storage-policy\0" <> lib.format_int policy_id))

  abbrev pub storage_digest_data : ℤ → ℤ → String
  storage_digest_data tenant_id policy_id =
      "tenant\0"
      <> (lib.format_int tenant_id <> ("\0storage-policy-digest\0" <> lib.format_int policy_id))

  abbrev pub as_string : Any → Result String
  as_string (string s) = ok s
  as_string nil = failed rule_not_string
  as_string (bool b) = failed rule_not_string
  as_string (int32 n) = failed rule_not_string
  as_string (int64 n) = failed rule_not_string
  as_string (enum_number n) = failed rule_not_string
  as_string (uint32 n) = failed rule_not_string
  as_string (uint64 n) = failed rule_not_string
  as_string (float32 n) = failed rule_not_string
  as_string (float64 n) = failed rule_not_string
  as_string (bytes b) = failed rule_not_string

  abbrev pub side_value : StorageFieldPolicy → String → Bytes → StorageValue
  side_value p ciphertext d = record {
    tenant_id = p.tenant_id;
    storage_policy_id = p.id;
    record_id = pos 0;
    ciphertext = ciphertext;
    digest_of = d;
  }

  -- What is stored for a text with this mask
  abbrev pub protected :
      Option Bytes
      → Option StorageProtector
      → StorageFieldPolicy
      → String
      → String
      → Result (String × Option StorageValue)
  protected random protector p value masked =
      if masked == value
      then ok (value, none)
      else (encrypt lib random protector value (storage_associated_data p.tenant_id p.id)
          >>= λ ciphertext.
              digest lib protector value (storage_digest_data p.tenant_id p.id) >>= λ d.
              ok (masked, some (side_value p ciphertext d)))

  abbrev pub masked_with :
      Option Bytes
      → Option StorageProtector
      → StorageFieldPolicy
      → String
      → Result (String × Option StorageValue)
  masked_with random none p value = failed protector_missing
  masked_with random (some protector) p value =
      as_string (apply p.rule (string value)) >>= protected random (some protector) p value

  abbrev pub restored :
      Option StorageProtector
      → StorageFieldPolicy
      → String
      → Result StorageValue
      → Result (String × Bool)
  restored protector p stored (ok value) =
      decrypt lib protector value.ciphertext (storage_associated_data p.tenant_id p.id) >>= λ text.
      ok (text, true)
  restored protector p stored (failed e) = if is_not_found e then ok (stored, false) else failed e

  module _ {S : Type 0} where
    abbrev pub restore_in :
        Option (ValueStore S)
        → Option StorageProtector
        → StorageFieldPolicy
        → ℤ
        → String
        → S
        → Result (String × Bool)
    restore_in none protector p record_id stored table = ok (stored, false)
    restore_in (some store) none p record_id stored table = ok (stored, false)
    restore_in (some store) (some protector) p record_id stored table =
        if is_negative p.tenant_id || not (is_positive record_id)
        then ok (stored, false)
        else restored (some protector) p stored (store.find p.tenant_id p.id record_id table)

    abbrev find_in :
        Option (ValueStore S)
        → Option StorageProtector
        → StorageFieldPolicy
        → String
        → S
        → Result (List ℤ)
    find_in none protector p plain table = failed store_missing
    find_in (some store) none p plain table = failed protector_missing
    find_in (some store) (some protector) p plain table =
        if is_negative p.tenant_id
        then failed bad_tenant
        else (digest lib (some protector) plain (storage_digest_data p.tenant_id p.id) >>= λ d.
            store.list_by_digest p.tenant_id p.id d table >>= λ values.
            ok (map (λ (v : StorageValue). v.record_id) values))

  module _ {S E : Type 0} where
    -- PrepareString
    unfoldable pub prepare_string :
        Option Bytes
        → Option (RedactStorage S E)
        → StorageFieldPolicy
        → String
        → Result (String × Option StorageValue)
    prepare_string random none p value = ok (value, none)
    prepare_string random (some s) p value =
        if value == ""
        then ok (value, none)
        else if is_invalid p
        then failed bad_policy
        else if has_rule p.rule.mode p.rule.transform
        then masked_with random s.protector p value
        else failed bad_rule

    -- RestoreString
    unfoldable pub restore_string :
        Option (RedactStorage S E) → StorageFieldPolicy → ℤ → String → S → Result (String × Bool)
    restore_string none p record_id stored table = ok (stored, false)
    restore_string (some s) p record_id stored table =
        restore_in s.value_store s.protector p record_id stored table

    -- FindRecordIDsByDigest
    unfoldable pub find_record_ids_by_digest :
        Option (RedactStorage S E) → StorageFieldPolicy → String → S → Result (List ℤ)
    find_record_ids_by_digest none p plain table = failed store_missing
    find_record_ids_by_digest (some s) p plain table =
        find_in s.value_store s.protector p plain table
