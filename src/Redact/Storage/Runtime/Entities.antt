-- ===== src/Redact/Storage/Runtime/Entities.antt =====
-- redact/storage_runtime.go: RedactStorage on whole entities, field by field. A Go map of values by
-- policy is an association list in the order of its first writes.
use kratos_kit.Base.{
  ℕ, String, Bool, true, false, Option, none, some, List, [], ◌∷◌, length, if◌then◌else◌,
}
use kratos_kit.Base.Int.{ℤ, eq_ℤ}
use kratos_kit.Redact.Policy.{
  Any, nil, bool, int32, int64, enum_number, uint32, uint64, float32, float64, string, bytes,
}
use kratos_kit.Redact.Storage.{
  Bytes, Library, StorageError, Result, ok, failed, bad_tenant, accessor_missing, field_not_string,
}
use kratos_kit.Redact.Storage.Table.{
  StorageFieldPolicy, StorageValue, FieldAccessor, RedactStorage, is_negative, save_prepared,
}
use kratos_kit.Redact.Storage.Runtime.{prepare_string}

-- m[k] = v and m[k] for the key of a policy or a record
unfoldable pub put_at {ℓ} : {V : Type ℓ} → ℤ → V → List (ℤ × V) → List (ℤ × V)
put_at k v [] = (k, v) ∷ []
put_at k v ((j, w) ∷ m) = let rest = put_at k v m in if eq_ℤ j k then (j, v) ∷ m else (j, w) ∷ rest

unfoldable pub value_at {ℓ} : {V : Type ℓ} → ℤ → List (ℤ × V) → Option V
value_at k [] = none
value_at k ((j, w) ∷ m) = let rest = value_at k m in if eq_ℤ j k then some w else rest

abbrev pub put_some : ℤ → Option StorageValue → List (ℤ × StorageValue) → List (ℤ × StorageValue)
put_some k none m = m
put_some k (some v) m = put_at k v m

module _ {E : Type 0} where
  -- What a step on an entity comes to: go on with what it gives, or stop
  abbrev pub and_then : {A B : Type 0} → E × Result A → (A → E → E × Result B) → E × Result B
  and_then (e, ok x) f = f x e
  and_then (e, failed x) f = (e, failed x)

  abbrev pub with_error : {A : Type 0} → A → E × Option StorageError → E × Result A
  with_error x (e, none) = (e, ok x)
  with_error x (e, some err) = (e, failed err)

  abbrev pub write_field :
      FieldAccessor E
      → String
      → E
      → Result (String × Option StorageValue)
      → E × Result (Option StorageValue)
  write_field acc column e (failed err) = (e, failed err)
  write_field acc column e (ok (stored, v)) = with_error v (acc.set_column e column (string stored))

module _ (lib : Library) {S E : Type 0} where
  abbrev pub prepare_value :
      FieldAccessor E
      → Option Bytes
      → RedactStorage S E
      → StorageFieldPolicy
      → E
      → Result (Any × Bool)
      → E × Result (Option StorageValue)
  prepare_value acc random s p e (failed err) = (e, failed err)
  prepare_value acc random s p e (ok (value, true)) = (e, ok none)
  prepare_value acc random s p e (ok (nil, false)) = (e, ok none)
  prepare_value acc random s p e (ok (string text, false)) =
      write_field acc p.column_name e (prepare_string lib random (some s) p text)
  prepare_value acc random s p e (ok (bool b, false)) = (e, failed field_not_string)
  prepare_value acc random s p e (ok (int32 n, false)) = (e, failed field_not_string)
  prepare_value acc random s p e (ok (int64 n, false)) = (e, failed field_not_string)
  prepare_value acc random s p e (ok (enum_number n, false)) = (e, failed field_not_string)
  prepare_value acc random s p e (ok (uint32 n, false)) = (e, failed field_not_string)
  prepare_value acc random s p e (ok (uint64 n, false)) = (e, failed field_not_string)
  prepare_value acc random s p e (ok (float32 n, false)) = (e, failed field_not_string)
  prepare_value acc random s p e (ok (float64 n, false)) = (e, failed field_not_string)
  prepare_value acc random s p e (ok (bytes b, false)) = (e, failed field_not_string)

  -- The loop of PrepareEntityWithPolicies; the k-th policy from the end draws the k-th nonce
  unfoldable pub prepare_fields :
      FieldAccessor E
      → (ℕ → Option Bytes)
      → RedactStorage S E
      → List StorageFieldPolicy
      → List (ℤ × StorageValue)
      → E
      → E × Result (List (ℤ × StorageValue))
  prepare_fields acc random s [] prepared e = (e, ok prepared)
  prepare_fields acc random s (p ∷ ps) prepared e =
      and_then (prepare_value acc (random (length ps)) s p e (acc.value_of e p.column_name))
        (λ v e. prepare_fields acc random s ps (put_some p.id v prepared) e)

  abbrev pub prepare_with :
      Option (FieldAccessor E)
      → (ℕ → Option Bytes)
      → RedactStorage S E
      → E
      → List StorageFieldPolicy
      → E × Result (List (ℤ × StorageValue))
  prepare_with acc random s e [] = (e, ok [])
  prepare_with none random s e (p ∷ ps) = (e, failed accessor_missing)
  prepare_with (some acc) random s e (p ∷ ps) = prepare_fields acc random s (p ∷ ps) [] e

  -- PrepareEntityWithPolicies; a nil map is an empty one
  unfoldable pub prepare_entity_with_policies :
      (E → Bool)
      → (ℕ → Option Bytes)
      → Option (RedactStorage S E)
      → E
      → List StorageFieldPolicy
      → E × Result (List (ℤ × StorageValue))
  prepare_entity_with_policies is_nil random none e ps = (e, ok [])
  prepare_entity_with_policies is_nil random (some s) e ps =
      if is_nil e then (e, ok []) else prepare_with s.field_accessor random s e ps

  abbrev prepare_resolved :
      (E → Bool)
      → (ℕ → Option Bytes)
      → RedactStorage S E
      → ℤ
      → String
      → E
      → Option (ℤ → String → List StorageFieldPolicy)
      → E × Result (List (ℤ × StorageValue))
  prepare_resolved is_nil random s tenant_id table_name e none = (e, ok [])
  prepare_resolved is_nil random s tenant_id table_name e (some list) =
      if is_nil e
      then (e, ok [])
      else if is_negative tenant_id
      then (e, failed bad_tenant)
      else prepare_entity_with_policies is_nil random (some s) e (list tenant_id table_name)

  -- PrepareEntity
  abbrev pub prepare_entity :
      (E → Bool)
      → (ℕ → Option Bytes)
      → Option (RedactStorage S E)
      → ℤ
      → String
      → E
      → E × Result (List (ℤ × StorageValue))
  prepare_entity is_nil random none tenant_id table_name e = (e, ok [])
  prepare_entity is_nil random (some s) tenant_id table_name e =
      prepare_resolved is_nil random s tenant_id table_name e s.policy_resolver

module _ {S : Type 0} where
  abbrev save_rest :
      S × Option StorageError → (S → S × Option StorageError) → S × Option StorageError
  save_rest (t, none) f = f t
  save_rest (t, some e) f = (t, some e)

module _ {S E : Type 0} where
  -- SavePreparedValues
  unfoldable pub save_prepared_values :
      Option (RedactStorage S E) → List (ℤ × StorageValue) → ℤ → S → S × Option StorageError
  save_prepared_values s [] record_id table = (table, none)
  save_prepared_values s ((k, v) ∷ vs) record_id table =
      save_rest (save_prepared s (some v) record_id table)
        (λ t. save_prepared_values s vs record_id t)
