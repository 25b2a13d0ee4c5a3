-- ===== src/Redact/Storage/Runtime/Tests.antt =====
-- redact/storage_runtime.go: an entity whose fields are texts by their columns.
use kratos_kit.Base.{
  ◌≡◌, refl, sym, ap, ◌∙◌, String, false, Option, none, some, List, [], ◌∷◌, ◌==◌, eq_refl,
  if◌then◌else◌,
}
use kratos_kit.Base.Int.{pos}
use kratos_kit.Base.Text.{chars, of_chars}
use kratos_kit.Redact.Text.{mask_with_min}
use kratos_kit.Redact.Policy.{
  Any, apply, apply_rule, nil, bool, int32, int64, enum_number, uint32, uint64, float32, float64,
  string, bytes,
}
use kratos_kit.Redact.Rules.{mask_rule}
use kratos_kit.Redact.Storage.{Library, StorageProtector, StorageError, ok, field_failed}
use kratos_kit.Redact.Storage.Table.{StorageFieldPolicy, StorageValue, FieldAccessor, RedactStorage}
use kratos_kit.Redact.Storage.Runtime.{prepare_string}
use kratos_kit.Redact.Storage.Runtime.Entities.{prepare_fields, prepare_entity_with_policies}
use kratos_kit.Redact.Storage.Runtime.Written.{IsAccessor, prepare_entity_with_policies-by_rule}

abbrev Entity : Type 0
Entity = String → String

abbrev put_text : Entity → String → Any → Entity × Option StorageError
put_text e c (string t) = ((λ d. if c == d then t else e d), none)
put_text e c nil = (e, some (field_failed c))
put_text e c (bool b) = (e, some (field_failed c))
put_text e c (int32 b) = (e, some (field_failed c))
put_text e c (int64 b) = (e, some (field_failed c))
put_text e c (enum_number b) = (e, some (field_failed c))
put_text e c (uint32 b) = (e, some (field_failed c))
put_text e c (uint64 b) = (e, some (field_failed c))
put_text e c (float32 b) = (e, some (field_failed c))
put_text e c (float64 b) = (e, some (field_failed c))
put_text e c (bytes b) = (e, some (field_failed c))

abbrev texts : FieldAccessor Entity
texts = record {
  value_of = λ e c. ok (string (e c), e c == "");
  set_column = λ e c v. put_text e c v;
}

texts-IsAccessor : IsAccessor texts
texts-IsAccessor = record {
  reads = λ e e' c t h. ap (λ r. texts.value_of (r.0) c) (sym h) ∙ rw (eq_refl c);
  keeps = λ e e' c d t h n. ap (λ r. texts.value_of (r.0) d) (sym h) ∙ rw n;
}

abbrev no_library : Library
no_library = record {
  sha256 = λ s. chars s;
  hmac_sha256 = λ key s. key;
  new_aead = λ key. none;
  encode_base64 = λ b. of_chars b;
  decode_base64 = λ s. none;
  format_int = λ n. "n";
  hex = λ b. of_chars b;
}

abbrev keys : StorageProtector
keys = record { encryption_key = []; digest_key = [] }

abbrev storage : RedactStorage (List StorageValue) Entity
storage = record {
  value_store = none;
  policy_resolver = none;
  protector = some keys;
  field_accessor = some texts;
}

abbrev policy_on : String → StorageFieldPolicy
policy_on column = record {
  id = pos 7;
  tenant_id = pos 0;
  table_name = "users";
  column_name = column;
  rule = record { mode = apply_rule; transform = some (mask_rule 3 4 0 "*") };
}

abbrev user : Entity
user d = if d == "phone" then "1234" else ""

prepare_entity_with_policies-by_rule_example :
    (stored : String) × ((apply (policy_on "phone").rule (string "1234") ≡ string stored)
      × (texts.value_of (put_text user "phone" (string "1234")).0 "phone"
          ≡ ok (string stored, stored == "")))
unfolding mask_with_min prepare_string prepare_fields prepare_entity_with_policies
prepare_entity_with_policies-by_rule_example =
    prepare_entity_with_policies-by_rule no_library (λ e. false) (λ k. none) storage texts
      (policy_on "name" ∷ []) (policy_on "phone") [] [] user
      (put_text user "phone" (string "1234")).0 "1234" refl texts-IsAccessor refl refl (refl, tt) tt
      refl refl
