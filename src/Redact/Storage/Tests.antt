-- ===== src/Redact/Storage/Tests.antt =====
-- redact/storage_runtime.go at a side table that is a list, with an encryption that changes nothing and
-- an encoding that writes bytes as they are.
use kratos_kit.Base.{
  ◌<◌, ◌≡◌, refl, ap, inr, String, Bool, true, false, ◌&&◌, Option, none, some, List, [], ◌∷◌, ◌++◌,
  length, ◌==◌, eq_refl, arith, if◌then◌else◌,
}
use Prim.Native.Char.{Char}
use kratos_kit.Base.Int.{ℤ, pos, eq_ℤ}
use kratos_kit.Base.Text.{chars, of_chars, chars-of_chars, of_chars-chars, cons_not_nil}
use kratos_kit.Redact.Text.{mask_with_min}
use kratos_kit.Redact.Policy.{apply_rule, string, apply, FieldPolicy}
use kratos_kit.Redact.Rules.{mask_rule}
use kratos_kit.Redact.Storage.{
  Bytes, Library, Aead, StorageProtector, Result, ok, failed, value_not_found, strip,
}
use kratos_kit.Redact.Storage.Seal.{IsAuthenticated, IsEncoding, Seals}
use kratos_kit.Redact.Storage.Table.{
  StorageFieldPolicy, StorageValue, ValueStore, RedactStorage, save_prepared,
}
use kratos_kit.Redact.Storage.Runtime.{prepare_string, restore_string, find_record_ids_by_digest}
use kratos_kit.Redact.Storage.Restore.{IsUsable, IsSetUp, IsTable, restore_string-saved}
use kratos_kit.Redact.Storage.Kept.{
  prepare_string-by_rule, restore_string-kept, restore_string-remasked,
}

abbrev tag : Char
tag = "#"

abbrev open_tagged : Bytes → Option String
open_tagged [] = none
open_tagged (c ∷ cs) = some (of_chars cs)

abbrev plain_aead : Aead
plain_aead = record {
  nonce_size = 1;
  seal = λ nonce value d. tag ∷ chars value;
  open_sealed = λ nonce sealed d. open_tagged sealed;
}

abbrev plain_library : Library
plain_library = record {
  sha256 = λ s. chars s;
  hmac_sha256 = λ key s. key ++ chars s;
  new_aead = λ key. some plain_aead;
  encode_base64 = λ b. of_chars b;
  decode_base64 = λ s. some (chars s);
  format_int = λ n. "n";
  hex = λ b. of_chars b;
}

plain-IsAuthenticated : IsAuthenticated plain_aead
plain-IsAuthenticated = record {
  opens = λ nonce value d. ap (λ s. some s) (of_chars-chars value);
  tagged = λ nonce value d. omega arith;
}

fills_text : (b : Bytes) → 0 < length b → (of_chars b == "") ≡ false
unfolding of_chars
fills_text [] h = absurd (omega (arith, h))
fills_text (c ∷ cs) h = cons_not_nil c (of_chars cs)

plain-IsEncoding : IsEncoding plain_library
plain-IsEncoding = record { decodes = λ b. ap (λ l. some l) (chars-of_chars b); fills = fills_text }

-- The table: the values in the order of their saving, the last in front
abbrev is_at : ℤ → ℤ → ℤ → StorageValue → Bool
is_at t p r v = eq_ℤ v.tenant_id t && (eq_ℤ v.storage_policy_id p && eq_ℤ v.record_id r)

abbrev has_digest : ℤ → ℤ → Bytes → StorageValue → Bool
has_digest t p d v =
    eq_ℤ v.tenant_id t && (eq_ℤ v.storage_policy_id p && (of_chars v.digest_of == of_chars d))

unfoldable find_at : ℤ → ℤ → ℤ → List StorageValue → Result StorageValue
find_at t p r [] = failed value_not_found
find_at t p r (v ∷ vs) = let rest = find_at t p r vs in if is_at t p r v then ok v else rest

unfoldable list_at : ℤ → ℤ → Bytes → List StorageValue → List StorageValue
list_at t p d [] = []
list_at t p d (v ∷ vs) =
    let rest = list_at t p d vs in if has_digest t p d v then v ∷ rest else rest

abbrev list_store : ValueStore (List StorageValue)
list_store = record {
  find = λ t p r vs. find_at t p r vs;
  list_by_records = λ t p rs vs. ok vs;
  list_by_digest = λ t p d vs. ok (list_at t p d vs);
  save = λ v vs. (v ∷ vs, none);
  delete = λ v vs. (vs, none);
}

eq_ℤ_refl : (n : ℤ) → eq_ℤ n n ≡ true
eq_ℤ_refl n = ground arith

list_store-IsTable : IsTable list_store
unfolding find_at list_at
list_store-IsTable = record {
  finds =
      λ v t saved. rw (eq_ℤ_refl v.tenant_id, eq_ℤ_refl v.storage_policy_id, eq_ℤ_refl v.record_id);
  lists = λ v t saved. (
    [],
    (
      list_at v.tenant_id v.storage_policy_id v.digest_of t,
      rw (eq_ℤ_refl v.tenant_id, eq_ℤ_refl v.storage_policy_id, eq_refl (of_chars v.digest_of)),
    ),
  );
}

abbrev keys : StorageProtector
keys = record { encryption_key = chars "k"; digest_key = chars "d" }

abbrev storage : RedactStorage (List StorageValue) (Unit {0})
storage = record {
  value_store = some list_store;
  policy_resolver = none;
  protector = some keys;
  field_accessor = none;
}

abbrev phone_rule : FieldPolicy
phone_rule = record { mode = apply_rule; transform = some (mask_rule 3 4 0 (of_chars ("*" ∷ []))) }

abbrev phone : StorageFieldPolicy
phone = record {
  id = pos 7;
  tenant_id = pos 0;
  table_name = "users";
  column_name = "phone";
  rule = phone_rule;
}

storage-IsSetUp : IsSetUp storage
unfolding chars
storage-IsSetUp = record {
  store = list_store;
  protector = keys;
  digest_key = chars "d";
  has_store = refl;
  has_protector = refl;
  has_key = refl;
}

phone-IsUsable : IsUsable phone
phone-IsUsable = record { valid = refl; tenant = refl; ruled = refl }

keys-Seals : Seals plain_library (some (chars "n")) (some keys)
unfolding chars
keys-Seals = record {
  key = chars "k";
  aead = plain_aead;
  nonce = chars "n";
  has_key = refl;
  makes = refl;
  drawn = refl;
  fits = refl;
  authenticates = plain-IsAuthenticated;
  encodes = plain-IsEncoding;
}

abbrev old_value : StorageValue
old_value = record {
  tenant_id = pos 0;
  storage_policy_id = pos 7;
  record_id = pos 1;
  ciphertext = "enc:n#13812345678";
  digest_of = [];
}

restore_string-saved_example :
    (v : StorageValue) × ((prepare_string plain_library
          (some (chars "n"))
          (some storage)
          phone
          "13812345678"
        ≡ ok ("138****5678", some v))
      × ((restore_string plain_library
              (some storage)
              phone
              (pos 1)
              "138****5678"
              (save_prepared (some storage) (some v) (pos 1) []).0
            ≡ ok ("13812345678", true))
          × ((front : List ℤ) × ((back : List ℤ) × (find_record_ids_by_digest plain_library
                    (some storage)
                    phone
                    "13812345678"
                    (save_prepared (some storage) (some v) (pos 1) []).0
                  ≡ ok (front ++ (pos 1 ∷ back)))))))
unfolding mask_with_min save_prepared storage-IsSetUp
restore_string-saved_example =
    restore_string-saved plain_library (some (chars "n")) storage phone "13812345678" "138****5678"
      (pos 1) [] storage-IsSetUp phone-IsUsable keys-Seals list_store-IsTable refl refl refl refl
      (λ v. refl)

-- The new text 1234 is its own mask: the old one comes back.
restore_string-kept_example :
    (prepare_string plain_library none (some storage) phone "1234" ≡ ok ("1234", none))
    × ((save_prepared (some storage) none (pos 1) (old_value ∷ []) ≡ (old_value ∷ [], none))
        × (restore_string plain_library (some storage) phone (pos 1) "1234" (old_value ∷ [])
            ≡ ok ("13812345678", true)))
unfolding mask_with_min restore_string find_at strip
restore_string-kept_example =
    restore_string-kept plain_library none storage phone "1234" "138****5678" "13812345678" (pos 1)
      (old_value ∷ []) storage-IsSetUp phone-IsUsable (inr refl) refl

prepare_string-by_rule_example : apply phone_rule (string "1234") ≡ string "1234"
unfolding mask_with_min prepare_string
prepare_string-by_rule_example =
    prepare_string-by_rule plain_library none storage phone "1234" "1234" none refl refl

restore_string-remasked_example :
    (v : StorageValue) × ((masked : String) × ((prepare_string plain_library
            (some (chars "n"))
            (some storage)
            phone
            "13812345678"
          ≡ ok (masked, some v))
        × ((prepare_string plain_library (some (chars "n")) (some storage) phone masked
              ≡ ok (masked, none))
            × (restore_string plain_library
                  (some storage)
                  phone
                  (pos 1)
                  masked
                  (save_prepared (some storage) (some v) (pos 1) []).0
                ≡ ok ("13812345678", true)))))
unfolding mask_with_min save_prepared storage-IsSetUp
restore_string-remasked_example =
    restore_string-remasked plain_library (some (chars "n")) storage phone "13812345678" 3 4 0 "*"
      (pos 1) [] storage-IsSetUp phone-IsUsable keys-Seals list_store-IsTable refl refl refl refl
      (λ v. refl)
