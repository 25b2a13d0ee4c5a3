-- ===== src/Redact/Storage.antt =====
-- redact/storage.go: what is kept of a protected field, sealed and as a digest. AES-GCM, SHA-256, HMAC,
-- base64 and decimal numbers are the fields of `Library`; a nonce is an argument, none where the random
-- source fails. A byte stands as the
-- character of its number, and the bytes of a text as the text.
pub mod Table
pub mod Runtime
pub mod Seal
pub mod Restore
pub mod Results
pub mod Kept
mod Tests
use kratos_kit.Base.{
  ℕ, zero, suc, ◌≡◌, String, ◌<>◌, Bool, Option, none, some, List, [], ◌∷◌, ◌++◌, length, leb,
  nat_eq, ◌==◌, if◌then◌else◌,
}
use Prim.Native.Char.{Char, code}
use kratos_kit.Base.Int.{ℤ}
use kratos_kit.Redact.Text.{take, drop}

abbrev pub Bytes : Type 0
Bytes = List Char

pub data StorageError : Type 0 where
  value_not_found : StorageError
  secret_missing protector_missing cipher_failed random_failed not_encrypted bad_base64 bad_length
        open_failed :
      StorageError
  bad_policy bad_rule rule_not_string store_missing bad_record bad_tenant accessor_missing
        field_not_string :
      StorageError
  store_failed field_failed : String → StorageError

pub data Result {ℓ} (A : Type ℓ) : Type ℓ where
  ok : A → Result A
  failed : StorageError → Result A

module _ {A B : Type 0} where
  infixl 20 ◌>>=◌
  abbrev pub ◌>>=◌ : Result A → (A → Result B) → Result B
  ok x >>= f = f x
  failed e >>= f = failed e

-- cipher.AEAD: Open has no plaintext where the text or the data was changed
pub record Aead : Type 0 where
  pub nonce_size : ℕ
  pub seal : Bytes → String → String → Bytes
  pub open_sealed : Bytes → Bytes → String → Option String

-- What the source calls of Go's packages; new_aead is aes.NewCipher with cipher.NewGCM
pub record Library : Type 0 where
  pub sha256 : String → Bytes
  pub hmac_sha256 : Bytes → String → Bytes
  pub new_aead : Bytes → Option Aead
  pub encode_base64 : Bytes → String
  pub decode_base64 : String → Option Bytes
  pub format_int : ℤ → String
  pub hex : Bytes → String

-- StorageProtector
pub record StorageProtector : Type 0 where
  pub encryption_key : Bytes
  pub digest_key : Bytes

-- NewStorageProtector
abbrev pub new_storage_protector : Library → String → Result StorageProtector
new_storage_protector lib secret =
    if secret == ""
    then failed secret_missing
    else ok (record {
      encryption_key = lib.sha256 ("kratos-kit/redact/storage/encryption/" <> secret);
      digest_key = lib.sha256 ("kratos-kit/redact/storage/digest/" <> secret);
    })

-- The key, where there is one: p == nil || len(key) == 0
abbrev key_of : Bytes → Result Bytes
key_of [] = failed protector_missing
key_of (b ∷ k) = ok (b ∷ k)

abbrev or_error : {A : Type 0} → StorageError → Option A → Result A
or_error e none = failed e
or_error e (some x) = ok x

abbrev pub encryption_key_of : Option StorageProtector → Result Bytes
encryption_key_of none = failed protector_missing
encryption_key_of (some p) = key_of p.encryption_key

abbrev pub digest_key_of : Option StorageProtector → Result Bytes
digest_key_of none = failed protector_missing
digest_key_of (some p) = key_of p.digest_key

abbrev pub storage_cipher_prefix : String
storage_cipher_prefix = "enc:"

-- What follows the prefix in a text that starts with it
unfoldable pub strip : String → String → Option String
strip String.[] s = some s
strip (String.◌∷◌ p ps) String.[] = none
strip (String.◌∷◌ p ps) (String.◌∷◌ c s) =
    let rest = strip ps s in if nat_eq (code p) (code c) then rest else none

-- The text behind the prefix, when there is any
abbrev behind_prefix : Option String → Result String
behind_prefix none = failed not_encrypted
behind_prefix (some rest) = if rest == "" then failed not_encrypted else ok rest

module _ (lib : Library) where
  abbrev sealed : Aead → Bytes → String → String → String
  sealed aead nonce value associated_data =
      storage_cipher_prefix <> lib.encode_base64 (nonce ++ aead.seal nonce value associated_data)

  -- StorageProtector.Encrypt
  abbrev pub encrypt : Option Bytes → Option StorageProtector → String → String → Result String
  encrypt random p value associated_data = encryption_key_of p >>= λ key.
      or_error cipher_failed (lib.new_aead key) >>= λ aead.
      or_error random_failed random >>= λ nonce. ok (sealed aead nonce value associated_data)

  abbrev opened : Aead → Bytes → String → Result String
  opened aead encoded associated_data =
      if leb (length encoded) aead.nonce_size
      then failed bad_length
      else or_error open_failed (
          aead.open_sealed (take aead.nonce_size encoded) (drop aead.nonce_size encoded)
            associated_data)

  -- StorageProtector.Decrypt
  abbrev pub decrypt : Option StorageProtector → String → String → Result String
  decrypt p value associated_data = encryption_key_of p >>= λ key.
      behind_prefix (strip storage_cipher_prefix value) >>= λ rest.
      or_error bad_base64 (lib.decode_base64 rest) >>= λ encoded.
      or_error cipher_failed (lib.new_aead key) >>= λ aead. opened aead encoded associated_data

  -- StorageProtector.Digest
  abbrev pub digest : Option StorageProtector → String → String → Result Bytes
  digest p value associated_data =
      digest_key_of p >>= λ key. ok (lib.hmac_sha256 key (associated_data <> ("\0" <> value)))

-- RuleFingerprint
abbrev pub rule_fingerprint : Library → String → String → String
rule_fingerprint lib rule_type rule_json = lib.hex (lib.sha256 (rule_type <> ("\0" <> rule_json)))
