-- ===== src/Redact/Storage/Seal.antt =====
-- redact/storage.go: that what Encrypt has sealed, Decrypt opens.
use kratos_kit.Base.{
  ◌<◌, ◌≡◌, String, ◌<>◌, false, some, Option, ◌++◌, length, length-append, leb, ◌==◌, arith,
}
use text.Mathlib.TextLemmas.{nil-append, cons-append}
use kratos_kit.Redact.Text.Mask.{drop-append, take_all-append}
use kratos_kit.Redact.Storage.{
  Bytes, Library, Aead, StorageProtector, ok, encrypt, decrypt, storage_cipher_prefix, strip,
  encryption_key_of,
}

-- What AES-GCM promises: Open gives back what Seal was given, with the same nonce and data, and a sealed
-- text is not empty, for it holds a tag.
pub record IsAuthenticated (aead : Aead) : Type 0 where
  pub opens :
      (nonce : Bytes) (value data_ : String)
      → aead.open_sealed nonce (aead.seal nonce value data_) data_ ≡ some value
  pub tagged : (nonce : Bytes) (value data_ : String) → 0 < length (aead.seal nonce value data_)

-- What base64 promises: what was encoded is decoded, and bytes are no empty text.
pub record IsEncoding (lib : Library) : Type 0 where
  pub decodes : (b : Bytes) → lib.decode_base64 (lib.encode_base64 b) ≡ some b
  pub fills : (b : Bytes) → 0 < length b → (lib.encode_base64 b == "") ≡ false

-- A protector that can seal: it has a key, the key makes a cipher, and the random source has given a
-- nonce of the cipher's size.
pub record Seals (lib : Library) (random : Option Bytes) (p : Option StorageProtector)
    : Type 0 where
  pub key : Bytes
  pub aead : Aead
  pub nonce : Bytes
  pub has_key : encryption_key_of p ≡ ok key
  pub makes : lib.new_aead key ≡ some aead
  pub drawn : random ≡ some nonce
  pub fits : length nonce ≡ aead.nonce_size
  pub authenticates : IsAuthenticated aead
  pub encodes : IsEncoding lib

strip-append : (p s : String) → strip p (p <> s) ≡ some s
unfolding strip
strip-append String.[] s = rw nil-append
strip-append (String.◌∷◌ c p) s = rw (cons-append, strip-append p s) (ground arith)

-- What Encrypt returns is opened by Decrypt with the same associated data.
pub decrypt-encrypt :
    (lib : Library) (random : Option Bytes) (p : Option StorageProtector) (value data_ : String)
    → Seals lib random p
    → (text : String) × ((encrypt lib random p value data_ ≡ ok text)
        × (decrypt lib p text data_ ≡ ok value))
decrypt-encrypt lib random p value data_ s =
    let b = s.nonce ++ s.aead.seal s.nonce value data_ in
    let tagged = s.authenticates.tagged s.nonce value data_ in
    let more : leb (length b) s.aead.nonce_size ≡ false =
      rw (length-append s.nonce) (ground (arith, tagged, s.fits)) in
    let filled = s.encodes.fills b (rw (length-append s.nonce) (omega (arith, tagged))) in
    (
      storage_cipher_prefix <> lib.encode_base64 b,
      (
        rw (s.has_key, s.makes, s.drawn),
        rw (
          s.has_key,
          strip-append storage_cipher_prefix (lib.encode_base64 b),
          filled,
          s.encodes.decodes b,
          s.makes,
          more,
          take_all-append s.aead.nonce_size s.nonce (s.aead.seal s.nonce value data_) s.fits,
          drop-append s.aead.nonce_size s.nonce (s.aead.seal s.nonce value data_) s.fits,
          s.authenticates.opens s.nonce value data_,
        ),
      ),
    )
