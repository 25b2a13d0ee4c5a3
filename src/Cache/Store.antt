-- ===== src/Cache/Store.antt =====
-- cache/store/store.go and cache/store/rate_limit.go: entries, requests and their validation.
use kratos_kit.Base.{ℕ, String}
use kratos_kit.Base.Dict.{Dict}
use kratos_kit.Base.Time.{Time}
use kratos_kit.Base.Int.{ℤ}

-- The errors of the cache, and the panic of a write to a nil map.
pub data Error : Type 0 where
  not_found key_expired field_not_found connect_fail parse_error key_required : Error
  invalid_token_bucket invalid_window_counter invalid_window_log invalid_leaky_bucket : Error
  unsupported_algorithm nil_map : Error
  duplicate_key : String → Error

pub data Result {ℓ} (A : Type ℓ) : Type ℓ where
  ok : A → Result A
  err : Error → Result A

-- Entry: a snapshot; the type of the entry is its constructor. `expires_at` determines TTL, which
-- is -1 for an entry that never expires.
pub data Content : Type 0 where
  string : String → Content
  hash : Dict String → Content

pub record Entry : Type 0 where
  pub key : String
  pub content : Content
  pub ttl : ℤ
  pub expires_at : Time
  pub created_at : ℕ
  pub updated_at : ℕ
