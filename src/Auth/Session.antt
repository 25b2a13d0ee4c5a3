-- ===== src/Auth/Session.antt =====
-- auth/authn/engine/session/session.go: sessions in the process and their authenticator. The claims
-- are values of any type: the store keeps deep copies. The uuid of a new session is an argument, none
-- where the random source fails.
use kratos_kit.Base.{
  ℕ, ◌+◌, ◌≡◌, refl, String, false, Option, none, some, ltb, ◌==◌, eq_refl, arith, if◌then◌else◌,
}
use kratos_kit.Base.Int.{ℤ, pos, ltb_ℤ, ◌+ℤ◌}
use kratos_kit.Base.Dict.{Dict, lookup, insert, erase, lookup-insert, lookup-erase}
use kratos_kit.Auth.Metadata.{ContextType, grpc, kratos_meta_data, other_type}

pub data SessionError : Type 0 where
  missing_session_id session_not_found random_failed : SessionError

pub data Authenticated {ℓ} (A : Type ℓ) : Type ℓ where
  passed : A → Authenticated A
  refused : SessionError → Authenticated A

-- memorySession; the time in nanoseconds since 1970
pub record MemorySession (V : Type 0) : Type 0 where
  pub claims : V
  pub expires_at : ℤ

-- The context: its session ID, the header of the Kratos transport where there is one, and the first
-- value of the header in the gRPC metadata ("" for none)
pub record SessionContext : Type 0 where
  pub session_id : String
  pub kratos_header : Option String
  pub grpc_header : String

-- sessionIDFromTransport
abbrev or_else : Option String → String → String
or_else none d = d
or_else (some h) d = h

abbrev pub id_from_transport : ContextType → SessionContext → String
id_from_transport kratos_meta_data ctx = or_else ctx.kratos_header ctx.grpc_header
id_from_transport grpc ctx = ctx.grpc_header
id_from_transport other_type ctx = ctx.grpc_header

module _ {V : Type 0} where
  -- What Get finds: nothing, or a session that has ended and is deleted, or its claims
  abbrev found_at :
      ℕ
      → String
      → Dict (MemorySession V)
      → Option (MemorySession V)
      → Dict (MemorySession V) × Option V
  found_at now id s none = (s, none)
  found_at now id s (some x) =
      if ltb_ℤ (pos now) x.expires_at then (s, some x.claims) else (erase id s, none)

  -- Get
  unfoldable pub get : ℕ → String → Dict (MemorySession V) → Dict (MemorySession V) × Option V
  get now id s = found_at now id s (lookup id s)

  abbrev put :
      ℕ
      → V
      → ℤ
      → Dict (MemorySession V)
      → Option String
      → Dict (MemorySession V) × Authenticated String
  put now claims ttl s none = (s, refused random_failed)
  put now claims ttl s (some id) =
      (insert id (record { claims = claims; expires_at = pos now +ℤ ttl }) s, passed id)

  -- Set
  unfoldable pub set :
      ℕ
      → String
      → Option String
      → V
      → ℤ
      → Dict (MemorySession V)
      → Dict (MemorySession V) × Authenticated String
  set now id fresh claims ttl s = put now claims ttl s (if id == "" then fresh else some id)

  -- Delete
  abbrev pub delete : String → Dict (MemorySession V) → Dict (MemorySession V)
  delete id s = erase id s

  abbrev or_not_found : Dict (MemorySession V) × Option V → Dict (MemorySession V) × Authenticated V
  or_not_found (s, none) = (s, refused session_not_found)
  or_not_found (s, some claims) = (s, passed claims)

  -- authenticate and AuthenticateToken
  unfoldable pub authenticate_token :
      ℕ → String → Dict (MemorySession V) → Dict (MemorySession V) × Authenticated V
  unfolding get
  authenticate_token now id s =
      if id == "" then (s, refused missing_session_id) else or_not_found (get now id s)

  -- Authenticate
  unfoldable pub authenticate :
      ℕ
      → ContextType
      → SessionContext
      → Dict (MemorySession V)
      → Dict (MemorySession V) × Authenticated V
  unfolding authenticate_token
  authenticate now t ctx s =
      let id = if ctx.session_id == "" then id_from_transport t ctx else ctx.session_id in
      if id == "" then (s, refused missing_session_id) else authenticate_token now id s

  -- CreateIdentity, with the time that WithTTL has set
  abbrev pub create_identity :
      ℕ
      → Option String
      → V
      → ℤ
      → Dict (MemorySession V)
      → Dict (MemorySession V) × Authenticated String
  create_identity now fresh claims ttl s = set now "" fresh claims ttl s

  -- A session that CreateIdentity has made is let through with its claims until its time is over, and
  -- never after.
  pub authenticate-created :
      (now ttl later : ℕ) (id : String) (claims : V) (s : Dict (MemorySession V))
      → (id == "") ≡ false
      → (authenticate_token later id (create_identity now (some id) claims (pos ttl) s).0).1
        ≡ (if ltb later (now + ttl) then passed claims else refused session_not_found)
  unfolding authenticate_token get set ◌+ℤ◌
  authenticate-created now ttl later id claims s h =
      rw
        (
          h,
          lookup-insert id id (record { claims = claims; expires_at = pos now +ℤ pos ttl }) s,
          eq_refl id,
        )
        (ground arith)

  -- A deleted session is not found.
  pub authenticate-deleted :
      (later : ℕ) (id : String) (s : Dict (MemorySession V))
      → (id == "") ≡ false
      → (authenticate_token later id (delete id s)).1 ≡ refused session_not_found
  unfolding authenticate_token get
  authenticate-deleted later id s h = rw (h, lookup-erase id id s, eq_refl id) refl
