-- ===== src/Auth/Hmac/Replay.antt =====
-- auth/authn/engine/hmac/hmac.go: a nonce is used once while the time of its token lasts.
use kratos_kit.Base.{
  ◌<>◌, ℕ, ◌≤◌, ◌≡◌, ◌≢◌, ◌⊎◌, refl, sym, ap, ◌∙◌, String, Bool, true, false, not, Option, none,
  some, List, [], ◌∷◌, inl, inr, arith, ◌==◌,
}
use kratos_kit.Base.Int.{ℤ, pos, ltb_ℤ, ◌+ℤ◌}
use kratos_kit.Auth.Metadata.{ContextType, Headers, bearer_word, auth_from_md}
use kratos_kit.Auth.Payload.{AuthClaims}
use kratos_kit.Auth.Hmac.{
  Library, ReplayStore, Options, Ticket, parse_token, out_of_skew, unix, verify, authenticate,
  or_refuse, guard, find_secret, sign, admitted,
}
use kratos_kit.Auth.Hmac.Request.{
  RequestContext, Business, HmacError, Checked, passed, refused, ◌>>=◌, canonical_request,
}
use kratos_kit.Auth.Hmac.Nonces.{kept, consume-kept, consume_fresh-kept, consume_blocked}

abbrev pub is_passed {ℓ} : {A : Type ℓ} → Checked A → Bool
is_passed (passed a) = true
is_passed (refused e) = false

-- The nonce of a token and the end of its time, whoever verifies it.
abbrev claimed : Library → ℤ → Option String → Checked (String × ℤ)
claimed lib max_skew found = do
  token ← or_refuse HmacError.missing_bearer_token found
  parts ← or_refuse HmacError.invalid_token (parse_token token)
  seconds ← or_refuse HmacError.invalid_token (lib.parse_int parts.timestamp)
  passed (parts.key_id <> ("\0" <> parts.nonce), unix seconds +ℤ max_skew)

Checked-cases {ℓ} :
    {A : Type ℓ} (m : Checked A) → ((e : HmacError) × (m ≡ refused e)) ⊎ ((a : A) × (m ≡ passed a))
Checked-cases (passed a) = inr (a, refl)
Checked-cases (refused e) = inl (e, refl)

-- A call of Authenticate
pub record Call : Type 0 where
  pub now : ℕ
  pub consumed_at : ℕ
  pub context_type : ContextType
  pub headers : Headers
  pub ctx : RequestContext
  pub request : Business

abbrev ends_after : ℕ → Checked (String × ℤ) → Bool
ends_after now (refused e) = true
ends_after now (passed (k, e)) = not (ltb_ℤ e (pos now))

-- The time of a token, which is its timestamp and the allowed skew, is not over.
abbrev pub in_time : Library → ℤ → Option String → ℕ → Bool
in_time lib max_skew found now = ends_after now (claimed lib max_skew found)

bind-passed {ℓ κ} :
    {A : Type ℓ} {B : Type κ} (m : Checked A) (f : A → Checked B) (b : B)
    → m >>= f ≡ passed b
    → (a : A) × (m ≡ passed a) × (f a ≡ passed b)
bind-passed (passed a) f b h = (a, refl, h)
bind-passed (refused e) f b h = absurd (ground arith)

same_ticket :
    (k subject : String) (e : ℤ) (t : Ticket)
    → passed (record { nonce_key = k; expires = e; subject = subject }) ≡ passed t
    → ◌≡◌ {A = Checked (String × ℤ)} (passed (k, e)) (passed (t.nonce_key, t.expires))
same_ticket k subject e t h = ground arith

ends_after-claimed :
    (m : Checked (String × ℤ)) (k : String) (e : ℤ) (now : ℕ)
    → m ≡ passed (k, e)
    → ends_after now m ≡ true
    → ltb_ℤ e (pos now) ≡ false
ends_after-claimed m k e now p h = ground arith

kept_later :
    (k : String) (e : ℤ) (before now : ℕ) (s : ReplayStore)
    → before ≤ now
    → kept k e before s ≡ true
    → kept k e now s ≡ true
kept_later k e before now s le h = ground arith

same_claim :
    (k : String) (e : ℤ) (now : ℕ) (s : ReplayStore) (k' : String) (e' : ℤ)
    → ◌≡◌ {A = Checked (String × ℤ)} (passed (k, e)) (passed (k', e'))
    → kept k e now s ≡ true
    → kept k' e' now s ≡ true
same_claim k e now s k' e' p h = ground arith

abbrev pub InOrder : ℕ → List Call → ℕ → Type 0
InOrder first [] last = first ≤ last
InOrder first (x ∷ xs) last = (first ≤ x.consumed_at) × InOrder x.consumed_at xs last

module _ (lib : Library) (a : Options) where
  -- The token that a call carries
  abbrev pub token_of : Call → Option String
  token_of x = auth_from_md bearer_word x.context_type x.headers

  abbrev pub serve : Call → ReplayStore → ReplayStore × Checked AuthClaims
  serve x s = authenticate lib a x.now x.consumed_at x.context_type x.headers x.ctx x.request s

  verify-claimed :
      (x : Call) (t : Ticket)
      → verify lib a x.now x.context_type x.headers x.ctx x.request ≡ passed t
      → claimed lib a.max_skew (token_of x) ≡ passed (t.nonce_key, t.expires)
  unfolding verify
  verify-claimed x t h =
      let (token, p1, h1) =
        bind-passed (or_refuse HmacError.missing_bearer_token (token_of x)) _ t h in
      let (parts, p2, h2) =
        bind-passed (or_refuse HmacError.invalid_token (parse_token token)) _ t h1 in
      let (seconds, p3, h3) =
        bind-passed (or_refuse HmacError.invalid_token (lib.parse_int parts.timestamp)) _ t h2 in
      let (u, p4, h4) =
        bind-passed
          (guard (not (out_of_skew a.max_skew x.now (unix seconds))) HmacError.token_expired) _ t
          h3 in
      let (secret, p5, h5) =
        bind-passed (or_refuse HmacError.unauthenticated (find_secret a parts.key_id)) _ t h4 in
      let (canonical, p6, h6) = bind-passed (canonical_request lib.digest x.ctx x.request) _ t h5 in
      let (v, p7, h7) =
        bind-passed
          (guard
            (parts.signature == sign lib secret parts.key_id parts.timestamp parts.nonce canonical)
            HmacError.unauthenticated)
          _ t h6 in
      rw (p1, p2, p3) (same_ticket _ _ _ t h7)

  -- A token that has passed leaves its nonce in the store.
  serve_passed-kept :
      (x : Call) (s : ReplayStore)
      → is_passed (serve x s).1 ≡ true
      → (k : String) × (e : ℤ) × (claimed lib a.max_skew (token_of x) ≡ passed (k, e))
        × (kept k e x.consumed_at (serve x s).0 ≡ true)
  unfolding authenticate
  serve_passed-kept x s h =
      elim (Checked-cases (verify lib a x.now x.context_type x.headers x.ctx x.request)) [
        | inl (e, q) ↦ absurd (ground arith)
        | inr (t, q) ↦ (
          t.nonce_key,
          t.expires,
          verify-claimed x t q,
          rw q
              (consume_fresh-kept t.nonce_key t.expires x.ctx.ended x.consumed_at s (ground arith)),
        )
      ]

  serve-kept :
      (k : String) (e : ℤ) (before : ℕ) (y : Call) (s : ReplayStore)
      → before ≤ y.consumed_at
      → kept k e before s ≡ true
      → kept k e y.consumed_at (serve y s).0 ≡ true
  unfolding authenticate
  serve-kept k e before y s le h =
      elim (Checked-cases (verify lib a y.now y.context_type y.headers y.ctx y.request)) [
        | inl (f, q) ↦ rw q (kept_later k e before y.consumed_at s le h)
        | inr (t, q) ↦
            rw q (consume-kept k e y.ctx.ended y.consumed_at before t.nonce_key t.expires s le h)
      ]

  -- Calls one after the other
  unfoldable pub serve_all : List Call → ReplayStore → ReplayStore
  serve_all [] s = s
  serve_all (x ∷ xs) s = serve_all xs (serve x s).0

  serve_all-kept :
      (k : String) (e : ℤ) (before last : ℕ) (xs : List Call) (s : ReplayStore)
      → InOrder before xs last
      → kept k e before s ≡ true
      → kept k e last (serve_all xs s) ≡ true
  unfolding serve_all
  serve_all-kept k e before last [] s le h = kept_later k e before last s le h
  serve_all-kept k e before last (x ∷ xs) s (le, order) h =
      serve_all-kept k e x.consumed_at last xs _ order (serve-kept k e before x s le h)

  not_admitted :
      (subject : String) (o : Option Bool)
      → o ≢ some true
      → is_passed (admitted lib subject o) ≡ false
  not_admitted subject none h = refl
  not_admitted subject (some true) h = absurd (h refl)
  not_admitted subject (some false) h = refl

  serve_blocked :
      (k : String) (e : ℤ) (y : Call) (s : ReplayStore)
      → in_time lib a.max_skew (token_of y) y.consumed_at ≡ true
      → claimed lib a.max_skew (token_of y) ≡ passed (k, e)
      → kept k e y.consumed_at s ≡ true
      → is_passed (serve y s).1 ≡ false
  unfolding authenticate
  serve_blocked k e y s timely c h =
      elim (Checked-cases (verify lib a y.now y.context_type y.headers y.ctx y.request)) [
        | inl (f, q) ↦ rw q refl
        | inr (t, q) ↦
            let same = verify-claimed y t q in
            let there = same_claim k e y.consumed_at s t.nonce_key t.expires (sym c ∙ same) h in
            let time = ends_after-claimed _ t.nonce_key t.expires y.consumed_at same timely in
            rw q (
              not_admitted t.subject _
                (consume_blocked t.nonce_key t.expires y.ctx.ended y.consumed_at s there time))
      ]

  -- After a call of Authenticate that passed, and any other calls, a call with the same token fails,
  -- whatever the request is; provided that the time of the token, its timestamp and the allowed skew,
  -- is not over at the reading of the clock that Consume makes in the last call, and that these
  -- readings do not go back, in the order in which the calls reach the store.
  pub accepted_once :
      (x y : Call) (xs : List Call) (s : ReplayStore)
      → InOrder x.consumed_at xs y.consumed_at
      → token_of x ≡ token_of y
      → in_time lib a.max_skew (token_of y) y.consumed_at ≡ true
      → is_passed (serve x s).1 ≡ true
      → is_passed (serve y (serve_all xs (serve x s).0)).1 ≡ false
  accepted_once x y xs s order same timely h =
      let (k, e, c, kept_now) = serve_passed-kept x s h in
      serve_blocked k e y _ timely (ap (claimed lib a.max_skew) (sym same) ∙ c)
        (serve_all-kept k e x.consumed_at y.consumed_at xs _ order kept_now)
