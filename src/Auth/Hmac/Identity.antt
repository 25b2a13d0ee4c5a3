-- ===== src/Auth/Hmac/Identity.antt =====
-- auth/authn/engine/hmac/hmac.go: what CreateIdentityWithContext makes, Authenticate lets through.
use kratos_kit.Base.{
  ℕ, ◌+◌, ◌*◌, ◌/◌, ◌^◌, ◌≤◌, ◌<◌, ◌≡◌, refl, String, ◌<>◌, true, false, none, some, [], ◌∷◌, arith,
  ◌==◌, eq_refl,
}
use kratos_kit.Base.Int.{ℤ, pos, wrap_of_InInt64, ◌+ℤ◌, ◌-ℤ◌, ◌*ℤ◌, -ℤ_parts}
use kratos_kit.Base.Dict.{lookup}
use kratos_kit.Base.Text.{contains_char, contains-ne_nil}
use kratos_kit.Base.Time.{second}
use kratos_kit.Auth.Metadata.{
  ContextType, Headers, HasHeader, bearer_word, md_with_auth, auth_from_md-md_with_auth,
}
use kratos_kit.Auth.Payload.{text}
use kratos_kit.Auth.Hmac.{
  Library, IsPart, ReplayStore, Options, purge, consume, out_of_skew, unix, verify, authenticate,
  find_secret, sign, make_token, create_identity,
}
use kratos_kit.Auth.Hmac.Request.{
  RequestContext, Business, HmacError, passed, refused, canonical_request,
}
use kratos_kit.Auth.Hmac.Token.{parse_token_of_parts, parse_token_of_dotted}

purge_absent :
    (k : String) (now : ℕ) (s : ReplayStore) → lookup k s ≡ none → lookup k (purge now s) ≡ none
unfolding lookup purge
purge_absent k now [] h = refl
purge_absent k now ((j, e) ∷ s) h = ground (arith, purge_absent k now s)

consume_absent :
    (now : ℕ) (k : String) (e : ℤ) (s : ReplayStore)
    → lookup k s ≡ none
    → (consume false now k e s).1 ≡ some true
unfolding consume
consume_absent now k e s h = rw (purge_absent k now s h) refl

unix-exact : (n : ℕ) → unix (pos n) ≡ pos (n * second)
unfolding ◌*ℤ◌
unix-exact n = ground arith

-- Not later than the skew after the second of the creation
in_skew :
    (m now created : ℕ)
    → m < 2 ^ 63
    → created ≤ now
    → now ≤ created + m
    → out_of_skew (pos m) now (pos created) ≡ false
in_skew m now created small le ge =
    let lowest = wrap_of_InInt64 (pos 0 -ℤ pos m) (ground (arith, -ℤ_parts (pos 0) (pos m))) in
    ground (arith, lowest, -ℤ_parts (pos now) (pos created), -ℤ_parts (pos 0) (pos m))

module _ (lib : Library) where
  open lib use {mac, digest, parse_int, format_int, mac-IsPart, parse-format, format-IsPart}

  create_identity-ok :
      (a : Options) (now : ℕ) (t : ContextType) (ctx : RequestContext) (request : Business)
      (h : Headers) (key secret nonce canonical : String)
      → (key == "") ≡ false
      → IsPart nonce
      → find_secret a key ≡ some secret
      → canonical_request digest ctx request ≡ passed canonical
      → create_identity lib a now t (("sub", text key) ∷ []) ctx request (some nonce) h
        ≡ passed (md_with_auth t bearer_word (make_token lib secret key now nonce canonical) h)
  unfolding create_identity lookup
  create_identity-ok a now t ctx request h key secret nonce canonical p (n1, n2) found c =
      rw (p, found, c, n1, n2) refl

  verify_made :
      (b : Options) (m now created : ℕ) (t : ContextType) (ctx : RequestContext)
      (request : Business) (h : Headers) (key secret nonce canonical : String)
      → b.max_skew ≡ pos m
      → m < 2 ^ 63
      → created * second ≤ now
      → now ≤ created * second + m
      → created < 2 ^ 63
      → IsPart key
      → IsPart nonce
      → HasHeader t h
      → find_secret b key ≡ some secret
      → canonical_request digest ctx request ≡ passed canonical
      → verify lib b now t
          (md_with_auth t bearer_word
            (key
              <> ("."
                  <> (format_int (pos created)
                      <> ("."
                          <> (nonce
                              <> ("."
                                  <> sign lib secret key
                                      (format_int (pos created))
                                      nonce
                                      canonical))))))
            h)
          ctx
          request
        ≡ passed (record {
          nonce_key = key <> ("\0" <> nonce);
          expires = unix (pos created) +ℤ b.max_skew;
          subject = key;
        })
  unfolding verify
  verify_made b m now created t ctx request h key secret nonce canonical skew small le ge range k n
        header found c =
      let timestamp = format_int (pos created) in
      let signature = sign lib secret key timestamp nonce canonical in
      rw
        (
          auth_from_md-md_with_auth t
              (key <> ("." <> (timestamp <> ("." <> (nonce <> ("." <> signature)))))) h header,
          parse_token_of_parts key timestamp nonce signature k (format-IsPart (pos created)) n
              (mac-IsPart secret _),
          parse-format (pos created) (range, ground arith),
          skew,
          unix-exact created,
          in_skew m now (created * second) small le ge,
          found,
          c,
          eq_refl signature,
        )
        refl

  -- A token that CreateIdentityWithContext made is let through by an authenticator that knows the same
  -- secret and reads the headers it was put into, for a request with the same canonical text, if its
  -- nonce is not in the store and its second lies back no longer than the allowed skew; the key ID and
  -- the nonce have no dot.
  pub create-authenticate :
      (a b : Options) (m made now later : ℕ) (t : ContextType) (client server : RequestContext)
      (sent received : Business) (h : Headers) (key secret nonce canonical : String)
      (s : ReplayStore)
      → b.max_skew ≡ pos m
      → m < 2 ^ 63
      → made ≤ now
      → now ≤ made / second * second + m
      → made / second < 2 ^ 63
      → IsPart key
      → IsPart nonce
      → HasHeader t h
      → find_secret a key ≡ some secret
      → find_secret b key ≡ some secret
      → canonical_request digest client sent ≡ passed canonical
      → canonical_request digest server received ≡ passed canonical
      → server.ended ≡ false
      → lookup (key <> ("\0" <> nonce)) s ≡ none
      → (h' : Headers) × (create_identity lib a made t
            (("sub", text key) ∷ [])
            client
            sent
            (some nonce)
            h
          ≡ passed h')
        × ((authenticate lib b now later t h' server received s).1
            ≡ passed (("sub", text key) ∷ []))
  unfolding authenticate
  create-authenticate a b m made now later t client server sent received h key secret nonce
        canonical s skew small le ge range k n header known found c c' alive fresh =
      (
        md_with_auth t bearer_word (make_token lib secret key made nonce canonical) h,
        create_identity-ok a made t client sent h key secret nonce canonical k.0 n known c,
        rw
            (
              verify_made b m now (made / second) t server received h key secret nonce canonical
                  skew small (omega arith) ge range k n header found c',
              alive,
              consume_absent later (key <> ("\0" <> nonce))
                  (unix (pos (made / second)) +ℤ b.max_skew) s fresh,
            )
            refl,
      )

  -- For a key ID with a dot CreateIdentityWithContext makes a token as for any other, and no
  -- authenticator lets it through: it has more than four parts.
  pub dotted_key-refused :
      (a b : Options) (made now later : ℕ) (t : ContextType) (client server : RequestContext)
      (sent received : Business) (h : Headers) (key secret nonce canonical : String)
      (s : ReplayStore)
      → contains_char "." key ≡ true
      → IsPart nonce
      → HasHeader t h
      → find_secret a key ≡ some secret
      → canonical_request digest client sent ≡ passed canonical
      → (h' : Headers) × (create_identity lib a made t
            (("sub", text key) ∷ [])
            client
            sent
            (some nonce)
            h
          ≡ passed h')
        × (authenticate lib b now later t h' server received s
            ≡ (s, refused HmacError.invalid_token))
  unfolding authenticate verify
  dotted_key-refused a b made now later t client server sent received h key secret nonce canonical s
        dot n header known c =
      let timestamp = format_int (pos (made / second)) in
      let signature = sign lib secret key timestamp nonce canonical in
      (
        md_with_auth t bearer_word (make_token lib secret key made nonce canonical) h,
        create_identity-ok a made t client sent h key secret nonce canonical
            (contains-ne_nil "." key dot) n known c,
        rw
            (
              auth_from_md-md_with_auth t (make_token lib secret key made nonce canonical) h header,
              parse_token_of_dotted key timestamp nonce signature dot,
            )
            refl,
      )
