-- ===== src/Auth/Token/Validity.antt =====
-- auth/data/user_token.go: which access tokens IsAccessTokenValid lets pass.
use kratos_kit.Base.{
  ℕ, ◌≡◌, refl, ap, ◌∙◌, String, Bool, true, false, ◌||◌, Option, none, some, [], ◌∷◌, Option-cases,
  Bool-cases, inl, inr, arith, ◌==◌, eq_iff,
}
use mathlib.Core.Path.{subst}
use kratos_kit.Base.Int.{ℤ}
use kratos_kit.Base.Dict.{Dict}
use kratos_kit.Cache.Memory.{Memory, MapItem, GoMap, read}
use kratos_kit.Cache.Memory.Strings.{get, exists}
use kratos_kit.Cache.Memory.Strings.View as StrView
use kratos_kit.Cache.Memory.Hashes.{h_get_all}
use kratos_kit.Cache.Memory.Hashes.View as HashView
use kratos_kit.Cache.Memory.Hashes.Writes.{or_nil, state-h_get_all}
use kratos_kit.Auth.Token.{
  TokenSession, Codec, UserToken, done, any_of, accepts, access_key, index_key, session_key,
  get_token_sessions, collect,
}
use kratos_kit.Auth.Token.Calls.{or_empty, is_access_token_valid, is_exist_access_token}
use kratos_kit.Auth.Token.Listing.{
  IsReady, SameStrings, is_some, exists_is, any_live, IsReadable, Lists, collect-Lists,
  IsPersistent-agree,
}

abbrev pub or_text : Option String → String
or_text none = ""
or_text (some v) = v

module _ (c : Codec) (r : UserToken) (now : ℕ) (u : ℤ) where
  -- The sessions in the index of the user, encoded
  abbrev pub entries : Memory → Dict String
  entries s = or_nil (HashView.view_all now (index_key c r u) s)

  -- The access token of the user without a session, or ""
  abbrev pub own_token : Memory → String
  own_token s = or_text (StrView.view now (access_key c r u) s)

  get_token_sessions_absent :
      (s : Memory)
      → HashView.view_all now (index_key c r u) s ≡ none
      → get_token_sessions c r now u s ≡ ((h_get_all now (index_key c r u) s).0, done [])
  unfolding get_token_sessions h_get_all
  get_token_sessions_absent s q = ground arith

  get_token_sessions-collect :
      (s : Memory) (m : Dict String)
      → HashView.view_all now (index_key c r u) s ≡ some m
      → get_token_sessions c r now u s ≡ collect c r now u m (h_get_all now (index_key c r u) s).0
  unfolding get_token_sessions
  get_token_sessions-collect s m q =
      rw (get_token_sessions, (HashView.h_get_all-view now (index_key c r u) s m).1 q) refl

  pub get_token_sessions-Lists :
      (s : Memory)
      → IsReady s
      → IsReadable c r now u (entries s)
      → Lists c r now u (entries s) s (get_token_sessions c r now u s)
  get_token_sessions-Lists s h readable =
      let kept = state-h_get_all s h.hashes now (index_key c r u) in
      elim (Option-cases (HashView.view_all now (index_key c r u) s)) [
        | inl q ↦
            rw (get_token_sessions_absent s q, kept, q)
              (record {
                sessions = [];
                answer = refl;
                fits = λ p. refl;
                same = λ t j le. refl;
                ready = h;
              })
        | inr (m, q) ↦
            let readable' = subst (λ o. IsReadable c r now u (or_nil o)) q readable in
            rw (get_token_sessions-collect s m q, kept, q)
              (collect-Lists c r now u m s s h (λ t j le. refl) m q readable')
      ]

  own_is : (s : Memory) → or_empty (get now (access_key c r u) s).1 ≡ own_token s
  unfolding get
  own_is s = ground arith

  get_kept : (k : String) (s : Memory) → (get now k s).0.map_items ≡ s.map_items
  unfolding get
  get_kept k s = ground arith

  get-IsReady : (k : String) (s : Memory) → IsReady s → IsReady (get now k s).0
  get-IsReady k s h = record {
    strings = StrView.get-IsConnected now k s h.strings;
    hashes = IsPersistent-agree s (get now k s).0 (get_kept k s) h.hashes;
  }

  pub any_live-same :
      (p : TokenSession → Bool) (es : Dict String) (s t : Memory)
      → SameStrings now t s
      → any_live c r now u p es t ≡ any_live c r now u p es s
  any_live-same p [] s t same = refl
  any_live-same p ((id, raw) ∷ es) s t same =
      rw (same now (session_key c r u id) (omega arith), any_live-same p es s t same) refl

  -- The user's own token is found again by the second look at its key.
  exists_own :
      (token : String) (s t : Memory)
      → (token == "") ≡ false
      → (own_token s == token) ≡ true
      → SameStrings now t s
      → (exists now (access_key c r u) t).1 ≡ true
  exists_own token s t named own same =
      exists_is now (access_key c r u) t
      ∙ ap is_some (same now (access_key c r u) (omega arith))
      ∙ readable (StrView.view now (access_key c r u) s) own
    where
      readable : (o : Option String) → (or_text o == token) ≡ true → is_some o ≡ true
      readable none q = ground (arith, eq_iff "" token, eq_iff token "", named)
      readable (some v) q = refl

  valid_own :
      (token : String) (s : Memory)
      → (token == "") ≡ false
      → (or_empty (get now (access_key c r u) s).1 == token) ≡ true
      → (exists now (access_key c r u) (get now (access_key c r u) s).0).1 ≡ true
      → (is_access_token_valid c r now u token s).1 ≡ true
  unfolding is_access_token_valid is_exist_access_token
  valid_own token s named own there = rw (named, own) (rw (is_exist_access_token, there) refl)

  valid_other :
      (token : String) (s : Memory)
      → (token == "") ≡ false
      → (or_empty (get now (access_key c r u) s).1 == token) ≡ false
      → (is_access_token_valid c r now u token s).1
        ≡ any_of
            (accepts now token)
            (get_token_sessions c r now u (get now (access_key c r u) s).0).1
  unfolding is_access_token_valid
  valid_other token s named own = rw (named, own) refl

  -- IsAccessTokenValid lets a token pass exactly when it is the user's own access token, or the
  -- index has a session whose mark is there and that accepts the token at this time, as its access
  -- token or, in the grace period, as its previous one; provided that every session of the index can
  -- be decoded.
  pub is_access_token_valid_lem :
      (token : String) (s : Memory)
      → (token == "") ≡ false
      → IsReady s
      → IsReadable c r now u (entries s)
      → (is_access_token_valid c r now u token s).1
        ≡ (own_token s == token) || any_live c r now u (accepts now token) (entries s) s
  is_access_token_valid_lem token s named h readable =
      let t = (get now (access_key c r u) s).0 in
      let same : SameStrings now t s = λ τ j le. StrView.view-get now (access_key c r u) s τ j le in
      let entries_t : entries t ≡ entries s =
        ap (λ (m : GoMap MapItem). or_nil (HashView.fields now (read (index_key c r u) m)))
          (get_kept (access_key c r u) s) in
      elim (Bool-cases (own_token s == token)) [
        | inl own ↦
            rw own
              (valid_own token s named (rw (own_is s) own) (exists_own token s t named own same))
        | inr other ↦
            let l =
              get_token_sessions-Lists t (get-IsReady (access_key c r u) s h)
                (rw entries_t readable) in
            rw other (
              valid_other token s named (rw (own_is s) other)
              ∙ ap (any_of (accepts now token)) (l.answer)
              ∙ l.fits (accepts now token)
              ∙ ap (λ (es : Dict String). any_live c r now u (accepts now token) es t) entries_t
              ∙ any_live-same (accepts now token) (entries s) s t same)
      ]
