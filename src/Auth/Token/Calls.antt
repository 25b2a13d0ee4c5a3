-- ===== src/Auth/Token/Calls.antt =====
-- auth/data/user_token.go: the calls that make, rotate, check and remove tokens.
use kratos_kit.Base.{ℕ, String, Bool, true, false, List, [], ◌∷◌, ◌==◌, if◌then◌else◌}
use kratos_kit.Base.Int.{ℤ, pos, ltb_ℤ, max_ℤ, ◌-ℤ◌}
use kratos_kit.Cache.Store.{Result, ok, err}
use kratos_kit.Cache.Memory.{Memory}
use kratos_kit.Cache.Memory.Strings.{get, set, del, expire, exists}
use kratos_kit.Cache.Memory.Hashes.{h_del}
use kratos_kit.Auth.Token.{
  TokenSession, Codec, UserToken, create_failed, endless, cache_error, Answer, done, failed, ◌>>=◌,
  lift, is_token_cache_miss, nano_after, accepts, accepts_refresh, any_of, rotate, access_key,
  refresh_key, index_key, session_key, get_token_session, get_token_sessions, save_token_session,
}

-- getAccessTokenFromRedis and getRefreshTokenFromRedis: "" for an error
abbrev pub or_empty : Result String → String
or_empty (ok v) = v
or_empty (err e) = ""

abbrev pub forgive : Memory × Result (Unit {0}) → Memory × Answer (Unit {0})
forgive (s, ok a) = (s, done a)
forgive (s, err e) = if is_token_cache_miss e then (s, done tt) else (s, failed (cache_error e))

-- errors.Join of two calls, the second made whatever the first returns; the first error stands for both.
abbrev pub join :
    Memory × Result (Unit {0}) → (Memory → Memory × Result (Unit {0})) → Memory × Answer (Unit {0})
join (s, ok a) next = lift (next s)
join (s, err e) next = ((next s).0, failed (cache_error e))

-- The time to the later end of the two tokens: the argument of Expire
abbrev pub time_left : ℕ → TokenSession → ℤ
time_left now x = max_ℤ x.access_expires_at x.refresh_expires_at -ℤ pos now

module _ (c : Codec) (r : UserToken) where
  -- The tokens of a user without sessions: setAccessTokenToRedis and setRefreshTokenToRedis
  abbrev pub set_access_token : ℕ → ℤ → String → Memory → Memory × Answer (Unit {0})
  set_access_token now u token s = lift (set now now (access_key c r u) token r.access_expires s)

  abbrev pub set_refresh_token : ℕ → ℤ → String → Memory → Memory × Answer (Unit {0})
  set_refresh_token now u token s = lift (set now now (refresh_key c r u) token r.refresh_expires s)

  -- The first session of a login
  abbrev pub new_session : ℕ → String → String → String → TokenSession
  new_session now id access refresh = record {
    session_id = id;
    access_token = access;
    refresh_token = refresh;
    access_expires_at = nano_after now r.access_expires;
    refresh_expires_at = nano_after now r.refresh_expires;
    previous_access_token = "";
    previous_access_expires_at = pos 0;
  }

  -- GenerateTokenForSession; GenerateToken is the one with the session ""
  unfoldable pub generate_token_for_session :
      ℕ → ℤ → String → String → String → Memory → Memory × Answer (String × String)
  generate_token_for_session now u id access refresh s =
      if access == ""
      then (s, failed create_failed)
      else if id == ""
      then (set_access_token now u access s >>= λ _ t.
          set_refresh_token now u refresh t >>= λ _ v. (v, done (access, refresh)))
      else (lift
            (set now now (session_key c r u id) "1" (max_ℤ r.access_expires r.refresh_expires) s)
          >>= λ _ t. save_token_session c r now u (new_session now id access refresh) t >>= λ _ v.
              (v, done (access, refresh)))

  -- What follows the change of a session: it is saved, and its mark lives longer if it is there.
  abbrev pub store_session :
      ℕ → ℤ → String → String → TokenSession → Memory → Memory × Answer String
  store_session now u id token x s = save_token_session c r now u x s >>= λ _ t.
      lift (expire now now (session_key c r u id) (time_left now x) t) >>= λ _ v. (v, done token)

  -- GenerateAccessTokenForSession; GenerateAccessToken is the one with the session ""
  unfoldable pub generate_access_token_for_session :
      ℕ → ℤ → String → String → Memory → Memory × Answer String
  generate_access_token_for_session now u id access s =
      if id == ""
      then (if access == ""
          then (s, failed create_failed)
          else (set_access_token now u access s >>= λ _ t. (t, done access)))
      else (get_token_session c r now u id s >>= λ x t.
          if access == ""
          then (t, failed create_failed)
          else store_session now u id access (rotate now r.access_expires access x) t)

  -- GenerateRefreshTokenForSession; GenerateRefreshToken is the one with the session ""
  unfoldable pub generate_refresh_token_for_session :
      ℕ → ℤ → String → String → Memory → Memory × Answer String
  generate_refresh_token_for_session now u id refresh s =
      if id == ""
      then (if refresh == ""
          then (s, failed create_failed)
          else (set_refresh_token now u refresh s >>= λ _ t. (t, done refresh)))
      else (get_token_session c r now u id s >>= λ x t.
          if refresh == ""
          then (t, failed create_failed)
          else store_session now u id refresh
              (record x {
                refresh_token = refresh;
                refresh_expires_at = nano_after now r.refresh_expires;
              })
              t)

  -- RemoveTokenForSession for a session that is not ""
  unfoldable pub remove_session : ℕ → ℤ → String → Memory → Memory × Answer (Unit {0})
  remove_session now u id s =
      lift (del (session_key c r u id) s) >>= λ _ t. forgive (h_del now now (index_key c r u) id t)

  -- The loop of RemoveToken; for a session "" the code calls RemoveToken again, which meets the same
  -- session again.
  unfoldable pub remove_sessions : ℕ → ℤ → List TokenSession → Memory → Memory × Answer (Unit {0})
  remove_sessions now u [] s = (s, done tt)
  remove_sessions now u (x ∷ xs) s =
      let rest = λ (a : Unit {0}) (t : Memory). remove_sessions now u xs t in
      if x.session_id == ""
      then (s, failed endless)
      else (remove_session now u x.session_id s >>= rest)

  -- RemoveToken
  unfoldable pub remove_token : ℕ → ℤ → Memory → Memory × Answer (Unit {0})
  remove_token now u s = get_token_sessions c r now u s >>= λ xs t.
      remove_sessions now u xs t >>= λ _ v.
      join (del (access_key c r u) v) (del (refresh_key c r u))

  -- IsExistAccessToken and IsExistRefreshToken
  unfoldable pub is_exist_access_token : ℕ → ℤ → Memory → Memory × Bool
  is_exist_access_token now u s =
      let (t, there) = exists now (access_key c r u) s in
      elim there [
        | true ↦ (t, true)
        | false ↦
            let listed = get_token_sessions c r now u t in
            (listed.0, any_of (λ x. ltb_ℤ (pos now) x.access_expires_at) listed.1)
      ]

  unfoldable pub is_exist_refresh_token : ℕ → ℤ → Memory → Memory × Bool
  is_exist_refresh_token now u s =
      let (t, there) = exists now (refresh_key c r u) s in
      elim there [
        | true ↦ (t, true)
        | false ↦
            let listed = get_token_sessions c r now u t in
            (listed.0, any_of (λ x. ltb_ℤ (pos now) x.refresh_expires_at) listed.1)
      ]

  -- GetAccessToken and GetRefreshToken
  abbrev pub get_access_token : ℕ → ℤ → Memory → Memory × String
  get_access_token now u s = let (t, found) = get now (access_key c r u) s in (t, or_empty found)

  abbrev pub get_refresh_token : ℕ → ℤ → Memory → Memory × String
  get_refresh_token now u s = let (t, found) = get now (refresh_key c r u) s in (t, or_empty found)

  -- IsAccessTokenValid
  unfoldable pub is_access_token_valid : ℕ → ℤ → String → Memory → Memory × Bool
  is_access_token_valid now u token s =
      if token == ""
      then (s, false)
      else let (t, own) = get_access_token now u s in
        if own == token
        then is_exist_access_token now u t
        else (let listed = get_token_sessions c r now u t in
            (listed.0, any_of (accepts now token) listed.1))

  -- IsRefreshTokenValid
  unfoldable pub is_refresh_token_valid : ℕ → ℤ → String → Memory → Memory × Bool
  is_refresh_token_valid now u token s =
      if token == ""
      then (s, false)
      else let (t, own) = get_refresh_token now u s in
        if own == token
        then is_exist_refresh_token now u t
        else (let listed = get_token_sessions c r now u t in
            (listed.0, any_of (accepts_refresh now token) listed.1))
