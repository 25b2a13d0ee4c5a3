-- ===== src/Auth/Token/Rotation.antt =====
-- auth/data/user_token.go: the refresh of an access token, and its grace period.
use kratos_kit.Base.{
  ℕ, ◌+◌, ◌^◌, ◌<◌, ◌≡◌, refl, sym, ap, ◌∙◌, String, true, false, some, Option-cases, inl, inr,
  arith, ◌==◌, eq_refl,
}
use mathlib.Core.Path.{subst}
use kratos_kit.Base.Int.{ℤ, pos, ltb_ℤ, min_ℤ}
use kratos_kit.Base.Time.{minute}
use kratos_kit.Cache.Store.{Result, ok}
use kratos_kit.Cache.Memory.{Memory, StrItem, read}
use kratos_kit.Cache.Memory.Strings.{expire, exists}
use kratos_kit.Cache.Memory.Strings.View as StrView
use kratos_kit.Cache.Memory.Hashes.{h_set}
use kratos_kit.Cache.Memory.Hashes.View as HashView
use kratos_kit.Cache.Memory.Hashes.Writes.{
  or_nil, IsPersistent, view_all-h_set, h_set-ok, h_set-IsPersistent, state-h_get,
}
use kratos_kit.Auth.Token.{
  TokenSession, Codec, UserToken, Answer, done, nano_after, grace_period, rotate, index_key,
  session_key, get_token_session, decoded,
}
use kratos_kit.Auth.Token.Calls.{
  generate_access_token_for_session, is_access_token_valid, time_left,
}
use kratos_kit.Auth.Token.Listing.{IsReady, is_some, marked, IsReadable, IsPersistent-agree}
use kratos_kit.Auth.Token.Validity.{entries}
use kratos_kit.Auth.Token.Login.{
  nano_after-exact, lives, left_ge, h_set_strings, expire_hashes, Saved, Saved-valid, entries_of,
}

module _ (c : Codec) (r : UserToken) (u : ℤ) where
  open c use {encode, decode, decode-encode}

  exists_live :
      (now : ℕ) (k : String) (s : Memory)
      → is_some (StrView.view now k s) ≡ true
      → exists now k s ≡ (s, true)
  unfolding exists
  exists_live now k s h = ground arith

  item_live :
      (now : ℕ) (k : String) (s : Memory)
      → is_some (StrView.view now k s) ≡ true
      → (item : StrItem) × (read k s.str_items ≡ some item)
  item_live now k s h = elim (Option-cases (read k s.str_items)) [
    | inl q ↦ absurd (ground arith)
    | inr (item, q) ↦ (item, q)
  ]

  found_session :
      (now : ℕ) (x : TokenSession) (s : Memory)
      → IsPersistent s
      → marked c r now u x.session_id s ≡ true
      → HashView.view now (index_key c r u) x.session_id s ≡ some (encode x)
      → get_token_session c r now u x.session_id s ≡ (s, done x)
  unfolding get_token_session
  found_session now x s h there listed =
      rw (get_token_session, exists_live now (session_key c r u x.session_id) s there)
        (rw
          (
            (HashView.h_get-view now (index_key c r u) s x.session_id (encode x)).1 listed,
            state-h_get s h now (index_key c r u) x.session_id,
          )
          (rw (decoded, decode-encode x) refl))

  -- The state between the write of the index and the extension of the mark
  abbrev saved_state : ℕ → TokenSession → Memory → Memory
  saved_state now x s = (h_set now now now (index_key c r u) x.session_id (encode x) s).0

  -- The state that a refresh of the access token leaves, which has saved `y` for `x`
  abbrev rotated_state : ℕ → TokenSession → TokenSession → Memory → Memory × Result (Unit {0})
  rotated_state now x y s =
      expire now now (session_key c r u x.session_id) (time_left now y) (saved_state now y s)

  rotation_is :
      (now : ℕ) (x y : TokenSession) (token : String) (s : Memory)
      → (token == "") ≡ false
      → (x.session_id == "") ≡ false
      → IsPersistent s
      → marked c r now u x.session_id s ≡ true
      → HashView.view now (index_key c r u) x.session_id s ≡ some (encode x)
      → rotate now r.access_expires token x ≡ y
      → (rotated_state now x y s).1 ≡ ok tt
      → generate_access_token_for_session c r now u x.session_id token s
        ≡ ((rotated_state now x y s).0, done token)
  unfolding generate_access_token_for_session
  rotation_is now x y token s named session p there listed e extended =
      rw (session, found_session now x s p there listed)
        (rw (named, e)
          (rw (h_set-ok s p now (index_key c r u) now now y.session_id (encode y))
            (rw extended refl)))

  -- What a rotation leaves, at a time before the new access token expires.
  record Rotated (now t : ℕ) (x y : TokenSession) (s : Memory) : Type 0 where
    saved : Saved c r u t y.session_id y (entries c r t u s) (rotated_state now x y s).0
    answer : (rotated_state now x y s).1 ≡ ok tt

  rotation-Rotated :
      (now a t : ℕ) (x y : TokenSession) (s : Memory) (item : StrItem)
      → t < now + a
      → y.access_expires_at ≡ pos (now + a)
      → y.session_id ≡ x.session_id
      → IsReady s
      → IsReadable c r t u (entries c r t u s)
      → read (session_key c r u x.session_id) s.str_items ≡ some item
      → Rotated now t x y s
  rotation-Rotated now a t x y s item early expires same_id h readable held =
      let k = session_key c r u x.session_id in
      let w = saved_state now y s in
      let e = h_set_strings now (index_key c r u) y.session_id (encode y) s in
      let strings : StrView.IsConnected w = λ q. h.strings (sym e ∙ q) in
      let hashes =
        h_set-IsPersistent s h.hashes now (index_key c r u) now now y.session_id (encode y) in
      let x' =
        StrView.expire-Expired now now k w strings item (time_left now y) (ap (read k) e ∙ held) in
      let kept = expire_hashes now k (time_left now y) w in
      let v = (rotated_state now x y s).0 in
      let there : marked c r t u x.session_id (rotated_state now x y s).0 ≡ true =
        ap is_some (x'.views t k)
        ∙ rw
            (
              eq_refl k,
              lives now a t (time_left now y)
                  (left_ge now a y.access_expires_at y.refresh_expires_at expires) early,
            )
            refl in
      record {
        saved = record {
          ready = record { strings = x'.kept; hashes = IsPersistent-agree w v kept hashes };
          listed =
              entries_of c r u t w v kept
              ∙ ap or_nil (
                  view_all-h_set s h.hashes now (index_key c r u) now now y.session_id (encode y)
                    t);
          readable = readable;
          mark =
              subst (λ i. marked c r t u i (rotated_state now x y s).0 ≡ true) (sym same_id) there;
        };
        answer = x'.answer;
      }

  -- A refresh of the access token of a live session succeeds; the new token passes at any time before
  -- it expires, and the old one at any time before its own end, the end of a minute after the refresh
  -- and the end of the new token; provided that the sessions of the index can be decoded then.
  pub rotation-valid :
      (now a t soon : ℕ) (x : TokenSession) (token : String) (s : Memory)
      → (token == "") ≡ false
      → (x.access_token == "") ≡ false
      → (x.access_token == token) ≡ false
      → (x.session_id == "") ≡ false
      → r.access_expires ≡ pos a
      → now + a < 2 ^ 63
      → now + minute < 2 ^ 63
      → IsReady s
      → marked c r now u x.session_id s ≡ true
      → HashView.view now (index_key c r u) x.session_id s ≡ some (encode x)
      → t < now + a
      → IsReadable c r t u (entries c r t u s)
      → soon < now + a
      → soon < now + minute
      → ltb_ℤ (pos soon) x.access_expires_at ≡ true
      → IsReadable c r soon u (entries c r soon u s)
      → (let (s', answer) = generate_access_token_for_session c r now u x.session_id token s in
          (answer ≡ done token)
          × ((is_access_token_valid c r t u token s').1 ≡ true)
          × ((is_access_token_valid c r soon u x.access_token s').1 ≡ true))
  rotation-valid now a t soon x token s named old changed session expires small grace h there listed
        early readable soon_early in_grace live soon_readable =
      let y : TokenSession = record x {
        previous_access_token = x.access_token;
        previous_access_expires_at = min_ℤ x.access_expires_at (nano_after now (pos grace_period));
        access_token = token;
        access_expires_at = nano_after now r.access_expires;
      } in
      let turned : rotate now r.access_expires token x ≡ y = rw (old, changed) refl in
      let ends : y.access_expires_at ≡ pos (now + a) = rw expires (nano_after-exact now a small) in
      let (item, held) = item_live now (session_key c r u x.session_id) s there in
      let z = rotation-Rotated now a t x y s item early ends refl h readable held in
      let w = rotation-Rotated now a soon x y s item soon_early ends refl h soon_readable held in
      let e = rotation_is now x y token s named session h.hashes there listed turned z.answer in
      (
        ap (λ (p : Memory × Answer String). p.1) e,
        rw e (
            Saved-valid c r u t x.session_id token y (entries c r t u s) _ z.saved named
              (rw (eq_refl token, ends) (ground arith))),
        rw e (
            Saved-valid c r u soon x.session_id x.access_token y (entries c r soon u s) _ w.saved
              old (rw (eq_refl x.access_token, nano_after-exact now minute grace) (ground arith))),
      )
