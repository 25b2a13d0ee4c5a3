-- ===== src/Auth/Token/Login.antt =====
-- auth/data/user_token.go: a login for a session.
use kratos_kit.Base.{
  ℕ, zero, suc, ◌+◌, ◌^◌, ◌<◌, ◌≡◌, refl, sym, ap, ◌∙◌, String, true, false, [], ◌∷◌, Bool-cases,
  inl, inr, arith, ◌==◌, eq_refl,
}
use kratos_kit.Base.Int.{ℤ, pos, negsuc, ltb_ℤ, max_ℤ, ◌+ℤ◌, ◌-ℤ◌, wrap_of_InInt64}
use kratos_kit.Base.Dict.{Dict, insert, erase}
use kratos_kit.Cache.Memory.{Memory, StrItem, MapItem, GoMap, read, expiration, has_expired}
use kratos_kit.Cache.Memory.Strings.{set, expire}
use kratos_kit.Cache.Memory.Strings.View as StrView
use kratos_kit.Cache.Memory.Hashes.{h_set}
use kratos_kit.Cache.Memory.Hashes.View as HashView
use kratos_kit.Cache.Memory.Hashes.Writes.{
  or_nil, IsPersistent, view_all-h_set, h_set-ok, h_set-IsPersistent,
}
use kratos_kit.Auth.Token.{
  TokenSession, Codec, UserToken, Answer, done, accepts, nano_after, index_key, session_key,
}
use kratos_kit.Auth.Token.Calls.{new_session, generate_token_for_session, is_access_token_valid}
use kratos_kit.Auth.Token.Listing.{IsReady, is_some, marked, IsReadable, IsPersistent-agree}
use kratos_kit.Auth.Token.Validity.{entries, is_access_token_valid_lem}

-- Times within the range of int64
pub nano_after-exact : (now a : ℕ) → now + a < 2 ^ 63 → nano_after now (pos a) ≡ pos (now + a)
unfolding ◌+ℤ◌
nano_after-exact now a h = rw (wrap_of_InInt64 (pos now +ℤ pos a) (ground arith)) (ground arith)

-- A mark that is set for at least `a` is there for that long.
pub lives :
    (now a t : ℕ) (d : ℤ)
    → ltb_ℤ d (pos a) ≡ false
    → t < now + a
    → has_expired t (expiration now d) ≡ false
lives now a t (pos zero) h k = refl
lives now a t (pos (suc n)) h k = ground arith
lives now a t (negsuc n) h k = refl

max_ge : (a : ℕ) (x y : ℤ) → x ≡ pos a → ltb_ℤ (max_ℤ x y) (pos a) ≡ false
max_ge a x y e = rw e (ground arith)

pub left_ge :
    (now a : ℕ) (x y : ℤ) → x ≡ pos (now + a) → ltb_ℤ (max_ℤ x y -ℤ pos now) (pos a) ≡ false
unfolding ◌-ℤ◌
left_ge now a x y e = rw e (ground arith)

pub h_set_strings :
    (now : ℕ) (k f v : String) (s : Memory) → (h_set now now now k f v s).0.str_items ≡ s.str_items
unfolding h_set
h_set_strings now k f v s = ground arith

set_hashes :
    (now : ℕ) (k v : String) (d : ℤ) (s : Memory) → (set now now k v d s).0.map_items ≡ s.map_items
unfolding set
set_hashes now k v d s = ground arith

pub expire_hashes :
    (now : ℕ) (k : String) (d : ℤ) (s : Memory) → (expire now now k d s).0.map_items ≡ s.map_items
unfolding expire
expire_hashes now k d s = ground arith

module _ (c : Codec) (r : UserToken) (u : ℤ) where
  open c use {encode, decode, decode-encode}

  erase-IsReadable :
      (now : ℕ) (id : String) (es : Dict String)
      → IsReadable c r now u es
      → IsReadable c r now u (erase id es)
  unfolding erase
  erase-IsReadable now id [] h = h
  erase-IsReadable now id ((j, raw) ∷ es) (x, h) = elim (Bool-cases (j == id)) [
    | inl q ↦ rw q (erase-IsReadable now id es h)
    | inr q ↦ rw q (x, erase-IsReadable now id es h)
  ]

  -- The index has just got a session, and its mark is there.
  pub record Saved (t : ℕ) (id : String) (x : TokenSession) (rest : Dict String) (s : Memory)
      : Type 0 where
    pub ready : IsReady s
    pub listed : entries c r t u s ≡ insert id (encode x) rest
    pub readable : IsReadable c r t u rest
    pub mark : marked c r t u id s ≡ true

  pub Saved-valid :
      (t : ℕ) (id token : String) (x : TokenSession) (rest : Dict String) (s : Memory)
      → Saved t id x rest s
      → (token == "") ≡ false
      → accepts t token x ≡ true
      → (is_access_token_valid c r t u token s).1 ≡ true
  unfolding insert
  Saved-valid t id token x rest s h named passes =
      let readable : IsReadable c r t u (entries c r t u s) =
        rw (h.listed) ((x, decode-encode x), erase-IsReadable t id rest h.readable) in
      is_access_token_valid_lem c r t u token s named h.ready readable
      ∙ rw (h.listed) (rw (h.mark, decode-encode x, passes) (ground arith))

  -- Saving a session: the index of the user gets it, and the string keys stay.
  save-Saved :
      (now t : ℕ) (x : TokenSession) (s : Memory)
      → IsReady s
      → IsReadable c r t u (entries c r t u s)
      → marked c r t u x.session_id s ≡ true
      → Saved t x.session_id x
          (entries c r t u s)
          (h_set now now now (index_key c r u) x.session_id (encode x) s).0
  save-Saved now t x s h readable there =
      let k = index_key c r u in
      let e = h_set_strings now k x.session_id (encode x) s in
      record {
        ready = record {
          strings = λ q. h.strings (sym e ∙ q);
          hashes = h_set-IsPersistent s h.hashes now k now now x.session_id (encode x);
        };
        listed = ap or_nil (view_all-h_set s h.hashes now k now now x.session_id (encode x) t);
        readable = readable;
        mark =
            ap
              (λ (m : GoMap StrItem).
                is_some (StrView.seen t (StrView.stored (read (session_key c r u x.session_id) m))))
              e
            ∙ there;
      }

  -- The state between the two writes of a login
  abbrev marked_state : ℕ → String → Memory → Memory
  marked_state now id s =
      (set now now (session_key c r u id) "1" (max_ℤ r.access_expires r.refresh_expires) s).0

  login_is :
      (now : ℕ) (id access refresh : String) (s : Memory)
      → (access == "") ≡ false
      → (id == "") ≡ false
      → IsReady s
      → IsPersistent (marked_state now id s)
      → generate_token_for_session c r now u id access refresh s ≡ (
        (h_set now now now
            (index_key c r u)
            id
            (encode (new_session c r now id access refresh))
            (marked_state now id s)).0,
        done (access, refresh),
      )
  unfolding generate_token_for_session
  login_is now id access refresh s named session h p =
      rw
        (
          named,
          session,
          StrView.set-ok now now (session_key c r u id) s h.strings "1"
              (max_ℤ r.access_expires r.refresh_expires),
          h_set-ok (marked_state now id s) p now (index_key c r u) now now id
              (encode (new_session c r now id access refresh)),
        )
        refl

  pub entries_of :
      (t : ℕ) (s v : Memory) → v.map_items ≡ s.map_items → entries c r t u v ≡ entries c r t u s
  entries_of t s v q =
      ap (λ (m : GoMap MapItem). or_nil (HashView.fields t (read (index_key c r u) m))) q

  -- A login for a session succeeds, and its access token passes from then on until it expires,
  -- provided that the sessions of the index can be decoded.
  pub login-valid :
      (now a t : ℕ) (id access refresh : String) (s : Memory)
      → (access == "") ≡ false
      → (id == "") ≡ false
      → r.access_expires ≡ pos a
      → now + a < 2 ^ 63
      → t < now + a
      → IsReady s
      → IsReadable c r t u (entries c r t u s)
      → ((generate_token_for_session c r now u id access refresh s).1 ≡ done (access, refresh))
        × ((is_access_token_valid c r t u access
              (generate_token_for_session c r now u id access refresh s).0).1
            ≡ true)
  login-valid now a t id access refresh s named session expires small early h readable =
      let k = session_key c r u id in
      let d = max_ℤ r.access_expires r.refresh_expires in
      let v = marked_state now id s in
      let same = set_hashes now k "1" d s in
      let persistent = IsPersistent-agree s v same h.hashes in
      let e = login_is now id access refresh s named session h persistent in
      let x = new_session c r now id access refresh in
      let ready_v : IsReady v = record {
        strings = StrView.set-IsConnected now now k s h.strings "1" d;
        hashes = persistent;
      } in
      let listed : entries c r t u v ≡ entries c r t u s = entries_of t s v same in
      let there : marked c r t u id v ≡ true =
        ap is_some (StrView.view-set now now k s h.strings "1" d t k)
        ∙ rw
            (eq_refl k, lives now a t d (max_ge a r.access_expires r.refresh_expires expires) early)
            refl in
      let saved = save-Saved now t x v ready_v (rw listed readable) there in
      (
        ap (λ (p : Memory × Answer (String × String)). p.1) e,
        rw e (
            Saved-valid t id access x (entries c r t u v) _ saved named
              (rw (eq_refl access, expires, nano_after-exact now a small) (ground arith))),
      )
