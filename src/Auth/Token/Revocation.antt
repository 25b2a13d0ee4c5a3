-- ===== src/Auth/Token/Revocation.antt =====
-- auth/data/user_token.go: what RemoveTokenForSession takes back.
use kratos_kit.Base.{
  ℕ, ◌≡◌, refl, ap, ◌∙◌, String, false, none, some, List, [], ◌∷◌, Option-cases, inl, inr, arith,
  ◌==◌, eq_iff, eq_refl,
}
use kratos_kit.Base.Int.{ℤ}
use kratos_kit.Base.Dict.{lookup-erase, lookup-insert}
use kratos_kit.Cache.Store.{Result, ok, err}
use kratos_kit.Cache.Memory.{Memory, StrItem, GoMap, read, remove}
use kratos_kit.Cache.Memory.Strings.{get, set, del, expire, exists, write_str, drop_str}
use kratos_kit.Cache.Memory.Hashes.{h_get, h_get_all, h_set, h_del}
use kratos_kit.Auth.Token.{
  Codec, UserToken, failed, session_not_found, index_key, session_key, get_token_session,
}
use kratos_kit.Auth.Token.Calls.{forgive, remove_session}

-- A call of the cache by any of the calls on tokens, of any user, in any order.
pub data CacheCall : Type 0 where
  gets exist_tests : ℕ → String → CacheCall
  sets : ℕ → String → String → ℤ → CacheCall
  dels : String → CacheCall
  expires : ℕ → String → ℤ → CacheCall
  h_gets : ℕ → String → String → CacheCall
  h_lists : ℕ → String → CacheCall
  h_sets : ℕ → String → String → String → CacheCall
  h_dels : ℕ → String → String → CacheCall

unfoldable pub call : CacheCall → Memory → Memory
call (gets now k) s = (get now k s).0
call (exist_tests now k) s = (exists now k s).0
call (sets now k v d) s = (set now now k v d s).0
call (dels k) s = (del k s).0
call (expires now k d) s = (expire now now k d s).0
call (h_gets now k f) s = (h_get now k f s).0
call (h_lists now k) s = (h_get_all now k s).0
call (h_sets now k f v) s = (h_set now now now k f v s).0
call (h_dels now k f) s = (h_del now now k f s).0

unfoldable pub calls : List CacheCall → Memory → Memory
calls [] s = s
calls (x ∷ xs) s = calls xs (call x s)

-- None of the calls sets the key.
abbrev pub Spares : String → List CacheCall → Type 0
Spares k [] = Unit
Spares k (sets now j v d ∷ xs) = ((j == k) ≡ false) × Spares k xs
Spares k (x ∷ xs) = Spares k xs

abbrev IsAbsent : String → Memory → Type 0
IsAbsent k s = read k s.str_items ≡ none

read-erase : (k j : String) (m : GoMap StrItem) → read j m ≡ none → read j (remove k m) ≡ none
read-erase k j none h = refl
read-erase k j (some m) h = ground (arith, lookup-erase k j m)

module _ (k : String) (s : Memory) (h : IsAbsent k s) where
  get-IsAbsent : (now : ℕ) (j : String) → IsAbsent k (get now j s).0
  unfolding get
  get-IsAbsent now j = ground (arith, read-erase j k s.str_items h)

  exists-IsAbsent : (now : ℕ) (j : String) → IsAbsent k (exists now j s).0
  unfolding exists
  exists-IsAbsent now j = ground (arith, read-erase j k s.str_items h)

  del-IsAbsent : (j : String) → IsAbsent k (del j s).0
  unfolding del
  del-IsAbsent j = read-erase j k s.str_items h

  write-IsAbsent :
      (j : String) (item : StrItem)
      → (j == k) ≡ false
      → IsAbsent k (write_str {A = Unit {0}} j item tt s).0
  write-IsAbsent j item other = elim (Option-cases s.str_items) [
    | inl p ↦ ground arith
    | inr (m, p) ↦ ground (arith, lookup-insert j k item m)
  ]

  set-IsAbsent :
      (now : ℕ) (j v : String) (d : ℤ) → (j == k) ≡ false → IsAbsent k (set now now j v d s).0
  unfolding set
  set-IsAbsent now j v d other = write-IsAbsent j _ other

  -- Expire writes only under a key that is there.
  expire-IsAbsent : (now : ℕ) (j : String) (d : ℤ) → IsAbsent k (expire now now j d s).0
  unfolding expire
  expire-IsAbsent now j d = elim (Option-cases (read j s.str_items)) [
    | inl p ↦ rw (expire, p) h
    | inr (item, p) ↦ rw (expire, p) (write-IsAbsent j _ (ground (arith, eq_iff j k)))
  ]

  -- Hashes are in a map of their own.
  hash-IsAbsent : (t : Memory) → t.str_items ≡ s.str_items → IsAbsent k t
  hash-IsAbsent t e = ap (read k) e ∙ h

calls-IsAbsent :
    (k : String) (xs : List CacheCall) (s : Memory)
    → Spares k xs
    → IsAbsent k s
    → IsAbsent k (calls xs s)
unfolding calls call h_get h_get_all h_set h_del
calls-IsAbsent k [] s p h = h
calls-IsAbsent k (gets now j ∷ xs) s p h = calls-IsAbsent k xs _ p (get-IsAbsent k s h now j)
calls-IsAbsent k (exist_tests now j ∷ xs) s p h =
    calls-IsAbsent k xs _ p (exists-IsAbsent k s h now j)
calls-IsAbsent k (sets now j v d ∷ xs) s (other, p) h =
    calls-IsAbsent k xs _ p (set-IsAbsent k s h now j v d other)
calls-IsAbsent k (dels j ∷ xs) s p h = calls-IsAbsent k xs _ p (del-IsAbsent k s h j)
calls-IsAbsent k (expires now j d ∷ xs) s p h =
    calls-IsAbsent k xs _ p (expire-IsAbsent k s h now j d)
calls-IsAbsent k (h_gets now j f ∷ xs) s p h =
    calls-IsAbsent k xs (h_get now j f s).0 p
      (hash-IsAbsent k s h (h_get now j f s).0 (ground arith))
calls-IsAbsent k (h_lists now j ∷ xs) s p h =
    calls-IsAbsent k xs (h_get_all now j s).0 p
      (hash-IsAbsent k s h (h_get_all now j s).0 (ground arith))
calls-IsAbsent k (h_sets now j f v ∷ xs) s p h =
    calls-IsAbsent k xs (h_set now now now j f v s).0 p
      (hash-IsAbsent k s h (h_set now now now j f v s).0 (ground arith))
calls-IsAbsent k (h_dels now j f ∷ xs) s p h =
    calls-IsAbsent k xs (h_del now now j f s).0 p
      (hash-IsAbsent k s h (h_del now now j f s).0 (ground arith))

module _ (c : Codec) (r : UserToken) (u : ℤ) (id : String) where
  forgive_state : (p : Memory × Result (Unit {0})) → (forgive p).0 ≡ p.0
  forgive_state (s, ok a) = refl
  forgive_state (s, err e) = ground arith

  pub remove_session-state :
      (now : ℕ) (s : Memory)
      → (remove_session c r now u id s).0
        ≡ (h_del now now (index_key c r u) id (del (session_key c r u id) s).0).0
  unfolding remove_session del
  remove_session-state now s =
      forgive_state (h_del now now (index_key c r u) id (drop_str (session_key c r u id) s))

  read-remove_self : (k : String) (m : GoMap StrItem) → read k (remove k m) ≡ none
  read-remove_self k none = refl
  read-remove_self k (some m) = ground (arith, lookup-erase k k m, eq_refl k)

  pub h_del_strings :
      (now : ℕ) (k f : String) (s : Memory) → (h_del now now k f s).0.str_items ≡ s.str_items
  unfolding h_del
  h_del_strings now k f s = ground arith

  removed-IsAbsent :
      (now : ℕ) (s : Memory) → IsAbsent (session_key c r u id) (remove_session c r now u id s).0
  unfolding del
  removed-IsAbsent now s =
      let k = session_key c r u id in
      rw (remove_session-state now s) (
        ap (read k) (h_del_strings now (index_key c r u) id (del k s).0)
        ∙ read-remove_self k s.str_items)

  exists_absent : (t : ℕ) (k : String) (s : Memory) → IsAbsent k s → (exists t k s).1 ≡ false
  unfolding exists
  exists_absent t k s h = ground arith

  absent_fails :
      (t : ℕ) (s : Memory)
      → IsAbsent (session_key c r u id) s
      → (get_token_session c r t u id s).1 ≡ failed session_not_found
  unfolding get_token_session
  absent_fails t s h = rw (get_token_session, exists_absent t (session_key c r u id) s h) refl

  -- A removed session stays removed: whatever calls the cache meets behind the removal, of this and
  -- of other users, those of a refresh that was under way included, as long as none sets the mark of
  -- this session again (which only a login does), the session is not found at any later time.
  pub remove_session-final :
      (now t : ℕ) (xs : List CacheCall) (s : Memory)
      → Spares (session_key c r u id) xs
      → (get_token_session c r t u id (calls xs (remove_session c r now u id s).0)).1
        ≡ failed session_not_found
  remove_session-final now t xs s p = absent_fails t _ (
      calls-IsAbsent (session_key c r u id) xs (remove_session c r now u id s).0 p
        (removed-IsAbsent now s))
