-- ===== src/Auth/Token/Listing.antt =====
-- auth/data/user_token.go: what getTokenSessions lists: the sessions of the index whose mark is there.
use kratos_kit.Base.{
  ℕ, ◌≤◌, ◌≡◌, refl, sym, ap, ◌∙◌, String, Bool, true, false, ◌&&◌, ◌||◌, Option, none, some, List,
  [], ◌∷◌, Bool-cases, inl, inr, arith,
}
use kratos_kit.Base.Int.{ℤ}
use kratos_kit.Base.Dict.{Dict, erase}
use kratos_kit.Cache.Store.{ok}
use kratos_kit.Cache.Memory.{Memory, read}
use kratos_kit.Cache.Memory.Strings.{exists}
use kratos_kit.Cache.Memory.Strings.View as StrView
use kratos_kit.Cache.Memory.Hashes.{h_del}
use kratos_kit.Cache.Memory.Hashes.View as HashView
use kratos_kit.Cache.Memory.Hashes.Writes.{IsPersistent, h_del-IsPersistent, h_del-Deleted}
use kratos_kit.Auth.Token.{
  TokenSession, Codec, UserToken, Answer, done, any, ◌>>=◌, index_key, session_key, keep_first,
  collect,
}

-- Neither map is nil, and no hash has an expiry time.
pub record IsReady (s : Memory) : Type 0 where
  pub strings : StrView.IsConnected s
  pub hashes : IsPersistent s

-- The string keys read the same from `now` on.
abbrev pub SameStrings : ℕ → Memory → Memory → Type 0
SameStrings now s s' = (t : ℕ) (j : String) → now ≤ t → StrView.view t j s ≡ StrView.view t j s'

abbrev pub is_some {ℓ} : {A : Type ℓ} → Option A → Bool
is_some none = false
is_some (some a) = true

exists_kept : (now : ℕ) (k : String) (s : Memory) → (exists now k s).0.map_items ≡ s.map_items
unfolding exists
exists_kept now k s = ground arith

h_del_kept : (now : ℕ) (k f : String) (s : Memory) → (h_del now now k f s).0.str_items ≡ s.str_items
unfolding h_del
h_del_kept now k f s = ground arith

pub exists_is :
    (now : ℕ) (k : String) (s : Memory) → (exists now k s).1 ≡ is_some (StrView.view now k s)
exists_is now k s = StrView.exists-view now k s ∙ ground arith

pub IsPersistent-agree :
    (s t : Memory) → t.map_items ≡ s.map_items → IsPersistent s → IsPersistent t
IsPersistent-agree s t e h = record {
  connected = λ q. h.connected (sym e ∙ q);
  forever = λ k item p. h.forever k item (ap (read k) (sym e) ∙ p);
}

pub exists-IsReady : (now : ℕ) (k : String) (s : Memory) → IsReady s → IsReady (exists now k s).0
exists-IsReady now k s h = record {
  strings = StrView.exists-IsConnected now k s h.strings;
  hashes = IsPersistent-agree s (exists now k s).0 (exists_kept now k s) h.hashes;
}

module _ (c : Codec) (r : UserToken) (now : ℕ) (u : ℤ) where
  open c use {decode}

  -- Whether the mark of a session is there.
  abbrev pub marked : String → Memory → Bool
  marked id s = is_some (StrView.view now (session_key c r u id) s)

  abbrev pub matches : (TokenSession → Bool) → Option TokenSession → Bool
  matches p none = false
  matches p (some x) = p x

  -- Whether an entry of the index with its mark there holds a session that fits.
  abbrev pub any_live : (TokenSession → Bool) → Dict String → Memory → Bool
  any_live p [] s = false
  any_live p ((id, raw) ∷ es) s = (marked id s && matches p (decode raw)) || any_live p es s

  -- Every entry of the index can be decoded.
  abbrev pub IsReadable : Dict String → Type 0
  IsReadable [] = Unit
  IsReadable ((id, raw) ∷ es) = ((x : TokenSession) × (decode raw ≡ some x)) × IsReadable es

  -- A listing that came out, from a state like `s`.
  pub record Lists (es : Dict String) (s : Memory) (l : Memory × Answer (List TokenSession))
      : Type 0 where
    pub sessions : List TokenSession
    pub answer : l.1 ≡ done sessions
    pub fits : (p : TokenSession → Bool) → any p sessions ≡ any_live p es s
    pub same : SameStrings now l.0 s
    pub ready : IsReady l.0

  keep-Lists :
      (id raw : String) (x : TokenSession) (es : Dict String) (s : Memory)
      (l : Memory × Answer (List TokenSession))
      → decode raw ≡ some x
      → marked id s ≡ true
      → Lists es s l
      → Lists ((id, raw) ∷ es) s (l >>= keep_first x)
  keep-Lists id raw x es s (t, a) e there l = rw (l.answer) (record {
    sessions = x ∷ l.sessions;
    answer = refl;
    fits = λ p. rw (e, there, l.fits p) refl;
    same = l.same;
    ready = l.ready;
  })

  -- A stale entry is deleted, and the listing goes on.
  skip-Lists :
      (id raw : String) (es : Dict String) (s : Memory) (l : Memory × Answer (List TokenSession))
      → marked id s ≡ false
      → Lists es s l
      → Lists ((id, raw) ∷ es) s l
  skip-Lists id raw es s l gone h = record {
    sessions = h.sessions;
    answer = h.answer;
    fits = λ p. rw gone (h.fits p);
    same = h.same;
    ready = h.ready;
  }

  collect_kept :
      (id raw : String) (x : TokenSession) (es : Dict String) (s' : Memory)
      → decode raw ≡ some x
      → (exists now (session_key c r u id) s').1 ≡ true
      → collect c r now u ((id, raw) ∷ es) s'
        ≡ (collect c r now u es (exists now (session_key c r u id) s').0 >>= keep_first x)
  unfolding collect
  collect_kept id raw x es s' e q = rw (collect, q) (rw e refl)

  collect_stale :
      (id raw : String) (es : Dict String) (s' : Memory)
      → (exists now (session_key c r u id) s').1 ≡ false
      → (h_del now now (index_key c r u) id (exists now (session_key c r u id) s').0).1 ≡ ok tt
      → collect c r now u ((id, raw) ∷ es) s'
        ≡ collect c r now u es
            (h_del now now (index_key c r u) id (exists now (session_key c r u id) s').0).0
  unfolding collect
  collect_stale id raw es s' q e = rw (collect, q) (rw e refl)

  pub collect-Lists :
      (es : Dict String) (s s' : Memory)
      → IsReady s'
      → SameStrings now s' s
      → (m : Dict String) → HashView.view_all now (index_key c r u) s' ≡ some m
      → IsReadable es
      → Lists es s (collect c r now u es s')
  unfolding collect
  collect-Lists [] s s' h same m q readable = record {
    sessions = [];
    answer = refl;
    fits = λ p. refl;
    same = same;
    ready = h;
  }
  collect-Lists ((id, raw) ∷ es) s s' h same m q ((x, e), readable) =
      let k = session_key c r u id in
      let t = (exists now k s').0 in
      let shown = exists_is now k s' ∙ ap is_some (same now k (omega arith)) in
      let same_t : SameStrings now t s =
        λ τ j le. StrView.view-exists now k s' τ j le ∙ same τ j le in
      let ready_t = exists-IsReady now k s' h in
      let q_t : HashView.view_all now (index_key c r u) t ≡ some m = rw (exists_kept now k s') q in
      elim (Bool-cases (marked id s)) [
        | inl there ↦ rw (collect_kept id raw x es s' e (shown ∙ there)) (
            keep-Lists id raw x es s _ e there (collect-Lists es s t ready_t same_t m q_t readable))
        | inr gone ↦
            let d = h_del-Deleted t ready_t.hashes now (index_key c r u) now id m q_t in
            let v = (h_del now now (index_key c r u) id t).0 in
            let eq = h_del_kept now (index_key c r u) id t in
            rw (collect_stale id raw es s' (shown ∙ gone) d.answer) (
              skip-Lists id raw es s _ gone (
                collect-Lists es s v
                  (record {
                    strings = λ z. ready_t.strings (sym eq ∙ z);
                    hashes = h_del-IsPersistent t ready_t.hashes now (index_key c r u) now id;
                  })
                  (λ τ j le. rw eq (same_t τ j le)) (erase id m) d.left readable))
      ]
