-- ===== src/Cache/Memory/Strings/Steps.antt =====
-- cache/memory/memory.go: each operation on string keys against the specification, and
-- sequences of them.
use mathlib.Core.Path.{ap₂}
use kratos_kit.Base.{
  ℕ, ◌≤◌, ◌≡◌, ◌≢◌, refl, ◌∙◌, String, none, some, List, [], ◌∷◌, arith, Option-cases, inl, inr,
}
use kratos_kit.Base.Time.{Time}
use kratos_kit.Base.Int.{ℤ, pos}
use kratos_kit.Cache.Memory.{Memory, StrItem, read}
use kratos_kit.Cache.Memory.Strings
use kratos_kit.Cache.Memory.Strings.{Strconv}
use kratos_kit.Cache.Memory.Strings.View
use kratos_kit.Cache.Memory.Strings.Refinement.{
  Spec, Command, Reply, get, get_del, exists, set, del, expire, incr, time_of, step, spec_step,
  spec_incr, Agrees, Permits,
}

module _ (c : Strconv) where
  open c use {parse_int, format_int}

  -- The operation keeps the agreement and replies as the specification does.
  pub record Simulates (x : Command) (s : Memory) (a : Spec) : Type 0 where
    pub agrees : Agrees (time_of x) (step c x s).0 (spec_step c x a).0
    pub same_reply : (step c x s).1 ≡ (spec_step c x a).1

  module _ (s : Memory) (a : Spec) (start : ℕ) (h : Agrees start s a) where
    get-Simulates : (now : ℕ) (k : String) → start ≤ now → Simulates (get now k) s a
    unfolding step spec_step
    get-Simulates now k le = record {
      agrees = record {
        connected = View.get-IsConnected now k s h.connected;
        views = λ t j q. View.view-get now k s t j q ∙ h.views t j (omega arith);
      };
      same_reply = ground (arith, View.get-view now k s, h.views now k (omega arith));
    }

    exists-Simulates : (now : ℕ) (k : String) → start ≤ now → Simulates (exists now k) s a
    unfolding step spec_step
    exists-Simulates now k le = record {
      agrees = record {
        connected = View.exists-IsConnected now k s h.connected;
        views = λ t j q. View.view-exists now k s t j q ∙ h.views t j (omega arith);
      };
      same_reply = ground (arith, View.exists-view now k s, h.views now k (omega arith));
    }

    get_del-Simulates : (now : ℕ) (k : String) → start ≤ now → Simulates (get_del now k) s a
    unfolding step spec_step
    get_del-Simulates now k le = record {
      agrees = record {
        connected = View.get_del-IsConnected now k s h.connected;
        views = λ t j q. ground (arith, View.view-get_del now k s t j, h.views t j (omega arith));
      };
      same_reply =
          ground
            (arith, View.get_del-get now k s, View.get-view now k s, h.views now k (omega arith));
    }

    del-Simulates : (now : ℕ) (k : String) → start ≤ now → Simulates (del now k) s a
    unfolding step spec_step
    del-Simulates now k le = record {
      agrees = record {
        connected = View.del-IsConnected k s h.connected;
        views = λ t j q. ground (arith, View.view-del k s t j, h.views t j (omega arith));
      };
      same_reply = ground (arith, View.del-ok k s);
    }

    set-Simulates :
        (now later : ℕ) (k v : String) (d : ℤ) → start ≤ now → Simulates (set now later k v d) s a
    unfolding step spec_step
    set-Simulates now later k v d le = record {
      agrees = record {
        connected = View.set-IsConnected now later k s h.connected v d;
        views = λ t j q.
            ground
              (arith, View.view-set now later k s h.connected v d t j, h.views t j (omega arith));
      };
      same_reply = ground (arith, View.set-ok now later k s h.connected v d);
    }

    -- A key that is seen live is held by the cache and by the specification.
    held :
        (now : ℕ) (k : String)
        → start ≤ now
        → View.seen now (a k) ≢ none
        → (item : StrItem) × (v : String) × (t : Time) × (read k s.str_items ≡ some item)
          × (a k ≡ some (v, t))
          × (item.value ≡ v)
    held now k le live = elim (Option-cases (read k s.str_items)) [
      | inl p ↦ absurd (live (ground (arith, h.views now k le)))
      | inr (item, p) ↦ elim (Option-cases (a k)) [
        | inl q ↦ absurd (live (ground arith))
        | inr ((v, t), q) ↦ (item, v, t, p, q, ground (arith, h.views now k le))
      ]
    ]

    expire-Simulates :
        (now later : ℕ) (k : String) (d : ℤ)
        → start ≤ now
        → View.seen now (a k) ≢ none
        → Simulates (expire now later k d) s a
    unfolding step spec_step
    expire-Simulates now later k d le live =
        let (item, v, t', p, q, e) = held now k le live in
        let x = View.expire-Expired now later k s h.connected item d p in
        record {
          agrees = record {
            connected = x.kept;
            views = λ t j r. ground (arith, x.views t j, h.views t j (omega arith));
          };
          same_reply = ground (arith, x.answer);
        }

    bump-Simulates :
        (now later : ℕ) (k : String) (n : ℤ)
        → start ≤ now
        → View.Bumped c now later k n s (Strings.incr c now later k s)
        → spec_step c (incr now later k) a ≡ spec_incr c a k n
        → Simulates (incr now later k) s a
    unfolding step
    bump-Simulates now later k n le b e = record {
      agrees = rw e (record {
        connected = b.kept;
        views = λ t j r. ground (arith, b.views t j, h.views t j (omega arith));
      });
      same_reply = rw e (ground (arith, b.answer));
    }

    spec_incr_fresh :
        (now later : ℕ) (k : String)
        → View.seen now (a k) ≡ none
        → spec_step c (incr now later k) a ≡ spec_incr c a k (pos 0)
    unfolding spec_step
    spec_incr_fresh now later k p = ground arith

    spec_incr_live :
        (now later : ℕ) (k v : String) (n : ℤ)
        → View.seen now (a k) ≡ some v
        → parse_int v ≡ some n
        → spec_step c (incr now later k) a ≡ spec_incr c a k n
    unfolding spec_step
    spec_incr_live now later k v n p q = ground arith

    bad-Simulates :
        (now later : ℕ) (k v : String)
        → start ≤ now
        → View.seen now (a k) ≡ some v
        → parse_int v ≡ none
        → Simulates (incr now later k) s a
    unfolding step spec_step
    bad-Simulates now later k v le p q =
        let e = View.incr_bad c now later k s v (h.views now k le ∙ p) q in
        record {
          agrees = record {
            connected = rw e h.connected;
            views = λ t j r. ground (arith, e, h.views t j (omega arith));
          };
          same_reply = ground (arith, e);
        }

    incr-Simulates : (now later : ℕ) (k : String) → start ≤ now → Simulates (incr now later k) s a
    incr-Simulates now later k le = elim (Option-cases (View.seen now (a k))) [
      | inl p ↦
          bump-Simulates now later k (pos 0) le
            (View.incr_fresh c now later k s h.connected (h.views now k le ∙ p))
            (spec_incr_fresh now later k p)
      | inr (v, p) ↦ elim (Option-cases (parse_int v)) [
        | inl q ↦ bad-Simulates now later k v le p q
        | inr (n, q) ↦
            bump-Simulates now later k n le
              (View.incr_live c now later k s v n h.connected (h.views now k le ∙ p) q)
              (spec_incr_live now later k v n p q)
      ]
    ]

  step-Simulates :
      (x : Command) (s : Memory) (a : Spec) (start : ℕ)
      → Agrees start s a
      → start ≤ time_of x
      → Permits x a
      → Simulates x s a
  step-Simulates (get now k) s a start h le permitted = get-Simulates s a start h now k le
  step-Simulates (get_del now k) s a start h le permitted = get_del-Simulates s a start h now k le
  step-Simulates (exists now k) s a start h le permitted = exists-Simulates s a start h now k le
  step-Simulates (set now later k v d) s a start h le permitted =
      set-Simulates s a start h now later k v d le
  step-Simulates (del now k) s a start h le permitted = del-Simulates s a start h now k le
  step-Simulates (expire now later k d) s a start h le permitted =
      expire-Simulates s a start h now later k d le permitted
  step-Simulates (incr now later k) s a start h le permitted =
      incr-Simulates s a start h now later k le

  -- A sequence of operations, and its replies.
  unfoldable pub run : List Command → Memory → Memory × List Reply
  run [] s = (s, [])
  run (x ∷ xs) s = let (s', r) = step c x s in let (s'', rs) = run xs s' in (s'', r ∷ rs)

  unfoldable pub spec_run : List Command → Spec → List Reply
  spec_run [] a = []
  spec_run (x ∷ xs) a = let (a', r) = spec_step c x a in r ∷ spec_run xs a'

  -- The operations follow one another in time, and Expire is asked only of live keys.
  abbrev pub Proper : ℕ → List Command → Spec → Type 0
  Proper start [] a = Unit
  Proper start (x ∷ xs) a =
      (start ≤ time_of x) × Permits x a × Proper (time_of x) xs (spec_step c x a).0

  -- From a cache and a specification that agree, whatever the operations on string keys, at readings
  -- of the clock that do not go back and with Expire only on keys that have not expired, the cache
  -- replies as the specification does, which never drops an entry, where the two errors of a key with
  -- no value, "key expired" and ErrNotFound, count as one reply. So lazy removal of expired entries
  -- shows in nothing but which of these two Get and GetDel return.
  pub run-refines :
      (xs : List Command) (s : Memory) (a : Spec) (start : ℕ)
      → Agrees start s a
      → Proper start xs a
      → (run xs s).1 ≡ spec_run xs a
  unfolding run spec_run
  run-refines [] s a start h p = refl
  run-refines (x ∷ xs) s a start h (le, permitted, rest) =
      let m = step-Simulates x s a start h le permitted in
      ap₂ ◌∷◌ m.same_reply
        (run-refines xs (step c x s).0 (spec_step c x a).0 (time_of x) m.agrees rest)
