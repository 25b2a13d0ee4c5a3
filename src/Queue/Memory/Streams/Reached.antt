-- ===== src/Queue/Memory/Streams/Reached.antt =====
-- queue/memory/memory.go: every channel of a queue, replaced ones included, is in a state that actions
-- of its own lead to.
use kratos_kit.Base.{
  ℕ, zero, suc, not, ◌&&◌, ◌≡◌, refl, sym, ap, ◌∙◌, String, Bool, true, false, Option, none, some,
  List, [], ◌∷◌, ◌++◌, Option-cases, Bool-cases, inl, inr, ◌==◌, arith,
}
use mathlib.Core.Path.{subst}
use kratos_kit.Base.Int.{ℤ}
use kratos_kit.Base.Dict.{Dict, lookup, insert, lookup-insert}
use kratos_kit.Queue.Memory.{
  Message, Stream, Action, make_queue, at, set_at, act, run, or_same, shutdown,
}
use kratos_kit.Queue.Memory.Streams.{
  Memory, fresh_stream, stream_of, put, updated, append, miss, is_in, take_out, and_old, store,
  register, close, close_all, close_each, shut_down, advance, set_or_same, act_at, advance_replaced,
  is_free, is_missing, is_inner, Event, appends, stores, misses, registers, shuts, advances,
  advances_replaced, handle, handle_all,
}

-- Some actions lead from a new channel to this state of it.
abbrev pub IsReached : ℤ → Stream → Type 0
IsReached p s = (xs : List Action) × (s ≡ run xs (make_queue p))

abbrev pub AllReached : ℤ → List Stream → Type 0
AllReached p [] = Unit
AllReached p (s ∷ l) = IsReached p s × AllReached p l

pub record AreReached (p : ℤ) (q : Memory) : Type 0 where
  pub pool : q.pool_num ≡ p
  pub stored : (name : String) (s : Stream) → lookup name q.streams ≡ some s → IsReached p s
  pub old : AllReached p q.replaced

run-append : (xs ys : List Action) (s : Stream) → run (xs ++ ys) s ≡ run ys (run xs s)
unfolding run
run-append [] ys s = refl
run-append (x ∷ xs) ys s = run-append xs ys (or_same s (act x s))

act-IsReached :
    (p : ℤ) (x : Action) (s s' : Stream) → IsReached p s → act x s ≡ some s' → IsReached p s'
unfolding run
act-IsReached p x s s' (xs, e) h = (
  xs ++ x ∷ [],
  sym (ap (or_same s) h)
      ∙ ap (λ t. or_same t (act x t)) e
      ∙ sym (run-append xs (x ∷ []) (make_queue p)),
)

close-IsReached : (p : ℤ) (s : Stream) → IsReached p s → IsReached p (close s)
unfolding act
close-IsReached p s h = act-IsReached p shutdown s (close s) h refl

fresh_IsReached : (p : ℤ) (b : Bool) → IsReached p (record (make_queue p) { closed = b })
unfolding run
fresh_IsReached p false = ([], refl)
fresh_IsReached p true = close-IsReached p (make_queue p) ([], refl)

some_inj : (s t : Stream) → some s ≡ some t → s ≡ t
some_inj s t e = ground arith

module _ (p : ℤ) where
  fresh_stream-IsReached : (q : Memory) → AreReached p q → IsReached p (fresh_stream q)
  fresh_stream-IsReached q h =
      subst (λ n. IsReached p (record (make_queue n) { closed = q.is_closed })) (sym h.pool)
        (fresh_IsReached p q.is_closed)

  pub stream_of-IsReached :
      (name : String) (q : Memory) → AreReached p q → IsReached p (stream_of name q)
  unfolding stream_of
  stream_of-IsReached name q h = elim (Option-cases (lookup name q.streams)) [
    | inl e ↦ rw e (fresh_stream-IsReached q h)
    | inr (s, e) ↦ rw e (h.stored name s e)
  ]

  put-AreReached :
      (name : String) (s : Stream) (q : Memory)
      → AreReached p q
      → IsReached p s
      → AreReached p (put name s q)
  put-AreReached name s q h t = record {
    pool = h.pool;
    old = h.old;
    stored = λ n u e. elim (Bool-cases (name == n)) [
      | inl b ↦ subst (IsReached p) (put_here name n s u q b e) t
      | inr b ↦ h.stored n u (put_elsewhere name n s u q b e)
    ];
  }
    where
      put_here :
          (name n : String) (s u : Stream) (q : Memory)
          → (name == n) ≡ true
          → lookup n (insert name s q.streams) ≡ some u
          → s ≡ u
      put_here name n s u q b e = ground (arith, lookup-insert name n s q.streams)

      put_elsewhere :
          (name n : String) (s u : Stream) (q : Memory)
          → (name == n) ≡ false
          → lookup n (insert name s q.streams) ≡ some u
          → lookup n q.streams ≡ some u
      put_elsewhere name n s u q b e = ground (arith, lookup-insert name n s q.streams)

  updated-AreReached :
      (name : String) (x : Action) (s : Stream) (q : Memory) (o : Option Stream)
      → act x s ≡ o
      → AreReached p q
      → IsReached p s
      → AreReached p (updated name q o).0
  updated-AreReached name x s q none e h t = h
  updated-AreReached name x s q (some s') e h t =
      put-AreReached name s' q h (act-IsReached p x s s' t e)

  -- One action of the stream of a name
  acted-AreReached :
      (name : String) (x : Action) (q : Memory)
      → AreReached p q
      → AreReached p (updated name q (act x (stream_of name q))).0
  acted-AreReached name x q h =
      updated-AreReached name x (stream_of name q) q (act x (stream_of name q)) refl h
        (stream_of-IsReached name q h)

  and_old-AllReached :
      (o : Option Stream) (l : List Stream)
      → ((s : Stream) → o ≡ some s → IsReached p s)
      → AllReached p l
      → AllReached p (and_old o l)
  and_old-AllReached none l h t = t
  and_old-AllReached (some s) l h t = (h s refl, t)

  store-AreReached :
      (name fresh : String) (m : Message) (q : Memory)
      → AreReached p q
      → AreReached p (store name fresh m q)
  unfolding store
  store-AreReached name fresh m q h = elim (Bool-cases (is_in name q.looking)) [
    | inl b ↦
        rw (store, b)
          (let made = fresh_stream-IsReached q h in
            updated-AreReached name (Action.append fresh m) (fresh_stream q) _ _ refl
              (put-AreReached name (fresh_stream q)
                (record q {
                  looking = take_out name q.looking;
                  replaced = and_old (lookup name q.streams) q.replaced;
                })
                (record {
                  pool = h.pool;
                  stored = h.stored;
                  old = and_old-AllReached (lookup name q.streams) q.replaced (h.stored name) h.old;
                })
                made)
              made)
    | inr b ↦ rw (store, b) h
  ]

  lookup-close_all :
      (name : String) (l : Dict Stream) (s' : Stream)
      → lookup name (close_all l) ≡ some s'
      → (s : Stream) × (lookup name l ≡ some s) × (close s ≡ s')
  unfolding lookup close_all
  lookup-close_all name [] s' e = absurd (ground arith)
  lookup-close_all name ((k, s) ∷ l) s' e = elim (Bool-cases (k == name)) [
    | inl b ↦ (s, ground arith, ground arith)
    | inr b ↦ let (t, q, c) = lookup-close_all name l s' (ground arith) in (t, ground arith, c)
  ]

  close_each-AllReached : (l : List Stream) → AllReached p l → AllReached p (close_each l)
  unfolding close_each
  close_each-AllReached [] h = tt
  close_each-AllReached (s ∷ l) (t, ts) = (close-IsReached p s t, close_each-AllReached l ts)

  shut_down-AreReached : (q : Memory) → AreReached p q → AreReached p (shut_down q)
  unfolding shut_down
  shut_down-AreReached q h = elim (Bool-cases (is_free q.looking)) [
    | inl b ↦
        rw (shut_down, b)
          (record {
            pool = h.pool;
            old = close_each-AllReached q.replaced h.old;
            stored = λ n u e.
                let (s, there, same) = lookup-close_all n q.streams u e in
                subst (IsReached p) same (close-IsReached p s (h.stored n s there));
          })
    | inr b ↦ rw (shut_down, b) h
  ]

  at-IsReached :
      (i : ℕ) (l : List Stream) (s : Stream) → AllReached p l → at i l ≡ some s → IsReached p s
  unfolding at
  at-IsReached i [] s h e = absurd (ground arith)
  at-IsReached zero (t ∷ l) s (h, hs) e = subst (IsReached p) (some_inj t s e) h
  at-IsReached (suc i) (t ∷ l) s (h, hs) e = at-IsReached i l s hs e

  set_at-AllReached :
      (i : ℕ) (s : Stream) (l : List Stream)
      → AllReached p l
      → IsReached p s
      → AllReached p (set_at i s l)
  unfolding set_at
  set_at-AllReached i s [] h t = tt
  set_at-AllReached zero s (u ∷ l) (h, hs) t = (t, hs)
  set_at-AllReached (suc i) s (u ∷ l) (h, hs) t = (h, set_at-AllReached i s l hs t)

  set_or_same-AllReached :
      (i : ℕ) (l : List Stream) (o : Option Stream)
      → AllReached p l
      → ((s : Stream) → o ≡ some s → IsReached p s)
      → AllReached p (set_or_same i l o)
  set_or_same-AllReached i l none h t = h
  set_or_same-AllReached i l (some s) h t = set_at-AllReached i s l h (t s refl)

  act_at-AllReached :
      (i : ℕ) (x : Action) (l : List Stream) → AllReached p l → AllReached p (act_at i x l (at i l))
  act_at-AllReached i x l h = elim (Option-cases (at i l)) [
    | inl e ↦ rw e h
    | inr (s, e) ↦ rw e (
        set_or_same-AllReached i l (act x s) h
          (λ s' r. act-IsReached p x s s' (at-IsReached i l s h e) r))
  ]

  handle-AreReached : (e : Event) (q : Memory) → AreReached p q → AreReached p (handle e q)
  unfolding handle append miss register advance advance_replaced
  handle-AreReached (appends name fresh m) q h = acted-AreReached name (Action.append fresh m) q h
  handle-AreReached (misses name) q h =
      elim (Bool-cases (not q.is_closed && is_missing (lookup name q.streams))) [
        | inl b ↦ rw (miss, b) (record { pool = h.pool; stored = h.stored; old = h.old })
        | inr b ↦ rw (miss, b) h
      ]
  handle-AreReached (stores name fresh m) q h = store-AreReached name fresh m q h
  handle-AreReached (registers name there) q h = elim (Bool-cases (there && is_free q.looking)) [
    | inl b ↦ rw (register, b) (acted-AreReached name Action.register q h)
    | inr b ↦ rw (register, b) h
  ]
  handle-AreReached shuts q h = shut_down-AreReached q h
  handle-AreReached (advances name x) q h = elim (Bool-cases (is_inner x)) [
    | inl b ↦ rw b (acted-AreReached name x q h)
    | inr b ↦ rw b h
  ]
  handle-AreReached (advances_replaced i x) q h = elim (Bool-cases (is_inner x)) [
    | inl b ↦
        rw b (record {
          pool = h.pool;
          stored = h.stored;
          old = act_at-AllReached i x q.replaced h.old;
        })
    | inr b ↦ rw b h
  ]

  pub handle_all-AreReached :
      (es : List Event) (q : Memory) → AreReached p q → AreReached p (handle_all es q)
  unfolding handle_all
  handle_all-AreReached [] q h = h
  handle_all-AreReached (e ∷ es) q h =
      handle_all-AreReached es (handle e q) (handle-AreReached e q h)
