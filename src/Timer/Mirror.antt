-- ===== src/Timer/Mirror.antt =====
-- transport/hptimer/high_precision_timer.go: heap and index of the engine as two views of its tasks.
use kratos_kit.Base.{
  ℕ, suc, ◌+◌, ◌≡◌, refl, String, Bool, true, false, some, none, List, [], ◌∷◌, All, All-map,
  eq_iff, eq_refl, arith, get_elem?, Option-cases, Bool-cases, inl, inr, ◌∙◌,
}
use mathlib.Core.Path.{subst}
use mathlib.Core.List.{Permᴰ}
use mathlib.Core.List.Permᴰ
use kratos_kit.Base.Dict.{Dict, lookup, insert, erase, lookup-insert, lookup-erase}
use kratos_kit.Timer.{index_of, is_there}
use kratos_kit.Timer.Heap.{Task, has_id}

abbrev pub one_if : Bool → ℕ
one_if true = 1
one_if false = 0

abbrev pub count : (Task → Bool) → List Task → ℕ
count p [] = 0
count p (t ∷ ts) = one_if (p t) + count p ts

count-Perm : (p : Task → Bool) {xs ys : List Task} → Permᴰ xs ys → count p xs ≡ count p ys
count-Perm p Permᴰ.nil = refl
count-Perm p (Permᴰ.cons {a} {b} e d) = rw e (omega (arith, count-Perm p d))
count-Perm p (Permᴰ.swap e f) = rw (e, f) (omega arith)
count-Perm p (Permᴰ.trans d e) = count-Perm p d ∙ count-Perm p e

All-Perm : (P : Task → Type 0) {xs ys : List Task} → Permᴰ xs ys → All P xs → All P ys
All-Perm P Permᴰ.nil h = tt
All-Perm P (Permᴰ.cons e d) (p, ps) = (subst P e p, All-Perm P d ps)
All-Perm P (Permᴰ.swap e f) (p, (q, ps)) = (subst P f q, (subst P e p, ps))
All-Perm P (Permᴰ.trans d e) h = All-Perm P e (All-Perm P d h)

-- Every task of the heap is what the index holds under its ID.
abbrev pub Indexed : Dict Task → Task → Type 0
Indexed tasks t = lookup t.id tasks ≡ some t

-- Heap and index hold the same tasks, and no ID twice.
pub record Mirrors (heap : List Task) (tasks : Dict Task) : Type 0 where
  pub indexed : All (Indexed tasks) heap
  pub counted : (id : String) → count (has_id id) heap ≡ one_if (is_there (lookup id tasks))

pub Mirrors-nil : Mirrors [] []
unfolding lookup
Mirrors-nil = record { indexed = tt; counted = λ id. refl }

-- A task comes in under a new ID.
pub Mirrors-push :
    (t : Task) (h h' : List Task) (tasks : Dict Task)
    → Mirrors h tasks
    → lookup t.id tasks ≡ none
    → Permᴰ h' (t ∷ h)
    → Mirrors h' (insert t.id t tasks)
Mirrors-push t h h' tasks m fresh p = record {
  indexed = All-Perm (Indexed (insert t.id t tasks)) (Permᴰ.symm p) (
      (
        rw (lookup-insert t.id t.id t tasks) (rw (eq_refl t.id)),
        All-map {P = Indexed tasks} {Q = Indexed (insert t.id t tasks)}
            (λ u q. ground (arith, lookup-insert t.id u.id t tasks, eq_iff t.id u.id)) h m.indexed,
      ));
  counted = λ id. ground (
    arith,
    count-Perm (has_id id) p,
    m.counted id,
    lookup-insert t.id id t tasks,
    eq_iff t.id id,
  );
}

All-without :
    (P : Task → Type 0) (id : String) (h : List Task)
    → count (has_id id) h ≡ 0
    → All P h
    → All (λ t. P t × (has_id id t ≡ false)) h
All-without P id [] e a = tt
All-without P id (t ∷ ts) e (p, ps) = ((p, ground arith), All-without P id ts (omega arith) ps)

-- The task of an ID goes.
pub Mirrors-drop :
    (t : Task) (h h' : List Task) (tasks : Dict Task)
    → Mirrors h tasks
    → Permᴰ h (t ∷ h')
    → Mirrors h' (erase t.id tasks)
Mirrors-drop t h h' tasks m p =
    let (held, rest) = All-Perm (Indexed tasks) p m.indexed in
    let none_left : count (has_id t.id) h' ≡ 0 =
      ground (arith, count-Perm (has_id t.id) p, m.counted t.id, eq_refl t.id) in
    record {
      indexed =
          All-map {P = λ u. Indexed tasks u × (has_id t.id u ≡ false)}
            {Q = Indexed (erase t.id tasks)}
            (λ u q.
              ground
                (arith, q.0, q.1, lookup-erase t.id u.id tasks, eq_iff t.id u.id, eq_iff u.id t.id))
            h' (All-without (Indexed tasks) t.id h' none_left rest);
      counted = λ id. ground (
        arith,
        count-Perm (has_id id) p,
        m.counted id,
        lookup-erase t.id id tasks,
        none_left,
        eq_iff t.id id,
      );
    }

-- Where the index of the first task with an ID points to.
pub record Found (id : String) (h : List Task) : Type 0 where
  pub place : ℕ
  pub task : Task
  pub index : index_of id h ≡ some place
  pub there : get_elem? h place ≡ some task
  pub named : has_id id task ≡ true

pub Found-of_count : (id : String) (h : List Task) → count (has_id id) h ≡ 1 → Found id h
unfolding index_of
Found-of_count id [] e = absurd (omega arith)
Found-of_count id (t ∷ ts) e = elim (Bool-cases (has_id id t)) [
  | inl q ↦ record {
    place = 0;
    task = t;
    index = elim (Option-cases (index_of id ts)) [
      | inl r ↦ rw (r, q) refl
      | inr (i, r) ↦ rw (r, q) refl
    ];
    there = refl;
    named = q;
  }
  | inr q ↦ go q (Found-of_count id ts (ground arith))
]
  where
    go : has_id id t ≡ false → Found id ts → Found id (t ∷ ts)
    go q f = record {
      place = suc f.place;
      task = f.task;
      index = rw (f.index, q) refl;
      there = f.there;
      named = f.named;
    }
