-- ===== src/Locker/Invariant.antt =====
-- locker/memory/memory.go: the invariant of the key locks.
use kratos_kit.Base.{
  ℕ, ◌+◌, ◌<◌, ◌≡◌, refl, String, Bool, true, false, some, List, [], ◌∷◌, ◌++◌, All, All-map, arith,
  ◌==◌, nat_eq, Bool-cases, inl, inr,
}
use kratos_kit.Base.Dict.{Dict, lookup}
use kratos_kit.Locker.{KeyLock, Locker, try_take, give_back}
use kratos_kit.Locker.Steps.{Phase, idle, entered, holding, refused, releasing, selected}

-- Whether the goroutine has a reference to the key lock, and whether it holds its lease.
abbrev pub uses : ℕ → Phase → Bool
uses id idle = false
uses id (entered _ j) = nat_eq j id
uses id (holding _ j) = nat_eq j id
uses id (refused _ j) = nat_eq j id
uses id (releasing _ j) = nat_eq j id

abbrev pub holds : ℕ → Phase → Bool
holds id (holding _ j) = nat_eq j id
holds id _ = false

abbrev pub one_if : Bool → ℕ
one_if true = 1
one_if false = 0

abbrev pub count : (Phase → Bool) → List Phase → ℕ
count p [] = 0
count p (x ∷ xs) = one_if (p x) + count p xs

pub count-append :
    (p : Phase → Bool) (xs ys : List Phase) → count p (xs ++ ys) ≡ count p xs + count p ys
count-append p [] ys = omega arith
count-append p (x ∷ xs) ys = omega (arith, count-append p xs ys)

-- The map leads the goroutine's key to its key lock.
abbrev pub Mapped : Dict ℕ → Phase → Type 0
Mapped locks idle = Unit
Mapped locks (entered key id) = lookup key locks ≡ some id
Mapped locks (holding key id) = lookup key locks ≡ some id
Mapped locks (refused key id) = lookup key locks ≡ some id
Mapped locks (releasing key id) = lookup key locks ≡ some id

pub record IsSound (l : Locker) (ps : List Phase) : Type 0 where
  -- The references of a key lock are the goroutines that know it.
  pub counted : (id : ℕ) → (l.heap id).refs ≡ count (uses id) ps
  -- The channel of a key lock is full just while a goroutine holds the lease.
  pub exclusive : (id : ℕ) → one_if (l.heap id).taken ≡ count (holds id) ps
  pub mapped : All (Mapped l.locks) ps
  -- A key lock in the map has a reference, and one key.
  pub live : (key : String) (id : ℕ) → lookup key l.locks ≡ some id → 0 < (l.heap id).refs
  pub single :
      (k j : String) (id : ℕ)
      → lookup k l.locks ≡ some id
      → lookup j l.locks ≡ some id
      → (k == j) ≡ true
  pub below : (key : String) (id : ℕ) → lookup key l.locks ≡ some id → id < l.next

-- The counts with one goroutine's phase between the others.
pub count-at :
    (p : Phase → Bool) (xs ys : List Phase) (x : Phase)
    → count p (xs ++ x ∷ ys) ≡ count p xs + one_if (p x) + count p ys
count-at p xs ys x = omega (arith, count-append p xs (x ∷ ys))

-- The phases of the others, with one goroutine's phase replaced.
All-replace :
    (P Q : Phase → Type 0) (xs ys : List Phase) (x y : Phase)
    → ((z : Phase) → P z → Q z)
    → Q y
    → All P (xs ++ x ∷ ys)
    → All Q (xs ++ y ∷ ys)
All-replace P Q [] ys x y f q (p, ps) = (q, All-map f ys ps)
All-replace P Q (z ∷ zs) ys x y f q (p, ps) = (f z p, All-replace P Q zs ys x y f q ps)

pub All-at : (P : Phase → Type 0) (xs ys : List Phase) (x : Phase) → All P (xs ++ x ∷ ys) → P x
All-at P [] ys x (p, ps) = p
All-at P (z ∷ zs) ys x (p, ps) = All-at P zs ys x ps

pub All-tail :
    (P : Phase → Type 0) (xs ys : List Phase) (x : Phase) → All P (xs ++ x ∷ ys) → All P ys
All-tail P [] ys x (p, ps) = ps
All-tail P (z ∷ zs) ys x (p, ps) = All-tail P zs ys x ps

module _ (l : Locker) (xs ys : List Phase) where
  -- A goroutine goes on with the same key lock, and at most the lease changes hands.
  move-IsSound :
      (heap : ℕ → KeyLock) (x y : Phase)
      → ((j : ℕ) → (heap j).refs ≡ (l.heap j).refs)
      → ((j : ℕ) → uses j x ≡ uses j y)
      → ((j : ℕ)
          → one_if (heap j).taken + one_if (holds j x)
            ≡ one_if (l.heap j).taken + one_if (holds j y))
      → (Mapped l.locks x → Mapped l.locks y)
      → IsSound l (xs ++ x ∷ ys)
      → IsSound (record l { heap = heap }) (xs ++ y ∷ ys)
  move-IsSound heap x y refs known lease map h = record {
    counted = λ j.
        ground (
          arith,
          h.counted j,
          refs j,
          known j,
          count-at (uses j) xs ys x,
          count-at (uses j) xs ys y,
        );
    exclusive = λ j.
        omega
          (arith, h.exclusive j, lease j, count-at (holds j) xs ys x, count-at (holds j) xs ys y);
    mapped =
        All-replace (Mapped l.locks) (Mapped l.locks) xs ys x y (λ z p. p)
          (map (All-at (Mapped l.locks) xs ys x h.mapped)) h.mapped;
    live = λ k j p. rw (refs j) (h.live k j p);
    single = h.single;
    below = h.below;
  }

  module _ (key : String) (id : ℕ) where
    pub select-IsSound :
        IsSound l (xs ++ entered key id ∷ ys)
        → IsSound (try_take id l).0 (xs ++ selected (try_take id l).1 key id ∷ ys)
    unfolding try_take
    select-IsSound h = elim (Bool-cases (l.heap id).taken) [
      | inl taken ↦ rw taken (
          move-IsSound l.heap (entered key id) (refused key id) (λ j. refl) (λ j. refl) (λ j. refl)
            (λ p. p) h)
      | inr free ↦ rw free (
          move-IsSound _ (entered key id) (holding key id) (λ j. ground arith) (λ j. refl)
            (λ j. ground arith) (λ p. p) h)
    ]

    -- The holder finds the channel full.
    pub taken_while_held : IsSound l (xs ++ holding key id ∷ ys) → (l.heap id).taken ≡ true
    taken_while_held h = ground (arith, h.exclusive id, count-at (holds id) xs ys (holding key id))

    pub release-IsSound :
        IsSound l (xs ++ holding key id ∷ ys)
        → IsSound (give_back id l) (xs ++ releasing key id ∷ ys)
    unfolding give_back
    release-IsSound h =
        let full = taken_while_held h in
        move-IsSound _ (holding key id) (releasing key id) (λ j. ground arith) (λ j. refl)
          (λ j. ground arith) (λ p. p) h
