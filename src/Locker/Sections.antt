-- ===== src/Locker/Sections.antt =====
-- locker/memory/memory.go: the two sections under `mu` and the invariant.
use kratos_kit.Base.{
  ℕ, ◌+◌, ◌≡◌, ◌≢◌, ◌⊎◌, String, true, false, none, some, List, ◌∷◌, ◌++◌, All, arith, ℕ_discrete,
  ◌==◌, eq_iff, eq_refl, nat_eq, Option-cases, inl, inr,
}
use kratos_kit.Base.Dict.{lookup, insert, erase, lookup-insert, lookup-erase}
use kratos_kit.Locker.{Locker, enter, drop_ref}
use kratos_kit.Locker.Steps.{Phase, idle, entered}
use kratos_kit.Locker.Invariant.{uses, holds, one_if, count, Mapped, IsSound, count-at, All-at}
use kratos_kit.Locker.Mapping.{All-parts, All-join, All-Mapped-erase, All-Mapped-insert}

module _ (l : Locker) (xs ys : List Phase) (key : String) (id : ℕ) (x : Phase)
    (known : (j : ℕ) → uses j x ≡ nat_eq id j) (free : (j : ℕ) → holds j x ≡ false)
    (map : Mapped l.locks x → lookup key l.locks ≡ some id) (h : IsSound l (xs ++ x ∷ ys)) where
  at_key : lookup key l.locks ≡ some id
  at_key = map (All-at (Mapped l.locks) xs ys x h.mapped)

  refs_of : (j : ℕ) → (l.heap j).refs ≡ count (uses j) xs + one_if (nat_eq id j) + count (uses j) ys
  refs_of j = ground (arith, h.counted j, known j, count-at (uses j) xs ys x)

  -- The last reference goes: the key goes with it.
  drop_last-IsSound : (l.heap id).refs ≡ 1 → IsSound (drop_ref key id l) (xs ++ idle ∷ ys)
  unfolding drop_ref
  drop_last-IsSound one = record {
    counted = λ j. ground (arith, one, refs_of j, refs_of id, count-at (uses j) xs ys idle);
    exclusive = λ j.
        ground
          (arith, h.exclusive j, free j, count-at (holds j) xs ys x, count-at (holds j) xs ys idle);
    mapped =
        let (a, _, b) = All-parts (Mapped l.locks) xs ys x h.mapped in
        rw last_locks (
          All-join (Mapped (erase key l.locks)) xs ys idle
            (All-Mapped-erase l.locks key id xs at_key (ground (arith, refs_of id)) a) tt
            (All-Mapped-erase l.locks key id ys at_key (ground (arith, refs_of id)) b));
    live = λ k j p.
        let e = stays k j (rw last_locks at p) in
        ground (arith, h.live k j e.0, h.single key k id at_key, e.1);
    single = λ k j i p q.
        h.single k j i (stays k i (rw last_locks at p)).0 (stays j i (rw last_locks at q)).0;
    below = λ k j p. h.below k j (stays k j (rw last_locks at p)).0;
  }
    where
      last_locks : (drop_ref key id l).locks ≡ erase key l.locks
      last_locks = ground (arith, at_key, one)

      stays :
          (k : String) (j : ℕ)
          → lookup k (erase key l.locks) ≡ some j
          → (lookup k l.locks ≡ some j) × ((key == k) ≡ false)
      stays k j p = ground (arith, lookup-erase key k l.locks)

  -- Other references are left.
  drop_other-IsSound : (l.heap id).refs ≢ 1 → IsSound (drop_ref key id l) (xs ++ idle ∷ ys)
  unfolding drop_ref
  drop_other-IsSound more = record {
    counted = λ j. ground (arith, refs_of j, refs_of id, count-at (uses j) xs ys idle);
    exclusive = λ j.
        ground
          (arith, h.exclusive j, free j, count-at (holds j) xs ys x, count-at (holds j) xs ys idle);
    mapped =
        let (a, _, b) = All-parts (Mapped l.locks) xs ys x h.mapped in
        rw same_locks (All-join (Mapped l.locks) xs ys idle a tt b);
    live = λ k j p. ground (arith, h.live k j (rw same_locks at p), refs_of id);
    single = λ k j i p q. h.single k j i (rw same_locks at p) (rw same_locks at q);
    below = λ k j p. h.below k j (rw same_locks at p);
  }
    where
      same_locks : (drop_ref key id l).locks ≡ l.locks
      same_locks = ground (arith, refs_of id)

  pub drop-IsSound : IsSound (drop_ref key id l) (xs ++ idle ∷ ys)
  drop-IsSound = elim (ℕ_discrete (l.heap id).refs 1) [
    | yes one ↦ drop_last-IsSound one
    | no more ↦ drop_other-IsSound more
  ]

module _ (l : Locker) (xs ys : List Phase) (key : String) (h : IsSound l (xs ++ idle ∷ ys)) where
  -- A goroutine enters through the key lock that is in the map.
  enter_old-IsSound :
      (id : ℕ)
      → lookup key l.locks ≡ some id
      → IsSound (enter key l).0 (xs ++ entered key (enter key l).1 ∷ ys)
  unfolding enter
  enter_old-IsSound id there =
      rw (there, enter)
        (record {
          counted = λ j. ground (
            arith,
            h.counted j,
            count-at (uses j) xs ys idle,
            count-at (uses j) xs ys (entered key id),
          );
          exclusive = λ j. ground (
            arith,
            h.exclusive j,
            count-at (holds j) xs ys idle,
            count-at (holds j) xs ys (entered key id),
          );
          mapped =
              let (a, _, b) = All-parts (Mapped l.locks) xs ys idle h.mapped in
              All-join (Mapped l.locks) xs ys (entered key id) a there b;
          live = λ k j p. ground (arith, h.live k j p);
          single = h.single;
          below = h.below;
        })

  -- A goroutine makes the key lock.
  enter_new-IsSound :
      lookup key l.locks ≡ none → IsSound (enter key l).0 (xs ++ entered key (enter key l).1 ∷ ys)
  unfolding enter
  enter_new-IsSound fresh =
      rw (fresh, enter)
        (record {
          counted = λ j. ground (
            arith,
            h.counted j,
            count-at (uses j) xs ys idle,
            count-at (uses j) xs ys (entered key l.next),
            left.1,
            right.1,
          );
          exclusive = λ j. ground (
            arith,
            h.exclusive j,
            count-at (holds j) xs ys idle,
            count-at (holds j) xs ys (entered key l.next),
            left.2,
            right.2,
          );
          mapped =
              All-join (Mapped (insert key l.next l.locks)) xs ys (entered key l.next) left.0
                (rw (lookup-insert key key l.next l.locks) (rw (eq_refl key))) right.0;
          live = λ k j p. ground (arith, here_or k j p, h.live k j);
          single = λ k j i p q. ground (
            arith,
            here_or k i p,
            here_or j i q,
            h.single k j i,
            h.below k i,
            h.below j i,
            eq_iff key k,
            eq_iff key j,
            eq_iff k j,
          );
          below = λ k j p. ground (arith, here_or k j p, h.below k j);
        })
    where
      parts : All (Mapped l.locks) xs × Mapped l.locks idle × All (Mapped l.locks) ys
      parts = All-parts (Mapped l.locks) xs ys idle h.mapped

      left :
          All (Mapped (insert key l.next l.locks)) xs
          × (count (uses l.next) xs ≡ 0)
          × (count (holds l.next) xs ≡ 0)
      left = All-Mapped-insert l.locks key l.next xs fresh h.below parts.0

      right :
          All (Mapped (insert key l.next l.locks)) ys
          × (count (uses l.next) ys ≡ 0)
          × (count (holds l.next) ys ≡ 0)
      right = All-Mapped-insert l.locks key l.next ys fresh h.below parts.2

      here_or :
          (k : String) (j : ℕ)
          → lookup k (insert key l.next l.locks) ≡ some j
          → ((key == k) ≡ true) × (l.next ≡ j) ⊎ ((key == k) ≡ false) × (lookup k l.locks ≡ some j)
      here_or k j p = ground (arith, lookup-insert key k l.next l.locks)

  pub enter-IsSound : IsSound (enter key l).0 (xs ++ entered key (enter key l).1 ∷ ys)
  enter-IsSound = elim (Option-cases (lookup key l.locks)) [
    | inl fresh ↦ enter_new-IsSound fresh
    | inr (id, there) ↦ enter_old-IsSound id there
  ]
