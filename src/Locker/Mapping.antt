-- ===== src/Locker/Mapping.antt =====
-- locker/memory/memory.go: the map of the locker, as the goroutines see it, when a key comes or goes.
use kratos_kit.Base.{
  ℕ, ◌<◌, ◌≡◌, refl, String, false, none, some, List, [], ◌∷◌, ◌++◌, All, arith, eq_iff,
}
use kratos_kit.Base.Dict.{Dict, lookup, insert, erase, lookup-insert, lookup-erase}
use kratos_kit.Locker.Steps.{Phase, idle, entered, holding, refused, releasing}
use kratos_kit.Locker.Invariant.{uses, holds, count, Mapped}

pub All-parts :
    (P : Phase → Type 0) (xs ys : List Phase) (x : Phase)
    → All P (xs ++ x ∷ ys)
    → All P xs × P x × All P ys
All-parts P [] ys x (p, ps) = (tt, p, ps)
All-parts P (z ∷ zs) ys x (p, ps) = let (a, b, c) = All-parts P zs ys x ps in ((p, a), b, c)

pub All-join :
    (P : Phase → Type 0) (xs ys : List Phase) (x : Phase)
    → All P xs
    → P x
    → All P ys
    → All P (xs ++ x ∷ ys)
All-join P [] ys x a p b = (p, b)
All-join P (z ∷ zs) ys x (q, a) p b = (q, All-join P zs ys x a p b)

-- Goroutines that do not know the key lock are mapped as before when its key is erased.
Mapped-erase :
    (locks : Dict ℕ) (key : String) (id : ℕ) (z : Phase)
    → lookup key locks ≡ some id
    → uses id z ≡ false
    → Mapped locks z
    → Mapped (erase key locks) z
Mapped-erase locks key id idle there unused m = tt
Mapped-erase locks key id (entered k j) there unused m =
    rw (lookup-erase key k locks) (ground (arith, eq_iff key k))
Mapped-erase locks key id (holding k j) there unused m =
    rw (lookup-erase key k locks) (ground (arith, eq_iff key k))
Mapped-erase locks key id (refused k j) there unused m =
    rw (lookup-erase key k locks) (ground (arith, eq_iff key k))
Mapped-erase locks key id (releasing k j) there unused m =
    rw (lookup-erase key k locks) (ground (arith, eq_iff key k))

pub All-Mapped-erase :
    (locks : Dict ℕ) (key : String) (id : ℕ) (zs : List Phase)
    → lookup key locks ≡ some id
    → count (uses id) zs ≡ 0
    → All (Mapped locks) zs
    → All (Mapped (erase key locks)) zs
All-Mapped-erase locks key id [] there unused m = tt
All-Mapped-erase locks key id (z ∷ zs) there unused (m, ms) = (
  Mapped-erase locks key id z there (ground arith) m,
  All-Mapped-erase locks key id zs there (ground arith) ms,
)

-- A new key in the map moves no other key, and its key lock is known to nobody.
Mapped-insert :
    (locks : Dict ℕ) (key : String) (id : ℕ) (z : Phase)
    → lookup key locks ≡ none
    → ((k : String) (j : ℕ) → lookup k locks ≡ some j → j < id)
    → Mapped locks z
    → Mapped (insert key id locks) z × (uses id z ≡ false) × (holds id z ≡ false)
Mapped-insert locks key id idle fresh below m = (tt, refl, refl)
Mapped-insert locks key id (entered k j) fresh below m = (
  rw (lookup-insert key k id locks) (ground (arith, eq_iff key k)),
  ground (arith, below k j m),
  refl,
)
Mapped-insert locks key id (holding k j) fresh below m = (
  rw (lookup-insert key k id locks) (ground (arith, eq_iff key k)),
  ground (arith, below k j m),
  ground (arith, below k j m),
)
Mapped-insert locks key id (refused k j) fresh below m = (
  rw (lookup-insert key k id locks) (ground (arith, eq_iff key k)),
  ground (arith, below k j m),
  refl,
)
Mapped-insert locks key id (releasing k j) fresh below m = (
  rw (lookup-insert key k id locks) (ground (arith, eq_iff key k)),
  ground (arith, below k j m),
  refl,
)

pub All-Mapped-insert :
    (locks : Dict ℕ) (key : String) (id : ℕ) (zs : List Phase)
    → lookup key locks ≡ none
    → ((k : String) (j : ℕ) → lookup k locks ≡ some j → j < id)
    → All (Mapped locks) zs
    → All (Mapped (insert key id locks)) zs × (count (uses id) zs ≡ 0) × (count (holds id) zs ≡ 0)
All-Mapped-insert locks key id [] fresh below m = (tt, refl, refl)
All-Mapped-insert locks key id (z ∷ zs) fresh below (m, ms) =
    let (p, q, r) = Mapped-insert locks key id z fresh below m in
    let (ps, qs, rs) = All-Mapped-insert locks key id zs fresh below ms in
    ((p, ps), ground (arith, q, qs), ground (arith, r, rs))
