-- ===== src/Locker/Exclusion.antt =====
-- locker/memory/memory.go: what interleavings reach.
use kratos_kit.Base.{
  ℕ, zero, suc, ◌≡◌, refl, sym, String, true, false, none, List, [], ◌∷◌, ◌++◌, All, arith,
  Option-cases, inl, inr,
}
use kratos_kit.Base.Dict.{lookup, lookup-nil}
use kratos_kit.Locker.{Locker, new_locker}
use kratos_kit.Locker.Steps.{
  Phase, idle, holding, refused, releasing, World, Step, begin, select, refusal, release, leave,
  Reach, here, next,
}
use kratos_kit.Locker.Invariant.{
  uses, holds, count, Mapped, IsSound, count-at, All-at, All-tail, taken_while_held, select-IsSound,
  release-IsSound,
}
use kratos_kit.Locker.Sections.{enter-IsSound, drop-IsSound}

Step-IsSound : {w v : World} → Step w v → IsSound w.locker w.phases → IsSound v.locker v.phases
Step-IsSound (begin l xs ys key ok) h = enter-IsSound l xs ys key h
Step-IsSound (select l xs ys key id) h = select-IsSound l xs ys key id h
Step-IsSound (refusal l xs ys key id) h =
    drop-IsSound l xs ys key id (refused key id) (λ j. refl) (λ j. refl) (λ m. m) h
Step-IsSound (release l xs ys key id) h = release-IsSound l xs ys key id h
Step-IsSound (leave l xs ys key id) h =
    drop-IsSound l xs ys key id (releasing key id) (λ j. refl) (λ j. refl) (λ m. m) h

abbrev pub all_idle : ℕ → List Phase
all_idle zero = []
all_idle (suc n) = idle ∷ all_idle n

-- A new Locker, and `n` goroutines that have not called it yet.
abbrev pub initial : ℕ → World
initial n = record { locker = new_locker; phases = all_idle n }

counts_idle : (n id : ℕ) → (count (uses id) (all_idle n) ≡ 0) × (count (holds id) (all_idle n) ≡ 0)
counts_idle zero id = (refl, refl)
counts_idle (suc n) id = let (u, h) = counts_idle n id in (omega (arith, u), omega (arith, h))

Mapped-idle : (n : ℕ) → All (Mapped []) (all_idle n)
Mapped-idle zero = tt
Mapped-idle (suc n) = (tt, Mapped-idle n)

initial-IsSound : (n : ℕ) → IsSound (initial n).locker (initial n).phases
initial-IsSound n = record {
  counted = λ id. sym (counts_idle n id).0;
  exclusive = λ id. sym (counts_idle n id).1;
  mapped = Mapped-idle n;
  live = λ key id p. absurd (ground (arith, lookup-nil {V = ℕ} key));
  single = λ k j id p q. absurd (ground (arith, lookup-nil {V = ℕ} k));
  below = λ key id p. absurd (ground (arith, lookup-nil {V = ℕ} key));
}

-- Every interleaving of any number of goroutines keeps the invariant: references and leases are
-- counted, and the map leads each goroutine's key to its key lock.
pub Reach-IsSound : (n : ℕ) {w : World} → Reach (initial n) w → IsSound w.locker w.phases
Reach-IsSound n here = initial-IsSound n
Reach-IsSound n (next r s) = Step-IsSound s (Reach-IsSound n r)

-- Mutual exclusion: in no interleaving do two goroutines hold the lease of one key.
pub mutual_exclusion :
    (n : ℕ) (l : Locker) (xs ys zs : List Phase) (key : String) (i j : ℕ)
    → ¬ Reach
        (initial n)
        (record { locker = l; phases = xs ++ (holding key i ∷ (ys ++ (holding key j ∷ zs))) })
mutual_exclusion n l xs ys zs key i j r =
    let h = Reach-IsSound n r in
    let rest = ys ++ (holding key j ∷ zs) in
    let at_i = All-at (Mapped l.locks) xs rest (holding key i) h.mapped in
    let at_j =
      All-at (Mapped l.locks) ys zs (holding key j)
        (All-tail (Mapped l.locks) xs rest (holding key i) h.mapped) in
    ground (
      arith,
      at_i,
      at_j,
      h.exclusive i,
      count-at (holds i) xs rest (holding key i),
      count-at (holds i) ys zs (holding key j),
    )

-- A release never waits: the channel of the key lock is full while its lease is held.
pub release_ready :
    (n : ℕ) (l : Locker) (xs ys : List Phase) (key : String) (id : ℕ)
    → Reach (initial n) (record { locker = l; phases = xs ++ (holding key id ∷ ys) })
    → (l.heap id).taken ≡ true
release_ready n l xs ys key id r = taken_while_held l xs ys key id (Reach-IsSound n r)

count_unused : (id : ℕ) (ps : List Phase) → All (λ p. p ≡ idle) ps → count (uses id) ps ≡ 0
count_unused id [] h = refl
count_unused id (p ∷ ps) (e, es) = rw e (omega (arith, count_unused id ps es))

count_free : (id : ℕ) (ps : List Phase) → All (λ p. p ≡ idle) ps → count (holds id) ps ≡ 0
count_free id [] h = refl
count_free id (p ∷ ps) (e, es) = rw e (omega (arith, count_free id ps es))

-- Nothing is left behind: when every goroutine is outside the locker, its map is empty, and every
-- key lock free.
pub idle_empty :
    (n : ℕ) (w : World) (key : String) (id : ℕ)
    → Reach (initial n) w
    → All (λ p. p ≡ idle) w.phases
    → (lookup key w.locker.locks ≡ none) × ((w.locker.heap id).taken ≡ false)
idle_empty n w key id r quiet = (
  elim (Option-cases (lookup key w.locker.locks)) [
    | inl gone ↦ gone
    | inr (j, p) ↦
        absurd (omega (arith, h.live key j p, h.counted j, count_unused j w.phases quiet))
  ],
  ground (arith, h.exclusive id, count_free id w.phases quiet),
)
  where
    h : IsSound w.locker w.phases
    h = Reach-IsSound n r
