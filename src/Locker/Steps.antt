-- ===== src/Locker/Steps.antt =====
-- locker/memory/memory.go: goroutines that acquire and release, as interleavings of their sections.
use kratos_kit.Base.{ℕ, ◌≡◌, String, Bool, true, false, none, List, ◌∷◌, ◌++◌}
use kratos_kit.Locker.{Locker, refuse, enter, try_take, give_back, drop_ref}

-- Where a goroutine stands in the code: outside it, between the sections of Acquire (`entered`,
-- `refused`), with the lease, and between the sections of a release. It knows the key and the key
-- lock. `once` lets a lease be released once: a release leads out of `holding` for good.
pub data Phase : Type 0 where
  idle : Phase
  entered holding refused releasing : String → ℕ → Phase

-- The next phase after the select.
abbrev pub selected : Bool → String → ℕ → Phase
selected true key id = holding key id
selected false key id = refused key id

pub record World : Type 0 where
  pub locker : Locker
  pub phases : List Phase

-- One section of one goroutine; the others stand still.
pub data Step : World → World → Type 0 where
  begin :
      (l : Locker) (xs ys : List Phase) (key : String)
      → refuse key false ≡ none
      → Step
          (record { locker = l; phases = xs ++ idle ∷ ys })
          (record { locker = (enter key l).0; phases = xs ++ entered key (enter key l).1 ∷ ys })
  select :
      (l : Locker) (xs ys : List Phase) (key : String) (id : ℕ)
      → Step
          (record { locker = l; phases = xs ++ entered key id ∷ ys })
          (record {
            locker = (try_take id l).0;
            phases = xs ++ selected (try_take id l).1 key id ∷ ys;
          })
  refusal :
      (l : Locker) (xs ys : List Phase) (key : String) (id : ℕ)
      → Step
          (record { locker = l; phases = xs ++ refused key id ∷ ys })
          (record { locker = drop_ref key id l; phases = xs ++ idle ∷ ys })
  release :
      (l : Locker) (xs ys : List Phase) (key : String) (id : ℕ)
      → Step
          (record { locker = l; phases = xs ++ holding key id ∷ ys })
          (record { locker = give_back id l; phases = xs ++ releasing key id ∷ ys })
  leave :
      (l : Locker) (xs ys : List Phase) (key : String) (id : ℕ)
      → Step
          (record { locker = l; phases = xs ++ releasing key id ∷ ys })
          (record { locker = drop_ref key id l; phases = xs ++ idle ∷ ys })

pub data Reach (w : World) : World → Type 0 where
  here : Reach w w
  next : {u v : World} → Reach w u → Step u v → Reach w v
