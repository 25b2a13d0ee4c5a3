-- ===== src/Locker.antt =====
-- locker/memory/memory.go: the in-process locks. The key locks live in a heap, since a goroutine
-- keeps its pointer to one while others change the map. Each function is one section of the code
-- that no other goroutine can cut into: a section under `mu`, or one operation on a channel.
pub mod Steps
pub mod Invariant
pub mod Mapping
pub mod Sections
pub mod Exclusion
mod Tests
use kratos_kit.Base.{
  ℕ, suc, ◌+◌, ◌-◌, String, Bool, true, false, ◌&&◌, Option, none, some, [], ◌==◌, nat_eq,
  if◌then◌else◌,
}
use kratos_kit.Base.Dict.{Dict, lookup, insert, erase}

-- keyLock: `taken` is whether the channel of capacity 1 holds an element.
pub record KeyLock : Type 0 where
  pub taken : Bool
  pub refs : ℕ

-- Locker, with the heap of the key locks made so far; `next` is the address of the next one.
pub record Locker : Type 0 where
  pub locks : Dict ℕ
  pub heap : ℕ → KeyLock
  pub next : ℕ

-- New
abbrev pub new_locker : Locker
new_locker = record { locks = []; heap = λ _. record { taken = false; refs = 0 }; next = 0 }

pub data AcquireError : Type 0 where
  empty_key not_obtained : AcquireError
  context_done : AcquireError

-- The guards of Acquire, on the key and ctx.Err(); a nil context is context.Background().
unfoldable pub refuse : String → Bool → Option AcquireError
refuse key done = if key == "" then some empty_key else if done then some context_done else none

abbrev pub write : (ℕ → KeyLock) → ℕ → KeyLock → ℕ → KeyLock
write heap id l j = if nat_eq id j then l else heap j

abbrev pub add_ref : KeyLock → KeyLock
add_ref l = record l { refs = l.refs + 1 }

-- Acquire up to mu.Unlock: the key lock of the key, made if it is not there, has one more reference.
unfoldable pub enter : String → Locker → Locker × ℕ
enter key l = elim (lookup key l.locks) [
  | some id ↦ (record l { heap = write l.heap id (add_ref (l.heap id)) }, id)
  | none ↦ (
    record {
      locks = insert key l.next l.locks;
      heap = write l.heap l.next (record { taken = false; refs = 1 });
      next = suc l.next;
    },
    l.next,
  )
]

-- select on `current.sem <- struct{}{}`: whether the lock was taken
unfoldable pub try_take : ℕ → Locker → Locker × Bool
try_take id l =
    if (l.heap id).taken
    then (l, false)
    else (record l { heap = write l.heap id (record (l.heap id) { taken = true }) }, true)

-- `<-current.sem` of a release
unfoldable pub give_back : ℕ → Locker → Locker
give_back id l = record l { heap = write l.heap id (record (l.heap id) { taken = false }) }

abbrev is_at : Option ℕ → ℕ → Bool
is_at none id = false
is_at (some j) id = nat_eq j id

-- The section under `mu` that ends a release and a refused Acquire.
unfoldable pub drop_ref : String → ℕ → Locker → Locker
drop_ref key id l =
    let left = (l.heap id).refs - 1 in
    record l {
      heap = write l.heap id (record (l.heap id) { refs = left });
      locks = if nat_eq left 0 && is_at (lookup key l.locks) id then erase key l.locks else l.locks;
    }
