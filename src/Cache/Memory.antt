-- ===== src/Cache/Memory.antt =====
-- cache/memory/memory.go: the state of Memory, and what the operations share. A nil Go map (after
-- DisConnect) is `none`: it reads as empty, a delete leaves it alone, and a write to it panics.
pub mod Strings
pub mod Hashes
pub mod Listing
mod Tests
use Prim.Native.Nat.{zero, suc}
use kratos_kit.Base.{
  ℕ, ◌+◌, ◌≡◌, String, Bool, true, false, ◌&&◌, not, Option, none, some, List, [], arith, leb,
  if◌then◌else◌,
}
use kratos_kit.Base.Dict.{Dict, lookup, erase, insert}
use kratos_kit.Base.Time.{Time, zero_time, at, is_zero, after}
use kratos_kit.Base.Int.{ℤ, pos, negsuc, sub_ℕ}
use kratos_kit.Cache.Store.{Error, Result, ok, err, connect_fail}

pub record StrItem : Type 0 where
  pub value : String
  pub expired : Time
  pub created_at : ℕ
  pub updated_at : ℕ

pub record MapItem : Type 0 where
  pub value : Dict String
  pub expired : Time
  pub created_at : ℕ
  pub updated_at : ℕ

abbrev pub GoMap {ℓ} : Type ℓ → Type ℓ
GoMap V = Option (Dict V)

-- m[k]
abbrev pub read {ℓ} : {V : Type ℓ} → String → GoMap V → Option V
read k none = none
read k (some m) = lookup k m

-- delete(m, k)
abbrev pub remove {ℓ} : {V : Type ℓ} → String → GoMap V → GoMap V
remove k none = none
remove k (some m) = some (erase k m)

-- Memory without its rate-limit states, which are another map under a mutex of their own.
pub record Memory : Type 0 where
  pub str_items : GoMap StrItem
  pub map_items : GoMap MapItem

-- The code's test of an entry: !item.Expired.IsZero() && time.Now().After(item.Expired)
abbrev pub has_expired : ℕ → Time → Bool
has_expired now t = not (is_zero t) && after now t

-- expiration, at its own reading of the clock
abbrev pub expiration : ℕ → ℤ → Time
expiration now (pos zero) = zero_time
expiration now (pos (suc n)) = at (now + suc n)
expiration now (negsuc n) = zero_time

-- ttl, at its own reading of the clock
abbrev pub ttl : ℕ → Time → ℤ
ttl now zero_time = negsuc 0
ttl now (at n) = sub_ℕ n now

-- NewMemory
abbrev pub new_memory : Memory
new_memory = record { str_items = some []; map_items = some [] }

-- DisConnect
abbrev pub dis_connect : Memory → Memory
dis_connect s = record { str_items = none; map_items = none }

abbrev is_there {ℓ} : {V : Type ℓ} → GoMap V → Bool
is_there none = false
is_there (some _) = true

-- Connect; whether the map of rate-limit states is there is the argument
abbrev pub connect : Bool → Memory → Result (Unit {0})
connect limits s =
    if is_there s.str_items && is_there s.map_items && limits then ok tt else err connect_fail
