-- ===== src/Cache/Memory/Strings/Expiry.antt =====
-- cache/memory/memory.go: Get and Expire on a key that has expired.
use Prim.Native.Nat.{suc}
use kratos_kit.Base.{
  ℕ, ◌+◌, ◌≤◌, ◌≡◌, String, true, none, some, arith, eq_refl, eq_iff, ◌==◌, false,
}
use kratos_kit.Base.Int.{pos}
use kratos_kit.Cache.Store.{ok, err, key_expired, not_found}
use kratos_kit.Cache.Memory.{StrItem, Memory, read, has_expired}
use kratos_kit.Cache.Memory.Strings.{get, expire}
use kratos_kit.Cache.Memory.Strings.View.{view, read-remove, IsConnected, expire-Expired, get-view}

-- A key that has expired, and that no operation has dropped yet, cannot be read; Expire with a
-- positive duration gives its old value back for that long, and reports success.
pub expire_revives :
    (now later t n : ℕ) (k : String) (s : Memory) (item : StrItem)
    → IsConnected s
    → read k s.str_items ≡ some item
    → has_expired now item.expired ≡ true
    → t ≤ now + suc n
    → (view now k s ≡ none)
      × ((expire now later k (pos (suc n)) s).1 ≡ ok tt)
      × ((get t k (expire now later k (pos (suc n)) s).0).1 ≡ ok item.value)
expire_revives now later t n k s item connected there gone soon =
    let x = expire-Expired now later k s connected item (pos (suc n)) there in
    (
      ground arith,
      x.answer,
      ground (arith, x.views t k, eq_refl k, get-view t k (expire now later k (pos (suc n)) s).0),
    )

-- Where the map still holds an expired entry, Get returns "key expired" and drops it, and the Get of
-- this key that follows returns ErrNotFound; the other keys are read as before.
pub get_expired-twice :
    (now later : ℕ) (k : String) (s : Memory) (item : StrItem)
    → read k s.str_items ≡ some item
    → has_expired now item.expired ≡ true
    → ((get now k s).1 ≡ err key_expired)
      × ((get later k (get now k s).0).1 ≡ err not_found)
      × ((t : ℕ) (j : String) → (j == k) ≡ false → view t j (get now k s).0 ≡ view t j s)
unfolding get
get_expired-twice now later k s item there gone = (
  ground arith,
  ground (arith, read-remove k k s.str_items, eq_refl k),
  λ t j other. ground (arith, read-remove k j s.str_items, eq_iff k j, eq_iff j k),
)
