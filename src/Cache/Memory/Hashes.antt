-- ===== src/Cache/Memory/Hashes.antt =====
-- cache/memory/memory.go: the operations on hashes, each one step under mapMutex, with the readings
-- of the clock that it makes. HGetAll hands out the stored map itself; a hash is a value here, so
-- what a caller does to that map afterwards is not modelled.
pub mod View
pub mod Writes
use kratos_kit.Base.{ℕ, ◌≡◌, String, Bool, Option, none, some, [], if◌then◌else◌}
use kratos_kit.Base.Dict.{Dict, lookup, erase, insert}
use kratos_kit.Base.Time.{Time, zero_time}
use kratos_kit.Cache.Store.{
  Error, Result, ok, err, not_found, key_expired, field_not_found, nil_map,
}
use kratos_kit.Cache.Memory.{MapItem, Memory, read, remove, has_expired}

abbrev pub drop_map : String → Memory → Memory
drop_map key s = record s { map_items = remove key s.map_items }

-- s.mapItems[key] = item
abbrev pub write_map : String → MapItem → Memory → Memory × Result (Unit {0})
write_map key item s = elim s.map_items [
  | none ↦ (s, err nil_map)
  | some m ↦ (record s { map_items = some (insert key item m) }, ok tt)
]

-- HGetAll
unfoldable pub h_get_all : ℕ → String → Memory → Memory × Result (Dict String)
h_get_all now key s = elim (read key s.map_items) [
  | none ↦ (s, err not_found)
  | some item ↦
      if has_expired now item.expired then (drop_map key s, err key_expired) else (s, ok item.value)
]

abbrev pub field_of : String → Dict String → Result String
field_of field m = elim (lookup field m) [ none ↦ err field_not_found | some v ↦ ok v ]

-- HGet
unfoldable pub h_get : ℕ → String → String → Memory → Memory × Result String
h_get now key field s = elim (read key s.map_items) [
  | none ↦ (s, err not_found)
  | some item ↦
      if has_expired now item.expired
      then (drop_map key s, err key_expired)
      else (s, field_of field item.value)
]

-- The item that HSet writes into: the one that is there, or a new one.
abbrev pub fresh_map : ℕ → MapItem
fresh_map now = record { value = []; expired = zero_time; created_at = now; updated_at = now }

abbrev pub set_field : ℕ → String → String → MapItem → MapItem
set_field later field value item = record item {
  value = insert field value item.value;
  updated_at = later;
}

-- HSet
unfoldable pub h_set : ℕ → ℕ → ℕ → String → String → String → Memory → Memory × Result (Unit {0})
h_set now created later key field value s = elim (read key s.map_items) [
  | none ↦ write_map key (set_field later field value (fresh_map created)) s
  | some item ↦
      if has_expired now item.expired
      then write_map key (set_field later field value (fresh_map created)) (drop_map key s)
      else write_map key (set_field later field value item) s
]

-- HDel; an expired hash stays where it is
unfoldable pub h_del : ℕ → ℕ → String → String → Memory → Memory × Result (Unit {0})
h_del now later key field s = elim (read key s.map_items) [
  | none ↦ (s, err not_found)
  | some item ↦
      if has_expired now item.expired
      then (s, err key_expired)
      else write_map key (record item { value = erase field item.value; updated_at = later }) s
]

abbrev pub done_if_there : Result String → Result (Unit {0})
done_if_there (ok v) = ok tt
done_if_there (err e) = err e

-- HExists; it holds a read lock and drops nothing
unfoldable pub h_exists : ℕ → String → String → Memory → Result (Unit {0})
h_exists now key field s = elim (read key s.map_items) [
  | none ↦ err not_found
  | some item ↦
      if has_expired now item.expired
      then err key_expired
      else done_if_there (field_of field item.value)
]
