-- ===== src/Cache/Memory/Strings.antt =====
-- cache/memory/memory.go: the operations on string keys. Each is one step under strMutex; it takes
-- the readings of the clock that it makes, in order. strconv is a parameter.
pub mod View
pub mod Steps
pub mod Expiry
mod Tests
pub mod Refinement
use kratos_kit.Base.{
  ℕ, ◌+◌, ◌≡◌, String, Bool, true, false, not, ◌||◌, Option, none, some, arith, if◌then◌else◌,
}
use kratos_kit.Base.Dict.{Dict, lookup, erase, insert}
use kratos_kit.Base.Time.{Time, zero_time, at, is_zero, before}
use kratos_kit.Base.Int.{ℤ, pos, wrap, InInt64, ◌+ℤ◌}
use kratos_kit.Cache.Store.{Error, Result, ok, err, not_found, key_expired, parse_error, nil_map}
use kratos_kit.Cache.Memory.{StrItem, Memory, read, remove, has_expired, expiration}

abbrev pub drop_str : String → Memory → Memory
drop_str key s = record s { str_items = remove key s.str_items }

-- s.strItems[key] = item
abbrev pub write_str {ℓ} : {A : Type ℓ} → String → StrItem → A → Memory → Memory × Result A
write_str key item a s = elim s.str_items [
  | none ↦ (s, err nil_map)
  | some m ↦ (record s { str_items = some (insert key item m) }, ok a)
]

-- Get
unfoldable pub get : ℕ → String → Memory → Memory × Result String
get now key s = elim (read key s.str_items) [
  | none ↦ (s, err not_found)
  | some item ↦
      if has_expired now item.expired then (drop_str key s, err key_expired) else (s, ok item.value)
]

-- GetDel
unfoldable pub get_del : ℕ → String → Memory → Memory × Result String
get_del now key s = elim (read key s.str_items) [
  | none ↦ (s, err not_found)
  | some item ↦
      (drop_str key s, if has_expired now item.expired then err key_expired else ok item.value)
]

-- The creation time that Set keeps of a key that was there and had not expired.
abbrev pub created : ℕ → Option StrItem → ℕ
created now none = now
created now (some previous) =
    if is_zero previous.expired || before now previous.expired then previous.created_at else now

-- Set; `later` is the reading that expiration makes
unfoldable pub set : ℕ → ℕ → String → String → ℤ → Memory → Memory × Result (Unit {0})
set now later key value expire s =
    write_str key
      (record {
        value = value;
        expired = expiration later expire;
        created_at = created now (read key s.str_items);
        updated_at = now;
      })
      tt s

-- Del
unfoldable pub del : String → Memory → Memory × Result (Unit {0})
del key s = (drop_str key s, ok tt)

-- Expire
unfoldable pub expire : ℕ → ℕ → String → ℤ → Memory → Memory × Result (Unit {0})
expire now later key dur s = elim (read key s.str_items) [
  | none ↦ (s, err not_found)
  | some item ↦
      write_str key (record item { expired = expiration now dur; updated_at = later }) tt s
]

-- Exists
unfoldable pub exists : ℕ → String → Memory → Memory × Bool
exists now key s = elim (read key s.str_items) [
  | none ↦ (s, false)
  | some item ↦ if has_expired now item.expired then (drop_str key s, false) else (s, true)
]

-- strconv.ParseInt (`none` for an error) and strconv.FormatInt, base 10 and 64 bits
pub record Strconv : Type 0 where
  pub parse_int : String → Option ℤ
  pub format_int : ℤ → String

module _ (c : Strconv) where
  open c use {parse_int, format_int}

  -- value++ and what Incr writes for it; a new item is created where there is none
  unfoldable pub bump : ℕ → String → Option StrItem → ℤ → Memory → Memory × Result ℤ
  bump now key old value s =
      let next = wrap (value +ℤ pos 1) in
      write_str key
        (record {
          value = format_int next;
          expired = zero_time;
          created_at = elim old [ none ↦ now | some item ↦ item.created_at ];
          updated_at = now;
        })
        next s

  -- Incr
  unfoldable pub incr : ℕ → ℕ → String → Memory → Memory × Result ℤ
  unfolding bump
  incr now later key s = elim (read key s.str_items) [
    | none ↦ bump later key none (pos 0) s
    | some item ↦
        if has_expired now item.expired
        then bump later key none (pos 0) (drop_str key s)
        else elim (parse_int item.value) [
          | none ↦ (s, err parse_error)
          | some value ↦ bump later key (some item) value s
        ]
  ]
