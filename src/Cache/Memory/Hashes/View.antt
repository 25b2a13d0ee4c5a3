-- ===== src/Cache/Memory/Hashes/View.antt =====
-- cache/memory/memory.go: hashes as a client sees them, field by field.
use kratos_kit.Base.{
  ℕ, ◌≤◌, ◌≡◌, ◌≢◌, ◌↔◌, String, Option, none, some, Option-cases, inl, inr, arith, ◌==◌, eq_iff,
  if◌then◌else◌,
}
use kratos_kit.Base.Dict.{Dict, lookup, lookup-erase, lookup-insert}
use kratos_kit.Cache.Store.{ok}
use kratos_kit.Cache.Memory.{MapItem, Memory, GoMap, read, remove, has_expired}
use kratos_kit.Cache.Memory.Hashes.{write_map, h_get_all, h_get, h_exists, done_if_there}

-- The fields that a client can read under the key at `now`.
abbrev pub fields : ℕ → Option MapItem → Option (Dict String)
fields now none = none
fields now (some item) = if has_expired now item.expired then none else some item.value

abbrev pub view_all : ℕ → String → Memory → Option (Dict String)
view_all now key s = fields now (read key s.map_items)

-- The value that a client can read in a field of a key.
abbrev pub field_in : String → Option (Dict String) → Option String
field_in field none = none
field_in field (some m) = lookup field m

abbrev pub view : ℕ → String → String → Memory → Option String
view now key field s = field_in field (view_all now key s)

abbrev pub IsConnected : Memory → Type 0
IsConnected s = s.map_items ≢ none

pub read-remove :
    (k j : String) (m : GoMap MapItem) → read j (remove k m) ≡ (if k == j then none else read j m)
read-remove k j none = ground arith
read-remove k j (some m) = lookup-erase k j m

pub record Written (k : String) (item : MapItem) (s : Memory) : Type 0 where
  pub at_key :
      (j : String)
      → read j (write_map k item s).0.map_items ≡ (if k == j then some item else read j s.map_items)
  pub answer : (write_map k item s).1 ≡ ok tt
  pub kept : IsConnected (write_map k item s).0

pub write_map-Written :
    (k : String) (item : MapItem) (s : Memory) → IsConnected s → Written k item s
write_map-Written k item s h = elim (Option-cases s.map_items) [
  | inl p ↦ absurd (h p)
  | inr (m, p) ↦ record {
    at_key = λ j. ground (arith, lookup-insert k j item m);
    answer = ground arith;
    kept = λ q. ground arith;
  }
]

module _ (now : ℕ) (k : String) (s : Memory) where
  -- HGet answers what the view shows, HGetAll the whole view, HExists whether HGet would answer;
  -- reading changes no view from then on.
  pub h_get-view : (f v : String) → ((h_get now k f s).1 ≡ ok v) ↔ (view now k f s ≡ some v)
  unfolding h_get
  h_get-view f v = ground arith

  pub h_get_all-view :
      (m : Dict String) → ((h_get_all now k s).1 ≡ ok m) ↔ (view_all now k s ≡ some m)
  unfolding h_get_all
  h_get_all-view m = ground arith

  pub h_exists-h_get : (f : String) → h_exists now k f s ≡ done_if_there (h_get now k f s).1
  unfolding h_exists h_get
  h_exists-h_get f = ground arith

  pub view-h_get :
      (f : String) (t : ℕ) (j g : String) → now ≤ t → view t j g (h_get now k f s).0 ≡ view t j g s
  unfolding h_get
  view-h_get f t j g h = ground (arith, read-remove k j s.map_items, eq_iff k j)

  pub view-h_get_all :
      (t : ℕ) (j g : String) → now ≤ t → view t j g (h_get_all now k s).0 ≡ view t j g s
  unfolding h_get_all
  view-h_get_all t j g h = ground (arith, read-remove k j s.map_items, eq_iff k j)
