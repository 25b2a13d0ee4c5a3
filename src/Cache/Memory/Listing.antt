-- ===== src/Cache/Memory/Listing.antt =====
-- cache/memory/memory.go: List. The order of a Go map is unspecified; here it is the list's.
use kratos_kit.Base.{
  ℕ, ◌≤◌, ◌≡◌, refl, ◌∙◌, String, Bool, Option, none, some, List, [], ◌∷◌, ◌++◌, arith, ◌==◌,
  eq_iff, if◌then◌else◌,
}
use kratos_kit.Base.Dict.{Dict, lookup, Distinct}
use kratos_kit.Cache.Store.{Entry, string, hash}
use kratos_kit.Cache.Memory.{StrItem, MapItem, Memory, GoMap, read, has_expired, ttl}
use kratos_kit.Cache.Memory.Strings.View
use kratos_kit.Cache.Memory.Hashes.View as HashView

-- One loop of List: what has expired is deleted, the rest is listed.
module _ {V : Type 0} (gone : V → Bool) (entry : String → V → Entry) where
  pub sweep : Dict V → Dict V × List Entry
  sweep [] = ([], [])
  sweep ((k, item) ∷ l) =
      let (kept, entries) = sweep l in
      if gone item then (kept, entries) else ((k, item) ∷ kept, entry k item ∷ entries)

  abbrev pub sweep_map : GoMap V → GoMap V × List Entry
  sweep_map none = (none, [])
  sweep_map (some m) = let (kept, entries) = sweep m in (some kept, entries)

-- The entries of List; `until` is the reading of the clock that ttl makes for a key.
abbrev pub string_entry : (String → ℕ) → String → StrItem → Entry
string_entry until k item = record {
  key = k;
  content = string item.value;
  ttl = ttl (until k) item.expired;
  expires_at = item.expired;
  created_at = item.created_at;
  updated_at = item.updated_at;
}

abbrev pub hash_entry : (String → ℕ) → String → MapItem → Entry
hash_entry until k item = record {
  key = k;
  content = hash item.value;
  ttl = ttl (until k) item.expired;
  expires_at = item.expired;
  created_at = item.created_at;
  updated_at = item.updated_at;
}

-- List
unfoldable pub list : ℕ → (String → ℕ) → Memory → Memory × List Entry
unfolding sweep
list now until s =
    let (strs, es) = sweep_map (λ i. has_expired now i.expired) (string_entry until) s.str_items in
    let (maps, hs) = sweep_map (λ i. has_expired now i.expired) (hash_entry until) s.map_items in
    (record { str_items = strs; map_items = maps }, es ++ hs)

-- The first listed string, or hash, of a key.
abbrev pub find_string : String → List Entry → Option String
find_string k [] = none
find_string k (e ∷ es) = elim e.content [
  | string v ↦ if e.key == k then some v else find_string k es
  | hash _ ↦ find_string k es
]

abbrev pub find_hash : String → List Entry → Option (Dict String)
find_hash k [] = none
find_hash k (e ∷ es) = elim e.content [
  | string _ ↦ find_hash k es
  | hash m ↦ if e.key == k then some m else find_hash k es
]

abbrev pub keep_if : {V : Type 0} → (V → Bool) → Option V → Option V
keep_if gone none = none
keep_if gone (some v) = if gone v then none else some v

lookup-sweep :
    {V : Type 0} (gone : V → Bool) (entry : String → V → Entry) (m : Dict V) (k : String)
    → Distinct m
    → lookup k (sweep gone entry m).0 ≡ keep_if gone (lookup k m)
unfolding sweep lookup
lookup-sweep gone entry [] k d = refl
lookup-sweep gone entry ((j, item) ∷ l) k (fresh, d) =
    ground (arith, lookup-sweep gone entry l k d, eq_iff j k)

find_string-sweep :
    (now : ℕ) (until : String → ℕ) (m : Dict StrItem) (k : String) (hs : List Entry)
    → Distinct m
    → find_string k hs ≡ none
    → find_string k ((sweep (λ i. has_expired now i.expired) (string_entry until) m).1 ++ hs)
      ≡ View.seen now (View.stored (lookup k m))
unfolding sweep lookup
find_string-sweep now until [] k hs d h = h
find_string-sweep now until ((j, item) ∷ l) k hs (fresh, d) h =
    ground (arith, find_string-sweep now until l k hs d h, eq_iff j k)

find_string-hashes :
    (now : ℕ) (until : String → ℕ) (m : Dict MapItem) (k : String)
    → find_string k (sweep (λ i. has_expired now i.expired) (hash_entry until) m).1 ≡ none
unfolding sweep
find_string-hashes now until [] k = refl
find_string-hashes now until ((j, item) ∷ l) k = ground (arith, find_string-hashes now until l k)

find_hash-sweep :
    (now : ℕ) (until : String → ℕ) (m : Dict MapItem) (k : String)
    → Distinct m
    → find_hash k (sweep (λ i. has_expired now i.expired) (hash_entry until) m).1
      ≡ HashView.fields now (lookup k m)
unfolding sweep lookup
find_hash-sweep now until [] k d = refl
find_hash-sweep now until ((j, item) ∷ l) k (fresh, d) =
    ground (arith, find_hash-sweep now until l k d, eq_iff j k)

find_hash-strings :
    (now : ℕ) (until : String → ℕ) (m : Dict StrItem) (k : String) (hs : List Entry)
    → find_hash k ((sweep (λ i. has_expired now i.expired) (string_entry until) m).1 ++ hs)
      ≡ find_hash k hs
unfolding sweep
find_hash-strings now until [] k hs = refl
find_hash-strings now until ((j, item) ∷ l) k hs =
    ground (arith, find_hash-strings now until l k hs)

-- No key stands twice in either map, as in any Go map.
abbrev pub DistinctMap : {V : Type 0} → GoMap V → Type 0
DistinctMap none = Unit
DistinctMap (some m) = Distinct m

module _ (now : ℕ) (until : String → ℕ) where
  abbrev string_entries : GoMap StrItem → List Entry
  string_entries m = (sweep_map (λ i. has_expired now i.expired) (string_entry until) m).1

  abbrev hash_entries : GoMap MapItem → List Entry
  hash_entries m = (sweep_map (λ i. has_expired now i.expired) (hash_entry until) m).1

  find_string-maps :
      (ss : GoMap StrItem) (ms : GoMap MapItem) (k : String)
      → DistinctMap ss
      → find_string k (string_entries ss ++ hash_entries ms)
        ≡ View.seen now (View.stored (read k ss))
  find_string-maps none none k d = refl
  find_string-maps none (some m) k d = find_string-hashes now until m k
  find_string-maps (some l) none k d = find_string-sweep now until l k [] d refl
  find_string-maps (some l) (some m) k d =
      find_string-sweep now until l k _ d (find_string-hashes now until m k)

  find_hash-maps :
      (ss : GoMap StrItem) (ms : GoMap MapItem) (k : String)
      → DistinctMap ms
      → find_hash k (string_entries ss ++ hash_entries ms) ≡ HashView.fields now (read k ms)
  find_hash-maps none none k d = refl
  find_hash-maps none (some m) k d = find_hash-sweep now until m k d
  find_hash-maps (some l) none k d = find_hash-strings now until l k []
  find_hash-maps (some l) (some m) k d =
      find_hash-strings now until l k _ ∙ find_hash-sweep now until m k d

read-sweep_map :
    {V : Type 0} (gone : V → Bool) (entry : String → V → Entry) (m : GoMap V) (k : String)
    → DistinctMap m
    → read k (sweep_map gone entry m).0 ≡ keep_if gone (read k m)
read-sweep_map gone entry none k d = refl
read-sweep_map gone entry (some m) k d = lookup-sweep gone entry m k d

module _ (now : ℕ) (until : String → ℕ) (s : Memory) where
  -- List shows of every key the string and the hash that Get and HGetAll would return, and
  -- nothing of what has expired, where the maps hold no key twice.
  pub list-view :
      (k : String)
      → DistinctMap s.str_items
      → DistinctMap s.map_items
      → (find_string k (list now until s).1 ≡ View.view now k s)
        × (find_hash k (list now until s).1 ≡ HashView.view_all now k s)
  unfolding list
  list-view k ds dm = (
    find_string-maps now until s.str_items s.map_items k ds,
    find_hash-maps now until s.str_items s.map_items k dm,
  )

  -- List drops what has expired, and from then on every string and every field of a hash reads as
  -- it would have without that, where the maps hold no key twice.
  pub view-list :
      (t : ℕ) (k g : String)
      → now ≤ t
      → DistinctMap s.str_items
      → DistinctMap s.map_items
      → (View.view t k (list now until s).0 ≡ View.view t k s)
        × (HashView.view t k g (list now until s).0 ≡ HashView.view t k g s)
  unfolding list
  view-list t k g h ds dm = (
    ground (
      arith,
      read-sweep_map (λ (i : StrItem). has_expired now i.expired) (string_entry until) s.str_items k
          ds,
    ),
    ground (
      arith,
      read-sweep_map (λ (i : MapItem). has_expired now i.expired) (hash_entry until) s.map_items k
          dm,
    ),
  )
