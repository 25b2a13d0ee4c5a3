-- ===== src/Cache/Memory/Strings/View.antt =====
-- cache/memory/memory.go: string keys as a client sees them. A view forgets the entries that have
-- expired and are still in the map.
use kratos_kit.Base.{
  ℕ, ◌≤◌, ◌≡◌, ◌≢◌, refl, String, true, false, Option, none, some, List, Option-cases, Bool-cases,
  inl, inr, arith, ◌==◌, eq_iff, if◌then◌else◌,
}
use kratos_kit.Base.Dict.{lookup-erase, lookup-insert}
use kratos_kit.Base.Time.{Time}
use kratos_kit.Base.Int.{ℤ, pos, wrap, ◌+ℤ◌}
use kratos_kit.Cache.Store.{Result, ok, err, not_found, key_expired, parse_error}
use kratos_kit.Cache.Memory.{StrItem, Memory, read, remove, has_expired, expiration}
use kratos_kit.Cache.Memory.Strings.{
  drop_str, write_str, get, get_del, set, del, expire, exists, Strconv, bump, incr,
}

-- A value with the time at which it expires, and what is left of it at `now`.
abbrev pub Stored : Type 0
Stored = Option (String × Time)

abbrev pub seen : ℕ → Stored → Option String
seen now none = none
seen now (some (v, t)) = if has_expired now t then none else some v

abbrev pub stored : Option StrItem → Stored
stored none = none
stored (some item) = some (item.value, item.expired)

-- The value that a client can read under the key at `now`.
abbrev pub view : ℕ → String → Memory → Option String
view now key s = seen now (stored (read key s.str_items))

-- The map of string keys is not nil.
abbrev pub IsConnected : Memory → Type 0
IsConnected s = s.str_items ≢ none

pub read-remove :
    {V : Type 0} (k j : String) (m : Option (List (String × V)))
    → read j (remove k m) ≡ (if k == j then none else read j m)
read-remove k j none = ground arith
read-remove k j (some m) = lookup-erase k j m

module _ (now : ℕ) (k : String) (s : Memory) where
  -- Get answers what the view shows.
  pub get-view : (get now k s).1 ≡ elim (view now k s) [
    | some v ↦ ok v
    | none ↦ elim (read k s.str_items) [ none ↦ err not_found | some _ ↦ err key_expired ]
  ]
  unfolding get
  get-view = ground arith

  -- An entry that has expired stays so, hence dropping it changes no view from then on.
  pub view-get : (t : ℕ) (j : String) → now ≤ t → view t j (get now k s).0 ≡ view t j s
  unfolding get
  view-get t j h = ground (arith, read-remove k j s.str_items, eq_iff k j)

  pub view-exists : (t : ℕ) (j : String) → now ≤ t → view t j (exists now k s).0 ≡ view t j s
  unfolding exists
  view-exists t j h = ground (arith, read-remove k j s.str_items, eq_iff k j)

  pub exists-view : (exists now k s).1 ≡ elim (view now k s) [ some _ ↦ true | none ↦ false ]
  unfolding exists
  exists-view = ground arith

  pub view-get_del :
      (t : ℕ) (j : String) → view t j (get_del now k s).0 ≡ (if k == j then none else view t j s)
  unfolding get_del
  view-get_del t j = ground (arith, read-remove k j s.str_items, eq_iff k j)

  pub get_del-get : (get_del now k s).1 ≡ (get now k s).1
  unfolding get_del get
  get_del-get = ground arith

  pub get-IsConnected : IsConnected s → IsConnected (get now k s).0
  unfolding get
  get-IsConnected h q = ground arith

  pub exists-IsConnected : IsConnected s → IsConnected (exists now k s).0
  unfolding exists
  exists-IsConnected h q = ground arith

  pub get_del-IsConnected : IsConnected s → IsConnected (get_del now k s).0
  unfolding get_del
  get_del-IsConnected h q = ground arith

pub del-IsConnected : (k : String) (s : Memory) → IsConnected s → IsConnected (del k s).0
unfolding del
del-IsConnected k s h q = ground arith

pub del-ok : (k : String) (s : Memory) → (del k s).1 ≡ ok tt
unfolding del
del-ok k s = refl

pub view-del :
    (k : String) (s : Memory) (t : ℕ) (j : String)
    → view t j (del k s).0 ≡ (if k == j then none else view t j s)
unfolding del
view-del k s t j = ground (arith, read-remove k j s.str_items, eq_iff k j)

-- What a write of an item leaves under each key.
record Written {A : Type 0} (k : String) (item : StrItem) (a : A) (s : Memory) : Type 0 where
  pub at_key :
      (j : String)
      → read j (write_str k item a s).0.str_items
        ≡ (if k == j then some item else read j s.str_items)
  pub answer : (write_str k item a s).1 ≡ ok a
  pub kept : IsConnected (write_str k item a s).0

write_str-Written :
    {A : Type 0} (k : String) (item : StrItem) (a : A) (s : Memory)
    → IsConnected s
    → Written k item a s
write_str-Written k item a s h = elim (Option-cases s.str_items) [
  | inl p ↦ absurd (h p)
  | inr (m, p) ↦ record {
    at_key = λ j. ground (arith, lookup-insert k j item m);
    answer = ground arith;
    kept = λ q. ground arith;
  }
]

module _ (now later : ℕ) (k : String) (s : Memory) (connected : IsConnected s) where
  pub view-set :
      (v : String) (d : ℤ) (t : ℕ) (j : String)
      → view t j (set now later k v d s).0
        ≡ (if k == j then seen t (some (v, expiration later d)) else view t j s)
  unfolding set
  view-set v d t j = rw ((write_str-Written k _ tt s connected).at_key j) (ground arith)

  pub set-ok : (v : String) (d : ℤ) → (set now later k v d s).1 ≡ ok tt
  unfolding set
  set-ok v d = (write_str-Written k _ tt s connected).answer

  pub set-IsConnected : (v : String) (d : ℤ) → IsConnected (set now later k v d s).0
  unfolding set
  set-IsConnected v d = (write_str-Written k _ tt s connected).kept

  expire-write :
      (item : StrItem) (d : ℤ)
      → read k s.str_items ≡ some item
      → expire now later k d s
        ≡ write_str k (record item { expired = expiration now d; updated_at = later }) tt s
  unfolding expire
  expire-write item d p = ground arith

  -- Expire on a key that the map holds, expired or not.
  pub record Expired (item : StrItem) (d : ℤ) : Type 0 where
    pub views :
        (t : ℕ) (j : String)
        → view t j (expire now later k d s).0
          ≡ (if k == j then seen t (some (item.value, expiration now d)) else view t j s)
    pub answer : (expire now later k d s).1 ≡ ok tt
    pub kept : IsConnected (expire now later k d s).0

  pub expire-Expired : (item : StrItem) (d : ℤ) → read k s.str_items ≡ some item → Expired item d
  expire-Expired item d p =
      let w =
        write_str-Written k (record item { expired = expiration now d; updated_at = later }) tt s
          connected in
      let e = expire-write item d p in
      record {
        views = λ t j. rw e (rw (w.at_key j) (ground arith));
        answer = rw e w.answer;
        kept = rw e w.kept;
      }

module _ (c : Strconv) (now later : ℕ) (k : String) where
  open c use {parse_int, format_int}

  -- What Incr leaves where it writes `n + 1`.
  pub record Bumped (n : ℤ) (s : Memory) (r : Memory × Result ℤ) : Type 0 where
    pub views :
        (t : ℕ) (j : String)
        → view t j r.0 ≡ (if k == j then some (format_int (wrap (n +ℤ pos 1))) else view t j s)
    pub answer : r.1 ≡ ok (wrap (n +ℤ pos 1))
    pub kept : IsConnected r.0

  bump-Bumped :
      (old : Option StrItem) (n : ℤ) (s : Memory)
      → IsConnected s
      → Bumped n s (bump c later k old n s)
  unfolding bump
  bump-Bumped old n s h =
      let w = write_str-Written k _ (wrap (n +ℤ pos 1)) s h in
      record { views = λ t j. rw (w.at_key j) (ground arith); answer = w.answer; kept = w.kept }

  incr-bump :
      (s : Memory) (item : StrItem) (n : ℤ)
      → read k s.str_items ≡ some item
      → has_expired now item.expired ≡ false
      → parse_int item.value ≡ some n
      → incr c now later k s ≡ bump c later k (some item) n s
  unfolding incr
  incr-bump s item n p live q = ground arith

  incr_absent :
      (s : Memory)
      → read k s.str_items ≡ none
      → incr c now later k s ≡ bump c later k none (pos 0) s
  unfolding incr
  incr_absent s p = ground arith

  incr_expired :
      (s : Memory) (item : StrItem)
      → read k s.str_items ≡ some item
      → has_expired now item.expired ≡ true
      → incr c now later k s ≡ bump c later k none (pos 0) (drop_str k s)
  unfolding incr
  incr_expired s item p gone = ground arith

  drop_str-IsConnected : (s : Memory) → IsConnected s → IsConnected (drop_str k s)
  drop_str-IsConnected s h q = ground arith

  -- A key that is written anyway may be dropped before.
  Bumped-drop :
      (n : ℤ) (s : Memory) (r : Memory × Result ℤ) → Bumped n (drop_str k s) r → Bumped n s r
  Bumped-drop n s r b = record {
    views = λ t j. ground (arith, b.views t j, read-remove k j s.str_items);
    answer = b.answer;
    kept = b.kept;
  }

  -- Incr of a key that is not there or has expired starts from 0.
  pub incr_fresh :
      (s : Memory) → IsConnected s → view now k s ≡ none → Bumped (pos 0) s (incr c now later k s)
  incr_fresh s h p = elim (Option-cases (read k s.str_items)) [
    | inl q ↦ rw (incr_absent s q) (bump-Bumped none (pos 0) s h)
    | inr (item, q) ↦ elim (Bool-cases (has_expired now item.expired)) [
      | inl gone ↦ rw (incr_expired s item q gone) (
          Bumped-drop (pos 0) s _
            (bump-Bumped none (pos 0) (drop_str k s) (drop_str-IsConnected s h)))
      | inr live ↦ absurd (ground arith)
    ]
  ]

  -- Incr of a key that holds a number adds 1 and takes its expiry away.
  pub incr_live :
      (s : Memory) (v : String) (n : ℤ)
      → IsConnected s
      → view now k s ≡ some v
      → parse_int v ≡ some n
      → Bumped n s (incr c now later k s)
  incr_live s v n h p q = elim (Option-cases (read k s.str_items)) [
    | inl e ↦ absurd (ground arith)
    | inr (item, e) ↦
        rw (incr-bump s item n e (ground arith) (ground arith)) (bump-Bumped (some item) n s h)
  ]

  pub incr_bad :
      (s : Memory) (v : String)
      → view now k s ≡ some v
      → parse_int v ≡ none
      → incr c now later k s ≡ (s, err parse_error)
  unfolding incr
  incr_bad s v p q = ground arith
