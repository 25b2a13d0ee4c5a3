-- ===== src/Cache/Memory/Hashes/Writes.antt =====
-- cache/memory/memory.go: what HSet and HDel change, where no hash has an expiry time.
use kratos_kit.Base.{
  eq_refl, ℕ, ◌≡◌, refl, String, false, ◌&&◌, Option, none, some, List, [], ◌∷◌, Option-cases, inl,
  inr, arith, ◌==◌, eq_iff, if◌then◌else◌,
}
use kratos_kit.Base.Dict.{Dict, insert, erase, lookup-nil, lookup-erase, lookup-insert}
use kratos_kit.Base.Time.{zero_time}
use kratos_kit.Cache.Store.{ok, err, not_found}
use kratos_kit.Cache.Memory.{MapItem, Memory, read, has_expired, new_memory}
use kratos_kit.Cache.Memory.Hashes.{write_map, h_get_all, h_get, fresh_map, set_field, h_set, h_del}
use kratos_kit.Cache.Memory.Hashes.View.{view, view_all, IsConnected, write_map-Written}

-- A hash that is not there reads as empty.
abbrev pub or_nil : Option (Dict String) → Dict String
or_nil none = []
or_nil (some m) = m

-- The hashes are there (the map is not nil), and none has an expiry time.
pub record IsPersistent (s : Memory) : Type 0 where
  pub connected : IsConnected s
  pub forever :
      (k : String) (item : MapItem) → read k s.map_items ≡ some item → item.expired ≡ zero_time

pub new_memory-IsPersistent : IsPersistent new_memory
new_memory-IsPersistent = record {
  connected = λ q. cc;
  forever = λ k item p. ground (arith, lookup-nil {V = MapItem} k);
}

module _ (s : Memory) (h : IsPersistent s) where
  write-IsPersistent :
      (k : String) (item : MapItem) → item.expired ≡ zero_time → IsPersistent (write_map k item s).0
  write-IsPersistent k item never =
      let w = write_map-Written k item s h.connected in
      record {
        connected = w.kept;
        forever = λ j other p. ground (arith, w.at_key j, h.forever j other);
      }

  module _ (now : ℕ) (k : String) where
    alive : (item : MapItem) → read k s.map_items ≡ some item → has_expired now item.expired ≡ false
    alive item p = ground (arith, h.forever k item p)

    -- Reading drops nothing.
    pub state-h_get : (f : String) → (h_get now k f s).0 ≡ s
    unfolding h_get
    state-h_get f = elim (Option-cases (read k s.map_items)) [
      | inl p ↦ ground arith
      | inr (item, p) ↦ ground (arith, alive item p)
    ]

    pub state-h_get_all : (h_get_all now k s).0 ≡ s
    unfolding h_get_all
    state-h_get_all = elim (Option-cases (read k s.map_items)) [
      | inl p ↦ ground arith
      | inr (item, p) ↦ ground (arith, alive item p)
    ]

    abbrev target : ℕ → Option MapItem → MapItem
    target created none = fresh_map created
    target created (some item) = item

    h_set-write :
        (created later : ℕ) (f v : String)
        → h_set now created later k f v s
          ≡ write_map k (set_field later f v (target created (read k s.map_items))) s
    unfolding h_set
    h_set-write created later f v = elim (Option-cases (read k s.map_items)) [
      | inl p ↦ ground arith
      | inr (item, p) ↦ ground (arith, alive item p)
    ]

    target_never : (created : ℕ) → (target created (read k s.map_items)).expired ≡ zero_time
    target_never created = elim (Option-cases (read k s.map_items)) [
      | inl p ↦ ground arith
      | inr (item, p) ↦ ground (arith, h.forever k item p)
    ]

    pub h_set-IsPersistent :
        (created later : ℕ) (f v : String) → IsPersistent (h_set now created later k f v s).0
    h_set-IsPersistent created later f v =
        rw (h_set-write created later f v) (write-IsPersistent k _ (target_never created))

    pub h_set-ok : (created later : ℕ) (f v : String) → (h_set now created later k f v s).1 ≡ ok tt
    h_set-ok created later f v =
        rw (h_set-write created later f v) (write_map-Written k _ s h.connected).answer

    -- After HSet the field holds the value, and every other field of every key what it held.
    pub view-h_set :
        (created later : ℕ) (f v : String) (t : ℕ) (j g : String)
        → view t j g (h_set now created later k f v s).0
          ≡ (if (k == j) && (f == g) then some v else view t j g s)
    view-h_set created later f v t j g =
        let item = target created (read k s.map_items) in
        let w = write_map-Written k (set_field later f v item) s h.connected in
        rw (h_set-write created later f v) (
          ground (
            arith,
            w.at_key j,
            lookup-insert f g v item.value,
            target_never created,
            eq_iff k j,
            lookup-nil {V = String} g,
          ))

    -- The whole hash after HSet
    pub view_all-h_set :
        (created later : ℕ) (f v : String) (t : ℕ)
        → view_all t k (h_set now created later k f v s).0
          ≡ some (insert f v (or_nil (view_all t k s)))
    view_all-h_set created later f v t =
        let item = target created (read k s.map_items) in
        let w = write_map-Written k (set_field later f v item) s h.connected in
        rw (h_set-write created later f v)
          (rw (w.at_key k) (ground (arith, target_never created, eq_refl k)))

    h_del_absent :
        (later : ℕ) (f : String)
        → read k s.map_items ≡ none
        → h_del now later k f s ≡ (s, err not_found)
    unfolding h_del
    h_del_absent later f p = ground arith

    h_del-write :
        (later : ℕ) (f : String) (item : MapItem)
        → read k s.map_items ≡ some item
        → h_del now later k f s
          ≡ write_map k (record item { value = erase f item.value; updated_at = later }) s
    unfolding h_del
    h_del-write later f item p = ground (arith, alive item p)

    pub h_del-IsPersistent : (later : ℕ) (f : String) → IsPersistent (h_del now later k f s).0
    h_del-IsPersistent later f = elim (Option-cases (read k s.map_items)) [
      | inl p ↦ rw (h_del_absent later f p) h
      | inr (item, p) ↦
          rw (h_del-write later f item p) (write-IsPersistent k _ (h.forever k item p))
    ]

    -- HDel of a hash that is there answers nil and leaves the hash without the field.
    pub record Deleted (later : ℕ) (f : String) (m : Dict String) : Type 0 where
      pub answer : (h_del now later k f s).1 ≡ ok tt
      pub left : view_all now k (h_del now later k f s).0 ≡ some (erase f m)

    pub h_del-Deleted :
        (later : ℕ) (f : String) (m : Dict String) → view_all now k s ≡ some m → Deleted later f m
    h_del-Deleted later f m q = elim (Option-cases (read k s.map_items)) [
      | inl p ↦ absurd (ground arith)
      | inr (item, p) ↦
          let left = record item { value = erase f item.value; updated_at = later } in
          let w = write_map-Written k left s h.connected in
          let e = h_del-write later f item p in
          let same : item.value ≡ m = ground (arith, alive item p) in
          let kept = h.forever k item p in
          record {
            answer = rw e w.answer;
            left = rw e (rw (w.at_key k) (ground (arith, eq_refl k)));
          }
    ]

    -- After HDel the field is gone, and every other field of every key holds what it held.
    pub view-h_del :
        (later : ℕ) (f : String) (t : ℕ) (j g : String)
        → view t j g (h_del now later k f s).0
          ≡ (if (k == j) && (f == g) then none else view t j g s)
    view-h_del later f t j g = elim (Option-cases (read k s.map_items)) [
      | inl p ↦ rw (h_del_absent later f p) (ground (arith, eq_iff k j))
      | inr (item, p) ↦
          let left = record item { value = erase f item.value; updated_at = later } in
          let w = write_map-Written k left s h.connected in
          rw (h_del-write later f item p) (
            ground (arith, w.at_key j, lookup-erase f g item.value, h.forever k item p, eq_iff k j))
    ]

-- A sequence of operations on hashes, with the readings of the clock that each makes.
pub data Command : Type 0 where
  get : ℕ → String → String → Command
  get_all : ℕ → String → Command
  set : ℕ → ℕ → ℕ → String → String → String → Command
  del : ℕ → ℕ → String → String → Command

unfoldable pub step : Command → Memory → Memory
step (get now k f) s = (h_get now k f s).0
step (get_all now k) s = (h_get_all now k s).0
step (set now created later k f v) s = (h_set now created later k f v s).0
step (del now later k f) s = (h_del now later k f s).0

unfoldable pub run : List Command → Memory → Memory
unfolding step
run [] s = s
run (x ∷ xs) s = run xs (step x s)

-- The specification: a function from key and field to the value last set and not deleted since.
unfoldable pub last_set : List Command → String → String → Option String → Option String
last_set [] j g old = old
last_set (get now k f ∷ xs) j g old = last_set xs j g old
last_set (get_all now k ∷ xs) j g old = last_set xs j g old
last_set (set now created later k f v ∷ xs) j g old =
    last_set xs j g (if (k == j) && (f == g) then some v else old)
last_set (del now later k f ∷ xs) j g old =
    last_set xs j g (if (k == j) && (f == g) then none else old)

-- From a cache whose hashes have no expiry times, after any operations on hashes, a field reads, at
-- any time, the value last set in it and not deleted since; and the hashes still have no expiry
-- times.
pub run-last_set :
    (xs : List Command) (s : Memory)
    → IsPersistent s
    → IsPersistent (run xs s)
      × ((t : ℕ) (j g : String) → view t j g (run xs s) ≡ last_set xs j g (view t j g s))
unfolding run last_set
run-last_set [] s h = (h, λ t j g. refl)
run-last_set (get now k f ∷ xs) s h =
    let (kept, same) = run-last_set xs s h in
    let e = state-h_get s h now k f in (rw e kept, λ t j g. rw (e, run) (same t j g))
run-last_set (get_all now k ∷ xs) s h =
    let (kept, same) = run-last_set xs s h in
    let e = state-h_get_all s h now k in (rw e kept, λ t j g. rw (e, run) (same t j g))
run-last_set (set now created later k f v ∷ xs) s h =
    let next = h_set-IsPersistent s h now k created later f v in
    let (kept, same) = run-last_set xs (h_set now created later k f v s).0 next in
    (kept, λ t j g. rw (← view-h_set s h now k created later f v t j g) (same t j g))
run-last_set (del now later k f ∷ xs) s h =
    let next = h_del-IsPersistent s h now k later f in
    let (kept, same) = run-last_set xs (h_del now later k f s).0 next in
    (kept, λ t j g. rw (← view-h_del s h now k later f t j g) (same t j g))
