-- ===== src/Cache/Memory/Strings/Refinement.antt =====
-- cache/memory/memory.go: string keys against a specification that never drops an entry and asks
-- the clock only when a key is read.
use kratos_kit.Base.{
  ℕ, ◌≤◌, ◌≡◌, ◌≢◌, String, Bool, true, false, Option, none, some, ◌==◌, if◌then◌else◌,
}
use kratos_kit.Base.Time.{zero_time}
use kratos_kit.Base.Int.{ℤ, pos, wrap, ◌+ℤ◌}
use kratos_kit.Cache.Store.{Result, ok, err, Error, not_found, key_expired, parse_error}
use kratos_kit.Cache.Memory.{Memory, expiration}
use kratos_kit.Cache.Memory.Strings
use kratos_kit.Cache.Memory.Strings.{Strconv, bump, drop_str}
use kratos_kit.Cache.Memory.Strings.View

abbrev pub Spec : Type 0
Spec = String → View.Stored

abbrev pub update : Spec → String → View.Stored → Spec
update a k x j = if k == j then x else a j

-- The operations with their readings of the clock; the first is the time of the operation.
pub data Command : Type 0 where
  get get_del exists : ℕ → String → Command
  set : ℕ → ℕ → String → String → ℤ → Command
  del : ℕ → String → Command
  expire : ℕ → ℕ → String → ℤ → Command
  incr : ℕ → ℕ → String → Command

-- What a client is told. A key with no value has one reply, `value none`, though the code has two errors
-- for it: "key expired" where the operation itself finds the expired entry, and ErrNotFound where the
-- entry is not there, or no more. Every other error is a reply of its own.
pub data Reply : Type 0 where
  value : Option String → Reply
  flag : Bool → Reply
  number : ℤ → Reply
  done : Reply
  failed : Error → Reply

abbrev pub time_of : Command → ℕ
time_of (get now _) = now
time_of (get_del now _) = now
time_of (exists now _) = now
time_of (set now _ _ _ _) = now
time_of (del now _) = now
time_of (expire now _ _ _) = now
time_of (incr now _ _) = now

abbrev absent_or : Error → Reply
absent_or not_found = value none
absent_or key_expired = value none
absent_or e = failed e

abbrev value_of : Result String → Reply
value_of (ok v) = value (some v)
value_of (err e) = absent_or e

abbrev number_of : Result ℤ → Reply
number_of (ok n) = number n
number_of (err e) = failed e

abbrev done_of : Result (Unit {0}) → Reply
done_of (ok _) = done
done_of (err e) = failed e

module _ (c : Strconv) where
  open c use {parse_int, format_int}

  unfoldable pub step : Command → Memory → Memory × Reply
  step (get now k) s = let (s', r) = Strings.get now k s in (s', value_of r)
  step (get_del now k) s = let (s', r) = Strings.get_del now k s in (s', value_of r)
  step (exists now k) s = let (s', b) = Strings.exists now k s in (s', flag b)
  step (set now later k v d) s = let (s', r) = Strings.set now later k v d s in (s', done_of r)
  step (del now k) s = let (s', r) = Strings.del k s in (s', done_of r)
  step (expire now later k d) s = let (s', r) = Strings.expire now later k d s in (s', done_of r)
  step (incr now later k) s = let (s', r) = Strings.incr c now later k s in (s', number_of r)

  abbrev pub spec_incr : Spec → String → ℤ → Spec × Reply
  spec_incr a k n =
      let next = wrap (n +ℤ pos 1) in (update a k (some (format_int next, zero_time)), number next)

  unfoldable pub spec_step : Command → Spec → Spec × Reply
  spec_step (get now k) a = (a, value (View.seen now (a k)))
  spec_step (get_del now k) a = (update a k none, value (View.seen now (a k)))
  spec_step (exists now k) a =
      (a, flag (elim (View.seen now (a k)) [ some _ ↦ true | none ↦ false ]))
  spec_step (set now later k v d) a = (update a k (some (v, expiration later d)), done)
  spec_step (del now k) a = (update a k none, done)
  spec_step (expire now later k d) a = elim (a k) [
    | none ↦ (a, failed not_found)
    | some (v, _) ↦ (update a k (some (v, expiration now d)), done)
  ]
  spec_step (incr now later k) a = elim (View.seen now (a k)) [
    | none ↦ spec_incr a k (pos 0)
    | some v ↦ elim (parse_int v) [ none ↦ (a, failed parse_error) | some n ↦ spec_incr a k n ]
  ]

-- From `now` on, the cache shows what the specification holds.
pub record Agrees (now : ℕ) (s : Memory) (a : Spec) : Type 0 where
  pub connected : View.IsConnected s
  pub views : (t : ℕ) (k : String) → now ≤ t → View.view t k s ≡ View.seen t (a k)

-- Expire may be asked only of a key that is there and has not expired.
abbrev pub Permits : Command → Spec → Type 0
Permits (expire now later k d) a = View.seen now (a k) ≢ none
Permits _ a = Unit
