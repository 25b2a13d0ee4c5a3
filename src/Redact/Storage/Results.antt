-- ===== src/Redact/Storage/Results.antt =====
-- redact/storage_runtime.go: the results that are no errors, and what RestoreString does with the stored
-- text.
use kratos_kit.Base.{
  ◌≡◌, refl, inl, inr, Bool, ◌||◌, not, String, true, false, Option, none, some, Bool-cases, arith,
  if◌then◌else◌,
}
use kratos_kit.Base.Int.{ℤ}
use kratos_kit.Redact.Storage.{Library, StorageError, StorageProtector, Result, ok, failed, ◌>>=◌}
use kratos_kit.Redact.Storage.Table.{
  StorageFieldPolicy, StorageValue, ValueStore, RedactStorage, is_positive, is_negative,
  is_not_found,
}
use kratos_kit.Redact.Storage.Runtime.{restore_string, restored, restore_in}

-- What a test that ends in an error leaves
module _ {A : Type 0} where
  pub ok-else :
      (b : Bool) (e : StorageError) (x : Result A) (y : A)
      → (if b then failed e else x) ≡ ok y
      → x ≡ ok y
  ok-else true e x y h = absurd (ground arith)
  ok-else false e x y h = h

  pub ok-then :
      (b : Bool) (e : StorageError) (x : Result A) (y : A)
      → (if b then x else failed e) ≡ ok y
      → x ≡ ok y
  ok-then true e x y h = h
  ok-then false e x y h = absurd (ground arith)

  pub ok_inj : (x y : A) → ok x ≡ ok y → x ≡ y
  ok_inj x y h = ground (arith, h)

pub ok-bind :
    {A B : Type 0} (r : Result A) (f : A → Result B) (y : B)
    → (r >>= f) ≡ ok y
    → (x : A) × ((r ≡ ok x) × (f x ≡ ok y))
ok-bind (ok x) f y h = (x, (refl, h))
ok-bind (failed e) f y h = absurd (ground arith)

not_plain :
    (old plain : String) → ◌≡◌ {A = Result (String × Bool)} (ok (old, false)) (ok (plain, true)) → ⊥
not_plain old plain h = ground (arith, ok_inj (old, false) (plain, true) h)

-- RestoreString looks at the stored text only where it finds nothing.
module _ (lib : Library) (p : StorageFieldPolicy) (old new plain : String) where
  restored_any :
      (pr : Option StorageProtector) (found : Result StorageValue)
      → restored lib pr p old found ≡ ok (plain, true)
      → restored lib pr p new found ≡ ok (plain, true)
  restored_any pr (ok v) h = h
  restored_any pr (failed e) h =
      absurd (not_plain old plain (ok-then (is_not_found e) e (ok (old, false)) (plain, true) h))

  restore_in_any :
      {S : Type 0} (store : Option (ValueStore S)) (pr : Option StorageProtector) (record_id : ℤ)
      (table : S)
      → restore_in lib store pr p record_id old table ≡ ok (plain, true)
      → restore_in lib store pr p record_id new table ≡ ok (plain, true)
  restore_in_any none pr record_id table h = absurd (not_plain old plain h)
  restore_in_any (some store) none record_id table h = absurd (not_plain old plain h)
  restore_in_any (some store) (some pr) record_id table h =
      elim (Bool-cases (is_negative p.tenant_id || not (is_positive record_id))) [
        | inl e ↦ absurd (not_plain old plain (rw e at h))
        | inr e ↦
            rw e (restored_any (some pr) (store.find p.tenant_id p.id record_id table) (rw e at h))
      ]

  pub restore_string_any :
      {S E : Type 0} (s : Option (RedactStorage S E)) (record_id : ℤ) (table : S)
      → restore_string lib s p record_id old table ≡ ok (plain, true)
      → restore_string lib s p record_id new table ≡ ok (plain, true)
  unfolding restore_string
  restore_string_any none record_id table h = absurd (not_plain old plain h)
  restore_string_any (some s) record_id table h =
      restore_in_any s.value_store s.protector record_id table h
