-- ===== src/Redact/Storage/Runtime/Written.antt =====
-- redact/storage_runtime.go: what PrepareEntityWithPolicies writes to an entity.
use kratos_kit.Base.{
  ℕ, ◌≡◌, refl, sym, ap, ◌∙◌, String, Bool, true, false, Option, none, some, List, [], ◌∷◌, ◌++◌,
  ◌==◌, All, arith,
}
use kratos_kit.Base.Int.{ℤ}
use kratos_kit.Redact.Policy.{
  Any, apply, nil, bool, int32, int64, enum_number, uint32, uint64, float32, float64, string, bytes,
}
use kratos_kit.Redact.Storage.{Bytes, Library, StorageError, Result, ok, failed}
use kratos_kit.Redact.Storage.Table.{StorageFieldPolicy, StorageValue, FieldAccessor, RedactStorage}
use kratos_kit.Redact.Storage.Kept.{prepare_string-by_rule}
use kratos_kit.Redact.Storage.Runtime.{prepare_string}
use kratos_kit.Redact.Storage.Runtime.Entities.{
  and_then, with_error, write_field, prepare_value, prepare_fields, prepare_with,
  prepare_entity_with_policies, put_some,
}

-- What the access to fields promises: a text that was set is read, and no other field has changed.
pub record IsAccessor {E : Type 0} (acc : FieldAccessor E) : Type 0 where
  pub reads :
      (e e' : E) (c t : String)
      → acc.set_column e c (string t) ≡ (e', none)
      → acc.value_of e' c ≡ ok (string t, t == "")
  pub keeps :
      (e e' : E) (c d t : String)
      → acc.set_column e c (string t) ≡ (e', none)
      → (c == d) ≡ false
      → acc.value_of e' d ≡ acc.value_of e d

ok_pair : {E A : Type 0} (e e' : E) (x y : A) → ◌≡◌ {A = E × Result A} (e, ok x) (e', ok y) → e ≡ e'
ok_pair e e' x y h = ap (λ r. r.0) h

failed_pair :
    {E A : Type 0} (e e' : E) (err : StorageError) (y : A)
    → ◌≡◌ {A = E × Result A} (e, failed err) (e', ok y)
    → ⊥
failed_pair e e' err y h = not_ok (ap (λ r. r.1) h)
  where
    not_ok : failed err ≡ ok y → ⊥
    not_ok h = ground arith

module _ {E : Type 0} where
  and_then-ok :
      {A B : Type 0} (x : E × Result A) (f : A → E → E × Result B) (e' : E) (y : B)
      → and_then x f ≡ (e', ok y)
      → (e : E) × ((v : A) × ((x ≡ (e, ok v)) × (f v e ≡ (e', ok y))))
  and_then-ok (e, ok v) f e' y h = (e, (v, (refl, h)))
  and_then-ok (e, failed err) f e' y h = absurd (failed_pair e e' err y h)

  with_error-ok :
      {A : Type 0} (x : A) (r : E × Option StorageError) (e' : E) (y : A)
      → with_error x r ≡ (e', ok y)
      → r ≡ (e', none)
  with_error-ok x (e, none) e' y h = ap (λ e. (e, none)) (ok_pair e e' x y h)
  with_error-ok x (e, some err) e' y h = absurd (failed_pair e e' err y h)

  -- A write that is no error has set the text that was prepared.
  write_field-ok :
      (acc : FieldAccessor E) (c : String) (e : E) (r : Result (String × Option StorageValue))
      (e' : E) (y : Option StorageValue)
      → write_field acc c e r ≡ (e', ok y)
      → (t : String) × ((v : Option StorageValue) × ((r ≡ ok (t, v))
            × (acc.set_column e c (string t) ≡ (e', none))))
  write_field-ok acc c e (failed err) e' y h = absurd (failed_pair e e' err y h)
  write_field-ok acc c e (ok (t, v)) e' y h =
      (t, (v, (refl, with_error-ok v (acc.set_column e c (string t)) e' y h)))

module _ (lib : Library) {S E : Type 0} (acc : FieldAccessor E) (lawful : IsAccessor acc)
    (s : RedactStorage S E) where
  prepare_value-keeps :
      (random : Option Bytes) (p : StorageFieldPolicy) (e e' : E) (o : Result (Any × Bool))
      (v : Option StorageValue) (d : String)
      → prepare_value lib acc random s p e o ≡ (e', ok v)
      → (p.column_name == d) ≡ false
      → acc.value_of e' d ≡ acc.value_of e d
  prepare_value-keeps random p e e' (failed err) v d h n = absurd (failed_pair e e' err v h)
  prepare_value-keeps random p e e' (ok (x, true)) v d h n =
      ap (λ e. acc.value_of e d) (sym (ok_pair e e' none v h))
  prepare_value-keeps random p e e' (ok (nil, false)) v d h n =
      ap (λ e. acc.value_of e d) (sym (ok_pair e e' none v h))
  prepare_value-keeps random p e e' (ok (string t, false)) v d h n =
      let (u, (w, (q, set))) =
        write_field-ok acc p.column_name e (prepare_string lib random (some s) p t) e' v h in
      lawful.keeps e e' p.column_name d u set n
  prepare_value-keeps random p e e' (ok (bool b, false)) v d h n = absurd (failed_pair e e' _ v h)
  prepare_value-keeps random p e e' (ok (int32 b, false)) v d h n = absurd (failed_pair e e' _ v h)
  prepare_value-keeps random p e e' (ok (int64 b, false)) v d h n = absurd (failed_pair e e' _ v h)
  prepare_value-keeps random p e e' (ok (enum_number b, false)) v d h n =
      absurd (failed_pair e e' _ v h)
  prepare_value-keeps random p e e' (ok (uint32 b, false)) v d h n = absurd (failed_pair e e' _ v h)
  prepare_value-keeps random p e e' (ok (uint64 b, false)) v d h n = absurd (failed_pair e e' _ v h)
  prepare_value-keeps random p e e' (ok (float32 b, false)) v d h n =
      absurd (failed_pair e e' _ v h)
  prepare_value-keeps random p e e' (ok (float64 b, false)) v d h n =
      absurd (failed_pair e e' _ v h)
  prepare_value-keeps random p e e' (ok (bytes b, false)) v d h n = absurd (failed_pair e e' _ v h)

  -- The loop leaves every column alone that none of its policies names.
  prepare_fields-keeps :
      (random : ℕ → Option Bytes) (ps : List StorageFieldPolicy) (m m' : List (ℤ × StorageValue))
      (e e' : E) (d : String)
      → prepare_fields lib acc random s ps m e ≡ (e', ok m')
      → All (λ p. (p.column_name == d) ≡ false) ps
      → acc.value_of e' d ≡ acc.value_of e d
  unfolding prepare_fields
  prepare_fields-keeps random [] m m' e e' d h n =
      ap (λ e. acc.value_of e d) (sym (ok_pair e e' m m' h))
  prepare_fields-keeps random (p ∷ ps) m m' e e' d h (n, ns) =
      let (e1, (v, (first, rest))) =
        and_then-ok (prepare_value lib acc _ s p e (acc.value_of e p.column_name)) _ e' m' h in
      prepare_fields-keeps random ps (put_some p.id v m) m' e1 e' d rest ns
      ∙ prepare_value-keeps _ p e e1 (acc.value_of e p.column_name) v d first n

  -- For the first policy of those that are left
  prepare_fields-by_rule :
      (random : ℕ → Option Bytes) (p : StorageFieldPolicy) (ps : List StorageFieldPolicy)
      (m m' : List (ℤ × StorageValue)) (e e' : E) (text : String)
      → prepare_fields lib acc random s (p ∷ ps) m e ≡ (e', ok m')
      → All (λ q. (q.column_name == p.column_name) ≡ false) ps
      → acc.value_of e p.column_name ≡ ok (string text, false)
      → (text == "") ≡ false
      → (stored : String) × ((apply p.rule (string text) ≡ string stored)
          × (acc.value_of e' p.column_name ≡ ok (string stored, stored == "")))
  unfolding prepare_fields
  prepare_fields-by_rule random p ps m m' e e' text h distinct held ne =
      let (e1, (v, (first, rest))) =
        and_then-ok (prepare_value lib acc _ s p e (acc.value_of e p.column_name)) _ e' m' h in
      let (u, (w, (prepared, set))) =
        write_field-ok acc p.column_name e (prepare_string lib _ (some s) p text) e1 v
          (rw held at first) in
      (
        u,
        (
          prepare_string-by_rule lib _ s p text u w ne prepared,
          prepare_fields-keeps random ps (put_some p.id v m) m' e1 e' p.column_name rest distinct
              ∙ lawful.reads e e1 p.column_name u set,
        ),
      )

  -- For a policy behind others
  prepare_fields-behind :
      (random : ℕ → Option Bytes) (qs : List StorageFieldPolicy) (p : StorageFieldPolicy)
      (ps : List StorageFieldPolicy) (m m' : List (ℤ × StorageValue)) (e e' : E) (text : String)
      → prepare_fields lib acc random s (qs ++ (p ∷ ps)) m e ≡ (e', ok m')
      → All (λ q. (q.column_name == p.column_name) ≡ false) qs
      → All (λ q. (q.column_name == p.column_name) ≡ false) ps
      → acc.value_of e p.column_name ≡ ok (string text, false)
      → (text == "") ≡ false
      → (stored : String) × ((apply p.rule (string text) ≡ string stored)
          × (acc.value_of e' p.column_name ≡ ok (string stored, stored == "")))
  unfolding prepare_fields
  prepare_fields-behind random [] p ps m m' e e' text h before behind held ne =
      prepare_fields-by_rule random p ps m m' e e' text h behind held ne
  prepare_fields-behind random (q ∷ qs) p ps m m' e e' text h (n, ns) behind held ne =
      let (e1, (v, (first, rest))) =
        and_then-ok (prepare_value lib acc _ s q e (acc.value_of e q.column_name)) _ e' m' h in
      prepare_fields-behind random qs p ps (put_some q.id v m) m' e1 e' text rest ns behind
        (prepare_value-keeps _ q e e1 (acc.value_of e q.column_name) v p.column_name first n ∙ held)
        ne

not_empty :
    {E : Type 0} (lib : Library) {S : Type 0} (acc : FieldAccessor E) (random : ℕ → Option Bytes)
    (s : RedactStorage S E) (e : E) (qs : List StorageFieldPolicy) (p : StorageFieldPolicy)
    (ps : List StorageFieldPolicy)
    → prepare_with lib (some acc) random s e (qs ++ (p ∷ ps))
      ≡ prepare_fields lib acc random s (qs ++ (p ∷ ps)) [] e
not_empty lib acc random s e [] p ps = refl
not_empty lib acc random s e (q ∷ qs) p ps = refl

-- When PrepareEntityWithPolicies ends without an error, a field that held a text which is not empty holds
-- what the rule of its policy makes of the text, wherever the policy stands in the list, if no other
-- policy names its column.
pub prepare_entity_with_policies-by_rule :
    (lib : Library) {S E : Type 0} (is_nil : E → Bool) (random : ℕ → Option Bytes)
    (s : RedactStorage S E) (acc : FieldAccessor E) (qs : List StorageFieldPolicy)
    (p : StorageFieldPolicy) (ps : List StorageFieldPolicy) (m : List (ℤ × StorageValue)) (e e' : E)
    (text : String)
    → s.field_accessor ≡ some acc
    → IsAccessor acc
    → is_nil e ≡ false
    → prepare_entity_with_policies lib is_nil random (some s) e (qs ++ (p ∷ ps)) ≡ (e', ok m)
    → All (λ q. (q.column_name == p.column_name) ≡ false) qs
    → All (λ q. (q.column_name == p.column_name) ≡ false) ps
    → acc.value_of e p.column_name ≡ ok (string text, false)
    → (text == "") ≡ false
    → (stored : String) × ((apply p.rule (string text) ≡ string stored)
        × (acc.value_of e' p.column_name ≡ ok (string stored, stored == "")))
unfolding prepare_entity_with_policies
prepare_entity_with_policies-by_rule lib is_nil random s acc qs p ps m e e' text has lawful not_nil
      h before behind held ne =
    let run : prepare_with lib s.field_accessor random s e (qs ++ (p ∷ ps)) ≡ (e', ok m) =
      rw not_nil at h in
    let here = ap (λ a. prepare_with lib a random s e (qs ++ (p ∷ ps))) (sym has) ∙ run in
    prepare_fields-behind lib acc lawful s random qs p ps [] m e e' text
      (sym (not_empty lib acc random s e qs p ps) ∙ here) before behind held ne
