-- ===== src/Redact/Storage/Kept.antt =====
-- redact/storage_runtime.go: what PrepareString stores in the entity, and the texts that the rule leaves
-- as they are.
use kratos_kit.Base.{
  ℕ, ◌≡◌, refl, ap, ◌∙◌, ◌⊎◌, inl, inr, String, true, false, Option, none, some, [], ◌∷◌, ◌==◌,
  eq_iff, eq_refl, Bool-cases, arith,
}
use Prim.Native.Char.{Char}
use kratos_kit.Base.Text.{of_chars}
use kratos_kit.Base.Int.{ℤ, pos}
use kratos_kit.Redact.Policy.{Any, apply, apply_rule, string}
use kratos_kit.Redact.Rules.{mask_rule}
use kratos_kit.Redact.Text.{mask_with_min}
use kratos_kit.Redact.Text.Mask.{mask_with_min-again}
use kratos_kit.Redact.Storage.{
  Bytes, Library, StorageProtector, ok, bad_rule, bad_policy, encrypt, digest,
}
use kratos_kit.Redact.Storage.Table.{
  StorageFieldPolicy, StorageValue, RedactStorage, is_positive, save_prepared,
}
use kratos_kit.Redact.Storage.Runtime.{
  is_invalid, has_rule, side_value, protected, masked_with, as_string, prepare_string,
  restore_string, restored, storage_associated_data, storage_digest_data,
}
use kratos_kit.Base.Text.{cons_not_nil}
use kratos_kit.Redact.Storage.Seal.{Seals}
use kratos_kit.Redact.Storage.Restore.{IsUsable, IsSetUp, IsTable, restore_string-saved}
use kratos_kit.Redact.Storage.Results.{ok-else, ok-then, ok_inj, ok-bind, restore_string_any}

as_string-ok :
    (lib : Library) (x : Any) (text : String) → as_string lib x ≡ ok text → x ≡ string text
as_string-ok lib x text h = ground arith

module _ (lib : Library) {S E : Type 0} (random : Option Bytes) (s : RedactStorage S E)
    (p : StorageFieldPolicy) where
  prepare_string-unchanged :
      (value : String)
      → IsSetUp s
      → IsUsable p
      → (value ≡ "") ⊎ (apply p.rule (string value) ≡ string value)
      → prepare_string lib random (some s) p value ≡ ok (value, none)
  unfolding prepare_string
  prepare_string-unchanged value set usable (inl e) = rw e
  prepare_string-unchanged value set usable (inr e) =
      rw (usable.valid, usable.ruled, set.has_protector, e, eq_refl value) (ground arith)

  protected-stored :
      (pr : Option StorageProtector) (value masked stored : String) (o : Option StorageValue)
      → protected lib random pr p value masked ≡ ok (stored, o)
      → masked ≡ stored
  protected-stored pr value masked stored o h = elim (Bool-cases (masked == value)) [
    | inl e ↦
        (eq_iff masked value).0 e ∙ ap (λ r. r.0) (ok_inj (value, none) (stored, o) (rw e at h))
    | inr e ↦
        let (text, (q, h)) =
          ok-bind (encrypt lib random pr value (storage_associated_data lib p.tenant_id p.id)) _
            (stored, o) (rw e at h) in
        let (d, (q, h)) =
          ok-bind (digest lib pr value (storage_digest_data lib p.tenant_id p.id)) _ (stored, o)
            h in
        ap (λ r. r.0) (ok_inj (masked, some (side_value lib p text d)) (stored, o) h)
  ]

  masked_with-stored :
      (pr : Option StorageProtector) (value stored : String) (o : Option StorageValue)
      → masked_with lib random pr p value ≡ ok (stored, o)
      → apply p.rule (string value) ≡ string stored
  masked_with-stored none value stored o h = absurd (ground arith)
  masked_with-stored (some pr) value stored o h =
      let (masked, (q, h)) =
        ok-bind (as_string lib (apply p.rule (string value))) _ (stored, o) h in
      as_string-ok lib (apply p.rule (string value)) masked q
      ∙ ap (λ t. string t) (protected-stored (some pr) value masked stored o h)

  -- Whatever PrepareString stores in the entity for a text that is not empty is what the rule makes of it.
  pub prepare_string-by_rule :
      (value stored : String) (o : Option StorageValue)
      → (value == "") ≡ false
      → prepare_string lib random (some s) p value ≡ ok (stored, o)
      → apply p.rule (string value) ≡ string stored
  unfolding prepare_string
  prepare_string-by_rule value stored o ne h = masked_with-stored s.protector value stored o (
      ok-then (has_rule p.rule.mode p.rule.transform) bad_rule _ (stored, o)
        (ok-else (is_invalid p) bad_policy _ (stored, o) (rw ne at h)))

  -- Under a valid policy with a rule, a text that is empty or that the rule leaves as it is is stored as it
  -- is and gives no side value: the side table stays, and where RestoreString gave back a text before, it
  -- still gives that text, which need not be this one.
  pub restore_string-kept :
      (value old plain : String) (record_id : ℤ) (table : S)
      → IsSetUp s
      → IsUsable p
      → (value ≡ "") ⊎ (apply p.rule (string value) ≡ string value)
      → restore_string lib (some s) p record_id old table ≡ ok (plain, true)
      → (prepare_string lib random (some s) p value ≡ ok (value, none))
        × ((save_prepared (some s) none record_id table ≡ (table, none))
            × (restore_string lib (some s) p record_id value table ≡ ok (plain, true)))
  unfolding save_prepared
  restore_string-kept value old plain record_id table set usable same before = (
    prepare_string-unchanged value set usable same,
    (refl, restore_string_any lib p old value plain (some s) record_id table before),
  )

  -- Under a valid policy with a MASK rule of a single character, with a protector that can seal and a table
  -- that saves what it is given and finds it again: a text that is not empty and not its own mask is stored
  -- masked; when the mask comes back in place of the text, it is stored as it is, and RestoreString gives
  -- the text that was saved for the record.
  pub restore_string-remasked :
      (value : String) (keep_first keep_last min_mask : ℕ) (c : Char) (record_id : ℤ) (table : S)
      (set : IsSetUp s)
      → IsUsable p
      → Seals lib random (some set.protector)
      → IsTable set.store
      → p.rule ≡ record {
        mode = apply_rule;
        transform = some (mask_rule keep_first keep_last min_mask (of_chars (c ∷ [])));
      }
      → (value == "") ≡ false
      → (mask_with_min value (pos keep_first) (pos keep_last) (pos min_mask) (of_chars (c ∷ []))
          == value)
        ≡ false
      → is_positive record_id ≡ true
      → ((v : StorageValue) → (save_prepared (some s) (some v) record_id table).1 ≡ none)
      → (v : StorageValue) × ((masked : String) × ((prepare_string lib random (some s) p value
              ≡ ok (masked, some v))
            × ((prepare_string lib random (some s) p masked ≡ ok (masked, none))
                × (restore_string lib
                      (some s)
                      p
                      record_id
                      masked
                      (save_prepared (some s) (some v) record_id table).0
                    ≡ ok (value, true)))))
  unfolding mask_with_min
  restore_string-remasked value keep_first keep_last min_mask c record_id table set usable seals
        is_table rule ne changed positive saves =
      let masked =
        mask_with_min value (pos keep_first) (pos keep_last) (pos min_mask) (of_chars (c ∷ [])) in
      let of_rule : (x y : String)
          → mask_with_min x (pos keep_first) (pos keep_last) (pos min_mask) (of_chars (c ∷ [])) ≡ y
          → apply p.rule (string x) ≡ string y =
        λ x y e. rw (rule, cons_not_nil c "") (ap (λ t. string t) e) in
      let (v, (prepared, (restored, found))) =
        restore_string-saved lib random s p value masked record_id table set usable seals is_table
          ne changed (of_rule value masked refl) positive saves in
      (
        v,
        (
          masked,
          (
            prepared,
            (
              prepare_string-unchanged masked set usable (
                  inr (
                    of_rule masked masked (
                      mask_with_min-again value (pos keep_first) (pos keep_last) (pos min_mask)
                        c))),
              restored,
            ),
          ),
        ),
      )
