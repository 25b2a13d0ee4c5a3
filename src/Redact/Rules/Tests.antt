-- ===== src/Redact/Rules/Tests.antt =====
-- redact/redactor.go: rules at one JSON text, with a library that knows the rule of ENCRYPT only.
use kratos_kit.Base.{◌≡◌, refl, String, true, none, some, [], ◌∷◌}
use kratos_kit.Base.Text.{equal_fold}
use kratos_kit.Base.Dict.{Dict, lookup, insert}
use kratos_kit.Redact.Policy.{apply_rule}
use kratos_kit.Redact.Text.{mask_with_min}
use kratos_kit.Redact.Rules.{
  RuleLibrary, mask_by, bad, bad_rule, find_fold, register_custom_redactor, apply_custom_redactor,
}
use kratos_kit.Redact.Rules.Make.{decode, new_rule_transform, new_field_policy, transform_text}

abbrev sample : RuleLibrary String
sample = record {
  unmarshal = λ s. some (("ENCRYPT", "AES_GCM") ∷ []);
  to_encrypt = λ raw. some raw;
  to_mask = λ raw. none;
  to_regex = λ raw. none;
  to_email = λ raw. none;
  to_truncate = λ raw. none;
  to_hash = λ raw. none;
  to_ip = λ raw. none;
  to_url = λ raw. none;
  to_fixed_length = λ raw. none;
  to_custom = λ raw. none;
  to_upper = λ s. "ENCRYPT";
  to_lower = λ s. "encrypt";
  trim_space = λ s. s;
  equal_fold = λ s t. equal_fold s t;
  compiles = λ p. true;
  replace_all = λ p r s. s;
  digest_of = λ a s. s;
  uuid_of = λ s. s;
  parse_ip = λ s. none;
  mask_url = λ q c s. s;
}

masked_text : transform_text sample [] (mask_by 1 1 0 "*") "abcd" ≡ some "a**d"
unfolding mask_with_min
masked_text = refl

unregistered_text :
    apply_custom_redactor (register_custom_redactor "a" none []) "a" "text" ≡ "[REDACTED]"
unfolding lookup insert
unregistered_text = refl

-- NewFieldPolicy refuses the rule that newRuleTransform has made: it looks for the key in small letters.
refuses : new_field_policy sample [] apply_rule "encrypt" "{}" ≡ bad bad_rule
unfolding new_field_policy new_rule_transform decode lookup find_fold equal_fold
refuses = refl
