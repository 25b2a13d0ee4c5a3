-- ===== src/Redact/Rules/Make.antt =====
-- redact/redactor.go: the cases of newRuleTransform, and NewFieldPolicy.
use kratos_kit.Base.{ℕ, String, Bool, Option, none, some, ◌==◌, ◌||◌, if◌then◌else◌}
use kratos_kit.Base.Int.{pos}
use kratos_kit.Base.Dict.{Dict, lookup}
use kratos_kit.Redact.Text.{mask_with_min, truncate, email, fixed_length, ip}
use kratos_kit.Redact.Policy.{PolicyMode, apply_rule, hide, full, unknown}
use kratos_kit.Redact.Rules.{
  or_default, md5, sha1, sha256, Rule, encrypt_by, custom_by, fixed_length_by, mask_by, regex_by,
  email_by, truncate_by, ip_by, hash_by, uuid_by, url_by, bad_json, missing_rule, bad_rule,
  unknown_algorithm, unregistered, unknown_type, unknown_mode, RuleResult, made, bad, RuleLibrary,
  Registry, has_custom_redactor, apply_custom_redactor, find_rule,
}

-- Each case of the switch, with what was decoded
abbrev pub encrypt_case : Option String → RuleResult Rule
encrypt_case none = bad bad_rule
encrypt_case (some a) =
    if (a == "AES_GCM") || (a == "SM4_GCM") then made (encrypt_by a) else bad unknown_algorithm

abbrev pub mask_case : Option (ℕ × (ℕ × (ℕ × String))) → RuleResult Rule
mask_case none = bad bad_rule
mask_case (some (f, (l, (n, c)))) = made (mask_by f l n (or_default c "*"))

abbrev pub email_case : Option (ℕ × (Bool × String)) → RuleResult Rule
email_case none = bad bad_rule
email_case (some (k, (d, c))) = made (email_by k d (or_default c "*"))

abbrev pub truncate_case : Option (ℕ × String) → RuleResult Rule
truncate_case none = bad bad_rule
truncate_case (some (n, s)) = made (truncate_by n (or_default s "..."))

abbrev pub algorithm : String → RuleResult Rule
algorithm a =
    if a == "MD5"
    then made (hash_by md5)
    else if a == "SHA1"
    then made (hash_by sha1)
    else if a == "SHA256"
    then made (hash_by sha256)
    else bad unknown_algorithm

abbrev pub ip_case : Option (ℕ × String) → RuleResult Rule
ip_case none = bad bad_rule
ip_case (some (n, c)) = made (ip_by n (or_default c "x"))

abbrev pub url_case : Option (Bool × String) → RuleResult Rule
url_case none = bad bad_rule
url_case (some (q, c)) = made (url_by q (or_default c "*"))

abbrev pub fixed_length_case : Option String → RuleResult Rule
fixed_length_case none = bad bad_rule
fixed_length_case (some c) = made (fixed_length_by c)

abbrev pub custom_case : Registry → Option String → RuleResult Rule
custom_case reg none = bad bad_rule
custom_case reg (some name) =
    if has_custom_redactor reg name then made (custom_by name) else bad unregistered

abbrev pub regex_case :
    {Raw : Type 0} → RuleLibrary Raw → Option (String × String) → RuleResult Rule
regex_case lib none = bad bad_rule
regex_case lib (some (p, r)) = if lib.compiles p then made (regex_by p r) else bad bad_rule

abbrev pub hash_case : {Raw : Type 0} → RuleLibrary Raw → Option String → RuleResult Rule
hash_case lib none = bad bad_rule
hash_case lib (some a) = algorithm (lib.to_upper a)

module _ {Raw : Type 0} (lib : RuleLibrary Raw) where
  -- The switch on the type of the rule
  unfoldable pub decode : Registry → String → Raw → RuleResult Rule
  decode reg t raw =
      if t == "ENCRYPT"
      then encrypt_case (lib.to_encrypt raw)
      else if t == "MASK"
      then mask_case (lib.to_mask raw)
      else if t == "REGEX"
      then regex_case lib (lib.to_regex raw)
      else if t == "EMAIL"
      then email_case (lib.to_email raw)
      else if t == "TRUNCATE"
      then truncate_case (lib.to_truncate raw)
      else if t == "HASH"
      then hash_case lib (lib.to_hash raw)
      else if t == "UUID"
      then made uuid_by
      else if t == "IP"
      then ip_case (lib.to_ip raw)
      else if t == "URL"
      then url_case (lib.to_url raw)
      else if t == "FIXED_LENGTH"
      then fixed_length_case (lib.to_fixed_length raw)
      else if t == "CUSTOM"
      then custom_case reg (lib.to_custom raw)
      else bad unknown_type

  abbrev pub decode_found : Registry → String → Option Raw → RuleResult Rule
  decode_found reg t none = bad missing_rule
  decode_found reg t (some raw) = decode reg t raw

  abbrev pub decode_in : Registry → String → Option (Dict Raw) → RuleResult Rule
  decode_in reg t none = bad bad_json
  decode_in reg t (some rules) = decode_found reg t (find_rule lib t rules)

  -- newRuleTransform
  unfoldable pub new_rule_transform : Registry → String → String → RuleResult Rule
  new_rule_transform reg rule_type rule_json =
      decode_in reg (lib.to_upper (lib.trim_space rule_type)) (lib.unmarshal rule_json)

  -- What a closure makes of a text; none where it leaves no UTF-8
  abbrev pub transform_text : Registry → Rule → String → Option String
  transform_text reg (encrypt_by a) text = some text
  transform_text reg (mask_by f l n c) text = some (mask_with_min text (pos f) (pos l) (pos n) c)
  transform_text reg (regex_by p r) text =
      some (if lib.compiles p then lib.replace_all p r text else text)
  transform_text reg (email_by k d c) text = email text k d c
  transform_text reg (truncate_by n s) text = some (truncate text (pos n) s)
  transform_text reg (hash_by a) text = some (lib.digest_of a text)
  transform_text reg uuid_by text = some (lib.uuid_of text)
  transform_text reg (ip_by n c) text = some (ip lib.parse_ip text n c)
  transform_text reg (url_by q c) text = some (lib.mask_url q c text)
  transform_text reg (fixed_length_by c) text = some (fixed_length text c)
  transform_text reg (custom_by name) text = some (apply_custom_redactor reg name text)

  -- What NewFieldPolicy makes: the mode, the rule, its type and the algorithm of ENCRYPT
  abbrev pub MadePolicy : Type 0
  MadePolicy = PolicyMode × (Option Rule × (String × String))

  abbrev with_algorithm : Rule → String → Option String → RuleResult MadePolicy
  with_algorithm r t none = bad bad_rule
  with_algorithm r t (some a) = made (apply_rule, (some r, (t, a)))

  abbrev to_encrypt_of : Option Raw → Option String
  to_encrypt_of none = none
  to_encrypt_of (some raw) = lib.to_encrypt raw

  abbrev with_rules : Rule → String → Option (Dict Raw) → RuleResult MadePolicy
  with_rules r t none = bad bad_rule
  with_rules r t (some rules) = with_algorithm r t (to_encrypt_of (lookup "encrypt" rules))

  abbrev with_rule : String → String → RuleResult Rule → RuleResult MadePolicy
  with_rule t rule_json (bad e) = bad e
  with_rule t rule_json (made r) =
      if t == "ENCRYPT"
      then with_rules r t (lib.unmarshal rule_json)
      else made (apply_rule, (some r, (t, "")))

  -- NewFieldPolicy; json.Unmarshal fails on the missing text of a key
  unfoldable pub new_field_policy : Registry → PolicyMode → String → String → RuleResult MadePolicy
  new_field_policy reg hide rule_type rule_json = made (hide, (none, ("", "")))
  new_field_policy reg full rule_type rule_json = made (full, (none, ("", "")))
  new_field_policy reg unknown rule_type rule_json = bad unknown_mode
  new_field_policy reg apply_rule rule_type rule_json =
      with_rule (lib.to_upper (lib.trim_space rule_type)) rule_json
        (new_rule_transform reg rule_type rule_json)
