-- ===== src/Redact/Rules.antt =====
-- redact/redactor.go: newRuleTransform and NewFieldPolicy. The closure that the source makes of a rule is
-- the rule as data, and what it does to a value is rule_transform; a rule runs on texts only. JSON, the
-- cases of letters, regular expressions, digests and URLs are the fields of `RuleLibrary`.
pub mod Make
pub mod Usable
mod Tests
use kratos_kit.Base.{
  ℕ, String, Bool, true, false, Option, none, some, List, [], ◌∷◌, ◌==◌, ◌||◌, if◌then◌else◌,
}
use kratos_kit.Base.Int.{pos}
use kratos_kit.Base.Dict.{Dict, lookup, insert}
use kratos_kit.Redact.Text.{mask_with_min, truncate, email, fixed_length, Ip, ip}
use kratos_kit.Redact.Policy.{
  Any, PolicyMode, apply_rule, hide, full, unknown, nil, bool, int32, int64, enum_number, uint32,
  uint64, float32, float64, string, bytes,
}

-- A rule on texts leaves any other value as it is.
abbrev pub on_text : (String → String) → Any → Any
on_text f (string s) = string (f s)
on_text f nil = nil
on_text f (bool b) = bool b
on_text f (int32 n) = int32 n
on_text f (int64 n) = int64 n
on_text f (enum_number n) = enum_number n
on_text f (uint32 n) = uint32 n
on_text f (uint64 n) = uint64 n
on_text f (float32 n) = float32 n
on_text f (float64 n) = float64 n
on_text f (bytes b) = bytes b

abbrev pub or_default : String → String → String
or_default s d = if s == "" then d else s

-- The closure of MASK
abbrev pub mask_rule : ℕ → ℕ → ℕ → String → Any → Any
mask_rule keep_first keep_last min_mask mask_char = on_text (λ text.
    mask_with_min text (pos keep_first) (pos keep_last) (pos min_mask) (or_default mask_char "*"))

pub data HashAlgorithm : Type 0 where
  md5 sha1 sha256 : HashAlgorithm

-- What a closure of newRuleTransform holds
pub data Rule : Type 0 where
  encrypt_by custom_by fixed_length_by : String → Rule
  mask_by : ℕ → ℕ → ℕ → String → Rule
  regex_by : String → String → Rule
  email_by : ℕ → Bool → String → Rule
  truncate_by ip_by : ℕ → String → Rule
  hash_by : HashAlgorithm → Rule
  uuid_by : Rule
  url_by : Bool → String → Rule

pub data RuleError : Type 0 where
  bad_json missing_rule bad_rule unknown_algorithm unregistered unknown_type unknown_mode :
      RuleError

pub data RuleResult {ℓ} (A : Type ℓ) : Type ℓ where
  made : A → RuleResult A
  bad : RuleError → RuleResult A

-- What the source calls of Go's packages: json.Unmarshal into the map of rules and into the struct of
-- each rule, strings, regexp, the digests in hexadecimal, UUID, net and net/url
pub record RuleLibrary (Raw : Type 0) : Type 0 where
  pub unmarshal : String → Option (Dict Raw)
  pub to_encrypt : Raw → Option String
  pub to_mask : Raw → Option (ℕ × (ℕ × (ℕ × String)))
  pub to_regex : Raw → Option (String × String)
  pub to_email : Raw → Option (ℕ × (Bool × String))
  pub to_truncate : Raw → Option (ℕ × String)
  pub to_hash : Raw → Option String
  pub to_ip : Raw → Option (ℕ × String)
  pub to_url : Raw → Option (Bool × String)
  pub to_fixed_length : Raw → Option String
  pub to_custom : Raw → Option String
  pub to_upper : String → String
  pub to_lower : String → String
  pub trim_space : String → String
  pub equal_fold : String → String → Bool
  pub compiles : String → Bool
  pub replace_all : String → String → String → String
  pub digest_of : HashAlgorithm → String → String
  pub uuid_of : String → String
  pub parse_ip : String → Option Ip
  pub mask_url : Bool → String → String → String

-- customRedactors, with a nil function as none
abbrev pub Registry : Type 0
Registry = Dict (Option (String → String))

-- RegisterCustomRedactor
abbrev pub register_custom_redactor : String → Option (String → String) → Registry → Registry
register_custom_redactor name f reg = insert name f reg

abbrev is_set : Option (Option (String → String)) → Bool
is_set none = false
is_set (some none) = false
is_set (some (some f)) = true

-- HasCustomRedactor
abbrev pub has_custom_redactor : Registry → String → Bool
has_custom_redactor reg name = is_set (lookup name reg)

abbrev run_custom : Option (Option (String → String)) → String → String
run_custom none value = "[REDACTED]"
run_custom (some none) value = "[REDACTED]"
run_custom (some (some f)) value = f value

-- ApplyCustomRedactor
abbrev pub apply_custom_redactor : Registry → String → String → String
apply_custom_redactor reg name value = run_custom (lookup name reg) value

module _ {Raw : Type 0} where
  -- rules[strings.ToLower(ruleType)], else one whose name is the type in any letters
  unfoldable pub find_fold : RuleLibrary Raw → String → Dict Raw → Option Raw
  find_fold lib rule_type [] = none
  find_fold lib rule_type ((key, raw) ∷ rules) =
      let rest = find_fold lib rule_type rules in
      if lib.equal_fold key rule_type then some raw else rest

  abbrev or_fold : Option Raw → Option Raw → Option Raw
  or_fold none other = other
  or_fold (some raw) other = some raw

  abbrev pub find_rule : RuleLibrary Raw → String → Dict Raw → Option Raw
  find_rule lib rule_type rules =
      or_fold (lookup (lib.to_lower rule_type) rules) (find_fold lib rule_type rules)
