-- ===== src/Redact/Rules/Usable.antt =====
-- redact/redactor.go: what newRuleTransform makes of the JSON of a rule.
use kratos_kit.Base.{◌≡◌, String, true, false, some, ◌==◌, ◌||◌}
use kratos_kit.Base.Dict.{Dict}
use kratos_kit.Redact.Rules.{
  or_default, HashAlgorithm, md5, sha1, sha256, Rule, encrypt_by, custom_by, fixed_length_by,
  mask_by, regex_by, email_by, truncate_by, ip_by, hash_by, uuid_by, url_by, RuleResult, made, bad,
  RuleLibrary, Registry, has_custom_redactor,
}

abbrev name_of : HashAlgorithm → String
name_of md5 = "MD5"
name_of sha1 = "SHA1"
name_of sha256 = "SHA256"

-- A mask or suffix that the JSON gives, or leaves to the default
abbrev IsText : String → String → String → Type 0
IsText default given c = (c ≡ or_default given default) × ((c == "") ≡ false)

-- The rule is of the type `t`, holds the parameters that were decoded from `raw`, and can run: its mask
-- is a text, its pattern compiles, its algorithm is the one that is named, and its function is
-- registered.
abbrev pub IsUsableRule : {Raw : Type 0} → RuleLibrary Raw → Registry → String → Raw → Rule → Type 0
IsUsableRule lib reg t raw (encrypt_by a) =
    ((t == "ENCRYPT") ≡ true)
    × (lib.to_encrypt raw ≡ some a)
    × (((a == "AES_GCM") || (a == "SM4_GCM")) ≡ true)
IsUsableRule lib reg t raw (custom_by name) =
    ((t == "CUSTOM") ≡ true)
    × (lib.to_custom raw ≡ some name)
    × (has_custom_redactor reg name ≡ true)
IsUsableRule lib reg t raw (fixed_length_by c) =
    ((t == "FIXED_LENGTH") ≡ true) × (lib.to_fixed_length raw ≡ some c)
IsUsableRule lib reg t raw (mask_by f l n c) =
    ((t == "MASK") ≡ true)
    × ((given : String) × (lib.to_mask raw ≡ some (f, (l, (n, given)))) × IsText "*" given c)
IsUsableRule lib reg t raw (regex_by p r) =
    ((t == "REGEX") ≡ true) × (lib.to_regex raw ≡ some (p, r)) × (lib.compiles p ≡ true)
IsUsableRule lib reg t raw (email_by k d c) =
    ((t == "EMAIL") ≡ true)
    × ((given : String) × (lib.to_email raw ≡ some (k, (d, given))) × IsText "*" given c)
IsUsableRule lib reg t raw (truncate_by n s) =
    ((t == "TRUNCATE") ≡ true)
    × ((given : String) × (lib.to_truncate raw ≡ some (n, given)) × IsText "..." given s)
IsUsableRule lib reg t raw (ip_by n c) =
    ((t == "IP") ≡ true)
    × ((given : String) × (lib.to_ip raw ≡ some (n, given)) × IsText "x" given c)
IsUsableRule lib reg t raw (hash_by a) =
    ((t == "HASH") ≡ true)
    × ((given : String) × (lib.to_hash raw ≡ some given)
        × ((lib.to_upper given == name_of a) ≡ true))
IsUsableRule lib reg t raw uuid_by = (t == "UUID") ≡ true
IsUsableRule lib reg t raw (url_by q c) =
    ((t == "URL") ≡ true)
    × ((given : String) × (lib.to_url raw ≡ some (q, given)) × IsText "*" given c)

module _ {Raw : Type 0} (lib : RuleLibrary Raw) (reg : Registry) (t : String) (raw : Raw) where
  abbrev AllUsable : RuleResult Rule → Type 0
  AllUsable (bad e) = Unit
  AllUsable (made r) = IsUsableRule lib reg t raw r
