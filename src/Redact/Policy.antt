-- ===== src/Redact/Policy.antt =====
-- redact/redactor.go: the policy for one field, and the values it is applied to.
use kratos_kit.Base.{ℕ, String, Bool, false, Option, none, some, List, []}
use kratos_kit.Base.Int.{ℤ, pos}

-- A value of type any: nil, or a scalar as protoreflect hands it out (floats by their bits)
pub data Any : Type 0 where
  nil : Any
  bool : Bool → Any
  int32 int64 enum_number : ℤ → Any
  uint32 uint64 float32 float64 : ℕ → Any
  string : String → Any
  bytes : List ℕ → Any

-- PolicyMode; a mode that is none of the three is `unknown`
pub data PolicyMode : Type 0 where
  apply_rule hide full unknown : PolicyMode

-- FieldPolicy, less the fields that only describe where it comes from
pub record FieldPolicy : Type 0 where
  pub mode : PolicyMode
  pub transform : Option (Any → Any)

-- hiddenValue
abbrev pub hidden_value : Any → Any
hidden_value nil = nil
hidden_value (bool b) = bool false
hidden_value (int32 n) = int32 (pos 0)
hidden_value (int64 n) = int64 (pos 0)
hidden_value (enum_number n) = enum_number (pos 0)
hidden_value (uint32 n) = uint32 0
hidden_value (uint64 n) = uint64 0
hidden_value (float32 n) = float32 0
hidden_value (float64 n) = float64 0
hidden_value (string s) = string ""
hidden_value (bytes b) = bytes []

abbrev transformed : Option (Any → Any) → Any → Any
transformed none value = value
transformed (some f) value = f value

abbrev by_mode : PolicyMode → Option (Any → Any) → Any → Any
by_mode apply_rule f value = transformed f value
by_mode hide f value = hidden_value value
by_mode full f value = value
by_mode unknown f value = value

-- FieldPolicy.Apply
abbrev pub apply : FieldPolicy → Any → Any
apply p value = by_mode p.mode p.transform value
