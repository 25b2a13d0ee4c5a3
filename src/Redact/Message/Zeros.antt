-- ===== src/Redact/Message/Zeros.antt =====
-- redact/redactor.go: zeros, and messages in which nothing is left of the scalars of a field.
use kratos_kit.Base.{
  ◌≡◌, String, ◌<>◌, true, false, ◌&&◌, not, Option, none, some, List, [], ◌∷◌, arith,
}
use kratos_kit.Base.Int.{pos}
use kratos_kit.Redact.Policy.{
  Any, FieldPolicy, PolicyMode, hide, hidden_value, nil, bool, int32, int64, enum_number, uint32,
  uint64, float32, float64, string, bytes,
}
use kratos_kit.Redact.Message.{
  Kind, bool_kind, enum_kind, int32_kind, sint32_kind, uint32_kind, int64_kind, sint64_kind,
  uint64_kind, sfixed32_kind, fixed32_kind, float_kind, sfixed64_kind, fixed64_kind, double_kind,
  string_kind, bytes_kind, message_kind, group_kind, FieldDescriptor, Message, Fields, Content,
  Messages, message, no_more, field, scalar, no_message, submessage, values, map_values, messages,
  map_messages, none_left, at_key, dynamic_reflect_value, or_old, converted, applied,
}
use kratos_kit.Redact.Message.Kinds.{IsOfKind}

-- The zero of a kind's type
abbrev pub zero_of : Kind → Any
zero_of bool_kind = bool false
zero_of enum_kind = enum_number (pos 0)
zero_of int32_kind = int32 (pos 0)
zero_of sint32_kind = int32 (pos 0)
zero_of sfixed32_kind = int32 (pos 0)
zero_of int64_kind = int64 (pos 0)
zero_of sint64_kind = int64 (pos 0)
zero_of sfixed64_kind = int64 (pos 0)
zero_of uint32_kind = uint32 0
zero_of fixed32_kind = uint32 0
zero_of uint64_kind = uint64 0
zero_of fixed64_kind = uint64 0
zero_of float_kind = float32 0
zero_of double_kind = float64 0
zero_of string_kind = string ""
zero_of bytes_kind = bytes []
zero_of message_kind = nil
zero_of group_kind = nil

abbrev pub AreZero : Kind → List Any → Type 0
AreZero k [] = Unit
AreZero k (v ∷ vs) = (v ≡ zero_of k) × AreZero k vs

abbrev pub HoldZero : Kind → List (Any × Any) → Type 0
HoldZero k [] = Unit
HoldZero k ((key, v) ∷ vs) = (v ≡ zero_of k) × HoldZero k vs

-- Nothing is left of the scalars that a field holds: they are zero, or the field is not set. It asks
-- nothing of a field that holds messages, which no policy hides as a whole.
abbrev pub IsBlank : FieldDescriptor → Content → Type 0
IsBlank d (scalar set v) = (d.has_presence && not set) ≡ false → v ≡ zero_of d.kind
IsBlank d no_message = Unit
IsBlank d (submessage m) = Unit
IsBlank d (values vs) = AreZero d.kind vs
IsBlank d (map_values vs) = HoldZero d.kind vs
IsBlank d (messages ms) = Unit
IsBlank d (map_messages ms) = Unit

-- Nothing is left of the scalars that the field with this full name holds, in a message and in the
-- messages in it. A message
-- that is not valid has nothing to read.
unfoldable mutual
  pub Hides : String → Message → Type 0
  Hides ref (message name true fs) = HidesIn ref name fs
  Hides ref (message name false fs) = Unit

  pub HidesIn : String → String → Fields → Type 0
  HidesIn ref name no_more = Unit
  HidesIn ref name (field d c fs) =
      ((name <> ("." <> d.name)) ≡ ref → IsBlank d c) × (HidesBelow ref c × HidesIn ref name fs)

  pub HidesBelow : String → Content → Type 0
  HidesBelow ref (scalar set v) = Unit
  HidesBelow ref no_message = Unit
  HidesBelow ref (submessage m) = Hides ref m
  HidesBelow ref (values vs) = Unit
  HidesBelow ref (map_values vs) = Unit
  HidesBelow ref (messages ms) = AllHide ref ms
  HidesBelow ref (map_messages ms) = AllHide ref ms

  pub AllHide : String → Messages → Type 0
  AllHide ref none_left = Unit
  AllHide ref (at_key k m ms) = Hides ref m × AllHide ref ms

abbrev pub mode_of : Option FieldPolicy → Option PolicyMode
mode_of none = none
mode_of (some p) = some p.mode

-- Hiding a value of a kind sets the zero of the kind.
hidden_value-zero_of :
    (k : Kind) (v : Any)
    → IsOfKind k v
    → or_old v (dynamic_reflect_value k (hidden_value v)) ≡ zero_of k
hidden_value-zero_of k v t = ground arith

some_inj : {A : Type 0} (x y : A) → some x ≡ some y → x ≡ y
some_inj x y h = ground (arith, h)

pub converted-zero_of :
    (k : Kind) (v : Any) (o : Option FieldPolicy)
    → mode_of o ≡ some hide
    → IsOfKind k v
    → converted k v (applied o v) ≡ zero_of k
converted-zero_of k v none h t = absurd (ground arith)
converted-zero_of k v (some p) h t = rw (some_inj p.mode hide h) (hidden_value-zero_of k v t)
