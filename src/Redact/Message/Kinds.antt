-- ===== src/Redact/Message/Kinds.antt =====
-- redact/redactor.go: that a message keeps the types of its fields, whatever a policy makes of a value.
use kratos_kit.Base.{
  ◌≡◌, refl, String, Bool, true, false, Option, none, some, List, [], ◌∷◌, arith, if◌then◌else◌,
}
use kratos_kit.Redact.Policy.{
  Any, nil, bool, int32, int64, enum_number, uint32, uint64, float32, float64, string, bytes,
}
use kratos_kit.Redact.Context.{Context, PolicyResolver}
use kratos_kit.Redact.Message.{
  Kind, bool_kind, enum_kind, int32_kind, sint32_kind, uint32_kind, int64_kind, sint64_kind,
  uint64_kind, sfixed32_kind, fixed32_kind, float_kind, sfixed64_kind, fixed64_kind, double_kind,
  string_kind, bytes_kind, message_kind, group_kind, Message, Fields, Content, Messages, message,
  no_more, field, scalar, no_message, submessage, values, map_values, messages, map_messages,
  none_left, at_key, Generated, dynamic_reflect_value, or_old, converted, apply_dynamic,
  values_with, map_values_with, or_generated, sanitize_value, sanitize_values, sanitize_map,
}

-- The types of Go that protoreflect has values of
pub data GoType : Type 0 where
  a_nil a_bool an_int32 an_int64 an_enum a_uint32 a_uint64 a_float32 a_float64 a_string some_bytes
        a_message :
      GoType

abbrev pub type_of : Any → GoType
type_of nil = a_nil
type_of (bool b) = a_bool
type_of (int32 n) = an_int32
type_of (int64 n) = an_int64
type_of (enum_number n) = an_enum
type_of (uint32 n) = a_uint32
type_of (uint64 n) = a_uint64
type_of (float32 n) = a_float32
type_of (float64 n) = a_float64
type_of (string s) = a_string
type_of (bytes b) = some_bytes

abbrev pub type_of_kind : Kind → GoType
type_of_kind bool_kind = a_bool
type_of_kind enum_kind = an_enum
type_of_kind int32_kind = an_int32
type_of_kind sint32_kind = an_int32
type_of_kind sfixed32_kind = an_int32
type_of_kind int64_kind = an_int64
type_of_kind sint64_kind = an_int64
type_of_kind sfixed64_kind = an_int64
type_of_kind uint32_kind = a_uint32
type_of_kind fixed32_kind = a_uint32
type_of_kind uint64_kind = a_uint64
type_of_kind fixed64_kind = a_uint64
type_of_kind float_kind = a_float32
type_of_kind double_kind = a_float64
type_of_kind string_kind = a_string
type_of_kind bytes_kind = some_bytes
type_of_kind message_kind = a_message
type_of_kind group_kind = a_message

-- A value of the type that fields of the kind have
abbrev pub IsOfKind : Kind → Any → Type 0
IsOfKind k v = type_of_kind k ≡ type_of v

abbrev pub AreOfKind : Kind → List Any → Type 0
AreOfKind k [] = Unit
AreOfKind k (v ∷ vs) = IsOfKind k v × AreOfKind k vs

abbrev pub HoldKind : Kind → List (Any × Any) → Type 0
HoldKind k [] = Unit
HoldKind k ((key, v) ∷ vs) = IsOfKind k v × HoldKind k vs

-- Every scalar in the message, and in the messages in it, is of its field's kind.
unfoldable mutual
  pub IsTyped : Message → Type 0
  IsTyped (message name valid fs) = AreTyped fs

  pub AreTyped : Fields → Type 0
  AreTyped no_more = Unit
  AreTyped (field d c fs) = HasKind d.kind c × AreTyped fs

  pub HasKind : Kind → Content → Type 0
  HasKind k (scalar set v) = IsOfKind k v
  HasKind k no_message = Unit
  HasKind k (submessage m) = IsTyped m
  HasKind k (values vs) = AreOfKind k vs
  HasKind k (map_values vs) = HoldKind k vs
  HasKind k (messages ms) = AllTyped ms
  HasKind k (map_messages ms) = AllTyped ms

  pub AllTyped : Messages → Type 0
  AllTyped none_left = Unit
  AllTyped (at_key key m ms) = IsTyped m × AllTyped ms

-- What dynamicReflectValue lets through is of the kind.
dynamic-IsOfKind : (k : Kind) (v w : Any) → dynamic_reflect_value k v ≡ some w → IsOfKind k w
dynamic-IsOfKind k v w h = ground arith

or_old-IsOfKind :
    (k : Kind) (old : Any) (o : Option Any)
    → ((w : Any) → o ≡ some w → IsOfKind k w)
    → IsOfKind k old
    → IsOfKind k (or_old old o)
or_old-IsOfKind k old none h t = t
or_old-IsOfKind k old (some new) h t = h new refl

pub converted-IsOfKind :
    (k : Kind) (old : Any) (o : Option Any) → IsOfKind k old → IsOfKind k (converted k old o)
converted-IsOfKind k old none t = t
converted-IsOfKind k old (some new) t =
    or_old-IsOfKind k old (dynamic_reflect_value k new) (dynamic-IsOfKind k new) t

pub sanitize_value-IsOfKind :
    (g : Generated) (k : Kind) (v : Any) → IsOfKind k v → IsOfKind k (sanitize_value g k v)
sanitize_value-IsOfKind g k v t = ground arith

pub values_with-AreOfKind :
    (ctx : Context) (r : PolicyResolver) (ref : String) (k : Kind) (vs : List Any)
    → AreOfKind k vs
    → AreOfKind k (values_with ctx r ref k vs)
unfolding values_with
values_with-AreOfKind ctx r ref k [] h = tt
values_with-AreOfKind ctx r ref k (v ∷ vs) (t, ts) =
    (converted-IsOfKind k v (apply_dynamic ctx r ref v) t, values_with-AreOfKind ctx r ref k vs ts)

pub map_values_with-HoldKind :
    (ctx : Context) (r : PolicyResolver) (ref : String) (k : Kind) (vs : List (Any × Any))
    → HoldKind k vs
    → HoldKind k (map_values_with ctx r ref k vs)
unfolding map_values_with
map_values_with-HoldKind ctx r ref k [] h = tt
map_values_with-HoldKind ctx r ref k ((key, v) ∷ vs) (t, ts) = (
  converted-IsOfKind k v (apply_dynamic ctx r ref v) t,
  map_values_with-HoldKind ctx r ref k vs ts,
)

pub sanitize_values-AreOfKind :
    (g : Generated) (k : Kind) (vs : List Any)
    → AreOfKind k vs
    → AreOfKind k (sanitize_values g k vs)
unfolding sanitize_values
sanitize_values-AreOfKind g k [] h = tt
sanitize_values-AreOfKind g k (v ∷ vs) (t, ts) =
    (sanitize_value-IsOfKind g k v t, sanitize_values-AreOfKind g k vs ts)

pub sanitize_map-HoldKind :
    (g : Generated) (k : Kind) (vs : List (Any × Any))
    → HoldKind k vs
    → HoldKind k (sanitize_map g k vs)
unfolding sanitize_map
sanitize_map-HoldKind g k [] h = tt
sanitize_map-HoldKind g k ((key, v) ∷ vs) (t, ts) =
    (sanitize_value-IsOfKind g k v t, sanitize_map-HoldKind g k vs ts)

-- A choice between two contents of a kind
pub choice-HasKind :
    (b : Bool) (k : Kind) (c d : Content)
    → HasKind k c
    → HasKind k d
    → HasKind k (if b then c else d)
choice-HasKind true k c d x y = x
choice-HasKind false k c d x y = y

pub choice-AreTyped :
    (b : Bool) (c d : Fields) → AreTyped c → AreTyped d → AreTyped (if b then c else d)
choice-AreTyped true c d x y = x
choice-AreTyped false c d x y = y

pub or_generated-IsTyped :
    (o : Option Message) (m : Message)
    → ((m' : Message) → o ≡ some m' → IsTyped m')
    → IsTyped m
    → IsTyped (or_generated o m)
or_generated-IsTyped none m h t = t
or_generated-IsTyped (some m') m h t = h m' refl
