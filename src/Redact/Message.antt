-- ===== src/Redact/Message.antt =====
-- redact/redactor.go: policies applied to every field of a message and of the messages in it. A message
-- is a tree: its full name, whether it is valid, and its fields in the order of the descriptor. What
-- generated code does, and what SanitizeText makes of a text, are the fields of `Generated`.
pub mod Kinds
pub mod Typing
pub mod Zeros
pub mod Hiding
mod Tests
use kratos_kit.Base.{
  ℕ, String, ◌<>◌, Bool, true, false, ◌&&◌, not, Option, none, some, List, [], ◌∷◌, ◌==◌,
  if◌then◌else◌,
}
use kratos_kit.Base.Int.{ℤ, pos, ltb_ℤ}
use kratos_kit.Redact.Policy.{
  Any, FieldPolicy, apply, nil, bool, int32, int64, enum_number, uint32, uint64, float32, float64,
  string, bytes,
}
use kratos_kit.Redact.Context.{Context, PolicyResolver, with_tenant_id}

-- protoreflect.Kind
pub data Kind : Type 0 where
  bool_kind enum_kind int32_kind sint32_kind uint32_kind int64_kind sint64_kind uint64_kind : Kind
  sfixed32_kind fixed32_kind float_kind sfixed64_kind fixed64_kind double_kind : Kind
  string_kind bytes_kind message_kind group_kind : Kind

-- protoreflect.FieldDescriptor: of a map, the kind of its values
pub record FieldDescriptor : Type 0 where
  pub name : String
  pub kind : Kind
  pub has_presence : Bool

-- What a field holds: a scalar, with whether it is set; a message, or none; and lists and maps of both,
-- a map with its keys.
mutual
  pub data Message : Type 0 where
    message : String → Bool → Fields → Message

  pub data Fields : Type 0 where
    no_more : Fields
    field : FieldDescriptor → Content → Fields → Fields

  pub data Content : Type 0 where
    scalar : Bool → Any → Content
    no_message : Content
    submessage : Message → Content
    values : List Any → Content
    map_values : List (Any × Any) → Content
    messages : Messages → Content
    map_messages : Messages → Content

  -- The messages of a list stand at nil.
  pub data Messages : Type 0 where
    none_left : Messages
    at_key : Any → Message → Messages → Messages

-- What generated code and the library do: RedactWith of a DynamicRedactor and Redact of a Redactor, none
-- for a message that is no such, and SanitizeText
pub record Generated : Type 0 where
  pub redact_with : Context → PolicyResolver → Message → Option Message
  pub redact : Message → Option Message
  pub sanitize_text : String → String

-- dynamicReflectValue: a value that is not of the field's kind is not set
abbrev pub dynamic_reflect_value : Kind → Any → Option Any
dynamic_reflect_value bool_kind (bool b) = some (bool b)
dynamic_reflect_value int32_kind (int32 n) = some (int32 n)
dynamic_reflect_value sint32_kind (int32 n) = some (int32 n)
dynamic_reflect_value sfixed32_kind (int32 n) = some (int32 n)
dynamic_reflect_value int64_kind (int64 n) = some (int64 n)
dynamic_reflect_value sint64_kind (int64 n) = some (int64 n)
dynamic_reflect_value sfixed64_kind (int64 n) = some (int64 n)
dynamic_reflect_value uint32_kind (uint32 n) = some (uint32 n)
dynamic_reflect_value fixed32_kind (uint32 n) = some (uint32 n)
dynamic_reflect_value uint64_kind (uint64 n) = some (uint64 n)
dynamic_reflect_value fixed64_kind (uint64 n) = some (uint64 n)
dynamic_reflect_value float_kind (float32 n) = some (float32 n)
dynamic_reflect_value double_kind (float64 n) = some (float64 n)
dynamic_reflect_value string_kind (string s) = some (string s)
dynamic_reflect_value bytes_kind (bytes b) = some (bytes b)
dynamic_reflect_value enum_kind (enum_number n) = some (enum_number n)
dynamic_reflect_value _ _ = none

-- ApplyDynamic with a resolver, less the value where no policy was found
abbrev applied : Option FieldPolicy → Any → Option Any
applied none value = none
applied (some p) value = some (apply p value)

abbrev pub apply_dynamic : Context → PolicyResolver → String → Any → Option Any
apply_dynamic ctx resolver ref value = applied (resolver ctx ref) value

abbrev or_old : Any → Option Any → Any
or_old old none = old
or_old old (some new) = new

abbrev converted : Kind → Any → Option Any → Any
converted k old none = old
converted k old (some new) = or_old old (dynamic_reflect_value k new)

-- A value of a field of this kind, after what its policy makes of it was set
abbrev pub value_with : Context → PolicyResolver → String → Kind → Any → Any
value_with ctx resolver ref k value = converted k value (apply_dynamic ctx resolver ref value)

-- The values of applyDynamicList and applyDynamicMap
unfoldable pub values_with : Context → PolicyResolver → String → Kind → List Any → List Any
values_with ctx resolver ref k [] = []
values_with ctx resolver ref k (v ∷ vs) =
    value_with ctx resolver ref k v ∷ values_with ctx resolver ref k vs

unfoldable pub map_values_with :
    Context → PolicyResolver → String → Kind → List (Any × Any) → List (Any × Any)
map_values_with ctx resolver ref k [] = []
map_values_with ctx resolver ref k ((key, v) ∷ vs) =
    (key, value_with ctx resolver ref k v) ∷ map_values_with ctx resolver ref k vs

-- The tenant_id of a message, an int64 that is positive; a field of that name is not repeated
abbrev tenant_in : Context → Kind → Content → Context
tenant_in ctx int64_kind (scalar set (int64 id)) =
    if ltb_ℤ (pos 0) id then with_tenant_id ctx id else ctx
tenant_in ctx k c = ctx

unfoldable pub with_tenant : Context → Fields → Context
with_tenant ctx no_more = ctx
with_tenant ctx (field d c fs) =
    let rest = with_tenant ctx fs in if d.name == "tenant_id" then tenant_in ctx d.kind c else rest

abbrev pub or_generated : Option Message → Message → Message
or_generated none m = m
or_generated (some m) _ = m

module _ (g : Generated) (resolver : PolicyResolver) where
  -- ApplyWith under a resolver, with applyDynamicMessage for a message that has no code of its own,
  -- and applyDynamicList and applyDynamicMap
  unfoldable mutual
    unfolding values_with map_values_with with_tenant

    pub apply_resolved : Context → Message → Message
    apply_resolved ctx (message name valid fs) =
        or_generated (g.redact_with ctx resolver (message name valid fs))
          (message name valid (if valid then apply_fields (with_tenant ctx fs) name fs else fs))

    pub apply_fields : Context → String → Fields → Fields
    apply_fields ctx name no_more = no_more
    apply_fields ctx name (field d c fs) =
        field d (apply_content ctx (name <> ("." <> d.name)) d c) (apply_fields ctx name fs)

    pub apply_content : Context → String → FieldDescriptor → Content → Content
    apply_content ctx ref d (scalar set v) =
        if d.has_presence && not set
        then scalar set v
        else scalar set (value_with ctx resolver ref d.kind v)
    apply_content ctx ref d no_message = no_message
    apply_content ctx ref d (submessage m) = submessage (apply_resolved ctx m)
    apply_content ctx ref d (values vs) = values (values_with ctx resolver ref d.kind vs)
    apply_content ctx ref d (map_values vs) =
        map_values (map_values_with ctx resolver ref d.kind vs)
    apply_content ctx ref d (messages ms) = messages (apply_messages ctx ms)
    apply_content ctx ref d (map_messages ms) = map_messages (apply_messages ctx ms)

    pub apply_messages : Context → Messages → Messages
    apply_messages ctx none_left = none_left
    apply_messages ctx (at_key k m ms) = at_key k (apply_resolved ctx m) (apply_messages ctx ms)

module _ (g : Generated) where
  abbrev pub sanitize_value : Kind → Any → Any
  sanitize_value string_kind (string s) = string (g.sanitize_text s)
  sanitize_value k v = v

  unfoldable pub sanitize_values : Kind → List Any → List Any
  sanitize_values k [] = []
  sanitize_values k (v ∷ vs) = sanitize_value k v ∷ sanitize_values k vs

  unfoldable pub sanitize_map : Kind → List (Any × Any) → List (Any × Any)
  sanitize_map k [] = []
  sanitize_map k ((key, v) ∷ vs) = (key, sanitize_value k v) ∷ sanitize_map k vs

  -- sanitizeFreeTextMessage and sanitizeFreeTextMap
  unfoldable mutual
    unfolding sanitize_values sanitize_map

    pub sanitize_message : Message → Message
    sanitize_message (message name valid fs) =
        message name valid (if valid then sanitize_fields fs else fs)

    pub sanitize_fields : Fields → Fields
    sanitize_fields no_more = no_more
    sanitize_fields (field d c fs) = field d (sanitize_content d c) (sanitize_fields fs)

    pub sanitize_content : FieldDescriptor → Content → Content
    sanitize_content d (scalar set v) =
        if d.has_presence && not set then scalar set v else scalar set (sanitize_value d.kind v)
    sanitize_content d no_message = no_message
    sanitize_content d (submessage m) = submessage (sanitize_message m)
    sanitize_content d (values vs) = values (sanitize_values d.kind vs)
    sanitize_content d (map_values vs) = map_values (sanitize_map d.kind vs)
    sanitize_content d (messages ms) = messages (sanitize_messages ms)
    sanitize_content d (map_messages ms) = map_messages (sanitize_messages ms)

    pub sanitize_messages : Messages → Messages
    sanitize_messages none_left = none_left
    sanitize_messages (at_key k m ms) = at_key k (sanitize_message m) (sanitize_messages ms)

-- Apply
abbrev pub apply_redactor : Generated → Message → Message
apply_redactor g m = or_generated (g.redact m) m

-- ApplyWith on a message: the resolver of the call, else that of the context, else the message's own
-- rules and the texts in it
unfoldable pub apply_with :
    Generated → Context → Option PolicyResolver → Option PolicyResolver → Message → Message
unfolding apply_resolved sanitize_message
apply_with g ctx (some resolver) of_context m = apply_resolved g resolver ctx m
apply_with g ctx none (some resolver) m = apply_resolved g resolver ctx m
apply_with g ctx none none m = sanitize_message g (apply_redactor g m)
