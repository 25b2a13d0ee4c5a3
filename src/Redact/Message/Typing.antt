-- ===== src/Redact/Message/Typing.antt =====
-- redact/redactor.go: that ApplyWith keeps the types of a message's fields.
use kratos_kit.Base.{◌≡◌, String, ◌<>◌, ◌&&◌, not, Option, none, some}
use kratos_kit.Redact.Context.{Context, PolicyResolver}
use kratos_kit.Redact.Message.{
  FieldDescriptor, Message, Fields, Content, Messages, message, no_more, field, scalar, no_message,
  submessage, values, map_values, messages, map_messages, none_left, at_key, Generated,
  apply_dynamic, value_with, with_tenant, apply_resolved, apply_fields, apply_content,
  apply_messages, sanitize_value, sanitize_message, sanitize_fields, sanitize_content,
  sanitize_messages, apply_redactor, apply_with,
}
use kratos_kit.Redact.Message.Kinds.{
  IsTyped, AreTyped, HasKind, AllTyped, choice-HasKind, choice-AreTyped, or_generated-IsTyped,
  values_with-AreOfKind, map_values_with-HoldKind, sanitize_values-AreOfKind, sanitize_map-HoldKind,
  converted-IsOfKind, sanitize_value-IsOfKind,
}

module _ (g : Generated) (r : PolicyResolver)
    (typed : (ctx : Context) (m m' : Message)
      → g.redact_with ctx r m ≡ some m'
      → IsTyped m
      → IsTyped m') where
  mutual
    unfolding apply_resolved IsTyped

    apply_resolved-IsTyped :
        (ctx : Context) (m : Message) → IsTyped m → IsTyped (apply_resolved g r ctx m)
    apply_resolved-IsTyped ctx (message name valid fs) t =
        or_generated-IsTyped (g.redact_with ctx r (message name valid fs)) _
          (λ m' e. typed ctx (message name valid fs) m' e t)
          (choice-AreTyped valid (apply_fields g r (with_tenant ctx fs) name fs) fs
            (apply_fields-AreTyped (with_tenant ctx fs) name fs t) t)

    apply_fields-AreTyped :
        (ctx : Context) (name : String) (fs : Fields)
        → AreTyped fs
        → AreTyped (apply_fields g r ctx name fs)
    apply_fields-AreTyped ctx name no_more t = tt
    apply_fields-AreTyped ctx name (field d c fs) (t, ts) = (
      apply_content-HasKind ctx (name <> ("." <> d.name)) d c t,
      apply_fields-AreTyped ctx name fs ts,
    )

    apply_content-HasKind :
        (ctx : Context) (ref : String) (d : FieldDescriptor) (c : Content)
        → HasKind d.kind c
        → HasKind d.kind (apply_content g r ctx ref d c)
    apply_content-HasKind ctx ref d (scalar set v) t =
        choice-HasKind (d.has_presence && not set) d.kind (scalar set v)
          (scalar set (value_with ctx r ref d.kind v)) t
          (converted-IsOfKind d.kind v (apply_dynamic ctx r ref v) t)
    apply_content-HasKind ctx ref d no_message t = tt
    apply_content-HasKind ctx ref d (submessage m) t = apply_resolved-IsTyped ctx m t
    apply_content-HasKind ctx ref d (values vs) t = values_with-AreOfKind ctx r ref d.kind vs t
    apply_content-HasKind ctx ref d (map_values vs) t =
        map_values_with-HoldKind ctx r ref d.kind vs t
    apply_content-HasKind ctx ref d (messages ms) t = apply_messages-AllTyped ctx ms t
    apply_content-HasKind ctx ref d (map_messages ms) t = apply_messages-AllTyped ctx ms t

    apply_messages-AllTyped :
        (ctx : Context) (ms : Messages) → AllTyped ms → AllTyped (apply_messages g r ctx ms)
    apply_messages-AllTyped ctx none_left t = tt
    apply_messages-AllTyped ctx (at_key k m ms) (t, ts) =
        (apply_resolved-IsTyped ctx m t, apply_messages-AllTyped ctx ms ts)

module _ (g : Generated) where
  mutual
    unfolding sanitize_message IsTyped

    sanitize_message-IsTyped : (m : Message) → IsTyped m → IsTyped (sanitize_message g m)
    sanitize_message-IsTyped (message name valid fs) t =
        choice-AreTyped valid (sanitize_fields g fs) fs (sanitize_fields-AreTyped fs t) t

    sanitize_fields-AreTyped : (fs : Fields) → AreTyped fs → AreTyped (sanitize_fields g fs)
    sanitize_fields-AreTyped no_more t = tt
    sanitize_fields-AreTyped (field d c fs) (t, ts) =
        (sanitize_content-HasKind d c t, sanitize_fields-AreTyped fs ts)

    sanitize_content-HasKind :
        (d : FieldDescriptor) (c : Content)
        → HasKind d.kind c
        → HasKind d.kind (sanitize_content g d c)
    sanitize_content-HasKind d (scalar set v) t =
        choice-HasKind (d.has_presence && not set) d.kind (scalar set v)
          (scalar set (sanitize_value g d.kind v)) t (sanitize_value-IsOfKind g d.kind v t)
    sanitize_content-HasKind d no_message t = tt
    sanitize_content-HasKind d (submessage m) t = sanitize_message-IsTyped m t
    sanitize_content-HasKind d (values vs) t = sanitize_values-AreOfKind g d.kind vs t
    sanitize_content-HasKind d (map_values vs) t = sanitize_map-HoldKind g d.kind vs t
    sanitize_content-HasKind d (messages ms) t = sanitize_messages-AllTyped ms t
    sanitize_content-HasKind d (map_messages ms) t = sanitize_messages-AllTyped ms t

    sanitize_messages-AllTyped : (ms : Messages) → AllTyped ms → AllTyped (sanitize_messages g ms)
    sanitize_messages-AllTyped none_left t = tt
    sanitize_messages-AllTyped (at_key k m ms) (t, ts) =
        (sanitize_message-IsTyped m t, sanitize_messages-AllTyped ms ts)

-- ApplyWith keeps every scalar of its field's type, in the message and in the messages in it, whatever the
-- resolver is and the policies make of a value, when the code generated for messages does.
pub apply_with-IsTyped :
    (g : Generated) (ctx : Context) (explicit of_context : Option PolicyResolver) (m : Message)
    → ((r : PolicyResolver) (ctx : Context) (m m' : Message)
        → g.redact_with ctx r m ≡ some m'
        → IsTyped m
        → IsTyped m')
    → ((m m' : Message) → g.redact m ≡ some m' → IsTyped m → IsTyped m')
    → IsTyped m
    → IsTyped (apply_with g ctx explicit of_context m)
unfolding apply_with
apply_with-IsTyped g ctx (some r) c m typed redacted t =
    apply_resolved-IsTyped g r (typed r) ctx m t
apply_with-IsTyped g ctx none (some r) m typed redacted t =
    apply_resolved-IsTyped g r (typed r) ctx m t
apply_with-IsTyped g ctx none none m typed redacted t =
    sanitize_message-IsTyped g (apply_redactor g m)
      (or_generated-IsTyped (g.redact m) m (λ m' e. redacted m m' e t) t)
