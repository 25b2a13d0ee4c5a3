-- ===== src/Redact/Message/Tests.antt =====
-- redact/redactor.go: ApplyWith on a message with a list, a map and messages in it.
use kratos_kit.Base.{
  ◌≡◌, refl, String, true, false, none, some, [], ◌∷◌, ◌==◌, arith, if◌then◌else◌,
}
use kratos_kit.Base.Int.{pos}
use kratos_kit.Redact.Policy.{nil, int64, string, hide, apply_rule}
use kratos_kit.Redact.Rules.{on_text}
use kratos_kit.Redact.Context.{PolicyResolver, background}
use kratos_kit.Redact.Message.{
  FieldDescriptor, Message, message, no_more, field, scalar, values, messages, at_key, none_left,
  string_kind, int64_kind, message_kind, Generated, apply_with,
}
use kratos_kit.Redact.Message.Kinds.{IsTyped}
use kratos_kit.Redact.Message.Typing.{apply_with-IsTyped}
use kratos_kit.Redact.Message.Zeros.{Hides}
use kratos_kit.Redact.Message.Hiding.{apply_with-Hides}

abbrev no_code : Generated
no_code = record { redact_with = λ ctx r m. none; redact = λ m. none; sanitize_text = λ s. s }

abbrev described : String → FieldDescriptor
described name = record { name = name; kind = string_kind; has_presence = false }

abbrev tenant : FieldDescriptor
tenant = record { name = "tenant_id"; kind = int64_kind; has_presence = false }

abbrev friends : FieldDescriptor
friends = record { name = "friends"; kind = message_kind; has_presence = false }

abbrev friend : String → Message
friend phone =
    message "user.User" true (field (described "phone") (scalar false (string phone)) no_more)

abbrev user : Message
user = message "user.User" true (
    field tenant (scalar false (int64 (pos 5))) (
      field (described "phone") (scalar false (string "13812345678")) (
        field (described "notes") (values (string "a" ∷ string "b" ∷ []))
          (field friends (messages (at_key nil (friend "139") none_left)) no_more))))

abbrev hide_phone : PolicyResolver
hide_phone ctx ref =
    if ref == "user.User.phone"
    then some (record { mode = hide; transform = none })
    else some (record { mode = apply_rule; transform = some (on_text (λ s. "x")) })

not_some : {A : Type 0} (x : A) → none ≡ some x → ⊥
not_some x h = ground arith

user_redacted :
    apply_with no_code background (some hide_phone) none user
    ≡ message "user.User" true (
        field tenant (scalar false (int64 (pos 5))) (
          field (described "phone") (scalar false (string "")) (
            field
              (described "notes")
              (values (string "x" ∷ string "x" ∷ []))
              (field friends (messages (at_key nil (friend "") none_left)) no_more))))
unfolding apply_with
user_redacted = refl

apply_with-IsTyped_example : IsTyped (apply_with no_code background (some hide_phone) none user)
unfolding IsTyped
apply_with-IsTyped_example =
    apply_with-IsTyped no_code background (some hide_phone) none user
      (λ r ctx m m' e t. absurd (not_some m' e)) (λ m m' e t. absurd (not_some m' e))
      (refl, (refl, ((refl, (refl, tt)), (((refl, tt), tt), tt))))

apply_with-Hides_example :
    Hides "user.User.phone" (apply_with no_code background (some hide_phone) none user)
unfolding IsTyped
apply_with-Hides_example =
    apply_with-Hides no_code background hide_phone none "user.User.phone" user (λ ctx. refl)
      (λ ctx m m' e t. absurd (not_some m' e))
      (refl, (refl, ((refl, (refl, tt)), (((refl, tt), tt), tt))))
